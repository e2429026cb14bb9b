-- ===== src/Lib.antt =====
-- Verification of the driver library of the RobotParty dexterous hand, a CAN FD hand with six axes.
--
-- The program and the modules that model it:
--
--   src/rphand/protocol.cpp, protocol.hpp     Protocol: the bytes of command frames (Encode), of SDO
--                                             requests and replies (Sdo) and of periodic feedback
--                                             (Feedback), and the angles of positions (Kinematics).
--   src/rphand/session.cpp, session.hpp       Session: the feedback snapshot (Receive), the sending of
--                                             frames (Sending), SDO transactions (Transaction), the
--                                             command cache and its commands (Commands, Motion), the
--                                             receiver thread and the waits (Waits). Run puts any
--                                             history of calls together.
--   src/rphand/backends/gs_usb_protocol.hpp   Gs.Wire, Gs.Buffer and Gs.Timing: the records of the USB
--                                             adapter, the buffer that cuts the USB stream into
--                                             them, and the search for a bit timing.
--   src/rphand/backends/gs_usb_drain.hpp      Gs.Drain: the emptying of a stopped adapter.
--   src/rphand/backends/gs_usb_winusb.cpp     Gs.WinUsb: the transport over the adapter. Access and Open
--                                             start it, Search looks for the device, Steps puts its
--                                             calls in any order.
--   src/hand.cpp                              Hand: the queue of the control worker (Queue) and the
--                                             jobs that it runs (World, Configure, Action, Parameter,
--                                             Home, Connect, Jobs). Owners is the set of devices that
--                                             the hands of a process own.
--   src/rphand/transport.cpp                  Transport: the choice of a transport.
--   src/rphand/backends/socketcan.cpp         SocketCan: the frames that it sends and receives, and its
--                                             descriptor (Opening).
--   ros2/rphand_ros/src/rphand_node.cpp       Node: the ROS node over `Hand`. Reset is its way to a
--                                             session, Serve the loop that sends targets and publishes
--                                             the state, Steps the interleaving of its threads.
--   examples/cpp/options.hpp                  Demo: the command line of the example programs.
--
-- Base has the Boolean tests, lists over the native numbers, integers and bit operations that these
-- share. A function has the name of the C++ function that it translates; a loop or a block of a
-- longer function has a name of its own, and a comment says which. The modules named Examples hold
-- the theorems at concrete inputs.
--
-- State is passed explicitly. Session keeps two records, as session.hpp has two mutexes: `Receive` is
-- what `receive_mutex_` guards and `Session` what `command_mutex_` guards. What happens between two
-- locked blocks, such as frames that arrive during a wait, is a list of events. The send callback is
-- any function of the number of the call, the id and the bytes. In Hand the answers of the session,
-- the clock and other threads come from a `World`, which may depend on all that was called before, and
-- a job returns the trace of its calls; the queue is a relation of steps between its locked blocks. So
-- are the adapter in Gs.WinUsb, where each Windows call is a parameter, and the threads of Node.
--
-- A byte is a number below 256; arithmetic that wraps in the source is a remainder here. Reads past
-- the end of a frame are made visible: `decode_motor_feedback` takes what stands behind the frame as
-- a parameter. Bounds: the loop of `drain_stopped_rx` has fuel for 1025 tests, one more than the
-- reads it allows. The loops of `timing` have a round for each value that the
-- limits allow. The loops of `confirm` and `home` end by the clock, so they take their fuel as a
-- parameter and give `none` without; a round of `home` pauses for ten milliseconds or has seen the axes
-- home, and a round of `confirm` has seen a newer status, which bounds the rounds (Hand.Ends).
--
-- `float` is a type with any operations in Kinematics. Not modelled: the angles that a feedback frame
-- is turned into; what the operating system does behind the calls of the two transports; logging;
-- ROS itself, the Python bindings, what the example programs do after their command line, and the
-- tests.
pub mod Base
pub mod Protocol
pub mod Session
pub mod Gs
pub mod Hand
pub mod SocketCan
pub mod Transport
pub mod Node
pub mod Demo
