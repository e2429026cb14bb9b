-- ===== src/Session/State.antt =====
-- The state of src/rphand/session.hpp. What `receive_mutex_` guards is in `Receive`, what
-- `command_mutex_` guards is in `Session` itself. Times are nanoseconds of the steady clock.
use roboparty_dexhand.Base.{ℕ, Bool, true, false, Option, none, List, [], replicate, ℤ, pos}
use roboparty_dexhand.Protocol.Encode.{Bytes, Axis, default_axis}
use roboparty_dexhand.Protocol.Feedback.{FeedbackAxis, no_feedback}

-- `1ms`.
abbrev pub ms : ℕ
ms = 1000000

-- The arrays hold six values.
pub record HandState : Type 0 where
  pub positions : List ℕ
  pub velocities : List ℤ
  pub currents : List ℤ
  pub enabled : List Bool
  pub homed : List Bool
  pub torque_reached : List Bool
  pub fault_codes : List ℕ
  pub feedback_valid : Bool

-- `last` and `sequence` are indexed by the group: positions, then statuses.
pub record Snapshot : Type 0 where
  pub state : HandState
  pub stopped : List Bool
  pub observed_home : List Bool
  pub emergency_stopped : List Bool
  pub last_positions : ℕ
  pub last_statuses : ℕ
  pub sequence_positions : ℕ
  pub sequence_statuses : ℕ

pub record SdoResult : Type 0 where
  pub code : ℕ
  pub value : ℕ
  pub received : Bool
  pub aborted : Bool

pub record Receive : Type 0 where
  pub closed : Bool
  pub ready : Bool
  pub rx_failed : Bool
  pub node : ℕ
  pub feedback : List FeedbackAxis
  pub snapshot : Snapshot
  pub track_home : Bool
  pub pending : Bool
  pub answered : Bool
  pub pending_index : ℕ
  pub pending_sub : ℕ
  pub pending_write : Bool
  pub pending_configuration : Bool
  pub sdo : SdoResult

-- What a call of the send callback does: it returns true or false, or throws.
pub data CallResult : Type 0 where
  accepted refused threw : CallResult

-- The callback's answer to its n-th call, with the CAN id and the payload.
abbrev pub Callback : Type 0
Callback = ℕ → ℕ → Bytes → CallResult

pub record Sent : Type 0 where
  pub id : ℕ
  pub payload : Bytes

-- `calls` are the calls of the callback so far, the latest first.
pub record Session : Type 0 where
  pub rx : Receive
  pub callback : Option Callback
  pub calls : List Sent
  pub axes : List Axis
  pub velocity_dirty : Bool
  pub current_dirty : Bool
  pub restore_pending : Bool
  pub allow_no_home : Bool

abbrev pub no_state : HandState
no_state = record {
  positions = replicate 6 0;
  velocities = replicate 6 (pos 0);
  currents = replicate 6 (pos 0);
  enabled = replicate 6 false;
  homed = replicate 6 false;
  torque_reached = replicate 6 false;
  fault_codes = replicate 6 0;
  feedback_valid = false;
}

abbrev pub no_snapshot : Snapshot
no_snapshot = record {
  state = no_state;
  stopped = replicate 6 false;
  observed_home = replicate 6 false;
  emergency_stopped = replicate 6 false;
  last_positions = 0;
  last_statuses = 0;
  sequence_positions = 0;
  sequence_statuses = 0;
}

abbrev pub no_result : SdoResult
no_result = record { code = 0; value = 0; received = false; aborted = false }

-- `feedback_ = {}`.
abbrev pub no_feedbacks : List FeedbackAxis
no_feedbacks = replicate 30 no_feedback

-- An axis after the constructor or `initial`.
abbrev pub initial_axis : Axis
initial_axis = record default_axis { home_function = 1; velocity = pos 20000; current = pos 400 }

abbrev pub initial_axes : List Axis
initial_axes = replicate 6 initial_axis

-- The constructor.
unfoldable pub new : Session
new = record {
  rx = record {
    closed = true;
    ready = false;
    rx_failed = false;
    node = 1;
    feedback = no_feedbacks;
    snapshot = no_snapshot;
    track_home = false;
    pending = false;
    answered = false;
    pending_index = 0;
    pending_sub = 0;
    pending_write = false;
    pending_configuration = false;
    sdo = no_result;
  };
  callback = none;
  calls = [];
  axes = initial_axes;
  velocity_dirty = true;
  current_dirty = true;
  restore_pending = false;
  allow_no_home = false;
}
