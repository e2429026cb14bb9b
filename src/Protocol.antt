-- ===== src/Protocol.antt =====
-- src/rphand/protocol.hpp and protocol.cpp: what the SDK puts into CAN frames and reads from them.
pub mod Encode
pub mod Sdo
pub mod Feedback
pub mod Kinematics
