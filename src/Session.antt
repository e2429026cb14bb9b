-- ===== src/Session.antt =====
-- src/rphand/session.hpp and session.cpp: the feedback that the session keeps, its SDO transactions
-- and its command cache.
pub mod State
pub mod Receive
pub mod Sending
pub mod Transaction
pub mod Waits
pub mod Commands
pub mod Motion
pub mod Invariant
pub mod Run
mod Examples
