-- ===== src/Hand.antt =====
-- src/hand.cpp: the operations of a hand, the queue of its control worker and its connection.
pub mod World
pub mod Queue
pub mod Configure
pub mod Action
pub mod Parameter
pub mod Home
pub mod Connect
pub mod Owners
pub mod Jobs
pub mod Ends
mod Examples
