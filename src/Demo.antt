-- ===== src/Demo.antt =====
-- The command line of the example programs, examples/cpp/options.hpp.
pub mod Options
pub mod Accepted
mod Examples
