-- ===== src/User.antt =====
-- user/src: the library of the user programs.
pub mod Calls
pub mod Waiting
mod Tests
