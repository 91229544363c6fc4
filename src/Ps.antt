-- ===== src/Ps.antt =====
-- lib/fed/middlewares/ps: the run-time parameters that a client and a server have.
pub mod Sides
pub mod Sync
pub mod Agree
pub mod Others
pub mod Loops
pub mod Synced
pub mod Outcome
mod Tests
