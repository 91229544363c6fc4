-- ===== src/Eqp.antt =====
-- lib/fed/middlewares/eqp: the prepared statements and portals of a connection.
pub mod State
pub mod Valid
pub mod Sync
pub mod Writes
pub mod Replies
pub mod Ranges
pub mod Match
pub mod Synced
pub mod Outcome
pub mod Live
pub mod Refuse
pub mod Strict
pub mod Turns
pub mod Copy
mod Tests
