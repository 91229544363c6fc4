-- ===== src/Backends.antt =====
-- lib/bouncer/backends/v0: what a pooled connection does with a server on behalf of a client.
pub mod Binding
pub mod Query
pub mod Sync
pub mod Later
pub mod Loops
pub mod Extended
pub mod Transaction
pub mod Parameter
mod Tests
