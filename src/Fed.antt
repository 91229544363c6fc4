-- ===== src/Fed.antt =====
-- lib/fed: packets, their types, and connections as the code above them sees them.
pub mod Types
pub mod Conn
