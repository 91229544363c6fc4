-- ===== src/Pooler.antt =====
-- The pooler implementations of lib/gat/handlers/pool/poolers.
pub mod Chan
pub mod Lifo
