-- ===== src/Crdt.antt =====
-- internal/crdt: the grow-only counter and the bounded last-writer-wins map.
pub mod Counter
pub mod Lww
