-- ===== src/Memory.antt =====
-- src/teptris/memory: the arena that holds a document.
pub mod Arena
