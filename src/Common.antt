-- ===== src/Common.antt =====
-- src/teptris/common: what the parser and the emitter share.
pub mod Chartype
