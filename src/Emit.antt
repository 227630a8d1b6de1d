-- ===== src/Emit.antt =====
-- src/teptris/emit: the writers that the emitter and the streaming writer share.
pub mod Buffer
pub mod Text
pub mod Numbers
pub mod Datetime
