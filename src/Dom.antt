-- ===== src/Dom.antt =====
-- src/teptris/dom: the document tree.
pub mod Table
pub mod Document
