-- ===== src/Parse.antt =====
-- src/teptris/parse: the parser, from the cursor upwards.
pub mod Result
pub mod Cursor
pub mod Position
pub mod Utf8
pub mod Strings
pub mod Keys
pub mod Datetime
pub mod Numbers
pub mod Floats
pub mod Steps
pub mod Paths
pub mod Containers
pub mod Document
