-- ===== src/Examples.antt =====
-- Runs on concrete inputs.
mod Scanning
mod Buffers
mod Strings
mod Datetimes
mod Memory
mod Numbers
mod Dom
mod Documents
