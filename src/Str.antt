-- ===== src/Str.antt =====
-- src/lib/string.c
pub mod Compare
pub mod Memory
pub mod Number
mod Tests
