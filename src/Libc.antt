-- ===== src/Libc.antt =====
-- The few functions of the C library that the program's text handling goes through: character
-- classes, searches in a string, bounded copies, and the `%d` conversions of `snprintf`.
pub mod Chars
pub mod Search
pub mod Print
pub mod Floats
pub mod Sort
