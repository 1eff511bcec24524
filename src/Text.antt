-- ===== src/Text.antt =====
-- The operations of Python's `str` that the program uses, on the characters of a text.
pub mod Characters
pub mod Strings
