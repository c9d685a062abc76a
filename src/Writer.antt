-- ===== src/Writer.antt =====
-- src/writer: what the writer does before the bytes of a file.
pub mod Strings
pub mod Widths
pub mod Finalize
