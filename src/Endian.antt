-- ===== src/Endian.antt =====
-- src/endian.rs: the byte order, the bounds-checked cursor and the output buffer.
pub mod Order
pub mod Cursor
pub mod Encoder
