-- ===== src/Reader.antt =====
-- src/reader.rs and src/reader: lookups in the bytes of a file.
pub mod Strings
pub mod Layout
pub mod Addresses
pub mod Inline
pub mod Functions
pub mod Lookup
pub mod Owned
pub mod Verify
