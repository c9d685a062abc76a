-- ===== src/Model.antt =====
-- src/model.rs: the rows that the encodings share. A `FileIndex` is its number.
pub mod Range
pub mod Function
pub mod Equality
use gsym_rs.Prelude.{ℕ, List, []}

pub record LineEntry : Type 0 where
  pub address : ℕ
  pub file : ℕ
  pub line : ℕ

-- Path components are raw bytes.
pub record FileEntry : Type 0 where
  pub directory : List ℕ
  pub basename : List ℕ

-- `FileEntry::default()`.
abbrev pub empty_file : FileEntry
empty_file = record { directory = []; basename = [] }
