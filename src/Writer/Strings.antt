-- ===== src/Writer/Strings.antt =====
-- src/writer/semantic.rs: `StringTable`, which stores each string once.
pub mod ReadBack
pub mod Files
use gsym_rs.Prelude.{
  ℕ, zero, suc, ◌+◌, ◌≤◌, ◌≡◌, Bool, true, false, ◌&&◌, List, [], ◌∷◌, ◌++◌, length, slice, Option,
  none, some, ◌==◌,
}
use gsym_rs.Prelude.Words.{checked_add}
use gsym_rs.Model.{FileEntry}

-- The hash of an entry is a function of its bytes, so it does not stand here.
pub record StringEntry : Type 0 where
  pub offset : ℕ
  pub len : ℕ

pub record StringTable : Type 0 where
  pub bytes : List ℕ
  pub entries : List StringEntry

unfoldable pub eq_bytes : List ℕ → List ℕ → Bool
eq_bytes [] [] = true
eq_bytes [] (b ∷ bs) = false
eq_bytes (a ∷ xs) [] = false
eq_bytes (a ∷ xs) (b ∷ bs) = a == b && eq_bytes xs bs

unfoldable pub interned : List ℕ → StringEntry → Option (List ℕ)
interned bytes entry = elim (checked_add entry.offset entry.len) [
  | none ↦ none
  | some end ↦ slice bytes entry.offset end
]

-- `HashTable::find` of hashbrown on the entries that were inserted: equal strings hash alike.
abbrev pub Find : Type 0
Find = List StringEntry → (StringEntry → Bool) → Option StringEntry

-- `interned(&self.bytes, *entry) == Some(string)`.
abbrev pub is_string : List ℕ → List ℕ → StringEntry → Bool
is_string bytes string entry = elim (interned bytes entry) [
  | none ↦ false
  | some found ↦ eq_bytes found string
]

module _ (find : Find) where
  -- `with_capacity`: the empty string at offset 0.
  abbrev pub new : StringTable
  new = record { bytes = 0 ∷ []; entries = record { offset = 0; len = 0 } ∷ [] }

  unfoldable pub intern : List ℕ → StringTable → ℕ × StringTable
  unfolding eq_bytes interned
  intern string table = elim (find table.entries (is_string table.bytes string)) [
    | some entry ↦ (entry.offset, table)
    | none ↦ (
      length table.bytes,
      record {
        bytes = table.bytes ++ (string ++ 0 ∷ []);
        entries = record { offset = length table.bytes; len = length string } ∷ table.entries;
      },
    )
  ]

  unfoldable pub intern_files : List FileEntry → StringTable → List (ℕ × ℕ) × StringTable
  unfolding intern
  intern_files [] table = ([], table)
  intern_files (file ∷ files) table =
      let (directory, table1) = intern file.directory table in
      let (basename, table2) = intern file.basename table1 in
      let (rest, table3) = intern_files files table2 in ((directory, basename) ∷ rest, table3)
