-- ===== src/Reader/Strings.antt =====
-- src/reader/function.rs: `string_at`, a string of the file's string table.
use gsym_rs.Prelude.{
  ℕ, suc, List, [], ◌∷◌, length, slice, Option, none, some, ltb, ◌==◌, if◌then◌else◌,
}
use gsym_rs.Prelude.Words.{checked_add}
use gsym_rs.Error.{overflow, invalid_offset, invalid_format, Result, ok_or, guard, ◌>>=◌, ◌>>◌}
use gsym_rs.Format.{Range}

-- `iter().position(|byte| *byte == 0)`.
unfoldable pub position_of_nul : List ℕ → Option ℕ
position_of_nul [] = none
position_of_nul (b ∷ bs) =
    let rest = position_of_nul bs in
    if b == 0 then some 0 else elim rest [ none ↦ none | some n ↦ some (suc n) ]

-- A `u64` is a `usize`, so that conversion cannot fail.
unfoldable pub string_at : List ℕ → Range → ℕ → Result (List ℕ)
unfolding position_of_nul
string_at bytes table offset = do
  start ← ok_or (checked_add table.start offset) (overflow "string address")
  guard (ltb start table.end) (invalid_offset start (length bytes))
  tail ← ok_or (slice bytes start table.end) (invalid_format "string table is outside the file")
  end ← ok_or (position_of_nul tail) (invalid_format "unterminated string")
  ok_or (slice tail 0 end) (invalid_format "unterminated string")
