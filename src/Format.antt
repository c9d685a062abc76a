-- ===== src/Format.antt =====
-- src/format/mod.rs: the constants and sizes that both layouts share.
pub mod Leb
pub mod Line
pub mod V1
pub mod V2
pub mod Align
pub mod Function
use gsym_rs.Prelude.{ℕ, ◌+◌, ◌-◌, ◌*◌, ◌%◌, Bool, Option, none, some, String, ◌==◌, if◌then◌else◌}
use gsym_rs.Prelude.Words.{checked_add, checked_mul}
use gsym_rs.Error.{overflow, Result, ok_or}

abbrev pub gsym_magic : ℕ
gsym_magic = 0x4753_594d

-- `GSYM_MAGIC.swap_bytes()`.
abbrev pub gsym_cigam : ℕ
gsym_cigam = 0x4d59_5347

abbrev pub info_end : ℕ
info_end = 0

abbrev pub info_line_table : ℕ
info_line_table = 1

abbrev pub info_inline : ℕ
info_inline = 2

abbrev pub info_merged : ℕ
info_merged = 3

abbrev pub info_call_site : ℕ
info_call_site = 4

-- A `Range<usize>`, without its last index.
pub record Range : Type 0 where
  pub start : ℕ
  pub end : ℕ

unfoldable pub file_table_size : (file_count entry_size : ℕ) → String → Result ℕ
file_table_size file_count entry_size context =
    ok_or
      (elim (checked_mul file_count entry_size) [ none ↦ none | some size ↦ checked_add size 4 ])
      (overflow context)

-- `checked_next_multiple_of`, which is `None` for the multiples of zero.
unfoldable pub align_up : (value alignment : ℕ) → Option ℕ
align_up value alignment =
    if alignment == 0
    then none
    else if value % alignment == 0
    then some value
    else checked_add value (alignment - value % alignment)
