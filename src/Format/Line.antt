-- ===== src/Format/Line.antt =====
-- src/format/line.rs: the line-table program. This module has its opcodes and the arithmetic that
-- the decoder and the encoder share.
pub mod Parse
pub mod Range
pub mod Encode
pub mod RoundTrip
pub mod Lookup
use gsym_rs.Prelude.{ℕ, ◌+◌, Option, none, some, if◌then◌else◌}
use gsym_rs.Prelude.Int.{ℤ, pos, negsuc, ◌+ℤ◌, ltb_ℤ, checked_sub_i64, pos_part, neg_part}
use gsym_rs.Prelude.Words.{try_u32, saturating_add}
use gsym_rs.Error.{overflow, invalid_format, malformed, Result, ok, err, ok_or, and_then}

abbrev pub end_sequence : ℕ
end_sequence = 0

abbrev pub set_file : ℕ
set_file = 1

abbrev pub advance_pc : ℕ
advance_pc = 2

abbrev pub advance_line : ℕ
advance_line = 3

abbrev pub first_special : ℕ
first_special = 4

-- `u32::try_from` on an `i128`.
abbrev pub try_u32_ℤ : ℤ → Option ℕ
try_u32_ℤ (pos n) = try_u32 n
try_u32_ℤ (negsuc n) = none

unfoldable pub special_line_range : ℤ → ℤ → Result ℕ
special_line_range minimum maximum =
    if ltb_ℤ maximum minimum
    then err (invalid_format "line-table maximum delta precedes minimum delta")
    else and_then (ok_or (checked_sub_i64 maximum minimum) (overflow "line-table delta range"))
        (λ span. ok (saturating_add 1 (pos_part span + neg_part span)))

unfoldable pub add_line_delta : ℕ → ℤ → Result ℕ
unfolding ◌+ℤ◌
add_line_delta line delta = ok_or (try_u32_ℤ (pos line +ℤ delta)) (malformed "line table")
