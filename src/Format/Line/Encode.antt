-- ===== src/Format/Line/Encode.antt =====
-- src/format/line.rs: `encode_into` and `encode_special`.
pub mod Special
use gsym_rs.Prelude.{
  ℕ, ◌+◌, ◌-◌, ◌*◌, Bool, true, false, not, ◌||◌, List, [], ◌∷◌, Option, none, some, ltb, ◌==◌,
  if◌then◌else◌,
}
use gsym_rs.Prelude.Int.{
  ℤ, pos, negsuc, ◌+ℤ◌, ◌-ℤ◌, ◌*ℤ◌, ltb_ℤ, saturating_sub_i64, checked_sub_i64, checked_add_i64,
  eq_zero_ℤ,
}
use gsym_rs.Prelude.Words.{try_u8}
use gsym_rs.Error.{Error, invalid_model, Result, ok, err, ◌>>=◌, ◌>>◌, guard}
use gsym_rs.Model.{LineEntry}
use gsym_rs.Endian.Encoder.{Encoder, write_u8}
use gsym_rs.Format.Leb.{write_uleb, write_sleb}
use gsym_rs.Format.Line.{end_sequence, set_file, advance_pc, advance_line, first_special}
use gsym_rs.Format.Line.Range.{choose_delta_range, line_delta}

-- `u8::try_from` on an `i128`.
abbrev pub try_u8_ℤ : ℤ → Option ℕ
try_u8_ℤ (pos n) = try_u8 n
try_u8_ℤ (negsuc n) = none

-- `maximum.checked_sub(minimum)?.checked_add(1)?`.
abbrev pub special_range : ℤ → ℤ → Option ℤ
special_range minimum_delta maximum_delta = elim (checked_sub_i64 maximum_delta minimum_delta) [
  | none ↦ none
  | some span ↦ checked_add_i64 span (pos 1)
]

abbrev special_opcode : (minimum_delta line_delta : ℤ) (address_delta : ℕ) (line_range : ℤ) → ℤ
special_opcode minimum_delta line_delta address_delta line_range =
    saturating_sub_i64 line_delta minimum_delta
    +ℤ pos address_delta *ℤ line_range
    +ℤ pos first_special

-- The sums and the product are `i128`s, too small to saturate.
unfoldable pub encode_special :
    (minimum_delta maximum_delta line_delta : ℤ) (address_delta : ℕ) → Option ℕ
encode_special minimum_delta maximum_delta line_delta address_delta =
    if ltb_ℤ line_delta minimum_delta || ltb_ℤ maximum_delta line_delta
    then none
    else elim (special_range minimum_delta maximum_delta) [
      | none ↦ none
      | some line_range ↦
          try_u8_ℤ (special_opcode minimum_delta line_delta address_delta line_range)
    ]

abbrev pub write_file : LineEntry → LineEntry → Encoder → Encoder
write_file previous current output =
    if previous.file == current.file
    then output
    else write_uleb current.file (write_u8 set_file output)

abbrev pub write_advance : ℤ → ℕ → Encoder → Encoder
write_advance line_delta address_delta output =
    let output' =
      if eq_zero_ℤ line_delta
      then output
      else write_sleb line_delta (write_u8 advance_line output) in
    write_uleb address_delta (write_u8 advance_pc output')

-- A special opcode where one fits, and the plain opcodes otherwise.
abbrev pub write_row : (minimum_delta maximum_delta : ℤ) → LineEntry → LineEntry → Encoder → Encoder
write_row minimum_delta maximum_delta previous current output =
    let address_delta = current.address - previous.address in
    let delta = line_delta previous current in
    let output' = write_file previous current output in
    elim (encode_special minimum_delta maximum_delta delta address_delta) [
      | some special ↦ write_u8 special output'
      | none ↦ write_advance delta address_delta output'
    ]

-- The `for` loop of `encode_into`.
unfoldable pub encode_rows :
    (base : ℕ) (minimum_delta maximum_delta : ℤ)
    → LineEntry
    → List LineEntry
    → Encoder
    → Result Encoder
encode_rows base minimum_delta maximum_delta previous [] output = ok output
encode_rows base minimum_delta maximum_delta previous (current ∷ lines) output = do
  guard (not (ltb current.address base)) (invalid_model "line address precedes the function start")
  guard (not (ltb current.address previous.address))
      (invalid_model "line-table addresses are not monotonically increasing")
  encode_rows base minimum_delta maximum_delta current lines
      (write_row minimum_delta maximum_delta previous current output)

unfoldable pub encode_into : List LineEntry → ℕ → Encoder → Result Encoder
unfolding encode_rows
encode_into [] base output = err (invalid_model "line table must not be empty")
encode_into (first ∷ lines) base output = do
  let (minimum_delta, maximum_delta) = choose_delta_range (first ∷ lines)
  let header = write_uleb first.line (write_sleb maximum_delta (write_sleb minimum_delta output))
  rows ←
      encode_rows base minimum_delta maximum_delta
        (record { address = base; file = 1; line = first.line }) (first ∷ lines) header
  ok (write_u8 end_sequence rows)
