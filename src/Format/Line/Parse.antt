-- ===== src/Format/Line/Parse.antt =====
-- src/format/line.rs: `parse` with its two callers, `decode` and `lookup`.
use gsym_rs.Prelude.{
  ℕ, zero, suc, ◌-◌, ◌/◌, ◌%◌, Bool, true, false, List, [], ◌∷◌, ◌++◌, Option, none, some, ltb,
  ◌==◌, if◌then◌else◌,
}
use gsym_rs.Prelude.Int.{ℤ, pos, checked_add_i64}
use gsym_rs.Prelude.Words.{checked_add, try_u32, u32_max}
use gsym_rs.Error.{
  Error, unexpected_eof, out_of_range, overflow, invalid_format, Result, ok, err, ok_or, and_then,
}
use gsym_rs.Model.{LineEntry}
use gsym_rs.Endian.Order.{Endian}
use gsym_rs.Endian.Cursor.{Read, ◌>>=◌, pure, lift, gets, on_error, read_u8, remaining, new}
use gsym_rs.Format.Leb.{read_uleb, read_sleb}
use gsym_rs.Format.Line.{
  end_sequence, set_file, advance_pc, advance_line, first_special, special_line_range,
  add_line_delta,
}

abbrev pub no_end : Error
no_end = invalid_format "line table has no end-sequence opcode"

abbrev pub map_opcode_eof : Error → Error
map_opcode_eof (unexpected_eof _ _ _) = no_end
map_opcode_eof error = error

-- The callback's captured variables are a state `S`; it answers whether to go on.
module _ {S : Type 0} (row_callback : LineEntry → S → S × Bool) where
  -- `if !row_callback(row) { return Ok(()) }`, and the next round otherwise.
  abbrev pub visit : (again : LineEntry → S → Read S) → LineEntry → S → Read S
  visit again row state =
      let (state', on) = row_callback row state in if on then again row state' else pure state'

  abbrev pub set_file_op : (again : LineEntry → S → Read S) → LineEntry → S → Read S
  set_file_op again row state = do
    file ← read_uleb
    file32 ← lift (ok_or (try_u32 file) (out_of_range "line-table file index" file u32_max))
    again (record row { file = file32 }) state

  abbrev pub advance_pc_op : (again : LineEntry → S → Read S) → LineEntry → S → Read S
  advance_pc_op again row state = do
    delta ← read_uleb
    address ← lift (ok_or (checked_add row.address delta) (overflow "line-table address"))
    visit again (record row { address = address }) state

  abbrev pub advance_line_op : (again : LineEntry → S → Read S) → LineEntry → S → Read S
  advance_line_op again row state = do
    delta ← read_sleb
    line ← lift (add_line_delta row.line delta)
    again (record row { line = line }) state

  abbrev pub special_op :
      (minimum_delta : ℤ) (line_range special : ℕ)
      → (again : LineEntry → S → Read S) → LineEntry
      → S
      → Read S
  special_op minimum_delta line_range special again row state = do
    let adjusted = special - first_special
    line_delta ← lift (
        ok_or (checked_add_i64 minimum_delta (pos (adjusted % line_range)))
          (overflow "line-table line delta"))
    line ← lift (add_line_delta row.line line_delta)
    address ←
        lift
          (ok_or (checked_add row.address (adjusted / line_range)) (overflow "line-table address"))
    visit again (record row { line = line; address = address }) state

  -- One round of the `loop` of `parse`.
  unfoldable pub parse_round :
      (minimum_delta : ℤ) (line_range : ℕ)
      → (again : LineEntry → S → Read S) → LineEntry
      → S
      → Read S
  parse_round minimum_delta line_range again row state = do
    opcode ← on_error map_opcode_eof read_u8
    if opcode == end_sequence
        then pure state
        else if opcode == set_file
        then set_file_op again row state
        else if opcode == advance_pc
        then advance_pc_op again row state
        else if opcode == advance_line
        then advance_line_op again row state
        else special_op minimum_delta line_range opcode again row state

  -- The loop, with the bytes that are left as its fuel: a round reads one at least, and without a
  -- byte there is no opcode to read.
  unfoldable pub parse_loop : ℕ → (minimum_delta : ℤ) (line_range : ℕ) → LineEntry → S → Read S
  parse_loop zero minimum_delta line_range row state = lift (err no_end)
  parse_loop (suc fuel) minimum_delta line_range row state =
      parse_round minimum_delta line_range (parse_loop fuel minimum_delta line_range) row state

  unfoldable pub parse : (base : ℕ) → S → Read S
  unfolding parse_loop
  parse base state = do
    minimum_delta ← read_sleb
    maximum_delta ← read_sleb
    line_range ← lift (special_line_range minimum_delta maximum_delta)
    first_line ← read_uleb
    line ← lift (ok_or (try_u32 first_line) (out_of_range "line number" first_line u32_max))
    left ← gets remaining
    parse_loop left minimum_delta line_range (record { address = base; file = 1; line = line })
        state

-- `lines.push(row); true`.
abbrev pub push_row : LineEntry → List LineEntry → List LineEntry × Bool
push_row row lines = (lines ++ row ∷ [], true)

unfoldable pub decode : List ℕ → Endian → ℕ → Result (List LineEntry)
decode bytes endian base = and_then (parse push_row base [] (new bytes endian)) (λ r. ok (r.0))

-- `if address < row.address { false } else { result = Some(row); true }`.
abbrev pub keep_below : ℕ → LineEntry → Option LineEntry → Option LineEntry × Bool
keep_below address row result =
    if ltb address row.address then (result, false) else (some row, true)

unfoldable pub lookup : List ℕ → Endian → ℕ → ℕ → Result (Option LineEntry)
lookup bytes endian base address =
    and_then (parse (keep_below address) base none (new bytes endian)) (λ r. ok (r.0))
