-- ===== src/Tests/Lines.antt =====
-- The line table of `line.rs` and the compaction of `normalize.rs`.
use gsym_rs.Prelude.{ℕ, ◌≡◌, ◌+◌, refl, List, [], ◌∷◌, All, none, some, arith}
use gsym_rs.Prelude.Int.{◌≤ℤ◌, ◌+ℤ◌, ◌-ℤ◌, ◌*ℤ◌}
use gsym_rs.Error.{ok}
use gsym_rs.Model.{LineEntry}
use gsym_rs.Endian.Order.{little}
use gsym_rs.Endian.Encoder.{with_capacity, write_u8, write_bytes}
use gsym_rs.Format.Leb.{write_uleb, write_uleb_loop, write_sleb, write_sleb_loop}
use gsym_rs.Format.Line.{special_line_range}
use gsym_rs.Format.Line.Range.{
  deltas, span_loop, insert_sorted, sort, window_end, window_round, window_loop, narrow,
  widen_to_zero, choose_delta_range,
}
use gsym_rs.Format.Line.Range.Bounds.{HasLine}
use gsym_rs.Format.Line.Range.Chosen.{choose_delta_range-accepted}
use gsym_rs.Format.Line.Encode.{encode_special, encode_rows, encode_into}
use gsym_rs.Format.Line.Encode.Special.{diff}
use gsym_rs.Format.Line.Parse.{decode, lookup}
use gsym_rs.Format.Line.Lookup.{last_covering, lookup-decode, decode-IsMonotone}
use gsym_rs.Format.Line.RoundTrip.Rows.{IsRow}
use gsym_rs.Format.Line.RoundTrip.Program.{IsMonotone}
use gsym_rs.Format.Line.RoundTrip.Table.{decode-encode_into}
use gsym_rs.Normalize.{compact_after, compact_line_rows}
use gsym_rs.Normalize.Lookup.{
  place, IsCompact, compact_line_rows-last_covering, compact_line_rows-IsCompact,
}

abbrev first_row : LineEntry
first_row = record { address = 0x1000; file = 1; line = 10 }

abbrev second_row : LineEntry
second_row = record { address = 0x1004; file = 2; line = 12 }

abbrev far_row : LineEntry
far_row = record { address = 0x2000; file = 2; line = 700 }

abbrev rows : List LineEntry
rows = first_row ∷ second_row ∷ far_row ∷ []

rows-IsRow : All IsRow rows
rows-IsRow = (
  (omega arith, omega arith, omega arith),
  ((omega arith, omega arith, omega arith), ((omega arith, omega arith, omega arith), tt)),
)

abbrev table : List ℕ
table = 0 ∷ 2 ∷ 10 ∷ 4 ∷ 1 ∷ 2 ∷ 18 ∷ 3 ∷ 176 ∷ 5 ∷ 2 ∷ 252 ∷ 31 ∷ 0 ∷ []

encoded :
    encode_into rows 0x1000 (with_capacity little 0)
    ≡ ok (record { bytes = table; endian = little })
unfolding encode_into encode_rows encode_special choose_delta_range deltas span_loop insert_sorted
    sort window_end window_round window_loop narrow widen_to_zero write_uleb write_uleb_loop
    write_sleb write_sleb_loop write_u8 write_bytes ◌+ℤ◌ ◌-ℤ◌ ◌*ℤ◌
encoded = refl

decode-encode_into_example : decode table little 0x1000 ≡ ok rows
decode-encode_into_example =
    decode-encode_into rows 0x1000 (with_capacity little 0) rows-IsRow encoded (omega arith)

-- The same table, for the properties that start from a decoded one.
decoded : decode table little 0x1000 ≡ ok rows
decoded = decode-encode_into rows 0x1000 (with_capacity little 0) rows-IsRow encoded (omega arith)

lookup-decode_example : lookup table little 0x1000 0x1004 ≡ ok (some second_row)
lookup-decode_example = lookup-decode table little 0x1000 0x1004 decoded

decode-IsMonotone_example : IsMonotone (record { address = 0x1000; file = 1; line = 0 }) rows
decode-IsMonotone_example = decode-IsMonotone table little 0x1000 decoded

rows-HasLine : All HasLine rows
rows-HasLine = (omega arith, (omega arith, (omega arith, tt)))

choose_delta_range-accepted_example :
    (let (minimum, maximum) = choose_delta_range rows in
      (minimum ≤ℤ maximum) × (special_line_range minimum maximum ≡ ok (diff maximum minimum + 1)))
choose_delta_range-accepted_example = choose_delta_range-accepted rows rows-HasLine

abbrev repeated : List LineEntry
repeated = record { address = 0x1002; file = 1; line = 10 } ∷ second_row ∷ []

compact_line_rows-last_covering_example :
    place (last_covering 0x1003 none (compact_line_rows (first_row ∷ repeated)))
    ≡ place (last_covering 0x1003 none (first_row ∷ repeated))
compact_line_rows-last_covering_example =
    compact_line_rows-last_covering first_row repeated 0x1003 (omega arith, (omega arith, tt))

compact_line_rows-IsCompact_example : IsCompact (compact_line_rows (first_row ∷ repeated))
compact_line_rows-IsCompact_example = compact_line_rows-IsCompact (first_row ∷ repeated)

-- The middle row goes.
compacted : compact_line_rows (first_row ∷ repeated) ≡ first_row ∷ second_row ∷ []
unfolding compact_line_rows compact_after
compacted = refl
