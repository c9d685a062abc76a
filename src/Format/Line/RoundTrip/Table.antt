-- ===== src/Format/Line/RoundTrip/Table.antt =====
-- A line table that was written decodes to its rows.
use gsym_rs.Prelude.{
  ℕ, ◌^◌, ◌<◌, ◌≡◌, refl, sym, List, [], ◌∷◌, length, append-nil, All, drop, arith,
}
use gsym_rs.Prelude.Int.{ℤ, IsI64}
use gsym_rs.Error.{ok}
use gsym_rs.Model.{LineEntry}
use gsym_rs.Endian.Order.{Endian}
use gsym_rs.Endian.Cursor.{new}
use gsym_rs.Endian.Cursor.Reads.{Reads}
use gsym_rs.Endian.Encoder.{Encoder, len}
use gsym_rs.Endian.Encoder.Appends.{added, Extends-len, Appends, Appends-of}
use gsym_rs.Format.Line.Range.{choose_delta_range}
use gsym_rs.Format.Line.Range.Bounds.{HasLine, IsRange, IsDelta}
use gsym_rs.Format.Line.Range.Chosen.{choose_delta_range-IsRange, IsRange-accepted}
use gsym_rs.Format.Line.Encode.{encode_into}
use gsym_rs.Format.Line.Encode.Special.{diff}
use gsym_rs.Format.Line.Parse.{decode, parse, push_row}
use gsym_rs.Format.Line.RoundTrip.Rows.{IsRow}
use gsym_rs.Format.Line.RoundTrip.Program.{table_bytes, encode_into-ok, Reads-table}

IsRow-HasLine : (lines : List LineEntry) → All IsRow lines → All HasLine lines
IsRow-HasLine [] h = tt
IsRow-HasLine (l ∷ ls) (h, hs) = (h.2, IsRow-HasLine ls hs)

IsDelta-IsI64 : (d : ℤ) → IsDelta d → IsI64 d
IsDelta-IsI64 d h = ground arith

diff-small : (a b : ℤ) → IsRange (a, b) → diff b a < 2 ^ 63
diff-small a b h = omega arith

pub decode-Reads :
    (xs : List ℕ) (e : Endian) (base : ℕ) {lines : List LineEntry}
    → Reads e (parse push_row base []) xs lines
    → length xs < 2 ^ 64
    → decode xs e base ≡ ok lines
unfolding decode
decode-Reads xs e base r small =
    rw
      (r.run (new xs e) [] (record { within = omega arith; small = small }) refl
        (sym (append-nil xs)))
      refl

-- The same in terms of the writer: rows are appended as a table that the parser reads.
pub encode_into-Appends :
    (lines : List LineEntry) (base : ℕ) (e : Encoder) {e' : Encoder}
    → All IsRow lines
    → encode_into lines base e ≡ ok e'
    → Appends (parse push_row base []) lines e e'
unfolding encode_into
encode_into-Appends [] base e rows h = cc
encode_into-Appends (first ∷ others) base e rows h =
    let lines = first ∷ others in
    let (a, b) = choose_delta_range lines in
    let range = choose_delta_range-IsRange lines (IsRow-HasLine lines rows) in
    let (written, sorted) = encode_into-ok first base others a b refl e h in
    Appends-of (table_bytes first base lines a b) e _ written (
      Reads-table e.endian a b (range.2) (diff-small a b range) first base lines
        (IsDelta-IsI64 a (range.0)) (IsDelta-IsI64 b (range.1)) (IsRange-accepted a b range)
        (rows.0.2) rows sorted)

-- The bytes that `encode_into` appends for rows of machine-sized fields, whatever the output held
-- before, decode in its byte order and at the same base address to exactly those rows.
pub decode-encode_into :
    (lines : List LineEntry) (base : ℕ) (e : Encoder) {e' : Encoder}
    → All IsRow lines
    → encode_into lines base e ≡ ok e'
    → len e' < 2 ^ 64
    → decode (drop (len e) e'.bytes) e.endian base ≡ ok lines
unfolding encode_into
decode-encode_into lines base e {e' = e'} rows h small =
    let r = encode_into-Appends lines base e rows h in
    decode-Reads (added e e') e.endian base r.reads (omega (arith, Extends-len e e' r.written))
