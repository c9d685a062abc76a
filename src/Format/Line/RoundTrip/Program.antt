-- ===== src/Format/Line/RoundTrip/Program.antt =====
-- The bytes of a whole table, what writes them, and what reads them.
use mathlib.Core.Path.{subst}
use gsym_rs.Prelude.{
  ℕ, ◌+◌, ◌^◌, ◌≤◌, ◌<◌, ◌≡◌, refl, sym, ap, ◌∙◌, List, [], ◌∷◌, ◌++◌, All, append_assoc,
  append-nil, arith, true, not, ltb,
}
use gsym_rs.Prelude.Int.{ℤ, ◌≤ℤ◌, IsI64}
use gsym_rs.Prelude.Words.{IsU32, try_u32, u32_max}
use gsym_rs.Error.{
  ok, out_of_range, ok_or, guard, invalid_model, and_then-ok, ok_injective, and_then, ◌>>◌,
  guard-ok,
}
use gsym_rs.Model.{LineEntry}
use gsym_rs.Endian.Order.{Endian}
use gsym_rs.Endian.Encoder.{Encoder, write_bytes, write_u8}
use gsym_rs.Endian.Encoder.Writes.{write_bytes-append}
use gsym_rs.Endian.Cursor.{Read, lift, gets, remaining, ◌>>=◌}
use gsym_rs.Endian.Cursor.Reads.{Reads, Reads-cast, Reads-bind, Reads-check, Reads-remaining}
use gsym_rs.Format.Leb.{read_uleb, write_uleb, write_sleb}
use gsym_rs.Format.Leb.Unsigned.{uleb_bytes, write_uleb-bytes, Reads-uleb}
use gsym_rs.Format.Leb.Signed.{sleb_bytes, write_sleb-bytes, Reads-sleb}
use gsym_rs.Format.Line.{special_line_range}
use gsym_rs.Format.Line.Range.{choose_delta_range}
use gsym_rs.Format.Line.Parse.{push_row, parse, parse_loop}
use gsym_rs.Format.Line.Encode.{write_row, encode_rows, encode_into}
use gsym_rs.Format.Line.Encode.Special.{diff}
use gsym_rs.Format.Line.RoundTrip.{Runs, Runs-round, round_end}
use gsym_rs.Format.Line.RoundTrip.Rows.{row_bytes, write_row-bytes, IsRow, runs_row}

-- The addresses never go down from `previous` on.
abbrev pub IsMonotone : LineEntry → List LineEntry → Type 0
IsMonotone previous [] = Unit
IsMonotone previous (current ∷ lines) =
    (previous.address ≤ current.address) × IsMonotone current lines

unfoldable pub rows_bytes : (minimum maximum : ℤ) → LineEntry → List LineEntry → List ℕ
rows_bytes minimum maximum previous [] = []
rows_bytes minimum maximum previous (current ∷ lines) =
    row_bytes minimum maximum previous current ++ rows_bytes minimum maximum current lines

write_nothing : (e : Encoder) → e ≡ write_bytes [] e
unfolding write_bytes
write_nothing e = ap (λ (t : List ℕ). record e { bytes = t }) (sym (append-nil e.bytes))

encode_rows-ok :
    (base : ℕ) (a b : ℤ) (previous : LineEntry) (lines : List LineEntry) (e : Encoder)
    {e' : Encoder}
    → encode_rows base a b previous lines e ≡ ok e'
    → (e' ≡ write_bytes (rows_bytes a b previous lines) e) × IsMonotone previous lines
unfolding encode_rows rows_bytes
encode_rows-ok base a b previous [] e h = (sym (ok_injective h) ∙ write_nothing e, tt)
encode_rows-ok base a b previous (current ∷ lines) e h =
    let next = write_row a b previous current e in
    let rest = encode_rows base a b current lines next in
    let (_, h1) =
      guard-ok (not (ltb current.address base))
        (invalid_model "line address precedes the function start")
        (guard (not (ltb current.address previous.address))
            (invalid_model "line-table addresses are not monotonically increasing")
          >> rest)
        h in
    let (sorted, h2) =
      guard-ok (not (ltb current.address previous.address))
        (invalid_model "line-table addresses are not monotonically increasing") rest h1 in
    let (written, monotone) = encode_rows-ok base a b current lines next h2 in
    (
      written
          ∙ ap (write_bytes (rows_bytes a b current lines)) (write_row-bytes a b previous current e)
          ∙ write_bytes-append (row_bytes a b previous current) (rows_bytes a b current lines) e,
      (not_below sorted, monotone),
    )
  where
    not_below :
        not (ltb current.address previous.address) ≡ true → previous.address ≤ current.address
    not_below h = ground arith

abbrev pub table_bytes : LineEntry → ℕ → List LineEntry → (minimum maximum : ℤ) → List ℕ
table_bytes first base lines minimum maximum =
    sleb_bytes 10 minimum
    ++ (sleb_bytes 10 maximum
        ++ (uleb_bytes 10 first.line
            ++ (rows_bytes minimum maximum (record { address = base; file = 1; line = first.line })
                  lines
                ++ 0 ∷ [])))

module _ (first : LineEntry) (base : ℕ) (others : List LineEntry) (minimum maximum : ℤ)
    (chosen : choose_delta_range (first ∷ others) ≡ (minimum, maximum)) where
  pub encode_into-ok :
      (e : Encoder) {e' : Encoder}
      → encode_into (first ∷ others) base e ≡ ok e'
      → (e' ≡ write_bytes (table_bytes first base (first ∷ others) minimum maximum) e)
        × IsMonotone (record { address = base; file = 1; line = first.line }) (first ∷ others)
  unfolding encode_into write_u8
  encode_into-ok e {e' = e'} h =
      let (rows, written, done) =
        and_then-ok (encode_rows base minimum maximum start (first ∷ others) (header e))
          (λ out. ok (write_u8 0 out))
          (subst
            (λ (r : ℤ × ℤ).
              and_then
                (encode_rows base (r.0) (r.1) start (first ∷ others)
                  (write_uleb first.line (write_sleb (r.1) (write_sleb (r.0) e))))
                (λ out. ok (write_u8 0 out))
              ≡ ok e')
            chosen h) in
      let (same, monotone) =
        encode_rows-ok base minimum maximum start (first ∷ others) (header e) written in
      (
        sym (ok_injective done)
            ∙ ap (write_u8 0) (same ∙ ap (write_bytes body) (header-bytes e))
            ∙ together e,
        monotone,
      )
    where
      start : LineEntry
      start = record { address = base; file = 1; line = first.line }

      body : List ℕ
      body = rows_bytes minimum maximum start (first ∷ others)

      header : Encoder → Encoder
      header e = write_uleb first.line (write_sleb maximum (write_sleb minimum e))

      header-bytes :
          (e : Encoder)
          → header e
            ≡ write_bytes
                (uleb_bytes 10 first.line)
                (write_bytes (sleb_bytes 10 maximum) (write_bytes (sleb_bytes 10 minimum) e))
      header-bytes e =
          write_uleb-bytes first.line _
          ∙ ap (write_bytes (uleb_bytes 10 first.line)) (
              write_sleb-bytes maximum _
              ∙ ap (write_bytes (sleb_bytes 10 maximum)) (write_sleb-bytes minimum e))

      a : List ℕ
      a = sleb_bytes 10 minimum

      b : List ℕ
      b = sleb_bytes 10 maximum

      c : List ℕ
      c = uleb_bytes 10 first.line

      together :
          (e : Encoder)
          → write_bytes
              (0 ∷ [])
              (write_bytes body (write_bytes c (write_bytes b (write_bytes a e))))
            ≡ write_bytes (a ++ (b ++ (c ++ (body ++ 0 ∷ [])))) e
      together e =
          write_bytes-append body (0 ∷ []) _
          ∙ write_bytes-append c (body ++ 0 ∷ []) _
          ∙ write_bytes-append b (c ++ (body ++ 0 ∷ [])) _
          ∙ write_bytes-append a (b ++ (c ++ (body ++ 0 ∷ []))) e

-- The rounds of all rows and the end of the sequence.
module _ (e : Endian) (minimum maximum : ℤ) (ordered : minimum ≤ℤ maximum)
    (small : diff maximum minimum < 2 ^ 63) where
  Runs-rows :
      (previous : LineEntry) (acc lines : List LineEntry)
      → IsU32 previous.line
      → All IsRow lines
      → IsMonotone previous lines
      → Runs push_row e minimum
          (diff maximum minimum + 1)
          previous
          acc
          (rows_bytes minimum maximum previous lines ++ 0 ∷ [])
          (acc ++ lines)
  unfolding rows_bytes
  Runs-rows previous acc [] h rows sorted =
      Runs-round push_row e minimum (diff maximum minimum + 1) previous acc 0 [] (acc ++ [])
        (λ fuel fits. Reads-cast refl (sym (append-nil acc)) (
          round_end push_row e minimum (diff maximum minimum + 1)
            (parse_loop push_row fuel minimum (diff maximum minimum + 1)) previous acc))
  Runs-rows previous acc (current ∷ lines) h (row, rows) (le, sorted) =
      let more = Runs-rows current (acc ++ current ∷ []) lines (row.2) rows sorted in
      let r = acc ++ (current ∷ lines) in
      let tail = rows_bytes minimum maximum current lines ++ 0 ∷ [] in
      let more' : Runs push_row e minimum (diff maximum minimum + 1) current (acc ++ current ∷ [])
          tail r =
        subst
          (Runs push_row e minimum (diff maximum minimum + 1) current (acc ++ current ∷ []) tail)
          (append_assoc acc (current ∷ []) lines) more in
      subst (λ (xs : List ℕ). Runs push_row e minimum (diff maximum minimum + 1) previous acc xs r)
        (sym (
          append_assoc (row_bytes minimum maximum previous current)
            (rows_bytes minimum maximum current lines) (0 ∷ [])))
        (runs_row e minimum maximum ordered small acc r tail previous current h row le more')

  pub Reads-table :
      (first : LineEntry) (base : ℕ) (lines : List LineEntry)
      → IsI64 minimum
      → IsI64 maximum
      → special_line_range minimum maximum ≡ ok (diff maximum minimum + 1)
      → IsU32 first.line
      → All IsRow lines
      → IsMonotone (record { address = base; file = 1; line = first.line }) lines
      → Reads e (parse push_row base []) (table_bytes first base lines minimum maximum) lines
  unfolding parse
  Reads-table first base lines hmin hmax range hl rows sorted =
      Reads-bind _ (Reads-sleb minimum hmin) (
        Reads-bind _ (Reads-sleb maximum hmax) (
          Reads-check (special_line_range minimum maximum) after_range (diff maximum minimum + 1)
            range
            (Reads-bind _ (Reads-uleb first.line (omega arith)) (
              Reads-check (ok_or (try_u32 first.line) _) (after_line (diff maximum minimum + 1))
                first.line (ground arith)
                (Reads-remaining _ (
                  Runs-rows (record { address = base; file = 1; line = first.line }) [] lines hl
                    rows sorted))))))
    where
      after_line : ℕ → ℕ → Read (List LineEntry)
      after_line range line = do
        left ← gets remaining
        parse_loop push_row left minimum range (record { address = base; file = 1; line = line }) []

      after_range : ℕ → Read (List LineEntry)
      after_range range = do
        first_line ← read_uleb
        line ← lift (ok_or (try_u32 first_line) (out_of_range "line number" first_line u32_max))
        after_line range line
