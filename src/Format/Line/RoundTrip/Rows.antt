-- ===== src/Format/Line/RoundTrip/Rows.antt =====
-- The bytes of one row, what writes them, and the rounds of the decoder that read them.
use mathlib.Core.Path.{subst}
use gsym_rs.Prelude.{
  ℕ, ◌+◌, ◌-◌, ◌/◌, ◌^◌, ◌≤◌, ◌<◌, ◌≡◌, refl, sym, ap, ◌∙◌, List, [], ◌∷◌, ◌++◌, length-append,
  append_assoc, append-nil, Option, none, some, arith, true, Bool-cases, Option-cases, inl, inr,
  ◌==◌, if◌then◌else◌,
}
use gsym_rs.Prelude.Int.{ℤ, ◌+ℤ◌, ◌-ℤ◌, pos, negsuc, ◌≤ℤ◌, IsI64, checked_add_i64, eq_zero_ℤ}
use gsym_rs.Prelude.Words.{IsU32, IsU64}
use gsym_rs.Error.{ok}
use gsym_rs.Model.{LineEntry}
use gsym_rs.Endian.Order.{Endian}
use gsym_rs.Endian.Encoder.{Encoder, write_bytes, write_u8}
use gsym_rs.Endian.Encoder.Writes.{write_bytes-append}
use gsym_rs.Endian.Cursor.Reads.{Reads}
use gsym_rs.Format.Leb.{write_sleb}
use gsym_rs.Format.Leb.Unsigned.{uleb_bytes, write_uleb-bytes}
use gsym_rs.Format.Leb.Signed.{sleb_bytes, write_sleb-bytes}
use gsym_rs.Format.Line.{add_line_delta}
use gsym_rs.Format.Line.Range.{line_delta}
use gsym_rs.Format.Line.Parse.{push_row, parse_loop}
use gsym_rs.Format.Line.Encode.{encode_special, write_file, write_advance, write_row}
use gsym_rs.Format.Line.Encode.Special.{
  add_line_delta-line_delta, diff, encode_special-ok, special_parts, checked_add-diff,
}
use gsym_rs.Format.Line.RoundTrip.{
  Runs, Runs-round, round_set_file, round_advance_pc, round_advance_line, round_special,
}

abbrev pub file_bytes : LineEntry → LineEntry → List ℕ
file_bytes previous current =
    if previous.file == current.file then [] else 1 ∷ uleb_bytes 10 current.file

abbrev pub line_bytes : ℤ → List ℕ
line_bytes delta = if eq_zero_ℤ delta then [] else 3 ∷ sleb_bytes 10 delta

abbrev pub op_bytes : (minimum maximum delta : ℤ) → ℕ → List ℕ
op_bytes minimum maximum delta address = elim (encode_special minimum maximum delta address) [
  | some special ↦ special ∷ []
  | none ↦ line_bytes delta ++ 2 ∷ uleb_bytes 10 address
]

abbrev pub row_bytes : (minimum maximum : ℤ) → LineEntry → LineEntry → List ℕ
row_bytes minimum maximum previous current =
    file_bytes previous current
    ++ op_bytes minimum maximum (line_delta previous current) (current.address - previous.address)

write_nothing : (e : Encoder) → e ≡ write_bytes [] e
unfolding write_bytes
write_nothing e = ap (λ (t : List ℕ). record e { bytes = t }) (sym (append-nil e.bytes))

write_file-bytes :
    (previous current : LineEntry) (e : Encoder)
    → write_file previous current e ≡ write_bytes (file_bytes previous current) e
unfolding write_u8
write_file-bytes previous current e = elim (Bool-cases (previous.file == current.file)) [
  | inl h ↦ rw h (write_nothing e)
  | inr h ↦ rw h (
      write_uleb-bytes current.file (write_bytes (1 ∷ []) e)
      ∙ write_bytes-append (1 ∷ []) (uleb_bytes 10 current.file) e)
]

write_line-bytes :
    (delta : ℤ) (e : Encoder)
    → (if eq_zero_ℤ delta then e else write_sleb delta (write_u8 3 e))
      ≡ write_bytes (line_bytes delta) e
unfolding write_u8
write_line-bytes delta e = elim (Bool-cases (eq_zero_ℤ delta)) [
  | inl h ↦ rw h (write_nothing e)
  | inr h ↦ rw h (
      write_sleb-bytes delta (write_bytes (3 ∷ []) e)
      ∙ write_bytes-append (3 ∷ []) (sleb_bytes 10 delta) e)
]

write_advance-bytes :
    (delta : ℤ) (address : ℕ) (e : Encoder)
    → write_advance delta address e ≡ write_bytes (line_bytes delta ++ 2 ∷ uleb_bytes 10 address) e
unfolding write_u8
write_advance-bytes delta address e =
    write_uleb-bytes address _
    ∙ ap (λ (d : Encoder). write_bytes (uleb_bytes 10 address) (write_bytes (2 ∷ []) d))
        (write_line-bytes delta e)
    ∙ write_bytes-append (2 ∷ []) (uleb_bytes 10 address) (write_bytes (line_bytes delta) e)
    ∙ write_bytes-append (line_bytes delta) (2 ∷ uleb_bytes 10 address) e

abbrev write_op : Option ℕ → ℤ → ℕ → Encoder → Encoder
write_op o delta address e = elim o [
  | some special ↦ write_u8 special e
  | none ↦ write_advance delta address e
]

abbrev bytes_of : Option ℕ → ℤ → ℕ → List ℕ
bytes_of o delta address = elim o [
  | some special ↦ special ∷ []
  | none ↦ line_bytes delta ++ 2 ∷ uleb_bytes 10 address
]

write_op-bytes :
    (o : Option ℕ) (delta : ℤ) (address : ℕ) (e : Encoder)
    → write_op o delta address e ≡ write_bytes (bytes_of o delta address) e
unfolding write_u8
write_op-bytes none delta address e = write_advance-bytes delta address e
write_op-bytes (some special) delta address e = refl

pub write_row-bytes :
    (minimum maximum : ℤ) (previous current : LineEntry) (e : Encoder)
    → write_row minimum maximum previous current e
      ≡ write_bytes (row_bytes minimum maximum previous current) e
write_row-bytes minimum maximum previous current e =
    write_op-bytes (encode_special minimum maximum delta address) delta address _
    ∙ ap (write_bytes (bytes_of (encode_special minimum maximum delta address) delta address))
        (write_file-bytes previous current e)
    ∙ write_bytes-append (file_bytes previous current) _ e
  where
    delta : ℤ
    delta = line_delta previous current

    address : ℕ
    address = current.address - previous.address

add_line_delta-zero :
    (l : ℕ) (d : ℤ) {m : ℕ} → add_line_delta l d ≡ ok m → eq_zero_ℤ d ≡ true → m ≡ l
unfolding add_line_delta ◌+ℤ◌
add_line_delta-zero l (pos d) h z = ground arith
add_line_delta-zero l (negsuc d) h z = ground arith

-- A row that the decoder can represent.
abbrev pub IsRow : LineEntry → Type 0
IsRow l = IsU64 l.address × IsU32 l.file × IsU32 l.line

line_delta-IsI64 : (l m : LineEntry) → IsU32 l.line → IsU32 m.line → IsI64 (line_delta l m)
unfolding ◌-ℤ◌
line_delta-IsI64 l m h k = ground arith

module _ (e : Endian) (minimum maximum : ℤ) (ordered : minimum ≤ℤ maximum)
    (small : diff maximum minimum < 2 ^ 63) (lines : List LineEntry) (r : List LineEntry)
    (ys : List ℕ) where
  abbrev range : ℕ
  range = diff maximum minimum + 1

  abbrev R : LineEntry → List LineEntry → List ℕ → Type 0
  R row acc xs = Runs push_row e minimum range row acc xs r

  runs_line :
      (row : LineEntry) (line : ℕ) (delta : ℤ) (xs : List ℕ)
      → IsI64 delta
      → add_line_delta row.line delta ≡ ok line
      → R (record row { line = line }) lines xs
      → R row lines (line_bytes delta ++ xs)
  runs_line row line delta xs h sum more = elim (Bool-cases (eq_zero_ℤ delta)) [
    | inl z ↦ rw z (
        subst (λ l. R (record row { line = l }) lines xs) (add_line_delta-zero row.line delta sum z)
          more)
    | inr z ↦ rw z (
        Runs-round push_row e minimum range row lines 3 (sleb_bytes 10 delta ++ xs) r (λ fuel fits.
          round_advance_line push_row e minimum range (parse_loop push_row fuel minimum range) row
            lines delta line h sum
            (more fuel (omega (arith, length-append (sleb_bytes 10 delta) xs)))))
  ]

  runs_advance :
      (row : LineEntry) (address : ℕ)
      → row.address + address < 2 ^ 64
      → R
          (record row { address = row.address + address })
          (lines ++ (record row { address = row.address + address }) ∷ [])
          ys
      → R row lines (2 ∷ uleb_bytes 10 address ++ ys)
  runs_advance row address h more =
      Runs-round push_row e minimum range row lines 2 (uleb_bytes 10 address ++ ys) r (λ fuel fits.
        round_advance_pc push_row e minimum range (parse_loop push_row fuel minimum range) row lines
          address h (more fuel (omega (arith, length-append (uleb_bytes 10 address) ys))))

  runs_special :
      (row current : LineEntry) (special : ℕ)
      → row.file ≡ current.file
      → IsU32 row.line
      → IsRow current
      → row.address ≤ current.address
      → encode_special minimum maximum (line_delta row current) (current.address - row.address)
        ≡ some special
      → R current (lines ++ current ∷ []) ys
      → R row lines (special ∷ ys)
  runs_special row current special file hl (ha, _, hcl) monotone h more =
      let address = current.address - row.address in
      let (lo, hi, value, _) =
        encode_special-ok minimum maximum (line_delta row current) address small h in
      let (line, quotient) =
        special_parts minimum maximum (line_delta row current) address special lo hi value in
      let delta =
        ap (λ (n : ℕ). checked_add_i64 minimum (pos n)) line
        ∙ checked_add-diff minimum (line_delta row current) lo
            (line_delta-IsI64 row current hl hcl) in
      let sum : row.address + (special - 4) / range ≡ current.address = omega (arith, quotient) in
      let same : record {
        address = row.address + (special - 4) / range;
        file = row.file;
        line = current.line;
      }
          ≡ current =
        ap (λ (a : ℕ). record { address = a; file = row.file; line = current.line }) sum
        ∙ ap (λ (f : ℕ). record current { file = f }) file in
      Runs-round push_row e minimum range row lines special ys r (λ fuel fits.
        round_special push_row e minimum range (parse_loop push_row fuel minimum range) row lines
          special current.line (line_delta row current) (omega arith) delta
          (add_line_delta-line_delta row current hl hcl) (omega arith)
          (subst
            (λ (l : LineEntry).
              Reads e (parse_loop push_row fuel minimum range l (lines ++ l ∷ [])) ys r)
            (sym same) (more fuel (omega arith))))

  runs_plain :
      (row current : LineEntry)
      → row.file ≡ current.file
      → IsU32 row.line
      → IsRow current
      → row.address ≤ current.address
      → R current (lines ++ current ∷ []) ys
      → R row lines (
          line_bytes (line_delta row current)
          ++ (2 ∷ uleb_bytes 10 (current.address - row.address) ++ ys))
  runs_plain row current file hl (ha, _, hcl) monotone more =
      let address = current.address - row.address in
      let moved : row.address + address ≡ current.address = omega arith in
      let same : record { address = row.address + address; file = row.file; line = current.line }
          ≡ current =
        ap (λ (a : ℕ). record { address = a; file = row.file; line = current.line }) moved
        ∙ ap (λ (f : ℕ). record current { file = f }) file in
      runs_line row current.line (line_delta row current) (2 ∷ uleb_bytes 10 address ++ ys)
        (line_delta-IsI64 row current hl hcl) (add_line_delta-line_delta row current hl hcl)
        (runs_advance (record row { line = current.line }) address (omega arith)
          (subst (λ (l : LineEntry). R l (lines ++ l ∷ []) ys) (sym same) more))

  runs_op :
      (row current : LineEntry)
      → row.file ≡ current.file
      → IsU32 row.line
      → IsRow current
      → row.address ≤ current.address
      → R current (lines ++ current ∷ []) ys
      → R row lines
          (op_bytes minimum maximum (line_delta row current) (current.address - row.address) ++ ys)
  runs_op row current file hl h monotone more =
      elim (Option-cases
        (encode_special minimum maximum (line_delta row current) (current.address - row.address))) [
          | inl plain ↦
              subst
                (λ (o : Option ℕ).
                  R row lines
                    (bytes_of o (line_delta row current) (current.address - row.address) ++ ys))
                (sym plain)
                (subst (R row lines)
                  (sym (
                    append_assoc (line_bytes (line_delta row current))
                      (2 ∷ uleb_bytes 10 (current.address - row.address)) ys))
                  (runs_plain row current file hl h monotone more))
          | inr (special, fits) ↦
              subst
                (λ (o : Option ℕ).
                  R row lines
                    (bytes_of o (line_delta row current) (current.address - row.address) ++ ys))
                (sym fits) (runs_special row current special file hl h monotone fits more)
        ]

  -- One row, however it is encoded.
  pub runs_row :
      (previous current : LineEntry)
      → IsU32 previous.line
      → IsRow current
      → previous.address ≤ current.address
      → R current (lines ++ current ∷ []) ys
      → R previous lines (row_bytes minimum maximum previous current ++ ys)
  runs_row previous current hl h monotone more = elim (Bool-cases (previous.file == current.file)) [
    | inl same ↦ rw same (runs_op previous current (ground arith) hl h monotone more)
    | inr other ↦
        let ops =
          op_bytes minimum maximum (line_delta previous current)
            (current.address - previous.address) in
        let moved = record previous { file = current.file } in
        let inner : R moved lines (ops ++ ys) = runs_op moved current refl hl h monotone more in
        rw other (
          subst (R previous lines) (sym (append_assoc (1 ∷ uleb_bytes 10 current.file) ops ys)) (
            Runs-round push_row e minimum range previous lines 1
              (uleb_bytes 10 current.file ++ (ops ++ ys)) r
              (λ fuel fits.
                round_set_file push_row e minimum range (parse_loop push_row fuel minimum range)
                  previous lines current.file (h.1)
                  (inner fuel
                    (omega (arith, length-append (uleb_bytes 10 current.file) (ops ++ ys)))))))
  ]
