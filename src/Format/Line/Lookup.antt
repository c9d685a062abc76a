-- ===== src/Format/Line/Lookup.antt =====
-- `lookup` stops early; it finds what a scan of all decoded rows finds.
use mathlib.Core.Path.{subst}
use gsym_rs.Prelude.{
  ℕ, zero, suc, ◌-◌, ◌/◌, ◌%◌, ◌≤◌, ◌<◌, ◌≡◌, refl, sym, ap, ◌∙◌, List, [], ◌∷◌, ◌++◌, append_assoc,
  append-nil, Option, none, some, Bool, true, false, Bool-cases, inl, inr, leb, ltb, ltb→lt, ◌==◌,
  if◌then◌else◌, arith,
}
use gsym_rs.Prelude.Int.{ℤ, pos, checked_add_i64}
use gsym_rs.Prelude.Words.{checked_add, try_u32, u32_max}
use gsym_rs.Error.{Error, ok, err, Result, Result-cases, ok_or, overflow, out_of_range}
use gsym_rs.Model.{LineEntry}
use gsym_rs.Endian.Order.{Endian}
use gsym_rs.Endian.Cursor.{Cursor, Read, ◌>>=◌, pure, lift, new, on_error, read_u8, gets, remaining}
use gsym_rs.Format.Leb.{read_uleb, read_sleb}
use gsym_rs.Format.Line.{
  end_sequence, set_file, advance_pc, advance_line, add_line_delta, special_line_range,
}
use gsym_rs.Format.Line.Parse.{
  map_opcode_eof, visit, set_file_op, advance_pc_op, advance_line_op, special_op, parse_round,
  parse_loop, push_row, keep_below, parse, decode, lookup,
}
use gsym_rs.Format.Line.RoundTrip.Program.{IsMonotone}

-- The last row whose address is at most `address`, or `found` if there is none.
abbrev pub last_covering : ℕ → Option LineEntry → List LineEntry → Option LineEntry
last_covering address found [] = found
last_covering address found (row ∷ rows) =
    last_covering address (if leb row.address address then some row else found) rows

-- Past the first row above the address, no row of a monotone table counts.
last_covering-above :
    (q : ℕ) (found : Option LineEntry) (row : LineEntry) (rows : List LineEntry)
    → q < row.address
    → IsMonotone row rows
    → last_covering q found rows ≡ found
last_covering-above q found row [] h sorted = refl
last_covering-above q found row (next ∷ rows) h (le, sorted) =
    ap (λ (b : Bool). last_covering q (if b then some next else found) rows)
      (above q (next.address) (omega arith))
    ∙ last_covering-above q found next rows (omega arith) sorted
  where
    above : (q a : ℕ) → q < a → leb a q ≡ false
    above q a h = ground arith

pub IsMonotone-later :
    (l m : LineEntry) (rows : List LineEntry)
    → l.address ≤ m.address
    → IsMonotone m rows
    → IsMonotone l rows
IsMonotone-later l m [] h sorted = tt
IsMonotone-later l m (row ∷ rows) h (le, sorted) = (omega arith, sorted)

leb_of_ltb : (q a : ℕ) → ltb q a ≡ true → leb a q ≡ false
leb_of_ltb q a h = ground arith

leb_of_not_ltb : (q a : ℕ) → ltb q a ≡ false → leb a q ≡ true
leb_of_not_ltb q a h = ground arith

checked_add-ok : (a b : ℕ) (e : Error) {c : ℕ} → ok_or (checked_add a b) e ≡ ok c → a ≤ c
checked_add-ok a b e h = ground arith

module _ (q : ℕ) where
  -- Where the first reader collects rows behind `acc`, the second finds the last covering one.
  abbrev Finds :
      LineEntry
      → List LineEntry
      → Option LineEntry
      → Read (List LineEntry)
      → Read (Option LineEntry)
      → Type 0
  Finds row acc found m n =
      (c c' : Cursor) (rows : List LineEntry)
      → m c ≡ ok (rows, c')
      → (more : List LineEntry) × (rows ≡ acc ++ more)
        × IsMonotone row more
        × (c'' : Cursor) × (n c ≡ ok (last_covering q found more, c''))

  module _ (row : LineEntry) (acc : List LineEntry) (found : Option LineEntry) where
    Finds-pure : Finds row acc found (pure acc) (pure found)
    Finds-pure c c' rows h = (
      [],
      ap (λ (r : Result (List LineEntry × Cursor)). value r) (sym h) ∙ sym (append-nil acc),
      tt,
      c,
      refl,
    )
      where
        value : Result (List LineEntry × Cursor) → List LineEntry
        value (ok (r, d)) = r
        value (err x) = rows

    -- Both read the same and go on.
    Finds-bind :
        {A : Type 0} (m : Read A) (f : A → Read (List LineEntry)) (g : A → Read (Option LineEntry))
        → ((a : A) → Finds row acc found (f a) (g a))
        → Finds row acc found (m >>= f) (m >>= g)
    Finds-bind m f g h c c' rows e = elim (Result-cases (m c)) [
      | inl ((a, d), p) ↦
          let (more, same, sorted, c'', run) = h a d c' rows (rw p at e) in
          (more, same, sorted, c'', rw p run)
      | inr (x, p) ↦ cc (rw p at e)
    ]

    Finds-if :
        (b : Bool) {m m' : Read (List LineEntry)} {n n' : Read (Option LineEntry)}
        → Finds row acc found m n
        → Finds row acc found m' n'
        → Finds row acc found (if b then m else m') (if b then n else n')
    Finds-if true h k = h
    Finds-if false h k = k

  -- A row that goes up in address.
  Finds-from :
      (l m : LineEntry) (acc : List LineEntry) (found : Option LineEntry)
      {a : Read (List LineEntry)} {b : Read (Option LineEntry)}
      → l.address ≤ m.address
      → Finds m acc found a b
      → Finds l acc found a b
  Finds-from l m acc found h k c c' rows e =
      let (more, same, sorted, c'', run) = k c c' rows e in
      (more, same, IsMonotone-later l m more h sorted, c'', run)

  Finds-visit :
      (again : LineEntry → List LineEntry → Read (List LineEntry))
      (again' : LineEntry → Option LineEntry → Read (Option LineEntry))
      → ((row : LineEntry) (acc : List LineEntry) (found : Option LineEntry)
          → Finds row acc found (again row acc) (again' row found))
      → (row : LineEntry) (acc : List LineEntry) (found : Option LineEntry)
      → Finds row acc found (visit push_row again row acc) (visit (keep_below q) again' row found)
  Finds-visit again again' h row acc found c c' rows e =
      let (more, same, sorted, c'', run) = h row (acc ++ row ∷ []) (some row) c c' rows e in
      elim (Bool-cases (ltb q row.address)) [
        | inl above ↦ (
          row ∷ more,
          same ∙ append_assoc acc (row ∷ []) more,
          (omega arith, sorted),
          c,
          rw (above, leb_of_ltb q row.address above)
              (ap (λ (r : Option LineEntry). ok (r, c))
                (sym (last_covering-above q found row more (ltb→lt q row.address above) sorted))),
        )
        | inr below ↦ (
          row ∷ more,
          same ∙ append_assoc acc (row ∷ []) more,
          (omega arith, sorted),
          c'',
          rw (below, leb_of_not_ltb q row.address below) run,
        )
      ]

  module _ (minimum : ℤ) (range : ℕ) (again : LineEntry → List LineEntry → Read (List LineEntry))
      (again' : LineEntry → Option LineEntry → Read (Option LineEntry))
      (h : (row : LineEntry) (acc : List LineEntry) (found : Option LineEntry)
        → Finds row acc found (again row acc) (again' row found))
      (row : LineEntry) (acc : List LineEntry) (found : Option LineEntry) where
    Finds-set_file :
        Finds row acc found
          (set_file_op push_row again row acc)
          (set_file_op (keep_below q) again' row found)
    Finds-set_file = Finds-bind row acc found read_uleb _ _ (λ file.
        Finds-bind row acc found _ _ _ (λ f.
          let row' = record row { file = f } in
          Finds-from row row' acc found (omega arith) (h row' acc found)))

    Finds-advance_line :
        Finds row acc found
          (advance_line_op push_row again row acc)
          (advance_line_op (keep_below q) again' row found)
    Finds-advance_line = Finds-bind row acc found read_sleb _ _ (λ delta.
        Finds-bind row acc found _ _ _ (λ l.
          let row' = record row { line = l } in
          Finds-from row row' acc found (omega arith) (h row' acc found)))

    -- A sum that does not overflow moves the address up.
    Finds-add :
        (line delta : ℕ) (e : Error)
        → Finds row acc found
            (lift (ok_or (checked_add row.address delta) e) >>= λ a.
              visit push_row again (record row { address = a; line = line }) acc)
            (lift (ok_or (checked_add row.address delta) e) >>= λ a.
              visit (keep_below q) again' (record row { address = a; line = line }) found)
    Finds-add line delta e c c' rows run =
        elim (Result-cases (ok_or (checked_add row.address delta) e)) [
          | inl (a, p) ↦
              let row' = record row { address = a; line = line } in
              let (more, same, sorted, c'', run') =
                Finds-from row row' acc found (checked_add-ok row.address delta e p)
                  (Finds-visit again again' h row' acc found) c c' rows (rw p at run) in
              (more, same, sorted, c'', rw p run')
          | inr (x, p) ↦ cc (rw p at run)
        ]

    Finds-advance_pc :
        Finds row acc found
          (advance_pc_op push_row again row acc)
          (advance_pc_op (keep_below q) again' row found)
    Finds-advance_pc =
        Finds-bind row acc found read_uleb _ _
          (λ delta. Finds-add row.line delta (overflow "line-table address"))

    Finds-special :
        (special : ℕ)
        → Finds row acc found
            (special_op push_row minimum range special again row acc)
            (special_op (keep_below q) minimum range special again' row found)
    Finds-special special =
        Finds-bind row acc found
          (lift (
            ok_or (checked_add_i64 minimum (pos ((special - 4) % range)))
              (overflow "line-table line delta")))
          _ _
          (λ delta.
            Finds-bind row acc found (lift (add_line_delta row.line delta)) _ _
              (λ line. Finds-add line ((special - 4) / range) (overflow "line-table address")))

    Finds-round :
        Finds row acc found
          (parse_round push_row minimum range again row acc)
          (parse_round (keep_below q) minimum range again' row found)
    unfolding parse_round
    Finds-round = Finds-bind row acc found (on_error map_opcode_eof read_u8) _ _ (λ opcode.
        Finds-if row acc found (opcode == end_sequence) (Finds-pure row acc found) (
          Finds-if row acc found (opcode == set_file) Finds-set_file (
            Finds-if row acc found (opcode == advance_pc) Finds-advance_pc (
              Finds-if row acc found (opcode == advance_line) Finds-advance_line
                (Finds-special opcode)))))

  Finds-loop :
      (fuel : ℕ) (minimum : ℤ) (range : ℕ) (row : LineEntry) (acc : List LineEntry)
      (found : Option LineEntry)
      → Finds row acc found
          (parse_loop push_row fuel minimum range row acc)
          (parse_loop (keep_below q) fuel minimum range row found)
  unfolding parse_loop
  Finds-loop zero minimum range row acc found = λ c c' rows h. cc
  Finds-loop (suc fuel) minimum range row acc found =
      Finds-round minimum range (parse_loop push_row fuel minimum range)
        (parse_loop (keep_below q) fuel minimum range) (Finds-loop fuel minimum range) row acc found

  Finds-parse :
      (base : ℕ)
      → Finds
          (record { address = base; file = 1; line = 0 })
          []
          none
          (parse push_row base [])
          (parse (keep_below q) base none)
  unfolding parse
  Finds-parse base =
      let row : LineEntry = record { address = base; file = 1; line = 0 } in
      Finds-bind row [] none read_sleb _ _ (λ minimum.
        Finds-bind row [] none read_sleb _ _ (λ maximum.
          Finds-bind row [] none (lift (special_line_range minimum maximum)) _ _ (λ range.
            Finds-bind row [] none read_uleb _ _ (λ first_line.
              Finds-bind row [] none
                (lift (ok_or (try_u32 first_line) (out_of_range "line number" first_line u32_max)))
                _ _
                (λ line. Finds-bind row [] none (gets remaining) _ _ (λ left.
                  let row' : LineEntry = record { address = base; file = 1; line = line } in
                  Finds-from row row' [] none (omega arith)
                    (Finds-loop left minimum range row' [] none)))))))

-- On every table that `decode` accepts, `lookup` succeeds with the last of the decoded rows whose
-- address is at most the one looked up, and with nothing if every row lies above it.
pub lookup-decode :
    (bytes : List ℕ) (e : Endian) (base address : ℕ) {rows : List LineEntry}
    → decode bytes e base ≡ ok rows
    → lookup bytes e base address ≡ ok (last_covering address none rows)
unfolding decode lookup
lookup-decode bytes e base address {rows = rows} h =
    elim (Result-cases (parse push_row base [] (new bytes e))) [
      | inl ((a, d), p) ↦
          let (more, same, sorted, c', run) = Finds-parse address base (new bytes e) d a p in
          let found : a ≡ rows = cc (rw p at h) in
          rw run (ap (λ (r : List LineEntry). ok (last_covering address none r)) (sym same ∙ found))
      | inr (x, p) ↦ cc (rw p at h)
    ]

-- The rows that `decode` accepts start at the base address or above, and their addresses never go down.
pub decode-IsMonotone :
    (bytes : List ℕ) (e : Endian) (base : ℕ) {rows : List LineEntry}
    → decode bytes e base ≡ ok rows
    → IsMonotone (record { address = base; file = 1; line = 0 }) rows
unfolding decode
decode-IsMonotone bytes e base {rows = rows} h =
    elim (Result-cases (parse push_row base [] (new bytes e))) [
      | inl ((a, d), p) ↦
          let (more, same, sorted, c', run) = Finds-parse 0 base (new bytes e) d a p in
          let found : a ≡ rows = cc (rw p at h) in
          subst (IsMonotone (record { address = base; file = 1; line = 0 })) (sym same ∙ found)
            sorted
      | inr (x, p) ↦ cc (rw p at h)
    ]
