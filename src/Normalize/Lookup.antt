-- ===== src/Normalize/Lookup.antt =====
-- Compaction keeps what a lookup finds, and leaves no row to drop.
use gsym_rs.Prelude.{
  ℕ, ◌≤◌, ◌≡◌, ◌≢◌, ◌⊎◌, ◌==◌, refl, sym, ap, ◌∙◌, Bool, true, false, Bool-cases, inl, inr, List,
  [], ◌∷◌, Option, none, some, leb, if◌then◌else◌, arith,
}
use gsym_rs.Model.{LineEntry}
use gsym_rs.Format.Line.Lookup.{last_covering, IsMonotone-later}
use gsym_rs.Format.Line.RoundTrip.Program.{IsMonotone}
use gsym_rs.Normalize.{same_place, compact_after, compact_line_rows}

-- The file and the line of a row, which is what a lookup reports.
abbrev pub place : Option LineEntry → Option (ℕ × ℕ)
place none = none
place (some row) = some (row.file, row.line)

below : (a b : ℕ) → a ≤ b → leb a b ≡ true
below a b h = ground arith

same_place-place :
    (row previous : LineEntry)
    → same_place row previous ≡ true
    → place (some row) ≡ place (some previous)
same_place-place row previous h =
    ap (λ (f : ℕ). some (f, row.line)) file ∙ ap (λ (l : ℕ). some (previous.file, l)) line
  where
    file : row.file ≡ previous.file
    file = ground arith

    line : row.line ≡ previous.line
    line = ground arith

-- `found` and `found'` are what the two scans have found so far.
compact_after-last_covering :
    (q : ℕ) (previous : LineEntry) (rows : List LineEntry) (found found' : Option LineEntry)
    → IsMonotone previous rows
    → place found ≡ place found'
    → (previous.address ≤ q → place found ≡ place (some previous))
    → place (last_covering q found (compact_after previous rows))
      ≡ place (last_covering q found' rows)
unfolding compact_after
compact_after-last_covering q previous [] found found' sorted same cover = same
compact_after-last_covering q previous (row ∷ rows) found found' (le, sorted) same cover =
    elim (Bool-cases (same_place row previous)) [
      | inl e ↦ rw e (
          compact_after-last_covering q previous rows found
            (if leb row.address q then some row else found')
            (IsMonotone-later previous row rows le sorted) (still e) cover)
      | inr e ↦ rw e (
          compact_after-last_covering q row rows (if leb row.address q then some row else found)
            (if leb row.address q then some row else found') sorted both covered)
    ]
  where
    still :
        same_place row previous ≡ true
        → place found ≡ place (if leb row.address q then some row else found')
    still e = elim (Bool-cases (leb row.address q)) [
      | inl h ↦ rw h (cover (ground arith) ∙ sym (same_place-place row previous e))
      | inr h ↦ rw h same
    ]

    both :
        place (if leb row.address q then some row else found)
        ≡ place (if leb row.address q then some row else found')
    both = elim (Bool-cases (leb row.address q)) [ inl h ↦ rw h refl | inr h ↦ rw h same ]

    covered :
        row.address ≤ q → place (if leb row.address q then some row else found) ≡ place (some row)
    covered h = ap (λ (b : Bool). place (if b then some row else found)) (below row.address q h)

-- Over rows whose addresses never go down, compaction keeps the file and the line of the last row
-- at or below every address.
pub compact_line_rows-last_covering :
    (first : LineEntry) (rows : List LineEntry) (address : ℕ)
    → IsMonotone first rows
    → place (last_covering address none (compact_line_rows (first ∷ rows)))
      ≡ place (last_covering address none (first ∷ rows))
unfolding compact_line_rows
compact_line_rows-last_covering first rows address sorted =
    compact_after-last_covering address first rows start start sorted refl covered
  where
    start : Option LineEntry
    start = if leb first.address address then some first else none

    covered : first.address ≤ address → place start ≡ place (some first)
    covered h =
        ap (λ (b : Bool). place (if b then some first else none)) (below first.address address h)

-- No row stands behind a row of its file and line.
abbrev pub IsCompact : List LineEntry → Type 0
IsCompact [] = Unit
IsCompact (row ∷ []) = Unit
IsCompact (row ∷ next ∷ rows) =
    ((next.file ≢ row.file) ⊎ (next.line ≢ row.line)) × IsCompact (next ∷ rows)

-- What a failed comparison says of the two rows.
same_place-false :
    (current previous : LineEntry)
    → same_place current previous ≡ false
    → (current.file ≢ previous.file) ⊎ (current.line ≢ previous.line)
same_place-false current previous h = elim (Bool-cases (current.file == previous.file)) [
  | inl e ↦ inr (λ p. ground arith)
  | inr e ↦ inl (λ p. ground arith)
]

compact_after-IsCompact :
    (row : LineEntry) (rows : List LineEntry) → IsCompact (row ∷ compact_after row rows)
unfolding compact_after
compact_after-IsCompact row [] = tt
compact_after-IsCompact row (next ∷ rows) = elim (Bool-cases (same_place next row)) [
  | inl e ↦ rw e (compact_after-IsCompact row rows)
  | inr e ↦ rw e (same_place-false next row e, compact_after-IsCompact next rows)
]

-- In compacted rows, the file or the line of each row differs from that of the row before it.
pub compact_line_rows-IsCompact : (rows : List LineEntry) → IsCompact (compact_line_rows rows)
unfolding compact_line_rows
compact_line_rows-IsCompact [] = tt
compact_line_rows-IsCompact (row ∷ rows) = compact_after-IsCompact row rows
