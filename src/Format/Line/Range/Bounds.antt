-- ===== src/Format/Line/Range/Bounds.antt =====
-- `choose_delta_range` on the deltas of `u32` lines: the range is in order and far from overflow.
use gsym_rs.Prelude.{
  ℕ, zero, suc, ◌+◌, ◌≡◌, refl, ap, ◌∙◌, List, [], ◌∷◌, All, drop, arith, Bool, true, false,
  Bool-cases, inl, inr, if◌then◌else◌,
}
use gsym_rs.Prelude.Int.{ℤ, pos_part, neg_part, ◌-ℤ◌, ◌≤ℤ◌, min_ℤ, max_ℤ, leb_ℤ, i64_max, i64_min}
use gsym_rs.Prelude.Words.{IsU32}
use gsym_rs.Model.{LineEntry}
use gsym_rs.Format.Line.Range.{
  line_delta, deltas, is_wide, span_loop, insert_sorted, sort, get_or_first,
}

-- A difference of two `u32` values.
abbrev pub IsDelta : ℤ → Type 0
IsDelta d = IsU32 (pos_part d) × IsU32 (neg_part d)

abbrev pub IsRange : ℤ × ℤ → Type 0
IsRange (minimum, maximum) = IsDelta minimum × IsDelta maximum × (minimum ≤ℤ maximum)

abbrev pub HasLine : LineEntry → Type 0
HasLine l = IsU32 l.line

line_delta-IsDelta : (l m : LineEntry) → HasLine l → HasLine m → IsDelta (line_delta l m)
unfolding ◌-ℤ◌
line_delta-IsDelta l m h k = ground arith

pub deltas-IsDelta : (lines : List LineEntry) → All HasLine lines → All IsDelta (deltas lines)
unfolding deltas
deltas-IsDelta [] h = tt
deltas-IsDelta (l ∷ []) h = tt
deltas-IsDelta (l ∷ m ∷ ls) (hl, (hm, h)) =
    (line_delta-IsDelta l m hl hm, deltas-IsDelta (m ∷ ls) (hm, h))

extend-IsRange : (a b d : ℤ) → IsRange (a, b) → IsDelta d → IsRange (min_ℤ a d, max_ℤ b d)
extend-IsRange a b d h k = ground arith

first-IsRange : (d : ℤ) → IsDelta d → IsRange (min_ℤ i64_max d, max_ℤ i64_min d)
first-IsRange d k = ground arith

pub either : (b : Bool) (r s : ℤ × ℤ) → IsRange r → IsRange s → IsRange (if b then r else s)
either true r s h k = h
either false r s h k = k

span_loop-IsRange :
    (ds : List ℤ) (a b : ℤ) → IsRange (a, b) → All IsDelta ds → IsRange (span_loop ds (a, b))
unfolding span_loop
span_loop-IsRange [] a b h k = h
span_loop-IsRange (d ∷ ds) a b h (k, ks) =
    let range : ℤ × ℤ = (min_ℤ a d, max_ℤ b d) in
    let wider = extend-IsRange a b d h k in
    either (is_wide range) range (span_loop ds range) wider
      (span_loop-IsRange ds (min_ℤ a d) (max_ℤ b d) wider ks)

pub span_loop-first :
    (d : ℤ) (ds : List ℤ)
    → IsDelta d
    → All IsDelta ds
    → IsRange (span_loop (d ∷ ds) (i64_max, i64_min))
unfolding span_loop
span_loop-first d ds k ks =
    let range : ℤ × ℤ = (min_ℤ i64_max d, max_ℤ i64_min d) in
    let start = first-IsRange d k in
    either (is_wide range) range (span_loop ds range) start
      (span_loop-IsRange ds (min_ℤ i64_max d) (max_ℤ i64_min d) start ks)

abbrev pub IsSorted : List ℤ → Type 0
IsSorted [] = Unit
IsSorted (d ∷ ds) = All (λ b. d ≤ℤ b) ds × IsSorted ds

-- What holds of all of a list and of `a` holds of all of the list with `a` in its place.
insert_sorted-All :
    (P : ℤ → Type 0) (a : ℤ) (ds : List ℤ) → P a → All P ds → All P (insert_sorted a ds)
unfolding insert_sorted
insert_sorted-All P a [] p ps = (p, tt)
insert_sorted-All P a (d ∷ ds) p (q, qs) = elim (Bool-cases (leb_ℤ a d)) [
  | inl h ↦ rw h (p, (q, qs))
  | inr h ↦ rw h (q, insert_sorted-All P a ds p qs)
]

All-trans : (a b : ℤ) (ds : List ℤ) → a ≤ℤ b → All (λ d. b ≤ℤ d) ds → All (λ d. a ≤ℤ d) ds
All-trans a b [] h ps = tt
All-trans a b (d ∷ ds) h (p, ps) = (omega arith, All-trans a b ds h ps)

insert_sorted-IsSorted : (a : ℤ) (ds : List ℤ) → IsSorted ds → IsSorted (insert_sorted a ds)
unfolding insert_sorted
insert_sorted-IsSorted a [] h = (tt, tt)
insert_sorted-IsSorted a (d ∷ ds) (le, h) = elim (Bool-cases (leb_ℤ a d)) [
  | inl e ↦ let lo : a ≤ℤ d = ground arith in rw e ((lo, All-trans a d ds lo le), (le, h))
  | inr e ↦
      rw e (insert_sorted-All (λ b. d ≤ℤ b) a ds (ground arith) le, insert_sorted-IsSorted a ds h)
]

pub sort-IsSorted : (ds : List ℤ) → IsSorted (sort ds)
unfolding sort
sort-IsSorted [] = tt
sort-IsSorted (d ∷ ds) = insert_sorted-IsSorted d (sort ds) (sort-IsSorted ds)

pub sort-All : (P : ℤ → Type 0) (ds : List ℤ) → All P ds → All P (sort ds)
unfolding sort
sort-All P [] h = tt
sort-All P (d ∷ ds) (p, ps) = insert_sorted-All P d (sort ds) p (sort-All P ds ps)

pub drop-All : (P : ℤ → Type 0) (n : ℕ) (ds : List ℤ) → All P ds → All P (drop n ds)
drop-All P zero ds h = h
drop-All P (suc n) [] h = tt
drop-All P (suc n) (d ∷ ds) (p, ps) = drop-All P n ds ps

pub drop-IsSorted : (n : ℕ) (ds : List ℤ) → IsSorted ds → IsSorted (drop n ds)
drop-IsSorted zero ds h = h
drop-IsSorted (suc n) [] h = tt
drop-IsSorted (suc n) (d ∷ ds) (le, h) = drop-IsSorted n ds h

pub drop-suc :
    {a : ℤ} (n : ℕ) (ds : List ℤ) {bs : List ℤ} → drop n ds ≡ a ∷ bs → drop (suc n) ds ≡ bs
drop-suc zero [] h = cc
drop-suc zero (d ∷ ds) h = cc
drop-suc (suc n) [] h = cc
drop-suc (suc n) (d ∷ ds) h = drop-suc n ds h

pub get_or_first-drop :
    (m k : ℕ) (ds : List ℤ) (first : ℤ)
    → get_or_first ds (m + k) first ≡ get_or_first (drop m ds) k first
get_or_first-drop zero k ds first = ap (λ (i : ℕ). get_or_first ds i first) (omega arith)
get_or_first-drop (suc m) k [] first = refl
get_or_first-drop (suc m) k (d ∷ ds) first =
    ap (λ (i : ℕ). get_or_first (d ∷ ds) i first) (shift m k) ∙ get_or_first-drop m k ds first
  where
    shift : (m k : ℕ) → suc m + k ≡ suc (m + k)
    shift m k = omega arith

pub get_or_first-IsRange :
    (first : ℤ) (ds : List ℤ) (k : ℕ)
    → IsDelta first
    → All (λ b. first ≤ℤ b) ds
    → All IsDelta ds
    → IsRange (first, get_or_first ds k first)
get_or_first-IsRange first [] k h le hs = (h, h, omega arith)
get_or_first-IsRange first (d ∷ ds) zero h (le, _) (hd, _) = (h, hd, le)
get_or_first-IsRange first (d ∷ ds) (suc k) h (_, le) (_, hs) =
    get_or_first-IsRange first ds k h le hs
