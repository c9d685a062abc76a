-- ===== src/Format/Line/Range.antt =====
-- src/format/line.rs: `choose_delta_range`, the line deltas that special opcodes cover.
pub mod Bounds
pub mod Chosen
use gsym_rs.Prelude.{
  ℕ, zero, suc, ◌+◌, ◌-◌, Bool, true, false, ◌&&◌, List, [], ◌∷◌, Option, none, some, length, min,
  get_elem?, ltb, leb, ◌==◌, if◌then◌else◌,
}
use gsym_rs.Prelude.Int.{
  ℤ, pos, saturating_sub_i64, leb_ℤ, ltb_ℤ, min_ℤ, max_ℤ, i64_max, i64_min, pos_part, neg_part,
}
use gsym_rs.Prelude.Words.{u32_max}
use gsym_rs.Model.{LineEntry}

abbrev pub maximum_line_range : ℤ
maximum_line_range = pos 14

abbrev pub eq_ℤ : ℤ → ℤ → Bool
eq_ℤ a b = pos_part a + neg_part b == pos_part b + neg_part a

abbrev pub line_delta : LineEntry → LineEntry → ℤ
line_delta previous current = saturating_sub_i64 (pos current.line) (pos previous.line)

-- `lines.iter().zip(lines.iter().skip(1)).map(..)`.
unfoldable pub deltas : List LineEntry → List ℤ
deltas [] = []
deltas (l ∷ []) = []
deltas (l ∷ m ∷ ls) = line_delta l m ∷ deltas (m ∷ ls)

abbrev pub is_wide : ℤ × ℤ → Bool
is_wide (minimum, maximum) = ltb_ℤ maximum_line_range (saturating_sub_i64 maximum minimum)

-- The first loop, which breaks once the span is too wide.
unfoldable pub span_loop : List ℤ → ℤ × ℤ → ℤ × ℤ
span_loop [] range = range
span_loop (delta ∷ ds) (minimum, maximum) =
    let range : ℤ × ℤ = (min_ℤ minimum delta, max_ℤ maximum delta) in
    let rest = span_loop ds range in if is_wide range then range else rest

-- `sort_unstable` on integers, for which every sort gives the same list.
unfoldable pub insert_sorted : ℤ → List ℤ → List ℤ
insert_sorted a [] = a ∷ []
insert_sorted a (b ∷ bs) = if leb_ℤ a b then a ∷ b ∷ bs else b ∷ insert_sorted a bs

unfoldable pub sort : List ℤ → List ℤ
unfolding insert_sorted
sort [] = []
sort (a ∷ bs) = insert_sorted a (sort bs)

-- The `while` that moves `end` past the deltas near `first`; the fuel is the length of the list.
unfoldable pub window_end : (fuel : ℕ) (ds : List ℤ) (first : ℤ) (end : ℕ) → ℕ
window_end zero ds first end = end
window_end (suc fuel) ds first end = elim (get_elem? ds end) [
  | none ↦ end
  | some delta ↦ elim (leb_ℤ (saturating_sub_i64 delta first) maximum_line_range) [
    | true ↦ window_end fuel ds first (end + 1)
    | false ↦ end
  ]
]

pub record Window : Type 0 where
  pub best_count : ℕ
  pub end : ℕ
  pub minimum : ℤ
  pub maximum : ℤ

abbrev pub get_or_first : List ℤ → ℕ → ℤ → ℤ
get_or_first ds i first = elim (get_elem? ds i) [ none ↦ first | some delta ↦ delta ]

-- One round of the `for` over the sorted deltas. The count is a `u32` that stops at its maximum.
unfoldable pub window_round : List ℤ → ℕ → ℤ → Window → Window
unfolding window_end
window_round ds start first w =
    let end = window_end (length ds) ds first w.end in
    let count = min (end - start) u32_max in
    if ltb w.best_count count
    then record {
      best_count = count;
      end = end;
      minimum = first;
      maximum = get_or_first ds (end - 1) first;
    }
    else record w { end = end }

unfoldable pub window_loop : List ℤ → ℕ → List ℤ → Window → Window
unfolding window_round
window_loop ds start [] w = w
window_loop ds start (first ∷ rest) w =
    window_loop ds (start + 1) rest (window_round ds start first w)

-- The range of the best window, if the whole span is too wide.
unfoldable pub narrow : List ℤ → ℤ × ℤ → ℤ × ℤ
unfolding sort window_loop
narrow ds (minimum, maximum) =
    let sorted = sort ds in
    let w =
      window_loop sorted 0 sorted
        (record { best_count = 0; end = 0; minimum = minimum; maximum = maximum }) in
    if is_wide (minimum, maximum) then (w.minimum, w.maximum) else (minimum, maximum)

-- `if minimum == maximum && minimum > 0 && minimum < MAXIMUM_LINE_RANGE { minimum = 0 }`.
unfoldable pub widen_to_zero : ℤ × ℤ → ℤ × ℤ
widen_to_zero (minimum, maximum) =
    if eq_ℤ minimum maximum && ltb_ℤ (pos 0) minimum && ltb_ℤ minimum maximum_line_range
    then (pos 0, maximum)
    else (minimum, maximum)

unfoldable pub choose_delta_range : List LineEntry → ℤ × ℤ
unfolding deltas span_loop narrow widen_to_zero
choose_delta_range lines =
    if ltb (length lines) 2
    then (pos 0, pos 0)
    else widen_to_zero (narrow (deltas lines) (span_loop (deltas lines) (i64_max, i64_min)))
