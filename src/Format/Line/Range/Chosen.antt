-- ===== src/Format/Line/Range/Chosen.antt =====
-- The window that `choose_delta_range` picks in the sorted deltas, and what it does with it.
use mathlib.Core.Path.{subst}
use gsym_rs.Prelude.{
  ℕ, suc, ◌+◌, ◌-◌, ◌≡◌, refl, sym, ap, ◌∙◌, List, [], ◌∷◌, length, All, drop, arith, false, ltb,
  ltb→lt, min, Bool-cases, inl, inr,
}
use gsym_rs.Prelude.Words.{u32_max}
use gsym_rs.Prelude.Int.{ℤ, pos, negsuc, ◌-ℤ◌, ◌≤ℤ◌, i64_max, i64_min}
use gsym_rs.Error.{ok}
use gsym_rs.Model.{LineEntry}
use gsym_rs.Format.Line.{special_line_range}
use gsym_rs.Format.Line.Encode.Special.{diff}
use gsym_rs.Format.Line.Range.{
  line_delta, deltas, is_wide, span_loop, sort, Window, window_end, window_round, window_loop,
  narrow, widen_to_zero, choose_delta_range, get_or_first,
}
use gsym_rs.Format.Line.Range.Bounds.{
  IsDelta, IsRange, IsSorted, HasLine, deltas-IsDelta, span_loop-first, either, sort-IsSorted,
  sort-All, drop-All, drop-IsSorted, drop-suc, get_or_first-drop, get_or_first-IsRange,
}

module _ (ds : List ℤ) (sorted : IsSorted ds) (small : All IsDelta ds) where
  window_round-IsRange :
      (start : ℕ) (first : ℤ) (rest : List ℤ) (w : Window)
      → drop start ds ≡ first ∷ rest
      → IsRange (w.minimum, w.maximum)
      → let w' = window_round ds start first w in IsRange (w'.minimum, w'.maximum)
  unfolding window_round
  window_round-IsRange start first rest w e h =
      let end = window_end (length ds) ds first w.end in
      elim (Bool-cases (ltb w.best_count (min (end - start) u32_max))) [
        | inr more ↦ rw more h
        | inl better ↦
            let (hf, hs) = subst (All IsDelta) e (drop-All IsDelta start ds small) in
            let (le, _) = subst IsSorted e (drop-IsSorted start ds sorted) in
            let index : start + (end - 1 - start) ≡ end - 1 =
              omega (arith, ltb→lt w.best_count (min (end - start) u32_max) better) in
            rw better (
              subst (λ (b : ℤ). IsRange (first, b))
                (ap (λ (xs : List ℤ). get_or_first xs (end - 1 - start) first) (sym e)
                  ∙ sym (get_or_first-drop start (end - 1 - start) ds first)
                  ∙ ap (λ (i : ℕ). get_or_first ds i first) index)
                (get_or_first-IsRange first (first ∷ rest) (end - 1 - start) hf (omega arith, le)
                  (hf, hs)))
      ]

  window_loop-IsRange :
      (start : ℕ) (rest : List ℤ) (w : Window)
      → drop start ds ≡ rest
      → IsRange (w.minimum, w.maximum)
      → let w' = window_loop ds start rest w in IsRange (w'.minimum, w'.maximum)
  unfolding window_loop
  window_loop-IsRange start [] w e h = h
  window_loop-IsRange start (first ∷ rest) w e h =
      window_loop-IsRange (start + 1) rest (window_round ds start first w)
        (ap (λ (n : ℕ). drop n ds) (one_more start) ∙ drop-suc start ds e)
        (window_round-IsRange start first rest w e h)
    where
      one_more : (n : ℕ) → n + 1 ≡ suc n
      one_more n = omega arith

narrow-IsRange :
    (ds : List ℤ) (a b : ℤ) → All IsDelta ds → IsRange (a, b) → IsRange (narrow ds (a, b))
unfolding narrow
narrow-IsRange ds a b small h =
    let sorted = sort ds in
    let w =
      window_loop sorted 0 sorted (record { best_count = 0; end = 0; minimum = a; maximum = b }) in
    either (is_wide (a, b)) (w.minimum, w.maximum) (a, b)
      (window_loop-IsRange sorted (sort-IsSorted ds) (sort-All IsDelta ds small) 0 sorted _ refl h)
      h

widen_to_zero-IsRange : (a b : ℤ) → IsRange (a, b) → IsRange (widen_to_zero (a, b))
unfolding widen_to_zero
widen_to_zero-IsRange a b h = ground arith

-- Whatever the rows, the chosen range is one that the decoder accepts.
pub choose_delta_range-IsRange :
    (lines : List LineEntry) → All HasLine lines → IsRange (choose_delta_range lines)
unfolding choose_delta_range deltas
choose_delta_range-IsRange [] h = ground arith
choose_delta_range-IsRange (l ∷ []) h = ground arith
choose_delta_range-IsRange (l ∷ m ∷ ls) h =
    let ds = deltas (l ∷ m ∷ ls) in
    let small = deltas-IsDelta (l ∷ m ∷ ls) h in
    let span = span_loop ds (i64_max, i64_min) in
    let chosen = narrow ds span in
    rw (two_rows (length ls)) (
      widen_to_zero-IsRange (chosen.0) (chosen.1) (
        narrow-IsRange ds (span.0) (span.1) small
          (span_loop-first (line_delta l m) (deltas (m ∷ ls)) (small.0) (small.1))))
  where
    two_rows : (n : ℕ) → ltb (suc (suc n)) 2 ≡ false
    two_rows n = ground arith

pub IsRange-accepted : (a b : ℤ) → IsRange (a, b) → special_line_range a b ≡ ok (diff b a + 1)
unfolding special_line_range ◌-ℤ◌
IsRange-accepted (pos a) (pos b) h = ground arith
IsRange-accepted (pos a) (negsuc b) h = ground arith
IsRange-accepted (negsuc a) (pos b) h = ground arith
IsRange-accepted (negsuc a) (negsuc b) h = ground arith

-- For rows whose lines are `u32` values, the range of line deltas that the encoder picks is one that
-- the decoder accepts: its bounds are in order and as `i64` values their distance does not overflow.
pub choose_delta_range-accepted :
    (lines : List LineEntry)
    → All HasLine lines
    → (let (minimum, maximum) = choose_delta_range lines in
        (minimum ≤ℤ maximum) × (special_line_range minimum maximum ≡ ok (diff maximum minimum + 1)))
choose_delta_range-accepted lines h =
    let (minimum, maximum) = choose_delta_range lines in
    let range = choose_delta_range-IsRange lines h in
    (range.2, IsRange-accepted minimum maximum range)
