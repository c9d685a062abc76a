-- ===== src/Reader/Inline/Ranges.antt =====
-- The scan of the ranges of a node.
use gsym_rs.Prelude.{
  ℕ, zero, suc, ◌≡◌, refl, sym, ap, ◌∙◌, Bool, true, false, ◌&&◌, ◌||◌, List, [], ◌∷◌, is_nil,
  Option, some, ltb, leb, arith,
}
use gsym_rs.Prelude.Words.{checked_add}
use gsym_rs.Error.{ok_or, guard}
use gsym_rs.Model.Range.{AddressRange, contains}
use gsym_rs.Endian.Cursor.{lift}
use gsym_rs.Format.Leb.{read_uleb}
use gsym_rs.Format.Function.Ranges.{ranges_loop, follows}
use gsym_rs.Reader.Inline.{first_of, scan_ranges}
use gsym_rs.Reader.Inline.Chain.{covers}
use gsym_rs.Reader.Inline.Simulates.{
  Simulates, Simulates-pure, Simulates-both, Simulates-left, Simulates-ok_or, Simulates-cast,
  Simulates-map, Always, Always-pure, Always-bind,
}

-- The first start, after these ranges.
abbrev pub first_after : Option ℕ → List AddressRange → Option ℕ
first_after first [] = first
first_after first (r ∷ rs) = some (first_of first (r.start))

module _ (address : ℕ) where
  first_after-again :
      (first : Option ℕ) (start : ℕ) (rs : List AddressRange)
      → first_after (some (first_of first start)) rs ≡ some (first_of first start)
  first_after-again first start [] = refl
  first_after-again first start (r ∷ rs) = refl

  nothing_more : (seen collect : Bool) → (seen || (collect && false)) ≡ seen
  nothing_more true collect = refl
  nothing_more false true = refl
  nothing_more false false = refl

  contains-tests :
      (start size : ℕ) {end : ℕ}
      → checked_add start size ≡ some end
      → (leb start address && ltb address end)
        ≡ contains (record { start = start; end = end }) address
  contains-tests start size h = ground arith

  also :
      (seen collect a b : Bool)
      → ((seen || (collect && a)) || (collect && b)) ≡ (seen || (collect && (a || b)))
  also true collect a b = refl
  also false false a b = refl
  also false true a b = refl

  ranges-step :
      (start size : ℕ) {end : ℕ}
      → checked_add start size ≡ some end
      → (collect seen : Bool) (first : Option ℕ) (rs : List AddressRange)
      → ◌≡◌ {A = Bool × Option ℕ}
          (
            (seen || (collect && (leb start address && ltb address end)))
                || (collect && covers address rs),
            first_after (some (first_of first start)) rs,
          )
          (
            seen || (collect && covers address (record { start = start; end = end } ∷ rs)),
            some (first_of first start),
          )
  ranges-step start size {end = end} h collect seen first rs =
      let tests : Bool = leb start address && ltb address end in
      ap (λ t. (t || (collect && covers address rs), first_after (some (first_of first start)) rs))
        (ap (λ t. seen || (collect && t)) (contains-tests start size h))
      ∙ ap (λ t. (t, first_after (some (first_of first start)) rs))
          (also seen collect (contains (record { start = start; end = end }) address)
            (covers address rs))
      ∙ ap
          (λ t. (seen || (collect && covers address (record { start = start; end = end } ∷ rs)), t))
          (first_after-again first start rs)

  pub Simulates-ranges :
      (rounds base : ℕ) (previous : Option AddressRange) (collect seen : Bool) (first : Option ℕ)
      → Simulates
          (ranges_loop rounds previous base)
          (scan_ranges base address collect rounds seen first)
          (λ ranges. (seen || (collect && covers address ranges), first_after first ranges))
  unfolding ranges_loop scan_ranges
  Simulates-ranges zero base previous collect seen first =
      Simulates-pure [] (ap (λ t. (t, first)) (sym (nothing_more seen collect)))
  Simulates-ranges (suc rounds) base previous collect seen first =
      Simulates-both read_uleb (λ offset. Simulates-ok_or (checked_add base offset) _ _ (λ start h.
        Simulates-both read_uleb (λ size. Simulates-ok_or (checked_add start size) _ _ (λ end k.
          Simulates-left (guard (follows previous start) _) (λ _ _. Simulates-map _ (
            Simulates-cast (ranges-step start size k collect seen first) (
              Simulates-ranges rounds base (some (record { start = start; end = end })) collect
                (seen || (collect && (leb start address && ltb address end)))
                (some (first_of first start)))))))))

-- A count that is not zero leaves a range.
pub Always-ranges :
    (rounds base : ℕ) (previous : Option AddressRange)
    → Always (ranges_loop (suc rounds) previous base) (λ ranges. is_nil ranges ≡ false)
unfolding ranges_loop
Always-ranges rounds base previous = Always-bind read_uleb (λ offset.
    Always-bind (lift (ok_or (checked_add base offset) _)) (λ start. Always-bind read_uleb (λ size.
      Always-bind (lift (ok_or (checked_add start size) _)) (λ end.
        Always-bind (lift (guard (follows previous start) _))
          (λ _. Always-bind (ranges_loop rounds _ base) (λ ranges. Always-pure _ refl))))))
