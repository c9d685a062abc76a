-- ===== src/Reader/Functions/Matching.antt =====
-- The function that `matching_function` picks for an address.
use mathlib.Core.Path.{subst}
use gsym_rs.Prelude.{
  ℕ, zero, suc, ◌+◌, ◌-◌, ◌≤◌, ◌<◌, ◌^◌, ◌≡◌, ◌⊎◌, refl, ap, ◌∙◌, Bool, true, false, ◌||◌,
  Bool-cases, inl, inr, List, Option, none, some, leb, ◌==◌, arith,
}
use gsym_rs.Prelude.Words.{saturating_add, u64_max}
use gsym_rs.Error.{Result, ok, and_then-ok, ok_injective}
use gsym_rs.Model.Range.{is_empty, contains}
use gsym_rs.Reader.Layout.{ParsedLayout}
use gsym_rs.Reader.Addresses.Index.{IsAddressTable, IsLast, find_address_index-IsLast}
use gsym_rs.Reader.Functions.{
  RawFunction, raw_function_at, first_index, next_match, match_loop, match_from, matching_function,
}

-- A function at the address, or one that is empty.
abbrev pub accepts : ℕ → RawFunction → Bool
accepts query raw = is_empty raw.range || contains raw.range query

module _ (bytes : List ℕ) (l : ParsedLayout) (start : ℕ → ℕ) where
  -- Entry `i` has the last start at or below the address.
  pub record IsNearest (query i : ℕ) : Type 0 where
    pub within : i < l.address_count
    pub at_most : start i ≤ query
    pub nearest : (j : ℕ) → j < l.address_count → start j ≤ query → start j ≤ start i

  -- The record of entry `i` is read, and does not cover the address.
  abbrev pub IsPassed : (query i : ℕ) → Type 0
  IsPassed query i =
      (raw : RawFunction) × (raw_function_at bytes l i (start i) ≡ ok raw)
      × (accepts query raw ≡ false)

  -- The first of the entries with the nearest start whose function accepts the address.
  abbrev pub IsMatch : (query : ℕ) → Option RawFunction → Type 0
  IsMatch query none = (i : ℕ) → IsNearest query i → IsPassed query i
  IsMatch query (some raw) =
      (i : ℕ) × IsNearest query i
      × (raw_function_at bytes l i (start i) ≡ ok raw)
      × (accepts query raw ≡ true)
      × ((j : ℕ) → j < i → IsNearest query j → IsPassed query j)

  module _ (t : IsAddressTable bytes l start) where
    -- `first_index` goes back to the first entry with the same start.
    first_index-IsFirst :
        (first : ℕ) (index : ℕ)
        → index < l.address_count
        → start index ≡ first
        → (i : ℕ) × (first_index bytes l first index ≡ ok i)
          × (i ≤ index)
          × (start i ≡ first)
          × ((j : ℕ) → j < i → start j < first)
    unfolding first_index
    first_index-IsFirst first zero h e = (zero, refl, omega arith, e, λ j k. absurd (omega arith))
    first_index-IsFirst first (suc index) h e = elim (Bool-cases (start index == first)) [
      | inl p ↦
          let (i, run, le, same, below) =
            first_index-IsFirst first index (omega arith) (ground arith) in
          (i, rw (t.reads index (omega arith), p) run, omega arith, same, below)
      | inr p ↦ (
        suc index,
        rw (t.reads index (omega arith), p) refl,
        omega arith,
        e,
        λ j k. ground (
          arith,
          t.sorted j index (omega arith) (omega arith),
          t.sorted index (suc index) (omega arith) h,
        ),
      )
    ]

    -- What the loop from entry `index` finds among the entries with the start `first`.
    abbrev Found : (first query index : ℕ) → Option RawFunction → Type 0
    Found first query index none =
        (j : ℕ) → index ≤ j → j < l.address_count → start j ≡ first → IsPassed query j
    Found first query index (some raw) =
        (i : ℕ) × (index ≤ i)
        × (i < l.address_count)
        × (start i ≡ first)
        × (raw_function_at bytes l i (start i) ≡ ok raw)
        × (accepts query raw ≡ true)
        × ((j : ℕ) → index ≤ j → j < i → IsPassed query j)

    from_or_after : (i j : ℕ) → i ≤ j → (i ≡ j) ⊎ (suc i ≤ j)
    from_or_after i j h = elim (Bool-cases (i == j)) [
      | inl e ↦ inl (ground arith)
      | inr e ↦ inr (ground arith)
    ]

    Found-later :
        (first query index : ℕ) (r : Option RawFunction)
        → IsPassed query index
        → Found first query (suc index) r
        → Found first query index r
    Found-later first query index none passed later = λ j p q e. elim (from_or_after index j p) [
      | inl same ↦ subst (IsPassed query) same passed
      | inr after ↦ later j after q e
    ]
    Found-later first query index (some raw) passed (i, p, q, e, run, a, before) = (
      i,
      omega arith,
      q,
      e,
      run,
      a,
      λ j p' q'. elim (from_or_after index j p') [
        | inl same ↦ subst (IsPassed query) same passed
        | inr after ↦ before j after q'
      ],
    )

    from_first :
        {k : ℕ} (first i : ℕ)
        → ((j : ℕ) → j < first → start j < start k)
        → start i ≡ start k
        → first ≤ i
    from_first first i below same = elim (Bool-cases (leb first i)) [
      | inl le ↦ ground arith
      | inr gt ↦ absurd (omega (arith, below i (ground arith)))
    ]

    -- The entries with the nearest start are those with the start of the one found.
    module _ (query k : ℕ) (inside : k < l.address_count) (at_most : start k ≤ query)
        (above : (i : ℕ) → k < i → i < l.address_count → query < start i) where
      same-IsNearest : (i : ℕ) → i < l.address_count → start i ≡ start k → IsNearest query i
      same-IsNearest i h e = record {
        within = h;
        at_most = omega arith;
        nearest = λ j p q. elim (Bool-cases (leb j k)) [
          | inl le ↦ omega (arith, t.sorted j k (ground arith) inside)
          | inr gt ↦ absurd (omega (arith, above j (ground arith) p))
        ];
      }

      IsNearest-same : (i : ℕ) → IsNearest query i → start i ≡ start k
      IsNearest-same i near = elim (Bool-cases (leb i k)) [
        | inl le ↦ omega (arith, t.sorted i k (ground arith) inside, near.nearest k inside at_most)
        | inr gt ↦ absurd (omega (arith, above i (ground arith) near.within, near.at_most))
      ]

      Found-IsMatch :
          (first : ℕ) (r : Option RawFunction)
          → ((j : ℕ) → j < first → start j < start k)
          → Found (start k) query first r
          → IsMatch query r
      Found-IsMatch first none below found = λ i near.
          let same = IsNearest-same i near in
          found i (from_first first i below same) near.within same
      Found-IsMatch first (some raw) below (i, p, q, e, run, a, before) = (
        i,
        same-IsNearest i q e,
        run,
        a,
        λ j p' near. before j (from_first first j below (IsNearest-same j near)) p',
      )

    module _ (small : l.address_count ≤ u64_max) (first query : ℕ) where
      next_match-Found :
          (again : ℕ → Result (Option RawFunction)) (index : ℕ) {r : Option RawFunction}
          → index < l.address_count
          → start index ≡ first
          → IsPassed query index
          → (suc index < l.address_count
              → start (suc index) ≡ first
              → again (suc index) ≡ ok r
              → Found first query (suc index) r)
          → next_match bytes l again first (suc index) ≡ ok r
          → Found first query index r
      unfolding next_match
      next_match-Found again index {r = r} h e passed later run =
          Found-later first query index r passed
            (elim (Bool-cases (leb l.address_count (suc index))) [
              | inl end ↦
                  subst (Found first query (suc index)) (ok_injective (rw end at run))
                    (λ j p q k. absurd (ground arith))
              | inr more ↦
                  let inside : suc index < l.address_count = ground arith in
                  elim (Bool-cases (start (suc index) == first)) [
                    | inl same ↦
                        later inside (ground arith)
                          (rw (more, t.reads (suc index) inside, same) at run)
                    | inr other ↦
                        subst (Found first query (suc index))
                          (ok_injective (rw (more, t.reads (suc index) inside, other) at run))
                          (λ j p q k. absurd (
                            ground (
                              arith,
                              t.sorted index (suc index) (omega arith) inside,
                              t.sorted (suc index) j p q,
                            )))
                  ]
            ])

      match_loop-Found :
          (fuel index : ℕ) {r : Option RawFunction}
          → fuel + index ≡ l.address_count
          → index < l.address_count
          → start index ≡ first
          → match_loop bytes l fuel first query index ≡ ok r
          → Found first query index r
      unfolding match_loop next_match
      match_loop-Found zero index n h e run = absurd (omega arith)
      match_loop-Found (suc fuel) index {r = r} n h e run =
          let (raw, p, q) = and_then-ok (raw_function_at bytes l index first) _ run in
          let here : raw_function_at bytes l index (start index) ≡ ok raw =
            ap (λ (k : ℕ). raw_function_at bytes l index k) e ∙ p in
          let next : saturating_add index 1 ≡ suc index = omega arith in
          elim (Bool-cases (accepts query raw)) [
            | inl a ↦
                subst (Found first query index) (ok_injective (rw a at q))
                  (index, omega arith, h, e, here, a, λ j p' q'. absurd (omega arith))
            | inr a ↦
                next_match-Found (match_loop bytes l fuel first query) index h e (raw, here, a)
                  (λ inside same more.
                    match_loop-Found fuel (suc index) (omega arith) inside same more)
                  (rw (a, next) at q)
          ]

-- On a sorted address table inside the file, with a `u32` count: where `matching_function` succeeds,
-- it returns the first of the functions with the last start at or below the address that contains the
-- address or is empty. Where it returns nothing, none of them is such a function.
pub matching_function-IsMatch :
    (bytes : List ℕ) (l : ParsedLayout) (start : ℕ → ℕ) (query : ℕ) {r : Option RawFunction}
    → IsAddressTable bytes l start
    → l.address_count < 2 ^ 32
    → matching_function bytes l query ≡ ok r
    → IsMatch bytes l start query r
unfolding matching_function match_from
matching_function-IsMatch bytes l start query {r = r} t small h =
    let (found, run, last) = find_address_index-IsLast bytes l start query t in
    from found last (rw run at h)
  where
    from :
        (found : Option ℕ)
        → IsLast l.address_count start query found
        → match_from bytes l query found ≡ ok r
        → IsMatch bytes l start query r
    from none last h =
        subst (IsMatch bytes l start query) (ok_injective h)
          (λ i near. absurd (omega (arith, last i near.within, near.at_most)))
    from (some k) (inside, at_most, above) h =
        let (i, run, le, same, below) =
          first_index-IsFirst bytes l start t (start k) k inside refl in
        Found-IsMatch bytes l start t query k inside at_most above i r below (
          match_loop-Found bytes l start t (omega arith) (start k) query (l.address_count - i) i
            (omega arith) (omega arith) same (rw (t.reads k inside, run) at h))
