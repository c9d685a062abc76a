-- ===== src/Reader/Addresses/Search.antt =====
-- The search finds the last function that starts at or below an address.
use gsym_rs.Prelude.{
  ℕ, zero, suc, ◌+◌, ◌-◌, ◌≤◌, ◌<◌, ◌≡◌, refl, Bool, true, false, Bool-cases, inl, inr, ltb, leb,
  leb→le, arith,
}
use gsym_rs.Error.{Result, ok}
use gsym_rs.Reader.Addresses.{halve, search_round, search_loop}

-- Where the tested entries go up, the search returns their number at or below the probe.
module _ (n probe : ℕ) (entry : ℕ → ℕ) (test : ℕ → Result Bool)
    (tests : (i : ℕ) → i < n → test i ≡ ok (leb (entry i) probe))
    (sorted : (i j : ℕ) → i ≤ j → j < n → entry i ≤ entry j) where
  abbrev pub IsBound : ℕ → Type 0
  IsBound low =
      (low ≤ n)
      × ((i : ℕ) → i < low → entry i ≤ probe)
      × ((i : ℕ) → low ≤ i → i < n → probe < entry i)

  pub search_loop-IsBound :
      (fuel low high : ℕ)
      → low ≤ high
      → high ≤ n
      → high - low ≤ fuel
      → ((i : ℕ) → i < low → entry i ≤ probe)
      → ((i : ℕ) → high ≤ i → i < n → probe < entry i)
      → (r : ℕ) × (search_loop fuel test low high ≡ ok r) × IsBound r
  unfolding search_loop search_round
  search_loop-IsBound zero low high le hi fuel below above =
      (low, refl, (omega arith, below, λ i p q. above i (omega arith) q))
  search_loop-IsBound (suc k) low high le hi fuel below above = elim (Bool-cases (ltb low high)) [
    | inr done ↦ (low, rw done refl, (omega arith, below, λ i p q. above i (ground arith) q))
    | inl more ↦
        let inside : middle < high = ground arith in
        elim (Bool-cases (leb (entry middle) probe)) [
          | inl small ↦
              let (r, run, bound) =
                search_loop-IsBound k (middle + 1) high (omega arith) hi (omega arith)
                  (λ i p. low_part i p small inside) above in
              (r, rw (more, tests middle (omega arith), small) run, bound)
          | inr big ↦
              let (r, run, bound) =
                search_loop-IsBound k low middle (omega arith) (omega arith) (omega arith) below
                  (λ i p q. high_part i p q big) in
              (r, rw (more, tests middle (omega arith), big) run, bound)
        ]
  ]
    where
      middle : ℕ
      middle = halve low high

      low_part :
          (i : ℕ)
          → i < middle + 1
          → leb (entry middle) probe ≡ true
          → middle < high
          → entry i ≤ probe
      low_part i p small inside =
          omega
            (arith, sorted i middle (omega arith) (omega arith), leb→le (entry middle) probe small)

      high_part : (i : ℕ) → middle ≤ i → i < n → leb (entry middle) probe ≡ false → probe < entry i
      high_part i p q big =
          let step = sorted middle i p q in
          let no : probe < entry middle = ground arith in omega (arith, step)
