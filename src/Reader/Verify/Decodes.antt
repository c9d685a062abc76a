-- ===== src/Reader/Verify/Decodes.antt =====
-- What the verification of a file promises of its functions.
use mathlib.Core.Path.{subst}
use gsym_rs.Prelude.{
  ℕ, zero, suc, ◌+◌, ◌≤◌, ◌<◌, ◌≡◌, ◌≢◌, sym, ap, ◌∙◌, Bool, true, false, not, Bool-cases, inl, inr,
  List, replicate, get_elem?, set, Option, none, some, ltb, ◌==◌, arith,
}
use gsym_rs.Error.{Result, ok, and_then-ok, ok_injective, guard-ok}
use gsym_rs.Model.Function.{Function}
use gsym_rs.Format.Function.{EncodedFunction}
use gsym_rs.Reader.Layout.{ParsedLayout}
use gsym_rs.Reader.Addresses.{address}
use gsym_rs.Reader.Functions.{FunctionRef, file_at, function}
use gsym_rs.Reader.Owned.{validate, decode}
use gsym_rs.Reader.Owned.Verified.{check-ok, IsFile, IsTruthful}
use gsym_rs.Reader.Owned.Validated.{validate-decode}
use gsym_rs.Reader.Verify.{
  VerifyReport, descends, is_nul, decode_encoded, check_file_zero, verify_entry, verify_loop,
  no_files, verify_with, verify,
}

module _ (bytes : List ℕ) (l : ParsedLayout) where
  -- The record of entry `i` is decoded into a function.
  abbrev pub IsDecoded : ℕ → Type 0
  IsDecoded i =
      (reference : FunctionRef) × (encoded : EncodedFunction) × (f : Function) × (function bytes l i
        ≡ ok reference)
      × (decode_encoded bytes l reference ≡ ok encoded)
      × (decode bytes l encoded ≡ ok f)

  -- Not below the start before it.
  abbrev IsAfter : Option ℕ → ℕ → Type 0
  IsAfter none start = Unit
  IsAfter (some previous) start = previous ≤ start

  descends-IsAfter :
      (previous : Option ℕ) (start : ℕ)
      → not (descends previous start) ≡ true
      → IsAfter previous start
  descends-IsAfter none start h = tt
  descends-IsAfter (some previous) start h = ground arith

  abbrev IsStart : ℕ → ℕ → Type 0
  IsStart i start = address bytes l i ≡ ok start

  -- What the loop finds of the entries from `index` on.
  record IsVerified (left index : ℕ) (previous : Option ℕ) : Type 0 where
    pub decoded : (i : ℕ) → index ≤ i → i < left + index → IsDecoded i
    pub first : (start : ℕ) → 0 < left → IsStart index start → IsAfter previous start
    pub ascending :
        (i x y : ℕ) → index ≤ i → suc i < left + index → IsStart i x → IsStart (suc i) y → x ≤ y

  one_more :
      (left index : ℕ) (previous : Option ℕ) (start : ℕ)
      → IsStart index start
      → IsDecoded index
      → IsAfter previous start
      → IsVerified left (suc index) (some start)
      → IsVerified (suc left) index previous
  one_more left index previous start p here order more = record {
    decoded = λ i q r. elim (Bool-cases (index == i)) [
      | inl e ↦ subst IsDecoded (ground arith) here
      | inr e ↦ more.decoded i (ground arith) (omega arith)
    ];
    first = λ other q r. subst (IsAfter previous) (ok_injective (sym p ∙ r)) order;
    ascending = λ i x y q r s t. elim (Bool-cases (index == i)) [
      | inl e ↦ after i x y (ground arith) (omega arith) s t
      | inr e ↦ more.ascending i x y (ground arith) (omega arith) s t
    ];
  }
    where
      after : (i x y : ℕ) → index ≡ i → 0 < left → IsStart i x → IsStart (suc i) y → x ≤ y
      after i x y e h s t =
          let same : start ≡ x = ok_injective (sym p ∙ (ap (λ (k : ℕ). address bytes l k) e ∙ s)) in
          let le : start ≤ y = more.first y h (ap (λ (k : ℕ). address bytes l (suc k)) e ∙ t) in
          omega arith

  module _ {S : Type 0} (visitor : EncodedFunction → S → Result S) where
    verify_entry-IsDecoded :
        (index start : ℕ) (previous : Option ℕ) (verified : List Bool) (state : S)
        {after : List Bool × S}
        → IsTruthful bytes l verified
        → verify_entry bytes l visitor index start previous verified state ≡ ok after
        → IsTruthful bytes l (after.0) × IsDecoded index × IsAfter previous start
    unfolding verify_entry
    verify_entry-IsDecoded index start previous verified state sound h =
        let (order, h1) = guard-ok (not (descends previous start)) _ _ h in
        let (reference, p, h2) = and_then-ok (function bytes l index) _ h1 in
        let (encoded, q, h3) = and_then-ok (decode_encoded bytes l reference) _ h2 in
        let (verified', r, h4) = and_then-ok (validate bytes l encoded verified) _ h3 in
        let (state', p', h5) = and_then-ok (visitor encoded state) _ h4 in
        let (sound', f, run, run') = validate-decode bytes l encoded verified sound r in
        (
          subst (λ t. IsTruthful bytes l (t.0)) (ok_injective h5) sound',
          (reference, encoded, f, p, q, run),
          descends-IsAfter previous start order,
        )

    verify_loop-IsDecoded :
        (left index : ℕ) (previous : Option ℕ) (verified : List Bool) (state : S)
        {after : List Bool × S}
        → IsTruthful bytes l verified
        → verify_loop bytes l visitor left index previous verified state ≡ ok after
        → IsVerified left index previous
    unfolding verify_loop
    verify_loop-IsDecoded zero index previous verified state sound h = record {
      decoded = λ i p q. absurd (omega arith);
      first = λ start p. absurd (omega arith);
      ascending = λ i x y p q. absurd (omega arith);
    }
    verify_loop-IsDecoded (suc left) index previous verified state sound h =
        let (start, p, h1) = and_then-ok (address bytes l index) _ h in
        let (after', q, h2) =
          and_then-ok (verify_entry bytes l visitor index start previous verified state) _ h1 in
        let (sound', here, order) =
          verify_entry-IsDecoded index start previous verified state sound q in
        one_more left index previous start p here order
          (verify_loop-IsDecoded left (suc index) (some start) (after'.0) (after'.1) sound' h2)

  never : (n i : ℕ) → get_elem? (replicate n false) i ≢ some true
  never zero i h = cc
  never (suc n) zero h = cc
  never (suc n) (suc i) h = never n i h

  no_files-IsTruthful :
      (n : ℕ) → (0 < n → IsFile bytes l 0) → IsTruthful bytes l (set (replicate n false) 0 true)
  no_files-IsTruthful zero found i h = cc
  no_files-IsTruthful (suc n) found zero h = found (omega arith)
  no_files-IsTruthful (suc n) found (suc i) h = absurd (never n i h)

  check_file_zero-IsFile : check_file_zero bytes l ≡ ok tt → 0 < l.file_count → IsFile bytes l 0
  unfolding check_file_zero
  check_file_zero-IsFile h some_file =
      let there : ltb 0 l.file_count ≡ true = ground arith in
      let (names, p, q) = and_then-ok (file_at bytes l 0) _ (rw there at h) in (names, p)

  verify_with-IsVerified :
      {S : Type 0} (visitor : EncodedFunction → S → Result S) (state : S)
      {result : VerifyReport × S}
      → verify_with bytes l visitor state ≡ ok result
      → IsVerified l.address_count 0 none
  unfolding verify_with
  verify_with-IsVerified visitor state h =
      let (p, h1) = guard-ok (is_nul (get_elem? bytes l.string_table.start)) _ _ h in
      let (q, h2) = check-ok (check_file_zero bytes l) _ h1 in
      let (after, r, h3) =
        and_then-ok (verify_loop bytes l visitor l.address_count 0 none (no_files bytes l) state) _
          h2 in
      verify_loop-IsDecoded visitor l.address_count 0 none (no_files bytes l) state
        (no_files-IsTruthful l.file_count (check_file_zero-IsFile q)) r

-- Where `verify` accepts a file, whatever its bytes, every function of its address table can be read
-- and decoded into the model, and the addresses of the table never go down.
pub verify-IsDecoded :
    (bytes : List ℕ) (l : ParsedLayout) {report : VerifyReport}
    → verify bytes l ≡ ok report
    → ((i : ℕ) → i < l.address_count → IsDecoded bytes l i)
      × ((i x y : ℕ)
          → suc i < l.address_count
          → address bytes l i ≡ ok x
          → address bytes l (suc i) ≡ ok y
          → x ≤ y)
unfolding verify
verify-IsDecoded bytes l h =
    let (result, p, q) = and_then-ok (verify_with bytes l (λ _ state. ok state) tt) _ h in
    let verified = verify_with-IsVerified bytes l (λ _ state. ok state) tt p in
    (
      λ i k. verified.decoded i (omega arith) (omega arith),
      λ i x y k. verified.ascending i x y (omega arith) (omega arith),
    )
