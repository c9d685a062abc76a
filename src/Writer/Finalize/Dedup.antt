-- ===== src/Writer/Finalize/Dedup.antt =====
-- What both ways to treat functions of one range keep: the order of ranges, and every address.
use mathlib.Core.Path.{subst}
use gsym_rs.Prelude.{
  ℕ, ◌≤◌, ◌<◌, ◌≡◌, ◌≢◌, ◌⊎◌, inl, inr, refl, sym, ap, ◌∙◌, Bool, true, false, ◌&&◌, ◌||◌, List, [],
  ◌∷◌, All, All-map, Pairwise, Option, none, some, Option-cases, Bool-cases, any, if◌then◌else◌,
  arith,
}
use gsym_rs.Model.Range.{AddressRange, is_empty, contains}
use gsym_rs.Model.Function.{Function, function, range_of}
use gsym_rs.Validation.{is_same_range}
use gsym_rs.Writer.Finalize.{
  dedup_after, dedup_by, merge_into, merge_equal, merge_functions, take_name, duplicate,
  deduplicate_functions,
}

-- The order of ranges: by start, then by end.
abbrev pub RangeLe : AddressRange → AddressRange → Type 0
RangeLe r s = (r.start < s.start) ⊎ ((r.start ≡ s.start) × (r.end ≤ s.end))

abbrev pub RangeLt : AddressRange → AddressRange → Type 0
RangeLt r s = (r.start < s.start) ⊎ ((r.start ≡ s.start) × (r.end < s.end))

abbrev pub Le : Function → Function → Type 0
Le f g = RangeLe (range_of f) (range_of g)

abbrev pub Lt : Function → Function → Type 0
Lt f g = RangeLt (range_of f) (range_of g)

abbrev pub IsSorted : List Function → Type 0
IsSorted = Pairwise Le

abbrev pub IsStrict : List Function → Type 0
IsStrict = Pairwise Lt

abbrev pub covers : ℕ → Function → Bool
covers address f = contains (range_of f) address

lt-le : (r s t : AddressRange) → RangeLt r s → RangeLe s t → RangeLt r t
lt-le r s t h k = ground arith

le_refl : (r s : AddressRange) → s ≡ r → RangeLe r s
le_refl r s h = ground arith

le_trans : (r s t : AddressRange) → RangeLe r s → RangeLe s t → RangeLe r t
le_trans r s t h k = ground arith

le-ne : (r s : AddressRange) → RangeLe r s → is_same_range r s ≡ false → RangeLt r s
le-ne r s h k = ground arith

-- What a closure of `dedup_by` has to keep: the element that stays has the range of the one at hand,
-- which covers what the dropped one covered; elements that both stay differ in range.
record IsStep (same : Function → Function → Option Function) : Type 0 where
  range : (f previous kept : Function) → same f previous ≡ some kept → range_of kept ≡ range_of f
  cover :
      (address : ℕ) (f previous kept : Function)
      → same f previous ≡ some kept
      → covers address previous ≡ true
      → covers address f ≡ true
  differ :
      (f previous : Function)
      → same f previous ≡ none
      → is_same_range (range_of previous) (range_of f) ≡ false

module _ (same : Function → Function → Option Function) (step : IsStep same) where
  after-none :
      (previous f : Function) (rest : List Function)
      → same f previous ≡ none
      → dedup_after same previous (f ∷ rest) ≡ previous ∷ dedup_after same f rest
  unfolding dedup_after
  after-none previous f rest e = rw (e, dedup_after) refl

  after-some :
      (previous f kept : Function) (rest : List Function)
      → same f previous ≡ some kept
      → dedup_after same previous (f ∷ rest) ≡ dedup_after same kept rest
  unfolding dedup_after
  after-some previous f kept rest e = rw (e, dedup_after) refl

  after-above :
      (bound : AddressRange) (previous : Function) (rest : List Function)
      → RangeLe bound (range_of previous)
      → All (λ f. RangeLe bound (range_of f)) rest
      → All (λ f. RangeLe bound (range_of f)) (dedup_after same previous rest)
  unfolding dedup_after
  after-above bound previous [] h hs = (h, tt)
  after-above bound previous (f ∷ rest) h (k, ks) = elim (Option-cases (same f previous)) [
    | inl e ↦ rw (after-none previous f rest e) (h, after-above bound f rest k ks)
    | inr (kept, e) ↦ rw (after-some previous f kept rest e) (
        after-above bound kept rest
          (subst (λ (r : AddressRange). RangeLe bound r) (sym (step.range f previous kept e)) k) ks)
  ]

  after-IsStrict :
      (previous : Function) (rest : List Function)
      → IsSorted (previous ∷ rest)
      → IsStrict (dedup_after same previous rest)
  unfolding dedup_after
  after-IsStrict previous [] h = (tt, tt)
  after-IsStrict previous (f ∷ rest) ((p, ps), (q, qs)) = elim (Option-cases (same f previous)) [
    | inl e ↦ rw (after-none previous f rest e) (
      All-map (λ g. Lt previous g)
          (λ g k.
            lt-le (range_of previous) (range_of f) (range_of g)
              (le-ne (range_of previous) (range_of f) p (step.differ f previous e)) k)
          (dedup_after same f rest) (after-above (range_of f) f rest (le_refl _ _ refl) q),
      after-IsStrict f rest (q, qs),
    )
    | inr (kept, e) ↦ rw (after-some previous f kept rest e) (
        after-IsStrict kept rest (
          subst (λ (r : AddressRange). All (λ g. RangeLe r (range_of g)) rest)
              (sym (step.range f previous kept e)) q,
          qs,
        ))
  ]

  after-covers :
      (address : ℕ) (previous : Function) (rest : List Function)
      → any (covers address) (dedup_after same previous rest)
        ≡ any (covers address) (previous ∷ rest)
  unfolding dedup_after
  after-covers address previous [] = refl
  after-covers address previous (f ∷ rest) = elim (Option-cases (same f previous)) [
    | inl e ↦
        rw (after-none previous f rest e)
          (ap (λ (b : Bool). covers address previous || b) (after-covers address f rest))
    | inr (kept, e) ↦ rw (after-some previous f kept rest e) (
        after-covers address kept rest
        ∙ ap (λ (r : AddressRange). contains r address || any (covers address) rest)
            (step.range f previous kept e)
        ∙ or-absorb _ _ _ (step.cover address f previous kept e))
  ]
    where
      or-absorb : (a b c : Bool) → (a ≡ true → b ≡ true) → (b || c) ≡ (a || (b || c))
      or-absorb true b c h = rw (h refl) refl
      or-absorb false b c h = refl

  dedup-IsStrict :
      (functions : List Function) → IsSorted functions → IsStrict (dedup_by same functions)
  unfolding dedup_by
  dedup-IsStrict [] h = tt
  dedup-IsStrict (f ∷ rest) h = after-IsStrict f rest h

  dedup-covers :
      (address : ℕ) (functions : List Function)
      → any (covers address) (dedup_by same functions) ≡ any (covers address) functions
  unfolding dedup_by
  dedup-covers address [] = refl
  dedup-covers address (f ∷ rest) = after-covers address f rest

same_range : (r s : AddressRange) → is_same_range r s ≡ true → r ≡ s
same_range r s h = ground arith

take_name-range : (previous f : Function) → range_of (take_name previous f) ≡ range_of f
unfolding take_name
take_name-range previous (function range name lines inline merged sites) = ground arith

merge_into-range : (parent f : Function) → range_of (merge_into parent f) ≡ range_of parent
merge_into-range (function _ _ _ _ _ _) f = refl

some_injective {ℓ} : {A : Type ℓ} {a b : A} → some a ≡ some b → a ≡ b
some_injective h = cc

merge_equal-none :
    (f previous : Function)
    → merge_equal f previous ≡ none
    → is_same_range (range_of previous) (range_of f) ≡ false
unfolding merge_equal
merge_equal-none f previous h = elim (Bool-cases (is_same_range (range_of previous) (range_of f))) [
  | inr e ↦ e
  | inl e ↦ cc (not_none _ _ _ (rw (e, merge_equal) at h))
]
  where
    not_none : (b : Bool) (p q : Function) → (if b then some p else some q) ≡ none → true ≡ false
    not_none true p q h = cc
    not_none false p q h = cc

merge_equal-some :
    (f previous kept : Function)
    → merge_equal f previous ≡ some kept
    → (range_of previous ≡ range_of f) × (range_of kept ≡ range_of f)
unfolding merge_equal
merge_equal-some f previous kept h =
    elim (Bool-cases (is_same_range (range_of previous) (range_of f))) [
      | inr e ↦ cc (rw (e, merge_equal) at h)
      | inl e ↦
          let same = same_range (range_of previous) (range_of f) e in
          (same, either _ _ _ (rw (e, merge_equal) at h) same (merge_into-range previous f ∙ same))
    ]
  where
    either :
        (b : Bool) (p q : Function)
        → (if b then some p else some q) ≡ some kept
        → range_of p ≡ range_of f
        → range_of q ≡ range_of f
        → range_of kept ≡ range_of f
    either true p q h x y = subst (λ (g : Function). range_of g ≡ range_of f) (some_injective h) x
    either false p q h x y = subst (λ (g : Function). range_of g ≡ range_of f) (some_injective h) y

merge_equal-IsStep : IsStep merge_equal
unfolding merge_equal
merge_equal-IsStep = record {
  range = λ f previous kept h. (merge_equal-some f previous kept h).1;
  cover = λ address f previous kept h c.
      subst (λ (r : AddressRange). contains r address ≡ true)
        ((merge_equal-some f previous kept h).0) c;
  differ = λ f previous h. merge_equal-none f previous h;
}

-- What `duplicate` keeps where the ranges are the same.
same_kept :
    (a b c : Bool) (f previous renamed kept : Function)
    → range_of previous ≡ range_of f
    → range_of renamed ≡ range_of f
    → (if a then if b then some previous else some f else if c then some renamed else some previous)
      ≡ some kept
    → range_of kept ≡ range_of f
same_kept true true c f previous renamed kept p r h = ap range_of (sym (some_injective h)) ∙ p
same_kept true false c f previous renamed kept p r h = ap range_of (sym (some_injective h))
same_kept false b true f previous renamed kept p r h = ap range_of (sym (some_injective h)) ∙ r
same_kept false b false f previous renamed kept p r h = ap range_of (sym (some_injective h)) ∙ p

same_kept-none :
    (a b c : Bool) (f previous renamed : Function)
    → (if a then if b then some previous else some f else if c then some renamed else some previous)
      ≢ none
same_kept-none true true c f previous renamed h = cc
same_kept-none true false c f previous renamed h = cc
same_kept-none false b true f previous renamed h = cc
same_kept-none false b false f previous renamed h = cc

-- What it keeps where they differ.
other_kept :
    (b : Bool) (f kept : Function)
    → (if b then some f else none) ≡ some kept
    → (b ≡ true) × (f ≡ kept)
other_kept true f kept h = (refl, some_injective h)
other_kept false f kept h = cc

empty-covers :
    (r : AddressRange) (address : ℕ) (b : Bool)
    → (is_empty r && b) ≡ true
    → contains r address ≢ true
empty-covers r address b h c = ground arith

duplicate-IsStep : IsStep duplicate
unfolding duplicate
duplicate-IsStep = record {
  range = λ f previous kept h. elim (Bool-cases (is_same_range (range_of previous) (range_of f))) [
    | inl e ↦
        let same = same_range (range_of previous) (range_of f) e in
        same_kept _ _ _ f previous _ kept same (take_name-range previous f) (rw (e, duplicate) at h)
    | inr e ↦ ap range_of (sym (other_kept _ f kept (rw (e, duplicate) at h)).1)
  ];
  cover = λ address f previous kept h c.
      elim (Bool-cases (is_same_range (range_of previous) (range_of f))) [
        | inl e ↦
            subst (λ (r : AddressRange). contains r address ≡ true)
              (same_range (range_of previous) (range_of f) e) c
        | inr e ↦ absurd (
            empty-covers (range_of previous) address _
              (other_kept _ f kept (rw (e, duplicate) at h)).0 c)
      ];
  differ = λ f previous h. elim (Bool-cases (is_same_range (range_of previous) (range_of f))) [
    | inr e ↦ e
    | inl e ↦ absurd (same_kept-none _ _ _ f previous _ (rw (e, duplicate) at h))
  ];
}

-- On functions in the order of their ranges, deduplication leaves functions whose ranges strictly
-- ascend, and an address is covered by one of them exactly if one of the functions covered it.
pub deduplicate_functions-IsStrict :
    (functions : List Function) (address : ℕ)
    → IsSorted functions
    → IsStrict (deduplicate_functions functions)
      × (any (covers address) (deduplicate_functions functions) ≡ any (covers address) functions)
unfolding deduplicate_functions
deduplicate_functions-IsStrict functions address sorted = (
  dedup-IsStrict duplicate duplicate-IsStep functions sorted,
  dedup-covers duplicate duplicate-IsStep address functions,
)

-- On functions in the order of their ranges, merging leaves functions whose ranges strictly ascend,
-- and every address that a function covered is covered by one that is left.
pub merge_functions-IsStrict :
    (functions : List Function) (address : ℕ)
    → IsSorted functions
    → IsStrict (merge_functions functions)
      × (any (covers address) (merge_functions functions) ≡ any (covers address) functions)
unfolding merge_functions
merge_functions-IsStrict functions address sorted = (
  dedup-IsStrict merge_equal merge_equal-IsStep functions sorted,
  dedup-covers merge_equal merge_equal-IsStep address functions,
)
