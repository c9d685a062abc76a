-- ===== src/Writer/Finalize/Repair.antt =====
-- A repaired function passes the checks of the builder again.
use gsym_rs.Prelude.{
  ℕ, ◌-◌, ◌+◌, ◌<◌, ◌^◌, ◌≡◌, refl, sym, max, min, Bool, true, false, not, ◌&&◌, ◌||◌, List, [],
  ◌∷◌, All, Option, none, some, ltb, leb, ◌==◌, any, is_nil, Bool-cases, inl, inr, arith,
}
use mathlib.Core.Path.{subst}
use gsym_rs.Prelude.Words.{IsU64, u32_max, u64_max, saturating_add}
use gsym_rs.Error.{Result, ok, guard-eq, check-eq, guard-elim, check-elim, bind-elim, ◌>>=◌}
use gsym_rs.Model.{LineEntry}
use gsym_rs.Model.Range.{AddressRange, size, is_valid, is_empty, contains, contains_range}
use gsym_rs.Model.Function.{
  InlineNode, inline_node, CallSite, Function, function, Functions, no_functions, with_function,
  range_of,
}
use gsym_rs.Builder.{BuilderOptions}
use gsym_rs.Format.Function.{check_inline_depth, check_merged_depth}
use gsym_rs.Validation.{
  validate_lines, validate_ranges, is_sorted_after, validate_inline, validate_some_inline,
  matches_parent, is_same_range, validate_function_tree, validate_merged, validate_for_builder,
}
use gsym_rs.Writer.Finalize.{
  repaired_range, contains_all, repair_keeps_records, repair_keeps_merged, repair_merged_ranges,
  repair_merged_list, repair_last, repair_end, repair_final_range, end_of, find_range,
}

any-false {ℓ} :
    {A : Type ℓ} (test : A → Bool) (x : A) (xs : List A)
    → any test (x ∷ xs) ≡ false
    → (test x ≡ false) × (any test xs ≡ false)
any-false test x xs h = ground arith

row-inside :
    (repaired : AddressRange) (address : ℕ)
    → not (contains repaired address) ≡ false
    → not (ltb address repaired.start || (not (is_empty repaired) && leb repaired.end address))
      ≡ true
row-inside repaired address h = ground arith

range-inside :
    (repaired r : AddressRange) (b : Bool)
    → not (contains_range repaired r) ≡ false
    → not (not (is_valid r) || is_empty r || b) ≡ true
    → not (not (is_valid r) || is_empty r || not (contains_range repaired r || false)) ≡ true
range-inside repaired r b h k = ground arith

site-inside :
    (repaired : AddressRange) (offset : ℕ)
    → not (ltb offset (size repaired)) ≡ false
    → (not (size repaired == 0) && leb (size repaired) offset) ≡ false
site-inside repaired offset h = ground arith

not-true : (b : Bool) → not b ≡ true → b ≡ false
not-true b h = ground arith

not-false : (b : Bool) → b ≡ false → not b ≡ true
not-false b h = ground arith

two : (a b : Bool) → (a && b) ≡ true → (a ≡ true) × (b ≡ true)
two a b h = ground arith

four :
    (a b c d : Bool)
    → (not a && (not b && (c && d))) ≡ true
    → (a ≡ false) × (b ≡ false) × (c ≡ true) × (d ≡ true)
four a b c d h = ground arith

same_self : (r : AddressRange) → is_same_range r r ≡ true
same_self r = ground arith

bind-eq {ℓ} :
    {A B : Type ℓ} (m : Result A) (f : A → Result B) (a : A) {b : B}
    → m ≡ ok a
    → f a ≡ ok b
    → (m >>= f) ≡ ok b
bind-eq m f a h k = rw h k

module _ (range repaired : AddressRange) where
  lines-kept :
      (lines : List LineEntry) (before : ℕ) {m : ℕ}
      → any (λ row. not (contains repaired row.address)) lines ≡ false
      → validate_lines range lines before ≡ ok m
      → validate_lines repaired lines before ≡ ok m
  unfolding validate_lines
  lines-kept [] before kept h = h
  lines-kept (row ∷ lines) before kept h =
      let (here, others) = any-false (λ row. not (contains repaired row.address)) row lines kept in
      guard-elim
        (not (ltb row.address range.start || (not (is_empty range) && leb range.end row.address))) _
        _ h
        λ inside h.
          guard-eq
            (not (
              ltb row.address repaired.start
              || (not (is_empty repaired) && leb repaired.end row.address)))
            _ _ (row-inside repaired row.address here)
            (lines-kept lines (max before row.file) others h)

  sites-kept :
      (sites : List CallSite)
      → any (λ site. not (ltb site.return_offset (size repaired))) sites ≡ false
      → any (λ site. not (size repaired == 0) && leb (size repaired) site.return_offset) sites
        ≡ false
  sites-kept [] kept = refl
  sites-kept (site ∷ sites) kept =
      let (here, others) =
        any-false (λ site. not (ltb site.return_offset (size repaired))) site sites kept in
      rw (site-inside repaired site.return_offset here) (sites-kept sites others)

  ranges-kept :
      (ranges : List AddressRange) (previous : Option ℕ)
      → any (λ r. not (contains_range repaired r)) ranges ≡ false
      → validate_ranges (range ∷ []) previous ranges ≡ ok tt
      → validate_ranges (repaired ∷ []) previous ranges ≡ ok tt
  unfolding validate_ranges
  ranges-kept [] previous kept h = refl
  ranges-kept (r ∷ ranges) previous kept h =
      let (here, others) = any-false (λ r. not (contains_range repaired r)) r ranges kept in
      guard-elim
        (not (not (is_valid r) || is_empty r || not (any (λ p. contains_range p r) (range ∷ [])))) _
        _ h
        λ inside h. guard-elim (is_sorted_after previous r.start) _ _ h λ sorted h.
          guard-eq
            (not (
              not (is_valid r)
              || is_empty r
              || not (any (λ p. contains_range p r) (repaired ∷ []))))
            _ _ (range-inside repaired r _ here inside)
            (guard-eq (is_sorted_after previous r.start) _ _ sorted
              (ranges-kept ranges (some r.end) others h))

  node-kept :
      (node : InlineNode) {m : ℕ}
      → contains_all repaired (some node) ≡ true
      → validate_inline node (range ∷ []) 0 ≡ ok m
      → validate_inline node (repaired ∷ []) 0 ≡ ok m
  unfolding validate_inline
  node-kept (inline_node ranges name call_file call_line nodes) kept h =
      check-elim (check_inline_depth 0) _ h λ deep h.
        guard-elim (not (is_nil ranges)) _ _ h λ full h.
          check-elim (validate_ranges (range ∷ []) none ranges) _ h λ sorted h.
            check-eq (check_inline_depth 0) _ deep (
              guard-eq (not (is_nil ranges)) _ _ full (
                check-eq (validate_ranges (repaired ∷ []) none ranges) _
                  (ranges-kept ranges none (not-true _ kept) sorted) h))

  inline-kept :
      (inline : Option InlineNode) (before : ℕ) {m : ℕ}
      → contains_all repaired inline ≡ true
      → validate_some_inline inline range before ≡ ok m
      → validate_some_inline inline repaired before ≡ ok m
  inline-kept none before kept h = h
  inline-kept (some node) before kept h =
      bind-elim (validate_inline node (range ∷ []) 0) _ h
        λ file valid h. rw (node-kept node kept valid) h

-- A range of a function that may be written.
abbrev IsSized : AddressRange → Type 0
IsSized range = (is_valid range ≡ true) × (not (ltb u32_max (size range)) ≡ true)

mutual
  unfolding validate_function_tree repair_keeps_records repair_merged_ranges

  tree-kept :
      (f : Function) (repaired : AddressRange) (parent parent' : Option AddressRange) (depth : ℕ)
      {m : ℕ}
      → IsSized repaired
      → matches_parent parent' repaired ≡ true
      → repair_keeps_records f repaired ≡ true
      → validate_function_tree f parent depth ≡ ok m
      → validate_function_tree (repair_merged_ranges f repaired) parent' depth ≡ ok m
  tree-kept (function range name lines inline merged sites) repaired parent parent' depth sized
        same' kept h =
      let (kl, ks, ki, km) = four _ _ _ _ kept in
      check-elim (check_merged_depth depth) _ h λ deep h.
        guard-elim (not (is_nil name)) _ _ h λ named h. guard-elim (is_valid range) _ _ h λ valid h.
          guard-elim (not (ltb u32_max (size range))) _ _ h λ small h.
            guard-elim (matches_parent parent range) _ _ h λ same h.
              bind-elim (validate_lines range lines 0) _ h λ m1 h1 h.
                bind-elim (validate_some_inline inline range m1) _ h λ m2 h2 h.
                  guard-elim
                    (not (
                      any (λ site. not (size range == 0) && leb (size range) site.return_offset)
                        sites))
                    _ _ h
                    λ inside h. check-eq (check_merged_depth depth) _ deep (
                      guard-eq (not (is_nil name)) _ _ named (
                        guard-eq (is_valid repaired) _ _ sized.0 (
                          guard-eq (not (ltb u32_max (size repaired))) _ _ sized.1 (
                            guard-eq (matches_parent parent' repaired) _ _ same' (
                              bind-eq (validate_lines repaired lines 0) _ m1
                                (lines-kept range repaired lines 0 kl h1)
                                (bind-eq (validate_some_inline inline repaired m1) _ m2
                                  (inline-kept range repaired inline m1 ki h2)
                                  (guard-eq
                                    (not (
                                      any
                                        (λ site.
                                          not (size repaired == 0)
                                          && leb (size repaired) site.return_offset)
                                        sites))
                                    _ _ (not-false _ (sites-kept range repaired sites ks))
                                    (merged-kept merged range repaired (saturating_add depth 1) m2
                                      sized km h))))))))

  merged-kept :
      (functions : Functions) (range repaired : AddressRange) (depth before : ℕ) {m : ℕ}
      → IsSized repaired
      → repair_keeps_merged functions repaired ≡ true
      → validate_merged functions range depth before ≡ ok m
      → validate_merged (repair_merged_list functions repaired) repaired depth before ≡ ok m
  merged-kept no_functions range repaired depth before sized kept h = h
  merged-kept (with_function f functions) range repaired depth before sized kept h =
      let (here, others) = two _ _ kept in
      bind-elim (validate_function_tree f (some range) depth) _ h λ file valid h.
        bind-eq (validate_function_tree (repair_merged_ranges f repaired) (some repaired) depth) _
          file
          (tree-kept f repaired (some range) (some repaired) depth sized (same_self repaired) here
            valid)
          (merged-kept functions range repaired depth (max before file) sized others h)

repaired_range-IsSized :
    (ranges : List AddressRange) (start : ℕ) → IsU64 start → IsSized (repaired_range ranges start)
unfolding repaired_range
repaired_range-IsSized ranges start h =
    sized start (end_of (find_range ranges start) start - start) h
  where
    sized :
        (s n : ℕ)
        → s < 2 ^ 64
        → (leb s (min (s + min n u32_max) u64_max) ≡ true)
          × (not (ltb u32_max (min (s + min n u32_max) u64_max - s)) ≡ true)
    sized s n h = ground arith

-- A function that the builder takes.
abbrev pub IsAccepted : Function → Type 0
IsAccepted f = (m : ℕ) × (validate_for_builder f ≡ ok m)

abbrev pub HasStart : Function → Type 0
HasStart f = IsU64 (range_of f).start

repair_last-IsAccepted :
    (ranges : List AddressRange) (f : Function)
    → HasStart f
    → IsAccepted f
    → IsAccepted (repair_last ranges f)
unfolding repair_last validate_for_builder
repair_last-IsAccepted ranges f word (m, valid) =
    let repaired = repaired_range ranges (range_of f).start in
    elim (Bool-cases (is_empty (range_of f) && repair_keeps_records f repaired)) [
      | inr no_repair ↦ subst IsAccepted (sym (rw no_repair refl)) (m, valid)
      | inl repair ↦
          let kept = (two _ _ repair).1 in
          subst IsAccepted (sym (rw repair refl)) (
            m,
            tree-kept f repaired none none 0 (repaired_range-IsSized ranges _ word) refl kept valid,
          )
    ]

repair_end-IsAccepted :
    (ranges : List AddressRange) (f : Function) (functions : List Function)
    → All HasStart (f ∷ functions)
    → All IsAccepted (f ∷ functions)
    → All IsAccepted (repair_end ranges f functions)
unfolding repair_end
repair_end-IsAccepted ranges f [] (w, _) (h, _) = (repair_last-IsAccepted ranges f w h, tt)
repair_end-IsAccepted ranges f (next ∷ functions) (w, ws) (h, hs) =
    (h, repair_end-IsAccepted ranges next functions ws hs)

-- If the builder takes all functions, it takes them after the repair of the last range too: the rows,
-- call sites, inline trees and merged functions still lie inside.
pub repair_final_range-IsAccepted :
    (functions : List Function) (options : BuilderOptions)
    → All HasStart functions
    → All IsAccepted functions
    → All IsAccepted (repair_final_range functions options)
unfolding repair_final_range
repair_final_range-IsAccepted [] options words h = tt
repair_final_range-IsAccepted (f ∷ functions) options words h =
    elim (Bool-cases options.repair_zero_sized_functions) [
      | inl e ↦ rw e (repair_end-IsAccepted options.executable_ranges f functions words h)
      | inr e ↦ rw e h
    ]
