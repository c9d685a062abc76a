-- ===== src/Format/V2/Accepted.antt =====
-- The sections of an accepted directory lie apart.
use mathlib.Core.Path.{subst}
use gsym_rs.Prelude.{
  ℕ, ◌≤◌, ◌≡◌, sym, ap, ◌∙◌, true, not, List, [], ◌∷◌, length, map, All, Pairwise, All-map, ltb,
  leb, arith, Bool-cases, inl, inr,
}
use gsym_rs.Prelude.Words.{checked_add, checked_mul}
use gsym_rs.Error.{
  overflow, missing_section, Result, ok, guard, bind-elim, ok_or-elim, guard-elim, guard-true,
  ok_injective,
}
use gsym_rs.Endian.Order.{Endian}
use gsym_rs.Endian.Cursor.{at, remaining}
use gsym_rs.Format.Align.{checked_add-ok}
use gsym_rs.Format.V2.{Header, GlobalData, header_size, required_types, address_info_offset_size}
use gsym_rs.Format.V2.Directory.{
  Directory, contains, directory_loop, check_all, check_section, insert_by_start, sort_by_start,
  check_disjoint, overlapping, extents, validate_sections, parse_directory,
}
use gsym_rs.Format.V2.Entries.{IsInside, HasOtherType, IsApart, extent, directory_loop-IsFine}

abbrev IsRange : ℕ × ℕ → Type 0
IsRange r = r.0 ≤ r.1

abbrev StartsAfter : ℕ → ℕ × ℕ → Type 0
StartsAfter n r = n ≤ r.0

extents-map :
    (entries : List GlobalData) {rs : List (ℕ × ℕ)}
    → extents entries ≡ ok rs
    → rs ≡ map extent entries
unfolding extents
extents-map [] h = sym (ok_injective h)
extents-map (entry ∷ entries) h =
    ok_or-elim (checked_add entry.file_offset entry.file_size) (overflow "v2 section end") _ h
      λ end sum h. bind-elim (extents entries) _ h λ rest e h.
        sym (ok_injective h)
        ∙ ap (λ (n : ℕ). (entry.file_offset, n) ∷ rest)
            (checked_add-ok entry.file_offset entry.file_size sum)
        ∙ ap (λ (rs : List (ℕ × ℕ)). extent entry ∷ rs) (extents-map entries e)

extent-IsRange : (entries : List GlobalData) → All IsRange (map extent entries)
extent-IsRange [] = tt
extent-IsRange (entry ∷ entries) = (omega arith, extent-IsRange entries)

-- In the order of their starts, each range ends before the next starts.
check_disjoint-ok :
    (n : ℕ) (rs : List (ℕ × ℕ))
    → All IsRange rs
    → check_disjoint n rs ≡ ok tt
    → All (StartsAfter n) rs × Pairwise IsApart rs
unfolding check_disjoint
check_disjoint-ok n [] h e = (tt, tt)
check_disjoint-ok n ((start, end) ∷ rs) (r, h) e =
    guard-elim (not (ltb start n)) overlapping _ e λ t e.
      let (behind, apart) = check_disjoint-ok end rs h e in
      let le : n ≤ start = ground arith in
      (
        (le, All-map (StartsAfter n) (λ s k. omega (arith, k)) rs behind),
        (All-map (IsApart (start, end)) (λ s k. inl k) rs behind, apart),
      )

IsApart-sym : (r s : ℕ × ℕ) → IsApart r s → IsApart s r
IsApart-sym r s (inl h) = inr h
IsApart-sym r s (inr h) = inl h

insert_by_start-All :
    (P : ℕ × ℕ → Type 0) (r : ℕ × ℕ) (rs : List (ℕ × ℕ))
    → All P (insert_by_start r rs)
    → P r × All P rs
unfolding insert_by_start
insert_by_start-All P r [] h = h
insert_by_start-All P r (s ∷ rs) h = elim (Bool-cases (leb (r.0) (s.0))) [
  | inl e ↦ rw e at h
  | inr e ↦
      let h' : All P (s ∷ insert_by_start r rs) = rw e at h in
      let (p, ps) = insert_by_start-All P r rs (h'.1) in (p, (h'.0, ps))
]

insert_by_start-Pairwise :
    (r : ℕ × ℕ) (rs : List (ℕ × ℕ))
    → Pairwise IsApart (insert_by_start r rs)
    → Pairwise IsApart (r ∷ rs)
unfolding insert_by_start
insert_by_start-Pairwise r [] h = h
insert_by_start-Pairwise r (s ∷ rs) h = elim (Bool-cases (leb (r.0) (s.0))) [
  | inl e ↦ rw e at h
  | inr e ↦
      let h' : Pairwise IsApart (s ∷ insert_by_start r rs) = rw e at h in
      let (p, ps) = insert_by_start-All (IsApart s) r rs (h'.0) in
      let (q, qs) = insert_by_start-Pairwise r rs (h'.1) in ((IsApart-sym s r p, q), (ps, qs))
]

sort_by_start-All : (P : ℕ × ℕ → Type 0) (rs : List (ℕ × ℕ)) → All P (sort_by_start rs) → All P rs
unfolding sort_by_start
sort_by_start-All P [] h = h
sort_by_start-All P (r ∷ rs) h =
    let (p, ps) = insert_by_start-All P r (sort_by_start rs) h in (p, sort_by_start-All P rs ps)

sort_by_start-Pairwise :
    (rs : List (ℕ × ℕ)) → Pairwise IsApart (sort_by_start rs) → Pairwise IsApart rs
unfolding sort_by_start
sort_by_start-Pairwise [] h = h
sort_by_start-Pairwise (r ∷ rs) h =
    let (p, ps) = insert_by_start-Pairwise r (sort_by_start rs) h in
    (sort_by_start-All (IsApart r) rs p, sort_by_start-Pairwise rs ps)

insert_by_start-All_in :
    (P : ℕ × ℕ → Type 0) (r : ℕ × ℕ) (rs : List (ℕ × ℕ))
    → P r
    → All P rs
    → All P (insert_by_start r rs)
unfolding insert_by_start
insert_by_start-All_in P r [] p h = (p, tt)
insert_by_start-All_in P r (s ∷ rs) p (q, h) = elim (Bool-cases (leb (r.0) (s.0))) [
  | inl e ↦ rw e (p, (q, h))
  | inr e ↦ rw e (q, insert_by_start-All_in P r rs p h)
]

sort_by_start-All_in :
    (P : ℕ × ℕ → Type 0) (rs : List (ℕ × ℕ)) → All P rs → All P (sort_by_start rs)
unfolding sort_by_start
sort_by_start-All_in P [] h = h
sort_by_start-All_in P (r ∷ rs) (p, h) =
    insert_by_start-All_in P r (sort_by_start rs) p (sort_by_start-All_in P rs h)

validate_sections-ok :
    (bytes : List ℕ) (n : ℕ) (h : Header) (entries : List GlobalData)
    → validate_sections bytes n h entries ≡ ok tt
    → All (StartsAfter n) (map extent entries) × Pairwise IsApart (map extent entries)
unfolding validate_sections
validate_sections-ok bytes n h entries e =
    ok_or-elim (checked_mul h.address_count h.address_offset_size)
      (overflow "v2 address-table size") _ e
      λ a _ e.
        ok_or-elim (checked_mul h.address_count address_info_offset_size)
          (overflow "v2 address-info size") _ e
          λ b _ e.
            bind-elim (check_all (check_section bytes h.address_offset_size a b) entries) _ e
              λ _ _ e. bind-elim (extents entries) _ e λ rs found e.
                let same = extents-map entries found in
                let (behind, apart) =
                  check_disjoint-ok n (sort_by_start rs)
                    (sort_by_start-All_in IsRange rs
                      (subst (All IsRange) (sym same) (extent-IsRange entries)))
                    e in
                (
                  subst (All (StartsAfter n)) same (sort_by_start-All (StartsAfter n) rs behind),
                  subst (Pairwise IsApart) same (sort_by_start-Pairwise rs apart),
                )

check_all-ok :
    {A : Type 0} (f : A → Result (Unit {0})) (xs : List A)
    → check_all f xs ≡ ok tt
    → All (λ a. f a ≡ ok tt) xs
unfolding check_all
check_all-ok f [] h = tt
check_all-ok f (x ∷ xs) h = bind-elim (f x) _ h λ _ e h. (e, check_all-ok f xs h)

abbrev types : List GlobalData → List ℕ
types = map (λ (d : GlobalData). d.section_type)

pub record IsAccepted (bytes : List ℕ) (d : Directory) : Type 0 where
  pub inside : All (IsInside (length bytes)) d.entries
  pub distinct : Pairwise HasOtherType d.entries
  pub required :
      All
        (λ (t : ℕ). contains (map (λ (g : GlobalData). g.section_type) d.entries) t ≡ true)
        required_types
  pub behind : All (λ (r : ℕ × ℕ). d.end_offset ≤ r.0) (map extent d.entries)
  pub apart : Pairwise IsApart (map extent d.entries)

-- In a directory that `parse_directory` accepts, whatever the bytes, no section is empty or reaches
-- past the end of the file, no two have the same type, all five required types are there, and the
-- sections lie behind the directory and do not overlap.
pub parse_directory-IsAccepted :
    (bytes : List ℕ) (e : Endian) (h : Header) {d : Directory}
    → parse_directory bytes e h ≡ ok d
    → IsAccepted bytes d
unfolding parse_directory
parse_directory-IsAccepted bytes e h {d = d} p =
    bind-elim (at bytes e header_size) _ p λ cursor _ p.
      bind-elim (directory_loop (remaining cursor) (length bytes) [] cursor) _ p λ r loop p.
        bind-elim
          (check_all
            (λ required. guard (contains (types (r.0)) required) (missing_section required))
            required_types)
          _ p
          λ _ required p.
            bind-elim (validate_sections bytes (r.1).position h (r.0)) _ p λ _ valid p.
              let (inside, distinct) =
                directory_loop-IsFine (remaining cursor) (length bytes) [] (r.0) cursor (r.1) loop
                  (tt, tt) in
              let (behind, apart) = validate_sections-ok bytes (r.1).position h (r.0) valid in
              subst (IsAccepted bytes) (ok_injective p) (record {
                inside = inside;
                distinct = distinct;
                required =
                    All-map (λ t. contains (types (r.0)) t ≡ true)
                      (λ t g. guard-true (contains (types (r.0)) t) (missing_section t) g)
                      required_types
                      (check_all-ok (λ t. guard (contains (types (r.0)) t) (missing_section t))
                        required_types required);
                behind = behind;
                apart = apart;
              })
