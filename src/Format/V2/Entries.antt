-- ===== src/Format/V2/Entries.antt =====
-- What a directory that `parse_directory` accepts promises of its sections.
use mathlib.Core.Path.{subst}
use gsym_rs.Prelude.{
  ℕ, zero, suc, ◌+◌, ◌≤◌, ◌≡◌, ◌≢◌, ◌⊎◌, refl, Bool, true, false, not, ◌&&◌, List, [], ◌∷◌, ◌++◌,
  map, All, Pairwise, Pairwise-snoc, All-append, ltb, ◌==◌, arith, Bool-cases, inl, inr,
}
use gsym_rs.Prelude.Words.{checked_add}
use gsym_rs.Error.{
  overflow, duplicate_section, zero_sized_section, Result, ok, ok_or-elim, guard-elim, guard-true,
  Result-cases,
}
use gsym_rs.Endian.Cursor.{Cursor, pure}
use gsym_rs.Format.Align.{checked_add-ok}
use gsym_rs.Format.V2.{GlobalData, decode_from, global_end}
use gsym_rs.Format.V2.Directory.{contains, check_entry, directory_round, directory_loop}

-- A section that is not empty and lies inside the file.
abbrev pub IsInside : ℕ → GlobalData → Type 0
IsInside input_len entry = (1 ≤ entry.file_size) × (entry.file_offset + entry.file_size ≤ input_len)

abbrev pub HasOtherType : GlobalData → GlobalData → Type 0
HasOtherType a b = a.section_type ≢ b.section_type

-- One ends before the other starts.
abbrev pub IsApart : ℕ × ℕ → ℕ × ℕ → Type 0
IsApart r s = (r.1 ≤ s.0) ⊎ (s.1 ≤ r.0)

abbrev pub extent : GlobalData → ℕ × ℕ
extent entry = (entry.file_offset, entry.file_offset + entry.file_size)

abbrev pub IsFine : ℕ → List GlobalData → Type 0
IsFine n entries = All (IsInside n) entries × Pairwise HasOtherType entries

contains-HasOtherType :
    (entries : List GlobalData) (entry : GlobalData)
    → contains (map (λ (d : GlobalData). d.section_type) entries) entry.section_type ≡ false
    → All (λ a. HasOtherType a entry) entries
contains-HasOtherType [] entry h = tt
contains-HasOtherType (a ∷ entries) entry h =
    elim (Bool-cases (a.section_type == entry.section_type)) [
      | inl e ↦ cc (rw e at h)
      | inr e ↦ (ground arith, contains-HasOtherType entries entry (rw e at h))
    ]

check_entry-IsFine :
    (n : ℕ) (entries : List GlobalData) (entry : GlobalData)
    → check_entry n (map (λ (d : GlobalData). d.section_type) entries) entry ≡ ok tt
    → IsFine n entries
    → IsFine n (entries ++ entry ∷ [])
check_entry-IsFine n entries entry h (inside, other) =
    guard-elim
      (not (contains (map (λ (d : GlobalData). d.section_type) entries) entry.section_type))
      (duplicate_section entry.section_type) _ h
      λ new h.
        guard-elim (not (entry.file_size == 0)) (zero_sized_section entry.section_type) _ h
          λ full h.
            ok_or-elim (checked_add entry.file_offset entry.file_size) (overflow "v2 section end") _
              h
              λ end sum h.
                let bound = guard-true (not (ltb n end)) _ h in
                let total = checked_add-ok entry.file_offset entry.file_size sum in
                (
                  All-append (IsInside n) entries (entry ∷ []) inside
                      (((not_zero entry.file_size full), within end bound total), tt),
                  Pairwise-snoc HasOtherType entries entry other
                      (contains-HasOtherType entries entry (not_true _ new)),
                )
  where
    not_zero : (s : ℕ) → not (s == 0) ≡ true → 1 ≤ s
    not_zero s h = ground arith

    within :
        (end : ℕ)
        → not (ltb n end) ≡ true
        → end ≡ entry.file_offset + entry.file_size
        → entry.file_offset + entry.file_size ≤ n
    within end h e = ground arith

    not_true : (b : Bool) → not b ≡ true → b ≡ false
    not_true true h = cc
    not_true false h = refl

directory_round-IsFine :
    (n : ℕ) (again : List GlobalData → Cursor → Result (List GlobalData × Cursor))
    → ((entries found : List GlobalData) (c c' : Cursor)
        → again entries c ≡ ok (found, c')
        → IsFine n entries
        → IsFine n found)
    → (entries found : List GlobalData) (c c' : Cursor)
    → directory_round n again entries c ≡ ok (found, c')
    → IsFine n entries
    → IsFine n found
unfolding directory_round
directory_round-IsFine n again h entries found c c' e fine = elim (Result-cases (decode_from c)) [
  | inr (x, p) ↦ cc (rw p at e)
  | inl ((entry, d), p) ↦ elim (Bool-cases (entry.section_type == global_end)) [
    | inl last ↦ elim (Bool-cases (entry.file_offset == 0 && entry.file_size == 0)) [
      | inl zeros ↦ subst (IsFine n) (cc (rw (p, last, zeros) at e)) fine
      | inr other ↦ cc (rw (p, last, other) at e)
    ]
    | inr more ↦
        elim (Result-cases
          (check_entry n (map (λ (g : GlobalData). g.section_type) entries) entry)) [
            | inl (_, passed) ↦
                h (entries ++ entry ∷ []) found d c' (rw (p, more, passed) at e)
                  (check_entry-IsFine n entries entry passed fine)
            | inr (x, failed) ↦ cc (rw (p, more, failed) at e)
          ]
  ]
]

pub directory_loop-IsFine :
    (fuel n : ℕ) (entries found : List GlobalData) (c c' : Cursor)
    → directory_loop fuel n entries c ≡ ok (found, c')
    → IsFine n entries
    → IsFine n found
unfolding directory_loop
directory_loop-IsFine zero n entries found c c' e fine =
    directory_round-IsFine n pure (λ es fs c c' p fine. subst (IsFine n) (cc p) fine) entries found
      c c' e fine
directory_loop-IsFine (suc fuel) n entries found c c' e fine =
    directory_round-IsFine n (directory_loop fuel n) (directory_loop-IsFine fuel n) entries found c
      c' e fine
