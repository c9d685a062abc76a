-- ===== src/Builder/Files.antt =====
-- The file table: what `add_file` returns, and that no file stands in it twice.
use mathlib.Core.Path.{subst}
use gsym_rs.Prelude.{
  ℕ, zero, suc, ◌<◌, ◌≡◌, ◌≢◌, ◌⊎◌, refl, sym, ap, ◌∙◌, Bool, true, false, List, [], ◌∷◌, ◌++◌,
  length, length-append, get_elem?, All, none, some, Option-cases, inl, inr, arith,
}
use native.Mathlib.Decide.{dec_lt}
use gsym_rs.Prelude.Words.{try_u32}
use gsym_rs.Error.{ok, ok_or-elim, ok_injective}
use gsym_rs.Model.{FileEntry}
use gsym_rs.Writer.Strings.{eq_bytes}
use gsym_rs.Writer.Strings.ReadBack.{eq_bytes-ok}
use gsym_rs.Builder.{GsymBuilder, eq_file, is_file, Find, insert_file, add_file}

eq_bytes_self : (xs : List ℕ) → eq_bytes xs xs ≡ true
unfolding eq_bytes
eq_bytes_self [] = refl
eq_bytes_self (x ∷ xs) = ground (arith, eq_bytes_self xs)

eq_file-ok : (f g : FileEntry) → eq_file f g ≡ true → f ≡ g
unfolding eq_file
eq_file-ok f g h =
    ground (arith, eq_bytes-ok f.directory g.directory, eq_bytes-ok f.basename g.basename)

is_file-ok :
    (files : List FileEntry) (file : FileEntry) (i : ℕ)
    → is_file files file i ≡ true
    → get_elem? files i ≡ some file
unfolding is_file
is_file-ok files file i h = elim (Option-cases (get_elem? files i)) [
  | inl e ↦ cc (rw (e, is_file) at h)
  | inr (g, e) ↦ e ∙ ap (λ (f : FileEntry). some f) (eq_file-ok g file (rw (e, is_file) at h))
]

is_file_self :
    (files : List FileEntry) (file : FileEntry) (i : ℕ)
    → get_elem? files i ≡ some file
    → is_file files file i ≡ true
unfolding is_file eq_file
is_file_self files file i h =
    rw (h, is_file) (ground (arith, eq_bytes_self file.directory, eq_bytes_self file.basename))

module _ {ℓ} {A : Type ℓ} where
  get_elem?-append :
      (xs ys : List A) (i : ℕ) {a : A} → get_elem? xs i ≡ some a → get_elem? (xs ++ ys) i ≡ some a
  get_elem?-append [] ys i h = cc
  get_elem?-append (x ∷ xs) ys zero h = h
  get_elem?-append (x ∷ xs) ys (suc i) h = get_elem?-append xs ys i h

  get_elem?-last : (xs : List A) (a : A) → get_elem? (xs ++ a ∷ []) (length xs) ≡ some a
  get_elem?-last [] a = refl
  get_elem?-last (x ∷ xs) a = get_elem?-last xs a

  -- What stands in a list with one more element.
  get_elem?-snoc :
      (xs : List A) (a : A) (i : ℕ) {b : A}
      → get_elem? (xs ++ a ∷ []) i ≡ some b
      → (get_elem? xs i ≡ some b) ⊎ ((i ≡ length xs) × (a ≡ b))
  get_elem?-snoc [] a zero h = inr (refl, cc)
  get_elem?-snoc [] a (suc i) h = cc
  get_elem?-snoc (x ∷ xs) a zero h = inl h
  get_elem?-snoc (x ∷ xs) a (suc i) h = elim (get_elem?-snoc xs a i h) [
    | inl e ↦ inl e
    | inr (e, f) ↦ inr (ap suc e, f)
  ]

  pub get_elem?-lt : (xs : List A) (i : ℕ) {a : A} → get_elem? xs i ≡ some a → i < length xs
  get_elem?-lt [] i h = cc
  get_elem?-lt (x ∷ xs) zero h = omega arith
  get_elem?-lt (x ∷ xs) (suc i) h = omega (arith, get_elem?-lt xs i h)

-- What the documentation of `HashTable::find` says: it returns an entry that matches, if there is
-- one.
pub record IsFind (find : Find) : Type 0 where
  pub matches :
      (slots : List ℕ) (test : ℕ → Bool) (i : ℕ) → find slots test ≡ some i → test i ≡ true
  pub complete :
      (slots : List ℕ) (test : ℕ → Bool) → find slots test ≡ none → All (λ i. test i ≡ false) slots

-- The slots stand for all files, and no two files are the same.
pub record IsIndexed (b : GsymBuilder) : Type 1 where
  pub covers : (P : ℕ → Type 0) → All P b.file_index → (i : ℕ) → i < length b.files → P i
  pub distinct :
      (i j : ℕ) (file : FileEntry)
      → get_elem? b.files i ≡ some file
      → get_elem? b.files j ≡ some file
      → i ≡ j

-- A file that is added is found under the index that is returned, and every file keeps its index.
pub add_file-get_elem? :
    (find : Find) (file : FileEntry) (b : GsymBuilder) {i : ℕ} {b' : GsymBuilder}
    → IsFind find
    → add_file find file b ≡ ok (i, b')
    → (get_elem? b'.files i ≡ some file)
      × ((j : ℕ) (g : FileEntry) → get_elem? b.files j ≡ some g → get_elem? b'.files j ≡ some g)
unfolding add_file insert_file
add_file-get_elem? find file b {i = i} {b' = b'} is h =
    elim (Option-cases (find b.file_index (is_file b.files file))) [
      | inr (k, e) ↦
          let there =
            is_file-ok b.files file k (is.matches b.file_index (is_file b.files file) k e) in
          subst
            (λ (r : ℕ × GsymBuilder).
              (get_elem? (r.1).files (r.0) ≡ some file)
              × ((j : ℕ) (g : FileEntry)
                  → get_elem? b.files j ≡ some g
                  → get_elem? (r.1).files j ≡ some g))
            (ok_injective (rw (e, add_file) at h)) (there, λ j g found. found)
      | inl e ↦ ok_or-elim (try_u32 (length b.files)) _ _ (rw (e, add_file) at h) λ n fits h'.
          let same : n ≡ length b.files = ground arith in
          subst
            (λ (r : ℕ × GsymBuilder).
              (get_elem? (r.1).files (r.0) ≡ some file)
              × ((j : ℕ) (g : FileEntry)
                  → get_elem? b.files j ≡ some g
                  → get_elem? (r.1).files j ≡ some g))
            (ok_injective h')
            (
              ap (get_elem? (b.files ++ file ∷ [])) same ∙ get_elem?-last b.files file,
              λ j g found. get_elem?-append b.files (file ∷ []) j found,
            )
    ]

true-false : true ≢ false
true-false h = cc

-- A file that is in the table is not added again: the index where it stands is returned.
pub add_file-known :
    (find : Find) (file : FileEntry) (b : GsymBuilder) (i : ℕ)
    → IsFind find
    → IsIndexed b
    → get_elem? b.files i ≡ some file
    → add_file find file b ≡ ok (i, b)
unfolding add_file
add_file-known find file b i is indexed h =
    elim (Option-cases (find b.file_index (is_file b.files file))) [
      | inr (k, e) ↦
          let there =
            is_file-ok b.files file k (is.matches b.file_index (is_file b.files file) k e) in
          rw (e, add_file) (ap (λ (j : ℕ). ok (j, b)) (indexed.distinct k i file there h))
      | inl e ↦
          let missing =
            indexed.covers (λ j. is_file b.files file j ≡ false)
              (is.complete b.file_index (is_file b.files file) e) i (get_elem?-lt b.files i h) in
          absurd (true-false (sym (is_file_self b.files file i h) ∙ missing))
    ]

absent :
    (b : GsymBuilder) (file : FileEntry)
    → ((j : ℕ) → j < length b.files → is_file b.files file j ≡ false)
    → (j : ℕ) (g : FileEntry) → get_elem? b.files j ≡ some g
    → file ≢ g
absent b file missing j g h e =
    let there = h ∙ ap (λ (f : FileEntry). some f) (sym e) in
    true-false (sym (is_file_self b.files file j there) ∙ missing j (get_elem?-lt b.files j h))

pub add_file-IsIndexed :
    (find : Find) (file : FileEntry) (b : GsymBuilder) {i : ℕ} {b' : GsymBuilder}
    → IsFind find
    → IsIndexed b
    → add_file find file b ≡ ok (i, b')
    → IsIndexed b'
unfolding add_file insert_file
add_file-IsIndexed find file b {i = i} {b' = b'} is indexed h =
    elim (Option-cases (find b.file_index (is_file b.files file))) [
      | inr (k, e) ↦
          subst (λ (r : ℕ × GsymBuilder). IsIndexed (r.1)) (ok_injective (rw (e, add_file) at h))
            indexed
      | inl e ↦ ok_or-elim (try_u32 (length b.files)) _ _ (rw (e, add_file) at h) λ n fits h'.
          subst (λ (r : ℕ × GsymBuilder). IsIndexed (r.1)) (ok_injective h')
            (inserted n (ground arith) (
              indexed.covers (λ j. is_file b.files file j ≡ false)
                (is.complete b.file_index (is_file b.files file) e)))
    ]
  where
    inserted :
        (n : ℕ)
        → n ≡ length b.files
        → ((j : ℕ) → j < length b.files → is_file b.files file j ≡ false)
        → IsIndexed (record b { files = b.files ++ file ∷ []; file_index = n ∷ b.file_index })
    inserted n same missing = record {
      covers = λ P (p, ps) j fits. elim (dec_lt j (length b.files)) [
        | yes lt ↦ indexed.covers P ps j lt
        | no ge ↦ subst P (omega (arith, length-append b.files (file ∷ []))) p
      ];
      distinct = λ j k g first second. elim (get_elem?-snoc b.files file j first) [
        | inl old ↦ elim (get_elem?-snoc b.files file k second) [
          | inl old' ↦ indexed.distinct j k g old old'
          | inr (last, e) ↦ absurd (absent b file missing j g old e)
        ]
        | inr (last, e) ↦ elim (get_elem?-snoc b.files file k second) [
          | inl old' ↦ absurd (absent b file missing k g old' e)
          | inr (last', e') ↦ last ∙ sym last'
        ]
      ];
    }
