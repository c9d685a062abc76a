-- ===== src/Reader/Owned/Verified.antt =====
-- What the checks of a record say about its files and strings.
use mathlib.Core.Path.{subst}
use gsym_rs.Prelude.{
  ℕ, ◌≡◌, ◌≢◌, refl, Bool, true, false, Bool-cases, inl, inr, List, [], ◌∷◌, Option, none, some,
  get_elem?, set, get_elem?-set_ne, ◌==◌, arith,
}
use gsym_rs.Error.{Result, ok, err, and_then-ok, and_then-eq, ok_injective, ◌>>◌}
use gsym_rs.Model.{LineEntry}
use gsym_rs.Model.Function.{CallSite}
use gsym_rs.Format.Function.{EncodedCallSite}
use gsym_rs.Reader.Layout.{ParsedLayout}
use gsym_rs.Reader.Owned.{
  string, file, is_verified, verify_file, verify_lines, check_name, validate_regexes,
  validate_sites, check_file, check_lines, resolve_name, resolve_all, decode_sites,
}

pub check-ok :
    {A : Type 0} (check : Result (Unit {0})) (m : Result A) {a : A}
    → (check >> m) ≡ ok a
    → (check ≡ ok tt) × (m ≡ ok a)
check-ok (ok t) m h = (refl, h)
check-ok (err e) m h = cc

verified-true :
    (bytes : List ℕ) (l : ParsedLayout) (o : Option Bool)
    → is_verified bytes l o ≡ true
    → o ≡ some true
verified-true bytes l none h = cc
verified-true bytes l (some true) h = refl
verified-true bytes l (some false) h = cc

module _ (bytes : List ℕ) (l : ParsedLayout) where
  abbrev pub IsFile : ℕ → Type 0
  IsFile index = (names : List ℕ × List ℕ) × (file bytes l index ≡ ok names)

  -- Every file that is marked as verified can be read.
  abbrev pub IsTruthful : List Bool → Type 0
  IsTruthful verified = (index : ℕ) → get_elem? verified index ≡ some true → IsFile index

  set-IsTruthful :
      (verified : List Bool) (index : ℕ)
      → IsTruthful verified
      → IsFile index
      → IsTruthful (set verified index true)
  set-IsTruthful verified index sound found j h = elim (Bool-cases (index == j)) [
    | inl e ↦ subst IsFile (ground arith) found
    | inr e ↦ sound j (cc (get_elem?-set_ne verified true (different e), h))
  ]
    where
      different : (index == j) ≡ false → index ≢ j
      different e p = ground arith

  pub verify_file-IsFile :
      (index : ℕ) (verified : List Bool) {verified' : List Bool}
      → IsTruthful verified
      → verify_file bytes l index verified ≡ ok verified'
      → IsTruthful verified' × IsFile index
  unfolding verify_file
  verify_file-IsFile index verified sound h =
      elim (Bool-cases (is_verified bytes l (get_elem? verified index))) [
        | inl e ↦ (
          subst IsTruthful (ok_injective (rw e at h)) sound,
          sound index (verified-true bytes l (get_elem? verified index) e),
        )
        | inr e ↦
            let (names, p, q) = and_then-ok (file bytes l index) _ (rw e at h) in
            (
              subst IsTruthful (ok_injective q) (set-IsTruthful verified index sound (names, p)),
              (names, p),
            )
      ]

  pub verify_lines-check_lines :
      (lines : List LineEntry) (verified : List Bool) {verified' : List Bool}
      → IsTruthful verified
      → verify_lines bytes l lines verified ≡ ok verified'
      → IsTruthful verified' × (check_lines bytes l lines ≡ ok tt)
  unfolding verify_lines check_lines
  verify_lines-check_lines [] verified sound h = (subst IsTruthful (ok_injective h) sound, refl)
  verify_lines-check_lines (line ∷ lines) verified sound h =
      let (between, p, q) = and_then-ok (verify_file bytes l line.file verified) _ h in
      let (sound', (names, found)) = verify_file-IsFile line.file verified sound p in
      let (sound'', checked) = verify_lines-check_lines lines between sound' q in
      (sound'', and_then-eq (file bytes l line.file) _ found checked)

  pub check_file-IsFile :
      (checked : Bool) (index : ℕ) → IsFile index → check_file bytes l checked index ≡ ok tt
  check_file-IsFile true index (names, found) = and_then-eq (file bytes l index) _ found refl
  check_file-IsFile false index found = refl

  pub check_name-resolve_name :
      (name : ℕ)
      → check_name bytes l name ≡ ok tt
      → (s : List ℕ) × (resolve_name bytes l name ≡ ok s)
  check_name-resolve_name name h = elim (Bool-cases (name == 0)) [
    | inl e ↦ ([], rw e refl)
    | inr e ↦ let (s, p, q) = and_then-ok (string bytes l name) _ (rw e at h) in (s, rw e p)
  ]

  validate_regexes-resolve_all :
      (offsets : List ℕ)
      → validate_regexes bytes l offsets ≡ ok tt
      → (found : List (List ℕ)) × (resolve_all bytes l offsets ≡ ok found)
  unfolding validate_regexes resolve_all
  validate_regexes-resolve_all [] h = ([], refl)
  validate_regexes-resolve_all (offset ∷ offsets) h =
      let (s, p, q) = and_then-ok (string bytes l offset) _ h in
      let (found, r) = validate_regexes-resolve_all offsets q in
      (s ∷ found, and_then-eq (string bytes l offset) _ p (and_then-eq _ _ r refl))

  pub validate_sites-decode_sites :
      (sites : List EncodedCallSite)
      → validate_sites bytes l sites ≡ ok tt
      → (found : List CallSite) × (decode_sites bytes l sites ≡ ok found)
  unfolding validate_sites decode_sites
  validate_sites-decode_sites [] h = ([], refl)
  validate_sites-decode_sites (site ∷ sites) h =
      let (p, q) = check-ok (validate_regexes bytes l site.match_regex) _ h in
      let (patterns, r) = validate_regexes-resolve_all site.match_regex p in
      let (found, r') = validate_sites-decode_sites sites q in
      (_, and_then-eq (resolve_all bytes l site.match_regex) _ r (and_then-eq _ _ r' refl))
