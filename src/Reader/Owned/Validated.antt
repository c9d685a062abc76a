-- ===== src/Reader/Owned/Validated.antt =====
-- A record that passes the validation is converted, whether the conversion repeats the checks or not.
use gsym_rs.Prelude.{ℕ, ◌≡◌, refl, Bool, true, false, List, Option, none, some}
use gsym_rs.Prelude.Words.{saturating_add}
use gsym_rs.Error.{Result, ok, and_then-ok, and_then-eq, check-eq, ok_injective}
use mathlib.Core.Path.{subst}
use gsym_rs.Model.{LineEntry}
use gsym_rs.Model.Range.{AddressRange}
use gsym_rs.Model.Function.{no_nodes, Function, no_functions}
use gsym_rs.Format.Function.{
  EncodedInlineNode, encoded_inline_node, EncodedInlineNodes, no_children, with_child,
  EncodedFunction, encoded_function, EncodedFunctions, no_merged, with_merged, check_merged_depth,
}
use gsym_rs.Reader.Layout.{ParsedLayout}
use gsym_rs.Reader.Owned.{
  rows_of, string, verify_file, verify_lines, check_name, validate_inline, validate_children,
  validate_tree, validate_sites, validate_semantics, validate_at, validate_merged, validate,
  check_file, check_lines, resolve_name, decode_inline, decode_children, decode_tree, decode_sites,
  check_function, decode_at, decode_merged, decode, decode_validated,
}
use gsym_rs.Reader.Owned.Verified.{
  check-ok, IsTruthful, verify_file-IsFile, verify_lines-check_lines, check_file-IsFile,
  check_name-resolve_name, validate_sites-decode_sites,
}

module _ (bytes : List ℕ) (l : ParsedLayout) where
  -- The flags that the validation returns are truthful, and the conversion succeeds with the same
  -- result, with its checks and without them.
  abbrev Converts : {A : Type 0} → List Bool → (Bool → Result A) → Type 0
  Converts {A = A} verified convert =
      IsTruthful bytes l verified × (a : A) × ((checked : Bool) → convert checked ≡ ok a)

  mutual
    unfolding validate_inline decode_inline

    validate_inline-Converts :
        (node : EncodedInlineNode) (verified : List Bool) {verified' : List Bool}
        → IsTruthful bytes l verified
        → validate_inline bytes l node verified ≡ ok verified'
        → Converts verified' (λ checked. decode_inline bytes l checked node)
    validate_inline-Converts (encoded_inline_node ranges name call_file line children) verified
          sound h =
        let (p, q) = check-ok (check_name bytes l name) _ h in
        let (between, p', q') = and_then-ok (verify_file bytes l call_file verified) _ q in
        let (sound', found) = verify_file-IsFile bytes l call_file verified sound p' in
        let (s, named) = check_name-resolve_name bytes l name p in
        let (sound'', nodes, run) = validate_children-Converts children between sound' q' in
        (
          sound'',
          _,
          λ checked.
              check-eq (check_file bytes l checked call_file) _
                (check_file-IsFile bytes l checked call_file found)
                (and_then-eq (resolve_name bytes l name) _ named
                  (and_then-eq _ _ (run checked) refl)),
        )

    validate_children-Converts :
        (children : EncodedInlineNodes) (verified : List Bool) {verified' : List Bool}
        → IsTruthful bytes l verified
        → validate_children bytes l children verified ≡ ok verified'
        → Converts verified' (λ checked. decode_children bytes l checked children)
    validate_children-Converts no_children verified sound h =
        (subst (IsTruthful bytes l) (ok_injective h) sound, no_nodes, λ checked. refl)
    validate_children-Converts (with_child child children) verified sound h =
        let (between, p, q) = and_then-ok (validate_inline bytes l child verified) _ h in
        let (sound', node, run) = validate_inline-Converts child verified sound p in
        let (sound'', nodes, run') = validate_children-Converts children between sound' q in
        (sound'', _, λ checked. and_then-eq _ _ (run checked) (and_then-eq _ _ (run' checked) refl))

  validate_tree-Converts :
      (tree : Option EncodedInlineNode) (verified : List Bool) {verified' : List Bool}
      → IsTruthful bytes l verified
      → validate_tree bytes l tree verified ≡ ok verified'
      → Converts verified' (λ checked. decode_tree bytes l checked tree)
  validate_tree-Converts none verified sound h =
      (subst (IsTruthful bytes l) (ok_injective h) sound, none, λ checked. refl)
  validate_tree-Converts (some node) verified sound h =
      let (sound', node', run) = validate_inline-Converts node verified sound h in
      (sound', _, λ checked. and_then-eq _ _ (run checked) refl)

  abbrev lines_of : EncodedFunction → List LineEntry
  lines_of (encoded_function range name lines inline items call_sites) = rows_of lines

  check_function-ok :
      (checked : Bool) (f : EncodedFunction) (parent : Option AddressRange) (depth : ℕ)
      → check_merged_depth depth ≡ ok tt
      → validate_semantics f parent ≡ ok tt
      → check_lines bytes l (lines_of f) ≡ ok tt
      → check_function bytes l checked f parent depth ≡ ok tt
  unfolding check_function
  check_function-ok true (encoded_function range name lines inline items call_sites) parent depth p
        q r =
      check-eq (check_merged_depth depth) _ p (check-eq _ _ q r)
  check_function-ok false (encoded_function range name lines inline items call_sites) parent depth p
        q r =
      refl

  mutual
    unfolding validate_at decode_at

    validate_at-Converts :
        (f : EncodedFunction) (parent : Option AddressRange) (depth : ℕ) (verified : List Bool)
        {verified' : List Bool}
        → IsTruthful bytes l verified
        → validate_at bytes l f parent depth verified ≡ ok verified'
        → Converts verified' (λ checked. decode_at bytes l checked f parent depth)
    validate_at-Converts (encoded_function range name lines inline items call_sites) parent depth
          verified sound h =
        let f = encoded_function range name lines inline items call_sites in
        let (deep, h1) = check-ok (check_merged_depth depth) _ h in
        let (semantics, h2) = check-ok (validate_semantics f parent) _ h1 in
        let (s, named, h3) = and_then-ok (string bytes l name) _ h2 in
        let (with_lines, p, h4) =
          and_then-ok (verify_lines bytes l (rows_of lines) verified) _ h3 in
        let (with_inline, p', h5) = and_then-ok (validate_tree bytes l inline with_lines) _ h4 in
        let (sites, h6) = check-ok (validate_sites bytes l call_sites) _ h5 in
        let (sound1, rows) = verify_lines-check_lines bytes l (rows_of lines) verified sound p in
        let (sound2, tree, run) = validate_tree-Converts inline with_lines sound1 p' in
        let (sound3, merged', run') =
          validate_merged-Converts items range (saturating_add depth 1) with_inline sound2 h6 in
        let (sites', decoded) = validate_sites-decode_sites bytes l call_sites sites in
        (
          sound3,
          _,
          λ checked.
              check-eq (check_function bytes l checked f parent depth) _
                (check_function-ok checked f parent depth deep semantics rows)
                (and_then-eq _ _ (run' checked) (
                  and_then-eq (decode_sites bytes l call_sites) _ decoded (
                    and_then-eq (string bytes l name) _ named
                      (and_then-eq _ _ (run checked) refl)))),
        )

    validate_merged-Converts :
        (items : EncodedFunctions) (range : AddressRange) (depth : ℕ) (verified : List Bool)
        {verified' : List Bool}
        → IsTruthful bytes l verified
        → validate_merged bytes l items range depth verified ≡ ok verified'
        → Converts verified' (λ checked. decode_merged bytes l checked items range depth)
    validate_merged-Converts no_merged range depth verified sound h =
        (subst (IsTruthful bytes l) (ok_injective h) sound, no_functions, λ checked. refl)
    validate_merged-Converts (with_merged item items) range depth verified sound h =
        let (between, p, q) =
          and_then-ok (validate_at bytes l item (some range) depth verified) _ h in
        let (sound', f, run) = validate_at-Converts item (some range) depth verified sound p in
        let (sound'', fs, run') = validate_merged-Converts items range depth between sound' q in
        (sound'', _, λ checked. and_then-eq _ _ (run checked) (and_then-eq _ _ (run' checked) refl))

-- If every file marked as verified can be read, and `validate` accepts a decoded record, then this
-- stays so for the marks that it returns, and `decode_validated`, which checks nothing, and `decode`
-- both convert the record, to the same function.
pub validate-decode :
    (bytes : List ℕ) (l : ParsedLayout) (encoded : EncodedFunction) (verified : List Bool)
    {verified' : List Bool}
    → IsTruthful bytes l verified
    → validate bytes l encoded verified ≡ ok verified'
    → IsTruthful bytes l verified'
      × (f : Function) × (decode bytes l encoded ≡ ok f)
      × (decode_validated bytes l encoded ≡ ok f)
unfolding validate decode decode_validated
validate-decode bytes l encoded verified sound h =
    let (sound', f, run) = validate_at-Converts bytes l encoded none 0 verified sound h in
    (sound', f, run true, run false)
