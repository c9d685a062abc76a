-- ===== src/Builder/Reach.antt =====
-- The builders that the public operations can make, and what holds of all of them.
use mathlib.Core.Path.{subst}
use gsym_rs.Prelude.{
  ℕ, ◌<◌, ◌≡◌, ◌↔◌, refl, sym, Bool, true, false, List, [], ◌∷◌, ◌++◌, length, length-append, All,
  get_elem?, some, inl, inr, ltb, Bool-cases, arith, Option-cases, ltb→lt,
}
use gsym_rs.Prelude.Words.{try_u32}
use gsym_rs.Error.{ok, ok_or-elim, ok_injective, bind-elim}
use gsym_rs.Model.{FileEntry, empty_file}
use gsym_rs.Model.Function.{Function}
use gsym_rs.Validation.{validate_for_builder, validate_function_files}
use gsym_rs.Validation.Files.{max-below, validate_for_builder-validate_function_files}
use gsym_rs.Builder.{
  GsymBuilder, WriterOptions, BuilderOptions, FunctionSetPolicy, deduplicate, merge_equal_ranges,
  preserve, with_options, policy_of, set_writer, set_repair, is_merge, set_function_set, set_merge,
  set_executable_ranges, Find, insert_file, is_file, add_file, add_function, validate_all_files,
  validate_file_references,
}
use gsym_rs.Builder.Files.{IsFind, IsIndexed, add_file-IsIndexed, add_file-known, get_elem?-lt}

-- `GsymBuilder::new()` is `with_options` of the default options.
pub data Built (find : Find) : GsymBuilder → Type 0 where
  start : (options : BuilderOptions) → Built find (with_options options)
  writer :
      {b : GsymBuilder} (options : WriterOptions) → Built find b → Built find (set_writer b options)
  repair : {b : GsymBuilder} (enabled : Bool) → Built find b → Built find (set_repair b enabled)
  policy :
      {b : GsymBuilder} (p : FunctionSetPolicy) → Built find b → Built find (set_function_set b p)
  merge : {b : GsymBuilder} (enabled : Bool) → Built find b → Built find (set_merge b enabled)
  ranges : {b : GsymBuilder} (r : _) → Built find b → Built find (set_executable_ranges b r)
  file :
      {b : GsymBuilder} (f : FileEntry) {i : ℕ} {b' : GsymBuilder}
      → add_file find f b ≡ ok (i, b')
      → Built find b
      → Built find b'
  func :
      {b : GsymBuilder} (f : Function) {b' : GsymBuilder}
      → add_function f b ≡ ok b'
      → Built find b
      → Built find b'

abbrev Accepted : ℕ → Function → Type 0
Accepted count f = validate_function_files f count ≡ ok tt

-- The flag is set exactly under the policy that merges.
abbrev Agrees : Bool → FunctionSetPolicy → Type 0
Agrees enabled p = (enabled ≡ true) ↔ (p ≡ merge_equal_ranges)

policy_of-Agrees : (enabled : Bool) → Agrees enabled (policy_of enabled)
policy_of-Agrees true = (λ h. refl, λ h. refl)
policy_of-Agrees false = (λ h. cc, λ h. cc)

is_merge-Agrees : (p : FunctionSetPolicy) → Agrees (is_merge p) p
is_merge-Agrees deduplicate = (λ h. cc, λ h. cc)
is_merge-Agrees merge_equal_ranges = (λ h. refl, λ h. refl)
is_merge-Agrees preserve = (λ h. cc, λ h. cc)

-- The largest file index decides for every function, whatever the size of the table.
record IsBuilder (b : GsymBuilder) : Type 0 where
  flag : Agrees b.options.merge_equal_address_functions b.function_set
  some_file : 0 < length b.files
  largest :
      (count : ℕ) → 0 < count → (b.maximum_file_index < count) ↔ All (Accepted count) b.functions

module _ (P : Function → Type 0) where
  All-snoc : (fs : List Function) (f : Function) → All P (fs ++ f ∷ []) ↔ (All P fs × P f)
  All-snoc [] f = (λ (p, _). (tt, p), λ (_, p). (p, tt))
  All-snoc (g ∷ fs) f = (
    λ (q, h). let (k, p) = (All-snoc fs f).0 h in ((q, k), p),
    λ ((q, k), p). (q, (All-snoc fs f).1 (k, p)),
  )

add_function-IsBuilder :
    (f : Function) (b : GsymBuilder) {b' : GsymBuilder}
    → IsBuilder b
    → add_function f b ≡ ok b'
    → IsBuilder b'
unfolding add_function
add_function-IsBuilder f b v h = bind-elim (validate_for_builder f) _ h λ m valid h.
    subst IsBuilder (ok_injective h) (record {
      flag = v.flag;
      some_file = v.some_file;
      largest = λ count pos.
          let old = v.largest count pos in
          let one = validate_for_builder-validate_function_files f count pos valid in
          (
            λ k.
                (All-snoc (Accepted count) b.functions f).1
                  (old.0 (omega arith), one.0 (omega arith)),
            λ all.
                let (olds, last) = (All-snoc (Accepted count) b.functions f).0 all in
                (max-below b.maximum_file_index m count).1 (old.1 olds, one.1 last),
          );
    })

-- `add_file` leaves the functions and the options alone, and the table does not shrink.
add_file-IsBuilder :
    (find : Find) (f : FileEntry) (b : GsymBuilder) {i : ℕ} {b' : GsymBuilder}
    → IsBuilder b
    → add_file find f b ≡ ok (i, b')
    → IsBuilder b'
unfolding add_file insert_file
add_file-IsBuilder find f b v h = elim (Option-cases (find b.file_index (is_file b.files f))) [
  | inr (k, e) ↦
      subst (λ (r : ℕ × GsymBuilder). IsBuilder (r.1)) (ok_injective (rw (e, add_file) at h)) v
  | inl e ↦ ok_or-elim (try_u32 (length b.files)) _ _ (rw (e, add_file) at h) λ n fits h'.
      subst (λ (r : ℕ × GsymBuilder). IsBuilder (r.1)) (ok_injective h')
        (record {
          flag = v.flag;
          some_file = omega (arith, length-append b.files (f ∷ []), v.some_file);
          largest = v.largest;
        })
]

Built-IsBuilder : {find : Find} {b : GsymBuilder} → Built find b → IsBuilder b
Built-IsBuilder (start options) = record {
  flag = policy_of-Agrees options.merge_equal_address_functions;
  some_file = omega arith;
  largest = λ count pos. (λ h. tt, λ h. pos);
}
Built-IsBuilder (writer {b = b} options built) =
    let v = Built-IsBuilder built in
    record { flag = v.flag; some_file = v.some_file; largest = v.largest }
Built-IsBuilder (repair enabled built) =
    let v = Built-IsBuilder built in
    record { flag = v.flag; some_file = v.some_file; largest = v.largest }
Built-IsBuilder (policy p built) =
    let v = Built-IsBuilder built in
    record { flag = is_merge-Agrees p; some_file = v.some_file; largest = v.largest }
Built-IsBuilder (merge enabled built) =
    let v = Built-IsBuilder built in
    record { flag = policy_of-Agrees enabled; some_file = v.some_file; largest = v.largest }
Built-IsBuilder (ranges r built) =
    let v = Built-IsBuilder built in
    record { flag = v.flag; some_file = v.some_file; largest = v.largest }
Built-IsBuilder {find = find} (file {b = b} f e built) =
    add_file-IsBuilder find f b (Built-IsBuilder built) e
Built-IsBuilder (func {b = b} f e built) = add_function-IsBuilder f b (Built-IsBuilder built) e

validate_all_files-Accepted :
    (functions : List Function) (count : ℕ)
    → All (Accepted count) functions
    → validate_all_files functions count ≡ ok tt
unfolding validate_all_files
validate_all_files-Accepted [] count h = refl
validate_all_files-Accepted (f ∷ functions) count (p, h) =
    rw p (validate_all_files-Accepted functions count h)

-- On every builder that the public operations can make, `validate_file_references`, which skips the
-- traversal where the largest file index lies in the table, returns what the traversal of all
-- functions returns, the first error included.
pub validate_file_references-validate_all_files :
    (find : Find) (b : GsymBuilder)
    → Built find b
    → validate_file_references b ≡ validate_all_files b.functions (length b.files)
unfolding validate_file_references
validate_file_references-validate_all_files find b built =
    let v = Built-IsBuilder built in
    elim (Bool-cases (ltb b.maximum_file_index (length b.files))) [
      | inr large ↦ rw (large, validate_file_references) refl
      | inl small ↦
          rw (small, validate_file_references)
            (sym (
              validate_all_files-Accepted b.functions (length b.files) (
                (v.largest (length b.files) v.some_file).0
                  (ltb→lt b.maximum_file_index (length b.files) small))))
    ]

-- On every builder that the public operations can make, the flag for merged functions is set exactly
-- if the policy is to merge equal ranges.
pub Built-policy :
    (find : Find) (b : GsymBuilder)
    → Built find b
    → (b.options.merge_equal_address_functions ≡ true) ↔ (b.function_set ≡ merge_equal_ranges)
Built-policy find b built = (Built-IsBuilder built).flag

add_function-IsIndexed :
    (f : Function) (b : GsymBuilder) {b' : GsymBuilder}
    → IsIndexed b
    → add_function f b ≡ ok b'
    → IsIndexed b'
unfolding add_function
add_function-IsIndexed f b v h = bind-elim (validate_for_builder f) _ h λ m valid h.
    subst IsIndexed (ok_injective h) (record { covers = v.covers; distinct = v.distinct })

Built-IsIndexed : {find : Find} {b : GsymBuilder} → IsFind find → Built find b → IsIndexed b
Built-IsIndexed is (start options) = record {
  covers = λ P (p, _) i h. subst P (omega arith) p;
  distinct = λ i j g h k.
      omega (arith, get_elem?-lt (empty_file ∷ []) i h, get_elem?-lt (empty_file ∷ []) j k);
}
Built-IsIndexed is (writer options built) =
    let v = Built-IsIndexed is built in record { covers = v.covers; distinct = v.distinct }
Built-IsIndexed is (repair enabled built) =
    let v = Built-IsIndexed is built in record { covers = v.covers; distinct = v.distinct }
Built-IsIndexed is (policy p built) =
    let v = Built-IsIndexed is built in record { covers = v.covers; distinct = v.distinct }
Built-IsIndexed is (merge enabled built) =
    let v = Built-IsIndexed is built in record { covers = v.covers; distinct = v.distinct }
Built-IsIndexed is (ranges r built) =
    let v = Built-IsIndexed is built in record { covers = v.covers; distinct = v.distinct }
Built-IsIndexed {find = find} is (file {b = b} f e built) =
    add_file-IsIndexed find f b is (Built-IsIndexed is built) e
Built-IsIndexed is (func {b = b} f e built) =
    add_function-IsIndexed f b (Built-IsIndexed is built) e

-- On every builder that the public operations can make, with a hash table that finds a matching entry
-- if there is one, a file that was added is not added again: whatever else is done in between, adding
-- it once more changes nothing and returns the index where it stands.
pub add_file-add_file :
    (find : Find) (b : GsymBuilder) (file : FileEntry) (i : ℕ)
    → IsFind find
    → Built find b
    → get_elem? b.files i ≡ some file
    → add_file find file b ≡ ok (i, b)
add_file-add_file find b entry i is built h =
    add_file-known find entry b i is (Built-IsIndexed is built) h
