-- ===== src/Validation/Files.antt =====
-- The largest file index that validation returns decides whether every file reference is in the table.
use gsym_rs.Prelude.{
  ℕ, ◌<◌, ◌≡◌, ◌↔◌, refl, max, not, List, [], ◌∷◌, All, Option, none, some, ltb, leb, ◌==◌, ◌&&◌,
  ◌||◌, any, is_nil, arith, ltb→lt, lt→ltb,
}
use gsym_rs.Error.{
  Error, ◌>>◌, guard-true, Result, ok, guard, guard-elim, check-elim, bind-elim, ok_injective,
}
use gsym_rs.Model.{LineEntry}
use gsym_rs.Model.Range.{AddressRange, is_empty, is_valid, size}
use gsym_rs.Prelude.Words.{saturating_add, u32_max}
use gsym_rs.Format.Function.{check_inline_depth, check_merged_depth}
use mathlib.Core.Path.{subst}
use gsym_rs.Model.Function.{
  InlineNode, inline_node, InlineNodes, no_nodes, with_node, Function, function, Functions,
  no_functions, with_function,
}
use gsym_rs.Validation.{
  line, inline_call, missing_file, validate_file_index, validate_children_files,
  validate_merged_files, validate_for_builder, validate_inline_files, validate_line_files,
  validate_some_files, validate_function_files, validate_lines, validate_inline, validate_children,
  validate_some_inline, validate_function_tree, validate_merged, validate_ranges, matches_parent,
}

-- Every file reference lies in a table of `count` files.
unfoldable mutual
  pub InlineBelow : ℕ → InlineNode → Type 0
  InlineBelow count (inline_node _ _ call_file _ children) =
      (call_file < count) × ChildrenBelow count children

  pub ChildrenBelow : ℕ → InlineNodes → Type 0
  ChildrenBelow count no_nodes = Unit
  ChildrenBelow count (with_node child children) =
      InlineBelow count child × ChildrenBelow count children

abbrev pub SomeBelow : ℕ → Option InlineNode → Type 0
SomeBelow count none = Unit
SomeBelow count (some node) = InlineBelow count node

abbrev pub LinesBelow : ℕ → List LineEntry → Type 0
LinesBelow count lines = All (λ row. row.file < count) lines

unfoldable mutual
  pub FilesBelow : ℕ → Function → Type 0
  FilesBelow count (function _ _ lines inline merged _) =
      LinesBelow count lines × (SomeBelow count inline × MergedBelow count merged)

  pub MergedBelow : ℕ → Functions → Type 0
  MergedBelow count no_functions = Unit
  MergedBelow count (with_function merged functions) =
      FilesBelow count merged × MergedBelow count functions

-- A bound on the larger of two is a bound on both.
pub max-below : (a b n : ℕ) → (max a b < n) ↔ ((a < n) × (b < n))
max-below a b n = (λ h. omega arith, λ (h, k). omega arith)

abbrev Bounds : (result before count : ℕ) → Type 0 → Type 0
Bounds result before count P = (result < count) ↔ ((before < count) × P)

-- Bounds that come with one part of the references, and with the next.
chain :
    {P Q : Type 0} (result middle before count : ℕ)
    → Bounds middle before count P
    → Bounds result middle count Q
    → Bounds result before count (P × Q)
chain result middle before count f g = (
  λ h. let (m, q) = g.0 h in let (b, p) = f.0 m in (b, (p, q)),
  λ (b, (p, q)). g.1 (f.1 (b, p), q),
)

-- The same value before and after, and nothing referred to.
none-Bounds : (before result count : ℕ) → before ≡ result → Bounds result before count Unit
none-Bounds before result count e = (λ h. (omega arith, tt), λ (h, _). omega arith)

-- A reference that is taken into the maximum.
one-Bounds :
    {P : Type 0} (file before count : ℕ)
    → (file < count) ↔ P
    → Bounds (max before file) before count P
one-Bounds file before count f = (
  λ h. let (b, k) = (max-below before file count).0 h in (b, f.0 k),
  λ (b, p). (max-below before file count).1 (b, f.1 p),
)

lines-Bounds :
    (range : AddressRange) (lines : List LineEntry) (before count : ℕ) {result : ℕ}
    → validate_lines range lines before ≡ ok result
    → Bounds result before count (LinesBelow count lines)
unfolding validate_lines
lines-Bounds range [] before count {result = result} h =
    none-Bounds before result count (ok_injective h)
lines-Bounds range (row ∷ lines) before count {result = result} h =
    guard-elim
      (not (ltb row.address range.start || (not (is_empty range) && leb range.end row.address))) _ _
      h
      λ inside h.
        chain result (max before row.file) before count
          (one-Bounds row.file before count (λ k. k, λ k. k))
          (lines-Bounds range lines (max before row.file) count h)

mutual
  unfolding InlineBelow validate_inline

  inline-Bounds :
      (node : InlineNode) (parents : List AddressRange) (depth count : ℕ) {result : ℕ}
      → validate_inline node parents depth ≡ ok result
      → (result < count) ↔ InlineBelow count node
  inline-Bounds (inline_node ranges name call_file call_line nodes) parents depth count h =
      check-elim (check_inline_depth depth) _ h λ deep h.
        guard-elim (not (is_nil ranges)) _ _ h λ full h.
          check-elim (validate_ranges parents none ranges) _ h
            λ sorted h. children-Bounds nodes ranges (saturating_add depth 1) call_file count h

  children-Bounds :
      (nodes : InlineNodes) (parents : List AddressRange) (depth before count : ℕ) {result : ℕ}
      → validate_children nodes parents depth before ≡ ok result
      → Bounds result before count (ChildrenBelow count nodes)
  children-Bounds no_nodes parents depth before count {result = result} h =
      none-Bounds before result count (ok_injective h)
  children-Bounds (with_node child nodes) parents depth before count {result = result} h =
      bind-elim (validate_inline child parents depth) _ h λ file first h.
        chain result (max before file) before count
          (one-Bounds file before count (inline-Bounds child parents depth count first))
          (children-Bounds nodes parents depth (max before file) count h)

some-Bounds :
    (inline : Option InlineNode) (range : AddressRange) (before count : ℕ) {result : ℕ}
    → validate_some_inline inline range before ≡ ok result
    → Bounds result before count (SomeBelow count inline)
some-Bounds none range before count {result = result} h =
    none-Bounds before result count (ok_injective h)
some-Bounds (some node) range before count {result = result} h =
    bind-elim (validate_inline node (range ∷ []) 0) _ h λ file first h.
      subst (λ (r : ℕ). Bounds r before count (InlineBelow count node)) (ok_injective h)
        (one-Bounds file before count (inline-Bounds node (range ∷ []) 0 count first))

later-Bounds :
    {P : Type 0} (file before count : ℕ)
    → Bounds file 0 count P
    → Bounds (max before file) before count P
later-Bounds file before count f = (
  λ h. let (b, k) = (max-below before file count).0 h in (b, (f.0 k).1),
  λ (b, p). (max-below before file count).1 (b, f.1 (omega arith, p)),
)

mutual
  unfolding FilesBelow validate_function_tree

  tree-Bounds :
      (f : Function) (parent : Option AddressRange) (depth count : ℕ) {result : ℕ}
      → validate_function_tree f parent depth ≡ ok result
      → Bounds result 0 count (FilesBelow count f)
  tree-Bounds (function range name lines inline merged call_sites) parent depth count
        {result = result} h =
      check-elim (check_merged_depth depth) _ h λ deep h.
        guard-elim (not (is_nil name)) _ _ h λ named h. guard-elim (is_valid range) _ _ h λ valid h.
          guard-elim (not (ltb u32_max (size range))) _ _ h λ small h.
            guard-elim (matches_parent parent range) _ _ h λ same h.
              bind-elim (validate_lines range lines 0) _ h λ m1 h1 h.
                bind-elim (validate_some_inline inline range m1) _ h λ m2 h2 h.
                  guard-elim
                    (not (
                      any (λ site. not (size range == 0) && leb (size range) site.return_offset)
                        call_sites))
                    _ _ h
                    λ sites h. chain result m1 0 count (lines-Bounds range lines 0 count h1) (
                      chain result m2 m1 count (some-Bounds inline range m1 count h2)
                        (merged-Bounds merged range (saturating_add depth 1) m2 count h))

  merged-Bounds :
      (functions : Functions) (range : AddressRange) (depth before count : ℕ) {result : ℕ}
      → validate_merged functions range depth before ≡ ok result
      → Bounds result before count (MergedBelow count functions)
  merged-Bounds no_functions range depth before count {result = result} h =
      none-Bounds before result count (ok_injective h)
  merged-Bounds (with_function merged functions) range depth before count {result = result} h =
      bind-elim (validate_function_tree merged (some range) depth) _ h λ file first h.
        chain result (max before file) before count
          (later-Bounds file before count (tree-Bounds merged (some range) depth count first))
          (merged-Bounds functions range depth (max before file) count h)

-- A check of one reference, and one check after another.
guard_iff :
    (index count : ℕ) (error : Error) → (guard (ltb index count) error ≡ ok tt) ↔ (index < count)
guard_iff index count error =
    (λ h. ltb→lt index count (guard-true _ error h), λ h. rw (lt→ltb index count h) refl)

then_iff :
    {P Q : Type 0} (first second : Result (Unit {0}))
    → (first ≡ ok tt) ↔ P
    → (second ≡ ok tt) ↔ Q
    → ((first >> second) ≡ ok tt) ↔ (P × Q)
then_iff first second f g =
    (λ h. check-elim first second h (λ a b. (f.0 a, g.0 b)), λ (p, q). rw (f.1 p) (g.1 q))

lines_iff :
    (lines : List LineEntry) (count : ℕ)
    → (validate_line_files lines count ≡ ok tt) ↔ LinesBelow count lines
unfolding validate_line_files
lines_iff [] count = (λ h. tt, λ h. refl)
lines_iff (row ∷ lines) count =
    then_iff (validate_file_index row.file count line) (validate_line_files lines count)
      (guard_iff row.file count (missing_file line)) (lines_iff lines count)

mutual
  unfolding InlineBelow validate_inline_files

  inline_iff :
      (node : InlineNode) (count : ℕ)
      → (validate_inline_files node count ≡ ok tt) ↔ InlineBelow count node
  inline_iff (inline_node ranges name call_file call_line nodes) count =
      then_iff (validate_file_index call_file count inline_call)
        (validate_children_files nodes count) (guard_iff call_file count (missing_file inline_call))
        (children_iff nodes count)

  children_iff :
      (nodes : InlineNodes) (count : ℕ)
      → (validate_children_files nodes count ≡ ok tt) ↔ ChildrenBelow count nodes
  children_iff no_nodes count = (λ h. tt, λ h. refl)
  children_iff (with_node child nodes) count =
      then_iff (validate_inline_files child count) (validate_children_files nodes count)
        (inline_iff child count) (children_iff nodes count)

some_iff :
    (inline : Option InlineNode) (count : ℕ)
    → (validate_some_files inline count ≡ ok tt) ↔ SomeBelow count inline
some_iff none count = (λ h. tt, λ h. refl)
some_iff (some node) count = inline_iff node count

mutual
  unfolding FilesBelow validate_function_files

  files_iff :
      (f : Function) (count : ℕ) → (validate_function_files f count ≡ ok tt) ↔ FilesBelow count f
  files_iff (function range name lines inline merged call_sites) count =
      then_iff (validate_line_files lines count)
        (validate_some_files inline count >> validate_merged_files merged count)
        (lines_iff lines count)
        (then_iff (validate_some_files inline count) (validate_merged_files merged count)
          (some_iff inline count) (merged_iff merged count))

  merged_iff :
      (functions : Functions) (count : ℕ)
      → (validate_merged_files functions count ≡ ok tt) ↔ MergedBelow count functions
  merged_iff no_functions count = (λ h. tt, λ h. refl)
  merged_iff (with_function merged functions) count =
      then_iff (validate_function_files merged count) (validate_merged_files functions count)
        (files_iff merged count) (merged_iff functions count)

-- The index that `validate_for_builder` returns for a function lies in a table that is not empty
-- exactly if `validate_function_files` accepts the function for that table.
pub validate_for_builder-validate_function_files :
    (f : Function) (count : ℕ) {maximum : ℕ}
    → 0 < count
    → validate_for_builder f ≡ ok maximum
    → (maximum < count) ↔ (validate_function_files f count ≡ ok tt)
unfolding validate_for_builder
validate_for_builder-validate_function_files f count some_file h =
    let bounds = tree-Bounds f none 0 count h in
    let iff = files_iff f count in (λ k. iff.1 ((bounds.0 k).1), λ k. bounds.1 (some_file, iff.0 k))
