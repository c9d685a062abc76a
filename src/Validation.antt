-- ===== src/Validation.antt =====
-- src/validation.rs: the checks of a builder's functions and of their file references.
pub mod Files
use gsym_rs.Prelude.{
  ℕ, ◌-◌, ◌<◌, max, Bool, true, false, not, ◌&&◌, ◌||◌, List, [], ◌∷◌, Option, none, some, ltb, leb,
  ◌==◌, any, is_nil,
}
use gsym_rs.Prelude.Words.{u32_max, saturating_add}
use gsym_rs.Error.{invalid_model, limit, Error, Result, ok, err, guard, ◌>>=◌, ◌>>◌}
use gsym_rs.Model.{LineEntry, FileEntry}
use gsym_rs.Model.Range.{AddressRange, size, is_valid, is_empty, contains_range}
use gsym_rs.Model.Function.{
  InlineNode, inline_node, InlineNodes, no_nodes, with_node, CallSite, Function, function,
  Functions, no_functions, with_function,
}
use gsym_rs.Format.Function.{check_inline_depth, check_merged_depth}

unfoldable pub validate_file_table : List FileEntry → Result (Unit {0})
validate_file_table [] = err (invalid_model "file-table index zero must be empty")
validate_file_table (file ∷ files) =
    guard (is_nil file.directory && is_nil file.basename)
      (invalid_model "file-table index zero must be empty")

pub data FileReferenceKind : Type 0 where
  line inline_call : FileReferenceKind

abbrev pub missing_file : FileReferenceKind → Error
missing_file line = invalid_model "line references a missing file"
missing_file inline_call = invalid_model "inline call site references a missing file"

abbrev pub validate_file_index : (index file_count : ℕ) → FileReferenceKind → Result (Unit {0})
validate_file_index index file_count kind = guard (ltb index file_count) (missing_file kind)

unfoldable mutual
  pub validate_inline_files : InlineNode → ℕ → Result (Unit {0})
  validate_inline_files (inline_node ranges name call_file call_line children) file_count =
      validate_file_index call_file file_count inline_call
      >> validate_children_files children file_count

  pub validate_children_files : InlineNodes → ℕ → Result (Unit {0})
  validate_children_files no_nodes file_count = ok tt
  validate_children_files (with_node child children) file_count =
      validate_inline_files child file_count >> validate_children_files children file_count

unfoldable pub validate_line_files : List LineEntry → ℕ → Result (Unit {0})
validate_line_files [] file_count = ok tt
validate_line_files (row ∷ lines) file_count =
    validate_file_index row.file file_count line >> validate_line_files lines file_count

abbrev pub validate_some_files : Option InlineNode → ℕ → Result (Unit {0})
validate_some_files none file_count = ok tt
validate_some_files (some node) file_count = validate_inline_files node file_count

unfoldable mutual
  unfolding validate_line_files validate_inline_files

  pub validate_function_files : Function → ℕ → Result (Unit {0})
  validate_function_files (function range name lines inline merged call_sites) file_count = do
    validate_line_files lines file_count
    validate_some_files inline file_count
    validate_merged_files merged file_count

  pub validate_merged_files : Functions → ℕ → Result (Unit {0})
  validate_merged_files no_functions file_count = ok tt
  validate_merged_files (with_function merged functions) file_count =
      validate_function_files merged file_count >> validate_merged_files functions file_count

-- The loop over the rows, with the largest file index so far.
unfoldable pub validate_lines : AddressRange → List LineEntry → ℕ → Result ℕ
validate_lines range [] maximum_file = ok maximum_file
validate_lines range (row ∷ lines) maximum_file = do
  guard (not (ltb row.address range.start || (not (is_empty range) && leb range.end row.address)))
      (invalid_model "line address is outside its function")
  validate_lines range lines (max maximum_file row.file)

abbrev pub is_sorted_after : Option ℕ → ℕ → Bool
is_sorted_after none start = true
is_sorted_after (some end) start = not (ltb start end)

-- The loop over the ranges of a node.
unfoldable pub validate_ranges :
    (parents : List AddressRange) → Option ℕ → List AddressRange → Result (Unit {0})
validate_ranges parents previous_end [] = ok tt
validate_ranges parents previous_end (range ∷ ranges) = do
  guard
      (not (
        not (is_valid range)
        || is_empty range
        || not (any (λ parent. contains_range parent range) parents)))
      (invalid_model "inline range is empty, reversed, or outside its parent")
  guard (is_sorted_after previous_end range.start)
      (invalid_model "inline ranges overlap or are not sorted")
  validate_ranges parents (some range.end) ranges

unfoldable mutual
  unfolding validate_ranges

  pub validate_inline : InlineNode → List AddressRange → (depth : ℕ) → Result ℕ
  validate_inline (inline_node ranges name call_file call_line children) parents depth = do
    check_inline_depth depth
    guard (not (is_nil ranges)) (invalid_model "inline node must contain a range")
    validate_ranges parents none ranges
    validate_children children ranges (saturating_add depth 1) call_file

  -- The loop over the children, with the largest file index so far.
  pub validate_children : InlineNodes → List AddressRange → (depth : ℕ) → ℕ → Result ℕ
  validate_children no_nodes parents depth maximum_file = ok maximum_file
  validate_children (with_node child children) parents depth maximum_file = do
    file ← validate_inline child parents depth
    validate_children children parents depth (max maximum_file file)

abbrev pub validate_some_inline : Option InlineNode → AddressRange → ℕ → Result ℕ
validate_some_inline none range maximum_file = ok maximum_file
validate_some_inline (some node) range maximum_file =
    validate_inline node (range ∷ []) 0 >>= λ file. ok (max maximum_file file)

abbrev pub is_same_range : AddressRange → AddressRange → Bool
is_same_range left right = left.start == right.start && left.end == right.end

abbrev pub matches_parent : Option AddressRange → AddressRange → Bool
matches_parent none range = true
matches_parent (some parent) range = is_same_range range parent

unfoldable mutual
  unfolding validate_lines validate_inline

  pub validate_function_tree : Function → Option AddressRange → (depth : ℕ) → Result ℕ
  validate_function_tree (function range name lines inline merged call_sites) merged_parent depth =
      do
        check_merged_depth depth
        guard (not (is_nil name)) (invalid_model "function name must not be empty")
        guard (is_valid range) (invalid_model "function range end precedes its start")
        guard (not (ltb u32_max (size range))) (limit "function size" (size range) u32_max)
        guard (matches_parent merged_parent range)
            (invalid_model "merged function range differs from its parent")
        maximum_file ← validate_lines range lines 0
        maximum_file ← validate_some_inline inline range maximum_file
        guard
            (not (
              any (λ site. not (size range == 0) && leb (size range) site.return_offset)
                call_sites))
            (invalid_model "call-site return offset is outside its function")
        validate_merged merged range (saturating_add depth 1) maximum_file

  -- The loop over the merged functions, with the largest file index so far.
  pub validate_merged : Functions → AddressRange → (depth : ℕ) → ℕ → Result ℕ
  validate_merged no_functions range depth maximum_file = ok maximum_file
  validate_merged (with_function merged functions) range depth maximum_file = do
    file ← validate_function_tree merged (some range) depth
    validate_merged functions range depth (max maximum_file file)

unfoldable pub validate_for_builder : Function → Result ℕ
unfolding validate_function_tree
validate_for_builder f = validate_function_tree f none 0
