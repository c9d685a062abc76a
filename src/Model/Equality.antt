-- ===== src/Model/Equality.antt =====
-- src/model.rs: the derived `PartialEq` of the function model.
use gsym_rs.Prelude.{Bool, true, false, ◌&&◌, List, [], ◌∷◌, Option, none, some, ◌==◌}
use gsym_rs.Model.{LineEntry}
use gsym_rs.Model.Range.{AddressRange}
use gsym_rs.Model.Function.{
  InlineNode, inline_node, InlineNodes, no_nodes, with_node, CallSite, Function, function,
  Functions, no_functions, with_function,
}

unfoldable pub eq_list {ℓ} : {A : Type ℓ} → (A → A → Bool) → List A → List A → Bool
eq_list eq [] [] = true
eq_list eq [] (y ∷ ys) = false
eq_list eq (x ∷ xs) [] = false
eq_list eq (x ∷ xs) (y ∷ ys) = eq x y && eq_list eq xs ys

abbrev pub eq_range : AddressRange → AddressRange → Bool
eq_range left right = left.start == right.start && left.end == right.end

abbrev pub eq_line : LineEntry → LineEntry → Bool
eq_line left right =
    left.address == right.address && (left.file == right.file && left.line == right.line)

abbrev pub eq_call_site : CallSite → CallSite → Bool
eq_call_site left right =
    left.return_offset == right.return_offset
    && (left.flags == right.flags && eq_list (eq_list ◌==◌) left.match_regex right.match_regex)

unfoldable mutual
  unfolding eq_list

  pub eq_node : InlineNode → InlineNode → Bool
  eq_node (inline_node ranges name call_file call_line nodes)
        (inline_node ranges' name' call_file' call_line' nodes') =
      eq_list eq_range ranges ranges'
      && (eq_list ◌==◌ name name'
          && (call_file == call_file' && (call_line == call_line' && eq_nodes nodes nodes')))

  pub eq_nodes : InlineNodes → InlineNodes → Bool
  eq_nodes no_nodes no_nodes = true
  eq_nodes no_nodes (with_node _ _) = false
  eq_nodes (with_node _ _) no_nodes = false
  eq_nodes (with_node node nodes) (with_node node' nodes') =
      eq_node node node' && eq_nodes nodes nodes'

abbrev pub eq_inline : Option InlineNode → Option InlineNode → Bool
eq_inline none none = true
eq_inline none (some _) = false
eq_inline (some _) none = false
eq_inline (some node) (some node') = eq_node node node'

unfoldable mutual
  unfolding eq_list eq_node

  pub eq_function : Function → Function → Bool
  eq_function (function range name lines inline merged sites)
        (function range' name' lines' inline' merged' sites') =
      eq_range range range'
      && (eq_list ◌==◌ name name'
          && (eq_list eq_line lines lines'
              && (eq_inline inline inline'
                  && (eq_functions merged merged' && eq_list eq_call_site sites sites'))))

  pub eq_functions : Functions → Functions → Bool
  eq_functions no_functions no_functions = true
  eq_functions no_functions (with_function _ _) = false
  eq_functions (with_function _ _) no_functions = false
  eq_functions (with_function f fs) (with_function g gs) = eq_function f g && eq_functions fs gs
