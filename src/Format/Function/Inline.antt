-- ===== src/Format/Function/Inline.antt =====
-- src/format/function.rs: `decode_inline`.
use gsym_rs.Prelude.{ℕ, zero, suc, Bool, not, List, [], ◌∷◌, ◌==◌, if◌then◌else◌, any, is_nil}
use gsym_rs.Prelude.Words.{try_u32, u32_max, saturating_add}
use gsym_rs.Error.{out_of_range, invalid_format, malformed_uleb, err, ok_or}
use gsym_rs.Model.Range.{AddressRange, contains_range}
use gsym_rs.Endian.Cursor.{Read, ◌>>=◌, ◌>>◌, pure, lift, gets, remaining, read_u8, read_uint}
use gsym_rs.Format.Leb.{read_uleb}
use gsym_rs.Format.Function.{
  EncodedInlineNode, encoded_inline_node, EncodedInlineNodes, no_children, with_child, node_ranges,
  default_node, check_inline_depth,
}
use gsym_rs.Format.Function.Ranges.{decode_ranges}

-- `child.ranges.iter().any(|range| !parent.iter().any(|parent| parent.contains_range(*range)))`.
abbrev pub is_outside : List AddressRange → List AddressRange → Bool
is_outside parent ranges = any (λ range. not (any (λ p. contains_range p range) parent)) ranges

-- What follows the ranges of a node. `children` reads the children inside its ranges, from the start
-- of the first.
unfoldable pub inline_body :
    (children : List AddressRange → ℕ → Read EncodedInlineNodes) (width : ℕ)
    → List AddressRange
    → Read EncodedInlineNode
inline_body children width [] = pure default_node
inline_body children width (first ∷ others) = do
  has_children ← read_u8
  name ← read_uint width
  call_file ← read_uleb
  call_line ← read_uleb
  file ← lift (ok_or (try_u32 call_file) (out_of_range "inline call-file index" call_file u32_max))
  line ← lift (ok_or (try_u32 call_line) (out_of_range "inline call-line" call_line u32_max))
  nodes ← if has_children == 0 then pure no_children else children (first ∷ others) first.start
  pure (encoded_inline_node (first ∷ others) name file line nodes)

-- `decode_inline`, with the loop over the children as an argument.
unfoldable pub inline_node :
    (children : List AddressRange → ℕ → Read EncodedInlineNodes) (width base depth : ℕ)
    → Read EncodedInlineNode
unfolding inline_body
inline_node children width base depth = do
  lift (check_inline_depth depth)
  ranges ← decode_ranges base
  inline_body children width ranges

-- What the loop does with a child: an empty one ends it, and `again` reads the others.
unfoldable pub push_child :
    (again : Read EncodedInlineNodes)
    → List AddressRange
    → EncodedInlineNode
    → Read EncodedInlineNodes
push_child again parent child =
    if is_nil (node_ranges child)
    then pure no_children
    else if is_outside parent (node_ranges child)
    then lift (err (invalid_format "inline child range is outside its parent"))
    else do children ← again; pure (with_child child children)

-- The loop over the children, with the bytes that are left as its fuel: each child takes one at
-- least, and where no byte is left, it reads no child.
unfoldable pub children_loop :
    (fuel : ℕ) (width : ℕ) (depth : ℕ) → List AddressRange → ℕ → Read EncodedInlineNodes
unfolding push_child
children_loop zero width depth parent base = do
  lift (check_inline_depth depth)
  offset ← gets (λ c. c.position)
  lift (err (malformed_uleb offset "unterminated sequence"))
children_loop (suc fuel) width depth parent base = do
  child ← inline_node (children_loop fuel width (saturating_add depth 1)) width base depth
  push_child (children_loop fuel width depth parent base) parent child

unfoldable pub decode_inline : (width base depth : ℕ) → Read EncodedInlineNode
unfolding inline_node children_loop
decode_inline width base depth = do
  left ← gets remaining
  inline_node (children_loop left width (saturating_add depth 1)) width base depth
