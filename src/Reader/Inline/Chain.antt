-- ===== src/Reader/Inline/Chain.antt =====
-- The chain of inlined calls at an address, as a function of the decoded tree.
use gsym_rs.Prelude.{
  ℕ, ◌≡◌, refl, Bool, true, false, not, ◌&&◌, List, [], ◌∷◌, ◌++◌, any, is_nil, ◌==◌, if◌then◌else◌,
}
use gsym_rs.Model.Range.{AddressRange, contains}
use gsym_rs.Format.Function.{
  EncodedInlineNode, encoded_inline_node, EncodedInlineNodes, no_children, with_child, node_ranges,
}
use gsym_rs.Reader.Inline.{RawInlineFrame, Scanned}

-- Whether one of the ranges contains the address.
abbrev pub covers : ℕ → List AddressRange → Bool
covers address ranges = any (λ r. contains r address) ranges

-- The start of the first range.
abbrev pub first_start : List AddressRange → ℕ
first_start [] = 0
first_start (first ∷ others) = first.start

-- A node without a name has no frame.
abbrev pub own_frame : (name file line start : ℕ) → List RawInlineFrame
own_frame name file line start =
    if name == 0
    then []
    else record { name = name; call_file = file; call_line = line; start = start } ∷ []

-- The chain of inlined calls at an address, outermost first: a node that covers the address, and
-- below it the first child that does.
unfoldable mutual
  pub node_frames : ℕ → EncodedInlineNode → List RawInlineFrame
  node_frames address (encoded_inline_node ranges name file line children) =
      if covers address ranges
      then own_frame name file line (first_start ranges) ++ child_frames address children
      else []

  pub child_frames : ℕ → EncodedInlineNodes → List RawInlineFrame
  child_frames address no_children = []
  child_frames address (with_child child children) =
      if covers address (node_ranges child)
      then node_frames address child
      else child_frames address children

abbrev pub only : Bool → List RawInlineFrame → List RawInlineFrame
only test frames = if test then frames else []

-- What the scan of a node returns, from the node.
abbrev pub scanned : ℕ → Bool → List RawInlineFrame → EncodedInlineNode → Scanned
scanned address collect frames node = record {
  present = not (is_nil (node_ranges node));
  matched = collect && covers address (node_ranges node);
  frames = frames ++ only collect (node_frames address node);
}

module _ (address : ℕ) where
  -- A node whose ranges do not cover the address has no frames.
  pub uncovered :
      (child : EncodedInlineNode)
      → covers address (node_ranges child) ≡ false
      → node_frames address child ≡ []
  unfolding node_frames
  uncovered (encoded_inline_node ranges name file line nodes) h = rw h refl

  pub uncovered_nil :
      (ranges : List AddressRange) → is_nil ranges ≡ true → covers address ranges ≡ false
  uncovered_nil [] h = refl
  uncovered_nil (r ∷ rs) h = cc
