-- ===== src/Reader/Inline/Frames.antt =====
-- The frames that a scan of the encoded tree collects are those of the decoded tree.
use gsym_rs.Prelude.{
  ℕ, zero, suc, ◌≡◌, refl, ap, ◌∙◌, Bool, true, false, not, ◌&&◌, ◌||◌, Bool-cases, inl, inr, List,
  [], ◌++◌, append-nil, is_nil, if◌then◌else◌,
}
use gsym_rs.Prelude.Words.{saturating_add}
use gsym_rs.Error.{Error, invalid_format, malformed_uleb, ok, err}
use gsym_rs.Model.Range.{AddressRange}
use gsym_rs.Endian.Order.{Endian}
use gsym_rs.Endian.Cursor.{Read, lift, gets, remaining}
use gsym_rs.Format.Function.{
  EncodedInlineNode, EncodedInlineNodes, no_children, with_child, node_ranges, check_inline_depth,
  to_end, whole,
}
use gsym_rs.Format.Function.Decode.{inline_root}
use gsym_rs.Format.Function.Inline.{push_child, children_loop, decode_inline, is_outside}
use gsym_rs.Reader.Inline.{
  RawInlineFrame, next_child, scan_children, scan_inline_node, inline_frames,
}
use gsym_rs.Reader.Inline.Chain.{
  covers, node_frames, child_frames, only, scanned, uncovered, uncovered_nil,
}
use gsym_rs.Reader.Inline.Node.{Simulates-node}
use gsym_rs.Reader.Inline.Simulates.{
  Simulates, Simulates-pure, Simulates-bind, Simulates-both, Simulates-guard, Simulates-cast,
  Simulates-map, Simulates-err, Simulates-to_end, Simulates-whole,
}

module _ (address width : ℕ) where
  -- The frames collected by the loop over the children: those of the first that matches, if none
  -- did before.
  abbrev collected : Bool → Bool → List RawInlineFrame → EncodedInlineNodes → List RawInlineFrame
  collected matched found frames nodes =
      frames ++ only (matched && not found) (child_frames address nodes)

  unfound :
      (matched : Bool) (frames : List RawInlineFrame) (nodes : EncodedInlineNodes)
      → collected matched false frames nodes ≡ frames ++ only matched (child_frames address nodes)
  unfound true frames nodes = refl
  unfound false frames nodes = refl

  one_child :
      (matched found : Bool) (frames : List RawInlineFrame) (child : EncodedInlineNode)
      (nodes : EncodedInlineNodes)
      → collected matched
          (found || ((matched && not found) && covers address (node_ranges child)))
          (frames ++ only (matched && not found) (node_frames address child))
          nodes
        ≡ collected matched found frames (with_child child nodes)
  unfolding child_frames
  one_child false found frames child nodes = append-nil (frames ++ [])
  one_child true true frames child nodes = append-nil (frames ++ [])
  one_child true false frames child nodes = elim (Bool-cases (covers address (node_ranges child))) [
    | inl e ↦ rw e (append-nil (frames ++ node_frames address child))
    | inr e ↦ rw e (
        ap (λ t. (frames ++ t) ++ child_frames address nodes) (uncovered address child e)
        ∙ ap (λ t. t ++ child_frames address nodes) (append-nil frames))
  ]

  no_child :
      (matched found : Bool) (frames : List RawInlineFrame) (child : EncodedInlineNode)
      → is_nil (node_ranges child) ≡ true
      → frames ++ only (matched && not found) (node_frames address child)
        ≡ collected matched found frames no_children
  unfolding child_frames
  no_child false found frames child h = refl
  no_child true true frames child h = refl
  no_child true false frames child h =
      ap (λ t. frames ++ t) (uncovered address child (uncovered_nil address (node_ranges child) h))

  Simulates-next :
      (matched found : Bool) (frames : List RawInlineFrame) (child : EncodedInlineNode)
      (parent : List AddressRange) {again : Read EncodedInlineNodes}
      {again' : Bool → List RawInlineFrame → Read (List RawInlineFrame)}
      → ((found' : Bool) (frames' : List RawInlineFrame)
          → Simulates again (again' found' frames') (collected matched found' frames'))
      → Simulates
          (push_child again parent child)
          (next_child again' found (scanned address (matched && not found) frames child))
          (collected matched found frames)
  unfolding push_child next_child
  Simulates-next matched found frames child parent h =
      elim (Bool-cases (is_nil (node_ranges child))) [
        | inl e ↦ rw e (Simulates-pure no_children (no_child matched found frames child e))
        | inr e ↦ rw e (
            inside (is_outside parent (node_ranges child)) _ (
              Simulates-map (λ nodes. with_child child nodes)
                (Simulates-cast (one_child matched found frames child) (h _ _))))
      ]
    where
      inside :
          (outside : Bool) {m : Read EncodedInlineNodes} {n : Read (List RawInlineFrame)}
          {f : EncodedInlineNodes → List RawInlineFrame} (e : Error)
          → Simulates m n f
          → Simulates (if outside then lift (err e) else m) n f
      inside true e s = Simulates-err e
      inside false e s = s

  Simulates-loop :
      (fuel depth : ℕ) (parent : List AddressRange) (base : ℕ) (matched found : Bool)
      (frames : List RawInlineFrame)
      → Simulates
          (children_loop fuel width depth parent base)
          (scan_children fuel width address depth base matched found frames)
          (collected matched found frames)
  unfolding children_loop scan_children
  Simulates-loop zero depth parent base matched found frames =
      Simulates-both (lift (check_inline_depth depth)) (λ _.
        Simulates-both (gets (λ c. c.position))
          {k' = λ (x : ℕ). lift (err (malformed_uleb x "unterminated sequence"))}
          (λ x. Simulates-err (malformed_uleb x "unterminated sequence")))
  Simulates-loop (suc fuel) depth parent base matched found frames =
      Simulates-bind _
        (Simulates-node address width
          (λ parent' base' matched' frames'.
            Simulates-cast (unfound matched' frames')
              (Simulates-loop fuel (saturating_add depth 1) parent' base' matched' false frames'))
          base (matched && not found) frames depth)
        (λ child.
          Simulates-next matched found frames child parent
            (λ found' frames'. Simulates-loop fuel depth parent base matched found' frames'))

  Simulates-decode :
      (base depth : ℕ) (collect : Bool) (frames : List RawInlineFrame)
      → Simulates
          (decode_inline width base depth)
          (scan_inline_node width address base depth collect frames)
          (scanned address collect frames)
  unfolding decode_inline scan_inline_node
  Simulates-decode base depth collect frames = Simulates-both (gets remaining) (λ left.
      Simulates-node address width
        (λ parent' base' matched' frames'.
          Simulates-cast (unfound matched' frames')
            (Simulates-loop left (saturating_add depth 1) parent' base' matched' false frames'))
        base collect frames depth)

-- On every inline payload that decodes, the scan succeeds, and the frames that it collects are those
-- of the decoded tree at the address.
pub inline_frames-node_frames :
    (width address start : ℕ) (payload : List ℕ) (endian : Endian) {node : EncodedInlineNode}
    → whole
        (to_end (invalid_format "trailing inline-info bytes") (inline_root width start))
        payload
        endian
      ≡ ok node
    → inline_frames width address start payload endian ≡ ok (node_frames address node)
unfolding inline_frames inline_root
inline_frames-node_frames width address start payload endian {node = node} h =
    Simulates-whole payload endian
      (Simulates-to_end _ _ (
        Simulates-bind _ (Simulates-decode address width start 0 true []) (λ node.
          Simulates-guard (not (is_nil (node_ranges node))) _ _ (Simulates-pure node refl))))
      h
