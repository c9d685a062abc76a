-- ===== src/Format/Function/RoundTrip/Inline.antt =====
-- Inline trees are read back.
use gsym_rs.Prelude.{
  ℕ, zero, suc, ◌+◌, ◌≤◌, ◌≡◌, refl, Bool, true, false, not, List, [], ◌∷◌, length, All, ◌==◌,
  if◌then◌else◌, arith, is_nil,
}
use mathlib.Core.Path.{subst}
use gsym_rs.Prelude.Words.{IsU32, IsU64, try_u32, saturating_add}
use gsym_rs.Error.{ok, ok_or, bind-elim, guard-elim, check-elim, ok_injective}
use gsym_rs.Model.Range.{AddressRange}
use gsym_rs.Endian.Cursor.{Read, pure, read_u8, read_uint}
use gsym_rs.Endian.Encoder.{Encoder, len, write_u8, write_uint}
use gsym_rs.Endian.Encoder.Appends.{
  Appends, Appends-pure, Appends-bind, Appends-check, Appends-remaining, Appends-u8, Appends-uint,
  len-write_u8,
}
use gsym_rs.Format.Leb.{read_uleb, write_uleb}
use gsym_rs.Format.Function.{
  EncodedInlineNode, encoded_inline_node, EncodedInlineNodes, no_children, with_child, node_ranges,
  check_inline_depth,
}
use gsym_rs.Format.Function.Ranges.{decode_ranges}
use gsym_rs.Format.Function.Inline.{
  is_outside, inline_body, inline_node, push_child, children_loop, decode_inline,
}
use gsym_rs.Format.Function.Encode.{
  encode_ranges, has_children, bool_byte, write_end, encode_inline, encode_children,
}
use gsym_rs.Format.Function.RoundTrip.Ranges.{Appends-uleb, len-write_uleb, IsWord, ranges-Appends}
use gsym_rs.Format.Function.RoundTrip.CallSites.{len-write_uint}

-- A tree whose fields fit their types.
unfoldable mutual
  pub IsNode : EncodedInlineNode → Type 0
  IsNode (encoded_inline_node ranges name call_file call_line children) =
      All IsWord ranges
      × IsU64 (length ranges)
      × IsU64 name
      × IsU32 call_file
      × IsU32 call_line
      × AreNodes children

  pub AreNodes : EncodedInlineNodes → Type 0
  AreNodes no_children = Unit
  AreNodes (with_child child children) = IsNode child × AreNodes children

abbrev Children : Type 0
Children = List AddressRange → ℕ → Read EncodedInlineNodes

-- What is written behind the ranges of a node and before its children.
body-Appends :
    (read : Children) (first : AddressRange) (others : List AddressRange)
    (name call_file call_line width : ℕ) (children : EncodedInlineNodes) (out mid : Encoder)
    {out' : Encoder}
    → IsU64 name
    → IsU32 call_file
    → IsU32 call_line
    → write_uint name width (write_u8 (bool_byte (has_children children)) out) ≡ ok mid
    → Appends
        (if bool_byte (has_children children) == 0
          then pure no_children
          else read (first ∷ others) first.start)
        children
        (write_uleb call_line (write_uleb call_file mid))
        out'
    → Appends
        (inline_body read width (first ∷ others))
        (encoded_inline_node (first ∷ others) name call_file call_line children)
        out
        out'
unfolding inline_body
body-Appends read first others name call_file call_line width children out mid {out' = out'} hn hf
      hl wrote more =
    let byte = bool_byte (has_children children) in
    Appends-bind {m = read_u8} _ (Appends-u8 out byte) (
      Appends-bind {m = read_uint width} _ (Appends-uint (write_u8 byte out) name width hn wrote) (
        Appends-bind {m = read_uleb} _ (Appends-uleb call_file mid (omega arith)) (
          Appends-bind {m = read_uleb} _
            (Appends-uleb call_line (write_uleb call_file mid) (omega arith))
            (Appends-check (ok_or (try_u32 call_file) _) _ call_file (ground arith) (
              Appends-check (ok_or (try_u32 call_line) _) _ call_line (ground arith) (
                Appends-bind
                  {m = if byte == 0 then pure no_children else read (first ∷ others) first.start} _
                  more
                  (Appends-pure
                    (encoded_inline_node (first ∷ others) name call_file call_line children)
                    out')))))))

-- A node that was written takes a byte at least, and is read back on every fuel that covers it.
abbrev NodeReads : (width base depth : ℕ) → EncodedInlineNode → Encoder → Encoder → Type 0
NodeReads width base depth node out out' =
    (len out + 1 ≤ len out')
    × ((fuel : ℕ)
        → len out' ≤ len out + suc fuel
        → Appends (inline_node (children_loop fuel width (saturating_add depth 1)) width base depth)
            node out out')

-- The same for children and the end behind them.
abbrev ChildrenRead :
    (width depth : ℕ) → List AddressRange → ℕ → EncodedInlineNodes → Encoder → Encoder → Type 0
ChildrenRead width depth parent base children out out' =
    (len out ≤ len out')
    × ((fuel : ℕ)
        → check_inline_depth depth ≡ ok tt
        → len (write_uleb 0 out') ≤ len out + fuel
        → Appends (children_loop fuel width depth parent base) children out (write_uleb 0 out'))

-- The empty node that ends the children.
end-Appends :
    (fuel width depth : ℕ) (parent : List AddressRange) (base : ℕ) (out : Encoder)
    → check_inline_depth depth ≡ ok tt
    → len (write_uleb 0 out) ≤ len out + fuel
    → Appends (children_loop fuel width depth parent base) no_children out (write_uleb 0 out)
unfolding children_loop inline_node inline_body push_child encode_ranges
end-Appends zero width depth parent base out deep fits =
    absurd (omega (arith, len-write_uleb 0 out))
end-Appends (suc fuel) width depth parent base out deep fits =
    Appends-bind
      {m = inline_node (children_loop fuel width (saturating_add depth 1)) width base depth} _
      (Appends-check (check_inline_depth depth) _ tt deep (
        Appends-bind {m = decode_ranges base} _
          ((ranges-Appends base [] out tt (omega arith) refl).0)
          (Appends-pure _ (write_uleb 0 out))))
      (Appends-pure no_children (write_uleb 0 out))

inline-depth :
    (node : EncodedInlineNode) (out : Encoder) (width base depth : ℕ) {out' : Encoder}
    → encode_inline node out width base depth ≡ ok out'
    → check_inline_depth depth ≡ ok tt
unfolding encode_inline
inline-depth (encoded_inline_node [] _ _ _ _) out width base depth h =
    check-elim (check_inline_depth depth) _ h λ deep h. deep
inline-depth (encoded_inline_node (first ∷ others) _ _ _ _) out width base depth h =
    check-elim (check_inline_depth depth) _ h λ deep h. deep

-- The children of a node with the byte that announces them.
announced-Appends :
    (fuel width depth : ℕ) (parent : List AddressRange) (base : ℕ) (children : EncodedInlineNodes)
    (out : Encoder) {out' : Encoder}
    → encode_children children out width parent base depth ≡ ok out'
    → ChildrenRead width depth parent base children out out'
    → len (write_end (has_children children) out') ≤ len out + fuel
    → Appends
        (if bool_byte (has_children children) == 0
          then pure no_children
          else children_loop fuel width depth parent base)
        children
        out
        (write_end (has_children children) out')
unfolding encode_inline
announced-Appends fuel width depth parent base no_children out h reads fits =
    subst (λ (o : Encoder). Appends (pure no_children) no_children out o) (ok_injective h)
      (Appends-pure no_children out)
announced-Appends fuel width depth parent base (with_child child nodes) out h reads fits =
    guard-elim (not (is_outside parent (node_ranges child))) _ _ h λ inside h.
      bind-elim (encode_inline child out width base depth) _ h
        λ mid wrote h. reads.1 fuel (inline-depth child out width base depth wrote) fits

-- What the loop does with a child that lies in its parent.
push-Appends :
    (again : Read EncodedInlineNodes) (parent : List AddressRange) (child : EncodedInlineNode)
    (nodes : EncodedInlineNodes) (mid : Encoder) {out' : Encoder}
    → is_nil (node_ranges child) ≡ false
    → not (is_outside parent (node_ranges child)) ≡ true
    → Appends again nodes mid out'
    → Appends (push_child again parent child) (with_child child nodes) mid out'
unfolding push_child
push-Appends again parent child nodes mid {out' = out'} full inside more =
    rw (full, is_false (is_outside parent (node_ranges child)) inside)
      (Appends-bind {m = again} _ more (Appends-pure (with_child child nodes) out'))
  where
    is_false : (b : Bool) → not b ≡ true → b ≡ false
    is_false b h = ground arith

pub inline-full :
    (node : EncodedInlineNode) (out : Encoder) (width base depth : ℕ) {out' : Encoder}
    → encode_inline node out width base depth ≡ ok out'
    → is_nil (node_ranges node) ≡ false
unfolding encode_inline
inline-full (encoded_inline_node [] _ _ _ _) out width base depth h =
    check-elim (check_inline_depth depth) _ h λ deep h. cc
inline-full (encoded_inline_node (first ∷ others) _ _ _ _) out width base depth h = refl

-- One round of the loop over the children.
round-Appends :
    (fuel width depth : ℕ) (parent : List AddressRange) (base : ℕ) (child : EncodedInlineNode)
    (nodes : EncodedInlineNodes) (out mid out' : Encoder)
    → is_nil (node_ranges child) ≡ false
    → not (is_outside parent (node_ranges child)) ≡ true
    → NodeReads width base depth child out mid
    → ChildrenRead width depth parent base nodes mid out'
    → check_inline_depth depth ≡ ok tt
    → len (write_uleb 0 out') ≤ len out + fuel
    → Appends
        (children_loop fuel width depth parent base)
        (with_child child nodes)
        out
        (write_uleb 0 out')
unfolding children_loop
round-Appends zero width depth parent base child nodes out mid out' full inside first later deep
      fits =
    absurd (omega (arith, first.0, later.0, len-write_uleb 0 out'))
round-Appends (suc fuel) width depth parent base child nodes out mid out' full inside first later
      deep fits =
    Appends-bind
      {m = inline_node (children_loop fuel width (saturating_add depth 1)) width base depth} _
      (first.1 fuel (omega (arith, later.0, len-write_uleb 0 out')))
      (push-Appends (children_loop fuel width depth parent base) parent child nodes mid full inside
        (later.1 fuel deep (omega (arith, first.0))))

len-write_end : (b : Bool) (out : Encoder) → len out ≤ len (write_end b out)
len-write_end true out = omega (arith, len-write_uleb 0 out)
len-write_end false out = omega arith

mutual
  unfolding IsNode encode_inline inline_node children_loop

  pub node-Appends :
      (width base depth : ℕ) (node : EncodedInlineNode) (out : Encoder) {out' : Encoder}
      → IsNode node
      → encode_inline node out width base depth ≡ ok out'
      → NodeReads width base depth node out out'
  node-Appends width base depth (encoded_inline_node [] name call_file call_line nodes) out fits h =
      check-elim (check_inline_depth depth) _ h λ deep h. cc
  node-Appends width base depth
        (encoded_inline_node (first ∷ others) name call_file call_line nodes) out {out' = out'}
        (fr, fc, fn, ff, fl, fs) h =
      check-elim (check_inline_depth depth) _ h λ deep h.
        bind-elim (encode_ranges (first ∷ others) out base) _ h λ o1 wrote1 h.
          bind-elim (write_uint name width (write_u8 (bool_byte (has_children nodes)) o1)) _ h
            λ o2 wrote2 h.
              bind-elim
                (encode_children nodes (write_uleb call_line (write_uleb call_file o2)) width
                  (first ∷ others) first.start (saturating_add depth 1))
                _ h
                λ o3 wrote3 h.
                  let start = write_uleb call_line (write_uleb call_file o2) in
                  let reads =
                    children-Appends width (saturating_add depth 1) (first ∷ others) first.start
                      nodes start fs wrote3 in
                  let (ranges, one) = ranges-Appends base (first ∷ others) out fr fc wrote1 in
                  let room : (len out + 1 ≤ len o1) × (len o1 ≤ len start) = (
                    one,
                    omega (
                      arith,
                      len-write_u8 (bool_byte (has_children nodes)) o1,
                      len-write_uint name width (write_u8 (bool_byte (has_children nodes)) o1) fn
                          wrote2,
                      len-write_uleb call_file o2,
                      len-write_uleb call_line (write_uleb call_file o2),
                    ),
                  ) in
                  subst
                    (λ (o : Encoder).
                      NodeReads width base depth
                        (encoded_inline_node (first ∷ others) name call_file call_line nodes) out o)
                    (ok_injective h)
                    (
                      omega (arith, room.0, room.1, reads.0, len-write_end (has_children nodes) o3),
                      λ fuel enough. Appends-check (check_inline_depth depth) _ tt deep (
                          Appends-bind {m = decode_ranges base} _ ranges (
                            body-Appends (children_loop fuel width (saturating_add depth 1)) first
                              others name call_file call_line width nodes o1 o2 fn ff fl wrote2
                              (announced-Appends fuel width (saturating_add depth 1)
                                (first ∷ others) first.start nodes start wrote3 reads
                                (omega (arith, room.0, room.1))))),
                    )

  children-Appends :
      (width depth : ℕ) (parent : List AddressRange) (base : ℕ) (nodes : EncodedInlineNodes)
      (out : Encoder) {out' : Encoder}
      → AreNodes nodes
      → encode_children nodes out width parent base depth ≡ ok out'
      → ChildrenRead width depth parent base nodes out out'
  children-Appends width depth parent base no_children out fits h =
      subst (λ (o : Encoder). ChildrenRead width depth parent base no_children out o)
        (ok_injective h)
        (omega arith, λ fuel deep room. end-Appends fuel width depth parent base out deep room)
  children-Appends width depth parent base (with_child child nodes) out {out' = out'} (fit, fits)
        h =
      guard-elim (not (is_outside parent (node_ranges child))) _ _ h λ inside h.
        bind-elim (encode_inline child out width base depth) _ h λ mid wrote h.
          let first = node-Appends width base depth child out fit wrote in
          let later = children-Appends width depth parent base nodes mid fits h in
          (
            omega (arith, first.0, later.0),
            λ fuel deep room.
                round-Appends fuel width depth parent base child nodes out mid out'
                  (inline-full child out width base depth wrote) inside first later deep room,
          )

pub inline-Appends :
    (width base depth : ℕ) (node : EncodedInlineNode) (out : Encoder) {out' : Encoder}
    → IsNode node
    → encode_inline node out width base depth ≡ ok out'
    → Appends (decode_inline width base depth) node out out'
unfolding decode_inline
inline-Appends width base depth node out fits h =
    let reads = node-Appends width base depth node out fits h in
    Appends-remaining
      (λ left. inline_node (children_loop left width (saturating_add depth 1)) width base depth)
      (λ left enough. reads.1 left (omega arith))
