-- ===== src/Format/Function/Encode.antt =====
-- src/format/function.rs: `encode_into`, with what it writes in each record.
use gsym_rs.Prelude.{
  ℕ, suc, String, ◌-◌, Bool, true, false, not, ◌||◌, List, [], ◌∷◌, length, Option, none, some, ltb,
  ◌==◌,
}
use gsym_rs.Prelude.Words.{try_u32, u32_max, checked_sub, saturating_add}
use gsym_rs.Error.{
  overflow, invalid_model, limit, zero_name_offset, Result, ok, err, ok_or, guard, ◌>>=◌, ◌>>◌,
}
use gsym_rs.Model.Range.{AddressRange}
use gsym_rs.Endian.Encoder.{
  Encoder, len, write_u8, write_u32, write_u64, write_uint, align_to, patch_u32,
}
use gsym_rs.Format.{info_end, info_line_table, info_inline, info_merged, info_call_site}
use gsym_rs.Format.Leb.{write_uleb}
use gsym_rs.Format.Line.Encode as Line
use gsym_rs.Format.Function.{
  string_offset_width, check_inline_depth, check_merged_depth, EncodedInlineNode,
  encoded_inline_node, EncodedInlineNodes, no_children, with_child, node_ranges, EncodedCallSite,
  EncodedFunction, encoded_function, EncodedFunctions, no_merged, with_merged,
}
use gsym_rs.Format.Function.Ranges.{follows}
use gsym_rs.Format.Function.Inline.{is_outside}

-- `u32::try_from(value)`, with the limit as its error.
abbrev pub u32_or_limit : ℕ → String → Result ℕ
u32_or_limit value context = ok_or (try_u32 value) (limit context value u32_max)

-- The `for` loop of `encode_ranges`.
unfoldable pub encode_ranges_loop :
    (base : ℕ) → Option AddressRange → List AddressRange → Encoder → Result Encoder
encode_ranges_loop base previous [] output = ok output
encode_ranges_loop base previous (range ∷ ranges) output = do
  guard (not (ltb range.start base || ltb range.end range.start))
      (invalid_model "invalid relative address range")
  guard (follows previous range.start) (invalid_model "address ranges overlap or are not sorted")
  offset ←
      ok_or (checked_sub range.start base) (invalid_model "address range precedes the base address")
  encode_ranges_loop base (some range) ranges
      (write_uleb (range.end - range.start) (write_uleb offset output))

unfoldable pub encode_ranges : List AddressRange → Encoder → ℕ → Result Encoder
unfolding encode_ranges_loop
encode_ranges ranges output base =
    encode_ranges_loop base none ranges (write_uleb (length ranges) output)

abbrev pub has_children : EncodedInlineNodes → Bool
has_children no_children = false
has_children (with_child _ _) = true

abbrev pub bool_byte : Bool → ℕ
bool_byte true = 1
bool_byte false = 0

-- What ends the children of a node that has any.
abbrev pub write_end : Bool → Encoder → Encoder
write_end true output = write_uleb 0 output
write_end false output = output

unfoldable mutual
  unfolding encode_ranges

  pub encode_inline : EncodedInlineNode → Encoder → (width base depth : ℕ) → Result Encoder
  encode_inline (encoded_inline_node [] name call_file call_line _) output width base depth =
      check_inline_depth depth >> err (invalid_model "inline node must contain a range")
  encode_inline (encoded_inline_node (first ∷ others) name call_file call_line children) output
        width base depth =
      do
        check_inline_depth depth
        output ← encode_ranges (first ∷ others) output base
        output ← write_uint name width (write_u8 (bool_byte (has_children children)) output)
        output ←
            encode_children children (write_uleb call_line (write_uleb call_file output)) width
              (first ∷ others) first.start (saturating_add depth 1)
        ok (write_end (has_children children) output)

  -- The `for` loop over the children.
  pub encode_children :
      EncodedInlineNodes → Encoder → ℕ → List AddressRange → (base depth : ℕ) → Result Encoder
  encode_children no_children output width parent base depth = ok output
  encode_children (with_child child children) output width parent base depth = do
    guard (not (is_outside parent (node_ranges child)))
        (invalid_model "inline child range is outside its parent")
    output ← encode_inline child output width base depth
    encode_children children output width parent base depth

-- The `for` loop over the patterns of a call site.
unfoldable pub encode_regexes : List ℕ → ℕ → Encoder → Result Encoder
encode_regexes [] width output = ok output
encode_regexes (offset ∷ offsets) width output = do
  output ← write_uint offset width output
  encode_regexes offsets width output

unfoldable pub encode_call_site : EncodedCallSite → ℕ → Encoder → Result Encoder
unfolding encode_regexes
encode_call_site call_site width output = do
  count ← u32_or_limit (length call_site.match_regex) "call-site regex count"
  encode_regexes call_site.match_regex width
      (write_u32 count (write_u8 call_site.flags (write_u64 call_site.return_offset output)))

unfoldable pub encode_call_sites_loop : List EncodedCallSite → ℕ → Encoder → Result Encoder
unfolding encode_call_site
encode_call_sites_loop [] width output = ok output
encode_call_sites_loop (call_site ∷ call_sites) width output = do
  output ← encode_call_site call_site width output
  encode_call_sites_loop call_sites width output

unfoldable pub encode_call_sites_into : List EncodedCallSite → ℕ → Encoder → Result Encoder
unfolding encode_call_sites_loop
encode_call_sites_into call_sites width output = do
  count ← u32_or_limit (length call_sites) "call-site count"
  encode_call_sites_loop call_sites width (write_u32 count output)

-- A length, written as zero and patched when what it counts is written.
unfoldable pub write_sized :
    (length_context context : String) → (Encoder → Result Encoder) → Encoder → Result Encoder
write_sized length_context context encode_payload output = do
  let length_offset = len output
  let start = write_u32 0 output
  payload ← encode_payload start
  payload_len ← ok_or (checked_sub (len payload) (len start)) (overflow length_context)
  payload_len ← u32_or_limit payload_len context
  patch_u32 length_offset payload_len payload

unfoldable pub write_record : ℕ → (Encoder → Result Encoder) → Encoder → Result Encoder
unfolding write_sized
write_record info_type encode_payload output =
    write_sized "FunctionInfo record length" "FunctionInfo record" encode_payload
      (write_u32 info_type output)

abbrev pub write_some {ℓ} :
    {A : Type ℓ} → Option A → (A → Encoder → Result Encoder) → Encoder → Result Encoder
write_some none write output = ok output
write_some (some value) write output = write value output

abbrev pub merged_length : EncodedFunctions → ℕ
merged_length no_merged = 0
merged_length (with_merged _ functions) = suc (merged_length functions)

-- The patterns and call sites, if there are any.
abbrev pub write_call_sites : List EncodedCallSite → ℕ → Encoder → Result Encoder
write_call_sites [] width output = ok output
write_call_sites (call_site ∷ call_sites) width output =
    write_record info_call_site (encode_call_sites_into (call_site ∷ call_sites) width) output

-- The first fields of a function: its size and its name.
unfoldable pub write_head : AddressRange → (name width : ℕ) → Encoder → Result Encoder
write_head range name width output = do
  guard (not (name == 0)) zero_name_offset
  guard (not (ltb range.end range.start)) (invalid_model "function range end precedes its start")
  size ← u32_or_limit (range.end - range.start) "FunctionInfo size"
  write_uint name width (write_u32 size output)

abbrev pub start_of : EncodedFunction → ℕ
start_of (encoded_function range _ _ _ _ _) = range.start

abbrev pub write_aligned : Bool → Encoder → Result Encoder
write_aligned true output = align_to 4 output
write_aligned false output = ok output

-- The body of the loop of `encode_merged_into`, on a function from `start`.
unfoldable pub encode_sized :
    (Encoder → Result (Encoder × ℕ)) → (start base : ℕ) → Encoder → Result Encoder
unfolding write_sized
encode_sized encode_function start base output = do
  guard (start == base) (invalid_model "merged function start differs from its parent")
  write_sized "merged FunctionInfo length" "merged FunctionInfo length"
      (λ out. encode_function out >>= λ r. ok (r.0)) output

-- `encode_merged_into`, with its loop as an argument.
unfoldable pub merged_into :
    EncodedFunctions → (Encoder → Result Encoder) → Encoder → Result Encoder
merged_into functions loop output = do
  count ← u32_or_limit (merged_length functions) "merged-function count"
  loop (write_u32 count output)

-- The record of the merged functions, if there are any.
unfoldable pub write_merged :
    EncodedFunctions → (Encoder → Result Encoder) → Encoder → Result Encoder
unfolding write_record merged_into
write_merged no_merged loop output = ok output
write_merged (with_merged function functions) loop output =
    write_record info_merged (merged_into (with_merged function functions) loop) output

unfoldable mutual
  unfolding write_head encode_sized write_merged write_record write_sized encode_inline
      encode_call_sites_into

  -- The output, and where in it the function starts.
  pub encode_into_at :
      EncodedFunction → Encoder → (width : ℕ) (align : Bool) (depth : ℕ) → Result (Encoder × ℕ)
  encode_into_at (encoded_function range name lines inline merged call_sites) output width align
        depth =
      do
        check_merged_depth depth
        _ ← string_offset_width width
        output ← write_aligned align output
        let start = len output
        output ← write_head range name width output
        output ←
            write_some lines
              (λ rows. write_record info_line_table (λ out. Line.encode_into rows range.start out))
              output
        output ←
            write_some inline
              (λ node. write_record info_inline (λ out. encode_inline node out width range.start 0))
              output
        output ←
            write_merged merged
              (λ out. encode_merged_loop merged width range.start (saturating_add depth 1) out)
              output
        output ← write_call_sites call_sites width output
        ok (write_u32 0 (write_u32 info_end output), start)

  -- The `for` loop of `encode_merged_into`.
  pub encode_merged_loop : EncodedFunctions → (width base depth : ℕ) → Encoder → Result Encoder
  encode_merged_loop no_merged width base depth output = ok output
  encode_merged_loop (with_merged function functions) width base depth output = do
    output ←
        encode_sized (λ out. encode_into_at function out width false depth) (start_of function) base
          output
    encode_merged_loop functions width base depth output

unfoldable pub encode_into :
    EncodedFunction → Encoder → (width : ℕ) (align : Bool) → Result (Encoder × ℕ)
unfolding encode_into_at
encode_into function output width align = encode_into_at function output width align 0
