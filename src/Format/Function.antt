-- ===== src/Format/Function.antt =====
-- src/format/function.rs: the encoded function records. This module has their data, the limits on
-- depth and the framing of records.
pub mod Ranges
pub mod CallSites
pub mod Inline
pub mod Decode
pub mod Encode
pub mod RoundTrip
pub mod Depth
use gsym_rs.Prelude.{
  ℕ, ◌+◌, ◌≡◌, Bool, true, false, not, ◌||◌, List, [], Option, none, some, ltb, ◌==◌, if◌then◌else◌,
  bit_and, bit_or,
}
use gsym_rs.Error.{Error, limit, invalid_format, out_of_range, Result, ok, err, guard, and_then}
use gsym_rs.Model.{LineEntry}
use gsym_rs.Model.Range.{AddressRange}
use gsym_rs.Endian.Order.{Endian}
use gsym_rs.Endian.Cursor.{Read, ◌>>=◌, ◌>>◌, pure, lift, gets, is_empty, new, read_u32, take}
use gsym_rs.Format.{info_end, info_line_table, info_inline, info_merged, info_call_site}

abbrev pub max_inline_depth : ℕ
max_inline_depth = 256

abbrev pub max_merged_depth : ℕ
max_merged_depth = 16

unfoldable pub check_inline_depth : ℕ → Result (Unit {0})
check_inline_depth depth =
    if ltb max_inline_depth depth
    then err (limit "inline tree depth" depth max_inline_depth)
    else ok tt

unfoldable pub check_merged_depth : ℕ → Result (Unit {0})
check_merged_depth depth =
    if ltb max_merged_depth depth
    then err (limit "merged-function tree depth" depth max_merged_depth)
    else ok tt

pub data InfoType : Type 0 where
  line_table inline merged call_site : InfoType
  unknown : ℕ → InfoType

unfoldable pub from_raw : ℕ → InfoType
from_raw value =
    if value == info_line_table
    then line_table
    else if value == info_inline
    then inline
    else if value == info_merged
    then merged
    else if value == info_call_site
    then call_site
    else unknown value

pub record InfoRecord : Type 0 where
  pub kind : InfoType
  pub payload : List ℕ

-- `RecordSet` is its bits.
observe_bit : ℕ → Error → ℕ → Result ℕ
observe_bit bit error bits = if bit_and bits bit == 0 then ok (bit_or bits bit) else err error

unfoldable pub observe : InfoType → ℕ → Result ℕ
unfolding observe_bit
observe line_table bits = observe_bit 1 (invalid_format "duplicate line-table record") bits
observe inline bits = observe_bit 2 (invalid_format "duplicate inline-info record") bits
observe merged bits = observe_bit 4 (invalid_format "duplicate merged-functions record") bits
observe call_site bits = observe_bit 8 (invalid_format "duplicate call-site record") bits
observe (unknown _) bits = ok bits

-- Without the `ended` flag, which stops a caller that asks again after the end: the loop of
-- `decode_from` does not.
unfoldable pub next_record : Read (Option InfoRecord)
unfolding from_raw
next_record = do
  raw_kind ← read_u32
  length ← read_u32
  if raw_kind == info_end
      then if length == 0
        then pure none
        else lift (err (invalid_format "FunctionInfo end marker has a nonzero length"))
      else do
        payload ← take length
        pure (some (record { kind = from_raw raw_kind; payload = payload }))

unfoldable pub string_offset_width : ℕ → Result ℕ
string_offset_width size =
    if size == 1 || size == 2 || size == 4 || size == 8
    then ok size
    else err (out_of_range "string offset size" size 8)

mutual
  pub data EncodedInlineNode : Type 0 where
    encoded_inline_node :
        (ranges : List AddressRange) (name call_file call_line : ℕ) (children : EncodedInlineNodes)
        → EncodedInlineNode

  pub data EncodedInlineNodes : Type 0 where
    no_children : EncodedInlineNodes
    with_child : EncodedInlineNode → EncodedInlineNodes → EncodedInlineNodes

abbrev pub node_ranges : EncodedInlineNode → List AddressRange
node_ranges (encoded_inline_node ranges _ _ _ _) = ranges

-- `EncodedInlineNode::default()`.
abbrev pub default_node : EncodedInlineNode
default_node = encoded_inline_node [] 0 0 0 no_children

pub record EncodedCallSite : Type 0 where
  pub return_offset : ℕ
  pub flags : ℕ
  pub match_regex : List ℕ

mutual
  pub data EncodedFunction : Type 0 where
    encoded_function :
        (range : AddressRange) (name : ℕ) (lines : Option (List LineEntry))
        (inline : Option EncodedInlineNode) (merged : EncodedFunctions)
        (call_sites : List EncodedCallSite)
        → EncodedFunction

  pub data EncodedFunctions : Type 0 where
    no_merged : EncodedFunctions
    with_merged : EncodedFunction → EncodedFunctions → EncodedFunctions

-- A read of a whole payload, which ends with an error if bytes remain.
abbrev pub to_end : {A : Type 0} → Error → Read A → Read A
to_end error m = do value ← m; done ← gets is_empty; lift (guard done error); pure value

abbrev pub whole : {A : Type 0} → Read A → List ℕ → Endian → Result A
whole m bytes endian = and_then (m (new bytes endian)) (λ r. ok (r.0))
