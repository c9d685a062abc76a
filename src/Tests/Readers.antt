-- ===== src/Tests/Readers.antt =====
-- A file of two functions, the first with an inlined call.
use gsym_rs.Prelude.{
  ℕ, zero, suc, ◌≤◌, ◌<◌, ◌≡◌, refl, true, false, List, [], ◌∷◌, ◌++◌, length, none, some, arith,
}
use gsym_rs.Error.{ok, invalid_format, and_then-eq}
use gsym_rs.Endian.Order.{little, int_value, le_value}
use gsym_rs.Endian.Cursor.{at, read_uint, read_u8, read_u16, read_u32, read_fixed, take, take_array}
use gsym_rs.Reader.Layout.{ParsedLayout, v1}
use gsym_rs.Reader.Addresses.{
  address, find_address_index, partition_point, search_loop, search_round,
}
use gsym_rs.Reader.Functions.{
  RawFunction, matching_function, match_from, first_index, match_loop, next_match, raw_function_at,
  function_offset, file_at,
}
use gsym_rs.Reader.Functions.Matching.{IsMatch, matching_function-IsMatch}
use gsym_rs.Reader.Inline.{
  RawInlineFrame, inline_frames, scan_inline_node, scan_children, scan_node, scan_ranges, scan_body,
  push_frame, next_child,
}
use gsym_rs.Reader.Strings.{string_at, position_of_nul}
use gsym_rs.Reader.Inline.Chain.{node_frames}
use gsym_rs.Reader.Inline.Frames.{inline_frames-node_frames}
use gsym_rs.Format.Function.{
  EncodedInlineNode, encoded_inline_node, no_children, with_child, to_end, whole,
  check_inline_depth, next_record, from_raw,
}
use gsym_rs.Format.Function.Decode.{inline_root}
use gsym_rs.Format.Function.Inline.{
  decode_inline, inline_node, children_loop, push_child, inline_body,
}
use gsym_rs.Format.Function.Ranges.{decode_ranges, ranges_loop}
use gsym_rs.Format.Leb.{read_uleb, read_uleb_bounded, uleb_loop, uleb_round}
use gsym_rs.Reader.Lookup.{
  LookupFrame, Lookup, PreparedFrames, default_options, lookup_with_options, prepare_frames,
  emit_frames, scan_records, scan_loop, scan_round, scan_record, emit_from, emit_nodes, lookup_in,
  finish_lookup,
}
use gsym_rs.Reader.Lookup.CallStack.{IsCallStack}
use gsym_rs.Reader.Lookup.Frames.{lookup_with_options-IsCallStack, emit_frames-prepare_frames}

-- A root for the whole function, and below it a call on line 7.
abbrev inline_payload : List ℕ
inline_payload =
    1 ∷ 0 ∷ 8 ∷ 1 ∷ 1 ∷ 0 ∷ 0 ∷ 0 ∷ 0 ∷ 0 ∷ 1 ∷ 2 ∷ 2 ∷ 0 ∷ 1 ∷ 0 ∷ 0 ∷ 0 ∷ 0 ∷ 7 ∷ 0 ∷ []

abbrev end_marker : List ℕ
end_marker = 0 ∷ 0 ∷ 0 ∷ 0 ∷ 0 ∷ 0 ∷ 0 ∷ 0 ∷ []

-- The second function, which has no records.
abbrev other_bytes : List ℕ
other_bytes = 16 ∷ 0 ∷ 0 ∷ 0 ∷ 1 ∷ 0 ∷ 0 ∷ 0 ∷ end_marker

abbrev file_tables : List ℕ
file_tables = 1 ∷ 0 ∷ 0 ∷ 0 ∷ 0 ∷ 0 ∷ 0 ∷ 0 ∷ 1 ∷ 0 ∷ 0 ∷ 0 ∷ 0 ∷ 109 ∷ 0 ∷ []

-- What follows the size and the name of the first function.
abbrev main_records : List ℕ
main_records = 2 ∷ 0 ∷ 0 ∷ 0 ∷ 21 ∷ 0 ∷ 0 ∷ 0 ∷ inline_payload ++ end_marker ++ other_bytes

abbrev main_bytes : List ℕ
main_bytes = 8 ∷ 0 ∷ 0 ∷ 0 ∷ 1 ∷ 0 ∷ 0 ∷ 0 ∷ main_records

abbrev reader_bytes : List ℕ
reader_bytes = 9 ∷ 16 ∷ 0 ∷ 0 ∷ 2 ∷ 13 ∷ 0 ∷ 0 ∷ 0 ∷ 58 ∷ 0 ∷ 0 ∷ 0 ∷ main_bytes ++ file_tables

abbrev reader_layout : ParsedLayout
reader_layout = record {
  version = v1;
  endian = little;
  address_offset_size = 2;
  string_offset_size = 4;
  base_address = 0x1000;
  address_count = 2;
  build_id = record { start = 0; end = 0 };
  address_offsets = record { start = 1; end = 5 };
  address_info_offsets = record { start = 5; end = 13 };
  file_table = record { start = 74; end = 86 };
  string_table = record { start = 86; end = 89 };
  function_info = record { start = 13; end = 74 };
  file_count = 1;
}

abbrev reader_starts : ℕ → ℕ
reader_starts zero = 0x1010
reader_starts (suc i) = 0x1200

reader_reads : (i : ℕ) → i < 2 → address reader_bytes reader_layout i ≡ ok (reader_starts i)
unfolding address at read_uint read_u16 read_fixed take_array int_value le_value
reader_reads zero h = refl
reader_reads (suc zero) h = refl
reader_reads (suc (suc i)) h = absurd (omega arith)

reader_starts-sorted : (i j : ℕ) → i ≤ j → j < 2 → reader_starts i ≤ reader_starts j
reader_starts-sorted zero zero h k = omega arith
reader_starts-sorted zero (suc j) h k = omega arith
reader_starts-sorted (suc i) zero h k = absurd (omega arith)
reader_starts-sorted (suc i) (suc j) h k = omega arith

abbrev main_function : RawFunction
main_function = record {
  range = record { start = 0x1010; end = 0x1018 };
  name = 1;
  bytes = main_bytes;
  records = main_records;
}

abbrev main_name : List ℕ
main_name = 109 ∷ []

abbrev main_frames : List LookupFrame
main_frames =
    record { name = main_name; directory = []; basename = []; line = 0; offset = 0; inlined = true }
    ∷ record {
      name = main_name;
      directory = [];
      basename = main_name;
      line = 7;
      offset = 2;
      inlined = false;
    }
    ∷ []

abbrev main_nodes : List RawInlineFrame
main_nodes =
    record { name = 1; call_file = 0; call_line = 0; start = 0x1010 }
    ∷ record { name = 1; call_file = 0; call_line = 7; start = 0x1012 }
    ∷ []

abbrev main_prepared : PreparedFrames
main_prepared = record {
  function_name = main_name;
  directory = [];
  basename = [];
  line = 0;
  count = 2;
  call_sites = none;
  nodes = main_nodes;
}

abbrev main_lookup : Lookup
main_lookup = record {
  address = 0x1012;
  function = main_function.range;
  frames = main_frames;
  call_site_patterns = [];
}

abbrev main_tree : EncodedInlineNode
main_tree = encoded_inline_node (record { start = 0x1010; end = 0x1018 } ∷ []) 1 0 0 (
    with_child
      (encoded_inline_node (record { start = 0x1012; end = 0x1014 } ∷ []) 1 0 7 no_children)
      no_children)

matching_function-main :
    matching_function reader_bytes reader_layout 0x1012 ≡ ok (some main_function)
unfolding matching_function find_address_index partition_point search_loop search_round address at
    read_uint read_u16 read_u32 read_fixed take_array int_value le_value match_from first_index
    match_loop next_match raw_function_at function_offset
matching_function-main = refl

matching_function-IsMatch_example :
    IsMatch reader_bytes reader_layout reader_starts 0x1012 (some main_function)
matching_function-IsMatch_example =
    matching_function-IsMatch reader_bytes reader_layout reader_starts 0x1012
      (record {
        inside = omega arith;
        extent = refl;
        width = omega arith;
        reads = reader_reads;
        sorted = reader_starts-sorted;
      })
      (omega arith) matching_function-main

decode-main_tree :
    whole
      (to_end (invalid_format "trailing inline-info bytes") (inline_root 4 0x1010))
      inline_payload
      little
    ≡ ok main_tree
unfolding inline_root decode_inline inline_node children_loop push_child inline_body decode_ranges
    ranges_loop check_inline_depth read_uleb read_uleb_bounded uleb_loop uleb_round read_uint
    read_u8 read_u32 read_fixed take_array int_value le_value
decode-main_tree = refl

inline_frames-node_frames_example :
    inline_frames 4 0x1012 0x1010 inline_payload little ≡ ok (node_frames 0x1012 main_tree)
inline_frames-node_frames_example =
    inline_frames-node_frames 4 0x1012 0x1010 inline_payload little decode-main_tree

prepare_frames-main :
    prepare_frames reader_bytes reader_layout 0x1012 default_options main_function
    ≡ ok main_prepared
unfolding prepare_frames scan_records scan_loop scan_round scan_record next_record from_raw take
    string_at position_of_nul inline_frames scan_inline_node scan_children scan_node scan_ranges
    scan_body push_frame next_child check_inline_depth read_uleb read_uleb_bounded uleb_loop
    uleb_round read_uint read_u8 read_u32 read_fixed take_array int_value le_value
prepare_frames-main = refl

emit_frames-main :
    emit_frames reader_bytes reader_layout 0x1012 main_prepared main_function ≡ ok main_frames
unfolding emit_frames emit_from emit_nodes file_at string_at position_of_nul int_value le_value
emit_frames-main = refl

emit_frames-prepare_frames_example : length main_frames ≡ 2
emit_frames-prepare_frames_example =
    emit_frames-prepare_frames reader_bytes reader_layout 0x1012 default_options main_function
      prepare_frames-main emit_frames-main

lookup-main :
    lookup_with_options reader_bytes reader_layout 0x1012 default_options ≡ ok (some main_lookup)
unfolding lookup_with_options lookup_in finish_lookup
lookup-main =
    and_then-eq _ _ matching_function-main
      (and_then-eq _ _ prepare_frames-main (and_then-eq _ _ emit_frames-main refl))

lookup_with_options-IsCallStack_example :
    IsCallStack reader_bytes reader_layout 0x1012 default_options main_lookup
lookup_with_options-IsCallStack_example =
    lookup_with_options-IsCallStack reader_bytes reader_layout 0x1012 default_options lookup-main
