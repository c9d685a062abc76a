-- ===== src/Tests/Verified.antt =====
-- A file of one function with an inlined call, which passes the verification.
use gsym_rs.Prelude.{ℕ, zero, suc, ◌<◌, ◌≤◌, ◌≡◌, refl, true, List, [], ◌∷◌, none, some}
use gsym_rs.Error.{ok}
use gsym_rs.Model.Function.{Function}
use gsym_rs.Endian.Order.{little, int_value, le_value}
use gsym_rs.Endian.Cursor.{at, take, read_uint, read_u8, read_u16, read_u32, read_fixed, take_array}
use gsym_rs.Format.Function.{
  EncodedFunction, encoded_function, encoded_inline_node, no_children, with_child, no_merged,
  check_inline_depth, check_merged_depth, string_offset_width, next_record, from_raw, observe,
}
use gsym_rs.Format.Function.Decode as Record
use gsym_rs.Format.Function.Inline as Tree
use gsym_rs.Format.Function.Ranges.{decode_ranges, ranges_loop}
use gsym_rs.Format.Leb.{read_uleb, read_uleb_bounded, uleb_loop, uleb_round}
use gsym_rs.Reader.Layout.{ParsedLayout, v1}
use gsym_rs.Reader.Addresses.{address}
use gsym_rs.Reader.Strings.{string_at, position_of_nul}
use gsym_rs.Reader.Functions.{
  file_at, function, get_function, raw_function, raw_function_at, function_offset,
}
use gsym_rs.Reader.Owned.{
  validate, validate_at, validate_semantics, validate_inline_ranges, validate_inline,
  validate_sites, verify_lines, verify_file, decode, decode_validated,
}
use gsym_rs.Reader.Owned.Verified.{IsTruthful}
use gsym_rs.Reader.Owned.Validated.{validate-decode}
use gsym_rs.Reader.Verify.{
  verify, verify_with, verify_loop, verify_entry, verify_rest, check_file_zero, decode_encoded,
  count_nul,
}
use gsym_rs.Reader.Verify.Decodes.{IsDecoded, verify-IsDecoded}

abbrev verified_bytes : List ℕ
verified_bytes =
    16 ∷ 5 ∷ 0 ∷ 0 ∷ 0 ∷ 8 ∷ 0 ∷ 0 ∷ 0 ∷ 1 ∷ 0 ∷ 0 ∷ 0 ∷ 2 ∷ 0 ∷ 0 ∷ 0 ∷ 21 ∷ 0 ∷ 0 ∷ 0 ∷ 1 ∷ 0 ∷ 8
    ∷ 1 ∷ 1 ∷ 0 ∷ 0 ∷ 0 ∷ 0 ∷ 0 ∷ 1 ∷ 2 ∷ 2 ∷ 0 ∷ 1 ∷ 0 ∷ 0 ∷ 0 ∷ 0 ∷ 7 ∷ 0 ∷ 0 ∷ 0 ∷ 0 ∷ 0 ∷ 0 ∷ 0
    ∷ 0 ∷ 0 ∷ 1 ∷ 0 ∷ 0 ∷ 0 ∷ 0 ∷ 0 ∷ 0 ∷ 0 ∷ 0 ∷ 0 ∷ 0 ∷ 0 ∷ 0 ∷ 109 ∷ 0 ∷ []

abbrev verified_layout : ParsedLayout
verified_layout = record {
  version = v1;
  endian = little;
  address_offset_size = 1;
  string_offset_size = 4;
  base_address = 0x1000;
  address_count = 1;
  build_id = record { start = 0; end = 0 };
  address_offsets = record { start = 0; end = 1 };
  address_info_offsets = record { start = 1; end = 5 };
  file_table = record { start = 50; end = 62 };
  string_table = record { start = 62; end = 65 };
  function_info = record { start = 5; end = 50 };
  file_count = 1;
}

abbrev verified_record : EncodedFunction
verified_record =
    encoded_function (record { start = 0x1010; end = 0x1018 }) 1 none
      (some (
        encoded_inline_node (record { start = 0x1010; end = 0x1018 } ∷ []) 1 0 0 (
          with_child
            (encoded_inline_node (record { start = 0x1012; end = 0x1014 } ∷ []) 1 0 7 no_children)
            no_children)))
      no_merged []

file_zero-IsTruthful : IsTruthful verified_bytes verified_layout (true ∷ [])
unfolding file_at string_at position_of_nul int_value le_value
file_zero-IsTruthful zero h = (([], []), refl)
file_zero-IsTruthful (suc i) h = cc

validate-verified_record :
    validate verified_bytes verified_layout verified_record (true ∷ []) ≡ ok (true ∷ [])
unfolding validate validate_at validate_semantics validate_inline_ranges validate_inline
    validate_sites verify_lines verify_file check_merged_depth string_at position_of_nul
validate-verified_record = refl

validate-decode_example :
    IsTruthful verified_bytes verified_layout (true ∷ [])
    × (f : Function) × (decode verified_bytes verified_layout verified_record ≡ ok f)
    × (decode_validated verified_bytes verified_layout verified_record ≡ ok f)
validate-decode_example =
    validate-decode verified_bytes verified_layout verified_record (true ∷ []) file_zero-IsTruthful
      validate-verified_record

verify-verified_bytes :
    verify verified_bytes verified_layout
    ≡ ok (record { functions = 1; files = 1; strings = 2; function_info_bytes = 45 })
unfolding verify verify_with verify_loop verify_entry verify_rest check_file_zero decode_encoded
    count_nul file_at string_at position_of_nul int_value le_value address at read_uint read_u8
    read_u16 read_u32 read_fixed take take_array function get_function raw_function raw_function_at
    function_offset Record.decode Record.decode_from Record.function_levels Record.function_at
    Record.records_loop Record.records_round Record.store_record Record.inline_root next_record
    from_raw observe Tree.decode_inline Tree.inline_node Tree.inline_body Tree.children_loop
    Tree.push_child decode_ranges ranges_loop check_inline_depth check_merged_depth
    string_offset_width read_uleb read_uleb_bounded uleb_loop uleb_round validate validate_at
    validate_semantics validate_inline_ranges validate_inline validate_sites verify_lines
    verify_file
verify-verified_bytes = refl

verify-IsDecoded_example :
    ((i : ℕ) → i < 1 → IsDecoded verified_bytes verified_layout i)
    × ((i x y : ℕ)
        → suc i < 1
        → address verified_bytes verified_layout i ≡ ok x
        → address verified_bytes verified_layout (suc i) ≡ ok y
        → x ≤ y)
verify-IsDecoded_example = verify-IsDecoded verified_bytes verified_layout verify-verified_bytes
