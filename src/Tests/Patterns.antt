-- ===== src/Tests/Patterns.antt =====
-- Two call sites, of which the first has a pattern and lies at the return offset.
use gsym_rs.Prelude.{ℕ, ◌≡◌, refl, List, [], ◌∷◌}
use gsym_rs.Error.{ok}
use gsym_rs.Endian.Order.{little, int_value, le_value}
use gsym_rs.Endian.Cursor.{read_uint, read_u8, read_u32, read_u64, read_fixed, take_array}
use gsym_rs.Format.Function.{EncodedCallSite, string_offset_width}
use gsym_rs.Format.Function.CallSites.{
  regex_loop, call_site_at, call_sites_loop, call_sites_at, decode_call_sites,
}
use gsym_rs.Reader.Layout.{ParsedLayout, v1}
use gsym_rs.Reader.Strings.{string_at, position_of_nul}
use gsym_rs.Reader.Lookup.{read_call_site_patterns}
use gsym_rs.Reader.Lookup.Patterns.{strings, read_call_site_patterns-strings}

abbrev pattern_strings : List ℕ
pattern_strings = 0 ∷ 97 ∷ 0 ∷ []

abbrev pattern_layout : ParsedLayout
pattern_layout = record {
  version = v1;
  endian = little;
  address_offset_size = 1;
  string_offset_size = 4;
  base_address = 0;
  address_count = 0;
  build_id = record { start = 0; end = 0 };
  address_offsets = record { start = 0; end = 0 };
  address_info_offsets = record { start = 0; end = 0 };
  file_table = record { start = 0; end = 0 };
  string_table = record { start = 0; end = 3 };
  function_info = record { start = 0; end = 0 };
  file_count = 0;
}

abbrev call_site_payload : List ℕ
call_site_payload =
    2 ∷ 0 ∷ 0 ∷ 0 ∷ 6 ∷ 0 ∷ 0 ∷ 0 ∷ 0 ∷ 0 ∷ 0 ∷ 0 ∷ 1 ∷ 1 ∷ 0 ∷ 0 ∷ 0 ∷ 1 ∷ 0 ∷ 0 ∷ 0 ∷ 9 ∷ 0 ∷ 0
    ∷ 0 ∷ 0 ∷ 0 ∷ 0 ∷ 0 ∷ 0 ∷ 0 ∷ 0 ∷ 0 ∷ 0 ∷ []

abbrev payload_sites : List EncodedCallSite
payload_sites =
    record { return_offset = 6; flags = 1; match_regex = 1 ∷ [] }
    ∷ record { return_offset = 9; flags = 0; match_regex = [] }
    ∷ []

decode-call_site_payload : decode_call_sites call_site_payload little 4 ≡ ok payload_sites
unfolding decode_call_sites call_sites_at call_sites_loop call_site_at regex_loop
    string_offset_width read_uint read_u8 read_u32 read_u64 read_fixed take_array int_value le_value
decode-call_site_payload = refl

-- The pattern of the first call site is found.
pattern-found : strings pattern_strings pattern_layout [] (1 ∷ []) ≡ ok ((97 ∷ []) ∷ [])
unfolding string_at position_of_nul
pattern-found = refl

read_call_site_patterns-strings_example :
    read_call_site_patterns pattern_strings pattern_layout 0 call_site_payload 6
    ≡ strings pattern_strings pattern_layout [] (1 ∷ [])
read_call_site_patterns-strings_example =
    read_call_site_patterns-strings pattern_strings pattern_layout 0 6 call_site_payload
      decode-call_site_payload
