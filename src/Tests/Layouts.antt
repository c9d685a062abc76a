-- ===== src/Tests/Layouts.antt =====
-- The headers, layouts and directories of `v1.rs` and `v2.rs`.
use gsym_rs.Prelude.{
  ℕ, ◌≡◌, ◌<◌, ◌^◌, refl, List, [], ◌∷◌, ◌++◌, length, length-append, replicate, arith, some,
}
use gsym_rs.Error.{ok}
use gsym_rs.Endian.Order.{little, big, int_bytes, int_value, le_bytes, le_value}
use gsym_rs.Endian.Cursor.{at, read_u8, read_u16, read_u32, read_u64, read_fixed, take, take_array}
use gsym_rs.Endian.Encoder.{with_capacity, len, write_u32, write_u64, write_fixed, write_bytes}
use gsym_rs.Endian.Encoder.Writes.{cursor_over}
use gsym_rs.Format.{align_up, file_table_size}
use gsym_rs.Format.V1
use gsym_rs.Format.V1.Uuid as Uuid
use gsym_rs.Format.V1.Sections.{layout}
use gsym_rs.Reader.Layout.{ParsedLayout, v1, parse_v1}
use gsym_rs.Reader.Layout.Tables.{IsTabled, parse_v1-IsTabled}
use gsym_rs.Format.V2
use gsym_rs.Format.V2.{GlobalData, decode_from, encode_into}
use gsym_rs.Format.V2.Sections.{WriteLayout, write_layout}
use gsym_rs.Format.V2.Bounds.{IsPlaced, write_layout-IsPlaced}
use gsym_rs.Format.V2.RoundTrip.{decode_from-encode_into}
use gsym_rs.Format.V2.Directory.{
  directory_round, directory_loop, check_all, check_section, insert_by_start, sort_by_start,
  check_disjoint, extents, validate_sections, parse_directory,
}
use gsym_rs.Format.V2.Accepted.{IsAccepted, parse_directory-IsAccepted}

abbrev uuid : List ℕ
uuid = 0xab ∷ 0xcd ∷ []

abbrev header : V1.Header
header = record {
  address_offset_size = 2;
  base_address = 0x1000;
  address_count = 3;
  string_table_offset = 100;
  string_table_size = 20;
  uuid = record { bytes = uuid ++ replicate 18 0; len = 2 };
}

-- A file with one function and an empty file table entry.
abbrev file_v1 : List ℕ
file_v1 =
    0x4d
      ∷ 0x59
      ∷ 0x53
      ∷ 0x47
      ∷ 1
      ∷ 0
      ∷ 1
      ∷ 0
      ∷ 0
      ∷ 0x10
      ∷ 0
      ∷ 0
      ∷ 0
      ∷ 0
      ∷ 0
      ∷ 0
      ∷ 1
      ∷ 0
      ∷ 0
      ∷ 0
      ∷ 68
      ∷ 0
      ∷ 0
      ∷ 0
      ∷ 2
      ∷ 0
      ∷ 0
      ∷ 0
      ∷ replicate 20 0
    ++ 16 ∷ 0 ∷ 0 ∷ 0 ∷ 70 ∷ 0 ∷ 0 ∷ 0 ∷ 1 ∷ replicate 14 0

abbrev parsed_v1 : ParsedLayout
parsed_v1 = record {
  version = v1;
  endian = little;
  address_offset_size = 1;
  string_offset_size = 4;
  base_address = 0x1000;
  address_count = 1;
  build_id = record { start = 28; end = 28 };
  address_offsets = record { start = 48; end = 49 };
  address_info_offsets = record { start = 52; end = 56 };
  file_table = record { start = 56; end = 68 };
  string_table = record { start = 68; end = 70 };
  function_info = record { start = 70; end = 71 };
  file_count = 1;
}

parse_v1-file_v1 : parse_v1 big file_v1 ≡ ok parsed_v1
unfolding parse_v1 V1.decode V1.detect_endian V1.read_header V1.read_uuid Uuid.new
    V1.validate_address_offset_size layout align_up file_table_size at read_u8 read_u16 read_u32
    read_u64 read_fixed take take_array int_value le_value
parse_v1-file_v1 = refl

parse_v1-IsTabled_example : IsTabled file_v1 parsed_v1
parse_v1-IsTabled_example = parse_v1-IsTabled big file_v1 parse_v1-file_v1

abbrev header_v2 : V2.Header
header_v2 = record {
  address_offset_size = 2;
  string_table_encoding = 0;
  base_address = 0x1000;
  address_count = 1;
}

abbrev entry : GlobalData
entry = record { section_type = 3; file_offset = 300; file_size = 7 }

entry_size : len (encode_into entry (with_capacity little 0)) ≡ 20
unfolding encode_into write_u32 write_u64 write_fixed write_bytes int_bytes le_bytes
entry_size = refl

decode_from-encode_into_example :
    decode_from (cursor_over (encode_into entry (with_capacity little 0)) [] 0)
    ≡ ok (
      entry,
      cursor_over
          (encode_into entry (with_capacity little 0))
          []
          (len (encode_into entry (with_capacity little 0))),
    )
decode_from-encode_into_example =
    decode_from-encode_into entry (with_capacity little 0) [] (omega arith) (omega arith)
      (omega arith) small
  where
    small : length ((encode_into entry (with_capacity little 0)).bytes ++ []) < 2 ^ 64
    small =
        omega
          (arith, entry_size, length-append ((encode_into entry (with_capacity little 0)).bytes) [])

abbrev placed : WriteLayout
placed = record {
  directory =
      record { section_type = 6; file_offset = 160; file_size = 2 }
      ∷ record { section_type = 1; file_offset = 162; file_size = 2 }
      ∷ record { section_type = 2; file_offset = 168; file_size = 8 }
      ∷ record { section_type = 4; file_offset = 176; file_size = 20 }
      ∷ record { section_type = 3; file_offset = 196; file_size = 9 }
      ∷ record { section_type = 5; file_offset = 208; file_size = 30 }
      ∷ [];
  directory_end = 160;
  uuid = some (record { start = 160; end = 162 });
  address_offsets = record { start = 162; end = 164 };
  address_info_offsets = record { start = 168; end = 176 };
  file_table = record { start = 176; end = 196 };
  string_table = record { start = 196; end = 205 };
  function_info = record { start = 208; end = 238 };
  file_size = 238;
}

write_layout_result : write_layout header_v2 2 1 9 30 ≡ ok placed
unfolding write_layout align_up file_table_size
write_layout_result = refl

write_layout-IsPlaced_example : IsPlaced header_v2 2 1 9 30 placed
write_layout-IsPlaced_example = write_layout-IsPlaced header_v2 2 1 9 30 write_layout_result

abbrev directory_entry : ℕ → ℕ → ℕ → GlobalData
directory_entry section_type file_offset file_size = record {
  section_type = section_type;
  file_offset = file_offset;
  file_size = file_size;
}

abbrev entries : List GlobalData
entries =
    directory_entry 1 140 2
    ∷ directory_entry 2 144 8
    ∷ directory_entry 4 152 20
    ∷ directory_entry 3 172 9
    ∷ directory_entry 5 184 8
    ∷ []

entry_bytes : GlobalData → List ℕ
entry_bytes d =
    int_bytes little 4 d.section_type
    ++ int_bytes little 8 d.file_offset
    ++ int_bytes little 8 d.file_size

directory_bytes : List GlobalData → List ℕ
unfolding entry_bytes
directory_bytes [] = replicate 20 0
directory_bytes (d ∷ ds) = entry_bytes d ++ directory_bytes ds

-- A header's place, the directory and 52 bytes of sections.
file : List ℕ
unfolding directory_bytes
file = replicate 20 0 ++ directory_bytes entries ++ replicate 52 0

parsed : parse_directory file little header_v2 ≡ ok (record { entries = entries; end_offset = 140 })
unfolding file entry_bytes directory_bytes parse_directory at directory_loop directory_round
    decode_from read_u32 read_u64 read_fixed take_array int_value int_bytes le_bytes le_value
    check_all check_section extents insert_by_start sort_by_start check_disjoint validate_sections
parsed = refl

parse_directory-IsAccepted_example :
    IsAccepted file (record { entries = entries; end_offset = 140 })
parse_directory-IsAccepted_example = parse_directory-IsAccepted file little header_v2 parsed
