-- ===== src/Reader/Layout.antt =====
-- src/reader/layout.rs: the tables of a file of either version.
pub mod Tables
use gsym_rs.Prelude.{ℕ, ◌-◌, not, List, length, none, some, ltb, ◌==◌, if◌then◌else◌}
use gsym_rs.Prelude.Words.{checked_add, saturating_add}
use gsym_rs.Error.{
  overflow, invalid_format, missing_section, unsupported_version, Result, ok, err, ok_or, guard,
  ◌>>=◌, ◌>>◌,
}
use gsym_rs.Endian.Order.{Endian}
use gsym_rs.Endian.Cursor.{at, new, read_u16, read_u32}
use gsym_rs.Format.{Range}
use gsym_rs.Format.V1
use gsym_rs.Format.V1.Uuid.{as_slice}
use gsym_rs.Format.V1.Sections.{layout}
use gsym_rs.Format.V2
use gsym_rs.Format.V2.Directory.{Directory, get, parse_directory}

pub data VersionLayout : Type 0 where
  v1 : VersionLayout
  v2 : VersionLayout

pub record ParsedLayout : Type 0 where
  pub version : VersionLayout
  pub endian : Endian
  pub address_offset_size : ℕ
  pub string_offset_size : ℕ
  pub base_address : ℕ
  pub address_count : ℕ
  pub build_id : Range
  pub address_offsets : Range
  pub address_info_offsets : Range
  pub file_table : Range
  pub string_table : Range
  pub function_info : Range
  pub file_count : ℕ

unfoldable pub parse_v1 : (native : Endian) → List ℕ → Result ParsedLayout
parse_v1 native bytes = do
  (header, endian) ← V1.decode native bytes
  tables ← layout header (length bytes)
  files ← at bytes endian tables.file_table_offset
  (file_count, _) ← read_u32 files
  file_size ← V1.file_table_size file_count
  file_end ← ok_or (checked_add tables.file_table_offset file_size) (overflow "v1 file table end")
  guard (not (ltb tables.string_table.start file_end))
      (invalid_format "v1 file table overlaps string table")
  let uuid_size = length (as_slice header.uuid)
  ok (record {
    version = v1;
    endian = endian;
    address_offset_size = header.address_offset_size;
    string_offset_size = V1.string_offset_size;
    base_address = header.base_address;
    address_count = header.address_count;
    build_id = record { start = 28; end = saturating_add 28 uuid_size };
    address_offsets = tables.address_offsets;
    address_info_offsets = tables.address_info_offsets;
    file_table = record { start = tables.file_table_offset; end = file_end };
    string_table = tables.string_table;
    function_info = record { start = tables.function_info_offset; end = length bytes };
    file_count = file_count;
  })

-- The closure `range` of `parse_v2`.
abbrev pub section_range : Directory → ℕ → Result Range
section_range directory kind = do
  entry ← ok_or (get directory kind) (missing_section kind)
  end ← ok_or (checked_add entry.file_offset entry.file_size) (overflow "section end")
  ok (record { start = entry.file_offset; end = end })

abbrev pub build_id_range : Directory → Result Range
build_id_range directory = elim (get directory V2.global_uuid) [
  | none ↦ ok (record { start = 0; end = 0 })
  | some _ ↦ section_range directory V2.global_uuid
]

unfoldable pub parse_v2 : (native : Endian) → List ℕ → Result ParsedLayout
parse_v2 native bytes = do
  (header, endian) ← V2.decode native bytes
  directory ← parse_directory bytes endian header
  file_table ← section_range directory V2.global_file_table
  file_cursor ← at bytes endian file_table.start
  (file_count, _) ← read_u32 file_cursor
  file_size ← V2.file_table_size file_count
  guard (file_size == file_table.end - file_table.start)
      (invalid_format "v2 file-table count does not match its size")
  build_id ← build_id_range directory
  address_offsets ← section_range directory V2.global_address_offsets
  address_info_offsets ← section_range directory V2.global_address_info_offsets
  string_table ← section_range directory V2.global_string_table
  function_info ← section_range directory V2.global_function_info
  ok (record {
    version = v2;
    endian = endian;
    address_offset_size = header.address_offset_size;
    string_offset_size = V2.string_offset_size;
    base_address = header.base_address;
    address_count = header.address_count;
    build_id = build_id;
    address_offsets = address_offsets;
    address_info_offsets = address_info_offsets;
    file_table = file_table;
    string_table = string_table;
    function_info = function_info;
    file_count = file_count;
  })

unfoldable pub parse : (native : Endian) → List ℕ → Result ParsedLayout
unfolding parse_v1 parse_v2
parse native bytes = do
  endian ← V1.detect_endian native bytes
  (_, prefix) ← read_u32 (new bytes endian)
  (version, _) ← read_u16 prefix
  if version == V1.version
      then parse_v1 native bytes
      else if version == V2.version
      then parse_v2 native bytes
      else err (unsupported_version version)
