-- ===== src/Format/V2.antt =====
-- src/format/v2.rs: the version-2 header and the entries of its section directory.
pub mod Sections
pub mod Directory
pub mod RoundTrip
pub mod Bounds
pub mod Entries
pub mod Accepted
use gsym_rs.Prelude.{
  ℕ, ◌+◌, ◌-◌, ◌≤◌, ◌≡◌, Bool, not, ◌&&◌, List, [], ◌∷◌, Option, none, some, leb, ◌==◌,
  if◌then◌else◌,
}
use gsym_rs.Error.{
  invalid_magic, unsupported_version, invalid_address_offset_size,
  unsupported_string_table_encoding, Result, ok, err, guard, and_then,
}
use gsym_rs.Endian.Order.{Endian}
use gsym_rs.Endian.Cursor.{
  Read, ◌>>=◌, ◌>>◌, pure, lift, new, read_u8, read_u16, read_u32, read_u64,
}
use gsym_rs.Endian.Encoder.{Encoder, with_capacity, write_u8, write_u16, write_u32, write_u64}
use gsym_rs.Format.{gsym_magic, file_table_size as table_size}
use gsym_rs.Format.V1.{detect_endian}

abbrev pub version : ℕ
version = 2

abbrev pub header_size : ℕ
header_size = 20

abbrev pub global_data_size : ℕ
global_data_size = 20

abbrev pub address_info_offset_size : ℕ
address_info_offset_size = 8

abbrev pub string_offset_size : ℕ
string_offset_size = 8

abbrev pub file_entry_size : ℕ
file_entry_size = 16

abbrev pub string_table_encoding_default : ℕ
string_table_encoding_default = 0

abbrev pub global_end : ℕ
global_end = 0

abbrev pub global_address_offsets : ℕ
global_address_offsets = 1

abbrev pub global_address_info_offsets : ℕ
global_address_info_offsets = 2

abbrev pub global_string_table : ℕ
global_string_table = 3

abbrev pub global_file_table : ℕ
global_file_table = 4

abbrev pub global_function_info : ℕ
global_function_info = 5

abbrev pub global_uuid : ℕ
global_uuid = 6

abbrev pub required_types : List ℕ
required_types =
    global_address_offsets ∷ global_address_info_offsets ∷ global_string_table ∷ global_file_table
    ∷ global_function_info ∷ []

pub record Header : Type 0 where
  pub address_offset_size : ℕ
  pub string_table_encoding : ℕ
  pub base_address : ℕ
  pub address_count : ℕ

pub record GlobalData : Type 0 where
  pub section_type : ℕ
  pub file_offset : ℕ
  pub file_size : ℕ

unfoldable pub validate_address_offset_size : ℕ → Result (Unit {0})
validate_address_offset_size size =
    guard (leb 1 size && leb size 8) (invalid_address_offset_size version size)

-- `Header::decode` behind `detect_endian`.
unfoldable pub read_header : Read Header
read_header = do
  magic ← read_u32
  lift (guard (magic == gsym_magic) (invalid_magic magic))
  found ← read_u16
  lift (guard (found == version) (unsupported_version found))
  address_offset_size ← read_u8
  lift (validate_address_offset_size address_offset_size)
  string_table_encoding ← read_u8
  lift (
      guard (string_table_encoding == string_table_encoding_default)
        (unsupported_string_table_encoding string_table_encoding))
  base_address ← read_u64
  address_count ← read_u32
  pure (record {
    address_offset_size = address_offset_size;
    string_table_encoding = string_table_encoding;
    base_address = base_address;
    address_count = address_count;
  })

unfoldable pub decode : (native : Endian) → List ℕ → Result (Header × Endian)
decode native bytes =
    and_then (detect_endian native bytes)
      λ endian. and_then (read_header (new bytes endian)) λ r. ok (r.0, endian)

unfoldable pub encode : Header → Endian → Result (List ℕ)
encode h endian = and_then (validate_address_offset_size h.address_offset_size) λ _.
    and_then
      (guard (h.string_table_encoding == string_table_encoding_default)
        (unsupported_string_table_encoding h.string_table_encoding))
      λ _.
        ok
          (write_u32 h.address_count (
            write_u64 h.base_address (
              write_u8 h.string_table_encoding (
                write_u8 h.address_offset_size (
                  write_u16 version
                    (write_u32 gsym_magic (with_capacity endian header_size))))))).bytes

-- `GlobalData::decode_from`.
unfoldable pub decode_from : Read GlobalData
decode_from = do
  section_type ← read_u32
  file_offset ← read_u64
  file_size ← read_u64
  pure (record { section_type = section_type; file_offset = file_offset; file_size = file_size })

-- `GlobalData::encode_into`.
unfoldable pub encode_into : GlobalData → Encoder → Encoder
encode_into entry output =
    write_u64 entry.file_size (write_u64 entry.file_offset (write_u32 entry.section_type output))

abbrev pub file_table_size : ℕ → Result ℕ
file_table_size file_count = table_size file_count file_entry_size "v2 file-table size"
