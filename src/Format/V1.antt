-- ===== src/Format/V1.antt =====
-- src/format/v1.rs: the version-1 header and the layout that it determines.
pub mod Uuid
pub mod Sections
pub mod RoundTrip
pub mod Bounds
use gsym_rs.Prelude.{
  ℕ, ◌+◌, ◌-◌, ◌≤◌, ◌<◌, ◌≡◌, Bool, not, ◌||◌, List, [], ◌++◌, length, replicate, take, suffix,
  slice, first_chunk, Option, none, some, ltb, leb, ◌==◌, if◌then◌else◌,
}
use gsym_rs.Prelude.Words.{checked_add, checked_mul, try_u8}
use gsym_rs.Error.{
  Error, unexpected_eof, invalid_magic, unsupported_version, invalid_uuid_size,
  v1_build_id_too_long, invalid_address_offset_size, invalid_format, section_out_of_bounds,
  overflow, Result, ok, err, ok_or, guard, and_then,
}
use gsym_rs.Endian.Order.{Endian, little, big, int_value}
use gsym_rs.Endian.Cursor.{
  Cursor, Read, ◌>>=◌, ◌>>◌, pure, lift, new, take as read_bytes, read_u8, read_u16, read_u32,
  read_u64,
}
use gsym_rs.Endian.Encoder.{
  Encoder, with_capacity, write_bytes, write_u8, write_u16, write_u32, write_u64,
}
use gsym_rs.Format.V1.Uuid
use gsym_rs.Format.V1.Uuid.{FixedUuid, as_slice, max_uuid_size}
use gsym_rs.Format.{gsym_magic, gsym_cigam, Range, align_up, file_table_size as table_size}

abbrev pub version : ℕ
version = 1

abbrev pub header_size : ℕ
header_size = 48

abbrev pub address_info_offset_size : ℕ
address_info_offset_size = 4

abbrev pub string_offset_size : ℕ
string_offset_size = 4

abbrev pub file_entry_size : ℕ
file_entry_size = 8

pub record Header : Type 0 where
  pub address_offset_size : ℕ
  pub base_address : ℕ
  pub address_count : ℕ
  pub string_table_offset : ℕ
  pub string_table_size : ℕ
  pub uuid : FixedUuid

abbrev swapped : Endian → Endian
swapped little = big
swapped big = little

-- `native` is the byte order of the machine that runs the code.
unfoldable pub detect_endian : (native : Endian) → List ℕ → Result Endian
detect_endian native bytes =
    and_then (ok_or (first_chunk 4 bytes) (unexpected_eof 0 4 (length bytes))) λ magic_bytes.
      let host_value = int_value native magic_bytes in
      if host_value == gsym_magic
      then ok native
      else if host_value == gsym_cigam
      then ok (swapped native)
      else err (invalid_magic host_value)

unfoldable pub validate_address_offset_size : ℕ → Result (Unit {0})
validate_address_offset_size size =
    guard (size == 1 || size == 2 || size == 4 || size == 8)
      (invalid_address_offset_size version size)

-- The build identifier, in storage of a fixed size.
unfoldable pub read_uuid : ℕ → Read FixedUuid
read_uuid uuid_size = do
  uuid_storage ← read_bytes max_uuid_size
  stored ← lift (ok_or (slice uuid_storage 0 uuid_size) (invalid_format "v1 build ID is truncated"))
  lift (Uuid.new stored)

-- `Header::decode` behind `detect_endian`.
unfoldable pub read_header : Read Header
read_header = do
  magic ← read_u32
  lift (guard (magic == gsym_magic) (invalid_magic magic))
  found ← read_u16
  lift (guard (found == version) (unsupported_version found))
  address_offset_size ← read_u8
  lift (validate_address_offset_size address_offset_size)
  uuid_size ← read_u8
  lift (guard (not (ltb max_uuid_size uuid_size)) (invalid_uuid_size uuid_size))
  base_address ← read_u64
  address_count ← read_u32
  string_table_offset ← read_u32
  string_table_size ← read_u32
  uuid ← read_uuid uuid_size
  pure (record {
    address_offset_size = address_offset_size;
    base_address = base_address;
    address_count = address_count;
    string_table_offset = string_table_offset;
    string_table_size = string_table_size;
    uuid = uuid;
  })

unfoldable pub decode : (native : Endian) → List ℕ → Result (Header × Endian)
decode native bytes =
    and_then (detect_endian native bytes)
      λ endian. and_then (read_header (new bytes endian)) λ r. ok (r.0, endian)

unfoldable pub encode : Header → Endian → Result (List ℕ)
encode h endian = and_then (validate_address_offset_size h.address_offset_size) λ _.
    let uuid = as_slice h.uuid in
    let fixed = write_u32 h.string_table_size (
      write_u32 h.string_table_offset (
        write_u32 h.address_count (
          write_u64 h.base_address (
            write_u8 h.uuid.len (
              write_u8 h.address_offset_size (
                write_u16 version (write_u32 gsym_magic (with_capacity endian header_size)))))))) in
    and_then
      (ok_or (suffix (replicate max_uuid_size 0) (length uuid))
        (v1_build_id_too_long (length uuid)))
      (λ zeros. ok (write_bytes zeros (write_bytes uuid fixed)).bytes)

abbrev pub file_table_size : ℕ → Result ℕ
file_table_size file_count = table_size file_count file_entry_size "v1 file-table size"
