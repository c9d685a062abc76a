-- ===== src/Format/V1/Sections.antt =====
-- src/format/v1.rs: `Layout` and `Header::layout`.
use gsym_rs.Prelude.{ℕ, not, ltb}
use gsym_rs.Prelude.Words.{checked_add, checked_mul}
use gsym_rs.Error.{
  invalid_format, section_out_of_bounds, overflow, Result, ok, ok_or, guard, ◌>>=◌, ◌>>◌,
}
use gsym_rs.Format.{Range, align_up}
use gsym_rs.Format.V1.{Header, header_size, address_info_offset_size}

pub record Layout : Type 0 where
  pub address_offsets : Range
  pub address_info_offsets : Range
  pub file_table_offset : ℕ
  pub string_table : Range
  pub function_info_offset : ℕ

-- A `u32` is a `usize`, so those conversions cannot fail.
unfoldable pub layout : Header → (input_len : ℕ) → Result Layout
unfolding align_up
layout h input_len = do
  address_offsets_start ←
      ok_or (align_up header_size h.address_offset_size) (overflow "v1 address-table alignment")
  address_offsets_size ←
      ok_or (checked_mul h.address_count h.address_offset_size) (overflow "v1 address-table size")
  address_offsets_end ←
      ok_or (checked_add address_offsets_start address_offsets_size)
        (overflow "v1 address-table end")
  address_info_start ← ok_or (align_up address_offsets_end 4) (overflow "v1 address-info alignment")
  address_info_size ←
      ok_or (checked_mul h.address_count address_info_offset_size)
        (overflow "v1 address-info table size")
  address_info_end ←
      ok_or (checked_add address_info_start address_info_size)
        (overflow "v1 address-info table end")
  file_table_offset ← ok_or (align_up address_info_end 4) (overflow "v1 file-table alignment")
  string_end ←
      ok_or (checked_add h.string_table_offset h.string_table_size) (overflow "v1 string-table end")
  guard (not (ltb h.string_table_offset file_table_offset))
      (invalid_format "v1 string table overlaps fixed tables")
  guard (not (ltb input_len string_end))
      (section_out_of_bounds 3 h.string_table_offset h.string_table_size input_len)
  ok (record {
    address_offsets = record { start = address_offsets_start; end = address_offsets_end };
    address_info_offsets = record { start = address_info_start; end = address_info_end };
    file_table_offset = file_table_offset;
    string_table = record { start = h.string_table_offset; end = string_end };
    function_info_offset = string_end;
  })
