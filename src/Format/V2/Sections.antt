-- ===== src/Format/V2/Sections.antt =====
-- src/format/v2.rs: `Header::write_layout`, where the writer puts each section.
use gsym_rs.Prelude.{
  ℕ, ◌+◌, ◌-◌, ◌*◌, List, [], ◌∷◌, ◌++◌, Option, none, some, String, ◌==◌, if◌then◌else◌,
}
use gsym_rs.Prelude.Words.{checked_add, checked_mul}
use gsym_rs.Error.{overflow, Result, ok, ok_or, ◌>>=◌}
use gsym_rs.Format.{Range, align_up}
use gsym_rs.Format.V2.{
  Header, GlobalData, header_size, global_data_size, address_info_offset_size, file_table_size,
  global_uuid, global_address_offsets, global_address_info_offsets, global_file_table,
  global_string_table, global_function_info,
}

pub record WriteLayout : Type 0 where
  pub directory : List GlobalData
  pub directory_end : ℕ
  pub uuid : Option Range
  pub address_offsets : Range
  pub address_info_offsets : Range
  pub file_table : Range
  pub string_table : Range
  pub function_info : Range
  pub file_size : ℕ

abbrev pub checked_range : ℕ → ℕ → String → Result Range
checked_range start size context = do
  end ← ok_or (checked_add start size) (overflow context)
  ok (record { start = start; end = end })

-- A `usize` is a `u64`, so the conversions cannot fail.
abbrev pub global_from_range : ℕ → Range → GlobalData
global_from_range section_type range = record {
  section_type = section_type;
  file_offset = range.start;
  file_size = range.end - range.start;
}

-- The UUID section, if there is one, and where it ends.
abbrev pub uuid_range : (uuid_size directory_end : ℕ) → Result (Option Range × ℕ)
uuid_range uuid_size directory_end = if uuid_size == 0 then ok (none, directory_end) else do
  end ← ok_or (checked_add directory_end uuid_size) (overflow "v2 UUID section end")
  ok (some (record { start = directory_end; end = end }), end)

abbrev pub uuid_entry : Option Range → List GlobalData
uuid_entry none = []
uuid_entry (some range) = global_from_range global_uuid range ∷ []

-- A directory of at most seven entries, which no operation here can make overflow.
abbrev pub directory_end_of : ℕ → ℕ
directory_end_of uuid_size = header_size + (if uuid_size == 0 then 6 else 7) * global_data_size

unfoldable pub write_layout :
    Header → (uuid_size file_count string_table_size function_info_size : ℕ) → Result WriteLayout
write_layout h uuid_size file_count string_table_size function_info_size = do
  let directory_end = directory_end_of uuid_size
  (uuid, current) ← uuid_range uuid_size directory_end
  address_start ←
      ok_or (align_up current h.address_offset_size) (overflow "v2 address-table alignment")
  address_size ←
      ok_or (checked_mul h.address_count h.address_offset_size) (overflow "v2 address-table size")
  address_offsets ← checked_range address_start address_size "v2 address table"
  info_start ←
      ok_or (align_up address_offsets.end address_info_offset_size)
        (overflow "v2 address-info alignment")
  info_size ←
      ok_or (checked_mul h.address_count address_info_offset_size) (overflow "v2 address-info size")
  address_info_offsets ← checked_range info_start info_size "v2 address-info table"
  file_start ← ok_or (align_up address_info_offsets.end 4) (overflow "v2 file-table alignment")
  file_size ← file_table_size file_count
  file_table ← checked_range file_start file_size "v2 file table"
  string_table ← checked_range file_table.end string_table_size "v2 string table"
  function_start ← ok_or (align_up string_table.end 4) (overflow "v2 FunctionInfo alignment")
  function_info ← checked_range function_start function_info_size "v2 FunctionInfo section"
  ok (record {
    directory =
        uuid_entry uuid
        ++ global_from_range global_address_offsets address_offsets
          ∷ global_from_range global_address_info_offsets address_info_offsets
          ∷ global_from_range global_file_table file_table
          ∷ global_from_range global_string_table string_table
          ∷ global_from_range global_function_info function_info
          ∷ [];
    directory_end = directory_end;
    uuid = uuid;
    address_offsets = address_offsets;
    address_info_offsets = address_info_offsets;
    file_table = file_table;
    string_table = string_table;
    function_info = function_info;
    file_size = function_info.end;
  })
