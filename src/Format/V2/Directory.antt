-- ===== src/Format/V2/Directory.antt =====
-- src/format/v2.rs: `parse_directory` and the checks of the sections that it names.
use gsym_rs.Prelude.{
  ℕ, zero, suc, ◌-◌, ◌%◌, Bool, true, false, not, ◌&&◌, ◌||◌, List, [], ◌∷◌, ◌++◌, length,
  get_elem?, map, Option, none, some, ltb, leb, ◌==◌, if◌then◌else◌,
}
use gsym_rs.Prelude.Words.{checked_add, checked_mul}
use gsym_rs.Error.{
  Error, invalid_format, duplicate_section, zero_sized_section, section_out_of_bounds,
  missing_section, overflow, Result, ok, err, ok_or, guard, and_then,
}
use gsym_rs.Endian.Order.{Endian}
use gsym_rs.Endian.Cursor.{Read, ◌>>=◌, ◌>>◌, pure, lift, remaining, at}
use gsym_rs.Format.V2.{
  Header, GlobalData, decode_from, header_size, address_info_offset_size, file_entry_size,
  required_types, global_end, global_address_offsets, global_address_info_offsets,
  global_file_table, global_string_table, global_function_info,
}

pub record Directory : Type 0 where
  pub entries : List GlobalData
  pub end_offset : ℕ

-- `iter().find(..)`.
unfoldable pub find : ℕ → List GlobalData → Option GlobalData
find section_type [] = none
find section_type (entry ∷ entries) =
    let rest = find section_type entries in
    if entry.section_type == section_type then some entry else rest

abbrev pub get : Directory → ℕ → Option GlobalData
get directory section_type = find section_type directory.entries

-- `seen` holds the types of the entries so far.
abbrev pub contains : List ℕ → ℕ → Bool
contains [] n = false
contains (x ∷ xs) n = x == n || contains xs n

-- The checks of one entry that does not end the directory.
abbrev pub check_entry : (input_len : ℕ) → List ℕ → GlobalData → Result (Unit {0})
check_entry input_len seen entry =
    and_then (guard (not (contains seen entry.section_type)) (duplicate_section entry.section_type))
      λ _.
        and_then (guard (not (entry.file_size == 0)) (zero_sized_section entry.section_type)) λ _.
          and_then
            (ok_or (checked_add entry.file_offset entry.file_size) (overflow "v2 section end"))
            λ end.
              guard (not (ltb input_len end)) (
                section_out_of_bounds entry.section_type entry.file_offset entry.file_size
                  input_len)

-- The `loop`: a round reads an entry, and `entries` are those so far. The fuel is the number of
-- bytes that are left, more than there are entries to read: without a byte the read fails.
unfoldable pub directory_round :
    (input_len : ℕ)
    → (again : List GlobalData → Read (List GlobalData)) → List GlobalData
    → Read (List GlobalData)
directory_round input_len again entries = do
  entry ← decode_from
  if entry.section_type == global_end
      then (do
        lift (
            guard (entry.file_offset == 0 && entry.file_size == 0)
              (invalid_format "v2 directory terminator is not all zero"))
        pure entries)
      else (do
        lift (check_entry input_len (map (λ (d : GlobalData). d.section_type) entries) entry)
        again (entries ++ entry ∷ []))

unfoldable pub directory_loop : (fuel input_len : ℕ) → List GlobalData → Read (List GlobalData)
unfolding directory_round
directory_loop zero input_len entries = directory_round input_len pure entries
directory_loop (suc fuel) input_len entries =
    directory_round input_len (directory_loop fuel input_len) entries

-- `checked_rem(..).is_none_or(|remainder| remainder != 0)`.
abbrev pub is_misaligned : ℕ → ℕ → Bool
is_misaligned offset alignment = if alignment == 0 then true else not (offset % alignment == 0)

-- The arms of the `match` on the type of a section.
unfoldable pub check_section :
    List ℕ
    → (address_offset_size address_size address_info_size : ℕ) → GlobalData
    → Result (Unit {0})
check_section bytes address_offset_size address_size address_info_size entry =
    if entry.section_type == global_address_offsets
    then if not (entry.file_size == address_size)
      then err (invalid_format "v2 address-table size mismatch")
      else guard (not (is_misaligned entry.file_offset address_offset_size))
          (invalid_format "v2 address table is misaligned")
    else if entry.section_type == global_address_info_offsets
    then if not (entry.file_size == address_info_size)
      then err (invalid_format "v2 address-info table size mismatch")
      else guard (not (is_misaligned entry.file_offset address_info_offset_size))
          (invalid_format "v2 address-info table is misaligned")
    else if entry.section_type == global_file_table
    then if ltb entry.file_size 4 || is_misaligned (entry.file_size - 4) file_entry_size
      then err (invalid_format "invalid v2 file-table size")
      else guard (entry.file_offset % 4 == 0) (invalid_format "v2 file table is misaligned")
    else if entry.section_type == global_string_table
    then elim (get_elem? bytes entry.file_offset) [
      | none ↦ err (invalid_format "GSYM string table does not begin with an empty string")
      | some byte ↦
          guard (byte == 0) (invalid_format "GSYM string table does not begin with an empty string")
    ]
    else if entry.section_type == global_function_info
    then guard (entry.file_offset % 4 == 0) (invalid_format "v2 FunctionInfo section is misaligned")
    else ok tt

-- `for` over a list, with `?` on each check.
unfoldable pub check_all : {A : Type 0} → (A → Result (Unit {0})) → List A → Result (Unit {0})
check_all check [] = ok tt
check_all check (a ∷ rest) = and_then (check a) λ _. check_all check rest

-- `sort_unstable_by_key` by the start: sections are not empty, so two with one start overlap in
-- either order.
unfoldable pub insert_by_start : ℕ × ℕ → List (ℕ × ℕ) → List (ℕ × ℕ)
insert_by_start r [] = r ∷ []
insert_by_start r (s ∷ rs) =
    let rest = insert_by_start r rs in if leb (r.0) (s.0) then r ∷ s ∷ rs else s ∷ rest

unfoldable pub sort_by_start : List (ℕ × ℕ) → List (ℕ × ℕ)
unfolding insert_by_start
sort_by_start [] = []
sort_by_start (r ∷ rs) = insert_by_start r (sort_by_start rs)

abbrev pub overlapping : Error
overlapping = invalid_format "v2 sections overlap each other or the directory"

unfoldable pub check_disjoint : (previous_end : ℕ) → List (ℕ × ℕ) → Result (Unit {0})
check_disjoint previous_end [] = ok tt
check_disjoint previous_end ((start, end) ∷ rs) =
    and_then (guard (not (ltb start previous_end)) overlapping) λ _. check_disjoint end rs

-- The starts and ends of the sections.
unfoldable pub extents : List GlobalData → Result (List (ℕ × ℕ))
extents [] = ok []
extents (entry ∷ entries) =
    and_then (ok_or (checked_add entry.file_offset entry.file_size) (overflow "v2 section end"))
      λ end. and_then (extents entries) λ rest. ok ((entry.file_offset, end) ∷ rest)

unfoldable pub validate_sections :
    List ℕ → (directory_end : ℕ) → Header → List GlobalData → Result (Unit {0})
unfolding check_section check_all extents sort_by_start check_disjoint
validate_sections bytes directory_end h entries =
    and_then
      (ok_or (checked_mul h.address_count h.address_offset_size) (overflow "v2 address-table size"))
      λ address_size.
        and_then
          (ok_or (checked_mul h.address_count address_info_offset_size)
            (overflow "v2 address-info size"))
          λ address_info_size.
            and_then
              (check_all (check_section bytes h.address_offset_size address_size address_info_size)
                entries)
              λ _.
                and_then (extents entries)
                  λ ranges. check_disjoint directory_end (sort_by_start ranges)

unfoldable pub parse_directory : List ℕ → Endian → Header → Result Directory
unfolding directory_loop check_all validate_sections
parse_directory bytes endian h = and_then (at bytes endian header_size) λ cursor.
    and_then (directory_loop (remaining cursor) (length bytes) [] cursor) λ r.
      let types = map (λ (d : GlobalData). d.section_type) (r.0) in
      and_then
        (check_all (λ required. guard (contains types required) (missing_section required))
          required_types)
        λ _.
          and_then (validate_sections bytes (r.1).position h (r.0))
            λ _. ok (record { entries = r.0; end_offset = (r.1).position })
