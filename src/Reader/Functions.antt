-- ===== src/Reader/Functions.antt =====
-- src/reader.rs and src/reader/function.rs: the records of functions and files, and from
-- src/reader/lookup.rs `matching_function`, the function of an address.
pub mod Matching
use gsym_rs.Prelude.{
  ℕ, zero, suc, ◌-◌, ◌*◌, not, ◌||◌, List, length, take, drop, slice, suffix, Option, none, some,
  ltb, leb, ◌==◌, if◌then◌else◌,
}
use gsym_rs.Prelude.Words.{checked_add, checked_mul, saturating_add}
use gsym_rs.Error.{
  overflow, invalid_offset, invalid_format, out_of_range, unexpected_eof, zero_name_offset,
  function_index_out_of_bounds, Result, ok, err, ok_or, guard, ◌>>=◌, ◌>>◌,
}
use gsym_rs.Model.Range.{AddressRange, is_empty, contains}
use gsym_rs.Endian.Order.{int_value}
use gsym_rs.Endian.Cursor.{at, new, read_u32, read_uint}
use gsym_rs.Reader.Layout.{ParsedLayout, VersionLayout, v1, v2}
use gsym_rs.Reader.Addresses.{address, find_address_index}
use gsym_rs.Reader.Strings.{string_at}

pub record RawFunction : Type 0 where
  pub range : AddressRange
  pub name : ℕ
  pub bytes : List ℕ
  pub records : List ℕ

-- Without the bytes and the layout of the file, which are arguments.
pub record FunctionRef : Type 0 where
  pub index : ℕ
  pub name : List ℕ
  pub raw : RawFunction

module _ (bytes : List ℕ) (l : ParsedLayout) where
  -- A `u64` is a `usize` and a `u32` too, so these conversions cannot fail. The pair is read as two
  -- integers of 4 or 8 bytes, whose length the entry has.
  unfoldable pub file_at : ℕ → Result (List ℕ × List ℕ)
  file_at index = do
    guard (ltb index l.file_count) (out_of_range "file index" index (l.file_count - 1))
    entry_size ← ok_or (checked_mul l.string_offset_size 2) (overflow "file entry size")
    entry_offset ← ok_or (checked_mul index entry_size) (overflow "file entry offset")
    entries ← ok_or (checked_add l.file_table.start 4) (overflow "file entry offset")
    offset ← ok_or (checked_add entries entry_offset) (overflow "file entry offset")
    end ← ok_or (checked_add offset entry_size) (overflow "file entry end")
    entry ←
        ok_or (slice bytes offset end) (unexpected_eof offset entry_size (length bytes - offset))
    guard (l.string_offset_size == 4 || l.string_offset_size == 8)
        (out_of_range "string offset size" l.string_offset_size 8)
    directory ←
        string_at bytes l.string_table (int_value l.endian (take l.string_offset_size entry))
    basename ← string_at bytes l.string_table (int_value l.endian (drop l.string_offset_size entry))
    ok (directory, basename)

  abbrev pub info_width : VersionLayout → ℕ
  info_width v1 = 4
  info_width v2 = 8

  -- From the start of the file in version 1, from the function data in version 2.
  abbrev pub absolute : VersionLayout → ℕ → Result ℕ
  absolute v1 relative = ok relative
  absolute v2 relative =
      ok_or (checked_add relative l.function_info.start) (overflow "FunctionInfo offset")

  unfoldable pub function_offset : ℕ → Result ℕ
  function_offset index = do
    relative ←
        ok_or (checked_mul index (info_width l.version)) (overflow "address-info table index")
    offset ←
        ok_or (checked_add l.address_info_offsets.start relative)
          (overflow "address-info table offset")
    cursor ← at bytes l.endian offset
    (value, _) ← read_uint (info_width l.version) cursor
    absolute l.version value

  unfoldable pub raw_function_at : (index start : ℕ) → Result RawFunction
  unfolding function_offset
  raw_function_at index start = do
    offset ← function_offset index
    guard (not (ltb offset l.function_info.start || leb l.function_info.end offset))
        (invalid_offset offset (length bytes))
    section ← ok_or (slice bytes offset l.function_info.end) (invalid_offset offset (length bytes))
    (size, after_size) ← read_u32 (new section l.endian)
    (name, header) ← read_uint l.string_offset_size after_size
    guard (not (name == 0)) zero_name_offset
    end ← ok_or (checked_add start size) (overflow "function range")
    records ←
        ok_or (suffix section header.position)
          (invalid_format "function record header overruns its record")
    ok (record {
      range = record { start = start; end = end };
      name = name;
      bytes = section;
      records = records;
    })

  unfoldable pub raw_function : ℕ → Result (Option RawFunction)
  unfolding raw_function_at
  raw_function index =
      if leb l.address_count index
      then ok none
      else (do start ← address bytes l index; raw ← raw_function_at index start; ok (some raw))

  unfoldable pub get_function : ℕ → Result (Option FunctionRef)
  unfolding raw_function
  get_function index = raw_function index >>= λ found. elim found [
    | none ↦ ok none
    | some raw ↦ string_at bytes l.string_table raw.name >>= λ name.
        ok (some (record { index = index; name = name; raw = raw }))
  ]

  unfoldable pub function : ℕ → Result FunctionRef
  unfolding get_function
  function index = get_function index >>= λ found.
      ok_or found (function_index_out_of_bounds index l.address_count)

  -- The loop back to the first entry with the same address.
  unfoldable pub first_index : (first_start index : ℕ) → Result ℕ
  first_index first_start zero = ok zero
  first_index first_start (suc index) =
      let rest = first_index first_start index in
      address bytes l index >>= λ start. if start == first_start then rest else ok (suc index)

  -- What follows an entry that does not match: `again` is the loop from the next one.
  unfoldable pub next_match :
      (again : ℕ → Result (Option RawFunction)) (first_start next : ℕ) → Result (Option RawFunction)
  next_match again first_start next =
      if leb l.address_count next
      then ok none
      else (do start ← address bytes l next; if start == first_start then again next else ok none)

  -- The `while index < count` loop, with `count - index` as its fuel.
  unfoldable pub match_loop : (fuel first_start query index : ℕ) → Result (Option RawFunction)
  unfolding next_match raw_function_at
  match_loop zero first_start query index = ok none
  match_loop (suc fuel) first_start query index = do
    raw ← raw_function_at index first_start
    if is_empty raw.range || contains raw.range query
        then ok (some raw)
        else next_match (match_loop fuel first_start query) first_start (saturating_add index 1)

  -- `matching_function` from the index that the search returned.
  unfoldable pub match_from : (query : ℕ) → Option ℕ → Result (Option RawFunction)
  unfolding first_index match_loop
  match_from query none = ok none
  match_from query (some index) = do
    first_start ← address bytes l index
    first ← first_index first_start index
    match_loop (l.address_count - first) first_start query first

  unfoldable pub matching_function : ℕ → Result (Option RawFunction)
  unfolding match_from
  matching_function query = do index ← find_address_index bytes l query; match_from query index
