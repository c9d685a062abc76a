-- ===== src/Reader/Addresses.antt =====
-- src/reader.rs: `address` and `find_address_index`, the search in the address table.
pub mod Search
pub mod Index
use gsym_rs.Prelude.{
  ℕ, zero, suc, ◌+◌, ◌-◌, ◌*◌, ◌/◌, ◌%◌, Bool, true, false, not, ◌||◌, List, length, take, drop,
  slice, Option, none, some, ltb, leb, ◌==◌, if◌then◌else◌,
}
use gsym_rs.Prelude.Words.{checked_add, checked_mul, checked_sub}
use gsym_rs.Error.{
  overflow, invalid_offset, invalid_format, Result, ok, err, ok_or, guard, ◌>>=◌, ◌>>◌,
}
use gsym_rs.Endian.Order.{Endian, int_value}
use gsym_rs.Endian.Cursor.{at, read_uint}
use gsym_rs.Reader.Layout.{ParsedLayout}

unfoldable pub address : List ℕ → ParsedLayout → ℕ → Result ℕ
address bytes l index = do
  relative ← ok_or (checked_mul index l.address_offset_size) (overflow "address table index")
  offset ← ok_or (checked_add l.address_offsets.start relative) (overflow "address table offset")
  cursor ← at bytes l.endian offset
  (value, _) ← read_uint l.address_offset_size cursor
  ok_or (checked_add l.base_address value) (overflow "function address")

-- The `while low < high` loop; `test` says whether an entry is at most the probe. Each round makes
-- `high - low` smaller, so it is enough fuel.
abbrev pub halve : ℕ → ℕ → ℕ
halve low high = low + (high - low) / 2

unfoldable pub search_round :
    (test : ℕ → Result Bool) (again : ℕ → ℕ → Result ℕ) (low high : ℕ) → Result ℕ
search_round test again low high =
    if ltb low high
    then (do
      below ← test (halve low high)
      if below then again (halve low high + 1) high else again low (halve low high))
    else ok low

unfoldable pub search_loop : (fuel : ℕ) (test : ℕ → Result Bool) (low high : ℕ) → Result ℕ
unfolding search_round
search_loop zero test low high = ok low
search_loop (suc fuel) test low high = search_round test (search_loop fuel test) low high

-- Entry `i` of a table of fixed-width integers.
abbrev pub entry_at : Endian → ℕ → List ℕ → ℕ → ℕ
entry_at endian width entries i = int_value endian (take width (drop (i * width) entries))

-- `partition_point` of a slice, by the same kind of search as below. The standard library leaves open
-- what it returns for a slice that is not partitioned; on any other, all searches agree. The
-- table of one-byte entries is cut into chunks, the others are reinterpreted whole.
unfoldable pub partition_point : Endian → (width : ℕ) → List ℕ → (probe : ℕ) → Result ℕ
unfolding search_loop
partition_point endian width entries probe = do
  guard (width == 1 || length entries % width == 0)
      (invalid_format "address table has an invalid typed layout")
  let count = length entries / width
  search_loop count (λ i. ok (leb (entry_at endian width entries i) probe)) 0 count

unfoldable pub find_address_index : List ℕ → ParsedLayout → ℕ → Result (Option ℕ)
unfolding partition_point search_loop
find_address_index bytes l probe =
    if ltb probe l.base_address || l.address_count == 0 then ok none else do
      entries ←
          ok_or (slice bytes l.address_offsets.start l.address_offsets.end)
            (invalid_offset l.address_offsets.start (length bytes))
      let width = l.address_offset_size
      low ←
          if width == 1 || width == 2 || width == 4 || width == 8
          then partition_point l.endian width entries (probe - l.base_address)
          else search_loop l.address_count
              (λ i. address bytes l i >>= λ found. ok (leb found probe)) 0 l.address_count
      ok (checked_sub low 1)
