-- ===== src/Endian/Encoder.antt =====
-- src/endian.rs: `Encoder`. A method returns the changed buffer; one that can fail returns a
-- `Result`, and after an error no caller uses the buffer again.
pub mod Writes
pub mod Appends
use gsym_rs.Prelude.{
  ℕ, ◌+◌, ◌-◌, ◌*◌, ◌/◌, ◌%◌, ◌^◌, ◌≤◌, ◌<◌, ◌≡◌, Bool, true, false, not, ◌&&◌, ◌||◌, List, [], ◌∷◌,
  ◌++◌, length, replicate, take, drop, slice, Option, none, some, ltb, leb, ◌==◌, if◌then◌else◌,
}
use gsym_rs.Prelude.Words.{checked_add, u32_max, u64_max}
use gsym_rs.Error.{
  Error, unexpected_eof, overflow, out_of_range, invalid_alignment, Result, ok, err, ok_or, ◌>>=◌,
  ◌>>◌, guard,
}
use gsym_rs.Endian.Order.{Endian, little, big, int_bytes}

pub record Encoder : Type 0 where
  pub bytes : List ℕ
  pub endian : Endian

-- `with_capacity`: the capacity changes nothing that is written.
abbrev pub with_capacity : Endian → ℕ → Encoder
with_capacity endian capacity = record { bytes = []; endian = endian }

abbrev pub len : Encoder → ℕ
len e = length e.bytes

unfoldable pub write_bytes : List ℕ → Encoder → Encoder
write_bytes bytes e = record e { bytes = e.bytes ++ bytes }

unfoldable pub write_u8 : ℕ → Encoder → Encoder
unfolding write_bytes
write_u8 value e = write_bytes (value ∷ []) e

-- `extend_from_slice` of the value's bytes in the buffer's order.
unfoldable pub write_fixed : ℕ → ℕ → Encoder → Encoder
unfolding write_bytes int_bytes
write_fixed n value e = write_bytes (int_bytes e.endian n value) e

unfoldable pub write_u16 : ℕ → Encoder → Encoder
unfolding write_fixed
write_u16 = write_fixed 2

unfoldable pub write_u32 : ℕ → Encoder → Encoder
unfolding write_fixed
write_u32 = write_fixed 4

unfoldable pub write_u64 : ℕ → Encoder → Encoder
unfolding write_fixed
write_u64 = write_fixed 8

-- The low-order `count` of the eight bytes of a value.
abbrev window : Endian → ℕ → List ℕ → List ℕ
window little count bytes = take count bytes
window big count bytes = drop (8 - count) bytes

-- `u64::MAX >> (8 - width) * 8`.
abbrev width_max : ℕ → ℕ
width_max width = u64_max / 2 ^ ((8 - width) * 8)

write_window : ℕ → ℕ → Encoder → Result Encoder
unfolding write_bytes int_bytes
write_window value width e = ok (write_bytes (window e.endian width (int_bytes e.endian 8 value)) e)

-- The match of `write_uint` on its width, and the checks below it.
unfoldable pub write_uint : ℕ → ℕ → Encoder → Result Encoder
unfolding write_u32 write_u64 write_window
write_uint value width e =
    if width == 4
    then if leb value u32_max
      then ok (write_u32 value e)
      else err (out_of_range "fixed-width integer" value u32_max)
    else if width == 8
    then ok (write_u64 value e)
    else if not (leb 1 width && leb width 8)
    then err (out_of_range "integer width" width 8)
    else if ltb width 8 && ltb (width_max width) value
    then err (out_of_range "fixed-width integer" value (width_max width))
    else write_window value width e

-- `resize(new_len, 0)` to the next multiple of the alignment.
unfoldable pub align_to : ℕ → Encoder → Result Encoder
align_to alignment e = do
  guard (not (alignment == 0)) (invalid_alignment alignment)
  let remainder = len e % alignment
  if remainder == 0 then ok e else do
    let padding = alignment - remainder
    new_len ← ok_or (checked_add (len e) padding) (overflow "aligned output length")
    ok (record e { bytes = e.bytes ++ replicate (new_len - len e) 0 })

-- `copy_from_slice` of a value's bytes over `bytes[offset..end]`.
unfoldable pub patch : ℕ → List ℕ → List ℕ → List ℕ
patch offset value bytes = take offset bytes ++ value ++ drop (offset + length value) bytes

unfoldable pub patch_u32 : ℕ → ℕ → Encoder → Result Encoder
unfolding patch int_bytes
patch_u32 offset value e = do
  let bytes = int_bytes e.endian 4 value
  end ← ok_or (checked_add offset (length bytes)) (overflow "patch end offset")
  destination ← ok_or (slice e.bytes offset end) (unexpected_eof offset 4 (len e - offset))
  ok (record e { bytes = patch offset bytes e.bytes })
