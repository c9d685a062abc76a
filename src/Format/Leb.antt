-- ===== src/Format/Leb.antt =====
-- src/format/leb.rs: LEB128 integers of at most 64 bits.
pub mod Unsigned
pub mod Signed
pub mod Safety
use gsym_rs.Prelude.{
  ℕ, zero, suc, ◌+◌, ◌-◌, ◌*◌, ◌/◌, ◌%◌, ◌^◌, min, ◌≡◌, Bool, true, false, not, ◌&&◌, ◌||◌, Option,
  none, some, ltb, leb, ◌==◌, if◌then◌else◌, bit_and, bit_or, String,
}
use gsym_rs.Prelude.Int.{ℤ, pos, negsuc, ◌-ℤ◌, ltb_ℤ, try_i64}
use gsym_rs.Prelude.Words.{u32_max, u64_max, div_ceil}
use gsym_rs.Error.{
  Error, unexpected_eof, out_of_range, malformed_uleb, malformed_sleb, Result, ok, err, ok_or,
}
use gsym_rs.Endian.Cursor.{Cursor, Read, ◌>>=◌, lift, gets, on_error, read_u8}
use gsym_rs.Endian.Encoder.{Encoder, write_u8}

abbrev pub maximum_bits : ℕ
maximum_bits = 64

abbrev pub map_uleb_eof : ℕ → Error → Error
map_uleb_eof offset (unexpected_eof _ _ _) = malformed_uleb offset "unterminated sequence"
map_uleb_eof offset error = error

abbrev pub map_sleb_eof : ℕ → Error → Error
map_sleb_eof offset (unexpected_eof _ _ _) = malformed_sleb offset "unterminated sequence"
map_sleb_eof offset error = error

-- `index.saturating_mul(7)` on `u32`.
abbrev pub shift_of : ℕ → ℕ
shift_of index = min (index * 7) u32_max

-- `checked_shl` and `checked_shr` on a word of `width` bits.
abbrev pub checked_shl : ℕ → ℕ → ℕ → Option ℕ
checked_shl width a shift = if ltb shift width then some (a * 2 ^ shift % 2 ^ width) else none

abbrev pub checked_shr : ℕ → ℕ → ℕ → Option ℕ
checked_shr width a shift = if ltb shift width then some (a / 2 ^ shift) else none

abbrev pub or_zero : Option ℕ → ℕ
or_zero none = 0
or_zero (some a) = a

unfoldable pub check_uleb_width : ℕ → ℕ → ℕ → Result ℕ
check_uleb_width value bits start =
    if ltb (u64_max / 2 ^ (maximum_bits - bits)) value
    then err (malformed_uleb start "value exceeds requested bit width")
    else ok value

-- The body of the `for` loop of `read_uleb_bounded`. `again` goes on with the next index.
unfoldable pub uleb_round : (again : ℕ → Read ℕ) (index value bits start : ℕ) → Read ℕ
unfolding check_uleb_width
uleb_round again index value bits start = do
  byte ← on_error (map_uleb_eof start) read_u8
  let shift = shift_of index
  let payload = bit_and byte 0x7f
  shifted ← lift (ok_or (checked_shl 64 payload shift) (malformed_uleb start "value exceeds u64"))
  if not (or_zero (checked_shr 64 shifted shift) == payload)
      then lift (err (malformed_uleb start "value exceeds u64"))
      else if bit_and byte 0x80 == 0
      then lift (check_uleb_width (bit_or value shifted) bits start)
      else again (bit_or value shifted)

-- The loop, by the rounds that are left.
unfoldable pub uleb_loop : (rounds index value bits start : ℕ) → Read ℕ
uleb_loop zero index value bits start = lift (err (malformed_uleb start "sequence is too long"))
uleb_loop (suc rounds) index value bits start =
    uleb_round (λ value'. uleb_loop rounds (index + 1) value' bits start) index value bits start

unfoldable pub read_uleb_bounded : ℕ → Read ℕ
unfolding check_uleb_width
read_uleb_bounded bits =
    if bits == 0 || ltb maximum_bits bits
    then lift (err (out_of_range "ULEB128 bit width" bits maximum_bits))
    else do
      start ← gets (λ c. c.position)
      first ← on_error (map_uleb_eof start) read_u8
      if bit_and first 0x80 == 0
          then lift (check_uleb_width first bits start)
          else uleb_loop (div_ceil bits 7 - 1) 1 (bit_and first 0x7f) bits start

unfoldable pub read_uleb : Read ℕ
unfolding read_uleb_bounded
read_uleb = read_uleb_bounded maximum_bits

-- An `i128` by its bit pattern, below 2 ^ 128.
abbrev pub i128_value : ℕ → ℤ
i128_value w = if ltb w (2 ^ 127) then pos w else negsuc (2 ^ 128 - w - 1)

unfoldable pub check_sleb_width : ℤ → ℕ → ℕ → Result ℤ
check_sleb_width value bits start =
    let magnitude = 2 ^ (bits - 1) in
    if ltb bits maximum_bits
      && (ltb_ℤ value (negsuc (magnitude - 1)) || ltb_ℤ (pos (magnitude - 1)) value)
    then err (malformed_sleb start "value exceeds requested bit width")
    else ok_or (try_i64 value) (malformed_sleb start "value exceeds i64")

-- `value |= -1 << encoded_bits`, if the last byte has its sign bit set.
abbrev pub sign_extend : ℕ → ℕ → ℕ → ℕ
sign_extend byte encoded_bits value =
    if bit_and byte 0x40 == 0
    then value
    else bit_or value (or_zero (checked_shl 128 (2 ^ 128 - 1) encoded_bits))

-- The body of the `for` loop of `read_sleb_bounded`.
unfoldable pub sleb_round : (again : ℕ → Read ℤ) (index value bits start : ℕ) → Read ℤ
sleb_round again index value bits start = do
  byte ← on_error (map_sleb_eof start) read_u8
  let shift = shift_of index
  shifted ←
      lift (
        ok_or (checked_shl 128 (bit_and byte 0x7f) shift)
          (malformed_sleb start "value exceeds i64"))
  if bit_and byte 0x80 == 0
      then lift (
          check_sleb_width (i128_value (sign_extend byte (shift + 7) (bit_or value shifted))) bits
            start)
      else again (bit_or value shifted)

unfoldable pub sleb_loop : (rounds index value bits start : ℕ) → Read ℤ
sleb_loop zero index value bits start = lift (err (malformed_sleb start "sequence is too long"))
sleb_loop (suc rounds) index value bits start =
    sleb_round (λ value'. sleb_loop rounds (index + 1) value' bits start) index value bits start

unfoldable pub read_sleb_bounded : ℕ → Read ℤ
unfolding check_sleb_width
read_sleb_bounded bits =
    if bits == 0 || ltb maximum_bits bits
    then lift (err (out_of_range "SLEB128 bit width" bits maximum_bits))
    else do
      start ← gets (λ c. c.position)
      first ← on_error (map_sleb_eof start) read_u8
      if bit_and first 0x80 == 0
          then lift (
              check_sleb_width
                (if bit_and first 0x40 == 0
                  then pos first
                  else pos (bit_or first 0x80) -ℤ pos 0x100)
                bits start)
          else sleb_loop (div_ceil bits 7 - 1) 1 (bit_and first 0x7f) bits start

unfoldable pub read_sleb : Read ℤ
unfolding read_sleb_bounded
read_sleb = read_sleb_bounded maximum_bits

-- The loop of `write_uleb`. A `u64` has ten groups of seven bits, so ten rounds are enough.
unfoldable pub write_uleb_loop : (rounds value : ℕ) → Encoder → Encoder
unfolding write_u8
write_uleb_loop zero value output = output
write_uleb_loop (suc rounds) value output =
    let low = bit_and value 0x7f in
    let next = value / 2 ^ 7 in
    let output' = write_u8 (if next == 0 then low else bit_or low 0x80) output in
    let rest = write_uleb_loop rounds next output' in if next == 0 then output' else rest

unfoldable pub write_uleb : ℕ → Encoder → Encoder
unfolding write_uleb_loop
write_uleb = write_uleb_loop 10

-- `value.to_le_bytes()[0]`, of the two's complement of a negative value.
abbrev pub low_byte : ℤ → ℕ
low_byte (pos n) = n % 256
low_byte (negsuc n) = 255 - n % 256

-- `value >> 7`, which rounds down.
abbrev pub shift_right : ℤ → ℤ
shift_right (pos n) = pos (n / 2 ^ 7)
shift_right (negsuc n) = negsuc (n / 2 ^ 7)

abbrev pub is_zero : ℤ → Bool
is_zero (pos n) = n == 0
is_zero (negsuc n) = false

abbrev pub is_minus_one : ℤ → Bool
is_minus_one (pos n) = false
is_minus_one (negsuc n) = n == 0

-- The loop of `write_sleb`, on an `i64`.
unfoldable pub write_sleb_loop : ℕ → ℤ → Encoder → Encoder
unfolding write_u8
write_sleb_loop zero value output = output
write_sleb_loop (suc rounds) value output =
    let byte = bit_and (low_byte value) 0x7f in
    let sign_set = not (bit_and byte 0x40 == 0) in
    let next = shift_right value in
    let done = (is_zero next && not sign_set) || (is_minus_one next && sign_set) in
    let output' = write_u8 (if done then byte else bit_or byte 0x80) output in
    let rest = write_sleb_loop rounds next output' in if done then output' else rest

unfoldable pub write_sleb : ℤ → Encoder → Encoder
unfolding write_sleb_loop
write_sleb = write_sleb_loop 10
