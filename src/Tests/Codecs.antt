-- ===== src/Tests/Codecs.antt =====
-- The integers of `endian.rs` and `leb.rs`.
use mathlib.Core.Path.{subst}
use gsym_rs.Prelude.{
  ℕ, ◌≡◌, ◌+◌, ◌%◌, ◌^◌, ◌≤◌, ◌<◌, refl, sym, [], ◌∷◌, ◌++◌, length, take, true, arith,
}
use gsym_rs.Prelude.Words.{div_ceil}
use gsym_rs.Prelude.Int.{negsuc}
use gsym_rs.Error.{ok}
use gsym_rs.Endian.Order.{little, big, int_bytes, le_bytes, int_value, le_value}
use gsym_rs.Endian.Cursor.{Cursor, new, read_uint, read_u8, read_fixed, take_array}
use gsym_rs.Endian.Cursor.Rest.{advance}
use gsym_rs.Endian.Encoder.{Encoder, len, write_uint, write_u8, write_bytes, align_to}
use gsym_rs.Endian.Encoder.Writes.{cursor_over, read_uint-write_uint, align_to-aligned}
use gsym_rs.Format.Leb.{
  read_uleb, read_uleb_bounded, read_sleb, write_uleb, write_sleb, write_uleb_loop, write_sleb_loop,
  uleb_loop, uleb_round, check_uleb_width,
}
use gsym_rs.Format.Leb.Unsigned.{read_uleb-write_uleb}
use gsym_rs.Format.Leb.Signed.{read_sleb-write_sleb}
use gsym_rs.Format.Leb.Safety.{Decoded, read_uleb_bounded-ok}
use gsym_rs.Model.Range.{contains, contains-contains_range}

abbrev written : Encoder
written = record { bytes = 7 ∷ []; endian = big }

three : write_uint 65538 3 written ≡ ok (record { bytes = 7 ∷ 1 ∷ 0 ∷ 2 ∷ []; endian = big })
unfolding write_uint write_bytes int_bytes le_bytes
three = refl

read_uint-write_uint_example :
    read_uint 3 (cursor_over (record { bytes = 7 ∷ 1 ∷ 0 ∷ 2 ∷ []; endian = big }) (9 ∷ []) 1)
    ≡ ok (65538, cursor_over (record { bytes = 7 ∷ 1 ∷ 0 ∷ 2 ∷ []; endian = big }) (9 ∷ []) 4)
read_uint-write_uint_example =
    read_uint-write_uint 3 65538 written (9 ∷ []) (omega arith) three (omega arith)

padded : align_to 4 written ≡ ok (record { bytes = 7 ∷ 0 ∷ 0 ∷ 0 ∷ []; endian = big })
unfolding align_to
padded = refl

align_to-aligned_example :
    (4 % 4 ≡ 0) × (1 ≤ 4) × (4 < 1 + 4) × (take {A = ℕ} 1 (7 ∷ 0 ∷ 0 ∷ 0 ∷ []) ≡ 7 ∷ [])
align_to-aligned_example = align_to-aligned 4 written padded

uleb_300 : write_uleb 300 written ≡ record { bytes = 7 ∷ 172 ∷ 2 ∷ []; endian = big }
unfolding write_uleb write_uleb_loop write_u8 write_bytes
uleb_300 = refl

read_uleb-write_uleb_example :
    read_uleb (cursor_over (write_uleb 300 written) (9 ∷ []) 1)
    ≡ ok (300, cursor_over (write_uleb 300 written) (9 ∷ []) (len (write_uleb 300 written)))
read_uleb-write_uleb_example =
    read_uleb-write_uleb 300 written (9 ∷ []) (omega arith)
      (subst (λ (e : Encoder). length (e.bytes ++ 9 ∷ []) < 2 ^ 64) (sym uleb_300) (omega arith))

sleb_minus_two : write_sleb (negsuc 1) written ≡ record { bytes = 7 ∷ 126 ∷ []; endian = big }
unfolding write_sleb write_sleb_loop write_u8 write_bytes
sleb_minus_two = refl

read_sleb-write_sleb_example :
    read_sleb (cursor_over (write_sleb (negsuc 1) written) (9 ∷ []) 1)
    ≡ ok (
      negsuc 1,
      cursor_over (write_sleb (negsuc 1) written) (9 ∷ []) (len (write_sleb (negsuc 1) written)),
    )
read_sleb-write_sleb_example = read_sleb-write_sleb (negsuc 1) written (9 ∷ []) (omega arith) (
    subst (λ (e : Encoder). length (e.bytes ++ 9 ∷ []) < 2 ^ 64) (sym sleb_minus_two) (omega arith))

abbrev source : Cursor
source = new (172 ∷ 2 ∷ 5 ∷ []) little

decoded_300 : read_uleb_bounded 16 source ≡ ok (300, advance 2 source)
unfolding read_uleb_bounded uleb_loop uleb_round check_uleb_width read_u8 read_fixed take_array
    int_value le_value
decoded_300 = refl

read_uleb_bounded-ok_example :
    (1 ≤ 16) × (16 ≤ 64) × Decoded source 0 1 16 (div_ceil 16 7) 300 (advance 2 source)
read_uleb_bounded-ok_example =
    read_uleb_bounded-ok 16 300 source (advance 2 source)
      (record { within = omega arith; small = omega arith })
      (omega arith, (omega arith, (omega arith, tt))) decoded_300

contains-contains_range_example : contains (record { start = 16; end = 64 }) 33 ≡ true
contains-contains_range_example =
    contains-contains_range (record { start = 16; end = 64 }) (record { start = 32; end = 40 }) 33
      refl refl
