-- ===== src/Format/Leb/Signed.antt =====
-- `write_sleb` against an arithmetic description of the encoding, and its reading by `read_sleb`.
use gsym_rs.Prelude.{
  ℕ, zero, suc, ◌+◌, ◌-◌, ◌*◌, ◌/◌, ◌%◌, ◌^◌, ◌≤◌, ◌<◌, ◌≡◌, ◌≢◌, refl, sym, ap, ◌∙◌, List, [], ◌∷◌,
  ◌++◌, length, arith, true, ltb, leb, leb→le, ltb→lt, ◌==◌, ◌&&◌, if◌then◌else◌, bit_and, inl, inr,
  Bool-cases, append-nil,
}
use gsym_rs.Prelude.Int.{ℤ, pos, negsuc, ◌-ℤ◌, magnitude, IsI64}
use gsym_rs.Prelude.Bits.{
  holds_below, holds_below-at, bit_and-payload, continuation_bit, sign_bit, set_continuation,
  bit_or_disjoint,
}
use mathlib.Core.Path.{subst}
use native.Mathlib.Nat.{pow-suc, div-add-mod}
use native.Mathlib.Numerals.{towards_suc}
use gsym_rs.Error.{ok}
use gsym_rs.Endian.Order.{Endian}
use gsym_rs.Endian.Cursor.{Cursor, Read}
use gsym_rs.Endian.Cursor.Rest.{rest, IsValid, advance, read_u8-rest}
use gsym_rs.Endian.Cursor.Reads.{Reads, Reads-step, Reads-cast, step_run}
use gsym_rs.Endian.Encoder.{Encoder, len, write_bytes}
use gsym_rs.Endian.Encoder.Writes.{write_bytes-append, Reads-after, cursor_over}
use gsym_rs.Format.Leb.{
  shift_of, sleb_round, sleb_loop, read_sleb, write_sleb_loop, write_sleb, check_sleb_width,
  shift_right, sign_extend, i128_value,
}
use gsym_rs.Format.Leb.Unsigned.{shift_next, group_below}

-- The seven low bits of the two's complement.
abbrev low_group : ℤ → ℕ
low_group (pos n) = n % 128
low_group (negsuc n) = 127 - n % 128

unfoldable pub sleb_bytes : ℕ → ℤ → List ℕ
sleb_bytes zero v = []
sleb_bytes (suc k) v =
    let rest = sleb_bytes k (shift_right v) in
    if ltb (magnitude v) 64 then low_group v ∷ [] else (low_group v + 128) ∷ rest

pub write_sleb_loop-bytes :
    (k : ℕ) (v : ℤ) (e : Encoder) → write_sleb_loop k v e ≡ write_bytes (sleb_bytes k v) e
unfolding write_sleb_loop sleb_bytes
write_sleb_loop-bytes zero v e =
    unfold write_bytes in (sym (ap (λ (t : List ℕ). record e { bytes = t }) (append-nil e.bytes)))
write_sleb_loop-bytes (suc k) (pos n) e = ground (
  arith,
  bit_and-payload (n % 256),
  sign_bit (n % 128),
  set_continuation (n % 128),
  write_sleb_loop-bytes k (pos (n / 128)) (write_bytes ((n % 128 + 128) ∷ []) e),
  write_bytes-append ((n % 128 + 128) ∷ []) (sleb_bytes k (pos (n / 128))) e,
)
write_sleb_loop-bytes (suc k) (negsuc n) e = ground (
  arith,
  bit_and-payload (255 - n % 256),
  sign_bit (127 - n % 128),
  set_continuation (127 - n % 128),
  write_sleb_loop-bytes k (negsuc (n / 128)) (write_bytes ((127 - n % 128 + 128) ∷ []) e),
  write_bytes-append ((127 - n % 128 + 128) ∷ []) (sleb_bytes k (negsuc (n / 128))) e,
)

pub write_sleb-bytes : (v : ℤ) (e : Encoder) → write_sleb v e ≡ write_bytes (sleb_bytes 10 v) e
unfolding write_sleb
write_sleb-bytes v e = write_sleb_loop-bytes 10 v e

-- `w` shifted to the bit with the weight `p`, over the low bits `value`.
abbrev combine : (value p : ℕ) → ℤ → ℤ
combine value p (pos n) = pos (value + n * p)
combine value p (negsuc n) = negsuc (suc n * p - value - 1)

combine_next :
    (value p : ℕ) (w : ℤ)
    → value < p
    → combine (value + low_group w * p) (128 * p) (shift_right w) ≡ combine value p w
combine_next value p (pos n) h = ap pos (omega (arith, ap (λ (t : ℕ). t * p) (div-add-mod n 128)))
combine_next value p (negsuc n) h = ap negsuc (
    omega (
      arith,
      ap (λ (t : ℕ). t * p) (div-add-mod n 128),
      ap (λ (t : ℕ). t * p) (complement (n % 128) (omega arith)),
    ))
  where
    complement : (r : ℕ) → r < 128 → 127 - r + r ≡ 127
    complement r h = omega arith

mask_table :
    holds_below 128 (λ t.
      ((2 ^ 128 - 1) * 2 ^ t % 2 ^ 128 == (2 ^ (128 - t) - 1) * 2 ^ t)
      && (2 ^ (128 - t) - 1) * 2 ^ t + 2 ^ t == 2 ^ 128)
    ≡ true
unfolding holds_below
mask_table = refl

power_table : holds_below 64 (λ s. leb (2 ^ s) (2 ^ 63)) ≡ true
unfolding holds_below
power_table = refl

power_le : (s : ℕ) → s < 64 → 2 ^ s ≤ 2 ^ 63
power_le s h = leb→le _ _ (holds_below-at 64 _ s power_table h)

-- The mask of `sign_extend`, as a multiple of the bits that it leaves alone.
module _ (t : ℕ) (small : t < 128) where
  mask_facts :
      ((2 ^ 128 - 1) * 2 ^ t % 2 ^ 128 ≡ (2 ^ (128 - t) - 1) * 2 ^ t)
      × ((2 ^ (128 - t) - 1) * 2 ^ t + 2 ^ t ≡ 2 ^ 128)
  mask_facts = ground (arith, holds_below-at 128 _ t mask_table small)

  extend_negative :
      (byte value : ℕ)
      → bit_and byte 0x40 ≢ 0
      → value < 2 ^ t
      → sign_extend byte t value + 2 ^ t ≡ value + 2 ^ 128
  extend_negative byte value set low =
      ground (arith, mask_facts, bit_or_disjoint t value (2 ^ (128 - t) - 1) low)

seven_more : (s : ℕ) → 2 ^ (s + 7) ≡ 128 * 2 ^ s
seven_more s = simp towards_suc (omega arith)

complement : (n p : ℕ) → n < 64 → (127 - n % 128) * p + suc n * p ≡ 128 * p
complement n p h = omega (arith, ap (λ (t : ℕ). t * p) (sum n h))
  where
    sum : (n : ℕ) → n < 64 → 127 - n % 128 + suc n ≡ 128
    sum n h = omega arith

module _ (again : ℕ → Read ℤ) (index value start : ℕ) (c : Cursor) (ys : List ℕ) (v : IsValid c)
    (hi : index ≤ 9) (low : value < 2 ^ shift_of index) where
  -- A group of seven bits does not reach the top of an `i128`.
  group_fits : (g : ℕ) → g < 128 → value + g * 2 ^ shift_of index < 2 ^ 70
  group_fits g h = omega (
    arith,
    group_below g (2 ^ shift_of index) value h low,
    power_le (shift_of index) (omega arith),
  )

  inner_round :
      (g : ℕ)
      → g < 128
      → rest c ≡ (g + 128) ∷ ys
      → sleb_round again index value 64 start c
        ≡ again (value + g * 2 ^ shift_of index) (advance 1 c)
  unfolding sleb_round
  inner_round g small h = rw (read_u8-rest c (g + 128) ys v h) (
      ground (
        arith,
        bit_and-payload (g + 128),
        continuation_bit (g + 128),
        group_fits g small,
        bit_or_disjoint (shift_of index) value g,
      ))

  -- The pattern of the last group of a negative value, with the sign extended over it.
  negative_value :
      (n : ℕ)
      → n < 64
      → i128_value (
          sign_extend
            (127 - n % 128)
            (shift_of index + 7)
            (value + (127 - n % 128) * 2 ^ shift_of index))
        ≡ negsuc (suc n * 2 ^ shift_of index - value - 1)
  negative_value n small = ground (
    arith,
    sign_bit (127 - n % 128),
    group_below (127 - n % 128) (2 ^ shift_of index) value,
    seven_more (shift_of index),
    power_le (shift_of index) (omega arith),
    complement n (2 ^ shift_of index) small,
    extend_negative (shift_of index + 7) (omega arith) (127 - n % 128)
        (value + (127 - n % 128) * 2 ^ shift_of index),
  )

  last_round :
      (w : ℤ)
      → magnitude w < 64
      → IsI64 (combine value (2 ^ shift_of index) w)
      → rest c ≡ low_group w ∷ ys
      → sleb_round again index value 64 start c
        ≡ ok (combine value (2 ^ shift_of index) w, advance 1 c)
  unfolding sleb_round check_sleb_width
  last_round (pos n) small fits h = rw (read_u8-rest c (n % 128) ys v h) (
      ground (
        arith,
        bit_and-payload (n % 128),
        continuation_bit (n % 128),
        sign_bit (n % 128),
        group_fits (n % 128),
        bit_or_disjoint (shift_of index) value (n % 128),
      ))
  last_round (negsuc n) small fits h = rw (read_u8-rest c (127 - n % 128) ys v h) (
      ground (
        arith,
        bit_and-payload (127 - n % 128),
        continuation_bit (127 - n % 128),
        sign_bit (127 - n % 128),
        group_fits (127 - n % 128),
        bit_or_disjoint (shift_of index) value (127 - n % 128),
        negative_value n small,
      ))

-- `k` groups are enough for the magnitude `n`, with room for the sign.
abbrev Enough : ℕ → ℕ → Type 0
Enough zero n = ⊥
Enough (suc k) n = n < 64 * 128 ^ k

magnitude-shift_right : (w : ℤ) → magnitude (shift_right w) ≡ magnitude w / 128
magnitude-shift_right (pos n) = refl
magnitude-shift_right (negsuc n) = refl

Enough-next :
    (k : ℕ) (w : ℤ)
    → 64 ≤ magnitude w
    → Enough (suc k) (magnitude w)
    → Enough k (magnitude (shift_right w))
Enough-next zero w more h = absurd (omega arith)
Enough-next (suc k) w more h = omega (arith, magnitude-shift_right w, pow-suc 128 k)

low_group-lt : (w : ℤ) → low_group w < 128
low_group-lt (pos n) = omega arith
low_group-lt (negsuc n) = omega arith

-- The next index sees the same value.
carry :
    (index value : ℕ) (w : ℤ)
    → index ≤ 9
    → value < 2 ^ shift_of index
    → combine (value + low_group w * 2 ^ shift_of index) (2 ^ shift_of (index + 1)) (shift_right w)
      ≡ combine value (2 ^ shift_of index) w
carry index value w hi low =
    ap (λ (p : ℕ). combine (value + low_group w * 2 ^ shift_of index) p (shift_right w))
      (shift_next index hi)
    ∙ combine_next value (2 ^ shift_of index) w low

Reads-loop :
    {e : Endian} (k index value start : ℕ) (w : ℤ)
    → k + index ≡ 10
    → Enough k (magnitude w)
    → value < 2 ^ shift_of index
    → IsI64 (combine value (2 ^ shift_of index) w)
    → Reads e
        (sleb_loop k index value 64 start)
        (sleb_bytes k w)
        (combine value (2 ^ shift_of index) w)
unfolding sleb_bytes sleb_loop
Reads-loop zero index value start w ki top low fits = absurd top
Reads-loop (suc k) index value start w ki top low fits =
    let again : ℕ → Read ℤ = λ value'. sleb_loop k (index + 1) value' 64 start in
    let value' : ℕ = value + low_group w * 2 ^ shift_of index in
    let hi : index ≤ 9 = omega arith in
    let same = carry index value w hi low in
    elim (Bool-cases (ltb (magnitude w) 64)) [
      | inl last ↦
          rw (last, sleb_bytes)
            (record {
              run = λ c ys v o h.
                  last_round again index value start c ys v hi low w (ltb→lt _ _ last) fits h;
            })
      | inr more ↦
          rw (more, sleb_bytes)
            (Reads-step (sleb_round again index value 64 start) (again value') (low_group w + 128)
              (λ c ys v h.
                inner_round again index value start c ys v hi low (low_group w) (low_group-lt w) h)
              (Reads-cast refl same (
                Reads-loop k (index + 1) value' start (shift_right w) (omega arith)
                  (Enough-next k w (ground arith) top)
                  (omega (
                    arith,
                    shift_next index hi,
                    group_below (low_group w) (2 ^ shift_of index) value (low_group-lt w) low,
                  ))
                  (subst IsI64 (sym same) fits))))
    ]

Reads-later :
    {e : Endian} (k start : ℕ) (v : ℤ)
    → k ≡ 9
    → IsI64 v
    → 64 ≤ magnitude v
    → Reads e (sleb_loop 9 1 (low_group v) 64 start) (sleb_bytes k (shift_right v)) v
Reads-later {e = e} k start v nine h more =
    subst
      (λ (n : ℕ). Reads e (sleb_loop 9 1 (low_group v) 64 start) (sleb_bytes n (shift_right v)) v)
      (sym nine)
      (Reads-cast refl same (
        Reads-loop 9 1 (low_group v) start (shift_right v) refl
          (omega (arith, magnitude-shift_right v)) (low_group-lt v) (subst IsI64 (sym same) h)))
  where
    whole : (w : ℤ) → combine (low_group w) (2 ^ shift_of 1) (shift_right w) ≡ w
    whole (pos n) = ap pos (omega arith)
    whole (negsuc n) = ap negsuc (omega arith)

    same : combine (low_group v) (2 ^ shift_of 1) (shift_right v) ≡ v
    same = whole v

one_byte :
    (c : Cursor) (ys : List ℕ) (v : ℤ)
    → IsValid c
    → magnitude v < 64
    → rest c ≡ low_group v ∷ ys
    → read_sleb c ≡ ok (v, advance 1 c)
unfolding read_sleb ◌-ℤ◌
one_byte c ys (pos n) v small h =
    rw (read_u8-rest c (n % 128) ys v h)
      (ground (arith, continuation_bit (n % 128), sign_bit (n % 128)))
one_byte c ys (negsuc n) v small h = rw (read_u8-rest c (127 - n % 128) ys v h) (
    ground (
      arith,
      continuation_bit (127 - n % 128),
      sign_bit (127 - n % 128),
      set_continuation (127 - n % 128),
    ))

Reads-first :
    {e : Endian} (k : ℕ) (v : ℤ) → k ≡ 9 → IsI64 v → Reads e read_sleb (sleb_bytes (suc k) v) v
unfolding read_sleb sleb_bytes
Reads-first k v nine h = elim (Bool-cases (ltb (magnitude v) 64)) [
  | inl last ↦
      rw (last, sleb_bytes) (record { run = λ c ys w o p. one_byte c ys v w (ltb→lt _ _ last) p })
  | inr more ↦
      rw (more, sleb_bytes)
        (record {
          run = λ c ys w o p.
              step_run (sleb_loop 9 1 (low_group v) 64 c.position) (low_group v + 128) c ys w o p
                (rw (read_u8-rest c (low_group v + 128) (sleb_bytes k (shift_right v) ++ ys) w p) (
                  ground (
                    arith,
                    low_group-lt v,
                    continuation_bit (low_group v + 128),
                    bit_and-payload (low_group v + 128),
                  )))
                (Reads-later k c.position v nine h (ground arith));
        })
]

-- `read_sleb` reads back the `i64` that `write_sleb` wrote.
pub Reads-sleb : {e : Endian} (v : ℤ) → IsI64 v → Reads e read_sleb (sleb_bytes 10 v) v
Reads-sleb v h = Reads-first 9 v refl h

-- Whatever follows it, `read_sleb` returns the `i64` that `write_sleb` appended and stops behind it.
pub read_sleb-write_sleb :
    (v : ℤ) (e : Encoder) (tail : List ℕ)
    → IsI64 v
    → length ((write_sleb v e).bytes ++ tail) < 2 ^ 64
    → read_sleb (cursor_over (write_sleb v e) tail (len e))
      ≡ ok (v, cursor_over (write_sleb v e) tail (len (write_sleb v e)))
read_sleb-write_sleb v e tail h small =
    Reads-after read_sleb (sleb_bytes 10 v) e (write_sleb v e) tail (write_sleb-bytes v e)
      (Reads-sleb v h) small
