-- ===== src/Format/Leb/Safety.antt =====
-- `read_uleb_bounded` on any input, well formed or not.
use gsym_rs.Prelude.{
  ℕ, zero, suc, ◌+◌, ◌-◌, ◌*◌, ◌/◌, ◌%◌, ◌^◌, ◌≤◌, ◌<◌, ◌≡◌, refl, ap, ◌∙◌, List, [], ◌∷◌, ◌++◌,
  length, arith, All, ◌⊎◌, inl, inr, true, ltb, ltb→lt,
}
use gsym_rs.Prelude.Bits.{
  holds_below, holds_below-at, bit_and-payload, continuation_bit, bit_or_disjoint,
}
use gsym_rs.Prelude.Words.{div_ceil, u64_max, IsByte}
use mathlib.Core.Path.{subst}
use native.Mathlib.Nat.{div-mul-le_self, mod-le}
use gsym_rs.Error.{ok, Result-cases}
use gsym_rs.Endian.Cursor.{Cursor, Read, read_u8}
use gsym_rs.Endian.Cursor.Rest.{rest, IsValid, advance, advance-IsValid, read_u8-ok}
use gsym_rs.Format.Leb.{shift_of, uleb_round, uleb_loop, read_uleb_bounded, check_uleb_width}
use gsym_rs.Format.Leb.Unsigned.{shift_next, group_below}

-- The number that groups of seven bits stand for, lowest first.
unfoldable pub group_value : List ℕ → ℕ
group_value [] = 0
group_value (b ∷ bs) = b % 128 + 128 * group_value bs

-- The overflow test of the loop: a group that comes back from the shift was not cut.
shift_fits : (g s : ℕ) → g * 2 ^ s % 2 ^ 64 / 2 ^ s ≡ g → g * 2 ^ s % 2 ^ 64 ≡ g * 2 ^ s
shift_fits g s h = omega (
  arith,
  div-mul-le_self (g * 2 ^ s % 2 ^ 64) (2 ^ s),
  ap (λ (t : ℕ). t * 2 ^ s) h,
  mod-le (g * 2 ^ s) (2 ^ 64),
)

module _ (again : ℕ → Read ℕ) (index value bits start : ℕ) (c : Cursor) (v : IsValid c)
    (hi : index ≤ 9) (low : value < 2 ^ shift_of index) where
  round-ok :
      {w : ℕ} {c' : Cursor}
      → uleb_round again index value bits start c ≡ ok (w, c')
      → (b : ℕ) × (rest c ≡ b ∷ rest (advance 1 c))
        × ((check_uleb_width (value + b % 128 * 2 ^ shift_of index) bits start ≡ ok w)
              × (c' ≡ advance 1 c)
            ⊎ (again (value + b % 128 * 2 ^ shift_of index) (advance 1 c) ≡ ok (w, c')))
  unfolding uleb_round
  round-ok h = elim (Result-cases (read_u8 c)) [
    | inl ((b, d), e) ↦
        let (ahead, moved) = read_u8-ok c v e in
        (
          b,
          ahead,
          ground (
            arith,
            e,
            moved,
            bit_and-payload b,
            shift_fits (b % 128) (shift_of index),
            bit_or_disjoint (shift_of index) value (b % 128),
          ),
        )
    | inr (x, e) ↦ cc (rw e at h)
  ]

width_limits : holds_below 65 (λ bits. ltb (u64_max / 2 ^ (64 - bits)) (2 ^ bits)) ≡ true
unfolding holds_below
width_limits = refl

-- The bound of `check_uleb_width` is 2 ^ bits - 1.
width_limit : (bits : ℕ) → bits ≤ 64 → u64_max / 2 ^ (64 - bits) < 2 ^ bits
width_limit bits h = ltb→lt _ _ (holds_below-at 65 _ bits width_limits (omega arith))

-- What a successful read returns: it took the groups `bs`, at least one and at most `n`, and
-- `w` is their value from bit `s` on over `value`, within the requested width.
pub record Decoded (c : Cursor) (value p bits n w : ℕ) (c' : Cursor) : Type 0 where
  pub groups : List ℕ
  pub taken : rest c ≡ groups ++ rest c'
  pub moved : c' ≡ advance (length groups) c
  pub some_group : 1 ≤ length groups
  pub bounded : length groups ≤ n
  pub decoded : w ≡ value + group_value groups * p
  pub fits : w < 2 ^ bits

last_Decoded :
    (c c' : Cursor) (b value p bits start n w : ℕ)
    → bits ≤ 64
    → rest c ≡ b ∷ rest (advance 1 c)
    → check_uleb_width (value + b % 128 * p) bits start ≡ ok w
    → c' ≡ advance 1 c
    → Decoded c value p bits (suc n) w c'
unfolding group_value check_uleb_width
last_Decoded c c' b value p bits start n w hb ahead h moved = record {
  groups = b ∷ [];
  taken = rw moved ahead;
  moved = moved;
  some_group = omega arith;
  bounded = omega arith;
  decoded = ground arith;
  fits = ground (arith, width_limit bits hb);
}

next_Decoded :
    (c c' : Cursor) (b value p bits n w : ℕ)
    → rest c ≡ b ∷ rest (advance 1 c)
    → Decoded (advance 1 c) (value + b % 128 * p) (128 * p) bits n w c'
    → Decoded c value p bits (suc n) w c'
unfolding group_value
next_Decoded c c' b value p bits n w ahead d = record {
  groups = b ∷ d.groups;
  taken = ahead ∙ ap (λ (t : List ℕ). b ∷ t) d.taken;
  moved =
      d.moved ∙ ap (λ (k : ℕ). record c { position = k }) (shifted c.position (length d.groups));
  some_group = omega arith;
  bounded = omega (arith, d.bounded);
  decoded = ground (arith, d.decoded);
  fits = d.fits;
}
  where
    shifted : (i k : ℕ) → i + 1 + k ≡ i + suc k
    shifted i k = omega arith

uleb_loop-ok :
    (n index value bits start w : ℕ) (c c' : Cursor)
    → IsValid c
    → bits ≤ 64
    → n + index ≤ 10
    → value < 2 ^ shift_of index
    → uleb_loop n index value bits start c ≡ ok (w, c')
    → Decoded c value (2 ^ shift_of index) bits n w c'
unfolding uleb_loop
uleb_loop-ok zero index value bits start w c c' v hb hi low h = cc
uleb_loop-ok (suc n) index value bits start w c c' v hb hi low h =
    let (b, ahead, next) =
      round-ok (λ value'. uleb_loop n (index + 1) value' bits start) index value bits start c v
        (omega arith) low h in
    elim next [
      | inl (last, moved) ↦
          last_Decoded c c' b value (2 ^ shift_of index) bits start n w hb ahead last moved
      | inr more ↦ next_Decoded c c' b value (2 ^ shift_of index) bits n w ahead (
          subst
            (λ (p : ℕ). Decoded (advance 1 c) (value + b % 128 * 2 ^ shift_of index) p bits n w c')
            (shift_next index (omega arith))
            (uleb_loop-ok n (index + 1) (value + b % 128 * 2 ^ shift_of index) bits start w
              (advance 1 c) c' (advance-IsValid c (b ∷ []) (rest (advance 1 c)) v ahead) hb
              (omega arith)
              (omega (
                arith,
                shift_next index (omega arith),
                group_below (b % 128) (2 ^ shift_of index) value (omega arith) low,
              ))
              more))
    ]

module _ (bits w : ℕ) (c c' : Cursor) (v : IsValid c) (bytes : All IsByte (rest c)) where
  first_byte : (b : ℕ) → rest c ≡ b ∷ rest (advance 1 c) → b < 256
  first_byte b e = (subst (All IsByte) e bytes).0

  first-ok :
      read_uleb_bounded bits c ≡ ok (w, c')
      → (1 ≤ bits)
        × (bits ≤ 64)
        × (b : ℕ) × (rest c ≡ b ∷ rest (advance 1 c))
        × ((b < 128) × (check_uleb_width b bits c.position ≡ ok w) × (c' ≡ advance 1 c)
            ⊎ (uleb_loop (div_ceil bits 7 - 1) 1 (b % 128) bits c.position (advance 1 c)
                ≡ ok (w, c')))
  unfolding read_uleb_bounded
  first-ok h = elim (Result-cases (read_u8 c)) [
    | inl ((b, d), e) ↦
        let (ahead, moved) = read_u8-ok c v e in
        let facts : (1 ≤ bits) × (bits ≤ 64) = ground arith in
        (
          facts.0,
          facts.1,
          b,
          ahead,
          ground (arith, e, moved, first_byte b ahead, bit_and-payload b, continuation_bit b),
        )
    | inr (x, e) ↦ ground (arith, e)
  ]

  -- A read that succeeds returns the value of the bytes that it took, which fits the requested
  -- width, and took at least one byte and at most the bytes that the width needs.
  pub read_uleb_bounded-ok :
      read_uleb_bounded bits c ≡ ok (w, c')
      → (1 ≤ bits) × (bits ≤ 64) × Decoded c 0 1 bits (div_ceil bits 7) w c'
  read_uleb_bounded-ok h =
      let (lo, hi, b, ahead, next) = first-ok h in
      let rounds : ℕ = div_ceil bits 7 - 1 in
      let enough : suc rounds ≡ div_ceil bits 7 = omega arith in
      (
        lo,
        hi,
        subst (λ (n : ℕ). Decoded c 0 1 bits n w c') enough
            (elim next [
              | inl (small, check, moved) ↦
                  last_Decoded c c' b 0 1 bits c.position rounds w hi ahead
                    (subst (λ (x : ℕ). check_uleb_width x bits c.position ≡ ok w) (omega arith)
                      check)
                    moved
              | inr loop ↦ next_Decoded c c' b 0 1 bits rounds w ahead (
                  subst (λ (x : ℕ). Decoded (advance 1 c) x 128 bits rounds w c') (omega arith)
                    (uleb_loop-ok rounds 1 (b % 128) bits c.position w (advance 1 c) c'
                      (advance-IsValid c (b ∷ []) (rest (advance 1 c)) v ahead) hi (omega arith)
                      (omega arith) loop))
            ]),
      )
