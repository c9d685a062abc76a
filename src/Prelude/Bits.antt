-- ===== src/Prelude/Bits.antt =====
-- `&` and `|` on native numbers, for the masks and the disjoint fields that the codecs use.
use Prim.Native.Nat.{digits, bit_or-bitwise, bit_and-bitwise}
use native.Mathlib.Nat.{pow-suc}
use gsym_rs.Prelude.{
  ℕ, zero, suc, ◌+◌, ◌*◌, ◌/◌, ◌%◌, ◌^◌, ◌≤◌, ◌<◌, min, max, bit_and, bit_or, ◌≡◌, refl, sym, ◌∙◌,
  ap, Bool, true, ◌&&◌, arith, ◌==◌, ==_iff,
}

-- A statement about every byte is checked on a table.
unfoldable pub holds_below : ℕ → (ℕ → Bool) → Bool
holds_below zero test = true
holds_below (suc n) test = test n && holds_below n test

pub holds_below-at :
    (n : ℕ) (test : ℕ → Bool) (x : ℕ) → holds_below n test ≡ true → x < n → test x ≡ true
unfolding holds_below
holds_below-at zero test x h lt = absurd (omega arith)
holds_below-at (suc n) test x h lt = ground (arith, holds_below-at n test x)

continuation_table : holds_below 256 (λ b. bit_and b 0x80 == b / 128 * 128) ≡ true
unfolding holds_below
continuation_table = refl

sign_table : holds_below 256 (λ b. bit_and b 0x40 == b / 64 % 2 * 64) ≡ true
unfolding holds_below
sign_table = refl

set_continuation_table : holds_below 128 (λ b. bit_or b 0x80 == b + 128) ≡ true
unfolding holds_below
set_continuation_table = refl

pub continuation_bit : (b : ℕ) → b < 256 → bit_and b 0x80 ≡ b / 128 * 128
continuation_bit b h = (==_iff _ _).0 (holds_below-at 256 _ b continuation_table h)

pub sign_bit : (b : ℕ) → b < 256 → bit_and b 0x40 ≡ b / 64 % 2 * 64
sign_bit b h = (==_iff _ _).0 (holds_below-at 256 _ b sign_table h)

pub set_continuation : (b : ℕ) → b < 128 → bit_or b 0x80 ≡ b + 128
set_continuation b h = (==_iff _ _).0 (holds_below-at 128 _ b set_continuation_table h)

-- The digit recursion that the native operations stand for takes its number as fuel.
module _ (z : ℕ → ℕ) (f : ℕ → ℕ → ℕ) where
  digits-zero : (fuel b : ℕ) → digits z f fuel zero b ≡ z b
  digits-zero zero b = refl
  digits-zero (suc fuel) b = refl

  -- More fuel changes nothing.
  digits-covered :
      (fuel more a b : ℕ) → a ≤ fuel → a ≤ more → digits z f fuel a b ≡ digits z f more a b
  digits-covered fuel more zero b h k = digits-zero fuel b ∙ sym (digits-zero more b)
  digits-covered zero more (suc a) b h k = absurd (omega arith)
  digits-covered (suc fuel) zero (suc a) b h k = absurd (omega arith)
  digits-covered (suc fuel) (suc more) (suc a) b h k =
      ap (λ (t : ℕ). t * 2 + f (suc a % 2) (b % 2))
        (digits-covered fuel more (suc a / 2) (b / 2) (omega arith) (omega arith))

pub zero-bit_or : (b : ℕ) → bit_or 0 b ≡ b
zero-bit_or b = bit_or-bitwise 0 b

-- The lowest digit of a sum of fields.
bit_or_low : (a b : ℕ) → bit_or a b ≡ bit_or (a / 2) (b / 2) * 2 + max (a % 2) (b % 2)
bit_or_low zero b = omega (arith, zero-bit_or b, zero-bit_or (b / 2))
bit_or_low (suc a) b =
    let rest =
      digits-covered (λ n. n) max a (suc a / 2) (suc a / 2) (b / 2) (omega arith) (omega arith) in
    omega (arith, rest, bit_or-bitwise (suc a / 2) (b / 2), bit_or-bitwise (suc a) b)

double_shift : (b k : ℕ) → b * 2 ^ suc k ≡ b * 2 ^ k * 2
double_shift b k = omega (arith, ap (λ (t : ℕ). b * t) (pow-suc 2 k))

-- `a | (b << k)` is a sum when `a` fits in `k` bits.
pub bit_or_disjoint : (k a b : ℕ) → a < 2 ^ k → bit_or a (b * 2 ^ k) ≡ a + b * 2 ^ k
bit_or_disjoint zero zero b h = omega (arith, zero-bit_or (b * 2 ^ 0))
bit_or_disjoint zero (suc a) b h = absurd (omega arith)
bit_or_disjoint (suc k) a b h = ground (
  arith,
  bit_or_low a (b * 2 ^ suc k),
  double_shift b k,
  pow-suc 2 k,
  bit_or_disjoint k (a / 2) b (omega (arith, pow-suc 2 k)),
)

zero-bit_and : (b : ℕ) → bit_and 0 b ≡ 0
zero-bit_and = bit_and-bitwise 0

-- The lowest digit under a mask.
bit_and_low : (a b : ℕ) → bit_and a b ≡ bit_and (a / 2) (b / 2) * 2 + min (a % 2) (b % 2)
bit_and_low zero mask = omega (arith, zero-bit_and (mask / 2), zero-bit_and mask)
bit_and_low (suc a) mask =
    let rest =
      digits-covered (λ n. zero) min a (suc a / 2) (suc a / 2) (mask / 2) (omega arith)
        (omega arith) in
    omega (arith, rest, bit_and-bitwise (suc a / 2) (mask / 2), bit_and-bitwise (suc a) mask)

bit_and-zero_below : (n a : ℕ) → a < n → bit_and a 0 ≡ 0
bit_and-zero_below zero a h = absurd (omega arith)
bit_and-zero_below (suc n) zero h = refl
bit_and-zero_below (suc n) (suc a) h =
    omega (arith, bit_and_low (suc a) 0, bit_and-zero_below n (suc a / 2) (omega arith))

-- `a & 0x7f` keeps the seven low bits, of a number of any width.
pub bit_and-payload : (a : ℕ) → bit_and a 0x7f ≡ a % 128
bit_and-payload a = omega (
  arith,
  bit_and_low a 127,
  bit_and_low (a / 2) 63,
  bit_and_low (a / 2 / 2) 31,
  bit_and_low (a / 2 / 2 / 2) 15,
  bit_and_low (a / 2 / 2 / 2 / 2) 7,
  bit_and_low (a / 2 / 2 / 2 / 2 / 2) 3,
  bit_and_low (a / 2 / 2 / 2 / 2 / 2 / 2) 1,
  bit_and-zero_below (suc (a / 2 / 2 / 2 / 2 / 2 / 2 / 2)) (a / 2 / 2 / 2 / 2 / 2 / 2 / 2)
      (omega arith),
)
