-- ===== src/Endian/Order.antt =====
-- src/endian.rs: the byte order, and the language's conversions between integers and bytes.
use gsym_rs.Prelude.{
  ℕ, zero, suc, ◌+◌, ◌*◌, ◌/◌, ◌%◌, ◌^◌, ◌<◌, ◌≡◌, refl, ap, ◌∙◌, List, [], ◌∷◌, ◌++◌, reverse,
  length, length-reverse, replicate, All, arith,
}
use gsym_rs.Prelude.Words.{IsByte}
use mathlib.Core.List.{reverse-append, reverse-reverse}
use native.Mathlib.Nat.{pow-suc}

pub data Endian : Type 0 where
  little big : Endian

-- The `n` low bytes of `v`, lowest first: `v.to_le_bytes()` at width `n`.
unfoldable pub le_bytes : ℕ → ℕ → List ℕ
le_bytes zero v = []
le_bytes (suc n) v = (v % 256) ∷ le_bytes n (v / 256)

-- `from_le_bytes`.
unfoldable pub le_value : List ℕ → ℕ
le_value [] = 0
le_value (b ∷ bs) = b + 256 * le_value bs

-- `to_le_bytes` or `to_be_bytes`.
unfoldable pub int_bytes : Endian → ℕ → ℕ → List ℕ
int_bytes little n v = le_bytes n v
int_bytes big n v = reverse (le_bytes n v)

-- `from_le_bytes` or `from_be_bytes`.
unfoldable pub int_value : Endian → List ℕ → ℕ
int_value little bs = le_value bs
int_value big bs = le_value (reverse bs)

pub length-le_bytes : (n v : ℕ) → length (le_bytes n v) ≡ n
unfolding le_bytes
length-le_bytes zero v = refl
length-le_bytes (suc n) v = ap suc (length-le_bytes n (v / 256))

pub length-int_bytes : (e : Endian) (n v : ℕ) → length (int_bytes e n v) ≡ n
unfolding int_bytes
length-int_bytes little n v = length-le_bytes n v
length-int_bytes big n v = length-reverse (le_bytes n v) ∙ length-le_bytes n v

le_value-le_bytes : (n v : ℕ) → v < 256 ^ n → le_value (le_bytes n v) ≡ v
unfolding le_value le_bytes
le_value-le_bytes zero v h = omega arith
le_value-le_bytes (suc n) v h =
    omega (arith, le_value-le_bytes n (v / 256) (omega (arith, pow-suc 256 n)))

-- A value that fits in `n` bytes is read back from them, in either order.
pub int_value-int_bytes : (e : Endian) (n v : ℕ) → v < 256 ^ n → int_value e (int_bytes e n v) ≡ v
unfolding int_value int_bytes
int_value-int_bytes little n v h = le_value-le_bytes n v h
int_value-int_bytes big n v h =
    ap le_value (reverse-reverse (le_bytes n v)) ∙ le_value-le_bytes n v h

pub le_value-lt : (bs : List ℕ) → All IsByte bs → le_value bs < 256 ^ length bs
unfolding le_value
le_value-lt [] h = omega arith
le_value-lt (b ∷ bs) h = omega (arith, le_value-lt bs h.1, pow-suc 256 (length bs))

pub le_value-append_zeros : (bs : List ℕ) (k : ℕ) → le_value (bs ++ replicate k 0) ≡ le_value bs
unfolding le_value
le_value-append_zeros [] zero = refl
le_value-append_zeros [] (suc k) = omega (arith, le_value-append_zeros [] k)
le_value-append_zeros (b ∷ bs) k = omega (arith, le_value-append_zeros bs k)

replicate-append_one : (k a : ℕ) → replicate k a ++ (a ∷ []) ≡ a ∷ replicate k a
replicate-append_one zero a = refl
replicate-append_one (suc k) a = ap (λ (t : List ℕ). a ∷ t) (replicate-append_one k a)

pub reverse-replicate : (k a : ℕ) → reverse (replicate k a) ≡ replicate k a
reverse-replicate zero a = refl
reverse-replicate (suc k) a =
    reverse-append (a ∷ []) (replicate k a)
    ∙ ap (λ (t : List ℕ). t ++ (a ∷ [])) (reverse-replicate k a)
    ∙ replicate-append_one k a

pub int_value-one : (e : Endian) (b : ℕ) → int_value e (b ∷ []) ≡ b
unfolding int_value le_value
int_value-one little b = omega arith
int_value-one big b = omega arith
