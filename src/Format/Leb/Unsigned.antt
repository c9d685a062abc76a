-- ===== src/Format/Leb/Unsigned.antt =====
-- `write_uleb` against an arithmetic description of the encoding, and its reading by `read_uleb`.
use gsym_rs.Prelude.{
  ℕ, zero, suc, ◌+◌, ◌*◌, ◌/◌, ◌%◌, ◌^◌, ◌≤◌, ◌<◌, ◌≡◌, refl, sym, ap, ◌∙◌, List, [], ◌∷◌, ◌++◌,
  length, arith, ◌==◌, if◌then◌else◌, inl, inr, Bool-cases,
}
use gsym_rs.Prelude.Bits.{bit_and-payload, continuation_bit, set_continuation, bit_or_disjoint}
use gsym_rs.Prelude.Words.{IsU64}
use gsym_rs.Prelude.{append-nil}
use gsym_rs.Error.{ok}
use mathlib.Core.Path.{subst}
use native.Mathlib.Nat.{pow-suc, div-add-mod, one-le-pow}
use native.Mathlib.Numerals.{towards_suc}
use gsym_rs.Endian.Order.{Endian}
use gsym_rs.Endian.Cursor.{Cursor, Read}
use gsym_rs.Endian.Cursor.Rest.{rest, IsValid, advance, read_u8-rest}
use gsym_rs.Endian.Cursor.Reads.{Reads, Reads-step, Reads-cast, step_run}
use gsym_rs.Endian.Encoder.{Encoder, len, write_bytes}
use gsym_rs.Endian.Encoder.Writes.{write_bytes-append, Reads-after, cursor_over}
use gsym_rs.Format.Leb.{shift_of, uleb_round, uleb_loop, read_uleb, write_uleb_loop, write_uleb}

-- The groups of seven bits of `v`, lowest first, all but the last with the top bit set.
unfoldable pub uleb_bytes : ℕ → ℕ → List ℕ
uleb_bytes zero v = []
uleb_bytes (suc k) v =
    let rest = uleb_bytes k (v / 128) in
    if v / 128 == 0 then (v % 128) ∷ [] else (v % 128 + 128) ∷ rest

write_uleb_loop-bytes :
    (k v : ℕ) (e : Encoder) → write_uleb_loop k v e ≡ write_bytes (uleb_bytes k v) e
unfolding write_uleb_loop uleb_bytes
write_uleb_loop-bytes zero v e =
    unfold write_bytes in (sym (ap (λ (t : List ℕ). record e { bytes = t }) (append-nil e.bytes)))
write_uleb_loop-bytes (suc k) v e = ground (
  arith,
  bit_and-payload v,
  set_continuation (v % 128),
  write_uleb_loop-bytes k (v / 128) (write_bytes ((v % 128 + 128) ∷ []) e),
  write_bytes-append ((v % 128 + 128) ∷ []) (uleb_bytes k (v / 128)) e,
)

shift_back : (g s : ℕ) → g * 2 ^ s / 2 ^ s ≡ g
shift_back g s = grind (arith, one-le-pow s 2)

-- One round of the loop on a byte with the payload `g`, the last byte and one before it.
module _ (again : ℕ → Read ℕ) (index value g start : ℕ) (c : Cursor) (ys : List ℕ) (v : IsValid c)
    (small : g < 128) (hi : index ≤ 9) (low : value < 2 ^ shift_of index)
    (fits : value + g * 2 ^ shift_of index < 2 ^ 64) where
  last_round :
      rest c ≡ g ∷ ys
      → uleb_round again index value 64 start c ≡ ok (value + g * 2 ^ shift_of index, advance 1 c)
  unfolding uleb_round
  last_round h = rw (read_u8-rest c g ys v h) (
      ground (
        arith,
        bit_and-payload g,
        continuation_bit g,
        shift_back g (shift_of index),
        bit_or_disjoint (shift_of index) value g,
      ))

  inner_round :
      rest c ≡ (g + 128) ∷ ys
      → uleb_round again index value 64 start c
        ≡ again (value + g * 2 ^ shift_of index) (advance 1 c)
  unfolding uleb_round
  inner_round h = rw (read_u8-rest c (g + 128) ys v h) (
      ground (
        arith,
        bit_and-payload (g + 128),
        continuation_bit (g + 128),
        shift_back g (shift_of index),
        bit_or_disjoint (shift_of index) value g,
      ))

pub shift_next : (index : ℕ) → index ≤ 9 → 2 ^ shift_of (index + 1) ≡ 128 * 2 ^ shift_of index
shift_next index h = ap (λ (t : ℕ). 2 ^ t) (plain index h) ∙ seven (shift_of index)
  where
    plain : (i : ℕ) → i ≤ 9 → shift_of (i + 1) ≡ shift_of i + 7
    plain i h = omega arith

    seven : (s : ℕ) → 2 ^ (s + 7) ≡ 128 * 2 ^ s
    seven s = simp towards_suc (omega arith)

pub group_below : (g p value : ℕ) → g < 128 → value < p → value + g * p < 128 * p
group_below g p value h low = grind arith

-- `w` is what is still to be read, from bit `shift_of index` on.
split_value :
    (index value w : ℕ)
    → index ≤ 9
    → value + w % 128 * 2 ^ shift_of index + w / 128 * 2 ^ shift_of (index + 1)
      ≡ value + w * 2 ^ shift_of index
split_value index value w h = omega (
  arith,
  ap (λ (t : ℕ). t * 2 ^ shift_of index) (div-add-mod w 128),
  ap (λ (t : ℕ). w / 128 * t) (shift_next index h),
)

Reads-loop :
    {e : Endian} (k index value w start : ℕ)
    → k + index ≡ 10
    → 0 < w
    → w < 128 ^ k
    → value < 2 ^ shift_of index
    → value + w * 2 ^ shift_of index < 2 ^ 64
    → Reads e (uleb_loop k index value 64 start) (uleb_bytes k w) (value + w * 2 ^ shift_of index)
unfolding uleb_bytes uleb_loop
Reads-loop zero index value w start ki pos top low fits = absurd (omega arith)
Reads-loop (suc k) index value w start ki pos top low fits =
    let again : ℕ → Read ℕ = λ value'. uleb_loop k (index + 1) value' 64 start in
    let value' : ℕ = value + w % 128 * 2 ^ shift_of index in
    let split = split_value index value w (omega arith) in
    elim (Bool-cases (w / 128 == 0)) [
      | inl last ↦
          rw (last, uleb_bytes)
            (record {
              run = λ c ys v o h.
                  last_round again index value (w % 128) start c ys v (omega arith) (omega arith)
                    low (omega arith) h
                  ∙ ap (λ (t : ℕ). ok (t, advance 1 c)) (ground (arith, split));
            })
      | inr more ↦
          rw (more, uleb_bytes)
            (Reads-step (uleb_round again index value 64 start) (again value') (w % 128 + 128)
              (λ c ys v h.
                inner_round again index value (w % 128) start c ys v (omega arith) (omega arith) low
                  (omega arith) h)
              (Reads-cast refl split (
                Reads-loop k (index + 1) value' (w / 128) start (omega arith) (ground arith)
                  (omega (arith, pow-suc 128 k))
                  (omega (
                    arith,
                    shift_next index (omega arith),
                    group_below (w % 128) (2 ^ shift_of index) value (omega arith) low,
                  ))
                  (omega (arith, split)))))
    ]

Reads-later :
    {e : Endian} (k v start : ℕ)
    → k ≡ 9
    → IsU64 v
    → 0 < v / 128
    → Reads e (uleb_loop 9 1 (v % 128) 64 start) (uleb_bytes k (v / 128)) v
Reads-later {e = e} k v start nine h pos = Reads-cast refl (value v) (
    subst
      (λ (n : ℕ).
        Reads e (uleb_loop n 1 (v % 128) 64 start) (uleb_bytes k (v / 128))
          (v % 128 + v / 128 * 2 ^ shift_of 1))
      nine
      (Reads-loop k 1 (v % 128) (v / 128) start (omega arith) pos (rw nine (omega arith))
        (omega arith) (omega arith)))
  where
    value : (v : ℕ) → v % 128 + v / 128 * 2 ^ shift_of 1 ≡ v
    value v = omega arith

-- The first byte is read before the loop.
Reads-first : {e : Endian} (k v : ℕ) → k ≡ 9 → IsU64 v → Reads e read_uleb (uleb_bytes (suc k) v) v
unfolding read_uleb uleb_bytes
Reads-first k v nine h = elim (Bool-cases (v / 128 == 0)) [
  | inl last ↦
      rw (last, uleb_bytes)
        (record {
          run = λ c ys w o p.
              rw (read_u8-rest c (v % 128) ys w p) (ground (arith, continuation_bit (v % 128)));
        })
  | inr more ↦
      rw (more, uleb_bytes)
        (record {
          run = λ c ys w o p.
              step_run (uleb_loop 9 1 (v % 128) 64 c.position) (v % 128 + 128) c ys w o p
                (rw (read_u8-rest c (v % 128 + 128) (uleb_bytes k (v / 128) ++ ys) w p) (
                  ground
                    (arith, continuation_bit (v % 128 + 128), bit_and-payload (v % 128 + 128))))
                (Reads-later k v c.position nine h (ground arith));
        })
]

pub write_uleb-bytes : (v : ℕ) (e : Encoder) → write_uleb v e ≡ write_bytes (uleb_bytes 10 v) e
unfolding write_uleb
write_uleb-bytes v e = write_uleb_loop-bytes 10 v e

-- `read_uleb` reads back the `u64` that `write_uleb` wrote.
pub Reads-uleb : {e : Endian} (v : ℕ) → IsU64 v → Reads e read_uleb (uleb_bytes 10 v) v
Reads-uleb v h = Reads-first 9 v refl h

-- Whatever follows it, `read_uleb` returns the `u64` that `write_uleb` appended and stops behind it.
pub read_uleb-write_uleb :
    (v : ℕ) (e : Encoder) (tail : List ℕ)
    → IsU64 v
    → length ((write_uleb v e).bytes ++ tail) < 2 ^ 64
    → read_uleb (cursor_over (write_uleb v e) tail (len e))
      ≡ ok (v, cursor_over (write_uleb v e) tail (len (write_uleb v e)))
read_uleb-write_uleb v e tail h small =
    Reads-after read_uleb (uleb_bytes 10 v) e (write_uleb v e) tail (write_uleb-bytes v e)
      (Reads-uleb v h) small
