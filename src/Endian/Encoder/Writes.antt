-- ===== src/Endian/Encoder/Writes.antt =====
-- What the writers append, and that the cursor reads it back.
use gsym_rs.Prelude.{
  ℕ, zero, suc, ◌+◌, ◌-◌, ◌/◌, ◌%◌, ◌^◌, ◌≤◌, ◌<◌, ◌≡◌, refl, sym, ap, ◌∙◌, List, ◌∷◌, ◌++◌, length,
  length-append, length-replicate, append_assoc, drop-length-append, arith, take, drop, replicate,
  take-append-drop, take-length-append, take-length, length-reverse, length-drop, reverse,
}
use mathlib.Core.List.{reverse-append}
use native.Mathlib.Nat.{mod-lt}
use gsym_rs.Prelude.Words.{IsU64}
use gsym_rs.Error.{ok}
use gsym_rs.Endian.Order.{Endian, little, big, int_bytes, le_bytes, length-le_bytes}
use gsym_rs.Endian.Cursor.{Cursor, Read, read_uint}
use mathlib.Core.Path.{subst}
use gsym_rs.Endian.Cursor.Rest.{rest, IsValid}
use gsym_rs.Endian.Cursor.Reads.{Reads, Reads-uint}
use gsym_rs.Endian.Encoder.{Encoder, len, write_bytes, write_uint, window, align_to}

pub write_bytes-append :
    (xs ys : List ℕ) (e : Encoder) → write_bytes ys (write_bytes xs e) ≡ write_bytes (xs ++ ys) e
unfolding write_bytes
write_bytes-append xs ys e =
    ap (λ (t : List ℕ). record e { bytes = t }) (append_assoc e.bytes xs ys)

take-le_bytes : (w n v : ℕ) → w ≤ n → take w (le_bytes n v) ≡ le_bytes w v
unfolding le_bytes
take-le_bytes zero n v h = refl
take-le_bytes (suc w) zero v h = absurd (omega arith)
take-le_bytes (suc w) (suc n) v h =
    ap (λ (t : List ℕ). (v % 256) ∷ t) (take-le_bytes w n (v / 256) (omega arith))

window_eq : (e : Endian) (w v : ℕ) → w ≤ 8 → window e w (int_bytes e 8 v) ≡ int_bytes e w v
unfolding int_bytes
window_eq little w v h = take-le_bytes w 8 v h
window_eq big w v h =
    ap (drop (8 - w)) (halves ∙ reverse-append (take w bytes) (drop w bytes))
    ∙ ap (λ (k : ℕ). drop k (reverse (drop w bytes) ++ reverse (take w bytes))) (sym tail_length)
    ∙ drop-length-append (reverse (drop w bytes)) (reverse (take w bytes))
    ∙ ap reverse (take-le_bytes w 8 v h)
  where
    bytes : List ℕ
    bytes = le_bytes 8 v

    halves : reverse bytes ≡ reverse (take w bytes ++ drop w bytes)
    halves = ap reverse (sym (take-append-drop w bytes))

    tail_length : length (reverse (drop w bytes)) ≡ 8 - w
    tail_length =
        omega (arith, length-reverse (drop w bytes), length-drop w bytes, length-le_bytes 8 v)

-- Every width that `write_uint` accepts.
pub write_uint-eq :
    (w v : ℕ) (e : Encoder)
    → 1 ≤ w
    → w ≤ 8
    → v < 256 ^ w
    → write_uint v w e ≡ ok (write_bytes (int_bytes e.endian w v) e)
unfolding write_uint
write_uint-eq zero v e lo hi fits = absurd (omega arith)
write_uint-eq (suc zero) v e lo hi fits = ground (arith, window_eq e.endian 1 v (omega arith))
write_uint-eq (suc (suc zero)) v e lo hi fits = ground (arith, window_eq e.endian 2 v (omega arith))
write_uint-eq (suc (suc (suc zero))) v e lo hi fits =
    ground (arith, window_eq e.endian 3 v (omega arith))
write_uint-eq (suc (suc (suc (suc zero)))) v e lo hi fits =
    ground (arith, window_eq e.endian 4 v (omega arith))
write_uint-eq (suc (suc (suc (suc (suc zero))))) v e lo hi fits =
    ground (arith, window_eq e.endian 5 v (omega arith))
write_uint-eq (suc (suc (suc (suc (suc (suc zero)))))) v e lo hi fits =
    ground (arith, window_eq e.endian 6 v (omega arith))
write_uint-eq (suc (suc (suc (suc (suc (suc (suc zero))))))) v e lo hi fits =
    ground (arith, window_eq e.endian 7 v (omega arith))
write_uint-eq (suc (suc (suc (suc (suc (suc (suc (suc zero)))))))) v e lo hi fits =
    ground (arith, window_eq e.endian 8 v (omega arith))
write_uint-eq (suc (suc (suc (suc (suc (suc (suc (suc (suc n))))))))) v e lo hi fits =
    absurd (omega arith)

-- On a `u64` the guards of `write_uint` are exactly the width and the range.
pub write_uint-ok :
    (w v : ℕ) (e : Encoder) {e' : Encoder}
    → IsU64 v
    → write_uint v w e ≡ ok e'
    → (1 ≤ w) × (w ≤ 8) × (v < 256 ^ w)
unfolding write_uint
write_uint-ok zero v e h k = ground arith
write_uint-ok (suc zero) v e h k = ground arith
write_uint-ok (suc (suc zero)) v e h k = ground arith
write_uint-ok (suc (suc (suc zero))) v e h k = ground arith
write_uint-ok (suc (suc (suc (suc zero)))) v e h k = ground arith
write_uint-ok (suc (suc (suc (suc (suc zero))))) v e h k = ground arith
write_uint-ok (suc (suc (suc (suc (suc (suc zero)))))) v e h k = ground arith
write_uint-ok (suc (suc (suc (suc (suc (suc (suc zero))))))) v e h k = ground arith
write_uint-ok (suc (suc (suc (suc (suc (suc (suc (suc zero)))))))) v e h k = ground arith
write_uint-ok (suc (suc (suc (suc (suc (suc (suc (suc (suc n))))))))) v e h k = ground arith

-- The padding up to a multiple of `a`, as `align_to` computes it.
pub pad_mod : (n a : ℕ) → 0 < a → (n + (a - n % a)) % a ≡ 0
pad_mod n a h = grind arith

-- A successful `align_to` makes the length a multiple of the alignment by less than the alignment of
-- padding, and leaves the bytes that were there alone.
pub align_to-aligned :
    (a : ℕ) (e : Encoder) {e' : Encoder}
    → align_to a e ≡ ok e'
    → (len e' % a ≡ 0) × (len e ≤ len e') × (len e' < len e + a) × (take (len e) e'.bytes ≡ e.bytes)
unfolding align_to
align_to-aligned a e h =
    let padding : List ℕ = replicate (len e + (a - len e % a) - len e) 0 in
    ground (
      arith,
      pad_mod (len e) a,
      mod-lt (len e) {m = a},
      length-append e.bytes padding,
      length-replicate {A = ℕ} (len e + (a - len e % a) - len e) 0,
      take-length-append e.bytes padding,
      take-length e.bytes,
    )

-- A cursor over a finished buffer with `tail` behind it.
abbrev pub cursor_over : Encoder → List ℕ → ℕ → Cursor
cursor_over e tail position = record {
  bytes = e.bytes ++ tail;
  position = position;
  endian = e.endian;
}

-- A reader of `xs` reads them back from where they were written.
pub Reads-written :
    {A : Type 0} (m : Read A) (xs : List ℕ) {a : A} (e : Encoder) (tail : List ℕ)
    → Reads e.endian m xs a
    → length (e.bytes ++ xs ++ tail) < 2 ^ 64
    → m (cursor_over (write_bytes xs e) tail (len e))
      ≡ ok (a, cursor_over (write_bytes xs e) tail (len (write_bytes xs e)))
unfolding write_bytes
Reads-written m xs {a = a} e tail r small =
    r.run c tail valid refl ahead
    ∙ ap (λ (k : ℕ). ok (a, record c { position = k })) (sym (length-append e.bytes xs))
  where
    c : Cursor
    c = cursor_over (write_bytes xs e) tail (len e)

    valid : IsValid c
    valid = record {
      within = omega (arith, length-append (e.bytes ++ xs) tail, length-append e.bytes xs);
      small = small;
    }

    ahead : rest c ≡ xs ++ tail
    ahead =
        ap (drop (len e)) (append_assoc e.bytes xs tail) ∙ drop-length-append e.bytes (xs ++ tail)

-- The same for the result of a writer that is known to append `xs`.
pub Reads-after :
    {A : Type 0} (m : Read A) (xs : List ℕ) {a : A} (e e' : Encoder) (tail : List ℕ)
    → e' ≡ write_bytes xs e
    → Reads e.endian m xs a
    → length (e'.bytes ++ tail) < 2 ^ 64
    → m (cursor_over e' tail (len e)) ≡ ok (a, cursor_over e' tail (len e'))
Reads-after m xs {a = a} e e' tail same r small =
    subst (λ (d : Encoder). m (cursor_over d tail (len e)) ≡ ok (a, cursor_over d tail (len d)))
      (sym same)
      (Reads-written m xs e tail r (
        unfold write_bytes in
        (subst (λ (d : Encoder). length (d.bytes ++ tail) < 2 ^ 64) same small)))

-- Whatever `write_uint` accepts, `read_uint` reads back, in both byte orders and at every width.
pub read_uint-write_uint :
    (w v : ℕ) (e : Encoder) (tail : List ℕ) {e' : Encoder}
    → IsU64 v
    → write_uint v w e ≡ ok e'
    → length (e'.bytes ++ tail) < 2 ^ 64
    → read_uint w (cursor_over e' tail (len e)) ≡ ok (v, cursor_over e' tail (len e'))
read_uint-write_uint w v e tail {e' = e'} hv h small =
    let (lo, hi, fits) = write_uint-ok w v e hv h in
    Reads-after (read_uint w) (int_bytes e.endian w v) e e' tail
      (cc (write_uint-eq w v e lo hi fits)) (Reads-uint w v lo hi fits) small
