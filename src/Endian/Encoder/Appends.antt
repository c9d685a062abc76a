-- ===== src/Endian/Encoder/Appends.antt =====
-- Writers beside the readers of what they append: a chain of writes is read back by the chain of reads.
use gsym_rs.Prelude.{
  ℕ, Bool, true, ◌+◌, ◌≤◌, ◌≡◌, refl, sym, ap, ◌∙◌, List, [], ◌∷◌, ◌++◌, length, length-append,
  append-nil, drop, drop-length-append, arith,
}
use mathlib.Core.Path.{subst}
use gsym_rs.Prelude.Words.{IsU32, IsU64}
use gsym_rs.Error.{Error, Result, ok, guard}
use gsym_rs.Endian.Order.{Endian, int_bytes, length-int_bytes}
use gsym_rs.Endian.Cursor.{
  Read, ◌>>=◌, ◌>>◌, pure, lift, gets, remaining, take, read_u8, read_u32, read_u64, read_uint,
}
use gsym_rs.Endian.Cursor.Rest.{advance}
use gsym_rs.Endian.Cursor.Reads.{
  Reads, Reads-pure, Reads-bind, Reads-check, Reads-remaining, Reads-u8, Reads-fixed, Reads-uint,
  Reads-take, Reads-cast,
}
use gsym_rs.Endian.Encoder.{Encoder, len, write_bytes, write_u8, write_u32, write_u64, write_uint}
use gsym_rs.Endian.Encoder.Writes.{write_bytes-append, write_uint-eq, write_uint-ok}

-- What the second buffer holds behind the first.
abbrev pub added : Encoder → Encoder → List ℕ
added out out' = drop (len out) out'.bytes

abbrev pub Extends : Encoder → Encoder → Type 0
Extends out out' = out' ≡ write_bytes (added out out') out

-- The second buffer extends the first by bytes that `m` reads as `a`.
pub record Appends {A : Type 0} (m : Read A) (a : A) (out out' : Encoder) : Type 0 where
  pub written : Extends out out'
  pub reads : Reads out.endian m (added out out') a

module _ (xs : List ℕ) (out out' : Encoder) (e : out' ≡ write_bytes xs out) where
  pub added-eq : added out out' ≡ xs
  unfolding write_bytes
  added-eq = ap (λ (o : Encoder). drop (len out) o.bytes) e ∙ drop-length-append out.bytes xs

  pub Extends-of : Extends out out'
  Extends-of = e ∙ ap (λ (ys : List ℕ). write_bytes ys out) (sym added-eq)

  pub len-eq : len out' ≡ len out + length xs
  unfolding write_bytes
  len-eq = ap len e ∙ length-append out.bytes xs

  pub Appends-of :
      {A : Type 0} {m : Read A} {a : A} → Reads out.endian m xs a → Appends m a out out'
  Appends-of r = record { written = Extends-of; reads = Reads-cast (sym added-eq) refl r }

pub Extends-endian : (out out' : Encoder) → Extends out out' → out'.endian ≡ out.endian
unfolding write_bytes
Extends-endian out out' h = ap (λ (o : Encoder). o.endian) h

module _ (out mid out' : Encoder) (first : Extends out mid) (second : Extends mid out') where
  joined : out' ≡ write_bytes (added out mid ++ added mid out') out
  joined =
      second
      ∙ ap (write_bytes (added mid out')) first
      ∙ write_bytes-append (added out mid) (added mid out') out

  pub Extends-trans : Extends out out'
  Extends-trans = Extends-of (added out mid ++ added mid out') out out' joined

write_bytes-nil : (o : Encoder) → o ≡ write_bytes [] o
unfolding write_bytes
write_bytes-nil o = ap (λ (xs : List ℕ). record o { bytes = xs }) (sym (append-nil o.bytes))

pub Extends-refl : (out : Encoder) → Extends out out
Extends-refl out = Extends-of [] out out (write_bytes-nil out)

pub Extends-len :
    (out out' : Encoder) → Extends out out' → len out' ≡ len out + length (added out out')
Extends-len out out' h = len-eq (added out out') out out' h

pub Appends-pure : {A : Type 0} (a : A) (out : Encoder) → Appends (pure a) a out out
Appends-pure a out = Appends-of [] out out (write_bytes-nil out) (Reads-pure a)

pub Appends-bind :
    {A B : Type 0} {m : Read A} (f : A → Read B) {a : A} {b : B} {out mid out' : Encoder}
    → Appends m a out mid
    → Appends (f a) b mid out'
    → Appends (m >>= f) b out out'
Appends-bind {m = m} f {a = a} {b = b} {out = out} {mid = mid} {out' = out'} r s =
    Appends-of (added out mid ++ added mid out') out out' (joined out mid out' r.written s.written)
      (Reads-bind f r.reads (
        subst (λ (e : Endian). Reads e (f a) (added mid out') b) (Extends-endian out mid r.written)
          s.reads))

pub Appends-check :
    {A B : Type 0} (r : Result A) (f : A → Read B) (a : A) {b : B} {out out' : Encoder}
    → r ≡ ok a
    → Appends (f a) b out out'
    → Appends (lift r >>= f) b out out'
Appends-check r f a h s = record { written = s.written; reads = Reads-check r f a h s.reads }

pub Appends-guard :
    {B : Type 0} (test : Bool) (error : Error) (m : Read B) {b : B} {out out' : Encoder}
    → test ≡ true
    → Appends m b out out'
    → Appends (lift (guard test error) >> m) b out out'
Appends-guard test error m h s = Appends-check (guard test error) (λ _. m) tt (rw h refl) s

-- The bytes that are left cover what was appended.
pub Appends-remaining :
    {A : Type 0} (f : ℕ → Read A) {a : A} {out out' : Encoder}
    → ((n : ℕ) → len out' ≤ len out + n → Appends (f n) a out out')
    → Appends (gets remaining >>= f) a out out'
Appends-remaining f {out = out} {out' = out'} h =
    let extends : Extends out out' = (h (len out') (omega arith)).written in
    record {
      written = extends;
      reads =
          Reads-remaining f (λ n fits. (h n (omega (arith, Extends-len out out' extends))).reads);
    }

-- A check of the bytes that are left, which what was appended passes.
pub Appends-room :
    {B : Type 0} (test : ℕ → Bool) (error : Error) (m : Read B) {b : B} {out out' : Encoder}
    → ((n : ℕ) → len out' ≤ len out + n → test n ≡ true)
    → Appends m b out out'
    → Appends (gets remaining >>= λ n. lift (guard (test n) error) >> m) b out out'
Appends-room test error m {out = out} {out' = out'} h s =
    Appends-remaining (λ n. lift (guard (test n) error) >> m)
      (λ n fits. Appends-guard (test n) error m (h n fits) s)

pub Appends-endian :
    {A : Type 0} (f : Endian → Read A) {a : A} {out out' : Encoder}
    → Appends (f out.endian) a out out'
    → Appends (gets (λ c. c.endian) >>= f) a out out'
Appends-endian f {a = a} {out = out} {out' = out'} s = record {
  written = s.written;
  reads = record {
    run = λ c ys v o p.
        subst (λ (e : Endian). f e c ≡ ok (a, advance (length (added out out')) c)) (sym o)
          (s.reads.run c ys v o p);
  };
}

module _ (out : Encoder) where
  pub Appends-u8 : (v : ℕ) → Appends read_u8 v out (write_u8 v out)
  unfolding write_u8
  Appends-u8 v = Appends-of (v ∷ []) out _ refl (Reads-u8 v)

  pub Appends-u32 : (v : ℕ) → IsU32 v → Appends read_u32 v out (write_u32 v out)
  unfolding write_u32 read_u32
  Appends-u32 v h = Appends-of (int_bytes out.endian 4 v) out _ refl (Reads-fixed 4 v (omega arith))

  pub Appends-u64 : (v : ℕ) → IsU64 v → Appends read_u64 v out (write_u64 v out)
  unfolding write_u64 read_u64
  Appends-u64 v h = Appends-of (int_bytes out.endian 8 v) out _ refl (Reads-fixed 8 v (omega arith))

  pub Appends-uint :
      (v w : ℕ) {out' : Encoder}
      → IsU64 v
      → write_uint v w out ≡ ok out'
      → Appends (read_uint w) v out out'
  Appends-uint v w h k =
      let (lo, hi, fits) = write_uint-ok w v out h k in
      Appends-of (int_bytes out.endian w v) out _ (cc (write_uint-eq w v out lo hi fits))
        (Reads-uint w v lo hi fits)

  pub Appends-take :
      (xs : List ℕ) {out' : Encoder}
      → out' ≡ write_bytes xs out
      → Appends (take (length xs)) xs out out'
  Appends-take xs e = Appends-of xs out _ e (Reads-take xs)

module _ (v : ℕ) (out : Encoder) where
  pub len-write_u8 : len (write_u8 v out) ≡ len out + 1
  unfolding write_u8
  len-write_u8 = len-eq (v ∷ []) out _ refl

  pub len-write_u32 : len (write_u32 v out) ≡ len out + 4
  unfolding write_u32
  len-write_u32 = omega (
    arith,
    len-eq (int_bytes out.endian 4 v) out (write_u32 v out) refl,
    length-int_bytes out.endian 4 v,
  )

  pub len-write_u64 : len (write_u64 v out) ≡ len out + 8
  unfolding write_u64
  len-write_u64 = omega (
    arith,
    len-eq (int_bytes out.endian 8 v) out (write_u64 v out) refl,
    length-int_bytes out.endian 8 v,
  )
