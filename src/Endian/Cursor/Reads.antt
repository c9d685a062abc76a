-- ===== src/Endian/Cursor/Reads.antt =====
-- A specification of readers: what a read returns when the bytes ahead begin with a given encoding.
use gsym_rs.Prelude.{
  ℕ, zero, suc, ◌+◌, ◌-◌, reverse, replicate, ◌^◌, ◌≤◌, ◌<◌, ◌≡◌, sym, ap, ◌∙◌, List, [], ◌∷◌, ◌++◌,
  length, length-append, append_assoc, arith,
}
use mathlib.Core.List.{reverse-append}
use mathlib.Core.Path.{subst₂}
use native.Mathlib.Nat.{add_assoc, add-zero}
use gsym_rs.Error.{Error, Result, ok}
use gsym_rs.Endian.Order.{
  Endian, little, big, int_bytes, int_value, length-int_bytes, int_value-int_bytes, le_value,
  le_value-append_zeros, reverse-replicate,
}
use gsym_rs.Endian.Cursor.{
  Cursor, Read, ◌>>=◌, ◌>>◌, widen, read_odd, gets, remaining, pure, lift, on_error, take,
  read_fixed, read_u8, read_uint,
}
use gsym_rs.Endian.Cursor.Rest.{
  rest, IsValid, room, advance, rest-advance, advance-IsValid, take-rest, take_array-rest,
  read_u8-rest,
}

-- From every valid cursor in this byte order that has `xs` next, the read returns `a` and moves
-- past `xs`.
pub record Reads {A : Type 0} (e : Endian) (m : Read A) (xs : List ℕ) (a : A) : Type 0 where
  pub run :
      (c : Cursor) (ys : List ℕ)
      → IsValid c
      → c.endian ≡ e
      → rest c ≡ xs ++ ys
      → m c ≡ ok (a, advance (length xs) c)

advance-advance : (m n : ℕ) (c : Cursor) → advance n (advance m c) ≡ advance (m + n) c
advance-advance m n c = ap (λ (k : ℕ). record c { position = k }) (add_assoc c.position m n)

advance-zero : (c : Cursor) → advance 0 c ≡ c
advance-zero c = ap (λ (k : ℕ). record c { position = k }) (add-zero c.position)

module _ {A : Type 0} {e : Endian} where
  pub Reads-pure : (a : A) → Reads e (pure a) [] a
  Reads-pure a = record {
    run = λ c ys v o h. ap (λ (d : Cursor). ok (a, d)) (sym (advance-zero c));
  }

  pub Reads-on_error :
      (f : Error → Error) {m : Read A} {xs : List ℕ} {a : A}
      → Reads e m xs a
      → Reads e (on_error f m) xs a
  Reads-on_error f r = record { run = λ c ys v o h. rw (r.run c ys v o h) }

pub Reads-bind :
    {A B : Type 0} {e : Endian} {m : Read A} (f : A → Read B) {xs ys : List ℕ} {a : A} {b : B}
    → Reads e m xs a
    → Reads e (f a) ys b
    → Reads e (m >>= f) (xs ++ ys) b
Reads-bind {e = e} {m = m} f {xs = xs} {ys = ys} {a = a} {b = b} r s = record {
  run = λ c zs v o h.
      let h' : rest c ≡ xs ++ (ys ++ zs) = h ∙ append_assoc xs ys zs in
      rw (r.run c (ys ++ zs) v o h') (
        s.run (advance (length xs) c) zs (advance-IsValid c xs (ys ++ zs) v h') o
          (rest-advance c xs (ys ++ zs) v h')
        ∙ ap (λ (d : Cursor). ok (b, d)) (moved c));
}
  where
    moved :
        (c : Cursor) → advance (length ys) (advance (length xs) c) ≡ advance (length (xs ++ ys)) c
    moved c =
        advance-advance (length xs) (length ys) c
        ∙ ap (λ (k : ℕ). advance k c) (sym (length-append xs ys))

pub Reads-take : {e : Endian} (xs : List ℕ) → Reads e (take (length xs)) xs xs
Reads-take xs = record { run = λ c ys v o h. take-rest c xs ys v h }

pub Reads-fixed : {e : Endian} (n v : ℕ) → v < 256 ^ n → Reads e (read_fixed n) (int_bytes e n v) v
unfolding read_fixed
Reads-fixed {e = e} n v fits = record {
  run = λ c ys w o h.
      let bytes = int_bytes e n v in
      ap (λ (k : ℕ). read_fixed k c) (sym (length-int_bytes e n v))
      ∙ rw (take_array-rest c bytes ys w h) (
          ap (λ (k : ℕ). ok (k, advance (length bytes) c))
            (ap (λ (k : Endian). int_value k bytes) o ∙ int_value-int_bytes e n v fits));
}

-- Zero bytes at the high-order end leave the value alone.
int_value-widen : (e : Endian) (n : ℕ) (bs : List ℕ) → int_value e (widen e n bs) ≡ int_value e bs
unfolding int_value
int_value-widen little n bs = le_value-append_zeros bs (8 - n)
int_value-widen big n bs =
    ap le_value (
      reverse-append (replicate (8 - n) 0) bs
      ∙ ap (λ (t : List ℕ). reverse bs ++ t) (reverse-replicate (8 - n) 0))
    ∙ le_value-append_zeros (reverse bs) (8 - n)

Reads-odd : {e : Endian} (n v : ℕ) → v < 256 ^ n → Reads e (read_odd n) (int_bytes e n v) v
unfolding read_odd
Reads-odd {e = e} n v fits = record {
  run = λ c ys w o h.
      let bytes = int_bytes e n v in
      ap (λ (k : ℕ). read_odd k c) (sym (length-int_bytes e n v))
      ∙ rw (take-rest c bytes ys w h) (
          ap (λ (k : ℕ). ok (k, advance (length bytes) c))
            (ap (λ (k : Endian). int_value k (widen k (length bytes) bytes)) o
              ∙ int_value-widen e (length bytes) bytes
              ∙ int_value-int_bytes e n v fits));
}

pub Reads-uint :
    {e : Endian} (n v : ℕ) → 1 ≤ n → n ≤ 8 → v < 256 ^ n → Reads e (read_uint n) (int_bytes e n v) v
unfolding read_uint
Reads-uint zero v lo hi h = absurd (omega arith)
Reads-uint (suc zero) v lo hi h = Reads-fixed 1 v h
Reads-uint (suc (suc zero)) v lo hi h = Reads-fixed 2 v h
Reads-uint (suc (suc (suc zero))) v lo hi h = Reads-odd 3 v h
Reads-uint (suc (suc (suc (suc zero)))) v lo hi h = Reads-fixed 4 v h
Reads-uint (suc (suc (suc (suc (suc zero))))) v lo hi h = Reads-odd 5 v h
Reads-uint (suc (suc (suc (suc (suc (suc zero)))))) v lo hi h = Reads-odd 6 v h
Reads-uint (suc (suc (suc (suc (suc (suc (suc zero))))))) v lo hi h = Reads-odd 7 v h
Reads-uint (suc (suc (suc (suc (suc (suc (suc (suc zero)))))))) v lo hi h = Reads-fixed 8 v h
Reads-uint (suc (suc (suc (suc (suc (suc (suc (suc (suc n))))))))) v lo hi h = absurd (omega arith)

-- From one cursor: a read takes the byte `b` there and goes on as `m'`.
pub step_run :
    {A : Type 0} {e : Endian} {r : Result (A × Cursor)} (m' : Read A) (b : ℕ) {xs : List ℕ} {a : A}
    (c : Cursor) (ys : List ℕ)
    → IsValid c
    → c.endian ≡ e
    → rest c ≡ b ∷ xs ++ ys
    → r ≡ m' (advance 1 c)
    → Reads e m' xs a
    → r ≡ ok (a, advance (length (b ∷ xs)) c)
step_run m' b {xs = xs} {a = a} c ys v o h first r =
    first
    ∙ r.run (advance 1 c) ys (advance-IsValid c (b ∷ []) (xs ++ ys) v h) o
        (rest-advance c (b ∷ []) (xs ++ ys) v h)
    ∙ ap (λ (d : Cursor). ok (a, d)) (advance-advance 1 (length xs) c)
    ∙ ap (λ (k : ℕ). ok (a, advance k c)) (one_more (length xs))
  where
    one_more : (n : ℕ) → 1 + n ≡ suc n
    one_more n = omega arith

-- The same from every cursor.
pub Reads-step :
    {A : Type 0} {e : Endian} (m m' : Read A) (b : ℕ) {xs : List ℕ} {a : A}
    → ((c : Cursor) (ys : List ℕ) → IsValid c → rest c ≡ b ∷ ys → m c ≡ m' (advance 1 c))
    → Reads e m' xs a
    → Reads e m (b ∷ xs) a
Reads-step m m' b {xs = xs} first r = record {
  run = λ c ys v o h. step_run m' b c ys v o h (first c (xs ++ ys) v h) r;
}

-- The encoding may be given up to an equation, and so may the result.
pub Reads-cast :
    {A : Type 0} {e : Endian} {m : Read A} {xs ys : List ℕ} {a b : A}
    → xs ≡ ys
    → a ≡ b
    → Reads e m xs a
    → Reads e m ys b
Reads-cast {e = e} {m = m} p q r = subst₂ (λ zs c. Reads e m zs c) p q r

pub Reads-u8 : {e : Endian} (b : ℕ) → Reads e read_u8 (b ∷ []) b
Reads-u8 b = record { run = λ c ys v o h. read_u8-rest c b ys v h }

pub Reads-lift : {A : Type 0} {e : Endian} {r : Result A} {a : A} → r ≡ ok a → Reads e (lift r) [] a
Reads-lift {a = a} h = record {
  run = λ c ys v o p. rw h (ap (λ (d : Cursor). ok (a, d)) (sym (advance-zero c)));
}

-- A check that passes reads nothing.
pub Reads-check :
    {A B : Type 0} {e : Endian} (r : Result A) (f : A → Read B) (a : A) {xs : List ℕ} {b : B}
    → r ≡ ok a
    → Reads e (f a) xs b
    → Reads e (lift r >>= f) xs b
Reads-check r f a h s = record { run = λ c ys v o p. rw h (s.run c ys v o p) }

-- The number of bytes that are left covers what is read.
pub Reads-remaining :
    {A : Type 0} {e : Endian} (f : ℕ → Read A) {xs : List ℕ} {a : A}
    → ((n : ℕ) → length xs ≤ n → Reads e (f n) xs a)
    → Reads e (gets remaining >>= f) xs a
Reads-remaining f {xs = xs} h = record {
  run = λ c ys v o p. (h (remaining c) (omega (arith, room c xs ys v p))).run c ys v o p;
}

pub Reads-guard :
    {B : Type 0} {e : Endian} (r : Result (Unit {0})) (m : Read B) {xs : List ℕ} {b : B}
    → r ≡ ok tt
    → Reads e m xs b
    → Reads e (lift r >> m) xs b
Reads-guard r m h s = Reads-check r (λ _. m) tt h s
