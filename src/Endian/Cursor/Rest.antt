-- ===== src/Endian/Cursor/Rest.antt =====
-- What a cursor has not read yet, and how the two ways to take bytes move along it.
use gsym_rs.Prelude.{
  ℕ, ◌+◌, ◌-◌, ◌≤◌, ◌<◌, ◌^◌, ◌≡◌, refl, sym, ap, ◌∙◌, List, [], ◌∷◌, ◌++◌, length, length-append,
  length-drop, drop-drop, drop-length-append, take-length-append, drop, arith, some, none,
  List-cases, inl, inr,
}
use gsym_rs.Prelude
use gsym_rs.Error.{Result-cases, ok_injective, ok, err, unexpected_eof}
use gsym_rs.Endian.Order.{Endian, int_value, int_value-one}
use gsym_rs.Endian.Cursor.{Cursor, take, take_array, read_fixed, first_of_rest, read_u8}

abbrev pub rest : Cursor → List ℕ
rest c = drop c.position c.bytes

-- A cursor over a Rust slice: the position lies inside, and a length is a `usize`.
pub record IsValid (c : Cursor) : Type 0 where
  pub within : c.position ≤ length c.bytes
  pub small : length c.bytes < 2 ^ 64

abbrev pub advance : ℕ → Cursor → Cursor
advance n c = record c { position = c.position + n }

module _ (c : Cursor) (xs ys : List ℕ) (v : IsValid c) (e : rest c ≡ xs ++ ys) where
  pub room : c.position + length xs ≤ length c.bytes
  room = omega (arith, ap length e, length-append xs ys, length-drop c.position c.bytes, v.within)

  pub rest-advance : rest (advance (length xs) c) ≡ ys
  rest-advance =
      sym (drop-drop c.position (length xs) c.bytes)
      ∙ ap (drop (length xs)) e
      ∙ drop-length-append xs ys

  pub advance-IsValid : IsValid (advance (length xs) c)
  advance-IsValid = record { within = room; small = v.small }

  taken : Prelude.take (length xs) (rest c) ≡ xs
  taken = ap (Prelude.take (length xs)) e ∙ take-length-append xs ys

  back : c.position + length xs - c.position ≡ length xs
  back = omega arith

  pub take-rest : take (length xs) c ≡ ok (xs, advance (length xs) c)
  unfolding take
  take-rest = ground (arith, room, taken, back)

  pub take_array-rest : take_array (length xs) c ≡ ok (xs, advance (length xs) c)
  unfolding take_array
  take_array-rest = ground (arith, room, taken, ap length e, length-append xs ys)

pub read_u8-rest :
    (c : Cursor) (b : ℕ) (ys : List ℕ)
    → IsValid c
    → rest c ≡ b ∷ ys
    → read_u8 c ≡ ok (b, advance 1 c)
unfolding read_u8
read_u8-rest c b ys v h =
    rw (take_array-rest c (b ∷ []) ys v h)
      (ap (λ (k : ℕ). ok (k, advance 1 c)) (int_value-one c.endian b))

-- At the end of the bytes there is nothing to read.
pub read_u8-end :
    (c : Cursor) → IsValid c → rest c ≡ [] → read_u8 c ≡ err (unexpected_eof c.position 1 0)
unfolding read_u8
read_u8-end c v h = ground (arith, v.within, ap length h, length-drop c.position c.bytes)

-- A byte that was read stood next.
pub read_u8-ok :
    (c : Cursor) {b : ℕ} {c' : Cursor}
    → IsValid c
    → read_u8 c ≡ ok (b, c')
    → (rest c ≡ b ∷ rest (advance 1 c)) × (c' ≡ advance 1 c)
read_u8-ok c v h = elim (List-cases (rest c)) [
  | inl empty ↦ cc (read_u8-end c v empty)
  | inr (x, ys, e) ↦ ground (arith, read_u8-rest c x ys v e, rest-advance c (x ∷ []) ys v e)
]

-- What a fixed-width read returns is the value of the bytes at the cursor.
take_array-ok :
    (n : ℕ) (c : Cursor) {r : List ℕ × Cursor}
    → take_array n c ≡ ok r
    → (r.0 ≡ Prelude.take n (rest c)) × (r.1.endian ≡ c.endian)
unfolding take_array first_of_rest
take_array-ok n c h = ground arith

pub read_fixed-ok :
    (n : ℕ) (c : Cursor) {r : ℕ × Cursor}
    → read_fixed n c ≡ ok r
    → r.0 ≡ int_value c.endian (Prelude.take n (rest c))
unfolding read_fixed
read_fixed-ok n c {r = r} h = elim (Result-cases (take_array n c)) [
  | inr (x, e) ↦ cc (rw e at h)
  | inl ((bs, d), e) ↦
      let (same, order) = take_array-ok n c e in
      ap (λ (p : ℕ × Cursor). p.0) (sym (ok_injective (rw e at h)))
      ∙ ap (λ (b : Endian). int_value b bs) order
      ∙ ap (λ (t : List ℕ). int_value c.endian t) same
]
