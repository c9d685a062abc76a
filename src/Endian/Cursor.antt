-- ===== src/Endian/Cursor.antt =====
-- src/endian.rs: `Cursor`. A method that moves the cursor is an action of `Read`, which returns the
-- moved cursor beside its result. After an error no caller uses the cursor again.
pub mod Rest
pub mod Reads
use gsym_rs.Prelude.{
  ℕ, ◌+◌, ◌-◌, ◌≤◌, ◌<◌, ◌≡◌, refl, Bool, true, false, ◌&&◌, ◌||◌, List, [], ◌∷◌, ◌++◌, length,
  replicate, slice, suffix, first_chunk, Option, none, some, leb, ◌==◌, if◌then◌else◌,
}
use gsym_rs.Prelude.Words.{checked_add, saturating_add}
use gsym_rs.Error.{
  Error, unexpected_eof, overflow, out_of_range, invalid_offset, Result, ok, err, ok_or, map_err,
}
use gsym_rs.Endian.Order.{Endian, little, big, int_value}

pub record Cursor : Type 0 where
  pub bytes : List ℕ
  pub position : ℕ
  pub endian : Endian

abbrev pub Read : Type 0 → Type 0
Read A = Cursor → Result (A × Cursor)

abbrev continue : {A B : Type 0} → Result (A × Cursor) → (A → Read B) → Result (B × Cursor)
continue (ok (a, c)) f = f a c
continue (err e) f = err e

infixl 5 ◌>>=◌ ◌>>◌
abbrev pub ◌>>=◌ : {A B : Type 0} → Read A → (A → Read B) → Read B
◌>>=◌ m f c = continue (m c) f

abbrev pub ◌>>◌ : {B : Type 0} → Read (Unit {0}) → Read B → Read B
m >> k = m >>= λ _. k

abbrev pub pure : {A : Type 0} → A → Read A
pure a c = ok (a, c)

-- `?` on a result that does not touch the cursor.
abbrev pub lift : {A : Type 0} → Result A → Read A
lift (ok a) c = ok (a, c)
lift (err e) c = err e

abbrev pub gets : {A : Type 0} → (Cursor → A) → Read A
gets f c = ok (f c, c)

-- `.map_err(f)` on a read.
abbrev pub on_error : {A : Type 0} → (Error → Error) → Read A → Read A
on_error f m c = map_err f (m c)

abbrev pub new : List ℕ → Endian → Cursor
new bytes endian = record { bytes = bytes; position = 0; endian = endian }

unfoldable pub at : List ℕ → Endian → ℕ → Result Cursor
at bytes endian position =
    if leb position (length bytes)
    then ok (record { bytes = bytes; position = position; endian = endian })
    else err (invalid_offset position (length bytes))

abbrev pub remaining : Cursor → ℕ
remaining c = length c.bytes - c.position

abbrev pub is_empty : Cursor → Bool
is_empty c = remaining c == 0

abbrev move_to : ℕ → Read (Unit {0})
move_to position c = ok (tt, record c { position = position })

unfoldable pub take : ℕ → Read (List ℕ)
take count = do
  c ← gets (λ c. c)
  end ← lift (ok_or (checked_add c.position count) (overflow "cursor end offset"))
  bytes ←
      lift (ok_or (slice c.bytes c.position end) (unexpected_eof c.position count (remaining c)))
  move_to end
  pure bytes

-- `get(offset..)` and `first_chunk` of the rest.
first_of_rest : ℕ → Cursor → Option (List ℕ)
first_of_rest n c = elim (suffix c.bytes c.position) [
  | none ↦ none
  | some tail ↦ first_chunk n tail
]

unfoldable pub take_array : ℕ → Read (List ℕ)
unfolding first_of_rest
take_array n = do
  c ← gets (λ c. c)
  bytes ← lift (ok_or (first_of_rest n c) (unexpected_eof c.position n (remaining c)))
  move_to (saturating_add c.position n)
  pure bytes

-- A fixed-width integer in the cursor's byte order.
unfoldable pub read_fixed : ℕ → Read ℕ
unfolding take_array int_value
read_fixed n = do bytes ← take_array n; gets (λ c. int_value c.endian bytes)

unfoldable pub read_u8 : Read ℕ
unfolding read_fixed
read_u8 = read_fixed 1

unfoldable pub read_u16 : Read ℕ
unfolding read_fixed
read_u16 = read_fixed 2

unfoldable pub read_u32 : Read ℕ
unfolding read_fixed
read_u32 = read_fixed 4

unfoldable pub read_u64 : Read ℕ
unfolding read_fixed
read_u64 = read_fixed 8

-- `copy_from_slice` into the low-order end of eight zero bytes.
abbrev widen : Endian → ℕ → List ℕ → List ℕ
widen little count bytes = bytes ++ replicate (8 - count) 0
widen big count bytes = replicate (8 - count) 0 ++ bytes

read_odd : ℕ → Read ℕ
unfolding take int_value
read_odd count = do bytes ← take count; gets (λ c. int_value c.endian (widen c.endian count bytes))

-- The match of `read_uint` on its width.
unfoldable pub read_uint : ℕ → Read ℕ
unfolding read_u8 read_u16 read_u32 read_u64 read_odd
read_uint width =
    if width == 1
    then read_u8
    else if width == 2
    then read_u16
    else if width == 4
    then read_u32
    else if width == 8
    then read_u64
    else if width == 3 || (leb 5 width && leb width 7)
    then read_odd width
    else lift (err (out_of_range "integer width" width 8))
