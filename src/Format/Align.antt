-- ===== src/Format/Align.antt =====
-- `align_up` and the checked operations, by what a result says.
use native.Mathlib.Nat.{mod-lt}
use gsym_rs.Prelude.{ℕ, ◌+◌, ◌*◌, ◌%◌, ◌≤◌, ◌<◌, ◌≡◌, some, arith, String, inl, inr, Option-cases}
use gsym_rs.Prelude.Words.{checked_add, checked_mul}
use gsym_rs.Endian.Encoder.Writes.{pad_mod}
use gsym_rs.Format.{align_up, file_table_size}
use gsym_rs.Error.{overflow, ok, ok_or}

pub align_up-ok : (v a : ℕ) {r : ℕ} → align_up v a ≡ some r → (v ≤ r) × (r < v + a) × (r % a ≡ 0)
unfolding align_up
align_up-ok v a h = ground (arith, pad_mod v a, mod-lt v {m = a})

pub checked_add-ok : (a b : ℕ) {c : ℕ} → checked_add a b ≡ some c → c ≡ a + b
checked_add-ok a b h = ground arith

pub checked_mul-ok : (a b : ℕ) {c : ℕ} → checked_mul a b ≡ some c → c ≡ a * b
checked_mul-ok a b h = ground arith

pub file_table_size-ok :
    (count entry_size : ℕ) (context : String) {size : ℕ}
    → file_table_size count entry_size context ≡ ok size
    → size ≡ 4 + count * entry_size
unfolding file_table_size
file_table_size-ok count entry_size context h = elim (Option-cases (checked_mul count entry_size)) [
  | inl e ↦ cc (rw e at h)
  | inr (product, e) ↦ sized product (checked_mul-ok count entry_size e) (rw e at h)
]
  where
    sized :
        (product : ℕ) {size : ℕ}
        → product ≡ count * entry_size
        → ok_or (checked_add product 4) (overflow context) ≡ ok size
        → size ≡ 4 + count * entry_size
    sized product same k = ground arith
