-- ===== src/Model/Range.antt =====
-- src/model.rs: `AddressRange`, a half-open range of addresses.
use gsym_rs.Prelude.{ℕ, ◌-◌, ◌≡◌, Bool, true, ◌&&◌, ltb, leb, ◌==◌, arith}

pub record AddressRange : Type 0 where
  pub start : ℕ
  pub end : ℕ

abbrev pub size : AddressRange → ℕ
size r = r.end - r.start

abbrev pub is_valid : AddressRange → Bool
is_valid r = leb r.start r.end

abbrev pub is_empty : AddressRange → Bool
is_empty r = size r == 0

abbrev pub contains : AddressRange → ℕ → Bool
contains r address = is_valid r && leb r.start address && ltb address r.end

abbrev pub contains_range : AddressRange → AddressRange → Bool
contains_range r other =
    is_valid r && is_valid other && leb r.start other.start && leb other.end r.end

-- A range that contains another contains its addresses.
pub contains-contains_range :
    (r s : AddressRange) (address : ℕ)
    → contains_range r s ≡ true
    → contains s address ≡ true
    → contains r address ≡ true
contains-contains_range r s address h k = ground arith
