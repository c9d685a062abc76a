-- ===== src/Writer/Widths.antt =====
-- src/writer/encode.rs: `address_offset_width`, the width of the address table's entries.
use mathlib.Core.Path.{subst}
use gsym_rs.Prelude.{
  Bool-cases, false, ℕ, ◌≤◌, ◌<◌, ◌^◌, ◌≡◌, ◌⊎◌, inl, inr, refl, leb, if◌then◌else◌, arith,
}
use gsym_rs.Prelude.Words.{u8_max, u16_max, u32_max, IsU64}

unfoldable pub address_offset_width : ℕ → ℕ
address_offset_width maximum =
    if leb maximum u8_max
    then 1
    else if leb maximum u16_max
    then 2
    else if leb maximum u32_max
    then 4
    else 8

-- A width that a version-1 header accepts.
abbrev pub IsWidth : ℕ → Type 0
IsWidth w = (w ≡ 1) ⊎ ((w ≡ 2) ⊎ ((w ≡ 4) ⊎ (w ≡ 8)))

fits_in :
    (m w : ℕ)
    → IsWidth w
    → m < 256 ^ w
    → ((w ≡ 1) × (m < 256)) ⊎ (((w ≡ 2) × (m < 65536)) ⊎ (((w ≡ 4) × (m < 2 ^ 32)) ⊎ (w ≡ 8)))
fits_in m w (inl e) h = inl (e, subst (λ (k : ℕ). m < 256 ^ k) e h)
fits_in m w (inr (inl e)) h = inr (inl (e, subst (λ (k : ℕ). m < 256 ^ k) e h))
fits_in m w (inr (inr (inl e))) h = inr (inr (inl (e, subst (λ (k : ℕ). m < 256 ^ k) e h)))
fits_in m w (inr (inr (inr e))) h = inr (inr (inr e))

above_u8 : (m w : ℕ) → leb m u8_max ≡ false → IsWidth w → m < 256 ^ w → 2 ≤ w
above_u8 m w a p q = let big : 256 ≤ m = ground arith in omega (arith, fits_in m w p q)

above_u16 : (m w : ℕ) → leb m u16_max ≡ false → IsWidth w → m < 256 ^ w → 4 ≤ w
above_u16 m w a p q = let big : 65536 ≤ m = ground arith in omega (arith, fits_in m w p q)

above_u32 : (m w : ℕ) → leb m u32_max ≡ false → IsWidth w → m < 256 ^ w → 8 ≤ w
above_u32 m w a p q = let big : 2 ^ 32 ≤ m = ground arith in omega (arith, fits_in m w p q)

-- For a `u64` offset, the chosen width is 1, 2, 4 or 8, the offset fits it, and it fits no smaller
-- one of these widths.
pub address_offset_width-fits :
    (maximum : ℕ)
    → IsU64 maximum
    → (let w = address_offset_width maximum in
        IsWidth w × (maximum < 256 ^ w) × ((w' : ℕ) → IsWidth w' → maximum < 256 ^ w' → w ≤ w'))
unfolding address_offset_width
address_offset_width-fits maximum h = elim (Bool-cases (leb maximum u8_max)) [
  | inl a ↦ rw a (inl refl, ground arith, λ w' p q. omega (arith, fits_in maximum w' p q))
  | inr a ↦ elim (Bool-cases (leb maximum u16_max)) [
    | inl b ↦ rw (a, b) (inr (inl refl), ground arith, λ w' p q. above_u8 maximum w' a p q)
    | inr b ↦ elim (Bool-cases (leb maximum u32_max)) [
      | inl c ↦
          rw (a, b, c) (inr (inr (inl refl)), ground arith, λ w' p q. above_u16 maximum w' b p q)
      | inr c ↦
          rw (a, b, c) (inr (inr (inr refl)), ground arith, λ w' p q. above_u32 maximum w' c p q)
    ]
  ]
]
