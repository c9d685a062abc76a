-- ===== src/Format/Line/Encode/Special.antt =====
-- Special opcodes: what `encode_special` packs, the decoder unpacks.
use gsym_rs.Prelude.{
  ℕ, ◌+◌, ◌-◌, ◌*◌, ◌/◌, ◌%◌, ◌^◌, ◌<◌, ◌≡◌, ap, ◌∙◌, some, arith, false, ◌||◌, Bool-cases,
  Option-cases, inl, inr,
}
use gsym_rs.Prelude.Int.{
  ℤ, pos, negsuc, ◌+ℤ◌, ◌-ℤ◌, ◌≤ℤ◌, pos_part, neg_part, saturating_sub_i64, checked_add_i64, ltb_ℤ,
  IsI64, pos-*ℤ-pos, pos-+ℤ-pos,
}
use gsym_rs.Prelude.Words.{IsU32}
use gsym_rs.Error.{ok}
use gsym_rs.Model.{LineEntry}
use gsym_rs.Format.Line.{special_line_range, add_line_delta}
use gsym_rs.Format.Line.Range.{line_delta}
use gsym_rs.Format.Line.Encode.{encode_special, special_range, special_opcode, try_u8_ℤ}
use native.Mathlib.Nat.{add-mul-mod_self_right, mod-eq_of_lt, add-mul-div_right, div-eq_of_lt}

-- Between two `u32` lines nothing saturates, and the decoder's sum undoes the difference.
pub add_line_delta-line_delta :
    (l m : LineEntry)
    → IsU32 l.line
    → IsU32 m.line
    → add_line_delta l.line (line_delta l m) ≡ ok m.line
unfolding add_line_delta ◌-ℤ◌
add_line_delta-line_delta l m hl hm = ground arith

-- b - a, for a ≤ b.
abbrev pub diff : ℤ → ℤ → ℕ
diff b a = pos_part b + neg_part a - (pos_part a + neg_part b)

pub special_line_range-ok :
    (a b : ℤ) {r : ℕ}
    → special_line_range a b ≡ ok r
    → (a ≤ℤ b) × (r ≡ diff b a + 1) × (diff b a < 2 ^ 63)
unfolding special_line_range ◌-ℤ◌
special_line_range-ok (pos a) (pos b) h = ground arith
special_line_range-ok (pos a) (negsuc b) h = ground arith
special_line_range-ok (negsuc a) (pos b) h = ground arith
special_line_range-ok (negsuc a) (negsuc b) h = ground arith

saturating_sub-diff :
    (a b : ℤ) → a ≤ℤ b → diff b a < 2 ^ 63 → saturating_sub_i64 b a ≡ pos (diff b a)
unfolding ◌-ℤ◌
saturating_sub-diff (pos a) (pos b) h k = ground arith
saturating_sub-diff (pos a) (negsuc b) h k = ground arith
saturating_sub-diff (negsuc a) (pos b) h k = ground arith
saturating_sub-diff (negsuc a) (negsuc b) h k = ground arith

special_range-diff :
    (a b : ℤ) {r : ℤ} → a ≤ℤ b → special_range a b ≡ some r → r ≡ pos (diff b a + 1)
unfolding ◌-ℤ◌ ◌+ℤ◌
special_range-diff (pos a) (pos b) h k = ground arith
special_range-diff (pos a) (negsuc b) h k = ground arith
special_range-diff (negsuc a) (pos b) h k = ground arith
special_range-diff (negsuc a) (negsuc b) h k = ground arith

pub checked_add-diff : (a b : ℤ) → a ≤ℤ b → IsI64 b → checked_add_i64 a (pos (diff b a)) ≡ some b
unfolding ◌+ℤ◌
checked_add-diff (pos a) (pos b) h k = ground arith
checked_add-diff (pos a) (negsuc b) h k = ground arith
checked_add-diff (negsuc a) (pos b) h k = ground arith
checked_add-diff (negsuc a) (negsuc b) h k = ground arith

ordered : (a b d : ℤ) → ltb_ℤ d a ≡ false → ltb_ℤ b d ≡ false → (a ≤ℤ d) × (d ≤ℤ b)
ordered a b d h k = ground arith

module _ (a b d : ℤ) (k : ℕ) (lo : a ≤ℤ d) (hi : d ≤ℤ b) (span : diff b a < 2 ^ 63) where
  special_opcode-eq :
      special_opcode a d k (pos (diff b a + 1)) ≡ pos (diff d a + k * (diff b a + 1) + 4)
  special_opcode-eq =
      rw (saturating_sub-diff a d lo (omega arith), pos-*ℤ-pos, pos-+ℤ-pos, pos-+ℤ-pos)

try_u8-ok : (n : ℕ) {s : ℕ} → try_u8_ℤ (pos n) ≡ some s → (s ≡ n) × (s < 256)
try_u8-ok n h = ground arith

pub encode_special-ok :
    (a b d : ℤ) (k : ℕ) {s : ℕ}
    → diff b a < 2 ^ 63
    → encode_special a b d k ≡ some s
    → (a ≤ℤ d) × (d ≤ℤ b) × (s ≡ diff d a + k * (diff b a + 1) + 4) × (s < 256)
unfolding encode_special
encode_special-ok a b d k {s = s} span h = elim (Bool-cases (ltb_ℤ d a || ltb_ℤ b d)) [
  | inl outside ↦ cc (rw outside at h)
  | inr inside ↦
      let (lo, hi) = ordered a b d (ground arith) (ground arith) in
      elim (Option-cases (special_range a b)) [
        | inl e ↦ cc (rw (inside, e) at h)
        | inr (r, e) ↦
            let same = special_range-diff a b (omega arith) e in
            let h' : try_u8_ℤ (special_opcode a d k r) ≡ some s = rw (inside, e) at h in
            let h'' : try_u8_ℤ (pos (diff d a + k * (diff b a + 1) + 4)) ≡ some s =
              rw (same, special_opcode-eq a b d k lo hi span) at h' in
            let (value, small) = try_u8-ok _ h'' in (lo, hi, value, small)
      ]
]

parts : (g k r n : ℕ) → g < r → n ≡ g + k * r → (n % r ≡ g) × (n / r ≡ k)
parts g k r n h e = (
  ap (λ (t : ℕ). t % r) e ∙ add-mul-mod_self_right g k r ∙ mod-eq_of_lt h,
  ap (λ (t : ℕ). t / r) e
      ∙ add-mul-div_right g k (omega arith)
      ∙ ap (λ (t : ℕ). t + k) (div-eq_of_lt h)
      ∙ zero_add k,
)
  where
    zero_add : (k : ℕ) → 0 + k ≡ k
    zero_add k = omega arith

-- The decoder's division takes the line delta and the address delta apart again.
pub special_parts :
    (a b d : ℤ) (k s : ℕ)
    → a ≤ℤ d
    → d ≤ℤ b
    → s ≡ diff d a + k * (diff b a + 1) + 4
    → ((s - 4) % (diff b a + 1) ≡ diff d a) × ((s - 4) / (diff b a + 1) ≡ k)
special_parts a b d k s lo hi e =
    parts (diff d a) k (diff b a + 1) (s - 4) (omega arith) (omega arith)
