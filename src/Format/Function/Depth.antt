-- ===== src/Format/Function/Depth.antt =====
-- The levels on which `decode_from` runs are enough: `check_merged_depth` ends it before they do.
use gsym_rs.Prelude.{ℕ, zero, suc, ◌+◌, ◌-◌, ◌≤◌, ◌<◌, ◌≡◌, refl, ap, ◌∙◌, arith}
use gsym_rs.Prelude.Words.{saturating_add}
use gsym_rs.Error.{limit, err}
use gsym_rs.Endian.Cursor.{Read}
use gsym_rs.Format.Function.{EncodedFunction, check_merged_depth, max_merged_depth}
use gsym_rs.Format.Function.Decode.{function_at, function_levels, too_deep, decode_from}

check-deep :
    (depth : ℕ)
    → 16 < depth
    → check_merged_depth depth ≡ err (limit "merged-function tree depth" depth 16)
unfolding check_merged_depth
check-deep depth h = ground arith

module _ (width base : ℕ) where
  -- A function below the deepest level is refused before any of it is read.
  pub function_at-deep :
      (function : Read EncodedFunction) (depth : ℕ)
      → 16 < depth
      → function_at function width base depth ≡ too_deep depth
  unfolding function_at
  function_at-deep function depth h = rw (check-deep depth h) refl

  next-deep : (depth : ℕ) → 16 ≤ depth → 16 < saturating_add depth 1
  next-deep depth h = omega arith

  one_more :
      (levels depth : ℕ)
      → 16 ≤ levels + depth
      → function_levels (suc levels) width base depth ≡ function_levels levels width base depth
  unfolding function_levels
  one_more zero depth h =
      ap (λ (m : Read EncodedFunction). function_at m width base depth)
        (function_at-deep _ (saturating_add depth 1) (next-deep depth (omega arith)))
  one_more (suc levels) depth h =
      ap (λ (m : Read EncodedFunction). function_at m width base depth)
        (one_more levels (saturating_add depth 1) (omega arith))

  -- `decode_from` is not cut short by the levels on which it runs: any more of them give the same
  -- decoder, at every depth.
  pub decode_from-levels :
      (extra depth : ℕ)
      → function_levels (extra + (max_merged_depth - depth)) width base depth
        ≡ decode_from width base depth
  unfolding decode_from
  decode_from-levels zero depth = ap (λ (n : ℕ). function_levels n width base depth) (omega arith)
  decode_from-levels (suc extra) depth =
      ap (λ (n : ℕ). function_levels n width base depth) (more extra)
      ∙ one_more (extra + (16 - depth)) depth (omega arith)
      ∙ decode_from-levels extra depth
    where
      more : (n : ℕ) → suc n + (16 - depth) ≡ suc (n + (16 - depth))
      more n = omega arith
