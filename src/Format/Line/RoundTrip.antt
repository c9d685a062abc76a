-- ===== src/Format/Line/RoundTrip.antt =====
-- `decode` returns the rows that `encode_into` was given.
pub mod Rows
pub mod Program
pub mod Table
use gsym_rs.Prelude.{
  ℕ, zero, suc, ◌+◌, ◌-◌, ◌*◌, ◌/◌, ◌%◌, ◌^◌, ◌≤◌, ◌<◌, ◌≡◌, refl, sym, ap, ◌∙◌, List, [], ◌∷◌,
  ◌++◌, length, length-append, append_assoc, All, Option, none, some, arith, Bool, true, false,
  Bool-cases, Option-cases, inl, inr, ◌==◌,
}
use gsym_rs.Prelude.Int.{ℤ, pos, negsuc, ◌≤ℤ◌, IsI64, checked_add_i64}
use gsym_rs.Prelude.Words.{IsU32, IsU64, checked_add, try_u32}
use gsym_rs.Error.{Error, ok, ok_or, overflow, Result}
use gsym_rs.Model.{LineEntry}
use gsym_rs.Endian.Order.{Endian}
use gsym_rs.Endian.Cursor.{Cursor, Read, ◌>>=◌, pure, lift, read_u8}
use gsym_rs.Endian.Cursor.Rest.{rest, IsValid, advance, read_u8-rest}
use gsym_rs.Endian.Cursor.Reads.{
  Reads, Reads-pure, Reads-bind, Reads-step, Reads-lift, Reads-cast, Reads-check,
}
use gsym_rs.Format.Leb.Unsigned.{uleb_bytes, Reads-uleb}
use gsym_rs.Format.Leb.Signed.{sleb_bytes, Reads-sleb}
use gsym_rs.Format.Line.{special_line_range, add_line_delta, set_file, advance_pc, advance_line}
use gsym_rs.Format.Line.Parse.{
  visit, set_file_op, advance_pc_op, advance_line_op, special_op, parse_round, parse_loop, push_row,
  parse, decode,
}

module _ {S : Type 0} (cb : LineEntry → S → S × Bool) (e : Endian) (minimum : ℤ) (range : ℕ) where
  abbrev Again : Type 0
  Again = LineEntry → S → Read S

  -- Each opcode, with what the rest of the loop does with the changed row.
  module _ (again : Again) (row : LineEntry) (state : S) where
    abbrev pub round : Read S
    round = parse_round cb minimum range again row state

    pub round_end : Reads e round (0 ∷ []) state
    unfolding parse_round
    round_end =
        Reads-step round (pure state) 0 (λ c ys v h. rw (read_u8-rest c 0 ys v h))
          (Reads-pure state)

    pub round_set_file :
        {xs : List ℕ} {r : S} (file : ℕ)
        → IsU32 file
        → Reads e (again (record row { file = file }) state) xs r
        → Reads e round (1 ∷ uleb_bytes 10 file ++ xs) r
    unfolding parse_round
    round_set_file file h more =
        Reads-step round (set_file_op cb again row state) 1
          (λ c ys v p. rw (read_u8-rest c 1 ys v p))
          (Reads-bind _ (Reads-uleb file (omega arith))
            (Reads-check _ (λ x. again (record row { file = x }) state) file (ground arith) more))

    pub round_advance_pc :
        {xs : List ℕ} {r : S} (delta : ℕ)
        → row.address + delta < 2 ^ 64
        → Reads e (visit cb again (record row { address = row.address + delta }) state) xs r
        → Reads e round (2 ∷ uleb_bytes 10 delta ++ xs) r
    unfolding parse_round
    round_advance_pc delta h more =
        Reads-step round (advance_pc_op cb again row state) 2
          (λ c ys v p. rw (read_u8-rest c 2 ys v p))
          (Reads-bind _ (Reads-uleb delta (omega arith)) (
            Reads-check _ (λ x. visit cb again (record row { address = x }) state)
              (row.address + delta) (ground arith) more))

    pub round_advance_line :
        {xs : List ℕ} {r : S} (delta : ℤ) (line : ℕ)
        → IsI64 delta
        → add_line_delta row.line delta ≡ ok line
        → Reads e (again (record row { line = line }) state) xs r
        → Reads e round (3 ∷ sleb_bytes 10 delta ++ xs) r
    unfolding parse_round
    round_advance_line delta line h sum more =
        Reads-step round (advance_line_op cb again row state) 3
          (λ c ys v p. rw (read_u8-rest c 3 ys v p))
          (Reads-bind _ (Reads-sleb delta h)
            (Reads-check _ (λ x. again (record row { line = x }) state) line sum more))

    pub round_special :
        {xs : List ℕ} {r : S} (special line : ℕ) (delta : ℤ)
        → 4 ≤ special
        → checked_add_i64 minimum (pos ((special - 4) % range)) ≡ some delta
        → add_line_delta row.line delta ≡ ok line
        → row.address + (special - 4) / range < 2 ^ 64
        → Reads e
            (visit cb again
              (record row { line = line; address = row.address + (special - 4) / range })
              state)
            xs
            r
        → Reads e round (special ∷ xs) r
    unfolding parse_round
    round_special special line delta lo first sum fits more =
        Reads-step round (special_op cb minimum range special again row state) special
          (λ c ys v p. rw (read_u8-rest c special ys v p) (ground arith))
          (Reads-check (ok_or (checked_add_i64 minimum (pos ((special - 4) % range))) _) after_delta
            delta (rw first refl)
            (Reads-check (add_line_delta row.line delta) after_line line sum (
              Reads-check (ok_or (checked_add row.address ((special - 4) / range)) _)
                (λ x. visit cb again (record row { line = line; address = x }) state)
                (row.address + (special - 4) / range) (ground arith) more)))
      where
        after_line : ℕ → Read S
        after_line line = do
          address ← lift (
              ok_or (checked_add row.address ((special - 4) / range))
                (overflow "line-table address"))
          visit cb again (record row { line = line; address = address }) state

        after_delta : ℤ → Read S
        after_delta line_delta = do
          line ← lift (add_line_delta row.line line_delta)
          after_line line

-- The loop reads `xs` and returns `r` on every fuel that covers `xs`.
module _ {S : Type 0} (cb : LineEntry → S → S × Bool) (e : Endian) (minimum : ℤ) (range : ℕ) where
  abbrev pub Runs : LineEntry → S → List ℕ → S → Type 0
  Runs row state xs r =
      (fuel : ℕ) → length xs ≤ fuel → Reads e (parse_loop cb fuel minimum range row state) xs r

  -- One round is one unit of fuel.
  pub Runs-round :
      (row : LineEntry) (state : S) (b : ℕ) (xs : List ℕ) (r : S)
      → ((fuel : ℕ)
          → length xs ≤ fuel
          → Reads e
              (parse_round cb minimum range (parse_loop cb fuel minimum range) row state)
              (b ∷ xs)
              r)
      → Runs row state (b ∷ xs) r
  unfolding parse_loop
  Runs-round row state b xs r h zero fits = absurd (omega arith)
  Runs-round row state b xs r h (suc fuel) fits = h fuel (omega arith)
