-- ===== src/Format/Function/Ranges.antt =====
-- src/format/function.rs: `decode_ranges`.
use gsym_rs.Prelude.{ℕ, zero, suc, ◌/◌, Bool, true, not, List, [], ◌∷◌, Option, none, some, ltb}
use gsym_rs.Prelude.Words.{checked_add}
use gsym_rs.Error.{overflow, invalid_format, ok_or, guard}
use gsym_rs.Model.Range.{AddressRange}
use gsym_rs.Endian.Cursor.{Read, ◌>>=◌, ◌>>◌, pure, lift, gets, remaining}
use gsym_rs.Format.Leb.{read_uleb}

abbrev pub follows : Option AddressRange → ℕ → Bool
follows none start = true
follows (some previous) start = not (ltb start previous.end)

-- The `for` loop of `decode_ranges`, with the last range pushed.
unfoldable pub ranges_loop : ℕ → Option AddressRange → ℕ → Read (List AddressRange)
ranges_loop zero previous base = pure []
ranges_loop (suc rounds) previous base = do
  offset ← read_uleb
  start ← lift (ok_or (checked_add base offset) (overflow "relative address range start"))
  size ← read_uleb
  end ← lift (ok_or (checked_add start size) (overflow "address range end"))
  lift (guard (follows previous start) (invalid_format "address ranges overlap or are not sorted"))
  let range : AddressRange = record { start = start; end = end }
  ranges ← ranges_loop rounds (some range) base
  pure (range ∷ ranges)

unfoldable pub decode_ranges : ℕ → Read (List AddressRange)
unfolding ranges_loop
decode_ranges base = do
  count ← read_uleb
  left ← gets remaining
  lift (
      guard (not (ltb (left / 2) count))
        (invalid_format "address-range count exceeds remaining input"))
  ranges_loop count none base
