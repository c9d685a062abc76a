-- ===== src/Format/Function/RoundTrip/Ranges.antt =====
-- The address ranges of an inline node are read back.
use gsym_rs.Prelude.{
  ℕ, ◌+◌, ◌-◌, ◌*◌, ◌/◌, ◌≤◌, ◌≡◌, not, ◌||◌, List, [], ◌∷◌, length, All, Option, none, some, ltb,
  arith,
}
use mathlib.Core.Path.{subst}
use gsym_rs.Prelude.Words.{IsU64, checked_add, checked_sub}
use gsym_rs.Error.{invalid_format, ok, ok_or, guard-elim, ok_or-elim, ok_injective}
use gsym_rs.Model.Range.{AddressRange}
use gsym_rs.Endian.Cursor.{pure}
use gsym_rs.Endian.Encoder.{Encoder, len}
use gsym_rs.Endian.Encoder.Appends.{
  Appends, Appends-of, Appends-pure, Appends-bind, Appends-check, Appends-guard, Appends-room,
  len-eq,
}
use gsym_rs.Format.Leb.{read_uleb, write_uleb}
use gsym_rs.Format.Leb.Unsigned.{uleb_bytes, write_uleb-bytes, Reads-uleb}
use gsym_rs.Format.Function.Ranges.{follows, ranges_loop, decode_ranges}
use gsym_rs.Format.Function.Encode.{encode_ranges_loop, encode_ranges}

pub Appends-uleb : (v : ℕ) (out : Encoder) → IsU64 v → Appends read_uleb v out (write_uleb v out)
Appends-uleb v out h = Appends-of (uleb_bytes 10 v) out _ (write_uleb-bytes v out) (Reads-uleb v h)

uleb_bytes-pos : (v : ℕ) → 1 ≤ length (uleb_bytes 10 v)
unfolding uleb_bytes
uleb_bytes-pos v = ground arith

pub len-write_uleb : (v : ℕ) (out : Encoder) → len out + 1 ≤ len (write_uleb v out)
len-write_uleb v out = omega (
  arith,
  len-eq (uleb_bytes 10 v) out (write_uleb v out) (write_uleb-bytes v out),
  uleb_bytes-pos v,
)

abbrev pub IsWord : AddressRange → Type 0
IsWord range = IsU64 range.start × IsU64 range.end

loop-Appends :
    (base : ℕ) (previous : Option AddressRange) (ranges : List AddressRange) (out : Encoder)
    {out' : Encoder}
    → All IsWord ranges
    → encode_ranges_loop base previous ranges out ≡ ok out'
    → Appends (ranges_loop (length ranges) previous base) ranges out out'
      × (len out + 2 * length ranges ≤ len out')
unfolding encode_ranges_loop ranges_loop
loop-Appends base previous [] out fits h =
    subst
      (λ (o : Encoder).
        Appends (pure {A = List AddressRange} []) [] out o × (len out + 2 * 0 ≤ len o))
      (ok_injective h) (Appends-pure [] out, omega arith)
loop-Appends base previous (range ∷ ranges) out {out' = out'} fits h =
    guard-elim (not (ltb range.start base || ltb range.end range.start)) _ _ h λ valid h.
      guard-elim (follows previous range.start) _ _ h λ sorted h.
        ok_or-elim (checked_sub range.start base) _ _ h λ offset diff h.
          let size : ℕ = range.end - range.start in
          let (later, room) =
            loop-Appends base (some range) ranges (write_uleb size (write_uleb offset out)) fits.1
              h in
          (
            Appends-bind {m = read_uleb} _ (Appends-uleb offset out (ground arith)) (
                Appends-check (ok_or (checked_add base offset) _) _ range.start (ground arith) (
                  Appends-bind {m = read_uleb} _
                    (Appends-uleb size (write_uleb offset out) (ground arith))
                    (Appends-check (ok_or (checked_add range.start size) _) _ range.end
                      (ground arith)
                      (Appends-guard (follows previous range.start) _ _ sorted (
                        Appends-bind {m = ranges_loop (length ranges) (some range) base} _ later
                          (Appends-pure (range ∷ ranges) out')))))),
            omega (arith, len-write_uleb offset out, len-write_uleb size (write_uleb offset out)),
          )

pub ranges-Appends :
    (base : ℕ) (ranges : List AddressRange) (out : Encoder) {out' : Encoder}
    → All IsWord ranges
    → IsU64 (length ranges)
    → encode_ranges ranges out base ≡ ok out'
    → Appends (decode_ranges base) ranges out out' × (len out + 1 ≤ len out')
unfolding encode_ranges decode_ranges
ranges-Appends base ranges out {out' = out'} fits small h =
    let count : ℕ = length ranges in
    let (loop, room) = loop-Appends base none ranges (write_uleb count out) fits h in
    (
      Appends-bind {m = read_uleb} _ (Appends-uleb count out small) (
          Appends-room (λ left. not (ltb (left / 2) count))
            (invalid_format "address-range count exceeds remaining input")
            (ranges_loop count none base) (λ left enough. ground arith) loop),
      omega (arith, len-write_uleb count out),
    )
