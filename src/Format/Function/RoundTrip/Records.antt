-- ===== src/Format/Function/RoundTrip/Records.antt =====
-- The records of a function are read back, each in its turn.
use gsym_rs.Prelude.{
  ℕ, zero, suc, ◌+◌, ◌^◌, ◌≤◌, ◌<◌, ◌≡◌, sym, ap, ◌∙◌, false, List, length, none, some, ◌==◌, arith,
}
use mathlib.Core.Path.{subst₂}
use gsym_rs.Prelude.Words.{IsU32}
use gsym_rs.Error.{Result, ok}
use gsym_rs.Endian.Cursor as Cursor
use gsym_rs.Endian.Cursor.{Read, ◌>>=◌, pure, lift, gets, read_u32}
use gsym_rs.Endian.Encoder.{Encoder, len, write_u32}
use gsym_rs.Endian.Encoder.Appends.{
  added, Extends, Extends-len, Extends-endian, Extends-trans, Appends, Appends-pure, Appends-bind,
  Appends-check, Appends-endian, Appends-u32, len-write_u32,
}
use gsym_rs.Format.Function.{from_raw, InfoRecord, observe, next_record, EncodedFunction}
use gsym_rs.Format.Function.Decode.{Records, store_record, records_round, records_loop}
use gsym_rs.Format.Function.Encode.{write_record}
use gsym_rs.Format.Function.RoundTrip.Payload.{write_sized-ok}

record-Appends :
    (kind : ℕ) (bytes : List ℕ) (out out' : Encoder)
    → IsU32 kind
    → (kind == 0) ≡ false
    → Appends read_u32
        (length bytes)
        (write_u32 kind out)
        (write_u32 (length bytes) (write_u32 kind out))
    → Appends
        (Cursor.take (length bytes))
        bytes
        (write_u32 (length bytes) (write_u32 kind out))
        out'
    → Appends next_record (some (record { kind = from_raw kind; payload = bytes })) out out'
unfolding next_record
record-Appends kind bytes out out' small known header body =
    Appends-bind {m = read_u32} _ (Appends-u32 out kind small) (
      Appends-bind {m = read_u32} _ header
        (rw known (Appends-bind {m = Cursor.take (length bytes)} _ body (Appends-pure _ out'))))

end-Appends : (out : Encoder) → Appends next_record none out (write_u32 0 (write_u32 0 out))
unfolding next_record
end-Appends out = Appends-bind {m = read_u32} _ (Appends-u32 out 0 (omega arith)) (
    Appends-bind {m = read_u32} _ (Appends-u32 (write_u32 0 out) 0 (omega arith))
      (Appends-pure none (write_u32 0 (write_u32 0 out))))

module _ (function : Read EncodedFunction) (width base : ℕ) where
  -- From these records on, the loop reads what follows as `result`, on every fuel that covers it.
  abbrev pub Loop : ℕ → Records → Records → Encoder → Encoder → Type 0
  Loop seen records result out out' =
      (fuel : ℕ)
      → len out' ≤ len out + fuel
      → Appends (records_loop fuel function width base seen records) result out out'

  pub Loop-end :
      (seen : ℕ) (records : Records) (out : Encoder)
      → Loop seen records records out (write_u32 0 (write_u32 0 out))
  unfolding records_loop records_round
  Loop-end seen records out zero fits =
      absurd (omega (arith, len-write_u32 0 out, len-write_u32 0 (write_u32 0 out)))
  Loop-end seen records out (suc fuel) fits =
      Appends-bind {m = next_record} _ (end-Appends out)
        (Appends-pure records (write_u32 0 (write_u32 0 out)))

  Loop-Extends :
      (seen : ℕ) (records result : Records) (out out' : Encoder)
      → Loop seen records result out out'
      → Extends out out'
  Loop-Extends seen records result out out' more = (more (len out') (omega arith)).written

  step :
      (fuel : ℕ) (info : InfoRecord) (seen seen' : ℕ) (records records' result : Records)
      (out mid out' : Encoder)
      → Appends next_record (some info) out mid
      → len out + 1 ≤ len mid
      → observe info.kind seen ≡ ok seen'
      → store_record function width base mid.endian info.kind info.payload records ≡ ok records'
      → Loop seen' records' result mid out'
      → len out' ≤ len out + fuel
      → Appends (records_loop fuel function width base seen records) result out out'
  unfolding records_loop records_round
  step zero info seen seen' records records' result out mid out' first long unseen store more fits =
      absurd
        (omega (arith, Extends-len mid out' (Loop-Extends seen' records' result mid out' more)))
  step (suc fuel) info seen seen' records records' result out mid out' first long unseen store more
        fits =
      Appends-bind {m = next_record} _ first (
        Appends-check (observe info.kind seen) _ seen' unseen (
          Appends-endian
            (λ endian.
              lift (store_record function width base endian info.kind info.payload records)
              >>= records_loop fuel function width base seen')
            (Appends-check
              (store_record function width base mid.endian info.kind info.payload records) _
              records' store (more fuel (omega arith)))))

  -- One record more in front.
  pub Loop-record :
      (kind : ℕ) (payload : Encoder → Result Encoder) (seen seen' : ℕ)
      (records records' result : Records) (out mid out' : Encoder)
      → IsU32 kind
      → (kind == 0) ≡ false
      → observe (from_raw kind) seen ≡ ok seen'
      → ((start : Encoder) (end : Encoder) → payload start ≡ ok end → Extends start end)
      → write_record kind payload out ≡ ok mid
      → ((start : Encoder) (end : Encoder)
          → payload start ≡ ok end
          → length (added start end) < 2 ^ 64
          → store_record function width base start.endian (from_raw kind) (added start end) records
            ≡ ok records')
      → Loop seen' records' result mid out'
      → Loop seen records result out out'
  unfolding write_record
  Loop-record kind payload seen seen' records records' result out mid out' small known unseen grows
        wrote store more fuel fits =
      let s = write_sized-ok _ _ payload (write_u32 kind out) grows wrote in
      let first = record-Appends kind s.bytes out mid small known s.header s.body in
      let grown : Extends (write_u32 kind out) mid =
        Extends-trans (write_u32 kind out) (write_u32 (length s.bytes) (write_u32 kind out)) mid
          s.header.written s.body.written in
      let order : s.start.endian ≡ mid.endian =
        s.order ∙ sym (Extends-endian (write_u32 kind out) mid grown) in
      let stored =
        subst₂
          (λ e bytes.
            store_record function width base e (from_raw kind) bytes records ≡ ok records')
          order (sym s.same)
          (store s.start s.end s.ran (omega (arith, s.small, ap length s.same))) in
      step fuel _ seen seen' records records' result out mid out' first
        (omega (arith, len-write_u32 kind out, Extends-len (write_u32 kind out) mid grown)) unseen
        stored more fits
