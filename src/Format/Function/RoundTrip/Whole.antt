-- ===== src/Format/Function/RoundTrip/Whole.antt =====
-- A function with all that it holds is read back.
use gsym_rs.Prelude.{
  ℕ, zero, suc, ◌+◌, ◌-◌, ◌*◌, ◌/◌, ◌^◌, ◌≤◌, ◌<◌, ◌≡◌, ◌≢◌, refl, sym, ap, ◌∙◌, Bool, false, not,
  length, All, ltb, ◌==◌, arith,
}
use mathlib.Core.Path.{subst, subst₂}
use gsym_rs.Prelude.Words.{IsU64, try_u32, checked_add, saturating_add}
use gsym_rs.Error.{
  invalid_format, zero_name_offset, Result, ok, ok_or, ◌>>=◌, bind-elim, guard-elim, check-elim,
  ok_or-elim, ok_injective,
}
use gsym_rs.Model.Range.{AddressRange}
use gsym_rs.Endian.Cursor as Cursor
use gsym_rs.Endian.Cursor.{Read, pure, lift, gets, read_u32, read_uint}
use gsym_rs.Endian.Encoder.{Encoder, len, write_u32}
use gsym_rs.Endian.Encoder.Appends.{
  added, Extends-endian, Extends-len, Extends-trans, len-write_u32, Appends, Appends-pure,
  Appends-bind, Appends-check, Appends-guard, Appends-remaining, Appends-room, Appends-endian,
  Appends-u32, Appends-uint,
}
use gsym_rs.Format.Line.RoundTrip.Rows.{IsRow}
use gsym_rs.Format.Function.{
  EncodedFunction, encoded_function, EncodedFunctions, no_merged, with_merged, check_merged_depth,
  string_offset_width,
}
use gsym_rs.Format.Function.Decode.{
  Records, no_records, decode_exact_at, merged_loop, merged_at, records_loop, function_at, too_deep,
  function_levels,
}
use gsym_rs.Format.Function.Encode.{
  write_head, write_aligned, start_of, encode_sized, merged_into, merged_length, encode_into_at,
}
use gsym_rs.Format.Function.RoundTrip.Payload.{write_sized-ok, whole-to_end}
use gsym_rs.Format.Function.RoundTrip.CallSites.{IsCallSite, not_below}
use gsym_rs.Format.Function.RoundTrip.Ranges.{IsWord}
use gsym_rs.Format.Function.RoundTrip.Inline.{IsNode}
use gsym_rs.Format.Function.RoundTrip.Records.{Loop}
use gsym_rs.Format.Function.RoundTrip.Stages.{Holds}

-- A function whose fields fit their types, with all that it holds, for a name of `width` bytes.
unfoldable mutual
  pub IsFunction : ℕ → EncodedFunction → Type 0
  IsFunction width (encoded_function range name lines inline merged call_sites) =
      IsWord range
      × IsU64 name
      × Holds (All IsRow) lines
      × Holds IsNode inline
      × AreFunctions width merged
      × All (IsCallSite width) call_sites

  pub AreFunctions : ℕ → EncodedFunctions → Type 0
  AreFunctions width no_merged = Unit
  AreFunctions width (with_merged function functions) =
      IsFunction width function × AreFunctions width functions

-- The decoder of merged functions at these levels.
abbrev pub next_decoder : (levels width base depth : ℕ) → Read EncodedFunction
next_decoder zero width base depth = too_deep (saturating_add depth 1)
next_decoder (suc levels) width base depth =
    function_levels levels width base (saturating_add depth 1)

pub levels-eq :
    (levels width base depth : ℕ)
    → function_levels levels width base depth
      ≡ function_at (next_decoder levels width base depth) width base depth
unfolding function_levels
levels-eq zero width base depth = refl
levels-eq (suc levels) width base depth = refl

pub head-Appends :
    (function : Read EncodedFunction) (range : AddressRange) (name width depth : ℕ)
    (records : Records) (out mid out' : Encoder)
    → IsWord range
    → IsU64 name
    → check_merged_depth depth ≡ ok tt
    → string_offset_width width ≡ ok width
    → write_head range name width out ≡ ok mid
    → Loop function width range.start 0 no_records records mid out'
    → Appends
        (function_at function width range.start depth)
        (encoded_function range name records.lines records.inline_tree records.merged_functions
          records.call_sites)
        out
        out'
unfolding write_head function_at
head-Appends function range name width depth records out mid out' fits hn deep wide h more =
    guard-elim (not (name == 0)) _ _ h λ named h.
      guard-elim (not (ltb range.end range.start)) _ _ h λ valid h.
        ok_or-elim (try_u32 (range.end - range.start)) _ _ h λ size small h.
          let base = range.start in
          let after = λ (records : Records). pure (
            encoded_function range name records.lines records.inline_tree records.merged_functions
              records.call_sites) in
          Appends-check (check_merged_depth depth) _ tt deep (
            Appends-check (string_offset_width width) _ width wide (
              Appends-bind {m = read_u32} _ (Appends-u32 out size (ground arith)) (
                Appends-bind {m = read_uint width} _
                  (Appends-uint (write_u32 size out) name width hn h)
                  (Appends-guard (not (name == 0)) zero_name_offset _ named (
                    Appends-check (ok_or (checked_add base size) _) _ range.end (ground arith) (
                      Appends-remaining
                        (λ left.
                          Cursor.◌>>=◌ (records_loop left function width base 0 no_records) after)
                        (λ left enough.
                          Appends-bind {m = records_loop left function width base 0 no_records}
                            after (more left enough) (Appends-pure _ out'))))))))

-- What a successful `encode_into_at` promises at these levels: behind the alignment stands a function
-- that is read back.
abbrev pub FunctionReads :
    (levels width depth : ℕ) → Bool → EncodedFunction → Encoder → Encoder × ℕ → Type 0
FunctionReads levels width depth align function out r =
    (aligned : Encoder) × (write_aligned align out ≡ ok aligned)
    × (r.1 ≡ len aligned)
    × Appends (function_levels levels width (start_of function) depth) function aligned (r.0)

encode-deep :
    (function : EncodedFunction) (out : Encoder) (width depth : ℕ) (align : Bool) {r : Encoder × ℕ}
    → encode_into_at function out width align depth ≡ ok r
    → check_merged_depth depth ≡ ok tt
unfolding encode_into_at
encode-deep (encoded_function _ _ _ _ _ _) out width depth align h =
    check-elim (check_merged_depth depth) _ h λ deep h. deep

next-deep : (depth : ℕ) → 16 ≤ depth → check_merged_depth (saturating_add depth 1) ≢ ok tt
unfolding check_merged_depth
next-deep depth h e = ground arith

next-enough : (levels depth : ℕ) → 16 ≤ suc levels + depth → 16 ≤ levels + saturating_add depth 1
next-enough levels depth h = omega arith

-- A merged function, by what holds of it one level below.
pub next-Appends :
    (levels width depth : ℕ) (function : EncodedFunction) (out : Encoder) (r : Encoder × ℕ)
    → 16 ≤ levels + depth
    → encode_into_at function out width false (saturating_add depth 1) ≡ ok r
    → ((l : ℕ)
        → 16 ≤ l + saturating_add depth 1
        → FunctionReads l width (saturating_add depth 1) false function out r)
    → Appends (next_decoder levels width (start_of function) depth) function out (r.0)
next-Appends zero width depth function out r enough h below = absurd (
    next-deep depth (omega arith) (encode-deep function out width (saturating_add depth 1) false h))
next-Appends (suc levels) width depth function out r enough h below =
    let (aligned, same, start, reads) = below levels (next-enough levels depth enough) in
    subst
      (λ (o : Encoder).
        Appends (next_decoder (suc levels) width (start_of function) depth) function o (r.0))
      (sym (ok_injective same)) reads

-- The bytes of a function on their own.
exact-eq :
    (decoder : Read EncodedFunction) (function : EncodedFunction) (start end : Encoder)
    → Appends decoder function start end
    → length (added start end) < 2 ^ 64
    → decode_exact_at decoder (added start end) start.endian ≡ ok function
unfolding decode_exact_at
exact-eq decoder function start end r small =
    whole-to_end (invalid_format "bytes remain after the FunctionInfo end marker") decoder
      (added start end) start.endian r.reads small

-- One merged function behind its length.
pub merged-Appends :
    (decoder : Read EncodedFunction) (encode : Encoder → Result (Encoder × ℕ))
    (function : EncodedFunction) (functions : EncodedFunctions) (start base n : ℕ)
    (out mid : Encoder) {out' : Encoder}
    → ((o : Encoder) (r : Encoder × ℕ) → encode o ≡ ok r → Appends decoder function o (r.0))
    → encode_sized encode start base out ≡ ok mid
    → Appends (merged_loop decoder n) functions mid out'
    → Appends (merged_loop decoder (suc n)) (with_merged function functions) out out'
      × (len out + 4 ≤ len mid)
unfolding encode_sized merged_loop
merged-Appends decoder encode function functions start base n out mid {out' = out'} reads h more =
    guard-elim (start == base) _ _ h λ same h.
      let payload = λ (o : Encoder). encode o >>= λ r. ok (r.0) in
      let written = λ (begin : Encoder) (end : Encoder) (e : payload begin ≡ ok end).
        bind-elim (encode begin) _ e (λ r e f.
          subst (λ (o : Encoder). Appends decoder function begin o) (ok_injective f)
            (reads begin r e)) in
      let s = write_sized-ok _ _ payload out (λ begin end e. (written begin end e).written) h in
      let exact =
        exact-eq decoder function s.start s.end (written s.start s.end s.ran)
          (omega (arith, s.small, ap length s.same)) in
      let order : s.start.endian ≡ mid.endian =
        s.order
        ∙ sym (
            Extends-endian out mid (
              Extends-trans out (write_u32 (length s.bytes) out) mid s.header.written
                s.body.written)) in
      let decoded =
        subst₂ (λ bytes e. decode_exact_at decoder bytes e ≡ ok function) (sym s.same) order
          exact in
      (
        Appends-bind {m = read_u32} _ s.header (
            Appends-bind {m = Cursor.take (length s.bytes)} _ s.body (
              Appends-endian
                (λ endian. Cursor.◌>>=◌ (lift (decode_exact_at decoder s.bytes endian)) (λ first.
                  Cursor.◌>>=◌ (merged_loop decoder n) (λ others. pure (with_merged first others))))
                (Appends-check (decode_exact_at decoder s.bytes mid.endian) _ function decoded (
                  Appends-bind {m = merged_loop decoder n} _ more
                    (Appends-pure (with_merged function functions) out'))))),
        omega (
          arith,
          len-write_u32 (length s.bytes) out,
          Extends-len (write_u32 (length s.bytes) out) mid s.body.written,
        ),
      )

pub encode_sized-start :
    (encode : Encoder → Result (Encoder × ℕ)) (start base : ℕ) (out : Encoder) {mid : Encoder}
    → encode_sized encode start base out ≡ ok mid
    → start ≡ base
unfolding encode_sized
encode_sized-start encode start base out h = guard-elim (start == base) _ _ h λ same h. ground arith

pub merged_into-Appends :
    (decoder : Read EncodedFunction) (functions : EncodedFunctions)
    (loop : Encoder → Result Encoder) (out : Encoder) {out' : Encoder}
    → ((start : Encoder) (end : Encoder)
        → loop start ≡ ok end
        → Appends (merged_loop decoder (merged_length functions)) functions start end
          × (len start + 4 * merged_length functions ≤ len end))
    → merged_into functions loop out ≡ ok out'
    → Appends (merged_at decoder) functions out out'
unfolding merged_into merged_at
merged_into-Appends decoder functions loop out {out' = out'} reads h =
    let n : ℕ = merged_length functions in
    ok_or-elim (try_u32 n) _ _ h λ count small h.
      let same : count ≡ n = ground arith in
      let (later, room) =
        reads (write_u32 n out) out' (subst (λ (k : ℕ). loop (write_u32 k out) ≡ ok out') same h) in
      Appends-bind {m = read_u32} _ (Appends-u32 out n (ground arith)) (
        Appends-room (λ left. not (ltb (left / 4) n))
          (invalid_format "merged-function count exceeds remaining input") (merged_loop decoder n)
          (λ left enough. not_below (left / 4) n (omega arith)) later)
