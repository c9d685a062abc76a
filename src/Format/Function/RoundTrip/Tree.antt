-- ===== src/Format/Function/RoundTrip/Tree.antt =====
-- The induction over functions and their merged functions.
use gsym_rs.Prelude.{
  ℕ, ◌+◌, ◌*◌, ◌^◌, ◌≤◌, ◌<◌, ◌≡◌, refl, sym, ap, ◌∙◌, Bool, true, false, length, length-append,
  List, ◌++◌, drop, arith,
}
use mathlib.Core.Path.{subst, subst₂}
use gsym_rs.Prelude.Words.{saturating_add}
use gsym_rs.Error.{ok, and_then-eq, bind-elim, check-elim, ok_injective}
use gsym_rs.Endian.Cursor.{Read}
use gsym_rs.Endian.Encoder.{Encoder, len, write_u32, align_to}
use gsym_rs.Endian.Encoder.Appends.{added, Extends-len, Appends, Appends-pure}
use gsym_rs.Format.Line.Encode as Line
use gsym_rs.Format.Function.{
  EncodedFunction, encoded_function, EncodedFunctions, no_merged, with_merged, check_merged_depth,
  string_offset_width,
}
use gsym_rs.Format.Function.Decode.{merged_loop, function_levels, decode_from, decode}
use gsym_rs.Format.Function.Encode.{
  write_some, write_record, encode_inline, write_head, write_aligned, start_of, encode_sized,
  merged_length, write_merged, write_call_sites, encode_into_at, encode_into, encode_merged_loop,
}
use gsym_rs.Format.Function.RoundTrip.Payload.{whole-Reads}
use gsym_rs.Format.Function.RoundTrip.CallSites.{width-same}
use gsym_rs.Format.Function.RoundTrip.Records.{Loop-end}
use gsym_rs.Format.Function.RoundTrip.Stages.{
  seen_sites, records_of, lines-Loop, inline-Loop, merged-Loop, sites-Loop,
}
use gsym_rs.Format.Function.RoundTrip.Whole.{
  IsFunction, AreFunctions, next_decoder, levels-eq, head-Appends, FunctionReads, next-Appends,
  merged-Appends, encode_sized-start, merged_into-Appends,
}

abbrev MergedRead : (levels width base depth : ℕ) → EncodedFunctions → Encoder → Encoder → Type 0
MergedRead levels width base depth functions out out' =
    Appends (merged_loop (next_decoder levels width base depth) (merged_length functions)) functions
      out out'
    × (len out + 4 * merged_length functions ≤ len out')

none-read :
    (levels width base depth : ℕ) (out : Encoder)
    → MergedRead levels width base depth no_merged out out
unfolding merged_loop
none-read levels width base depth out = (Appends-pure no_merged out, omega arith)

mutual
  unfolding IsFunction encode_into_at

  function-Appends :
      (function : EncodedFunction) (levels width depth : ℕ) (align : Bool) (out : Encoder)
      {r : Encoder × ℕ}
      → IsFunction width function
      → 16 ≤ levels + depth
      → encode_into_at function out width align depth ≡ ok r
      → FunctionReads levels width depth align function out r
  function-Appends (encoded_function range name lines inline merged sites) levels width depth align
        out {r = r} (hr, hn, hl, hi, hm, hs) enough h =
      check-elim (check_merged_depth depth) _ h λ deep h.
        bind-elim (string_offset_width width) _ h λ size wide h.
          bind-elim (write_aligned align out) _ h λ aligned same h.
            bind-elim (write_head range name width aligned) _ h λ o1 wrote1 h.
              bind-elim
                (write_some lines
                  (λ rows. write_record 1 (λ o. Line.encode_into rows range.start o)) o1)
                _ h
                λ o2 wrote2 h.
                  bind-elim
                    (write_some inline
                      (λ node. write_record 2 (λ o. encode_inline node o width range.start 0)) o2)
                    _ h
                    λ o3 wrote3 h.
                      bind-elim
                        (write_merged merged
                          (λ o.
                            encode_merged_loop merged width range.start (saturating_add depth 1) o)
                          o3)
                        _ h
                        λ o4 wrote4 h.
                          bind-elim (write_call_sites sites width o4) _ h λ o5 wrote5 h.
                            let base = range.start in
                            let decoder = next_decoder levels width base depth in
                            let width_ok : string_offset_width width ≡ ok width =
                              wide ∙ ap ok (width-same width wide) in
                            let records = records_of lines inline merged sites in
                            let end = write_u32 0 (write_u32 0 o5) in
                            let after5 =
                              Loop-end decoder width base (seen_sites lines inline merged sites)
                                records o5 in
                            let after4 =
                              sites-Loop decoder width base records end lines inline merged sites o4
                                width_ok hs wrote5 after5 in
                            let after3 =
                              merged-Loop decoder width base records end lines inline merged
                                (λ o.
                                  encode_merged_loop merged width base (saturating_add depth 1) o)
                                o3
                                (λ start stop e.
                                  merged_into-Appends decoder merged _ start
                                    (λ begin finish f.
                                      merged_loop-Appends merged levels width base depth begin hm
                                        enough f)
                                    e)
                                wrote4 after4 in
                            let after2 =
                              inline-Loop decoder width base records end lines inline o2 hi wrote3
                                after3 in
                            let after1 =
                              lines-Loop decoder width base records end lines o1 hl wrote2 after2 in
                            let head =
                              head-Appends decoder range name width depth records aligned o1 end hr
                                hn deep width_ok wrote1 after1 in
                            subst
                              (FunctionReads levels width depth align
                                (encoded_function range name lines inline merged sites) out)
                              (ok_injective h)
                              (
                                aligned,
                                same,
                                refl,
                                subst
                                    (λ (m : Read EncodedFunction).
                                      Appends m
                                        (encoded_function range name lines inline merged sites)
                                        aligned end)
                                    (sym (levels-eq levels width base depth)) head,
                              )

  merged_loop-Appends :
      (functions : EncodedFunctions) (levels width base depth : ℕ) (out : Encoder) {out' : Encoder}
      → AreFunctions width functions
      → 16 ≤ levels + depth
      → encode_merged_loop functions width base (saturating_add depth 1) out ≡ ok out'
      → MergedRead levels width base depth functions out out'
  merged_loop-Appends no_merged levels width base depth out fits enough h =
      subst (λ (o : Encoder). MergedRead levels width base depth no_merged out o) (ok_injective h)
        (none-read levels width base depth out)
  merged_loop-Appends (with_merged function functions) levels width base depth out {out' = out'}
        (fit, fits) enough h =
      bind-elim
        (encode_sized (λ o. encode_into_at function o width false (saturating_add depth 1))
          (start_of function) base out)
        _ h
        λ mid wrote h.
          let decoder = next_decoder levels width base depth in
          let (later, room) =
            merged_loop-Appends functions levels width base depth mid fits enough h in
          let reads =
            λ (o : Encoder) (r : Encoder × ℕ)
                (e : encode_into_at function o width false (saturating_add depth 1) ≡ ok r).
              subst (λ (b : ℕ). Appends (next_decoder levels width b depth) function o (r.0))
                (encode_sized-start
                  (λ x. encode_into_at function x width false (saturating_add depth 1))
                  (start_of function) base out wrote)
                (next-Appends levels width depth function o r enough e (λ l below.
                  function-Appends function l width (saturating_add depth 1) false o fit below
                    e)) in
          let (first, four) =
            merged-Appends decoder
              (λ o. encode_into_at function o width false (saturating_add depth 1)) function
              functions (start_of function) base (merged_length functions) out mid reads wrote
              later in
          (first, omega arith)

align_to-endian : (a : ℕ) (e : Encoder) {e' : Encoder} → align_to a e ≡ ok e' → e'.endian ≡ e.endian
unfolding align_to
align_to-endian a e h = ground arith

write_aligned-endian :
    (align : Bool) (out : Encoder) {aligned : Encoder}
    → write_aligned align out ≡ ok aligned
    → aligned.endian ≡ out.endian
write_aligned-endian true out h = align_to-endian 4 out h
write_aligned-endian false out h = cc

encode-width :
    (function : EncodedFunction) (out : Encoder) (width : ℕ) (align : Bool) {r : Encoder × ℕ}
    → encode_into function out width align ≡ ok r
    → string_offset_width width ≡ ok width
unfolding encode_into encode_into_at
encode-width (encoded_function _ _ _ _ _ _) out width align h =
    check-elim (check_merged_depth 0) _ h λ deep h.
      bind-elim (string_offset_width width) _ h λ size wide h. wide ∙ ap ok (width-same width wide)

decode-Appends :
    (function : EncodedFunction) (width : ℕ) (out end : Encoder) (tail : List ℕ)
    → string_offset_width width ≡ ok width
    → Appends (function_levels 16 width (start_of function) 0) function out end
    → length (added out end ++ tail) < 2 ^ 64
    → decode (added out end ++ tail) out.endian width (start_of function) ≡ ok function
unfolding decode decode_from
decode-Appends function width out end tail wide r small =
    and_then-eq (string_offset_width width) _ wide (
      whole-Reads (function_levels 16 width (start_of function) 0) (added out end) tail out.endian
        r.reads small)

-- Where `encode_into` succeeds on a function whose fields fit their types, whatever the output held
-- before, aligned or not, the bytes from the returned offset decode to that function, with its line
-- table, inline tree, merged functions and call sites, whatever follows them.
pub decode-encode_function :
    (function : EncodedFunction) (width : ℕ) (align : Bool) (out : Encoder) (tail : List ℕ)
    {out' : Encoder} {start : ℕ}
    → IsFunction width function
    → encode_into function out width align ≡ ok (out', start)
    → length (out'.bytes ++ tail) < 2 ^ 64
    → decode (drop start out'.bytes ++ tail) out.endian width (start_of function) ≡ ok function
unfolding encode_into
decode-encode_function function width align out tail {out' = out'} {start = start} fits h small =
    let (aligned, same, at, reads) =
      function-Appends function 16 width 0 align out fits (omega arith) h in
    let wide = encode-width function out width align h in
    subst₂ (λ k e. decode (drop k out'.bytes ++ tail) e width (start_of function) ≡ ok function)
      (sym at) (write_aligned-endian align out same)
      (decode-Appends function width aligned out' tail wide reads (
        omega (
          arith,
          length-append out'.bytes tail,
          length-append (added aligned out') tail,
          Extends-len aligned out' reads.written,
        )))
