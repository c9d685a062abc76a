-- ===== src/Format/Function/RoundTrip/CallSites.antt =====
-- Call sites are read back.
use gsym_rs.Prelude.{ℕ, ◌+◌, ◌*◌, ◌/◌, ◌≤◌, ◌≡◌, true, not, List, [], ◌∷◌, length, All, ltb, arith}
use mathlib.Core.Path.{subst}
use gsym_rs.Prelude.Words.{IsByte, IsU64, try_u32}
use gsym_rs.Error.{invalid_format, ok, bind-elim, ok_or-elim, ok_injective}
use gsym_rs.Endian.Order.{int_bytes, length-int_bytes}
use gsym_rs.Endian.Cursor.{◌>>=◌, pure, read_u8, read_u32, read_u64, read_uint}
use gsym_rs.Endian.Encoder.{Encoder, len, write_u8, write_u32, write_u64, write_uint}
use gsym_rs.Endian.Encoder.Writes.{write_uint-eq, write_uint-ok}
use gsym_rs.Endian.Encoder.Appends.{
  Appends, Appends-pure, Appends-bind, Appends-check, Appends-room, Appends-u8, Appends-u32,
  Appends-u64, Appends-uint, len-eq, len-write_u8, len-write_u32, len-write_u64,
}
use gsym_rs.Format.Function.{EncodedCallSite, string_offset_width}
use gsym_rs.Format.Function.CallSites.{regex_loop, call_site_at, call_sites_loop, call_sites_at}
use gsym_rs.Format.Function.Encode.{
  encode_regexes, encode_call_site, encode_call_sites_loop, encode_call_sites_into,
}

pub len-write_uint :
    (v w : ℕ) (out : Encoder) {out' : Encoder}
    → IsU64 v
    → write_uint v w out ≡ ok out'
    → len out' ≡ len out + w
len-write_uint v w out {out' = out'} h k =
    let (lo, hi, fits) = write_uint-ok w v out h k in
    omega (
      arith,
      len-eq (int_bytes out.endian w v) out out' (cc (write_uint-eq w v out lo hi fits)),
      length-int_bytes out.endian w v,
    )

pub width-pos : (width : ℕ) {size : ℕ} → string_offset_width width ≡ ok size → 1 ≤ width
unfolding string_offset_width
width-pos width h = ground arith

pub width-same : (width : ℕ) {size : ℕ} → string_offset_width width ≡ ok size → size ≡ width
unfolding string_offset_width
width-same width h = ground arith

pub not_below : (a b : ℕ) → b ≤ a → not (ltb a b) ≡ true
not_below a b h = ground arith

module _ (width : ℕ) where
  regexes-Appends :
      (offsets : List ℕ) (out : Encoder) {out' : Encoder}
      → All IsU64 offsets
      → encode_regexes offsets width out ≡ ok out'
      → Appends (regex_loop (length offsets) width) offsets out out'
        × (len out' ≡ len out + width * length offsets)
  unfolding encode_regexes regex_loop
  regexes-Appends [] out fits h =
      subst
        (λ (o : Encoder). Appends (pure {A = List ℕ} []) [] out o × (len o ≡ len out + width * 0))
        (ok_injective h) (Appends-pure [] out, omega arith)
  regexes-Appends (offset ∷ offsets) out {out' = out'} (fit, fits) h =
      bind-elim (write_uint offset width out) _ h λ mid wrote h.
        let (later, room) = regexes-Appends offsets mid fits h in
        (
          Appends-bind {m = read_uint width} _ (Appends-uint out offset width fit wrote) (
              Appends-bind {m = regex_loop (length offsets) width} _ later
                (Appends-pure (offset ∷ offsets) out')),
          grind (arith, len-write_uint offset width out fit wrote),
        )

  -- A call site whose fields fit their types.
  abbrev pub IsCallSite : EncodedCallSite → Type 0
  IsCallSite site = IsU64 site.return_offset × IsByte site.flags × All IsU64 site.match_regex

  divides : (n k left : ℕ) → 1 ≤ k → k * n ≤ left → n ≤ left / k
  divides n k left pos h = grind arith

  call_site-Appends :
      (site : EncodedCallSite) (out : Encoder) {out' : Encoder}
      → string_offset_width width ≡ ok width
      → IsCallSite site
      → encode_call_site site width out ≡ ok out'
      → Appends (call_site_at width) site out out' × (len out + 13 ≤ len out')
  unfolding encode_call_site call_site_at
  call_site-Appends site out {out' = out'} wide (fits_offset, fits_flags, fits) h =
      ok_or-elim (try_u32 (length site.match_regex)) _ _ h λ count small h.
        let n : ℕ = length site.match_regex in
        let same : count ≡ n = ground arith in
        let mid = write_u32 n (write_u8 site.flags (write_u64 site.return_offset out)) in
        let (later, room) = regexes-Appends site.match_regex mid fits (
          subst
            (λ (k : ℕ).
              encode_regexes site.match_regex width
                (write_u32 k (write_u8 site.flags (write_u64 site.return_offset out)))
              ≡ ok out')
            same h) in
        (
          Appends-bind {m = read_u64} _ (Appends-u64 out site.return_offset fits_offset) (
              Appends-bind {m = read_u8} _
                (Appends-u8 (write_u64 site.return_offset out) site.flags)
                (Appends-bind {m = read_u32} _ (Appends-u32 _ n (ground arith)) (
                  Appends-check (string_offset_width width) _ width wide (
                    Appends-room (λ left. not (ltb (left / width) n))
                      (invalid_format "call-site regex count exceeds remaining input")
                      (regex_loop n width >>= λ offsets.
                        pure (record site { match_regex = offsets }))
                      (λ left enough.
                        not_below (left / width) n (
                          divides n width left (width-pos width wide)
                            (omega (arith, enough, room))))
                      (Appends-bind {m = regex_loop n width} _ later (Appends-pure site out')))))),
          omega (
            arith,
            len-write_u64 site.return_offset out,
            len-write_u8 site.flags (write_u64 site.return_offset out),
            len-write_u32 n (write_u8 site.flags (write_u64 site.return_offset out)),
          ),
        )

  sites-Appends :
      (sites : List EncodedCallSite) (out : Encoder) {out' : Encoder}
      → string_offset_width width ≡ ok width
      → All IsCallSite sites
      → encode_call_sites_loop sites width out ≡ ok out'
      → Appends (call_sites_loop (length sites) width) sites out out'
        × (len out + 13 * length sites ≤ len out')
  unfolding encode_call_sites_loop call_sites_loop
  sites-Appends [] out wide fits h =
      subst
        (λ (o : Encoder).
          Appends (pure {A = List EncodedCallSite} []) [] out o × (len out + 13 * 0 ≤ len o))
        (ok_injective h) (Appends-pure [] out, omega arith)
  sites-Appends (site ∷ sites) out {out' = out'} wide (fit, fits) h =
      bind-elim (encode_call_site site width out) _ h λ mid wrote h.
        let (first, room) = call_site-Appends site out wide fit wrote in
        let (later, more) = sites-Appends sites mid wide fits h in
        (
          Appends-bind {m = call_site_at width} _ first (
              Appends-bind {m = call_sites_loop (length sites) width} _ later
                (Appends-pure (site ∷ sites) out')),
          omega arith,
        )

  pub call_sites-Appends :
      (sites : List EncodedCallSite) (out : Encoder) {out' : Encoder}
      → string_offset_width width ≡ ok width
      → All IsCallSite sites
      → encode_call_sites_into sites width out ≡ ok out'
      → Appends (call_sites_at width) sites out out'
  unfolding encode_call_sites_into call_sites_at
  call_sites-Appends sites out {out' = out'} wide fits h =
      ok_or-elim (try_u32 (length sites)) _ _ h λ count small h.
        let n : ℕ = length sites in
        let same : count ≡ n = ground arith in
        let (loop, room) = sites-Appends sites (write_u32 n out) wide fits (
          subst (λ (k : ℕ). encode_call_sites_loop sites width (write_u32 k out) ≡ ok out') same
            h) in
        Appends-bind {m = read_u32} _ (Appends-u32 out n (ground arith)) (
          Appends-room (λ left. not (ltb (left / 13) n))
            (invalid_format "call-site count exceeds remaining input") (call_sites_loop n width)
            (λ left enough. not_below (left / 13) n (omega arith)) loop)
