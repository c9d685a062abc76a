-- ===== src/Format/Function/CallSites.antt =====
-- src/format/function.rs: `decode_call_sites`.
use gsym_rs.Prelude.{ℕ, zero, suc, ◌/◌, not, List, [], ◌∷◌, ltb}
use gsym_rs.Error.{invalid_format, Result, guard}
use gsym_rs.Endian.Order.{Endian}
use gsym_rs.Endian.Cursor.{
  Read, ◌>>=◌, ◌>>◌, pure, lift, gets, remaining, read_u8, read_u32, read_u64, read_uint,
}
use gsym_rs.Format.Function.{EncodedCallSite, string_offset_width, to_end, whole}

unfoldable pub regex_loop : ℕ → ℕ → Read (List ℕ)
regex_loop zero width = pure []
regex_loop (suc rounds) width = do
  offset ← read_uint width
  offsets ← regex_loop rounds width
  pure (offset ∷ offsets)

-- The body of the `for` loop of `decode_call_sites`.
unfoldable pub call_site_at : ℕ → Read EncodedCallSite
unfolding regex_loop
call_site_at width = do
  return_offset ← read_u64
  flags ← read_u8
  regex_count ← read_u32
  size ← lift (string_offset_width width)
  left ← gets remaining
  lift (
      guard (not (ltb (left / size) regex_count))
        (invalid_format "call-site regex count exceeds remaining input"))
  match_regex ← regex_loop regex_count width
  pure (record { return_offset = return_offset; flags = flags; match_regex = match_regex })

unfoldable pub call_sites_loop : ℕ → ℕ → Read (List EncodedCallSite)
unfolding call_site_at
call_sites_loop zero width = pure []
call_sites_loop (suc rounds) width = do
  call_site ← call_site_at width
  call_sites ← call_sites_loop rounds width
  pure (call_site ∷ call_sites)

-- 8 + 1 + 4.
abbrev minimum_record_size : ℕ
minimum_record_size = 13

unfoldable pub call_sites_at : ℕ → Read (List EncodedCallSite)
unfolding call_sites_loop
call_sites_at width = do
  count ← read_u32
  left ← gets remaining
  lift (
      guard (not (ltb (left / minimum_record_size) count))
        (invalid_format "call-site count exceeds remaining input"))
  call_sites_loop count width

unfoldable pub decode_call_sites : List ℕ → Endian → ℕ → Result (List EncodedCallSite)
unfolding call_sites_at
decode_call_sites bytes endian width =
    whole (to_end (invalid_format "trailing call-site bytes") (call_sites_at width)) bytes endian
