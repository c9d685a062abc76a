-- ===== src/Format/Function/RoundTrip/Stages.antt =====
-- The four optional records of a function, in the order in which the encoder writes them.
use gsym_rs.Prelude.{
  ℕ, ◌≡◌, refl, sym, not, List, [], ◌∷◌, All, Option, none, some, bit_or, arith, is_nil,
}
use mathlib.Core.Path.{subst}
use gsym_rs.Error.{invalid_format, Result, ok, ok_injective}
use gsym_rs.Model.{LineEntry}
use gsym_rs.Endian.Cursor.{Read}
use gsym_rs.Endian.Encoder.{Encoder}
use gsym_rs.Endian.Encoder.Appends.{added, Appends, Appends-pure, Appends-bind, Appends-guard}
use gsym_rs.Format.Line.Encode as Line
use gsym_rs.Format.Line.RoundTrip.Rows.{IsRow}
use gsym_rs.Format.Line.RoundTrip.Table.{encode_into-Appends, decode-Reads}
use gsym_rs.Format.Function.{
  EncodedFunction, EncodedFunctions, no_merged, with_merged, EncodedInlineNode, EncodedCallSite,
  from_raw, observe, string_offset_width, node_ranges,
}
use gsym_rs.Format.Function.Inline.{decode_inline}
use gsym_rs.Format.Function.CallSites.{decode_call_sites}
use gsym_rs.Format.Function.Decode.{
  Records, no_records, store_record, inline_root, merged_at, decode_merged,
}
use gsym_rs.Format.Function.Encode.{
  write_some, write_record, encode_inline, write_merged, merged_into, write_call_sites,
  encode_call_sites_into,
}
use gsym_rs.Format.Function.RoundTrip.Payload.{whole-to_end}
use gsym_rs.Format.Function.RoundTrip.CallSites.{IsCallSite, call_sites-Appends}
use gsym_rs.Format.Function.RoundTrip.Inline.{IsNode, inline-Appends, inline-full}
use gsym_rs.Format.Function.RoundTrip.Records.{Loop, Loop-record}

abbrev pub Holds {ℓ} : {A : Type ℓ} → (A → Type 0) → Option A → Type 0
Holds P none = Unit
Holds P (some value) = P value

-- The set of seen records, and the records, after each stage.
abbrev pub seen_lines : Option (List LineEntry) → ℕ
seen_lines none = 0
seen_lines (some _) = 1

abbrev pub seen_inline : Option (List LineEntry) → Option EncodedInlineNode → ℕ
seen_inline lines none = seen_lines lines
seen_inline lines (some _) = bit_or (seen_lines lines) 2

abbrev pub seen_merged : Option (List LineEntry) → Option EncodedInlineNode → EncodedFunctions → ℕ
seen_merged lines inline no_merged = seen_inline lines inline
seen_merged lines inline (with_merged _ _) = bit_or (seen_inline lines inline) 4

abbrev pub seen_sites :
    Option (List LineEntry) → Option EncodedInlineNode → EncodedFunctions → List EncodedCallSite → ℕ
seen_sites lines inline functions [] = seen_merged lines inline functions
seen_sites lines inline functions (_ ∷ _) = bit_or (seen_merged lines inline functions) 8

abbrev pub records_of :
    Option (List LineEntry)
    → Option EncodedInlineNode
    → EncodedFunctions
    → List EncodedCallSite
    → Records
records_of lines inline functions sites = record {
  lines = lines;
  inline_tree = inline;
  merged_functions = functions;
  call_sites = sites;
}

-- A kind that is not in the set yet.
inline-new :
    (lines : Option (List LineEntry))
    → observe (from_raw 2) (seen_lines lines) ≡ ok (bit_or (seen_lines lines) 2)
unfolding observe from_raw
inline-new none = refl
inline-new (some _) = refl

merged-new :
    (lines : Option (List LineEntry)) (inline : Option EncodedInlineNode)
    → observe (from_raw 3) (seen_inline lines inline) ≡ ok (bit_or (seen_inline lines inline) 4)
unfolding observe from_raw
merged-new none none = refl
merged-new none (some _) = refl
merged-new (some _) none = refl
merged-new (some _) (some _) = refl

sites-new :
    (lines : Option (List LineEntry)) (inline : Option EncodedInlineNode)
    (functions : EncodedFunctions)
    → observe (from_raw 4) (seen_merged lines inline functions)
      ≡ ok (bit_or (seen_merged lines inline functions) 8)
unfolding observe from_raw
sites-new none none no_merged = refl
sites-new none none (with_merged _ _) = refl
sites-new none (some _) no_merged = refl
sites-new none (some _) (with_merged _ _) = refl
sites-new (some _) none no_merged = refl
sites-new (some _) none (with_merged _ _) = refl
sites-new (some _) (some _) no_merged = refl
sites-new (some _) (some _) (with_merged _ _) = refl

module _ (function : Read EncodedFunction) (width base : ℕ) (result : Records)
    (out' : Encoder) where
  abbrev From : ℕ → Records → Encoder → Type 0
  From seen records out = Loop function width base seen records result out out'

  pub lines-Loop :
      (lines : Option (List LineEntry)) (out : Encoder) {mid : Encoder}
      → Holds (All IsRow) lines
      → write_some lines (λ rows. write_record 1 (λ o. Line.encode_into rows base o)) out ≡ ok mid
      → From (seen_lines lines) (record no_records { lines = lines }) mid
      → From 0 no_records out
  unfolding observe from_raw store_record
  lines-Loop none out fits h more = subst (From 0 no_records) (sym (ok_injective h)) more
  lines-Loop (some rows) out {mid = mid} fits h more =
      Loop-record function width base 1 (λ o. Line.encode_into rows base o) 0 1 no_records
        (record no_records { lines = some rows }) result out mid out' (omega arith) refl refl
        (λ start end e. (encode_into-Appends rows base start fits e).written) h
        (λ start end e small.
          rw
            (decode-Reads (added start end) start.endian base
              (encode_into-Appends rows base start fits e).reads small)
            refl)
        more

  inline_root-Appends :
      (node : EncodedInlineNode) (start end : Encoder)
      → IsNode node
      → encode_inline node start width base 0 ≡ ok end
      → Appends (inline_root width base) node start end
  unfolding inline_root
  inline_root-Appends node start end fits e =
      Appends-bind {m = decode_inline width base 0} _
        (inline-Appends width base 0 node start fits e)
        (Appends-guard (not (is_nil (node_ranges node))) _ _
          (rw (inline-full node start width base 0 e) refl) (Appends-pure node end))

  pub inline-Loop :
      (lines : Option (List LineEntry)) (inline : Option EncodedInlineNode) (out : Encoder)
      {mid : Encoder}
      → Holds IsNode inline
      → write_some inline (λ node. write_record 2 (λ o. encode_inline node o width base 0)) out
        ≡ ok mid
      → From (seen_inline lines inline) (records_of lines inline no_merged []) mid
      → From (seen_lines lines) (records_of lines none no_merged []) out
  unfolding from_raw store_record
  inline-Loop lines none out fits h more =
      subst (From (seen_lines lines) (records_of lines none no_merged [])) (sym (ok_injective h))
        more
  inline-Loop lines (some node) out {mid = mid} fits h more =
      Loop-record function width base 2 (λ o. encode_inline node o width base 0) (seen_lines lines)
        (bit_or (seen_lines lines) 2) (records_of lines none no_merged [])
        (records_of lines (some node) no_merged []) result out mid out' (omega arith) refl
        (inline-new lines) (λ start end e. (inline_root-Appends node start end fits e).written) h
        (λ start end e small.
          rw
            (whole-to_end (invalid_format "trailing inline-info bytes") (inline_root width base)
              (added start end) start.endian (inline_root-Appends node start end fits e).reads
              small)
            refl)
        more

  pub merged-Loop :
      (lines : Option (List LineEntry)) (inline : Option EncodedInlineNode)
      (functions : EncodedFunctions) (loop : Encoder → Result Encoder) (out : Encoder)
      {mid : Encoder}
      → ((start : Encoder) (end : Encoder)
          → merged_into functions loop start ≡ ok end
          → Appends (merged_at function) functions start end)
      → write_merged functions loop out ≡ ok mid
      → From (seen_merged lines inline functions) (records_of lines inline functions []) mid
      → From (seen_inline lines inline) (records_of lines inline no_merged []) out
  unfolding from_raw store_record write_merged decode_merged
  merged-Loop lines inline no_merged loop out reads h more =
      subst (From (seen_inline lines inline) (records_of lines inline no_merged []))
        (sym (ok_injective h)) more
  merged-Loop lines inline (with_merged first others) loop out {mid = mid} reads h more =
      let functions = with_merged first others in
      Loop-record function width base 3 (merged_into functions loop) (seen_inline lines inline)
        (bit_or (seen_inline lines inline) 4) (records_of lines inline no_merged [])
        (records_of lines inline functions []) result out mid out' (omega arith) refl
        (merged-new lines inline) (λ start end e. (reads start end e).written) h
        (λ start end e small.
          rw
            (whole-to_end (invalid_format "trailing merged-function bytes") (merged_at function)
              (added start end) start.endian (reads start end e).reads small)
            refl)
        more

  pub sites-Loop :
      (lines : Option (List LineEntry)) (inline : Option EncodedInlineNode)
      (functions : EncodedFunctions) (sites : List EncodedCallSite) (out : Encoder) {mid : Encoder}
      → string_offset_width width ≡ ok width
      → All (IsCallSite width) sites
      → write_call_sites sites width out ≡ ok mid
      → From (seen_sites lines inline functions sites) (records_of lines inline functions sites) mid
      → From (seen_merged lines inline functions) (records_of lines inline functions []) out
  unfolding from_raw store_record decode_call_sites
  sites-Loop lines inline functions [] out wide fits h more =
      subst (From (seen_merged lines inline functions) (records_of lines inline functions []))
        (sym (ok_injective h)) more
  sites-Loop lines inline functions (site ∷ others) out {mid = mid} wide fits h more =
      let sites = site ∷ others in
      Loop-record function width base 4 (encode_call_sites_into sites width)
        (seen_merged lines inline functions) (bit_or (seen_merged lines inline functions) 8)
        (records_of lines inline functions []) (records_of lines inline functions sites) result out
        mid out' (omega arith) refl (sites-new lines inline functions)
        (λ start end e. (call_sites-Appends width sites start wide fits e).written) h
        (λ start end e small.
          rw
            (whole-to_end (invalid_format "trailing call-site bytes") _ (added start end)
              start.endian (call_sites-Appends width sites start wide fits e).reads small)
            refl)
        more
