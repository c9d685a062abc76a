-- ===== src/Tests/Functions.antt =====
-- Runs of the function records on concrete inputs.
use gsym_rs.Prelude.{ℕ, ◌≡◌, refl, List, [], ◌∷◌, ◌++◌, some, none, true, drop, arith}
use gsym_rs.Error.{ok}
use gsym_rs.Model.Range.{AddressRange}
use gsym_rs.Endian.Order.{little, le_bytes}
use gsym_rs.Prelude.Int.{◌-ℤ◌, ◌+ℤ◌, ◌*ℤ◌}
use gsym_rs.Format.Line.Encode as Line
use gsym_rs.Format.Line.Encode.{encode_special}
use gsym_rs.Format.Line.Range.{choose_delta_range}
use gsym_rs.Format.Leb.{write_uleb, write_sleb}
use gsym_rs.Endian.Encoder.{Encoder, align_to, write_uint, write_u8, patch_u32}
use gsym_rs.Format.Function.{
  check_merged_depth, check_inline_depth, string_offset_width, EncodedInlineNode,
  encoded_inline_node, no_children, with_child, EncodedFunction, encoded_function, no_merged,
  with_merged,
}
use gsym_rs.Format.Function.Decode.{decode}
use gsym_rs.Format.Function.Encode.{encode_into}
use gsym_rs.Format.Function.RoundTrip.Inline.{IsNode}
use gsym_rs.Format.Function.RoundTrip.Whole.{IsFunction}
use gsym_rs.Format.Function.RoundTrip.Tree.{decode-encode_function}

abbrev body : AddressRange
body = record { start = 0x1000; end = 0x1010 }

abbrev inner : AddressRange
inner = record { start = 0x1004; end = 0x1008 }

abbrev tree : EncodedInlineNode
tree =
    encoded_inline_node (body ∷ []) 5 0 0
      (with_child (encoded_inline_node (inner ∷ []) 9 1 3 no_children) no_children)

abbrev alias : EncodedFunction
alias = encoded_function body 7 none none no_merged []

abbrev sample : EncodedFunction
sample =
    encoded_function body 5 (some (record { address = 0x1000; file = 1; line = 2 } ∷ []))
      (some tree) (with_merged alias no_merged)
      (record { return_offset = 8; flags = 1; match_regex = 9 ∷ [] } ∷ [])

abbrev empty : Encoder
empty = record { bytes = 1 ∷ []; endian = little }

abbrev written : List ℕ
written =
    1 ∷ 0 ∷ 0 ∷ 0 ∷ 16 ∷ 0 ∷ 0 ∷ 0 ∷ 5 ∷ 0 ∷ 0 ∷ 0 ∷ 1 ∷ 0 ∷ 0 ∷ 0 ∷ 5 ∷ 0 ∷ 0 ∷ 0 ∷ 0 ∷ 0 ∷ 2 ∷ 4
    ∷ 0 ∷ 2 ∷ 0 ∷ 0 ∷ 0 ∷ 21 ∷ 0 ∷ 0 ∷ 0 ∷ 1 ∷ 0 ∷ 16 ∷ 1 ∷ 5 ∷ 0 ∷ 0 ∷ 0 ∷ 0 ∷ 0 ∷ 1 ∷ 4 ∷ 4 ∷ 0
    ∷ 9 ∷ 0 ∷ 0 ∷ 0 ∷ 1 ∷ 3 ∷ 0 ∷ 3 ∷ 0 ∷ 0 ∷ 0 ∷ 24 ∷ 0 ∷ 0 ∷ 0 ∷ 1 ∷ 0 ∷ 0 ∷ 0 ∷ 16 ∷ 0 ∷ 0 ∷ 0
    ∷ 16 ∷ 0 ∷ 0 ∷ 0 ∷ 7 ∷ 0 ∷ 0 ∷ 0 ∷ 0 ∷ 0 ∷ 0 ∷ 0 ∷ 0 ∷ 0 ∷ 0 ∷ 0 ∷ 4 ∷ 0 ∷ 0 ∷ 0 ∷ 21 ∷ 0 ∷ 0
    ∷ 0 ∷ 1 ∷ 0 ∷ 0 ∷ 0 ∷ 8 ∷ 0 ∷ 0 ∷ 0 ∷ 0 ∷ 0 ∷ 0 ∷ 0 ∷ 1 ∷ 1 ∷ 0 ∷ 0 ∷ 0 ∷ 9 ∷ 0 ∷ 0 ∷ 0 ∷ 0 ∷ 0
    ∷ 0 ∷ 0 ∷ 0 ∷ 0 ∷ 0 ∷ 0 ∷ []

encoded : encode_into sample empty 4 true ≡ ok (record { bytes = written; endian = little }, 4)
unfolding encode_into check_merged_depth string_offset_width align_to write_uint Line.encode_into
    le_bytes write_u8 encode_special ◌-ℤ◌ choose_delta_range ◌+ℤ◌ ◌*ℤ◌ write_uleb write_sleb
    patch_u32 check_inline_depth
encoded = refl

decode-encode_function_example : decode (drop 4 written ++ 7 ∷ []) little 4 0x1000 ≡ ok sample
unfolding IsFunction IsNode
decode-encode_function_example =
    decode-encode_function sample 4 true empty (7 ∷ [])
      {out' = record { bytes = written; endian = little }} {start = 4} fits encoded (omega arith)
  where
    fits : IsFunction 4 sample
    fits = omega arith
