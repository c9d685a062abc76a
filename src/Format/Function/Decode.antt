-- ===== src/Format/Function/Decode.antt =====
-- src/format/function.rs: `decode_from`, `decode_merged` and `decode`.
use gsym_rs.Prelude.{ℕ, zero, suc, ◌-◌, ◌/◌, not, List, [], Option, none, some, ltb, ◌==◌, is_nil}
use gsym_rs.Prelude.Words.{checked_add, saturating_add}
use gsym_rs.Error.{
  overflow, invalid_format, limit, zero_name_offset, unsupported_info_type, unexpected_eof, Result,
  ok, err, ok_or, guard, and_then,
}
use gsym_rs.Model.{LineEntry}
use gsym_rs.Endian.Order.{Endian}
use gsym_rs.Endian.Cursor.{
  Read, ◌>>=◌, ◌>>◌, pure, lift, gets, remaining, take, read_u32, read_uint,
}
use gsym_rs.Format.Line.Parse as Line
use gsym_rs.Format.Function.{
  InfoType, line_table, inline, merged, call_site, unknown, InfoRecord, observe, next_record,
  string_offset_width, check_merged_depth, max_merged_depth, EncodedInlineNode, EncodedCallSite,
  EncodedFunction, encoded_function, EncodedFunctions, no_merged, with_merged, node_ranges, to_end,
  whole,
}
use gsym_rs.Format.Function.Inline.{decode_inline}
use gsym_rs.Format.Function.CallSites.{decode_call_sites}

unfoldable pub inline_root : (width base : ℕ) → Read EncodedInlineNode
inline_root width base = do
  node ← decode_inline width base 0
  lift (
      guard (not (is_nil (node_ranges node)))
        (invalid_format "top-level inline info has no address ranges"))
  pure node

-- The optional records of the function that `decode_from` builds.
pub record Records : Type 0 where
  pub lines : Option (List LineEntry)
  pub inline_tree : Option EncodedInlineNode
  pub merged_functions : EncodedFunctions
  pub call_sites : List EncodedCallSite

abbrev pub no_records : Records
no_records = record {
  lines = none;
  inline_tree = none;
  merged_functions = no_merged;
  call_sites = [];
}

module _ (function : Read EncodedFunction) where
  -- `decode_exact_at`, with the decoder of the function as an argument.
  unfoldable pub decode_exact_at : List ℕ → Endian → Result EncodedFunction
  decode_exact_at bytes endian =
      whole (to_end (invalid_format "bytes remain after the FunctionInfo end marker") function)
        bytes endian

  -- The `for` loop of `decode_merged`.
  unfoldable pub merged_loop : ℕ → Read EncodedFunctions
  unfolding decode_exact_at
  merged_loop zero = pure no_merged
  merged_loop (suc rounds) = do
    length ← read_u32
    bytes ← take length
    endian ← gets (λ c. c.endian)
    decoded ← lift (decode_exact_at bytes endian)
    functions ← merged_loop rounds
    pure (with_merged decoded functions)

  unfoldable pub merged_at : Read EncodedFunctions
  unfolding merged_loop
  merged_at = do
    count ← read_u32
    left ← gets remaining
    lift (
        guard (not (ltb (left / 4) count))
          (invalid_format "merged-function count exceeds remaining input"))
    merged_loop count

  unfoldable pub decode_merged : List ℕ → Endian → Result EncodedFunctions
  unfolding merged_at
  decode_merged bytes endian =
      whole (to_end (invalid_format "trailing merged-function bytes") merged_at) bytes endian

-- The match on the kind of a record. `function` decodes a merged function.
unfoldable pub store_record :
    (function : Read EncodedFunction) (width base : ℕ) (endian : Endian) (kind : InfoType)
    (payload : List ℕ)
    → Records
    → Result Records
unfolding inline_root decode_merged
store_record function width base endian line_table payload records =
    and_then (Line.decode payload endian base) (λ lines. ok (record records { lines = some lines }))
store_record function width base endian inline payload records =
    and_then
      (whole (to_end (invalid_format "trailing inline-info bytes") (inline_root width base)) payload
        endian)
      (λ node. ok (record records { inline_tree = some node }))
store_record function width base endian merged payload records =
    and_then (decode_merged function payload endian)
      (λ functions. ok (record records { merged_functions = functions }))
store_record function width base endian call_site payload records =
    and_then (decode_call_sites payload endian width)
      (λ call_sites. ok (record records { call_sites = call_sites }))
store_record function width base endian (unknown other) payload records =
    err (unsupported_info_type other)

-- The body of the `while` loop. `again` goes on with the changed set and records.
unfoldable pub records_round :
    (again : ℕ → Records → Read Records) (function : Read EncodedFunction) (width base : ℕ)
    → Option InfoRecord
    → ℕ
    → Records
    → Read Records
unfolding store_record
records_round again function width base none seen records = pure records
records_round again function width base (some info) seen records = do
  seen' ← lift (observe info.kind seen)
  endian ← gets (λ c. c.endian)
  records' ← lift (store_record function width base endian info.kind info.payload records)
  again seen' records'

-- The `while` loop, with the bytes that are left as its fuel: a record takes eight at least, and
-- where no byte is left there is no record to read.
unfoldable pub records_loop :
    ℕ → (function : Read EncodedFunction) (width base : ℕ) → ℕ → Records → Read Records
unfolding records_round
records_loop zero function width base seen records = do
  offset ← gets (λ c. c.position)
  lift (err (unexpected_eof offset 4 0))
records_loop (suc fuel) function width base seen records = do
  info ← next_record
  records_round (records_loop fuel function width base) function width base info seen records

-- `decode_from`, with the decoder of merged functions as an argument.
unfoldable pub function_at :
    (function : Read EncodedFunction) (width base depth : ℕ) → Read EncodedFunction
unfolding records_loop
function_at function width base depth = do
  lift (check_merged_depth depth)
  _ ← lift (string_offset_width width)
  size ← read_u32
  name ← read_uint width
  lift (guard (not (name == 0)) zero_name_offset)
  end ← lift (ok_or (checked_add base size) (overflow "FunctionInfo range end"))
  left ← gets remaining
  records ← records_loop left function width base 0 no_records
  pure (
      encoded_function (record { start = base; end = end }) name records.lines records.inline_tree
        records.merged_functions records.call_sites)

-- Below the deepest level, `check_merged_depth` fails.
abbrev pub too_deep : ℕ → Read EncodedFunction
too_deep depth = lift (err (limit "merged-function tree depth" depth max_merged_depth))

-- `decode_from`, on the levels that are left: at most 16 - depth are reached.
unfoldable pub function_levels : (levels width base depth : ℕ) → Read EncodedFunction
unfolding function_at
function_levels zero width base depth =
    function_at (too_deep (saturating_add depth 1)) width base depth
function_levels (suc levels) width base depth =
    function_at (function_levels levels width base (saturating_add depth 1)) width base depth

unfoldable pub decode_from : (width base depth : ℕ) → Read EncodedFunction
decode_from width base depth = function_levels (max_merged_depth - depth) width base depth

unfoldable pub decode : List ℕ → Endian → (width base : ℕ) → Result EncodedFunction
decode bytes endian width base =
    and_then (string_offset_width width) (λ _. whole (decode_from width base 0) bytes endian)
