-- ===== src/Reader/Lookup.antt =====
-- src/reader/lookup.rs: `lookup_with_options`, the frames of an address and its call sites, and the
-- types of src/model.rs that it returns. The scratch storage is the list of inline frames.
pub mod CallStack
pub mod Prepared
pub mod Frames
pub mod Yields
pub mod Patterns
use gsym_rs.Prelude.{
  ℕ, zero, suc, ◌-◌, Bool, true, false, not, ◌||◌, List, [], ◌∷◌, ◌++◌, length, max, Option, none,
  some, ◌==◌, if◌then◌else◌,
}
use gsym_rs.Error.{Error, invalid_format, unexpected_eof, Result, ok, err, and_then}
use gsym_rs.Model.{LineEntry}
use gsym_rs.Model.Range.{AddressRange}
use gsym_rs.Endian.Order.{Endian}
use gsym_rs.Endian.Cursor.{
  Read, ◌>>=◌, ◌>>◌, pure, lift, gets, remaining, new, read_u8, read_u32, read_u64, read_uint,
}
use gsym_rs.Format.Function.{
  InfoType, line_table, inline, merged, call_site, unknown, InfoRecord, next_record, to_end, whole,
}
use gsym_rs.Format.Line.Parse as Line
use gsym_rs.Reader.Layout.{ParsedLayout}
use gsym_rs.Reader.Strings.{string_at}
use gsym_rs.Reader.Functions.{RawFunction, file_at, matching_function}
use gsym_rs.Reader.Inline.{RawInlineFrame, inline_frames}

pub record LookupOptions : Type 0 where
  pub line_information : Bool
  pub inline_frames : Bool
  pub call_sites : Bool

abbrev pub default_options : LookupOptions
default_options = record { line_information = true; inline_frames = true; call_sites = true }

pub record LookupFrame : Type 0 where
  pub name : List ℕ
  pub directory : List ℕ
  pub basename : List ℕ
  pub line : ℕ
  pub offset : ℕ
  pub inlined : Bool

pub record Lookup : Type 0 where
  pub address : ℕ
  pub function : AddressRange
  pub frames : List LookupFrame
  pub call_site_patterns : List (List ℕ)

pub record ScannedRecords : Type 0 where
  pub line : Option LineEntry
  pub inline_payload : Option (List ℕ)
  pub call_sites : Option (List ℕ)

abbrev pub nothing_scanned : ScannedRecords
nothing_scanned = record { line = none; inline_payload = none; call_sites = none }

module _ (options : LookupOptions) (endian : Endian) (address : ℕ) (function : RawFunction) where
  -- The match on the kind of a record.
  unfoldable pub scan_record : InfoType → List ℕ → ScannedRecords → Result ScannedRecords
  scan_record line_table payload scanned =
      if options.line_information
      then and_then (Line.lookup payload endian function.range.start address)
          (λ line. ok (record scanned { line = line }))
      else ok scanned
  scan_record inline payload scanned =
      ok (
        if options.inline_frames then record scanned { inline_payload = some payload } else scanned)
  scan_record merged payload scanned = ok scanned
  scan_record call_site payload scanned =
      ok (if options.call_sites then record scanned { call_sites = some payload } else scanned)
  scan_record (unknown _) payload scanned = ok scanned

  unfoldable pub scan_round :
      (again : ScannedRecords → Read ScannedRecords)
      → Option InfoRecord
      → ScannedRecords
      → Read ScannedRecords
  unfolding scan_record
  scan_round again none scanned = pure scanned
  scan_round again (some info) scanned = do
    scanned' ← lift (scan_record info.kind info.payload scanned)
    again scanned'

  -- The `for` loop over `InfoRecords`, with the bytes that are left as its fuel, as in
  -- `records_loop`. It stops at the first error.
  unfoldable pub scan_loop : (fuel : ℕ) → ScannedRecords → Read ScannedRecords
  unfolding scan_round
  scan_loop zero scanned = do
    offset ← gets (λ c. c.position)
    lift (err (unexpected_eof offset 4 0))
  scan_loop (suc fuel) scanned = do info ← next_record; scan_round (scan_loop fuel) info scanned

  unfoldable pub scan_records : Result ScannedRecords
  unfolding scan_loop
  scan_records =
      if not (options.line_information || (options.inline_frames || options.call_sites))
      then ok nothing_scanned
      else whole (gets remaining >>= λ left. scan_loop left nothing_scanned) function.records endian

-- The source position of the innermost frame, and what the frames start from.
pub record PreparedFrames : Type 0 where
  pub function_name : List ℕ
  pub directory : List ℕ
  pub basename : List ℕ
  pub line : ℕ
  pub count : ℕ
  pub call_sites : Option (List ℕ)
  -- `scratch.inline_frames`.
  pub nodes : List RawInlineFrame

module _ (bytes : List ℕ) (l : ParsedLayout) (address : ℕ) where
  abbrev pub string : ℕ → Result (List ℕ)
  string offset = string_at bytes l.string_table offset

  abbrev line_place : Option LineEntry → Result (List ℕ × List ℕ × ℕ)
  line_place none = ok ([], [], 0)
  line_place (some row) = and_then (file_at bytes l row.file) (λ f. ok (f.0, f.1, row.line))

  abbrev inline_nodes : RawFunction → Option (List ℕ) → Result (List RawInlineFrame)
  inline_nodes function none = ok []
  inline_nodes function (some payload) =
      inline_frames l.string_offset_size address function.range.start payload l.endian

  unfoldable pub prepare_frames : LookupOptions → RawFunction → Result PreparedFrames
  unfolding scan_records
  prepare_frames options function =
      and_then (scan_records options l.endian address function) (λ records.
        and_then (string function.name) (λ function_name.
          and_then (line_place records.line) (λ place.
            and_then (inline_nodes function records.inline_payload) (λ nodes. ok (record {
              function_name = function_name;
              directory = place.0;
              basename = place.1;
              line = place.2;
              count = max (length nodes) 1;
              call_sites = records.call_sites;
              nodes = nodes;
            })))))

  module _ (prepared : PreparedFrames) where
    -- The call of a frame's callee, or the line of the innermost one.
    abbrev callee_place : List RawInlineFrame → Result (List ℕ × List ℕ × ℕ)
    callee_place [] = ok (prepared.directory, prepared.basename, prepared.line)
    callee_place (callee ∷ _) =
        and_then (file_at bytes l callee.call_file) (λ f. ok (f.0, f.1, callee.call_line))

    abbrev node_name : RawInlineFrame → Result (List ℕ)
    node_name node = if node.name == 0 then ok prepared.function_name else string node.name

    -- The `for` loop over the nodes, which starts with the last one.
    unfoldable pub emit_nodes : (inlined : Bool) → List RawInlineFrame → Result (List LookupFrame)
    emit_nodes inlined [] = ok []
    emit_nodes inlined (node ∷ callees) = and_then (emit_nodes true callees) (λ frames.
        and_then (callee_place callees) (λ place. and_then (node_name node) (λ name. ok (
          frames
          ++ record {
            name = name;
            directory = place.0;
            basename = place.1;
            line = place.2;
            offset = address - node.start;
            inlined = inlined;
          }
            ∷ []))))

    unfoldable pub emit_from : RawFunction → List RawInlineFrame → Result (List LookupFrame)
    unfolding emit_nodes
    emit_from function [] = ok (
        record {
          name = prepared.function_name;
          directory = prepared.directory;
          basename = prepared.basename;
          line = prepared.line;
          offset = address - function.range.start;
          inlined = false;
        }
        ∷ [])
    emit_from function (node ∷ nodes) = emit_nodes false (node ∷ nodes)

    unfoldable pub emit_frames : RawFunction → Result (List LookupFrame)
    unfolding emit_from
    emit_frames function = emit_from function prepared.nodes

  -- The loops of `read_call_site_patterns`.
  unfoldable pub regex_patterns : ℕ → (matches : Bool) → List (List ℕ) → Read (List (List ℕ))
  regex_patterns zero matches output = pure output
  regex_patterns (suc rounds) matches output = do
    offset ← read_uint l.string_offset_size
    output' ←
        if matches
        then lift (and_then (string offset) (λ s. ok (output ++ s ∷ [])))
        else pure output
    regex_patterns rounds matches output'

  -- The body of the loop over the call sites.
  unfoldable pub one_site : (return_offset : ℕ) → List (List ℕ) → Read (List (List ℕ))
  unfolding regex_patterns
  one_site return_offset output = do
    candidate ← read_u64
    _ ← read_u8
    regex_count ← read_u32
    regex_patterns regex_count (candidate == return_offset) output

  unfoldable pub site_patterns : ℕ → (return_offset : ℕ) → List (List ℕ) → Read (List (List ℕ))
  unfolding one_site
  site_patterns zero return_offset output = pure output
  site_patterns (suc rounds) return_offset output = do
    output' ← one_site return_offset output
    site_patterns rounds return_offset output'

  unfoldable pub read_call_site_patterns : List ℕ → (return_offset : ℕ) → Result (List (List ℕ))
  unfolding site_patterns
  read_call_site_patterns payload return_offset =
      whole
        (to_end (invalid_format "trailing call-site bytes")
          (read_u32 >>= λ count. site_patterns count return_offset []))
        payload l.endian

  abbrev patterns_of : RawFunction → Option (List ℕ) → Result (List (List ℕ))
  patterns_of function none = ok []
  patterns_of function (some payload) =
      read_call_site_patterns payload (address - function.range.start)

  unfoldable pub finish_lookup : RawFunction → Option (List ℕ) → List LookupFrame → Result Lookup
  unfolding read_call_site_patterns
  finish_lookup function call_sites frames = and_then (patterns_of function call_sites) (λ patterns.
      ok (record {
        address = address;
        function = function.range;
        frames = frames;
        call_site_patterns = patterns;
      }))

  unfoldable pub lookup_in : LookupOptions → Option RawFunction → Result (Option Lookup)
  unfolding prepare_frames emit_frames finish_lookup
  lookup_in options none = ok none
  lookup_in options (some function) = and_then (prepare_frames options function) (λ prepared.
      and_then (emit_frames prepared function) (λ frames.
        and_then (finish_lookup function prepared.call_sites frames) (λ found. ok (some found))))

  unfoldable pub lookup_with_options : LookupOptions → Result (Option Lookup)
  unfolding lookup_in
  lookup_with_options options =
      and_then (matching_function bytes l address) (λ function. lookup_in options function)

  unfoldable pub lookup : Result (Option Lookup)
  unfolding lookup_with_options
  lookup = lookup_with_options default_options
