-- ===== src/Reader/Lookup/Prepared.antt =====
-- What `prepare_frames` passes on.
use mathlib.Core.Path.{subst}
use gsym_rs.Prelude.{ℕ, ◌≡◌, refl, sym, List, length, Option, none, some, max}
use gsym_rs.Error.{ok, and_then-ok, ok_injective}
use gsym_rs.Reader.Layout.{ParsedLayout}
use gsym_rs.Reader.Inline.{RawInlineFrame}
use gsym_rs.Reader.Functions.{RawFunction}
use gsym_rs.Reader.Lookup.{
  LookupOptions, ScannedRecords, PreparedFrames, prepare_frames, scan_records, string, line_place,
  inline_nodes,
}
use gsym_rs.Reader.Lookup.CallStack.{AreNodes}

module _ (bytes : List ℕ) (l : ParsedLayout) (address : ℕ) (options : LookupOptions)
    (function : RawFunction) where
  pub record IsPrepared (prepared : PreparedFrames) : Type 0 where
    pub records : ScannedRecords
    pub scanned : scan_records options l.endian address function ≡ ok records
    pub named : string bytes l address function.name ≡ ok prepared.function_name
    pub placed :
        line_place bytes l address records.line
        ≡ ok (prepared.directory, prepared.basename, prepared.line)
    pub collected : AreNodes bytes l address function records.inline_payload prepared.nodes
    pub counted : prepared.count ≡ max (length prepared.nodes) 1

  inline_nodes-AreNodes :
      (payload : Option (List ℕ)) {nodes : List RawInlineFrame}
      → inline_nodes bytes l address function payload ≡ ok nodes
      → AreNodes bytes l address function payload nodes
  inline_nodes-AreNodes none h = sym (ok_injective h)
  inline_nodes-AreNodes (some payload) h = h

  pub prepare_frames-IsPrepared :
      {prepared : PreparedFrames}
      → prepare_frames bytes l address options function ≡ ok prepared
      → IsPrepared prepared
  unfolding prepare_frames
  prepare_frames-IsPrepared h =
      let (records, p, h1) = and_then-ok (scan_records options l.endian address function) _ h in
      let (name, q, h2) = and_then-ok (string bytes l address function.name) _ h1 in
      let (place, r, h3) = and_then-ok (line_place bytes l address records.line) _ h2 in
      let (nodes, s, h4) =
        and_then-ok (inline_nodes bytes l address function records.inline_payload) _ h3 in
      subst IsPrepared (ok_injective h4) (record {
        records = records;
        scanned = p;
        named = q;
        placed = r;
        collected = inline_nodes-AreNodes records.inline_payload s;
        counted = refl;
      })
