-- ===== src/Reader/Lookup/Frames.antt =====
-- The frames that `emit_frames` lists are the call stack.
use mathlib.Core.Path.{subst}
use mathlib.Core.List.{reverse-append}
use gsym_rs.Prelude.{
  ℕ, ◌-◌, ◌≡◌, refl, sym, ap, ◌∙◌, Bool, true, false, Bool-cases, inl, inr, List, [], ◌∷◌, reverse,
  length, Option, none, some, length-append, max, arith, ◌==◌, if◌then◌else◌,
}
use gsym_rs.Error.{Result, ok, and_then, and_then-ok, ok_injective}
use gsym_rs.Model.{LineEntry}
use gsym_rs.Reader.Layout.{ParsedLayout}
use gsym_rs.Reader.Strings.{string_at}
use gsym_rs.Reader.Inline.{RawInlineFrame}
use gsym_rs.Reader.Functions.{RawFunction, file_at, matching_function}
use gsym_rs.Reader.Lookup.{
  LookupFrame, Lookup, LookupOptions, ScannedRecords, PreparedFrames, emit_nodes, emit_from,
  emit_frames, lookup_in, lookup_with_options, finish_lookup, node_name, callee_place,
  prepare_frames, patterns_of, string, line_place,
}
use gsym_rs.Reader.Lookup.CallStack.{IsRow, IsPlace, AreFrames, or_function, IsCallStack}
use gsym_rs.Reader.Lookup.Prepared.{IsPrepared, prepare_frames-IsPrepared}

place-ok :
    (r : Result (List ℕ × List ℕ)) (n : ℕ) {directory basename : List ℕ} {line : ℕ}
    → and_then {B = List ℕ × List ℕ × ℕ} r (λ f. ok (f.0, f.1, n)) ≡ ok (directory, basename, line)
    → (r ≡ ok (directory, basename)) × (line ≡ n)
place-ok r n {directory = directory} {basename = basename} {line = line} h =
    let (f, p, q) = and_then-ok r _ h in
    let same : (f.0, f.1, n) ≡ (directory, basename, line) = ok_injective q in
    (
      p ∙ ap (λ (t : List ℕ × List ℕ × ℕ). ok (t.0, t.1)) same,
      sym (ap (λ (t : List ℕ × List ℕ × ℕ). t.2) same),
    )

module _ (bytes : List ℕ) (l : ParsedLayout) (address : ℕ) (function : RawFunction)
    (records : ScannedRecords) (prepared : PreparedFrames)
    (named : string bytes l address function.name ≡ ok prepared.function_name)
    (placed : line_place bytes l address records.line
      ≡ ok (prepared.directory, prepared.basename, prepared.line)) where
  abbrev FramesOf : Bool → List RawInlineFrame → List LookupFrame → Type 0
  FramesOf = AreFrames bytes l address function.name records.line

  line_place-IsRow :
      (row : Option LineEntry) (frame : LookupFrame)
      → line_place bytes l address row ≡ ok (frame.directory, frame.basename, frame.line)
      → IsRow bytes l address function.name records.line row frame
  line_place-IsRow none frame h =
      let same : ([], [], 0) ≡ (frame.directory, frame.basename, frame.line) = ok_injective h in
      (
        sym (ap (λ (t : List ℕ × List ℕ × ℕ). t.0) same),
        sym (ap (λ (t : List ℕ × List ℕ × ℕ). t.1) same),
        sym (ap (λ (t : List ℕ × List ℕ × ℕ). t.2) same),
      )
  line_place-IsRow (some r) frame h = place-ok (file_at bytes l r.file) r.line h

  callee_place-IsPlace :
      (callees : List RawInlineFrame) (frame : LookupFrame)
      → callee_place bytes l address prepared callees
        ≡ ok (frame.directory, frame.basename, frame.line)
      → IsPlace bytes l address function.name records.line callees frame
  callee_place-IsPlace [] frame h = line_place-IsRow records.line frame (placed ∙ h)
  callee_place-IsPlace (callee ∷ callees) frame h =
      place-ok (file_at bytes l callee.call_file) callee.call_line h

  node_name-named :
      (node : RawInlineFrame) {name : List ℕ}
      → node_name bytes l address prepared node ≡ ok name
      → string_at bytes l.string_table (if node.name == 0 then function.name else node.name)
        ≡ ok name
  node_name-named node h = elim (Bool-cases (node.name == 0)) [
    | inl e ↦ rw e (named ∙ (rw e at h))
    | inr e ↦ rw e (rw e at h)
  ]

  emit_nodes-AreFrames :
      (inlined : Bool) (nodes : List RawInlineFrame) {frames : List LookupFrame}
      → emit_nodes bytes l address prepared inlined nodes ≡ ok frames
      → FramesOf inlined nodes (reverse frames)
  unfolding emit_nodes
  emit_nodes-AreFrames inlined [] h =
      subst (λ t. FramesOf inlined [] (reverse t)) (ok_injective h) tt
  emit_nodes-AreFrames inlined (node ∷ callees) h =
      let (inner, p, q) = and_then-ok (emit_nodes bytes l address prepared true callees) _ h in
      let (place, p', q') = and_then-ok (callee_place bytes l address prepared callees) _ q in
      let (name, p'', q'') = and_then-ok (node_name bytes l address prepared node) _ q' in
      let last : LookupFrame = record {
        name = name;
        directory = place.0;
        basename = place.1;
        line = place.2;
        offset = address - node.start;
        inlined = inlined;
      } in
      subst (λ t. FramesOf inlined (node ∷ callees) (reverse t)) (ok_injective q'')
        (subst (λ t. FramesOf inlined (node ∷ callees) t) (sym (reverse-append inner (last ∷ [])))
          (
            record {
              named = node_name-named node p'';
              offset = refl;
              place = callee_place-IsPlace callees last p';
              flag = refl;
            },
            emit_nodes-AreFrames true callees p,
          ))

  emit_from-AreFrames :
      (nodes : List RawInlineFrame) {frames : List LookupFrame}
      → emit_from bytes l address prepared function nodes ≡ ok frames
      → FramesOf false (or_function function nodes) (reverse frames)
  unfolding emit_from
  emit_from-AreFrames [] h =
      subst (λ t. FramesOf false (or_function function []) (reverse t)) (ok_injective h)
        (
          record {
            named = named;
            offset = refl;
            place = line_place-IsRow records.line _ placed;
            flag = refl;
          },
          tt,
        )
  emit_from-AreFrames (node ∷ nodes) h = emit_nodes-AreFrames false (node ∷ nodes) h

module _ (bytes : List ℕ) (l : ParsedLayout) (address : ℕ) (prepared : PreparedFrames) where
  emit_nodes-length :
      (inlined : Bool) (nodes : List RawInlineFrame) {frames : List LookupFrame}
      → emit_nodes bytes l address prepared inlined nodes ≡ ok frames
      → length frames ≡ length nodes
  unfolding emit_nodes
  emit_nodes-length inlined [] h = sym (ap (λ (t : List LookupFrame). length t) (ok_injective h))
  emit_nodes-length inlined (node ∷ callees) h =
      let (inner, p, q) = and_then-ok (emit_nodes bytes l address prepared true callees) _ h in
      let (place, p', q') = and_then-ok (callee_place bytes l address prepared callees) _ q in
      let (name, p'', q'') = and_then-ok (node_name bytes l address prepared node) _ q' in
      omega (
        arith,
        ap (λ (t : List LookupFrame). length t) (ok_injective q''),
        length-append inner (_ ∷ []),
        emit_nodes-length true callees p,
      )

  emit_from-length :
      (function : RawFunction) (nodes : List RawInlineFrame) {frames : List LookupFrame}
      → emit_from bytes l address prepared function nodes ≡ ok frames
      → length frames ≡ max (length nodes) 1
  unfolding emit_from
  emit_from-length function [] h = sym (ap (λ (t : List LookupFrame). length t) (ok_injective h))
  emit_from-length function (node ∷ nodes) h =
      omega (arith, emit_nodes-length false (node ∷ nodes) h)

module _ (bytes : List ℕ) (l : ParsedLayout) (address : ℕ) (options : LookupOptions) where
  finish_lookup-fields :
      (function : RawFunction) (call_sites : Option (List ℕ)) (frames : List LookupFrame)
      {found : Lookup}
      → finish_lookup bytes l address function call_sites frames ≡ ok found
      → (found.frames ≡ frames) × (found.address ≡ address) × (found.function ≡ function.range)
  unfolding finish_lookup
  finish_lookup-fields function call_sites frames h =
      let (patterns, p, q) = and_then-ok (patterns_of bytes l address function call_sites) _ h in
      let same = sym (ok_injective q) in
      (
        ap (λ (t : Lookup). t.frames) same,
        ap (λ (t : Lookup). t.address) same,
        ap (λ (t : Lookup). t.function) same,
      )

  emitted-IsCallStack :
      (function : RawFunction) (prepared : PreparedFrames) (frames : List LookupFrame)
      {found : Lookup}
      → matching_function bytes l address ≡ ok (some function)
      → IsPrepared bytes l address options function prepared
      → emit_from bytes l address prepared function prepared.nodes ≡ ok frames
      → finish_lookup bytes l address function prepared.call_sites frames ≡ ok found
      → IsCallStack bytes l address options found
  emitted-IsCallStack function prepared frames e prep h k =
      let (f1, f2, f3) = finish_lookup-fields function prepared.call_sites frames k in
      record {
        function = function;
        picked = e;
        at_address = f2;
        range = f3;
        records = prep.records;
        scanned = prep.scanned;
        nodes = prepared.nodes;
        collected = prep.collected;
        frames =
            subst
              (λ t.
                AreFrames bytes l address function.name prep.records.line false
                  (or_function function prepared.nodes) (reverse t))
              (sym f1)
              (emit_from-AreFrames bytes l address function prep.records prepared prep.named
                prep.placed prepared.nodes h);
      }

  lookup_in-IsCallStack :
      (function : Option RawFunction) {found : Lookup}
      → matching_function bytes l address ≡ ok function
      → lookup_in bytes l address options function ≡ ok (some found)
      → IsCallStack bytes l address options found
  unfolding lookup_in emit_frames
  lookup_in-IsCallStack none e h = cc
  lookup_in-IsCallStack (some function) {found = found} e h =
      let (prepared, p, q) = and_then-ok (prepare_frames bytes l address options function) _ h in
      let (frames, p', q') = and_then-ok (emit_frames bytes l address prepared function) _ q in
      let (result, p'', q'') =
        and_then-ok (finish_lookup bytes l address function prepared.call_sites frames) _ q' in
      let same : result ≡ found = cc in
      subst (IsCallStack bytes l address options) same (
        emitted-IsCallStack function prepared frames e
          (prepare_frames-IsPrepared bytes l address options function p) p' p'')

-- `prepare_frames` announces how many frames `emit_frames` yields.
pub emit_frames-prepare_frames :
    (bytes : List ℕ) (l : ParsedLayout) (address : ℕ) (options : LookupOptions)
    (function : RawFunction) {prepared : PreparedFrames} {frames : List LookupFrame}
    → prepare_frames bytes l address options function ≡ ok prepared
    → emit_frames bytes l address prepared function ≡ ok frames
    → length frames ≡ prepared.count
unfolding emit_frames
emit_frames-prepare_frames bytes l address options function {prepared = prepared} h k =
    emit_from-length bytes l address prepared function prepared.nodes k
    ∙ sym (prepare_frames-IsPrepared bytes l address options function h).counted

-- A lookup that finds a function is about the address and the range of the function that
-- `matching_function` picks. Its frames, from the last to the first, are those of the nodes that the
-- scan of the inline record collects, from the outermost in, or of the function alone if it collects
-- none: each frame has the name of its node, or the function's if the node has none, the offset from
-- the node's start, and the place of the call in the next frame further in, the first frame the place
-- of the line row. All but the last are marked as inlined.
pub lookup_with_options-IsCallStack :
    (bytes : List ℕ) (l : ParsedLayout) (address : ℕ) (options : LookupOptions) {found : Lookup}
    → lookup_with_options bytes l address options ≡ ok (some found)
    → IsCallStack bytes l address options found
unfolding lookup_with_options
lookup_with_options-IsCallStack bytes l address options h =
    let (function, p, q) = and_then-ok (matching_function bytes l address) _ h in
    lookup_in-IsCallStack bytes l address options function p q
