-- ===== src/Reader/Lookup/CallStack.antt =====
-- What the frames of a lookup are: the call stack at the address.
use gsym_rs.Prelude.{
  ℕ, ◌-◌, ◌≡◌, Bool, true, false, List, [], ◌∷◌, reverse, Option, none, some, ◌==◌, if◌then◌else◌,
}
use gsym_rs.Error.{ok}
use gsym_rs.Model.{LineEntry}
use gsym_rs.Reader.Layout.{ParsedLayout}
use gsym_rs.Reader.Strings.{string_at}
use gsym_rs.Reader.Inline.{RawInlineFrame, inline_frames}
use gsym_rs.Reader.Functions.{RawFunction, file_at, matching_function}
use gsym_rs.Reader.Lookup.{LookupFrame, Lookup, LookupOptions, ScannedRecords, scan_records}

-- What a frame is, where `function_name` is the offset of the function's name and `row` its row of the
-- line table.
module _ (bytes : List ℕ) (l : ParsedLayout) (address function_name : ℕ)
    (row : Option LineEntry) where
  -- The innermost frame stands at the row, without a row at no place.
  abbrev pub IsRow : Option LineEntry → LookupFrame → Type 0
  IsRow none frame = (frame.directory ≡ []) × (frame.basename ≡ []) × (frame.line ≡ 0)
  IsRow (some r) frame =
      (file_at bytes l r.file ≡ ok (frame.directory, frame.basename)) × (frame.line ≡ r.line)

  -- Any other stands at the call of the next inner one.
  abbrev pub IsPlace : List RawInlineFrame → LookupFrame → Type 0
  IsPlace [] frame = IsRow row frame
  IsPlace (callee ∷ callees) frame =
      (file_at bytes l callee.call_file ≡ ok (frame.directory, frame.basename))
      × (frame.line ≡ callee.call_line)

  -- The frame of a node, with the function's name if the node has none.
  pub record IsFrame (inlined : Bool) (node : RawInlineFrame) (callees : List RawInlineFrame)
      (frame : LookupFrame) : Type 0 where
    pub named :
        string_at bytes l.string_table (if node.name == 0 then function_name else node.name)
        ≡ ok frame.name
    pub offset : frame.offset ≡ address - node.start
    pub place : IsPlace callees frame
    pub flag : frame.inlined ≡ inlined

  -- One frame for each node, the outermost first; those below it are inlined.
  abbrev pub AreFrames : (inlined : Bool) → List RawInlineFrame → List LookupFrame → Type 0
  AreFrames inlined [] [] = Unit
  AreFrames inlined [] (frame ∷ frames) = ⊥
  AreFrames inlined (node ∷ nodes) [] = ⊥
  AreFrames inlined (node ∷ nodes) (frame ∷ frames) =
      IsFrame inlined node nodes frame × AreFrames true nodes frames

-- Where no node was collected, the function itself is the only one.
abbrev pub or_function : RawFunction → List RawInlineFrame → List RawInlineFrame
or_function function [] =
    record { name = 0; call_file = 0; call_line = 0; start = function.range.start } ∷ []
or_function function (node ∷ nodes) = node ∷ nodes

-- The nodes that the scan of an inline record collects; there are none without one.
abbrev pub AreNodes :
    List ℕ → ParsedLayout → ℕ → RawFunction → Option (List ℕ) → List RawInlineFrame → Type 0
AreNodes bytes l address function none nodes = nodes ≡ []
AreNodes bytes l address function (some payload) nodes =
    inline_frames l.string_offset_size address function.range.start payload l.endian ≡ ok nodes

-- What a lookup that finds a function says of it.
pub record IsCallStack (bytes : List ℕ) (l : ParsedLayout) (address : ℕ) (options : LookupOptions)
    (found : Lookup) : Type 0 where
  pub function : RawFunction
  pub picked : matching_function bytes l address ≡ ok (some function)
  pub at_address : found.address ≡ address
  pub range : found.function ≡ function.range
  pub records : ScannedRecords
  pub scanned : scan_records options l.endian address function ≡ ok records
  pub nodes : List RawInlineFrame
  pub collected : AreNodes bytes l address function records.inline_payload nodes
  pub frames :
      AreFrames bytes l address function.name records.line false
        (or_function function nodes)
        (reverse found.frames)
