-- ===== src/Reader/Inline.antt =====
-- src/reader/lookup.rs: `scan_inline_node`, which finds the inline frames of an address in the
-- encoded tree without building it.
pub mod Simulates
pub mod Chain
pub mod Ranges
pub mod Node
pub mod Frames
use gsym_rs.Prelude.{
  ℕ, zero, suc, ◌/◌, Bool, true, false, not, ◌&&◌, ◌||◌, List, [], ◌∷◌, ◌++◌, length, take, Option,
  none, some, ltb, leb, ◌==◌, if◌then◌else◌,
}
use gsym_rs.Prelude.Words.{checked_add, try_u32, u32_max, saturating_add}
use gsym_rs.Error.{
  overflow, invalid_format, malformed_uleb, out_of_range, Result, ok, err, ok_or, guard, and_then,
}
use gsym_rs.Endian.Order.{Endian}
use gsym_rs.Endian.Cursor.{Read, ◌>>=◌, ◌>>◌, pure, lift, gets, remaining, read_u8, read_uint}
use gsym_rs.Format.Leb.{read_uleb}
use gsym_rs.Format.Function.{check_inline_depth, to_end, whole}

pub record RawInlineFrame : Type 0 where
  pub name : ℕ
  pub call_file : ℕ
  pub call_line : ℕ
  pub start : ℕ

-- What a scan of a node returns, and the frames collected so far.
pub record Scanned : Type 0 where
  pub present : Bool
  pub matched : Bool
  pub frames : List RawInlineFrame

-- `first_start.get_or_insert(start)`.
abbrev pub first_of : Option ℕ → ℕ → ℕ
first_of none start = start
first_of (some first) start = first

-- The `for` loop over the ranges: whether one of them contains the address, and the first start.
unfoldable pub scan_ranges :
    (base address : ℕ) (collect : Bool) → ℕ → Bool → Option ℕ → Read (Bool × Option ℕ)
scan_ranges base address collect zero contains first = pure (contains, first)
scan_ranges base address collect (suc rounds) contains first = do
  offset ← read_uleb
  start ← lift (ok_or (checked_add base offset) (overflow "inline range start"))
  size ← read_uleb
  end ← lift (ok_or (checked_add start size) (overflow "inline range end"))
  scan_ranges base address collect rounds
      (contains || (collect && (leb start address && ltb address end)))
      (some (first_of first start))

-- The `push` of a matched node that has a name.
unfoldable pub push_frame :
    (name call_file call_line start : ℕ) → Bool → List RawInlineFrame → Result (List RawInlineFrame)
push_frame name call_file call_line start false frames = ok frames
push_frame name call_file call_line start true frames =
    and_then (ok_or (try_u32 call_file) (out_of_range "inline call-file index" call_file u32_max))
      (λ file.
        and_then (ok_or (try_u32 call_line) (out_of_range "inline call-line" call_line u32_max))
          (λ line. ok (
            frames
            ++ record { name = name; call_file = file; call_line = line; start = start } ∷ [])))

-- The loop over the children of a node: from the start of its first range, with `matched`.
abbrev ScanChildren : Type 0
ScanChildren = (base : ℕ) (matched : Bool) → List RawInlineFrame → Read (List RawInlineFrame)

-- What follows the ranges of a node.
unfoldable pub scan_body :
    (children : ScanChildren) (width : ℕ) (collect : Bool) (frames : List RawInlineFrame)
    → Bool × Option ℕ
    → Read Scanned
unfolding push_frame
scan_body children width collect frames (contains, none) =
    lift (err (invalid_format "inline node declares no address range"))
scan_body children width collect frames (contains, some first_start) = do
  has_children ← read_u8
  name ← read_uint width
  call_file ← read_uleb
  call_line ← read_uleb
  let matched = collect && contains
  pushed ←
      lift (push_frame name call_file call_line first_start (matched && not (name == 0)) frames)
  found ← if has_children == 0 then pure pushed else children first_start matched pushed
  pure (record {
    present = true;
    matched = matched;
    frames = if matched then found else take (length frames) found;
  })

-- `scan_inline_node`, with the loop over the children as an argument.
unfoldable pub scan_node :
    (children : ScanChildren) (width address base depth : ℕ) (collect : Bool)
    → List RawInlineFrame
    → Read Scanned
unfolding scan_ranges scan_body
scan_node children width address base depth collect frames = do
  lift (check_inline_depth depth)
  count ← read_uleb
  if count == 0 then pure (record { present = false; matched = false; frames = frames }) else do
    left ← gets remaining
    lift (
        guard (not (ltb (left / 2) count))
          (invalid_format "inline range count exceeds remaining payload"))
    ranges ← scan_ranges base address collect count false none
    scan_body children width collect frames ranges

-- What the loop does with a child: an absent one ends it, and `again` scans the others.
unfoldable pub next_child :
    (again : Bool → List RawInlineFrame → Read (List RawInlineFrame)) (found_child : Bool)
    → Scanned
    → Read (List RawInlineFrame)
next_child again found_child scanned =
    if scanned.present
    then again (found_child || scanned.matched) scanned.frames
    else pure scanned.frames

-- The loop over the children, with the bytes that are left as its fuel, as in `children_loop`.
unfoldable pub scan_children :
    (fuel width address depth base : ℕ) (matched found_child : Bool)
    → List RawInlineFrame
    → Read (List RawInlineFrame)
unfolding scan_node next_child
scan_children zero width address depth base matched found_child frames = do
  lift (check_inline_depth depth)
  offset ← gets (λ c. c.position)
  lift (err (malformed_uleb offset "unterminated sequence"))
scan_children (suc fuel) width address depth base matched found_child frames = do
  scanned ←
      scan_node
        (λ start hit. scan_children fuel width address (saturating_add depth 1) start hit false)
        width address base depth (matched && not found_child) frames
  next_child (scan_children fuel width address depth base matched) found_child scanned

unfoldable pub scan_inline_node :
    (width address base depth : ℕ) (collect : Bool) → List RawInlineFrame → Read Scanned
unfolding scan_children
scan_inline_node width address base depth collect frames = do
  left ← gets remaining
  scan_node (λ start hit. scan_children left width address (saturating_add depth 1) start hit false)
      width address base depth collect frames

-- The scan of an inline payload in `prepare_frames`.
unfoldable pub inline_frames :
    (width address start : ℕ) → List ℕ → Endian → Result (List RawInlineFrame)
unfolding scan_inline_node
inline_frames width address start payload endian =
    whole
      (to_end (invalid_format "malformed inline-info payload") (do
        scanned ← scan_inline_node width address start 0 true []
        lift (guard scanned.present (invalid_format "malformed inline-info payload"))
        pure scanned.frames))
      payload endian
