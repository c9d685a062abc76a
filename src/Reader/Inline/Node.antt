-- ===== src/Reader/Inline/Node.antt =====
-- The scan of a node, where that of its children is known.
use gsym_rs.Prelude.{
  ℕ, zero, suc, ◌/◌, ◌≡◌, refl, sym, ap, ◌∙◌, Bool, true, false, not, ◌&&◌, Bool-cases, inl, inr,
  List, [], ◌∷◌, ◌++◌, append-nil, append_assoc, length, take, take-length, is_nil, none, some, ltb,
  ◌==◌, if◌then◌else◌, arith,
}
use gsym_rs.Prelude.Words.{try_u32, u32_max}
use gsym_rs.Error.{Error, invalid_format, out_of_range, ok, ok_or, guard, and_then-eq}
use gsym_rs.Model.Range.{AddressRange}
use gsym_rs.Endian.Cursor.{Read, ◌>>=◌, ◌>>◌, pure, lift, gets, remaining, read_u8, read_uint}
use gsym_rs.Format.Leb.{read_uleb}
use gsym_rs.Format.Function.{EncodedInlineNodes, no_children, default_node, check_inline_depth}
use gsym_rs.Format.Function.Ranges.{ranges_loop, decode_ranges}
use gsym_rs.Format.Function.Inline.{inline_body, inline_node}
use gsym_rs.Reader.Inline.{
  RawInlineFrame, Scanned, scan_ranges, push_frame, ScanChildren, scan_body, scan_node,
}
use gsym_rs.Reader.Inline.Chain.{covers, own_frame, node_frames, child_frames, only, scanned}
use gsym_rs.Reader.Inline.Ranges.{first_after, Simulates-ranges, Always-ranges}
use gsym_rs.Reader.Inline.Simulates.{
  Simulates, Simulates-pure, Simulates-bind, Simulates-both, Simulates-left, Simulates-right,
  Simulates-guard, Simulates-after, Simulates-assoc, Simulates-gets,
}

abbrev too_many : Error
too_many = invalid_format "address-range count exceeds remaining input"

module _ (address : ℕ) where
  untouched :
      (frames : List RawInlineFrame) → take (length frames) ((frames ++ []) ++ []) ≡ frames ++ []
  untouched frames =
      ap (λ t. take (length frames) t) (append-nil (frames ++ []) ∙ append-nil frames)
      ∙ take-length frames
      ∙ sym (append-nil frames)

  push_frame-own :
      (name call_file call_line start : ℕ) (test : Bool) (frames : List RawInlineFrame)
      {file line : ℕ}
      → ok_or (try_u32 call_file) (out_of_range "inline call-file index" call_file u32_max)
        ≡ ok file
      → ok_or (try_u32 call_line) (out_of_range "inline call-line" call_line u32_max) ≡ ok line
      → push_frame name call_file call_line start (test && not (name == 0)) frames
        ≡ ok (frames ++ only test (own_frame name file line start))
  unfolding push_frame
  push_frame-own name call_file call_line start false frames p q = ap ok (sym (append-nil frames))
  push_frame-own name call_file call_line start true frames p q = elim (Bool-cases (name == 0)) [
    | inl e ↦ rw e (ap ok (sym (append-nil frames)))
    | inr e ↦ rw e (and_then-eq _ _ p (and_then-eq _ _ q refl))
  ]

  -- The frames that a node keeps are its own, if it matches, and those of its children.
  kept :
      (collect hit : Bool) (frames own below : List RawInlineFrame)
      → ◌≡◌ {A = Scanned}
          (record {
            present = true;
            matched = collect && (collect && hit);
            frames =
                if collect && (collect && hit)
                then (frames ++ only (collect && (collect && hit)) own)
                  ++ only (collect && (collect && hit)) below
                else take (length frames) (
                    (frames ++ only (collect && (collect && hit)) own)
                    ++ only (collect && (collect && hit)) below);
          })
          (record {
            present = true;
            matched = collect && hit;
            frames = frames ++ only collect (if hit then own ++ below else []);
          })
  kept true true frames own below =
      ap (λ (t : List RawInlineFrame). record { present = true; matched = true; frames = t })
        (append_assoc frames own below)
  kept true false frames own below =
      ap (λ (t : List RawInlineFrame). record { present = true; matched = false; frames = t })
        (untouched frames)
  kept false hit frames own below =
      ap (λ (t : List RawInlineFrame). record { present = true; matched = false; frames = t })
        (untouched frames)

  nothing :
      (collect : Bool) (frames : List RawInlineFrame)
      → record { present = false; matched = false; frames = frames }
        ≡ scanned address collect frames default_node
  unfolding node_frames
  nothing true frames =
      ap (λ (t : List RawInlineFrame). record { present = false; matched = false; frames = t })
        (sym (append-nil frames))
  nothing false frames =
      ap (λ (t : List RawInlineFrame). record { present = false; matched = false; frames = t })
        (sym (append-nil frames))

  nonzero : (n : ℕ) → (suc n == 0) ≡ false
  nonzero n = ground arith

  module _ (width : ℕ) where
    abbrev pub ChildrenFollow :
        (List AddressRange → ℕ → Read EncodedInlineNodes) → ScanChildren → Type 0
    ChildrenFollow children scan =
        (parent : List AddressRange) (base : ℕ) (matched : Bool) (frames : List RawInlineFrame)
        → Simulates (children parent base) (scan base matched frames)
            (λ nodes. frames ++ only matched (child_frames address nodes))

    Simulates-children :
        (childless : Bool) {children : Read EncodedInlineNodes} {scan : Read (List RawInlineFrame)}
        (matched : Bool) (frames : List RawInlineFrame)
        → Simulates children scan (λ nodes. frames ++ only matched (child_frames address nodes))
        → Simulates
            (if childless then pure no_children else children)
            (if childless then pure frames else scan)
            (λ nodes. frames ++ only matched (child_frames address nodes))
    unfolding child_frames
    Simulates-children false matched frames h = h
    Simulates-children true false frames h = Simulates-pure no_children (sym (append-nil frames))
    Simulates-children true true frames h = Simulates-pure no_children (sym (append-nil frames))

    Simulates-body :
        {children : List AddressRange → ℕ → Read EncodedInlineNodes} {scan : ScanChildren}
        → ChildrenFollow children scan
        → (collect : Bool) (frames : List RawInlineFrame) (first : AddressRange)
          (others : List AddressRange)
        → Simulates
            (inline_body children width (first ∷ others))
            (scan_body scan width collect frames
              (collect && covers address (first ∷ others), some (first.start)))
            (scanned address collect frames)
    unfolding inline_body scan_body node_frames
    Simulates-body h collect frames first others =
        let hit : Bool = covers address (first ∷ others) in
        let matched : Bool = collect && (collect && hit) in
        Simulates-both read_u8 (λ has_children. Simulates-both (read_uint width) (λ name.
          Simulates-both read_uleb (λ call_file. Simulates-both read_uleb (λ call_line.
            Simulates-left (ok_or (try_u32 call_file) _) (λ file p.
              Simulates-left (ok_or (try_u32 call_line) _) (λ line q.
                Simulates-right _ _ _
                  (push_frame-own name call_file call_line (first.start) matched frames p q)
                  (Simulates-bind _
                    (Simulates-children (has_children == 0) matched _
                      (h (first ∷ others) (first.start) matched _))
                    (λ nodes. Simulates-pure _ (
                      kept collect hit frames (own_frame name file line (first.start))
                        (child_frames address nodes))))))))))

    module _ {children : List AddressRange → ℕ → Read EncodedInlineNodes} {scan : ScanChildren}
        (h : ChildrenFollow children scan) (base : ℕ) (collect : Bool)
        (frames : List RawInlineFrame) where
      Simulates-some :
          (ranges : List AddressRange)
          → is_nil ranges ≡ false
          → Simulates
              (inline_body children width ranges)
              (scan_body scan width collect frames
                (collect && covers address ranges, first_after none ranges))
              (scanned address collect frames)
      Simulates-some [] e = cc
      Simulates-some (first ∷ others) e = Simulates-body h collect frames first others

      -- Past the count of the ranges.
      Simulates-counted :
          (count : ℕ)
          → Simulates
              ((gets remaining >>= λ left.
                  lift (guard (not (ltb (left / 2) count)) too_many) >> ranges_loop count none base)
                >>= inline_body children width)
              (if count == 0
                then pure (record { present = false; matched = false; frames = frames })
                else (do
                  left ← gets remaining
                  lift (
                      guard
                        (not (ltb (left / 2) count))
                        (invalid_format "inline range count exceeds remaining payload"))
                  ranges ← scan_ranges base address collect count false none
                  scan_body scan width collect frames ranges))
              (scanned address collect frames)
      unfolding ranges_loop inline_body
      Simulates-counted zero = Simulates-gets remaining (λ left.
          Simulates-assoc (lift (guard (not (ltb (left / 2) 0)) too_many))
            (λ _. ranges_loop 0 none base) (inline_body children width)
            (Simulates-left (guard (not (ltb (left / 2) 0)) too_many)
              (λ _ _. Simulates-pure default_node (nothing collect frames))))
      Simulates-counted (suc count) = rw (nonzero count) (
          Simulates-both (gets remaining) (λ left.
            Simulates-assoc (lift (guard (not (ltb (left / 2) (suc count))) too_many))
              (λ _. ranges_loop (suc count) none base) (inline_body children width)
              (Simulates-guard (not (ltb (left / 2) (suc count))) too_many
                (invalid_format "inline range count exceeds remaining payload")
                (Simulates-after (scan_body scan width collect frames)
                  (Always-ranges count base none)
                  (Simulates-ranges address (suc count) base none collect false none)
                  Simulates-some))))

      pub Simulates-node :
          (depth : ℕ)
          → Simulates
              (inline_node children width base depth)
              (scan_node scan width address base depth collect frames)
              (scanned address collect frames)
      unfolding inline_node scan_node decode_ranges
      Simulates-node depth =
          Simulates-both (lift (check_inline_depth depth))
            (λ _. Simulates-assoc read_uleb _ _ (Simulates-both read_uleb Simulates-counted))
