-- ===== src/Reader/Lookup/Patterns.antt =====
-- The call-site patterns of a lookup are those of the decoded call sites.
use gsym_rs.Prelude.{
  ℕ, zero, suc, ◌/◌, ◌≡◌, refl, sym, ap, inl, inr, Bool, true, false, not, List, [], ◌∷◌, ◌++◌, ltb,
  ◌==◌, if◌then◌else◌,
}
use gsym_rs.Error.{invalid_format, Result, ok, guard, Result-cases, and_then}
use gsym_rs.Endian.Cursor.{remaining, read_u8, read_u32, read_u64, read_uint}
use gsym_rs.Format.Function.{EncodedCallSite, string_offset_width}
use gsym_rs.Format.Function.CallSites.{
  regex_loop, call_site_at, call_sites_loop, call_sites_at, decode_call_sites,
}
use gsym_rs.Reader.Layout.{ParsedLayout}
use gsym_rs.Reader.Inline.Simulates.{Always-pure, Always-bind}
use gsym_rs.Reader.Lookup.{string, regex_patterns, one_site, site_patterns, read_call_site_patterns}
use gsym_rs.Reader.Lookup.Yields.{
  Yields, Yields-pure, Yields-cast, Yields-err, Yields-both, Yields-left, Yields-gets, Yields-map,
  Yields-bind, Yields-to_end, Yields-whole,
}

-- The offsets of the patterns of the call sites at a return offset.
abbrev pub offsets_at : ℕ → List EncodedCallSite → List ℕ
offsets_at return_offset [] = []
offsets_at return_offset (site ∷ sites) =
    (if site.return_offset == return_offset then site.match_regex else [])
    ++ offsets_at return_offset sites

module _ (bytes : List ℕ) (l : ParsedLayout) where
  -- `output` with the strings at these offsets behind it, or the error of the first that is none.
  abbrev pub strings : List (List ℕ) → List ℕ → Result (List (List ℕ))
  strings output [] = ok output
  strings output (offset ∷ offsets) =
      and_then (string bytes l 0 offset) (λ s. strings (output ++ s ∷ []) offsets)

  strings-append :
      (output : List (List ℕ)) (xs ys : List ℕ)
      → strings output (xs ++ ys) ≡ and_then (strings output xs) (λ b. strings b ys)
  strings-append output [] ys = refl
  strings-append output (x ∷ xs) ys = elim (Result-cases (string bytes l 0 x)) [
    | inl (s, e) ↦ rw e (strings-append (output ++ s ∷ []) xs ys)
    | inr (y, e) ↦ rw e refl
  ]

  module _ (address : ℕ) where
    abbrev kept : Bool → List ℕ → List ℕ
    kept matches offsets = if matches then offsets else []

    first :
        (output : List (List ℕ)) (offset : ℕ) (offsets : List ℕ) {r : Result (List ℕ)}
        → string bytes l address offset ≡ r
        → strings output (offset ∷ offsets) ≡ and_then r (λ s. strings (output ++ s ∷ []) offsets)
    first output offset offsets e = ap (λ t. and_then t (λ s. strings (output ++ s ∷ []) offsets)) e

    Yields-regexes :
        (rounds : ℕ) (matches : Bool) (output : List (List ℕ))
        → Yields
            (regex_loop rounds l.string_offset_size)
            (regex_patterns bytes l address rounds matches output)
            (λ offsets. strings output (kept matches offsets))
    unfolding regex_loop regex_patterns
    Yields-regexes zero true output = Yields-pure [] refl
    Yields-regexes zero false output = Yields-pure [] refl
    Yields-regexes (suc rounds) false output =
        Yields-both (read_uint l.string_offset_size)
          (λ offset. Yields-map (λ offsets. offset ∷ offsets) (Yields-regexes rounds false output))
    Yields-regexes (suc rounds) true output =
        Yields-both (read_uint l.string_offset_size) (λ offset.
          elim (Result-cases (string bytes l address offset)) [
            | inl (s, e) ↦ rw e (
                Yields-map (λ offsets. offset ∷ offsets)
                  (Yields-cast (λ offsets. sym (first output offset offsets e))
                    (Yields-regexes rounds true (output ++ s ∷ []))))
            | inr (y, e) ↦ rw e (
                Yields-map (λ offsets. offset ∷ offsets)
                  (Yields-err (regex_loop rounds l.string_offset_size) y
                    (λ offsets. first output offset offsets e)))
          ])

    Yields-site :
        (return_offset : ℕ) (output : List (List ℕ))
        → Yields
            (call_site_at l.string_offset_size)
            (one_site bytes l address return_offset output)
            (λ site. strings output (kept (site.return_offset == return_offset) site.match_regex))
    unfolding call_site_at one_site
    Yields-site return_offset output = Yields-both read_u64 (λ candidate.
        Yields-both read_u8 (λ flags. Yields-both read_u32 (λ count.
          Yields-left (string_offset_width l.string_offset_size) (λ size.
            Yields-gets remaining (λ left.
              Yields-left
                (guard (not (ltb (left / size) count))
                  (invalid_format "call-site regex count exceeds remaining input"))
                (λ _.
                  Yields-map
                    (λ (offsets : List ℕ). record {
                      return_offset = candidate;
                      flags = flags;
                      match_regex = offsets;
                    })
                    (Yields-regexes count (candidate == return_offset) output)))))))

    Yields-sites :
        (rounds return_offset : ℕ) (output : List (List ℕ))
        → Yields
            (call_sites_loop rounds l.string_offset_size)
            (site_patterns bytes l address rounds return_offset output)
            (λ sites. strings output (offsets_at return_offset sites))
    unfolding call_sites_loop site_patterns
    Yields-sites zero return_offset output = Yields-pure [] refl
    Yields-sites (suc rounds) return_offset output =
        Yields-bind (site_patterns bytes l address rounds return_offset)
          (λ site b sites. strings b (offsets_at return_offset (others sites)))
          (Yields-site return_offset output)
          (λ site b. Yields-map (λ sites. site ∷ sites) (Yields-sites rounds return_offset b))
          (λ site. Always-bind (call_sites_loop rounds l.string_offset_size) (λ sites.
            Always-pure (site ∷ sites) (
              strings-append output (kept (site.return_offset == return_offset) site.match_regex)
                (offsets_at return_offset sites))))
      where
        others : List EncodedCallSite → List EncodedCallSite
        others [] = []
        others (site ∷ sites) = sites

-- On every call-site payload that decodes, `read_call_site_patterns` returns the strings of the
-- patterns of the decoded call sites at the return offset, in their order, or the error of the first
-- pattern that is no string.
pub read_call_site_patterns-strings :
    (bytes : List ℕ) (l : ParsedLayout) (address return_offset : ℕ) (payload : List ℕ)
    {sites : List EncodedCallSite}
    → decode_call_sites payload l.endian l.string_offset_size ≡ ok sites
    → read_call_site_patterns bytes l address payload return_offset
      ≡ strings bytes l [] (offsets_at return_offset sites)
unfolding decode_call_sites call_sites_at read_call_site_patterns
read_call_site_patterns-strings bytes l address return_offset payload h =
    Yields-whole payload l.endian
      (Yields-to_end _ _ (
        Yields-both read_u32 (λ count. Yields-gets remaining (λ left.
          Yields-left
            (guard (not (ltb (left / 13) count))
              (invalid_format "call-site count exceeds remaining input"))
            (λ _. Yields-sites bytes l address count return_offset [])))))
      h
