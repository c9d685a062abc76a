-- ===== src/Reader/Owned.antt =====
-- src/reader/owned.rs: the validation of a decoded record and its conversion into the model. The
-- strings and files are those of the record's file.
pub mod Verified
pub mod Validated
use gsym_rs.Prelude.{
  ℕ, ◌-◌, Bool, true, false, not, ◌&&◌, ◌||◌, List, [], ◌∷◌, Option, none, some, any, is_nil,
  get_elem?, set, ltb, leb, ◌==◌, if◌then◌else◌,
}
use gsym_rs.Prelude.Words.{saturating_add}
use gsym_rs.Error.{invalid_format, Result, ok, err, guard, and_then, ◌>>◌}
use gsym_rs.Model.{LineEntry}
use gsym_rs.Model.Range.{AddressRange, is_valid, is_empty, contains_range, size}
use gsym_rs.Model.Function.{
  InlineNode, inline_node, InlineNodes, no_nodes, with_node, CallSite, Function, function,
  Functions, no_functions, with_function,
}
use gsym_rs.Format.Function.{
  EncodedInlineNode, encoded_inline_node, EncodedInlineNodes, no_children, with_child,
  EncodedCallSite, EncodedFunction, encoded_function, EncodedFunctions, no_merged, with_merged,
  check_merged_depth,
}
use gsym_rs.Reader.Layout.{ParsedLayout}
use gsym_rs.Reader.Strings.{string_at}
use gsym_rs.Reader.Functions.{file_at}

-- `lines.iter().flatten()` and `unwrap_or_default`.
abbrev pub rows_of : Option (List LineEntry) → List LineEntry
rows_of none = []
rows_of (some rows) = rows

abbrev differs : Option AddressRange → AddressRange → Bool
differs none range = false
differs (some parent) range = not (range.start == parent.start && range.end == parent.end)

abbrev line_outside : AddressRange → LineEntry → Bool
line_outside range line =
    ltb line.address range.start || (not (is_empty range) && leb range.end line.address)

abbrev site_outside : AddressRange → EncodedCallSite → Bool
site_outside range site = not (size range == 0) && leb (size range) site.return_offset

abbrev range_outside : List AddressRange → AddressRange → Bool
range_outside parents range =
    not (is_valid range)
    || (is_empty range || not (any (λ parent. contains_range parent range) parents))

unfoldable mutual
  pub validate_inline_ranges : EncodedInlineNode → List AddressRange → Result (Unit {0})
  validate_inline_ranges (encoded_inline_node ranges name file line children) parents =
      guard (not (is_nil ranges || any (λ range. range_outside parents range) ranges))
        (invalid_format "inline range is empty, reversed, or outside its parent")
      >> validate_children_ranges children ranges

  pub validate_children_ranges : EncodedInlineNodes → List AddressRange → Result (Unit {0})
  validate_children_ranges no_children parents = ok tt
  validate_children_ranges (with_child child children) parents =
      validate_inline_ranges child parents >> validate_children_ranges children parents

abbrev inline_ranges : Option EncodedInlineNode → AddressRange → Result (Unit {0})
inline_ranges none range = ok tt
inline_ranges (some node) range = validate_inline_ranges node (range ∷ [])

unfoldable pub validate_semantics : EncodedFunction → Option AddressRange → Result (Unit {0})
unfolding validate_inline_ranges
validate_semantics (encoded_function range name lines inline items call_sites) parent =
    guard (is_valid range) (invalid_format "reversed function range")
    >> (guard (not (differs parent range))
          (invalid_format "merged function range differs from its parent")
        >> (guard (not (any (λ line. line_outside range line) (rows_of lines)))
              (invalid_format "line address is outside its function")
            >> (inline_ranges inline range
                >> guard (not (any (λ site. site_outside range site) call_sites))
                    (invalid_format "call-site return offset is outside its function"))))

module _ (bytes : List ℕ) (l : ParsedLayout) where
  -- `FunctionRef::string` and `FunctionRef::file`.
  abbrev pub string : ℕ → Result (List ℕ)
  string offset = string_at bytes l.string_table offset

  abbrev pub file : ℕ → Result (List ℕ × List ℕ)
  file index = file_at bytes l index

  abbrev is_verified : Option Bool → Bool
  is_verified none = false
  is_verified (some valid) = valid

  unfoldable pub verify_file : ℕ → List Bool → Result (List Bool)
  verify_file index verified =
      if is_verified (get_elem? verified index)
      then ok verified
      else and_then (file index) (λ _. ok (set verified index true))

  unfoldable pub verify_lines : List LineEntry → List Bool → Result (List Bool)
  unfolding verify_file
  verify_lines [] verified = ok verified
  verify_lines (line ∷ lines) verified =
      and_then (verify_file line.file verified) (λ verified'. verify_lines lines verified')

  abbrev pub check_name : ℕ → Result (Unit {0})
  check_name name = if name == 0 then ok tt else and_then (string name) (λ _. ok tt)

  unfoldable mutual
    unfolding verify_file

    pub validate_inline : EncodedInlineNode → List Bool → Result (List Bool)
    validate_inline (encoded_inline_node ranges name call_file line children) verified =
        check_name name
        >> and_then (verify_file call_file verified)
            (λ verified'. validate_children children verified')

    pub validate_children : EncodedInlineNodes → List Bool → Result (List Bool)
    validate_children no_children verified = ok verified
    validate_children (with_child child children) verified =
        and_then (validate_inline child verified)
          (λ verified'. validate_children children verified')

  abbrev pub validate_tree : Option EncodedInlineNode → List Bool → Result (List Bool)
  validate_tree none verified = ok verified
  validate_tree (some node) verified = validate_inline node verified

  unfoldable pub validate_regexes : List ℕ → Result (Unit {0})
  validate_regexes [] = ok tt
  validate_regexes (offset ∷ offsets) = and_then (string offset) (λ _. validate_regexes offsets)

  unfoldable pub validate_sites : List EncodedCallSite → Result (Unit {0})
  unfolding validate_regexes
  validate_sites [] = ok tt
  validate_sites (site ∷ sites) = validate_regexes site.match_regex >> validate_sites sites

  unfoldable mutual
    unfolding verify_lines validate_inline validate_sites validate_semantics

    pub validate_at : EncodedFunction → Option AddressRange → ℕ → List Bool → Result (List Bool)
    validate_at (encoded_function range name lines inline items call_sites) parent depth verified =
        check_merged_depth depth
        >> (validate_semantics (encoded_function range name lines inline items call_sites) parent
            >> and_then (string name) (λ _.
              and_then (verify_lines (rows_of lines) verified) (λ with_lines.
                and_then (validate_tree inline with_lines) (λ with_inline.
                  validate_sites call_sites
                  >> validate_merged items range (saturating_add depth 1) with_inline))))

    pub validate_merged : EncodedFunctions → AddressRange → ℕ → List Bool → Result (List Bool)
    validate_merged no_merged range depth verified = ok verified
    validate_merged (with_merged item items) range depth verified =
        and_then (validate_at item (some range) depth verified)
          (λ verified'. validate_merged items range depth verified')

  unfoldable pub validate : EncodedFunction → List Bool → Result (List Bool)
  unfolding validate_at
  validate encoded verified = validate_at encoded none 0 verified

  abbrev resolve_name : ℕ → Result (List ℕ)
  resolve_name name = if name == 0 then ok [] else string name

  unfoldable pub check_lines : List LineEntry → Result (Unit {0})
  check_lines [] = ok tt
  check_lines (line ∷ lines) = and_then (file line.file) (λ _. check_lines lines)

  unfoldable pub resolve_all : List ℕ → Result (List (List ℕ))
  resolve_all [] = ok []
  resolve_all (offset ∷ offsets) =
      and_then (string offset) (λ s. and_then (resolve_all offsets) (λ rest. ok (s ∷ rest)))

  unfoldable pub decode_sites : List EncodedCallSite → Result (List CallSite)
  unfolding resolve_all
  decode_sites [] = ok []
  decode_sites (site ∷ sites) = and_then (resolve_all site.match_regex) (λ match_regex.
      and_then (decode_sites sites) (λ rest. ok (
        record { return_offset = site.return_offset; flags = site.flags; match_regex = match_regex }
        ∷ rest)))

  -- With `VALIDATE` as an argument.
  module _ (checked : Bool) where
    abbrev check_file : ℕ → Result (Unit {0})
    check_file index = if checked then and_then (file index) (λ _. ok tt) else ok tt

    unfoldable mutual
      pub decode_inline : EncodedInlineNode → Result InlineNode
      decode_inline (encoded_inline_node ranges name call_file line children) =
          check_file call_file
          >> and_then (resolve_name name) (λ name'.
            and_then (decode_children children)
              (λ children'. ok (inline_node ranges name' call_file line children')))

      pub decode_children : EncodedInlineNodes → Result InlineNodes
      decode_children no_children = ok no_nodes
      decode_children (with_child child children) = and_then (decode_inline child) (λ child'.
          and_then (decode_children children) (λ children'. ok (with_node child' children')))

    abbrev decode_tree : Option EncodedInlineNode → Result (Option InlineNode)
    decode_tree none = ok none
    decode_tree (some node) = and_then (decode_inline node) (λ node'. ok (some node'))

    unfoldable pub check_function : EncodedFunction → Option AddressRange → ℕ → Result (Unit {0})
    unfolding check_lines validate_semantics
    check_function (encoded_function range name lines inline items call_sites) parent depth =
        if checked
        then check_merged_depth depth
          >> (validate_semantics (encoded_function range name lines inline items call_sites) parent
              >> check_lines (rows_of lines))
        else ok tt

    unfoldable mutual
      unfolding check_function decode_sites decode_inline

      pub decode_at : EncodedFunction → Option AddressRange → ℕ → Result Function
      decode_at (encoded_function range name lines inline items call_sites) parent depth =
          check_function (encoded_function range name lines inline items call_sites) parent depth
          >> and_then (decode_merged items range (saturating_add depth 1)) (λ merged'.
            and_then (decode_sites call_sites) (λ call_sites'. and_then (string name) (λ name'.
              and_then (decode_tree inline) (λ inline'.
                ok (function range name' (rows_of lines) inline' merged' call_sites')))))

      pub decode_merged : EncodedFunctions → AddressRange → ℕ → Result Functions
      decode_merged no_merged range depth = ok no_functions
      decode_merged (with_merged item items) range depth =
          and_then (decode_at item (some range) depth) (λ item'.
            and_then (decode_merged items range depth) (λ items'. ok (with_function item' items')))

  unfoldable pub decode : EncodedFunction → Result Function
  unfolding decode_at
  decode encoded = decode_at true encoded none 0

  unfoldable pub decode_validated : EncodedFunction → Result Function
  unfolding decode_at
  decode_validated encoded = decode_at false encoded none 0
