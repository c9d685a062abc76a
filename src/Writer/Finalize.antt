-- ===== src/Writer/Finalize.antt =====
-- src/writer/finalize.rs: merging and deduplication of functions with equal ranges, and the repair of
-- the last range. Comparisons are the derived ones.
pub mod Dedup
pub mod Repair
use gsym_rs.Prelude.{
  ℕ, zero, suc, ◌+◌, ◌-◌, ◌/◌, ◌%◌, min, Bool, true, false, not, ◌&&◌, ◌||◌, List, [], ◌∷◌, ◌++◌,
  length, Option, none, some, ltb, leb, ◌==◌, if◌then◌else◌, is_nil, any,
}
use gsym_rs.Prelude.Words.{u32_max, saturating_add}
use gsym_rs.Model.{LineEntry}
use gsym_rs.Model.Range.{AddressRange, size, is_empty, contains, contains_range}
use gsym_rs.Model.Function.{
  InlineNode, inline_node, CallSite, Function, function, Functions, no_functions, with_function,
  range_of,
}
use gsym_rs.Validation.{is_same_range}
use gsym_rs.Builder.{BuilderOptions}
use gsym_rs.Model.Equality.{eq_function}

-- `Vec::dedup_by`. The closure gets the element at hand and the last one kept, and may change both;
-- `some` is the changed last element, and drops the one at hand.
unfoldable pub dedup_after {ℓ} : {A : Type ℓ} → (A → A → Option A) → A → List A → List A
dedup_after same previous [] = previous ∷ []
dedup_after same previous (current ∷ rest) = elim (same current previous) [
  | some previous' ↦ dedup_after same previous' rest
  | none ↦ previous ∷ dedup_after same current rest
]

unfoldable pub dedup_by {ℓ} : {A : Type ℓ} → (A → A → Option A) → List A → List A
unfolding dedup_after
dedup_by same [] = []
dedup_by same (first ∷ rest) = dedup_after same first rest

-- `parent.merged.last().unwrap_or(parent)`.
abbrev last_merged : Functions → Function → Function
last_merged no_functions parent = parent
last_merged (with_function merged functions) parent = last_merged functions merged

abbrev pub push_merged : Functions → Function → Functions
push_merged no_functions f = with_function f no_functions
push_merged (with_function merged functions) f = with_function merged (push_merged functions f)

abbrev pub merge_into : Function → Function → Function
merge_into (function range name lines inline merged call_sites) f =
    function range name lines inline (push_merged merged f) call_sites

abbrev merged_of : Function → Functions
merged_of (function _ _ _ _ merged _) = merged

-- The closure of `merge_equal_ranges`.
unfoldable pub merge_equal : Function → Function → Option Function
merge_equal f parent =
    if not (is_same_range (range_of parent) (range_of f))
    then none
    else if eq_function (last_merged (merged_of parent) parent) f
    then some parent
    else some (merge_into parent f)

unfoldable pub merge_functions : List Function → List Function
unfolding merge_equal
merge_functions functions = dedup_by merge_equal functions

abbrev is_some {ℓ} : {A : Type ℓ} → Option A → Bool
is_some none = false
is_some (some _) = true

abbrev pub has_rich_info : Function → Bool
has_rich_info (function _ _ lines inline _ call_sites) =
    not (is_nil lines) || is_some inline || not (is_nil call_sites)

-- `name.starts_with(prefix)`.
abbrev starts_with : List ℕ → List ℕ → Bool
starts_with [] name = true
starts_with (p ∷ ps) [] = false
starts_with (p ∷ ps) (c ∷ name) = p == c && starts_with ps name

-- `alternate.windows(token.len()).any(|window| window == token)`, of a token that is not empty.
has_window : List ℕ → List ℕ → Bool
has_window token [] = false
has_window token (c ∷ name) = starts_with token (c ∷ name) || has_window token name

-- `_Z`, `$s` and `$S`.
is_supported_mangled : List ℕ → Bool
is_supported_mangled name =
    starts_with (b'_' ∷ b'Z' ∷ []) name
    || starts_with (b'$' ∷ b's' ∷ []) name
    || starts_with (b'$' ∷ b'S' ∷ []) name

-- `to_string` of a `usize`, which has twenty digits at most.
decimal : ℕ → ℕ → List ℕ
decimal zero n = []
decimal (suc fuel) n =
    let front = decimal fuel (n / 10) in (if ltb n 10 then [] else front) ++ (b'0' + n % 10) ∷ []

unfoldable pub should_replace_with_mangled_name : List ℕ → List ℕ → Bool
unfolding has_window is_supported_mangled decimal
should_replace_with_mangled_name alternate current =
    if is_nil current
    then not (is_nil alternate)
    else if is_supported_mangled current || not (is_supported_mangled alternate)
    then false
    else has_window (decimal 20 (length current) ++ current) alternate

abbrev pub name_of : Function → List ℕ
name_of (function _ name _ _ _ _) = name

abbrev pub with_name : Function → List ℕ → Function
with_name (function range _ lines inline merged call_sites) name =
    function range name lines inline merged call_sites

-- `function.name.clone_from(&previous.name)`, where the previous one has the mangled name.
unfoldable pub take_name : Function → Function → Function
unfolding should_replace_with_mangled_name
take_name previous f =
    if not (has_rich_info previous)
      && should_replace_with_mangled_name (name_of previous) (name_of f)
    then with_name f (name_of previous)
    else f

abbrev same_bool : Bool → Bool → Bool
same_bool true b = b
same_bool false b = not b

-- The closure of `deduplicate`.
unfoldable pub duplicate : Function → Function → Option Function
unfolding take_name
duplicate f previous =
    if is_same_range (range_of previous) (range_of f)
    then if same_bool (has_rich_info previous) (has_rich_info f)
      then if eq_function previous f then some previous else some f
      else if has_rich_info f
      then some (take_name previous f)
      else some previous
    else if is_empty (range_of previous) && contains (range_of f) (range_of previous).start
    then some f
    else none

unfoldable pub deduplicate_functions : List Function → List Function
unfolding duplicate
deduplicate_functions functions = dedup_by duplicate functions

-- The first executable range that contains the address.
abbrev find_range : List AddressRange → ℕ → Option AddressRange
find_range [] start = none
find_range (range ∷ ranges) start =
    if contains range start then some range else find_range ranges start

abbrev end_of : Option AddressRange → ℕ → ℕ
end_of none start = start
end_of (some range) start = range.end

unfoldable pub repaired_range : List AddressRange → ℕ → AddressRange
repaired_range ranges start = record {
  start = start;
  end = saturating_add start (min (end_of (find_range ranges start) start - start) u32_max);
}

abbrev pub contains_all : AddressRange → Option InlineNode → Bool
contains_all repaired none = true
contains_all repaired (some (inline_node ranges _ _ _ _)) =
    not (any (λ range. not (contains_range repaired range)) ranges)

unfoldable mutual
  pub repair_keeps_records : Function → AddressRange → Bool
  repair_keeps_records (function range name lines inline merged call_sites) repaired =
      not (any (λ row. not (contains repaired row.address)) lines)
      && (not (any (λ site. not (ltb site.return_offset (size repaired))) call_sites)
          && (contains_all repaired inline && repair_keeps_merged merged repaired))

  pub repair_keeps_merged : Functions → AddressRange → Bool
  repair_keeps_merged no_functions repaired = true
  repair_keeps_merged (with_function f functions) repaired =
      repair_keeps_records f repaired && repair_keeps_merged functions repaired

unfoldable mutual
  pub repair_merged_ranges : Function → AddressRange → Function
  repair_merged_ranges (function range name lines inline merged call_sites) repaired =
      function repaired name lines inline (repair_merged_list merged repaired) call_sites

  pub repair_merged_list : Functions → AddressRange → Functions
  repair_merged_list no_functions repaired = no_functions
  repair_merged_list (with_function f functions) repaired =
      with_function (repair_merged_ranges f repaired) (repair_merged_list functions repaired)

-- The last function, which is changed in place.
unfoldable pub repair_last : List AddressRange → Function → Function
unfolding repaired_range repair_keeps_records repair_merged_ranges
repair_last ranges last =
    let repaired = repaired_range ranges (range_of last).start in
    if is_empty (range_of last) && repair_keeps_records last repaired
    then repair_merged_ranges last repaired
    else last

unfoldable pub repair_end : List AddressRange → Function → List Function → List Function
unfolding repair_last
repair_end ranges f [] = repair_last ranges f ∷ []
repair_end ranges f (next ∷ functions) = f ∷ repair_end ranges next functions

unfoldable pub repair_final_range : List Function → BuilderOptions → List Function
unfolding repair_end
repair_final_range [] options = []
repair_final_range (f ∷ functions) options =
    if options.repair_zero_sized_functions
    then repair_end options.executable_ranges f functions
    else f ∷ functions
