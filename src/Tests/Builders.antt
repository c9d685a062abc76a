-- ===== src/Tests/Builders.antt =====
-- The builder and the last steps before encoding, on concrete functions.
use gsym_rs.Prelude.{
  ℕ, ◌<◌, ◌≡◌, ◌↔◌, inl, inr, refl, Bool, true, false, List, [], ◌∷◌, All, any, none, some,
  get_elem?, if◌then◌else◌, Bool-cases, arith,
}
use gsym_rs.Error.{ok}
use gsym_rs.Model.{FileEntry}
use gsym_rs.Model.Range.{AddressRange}
use gsym_rs.Model.Function.{inline_node, no_nodes, Function, function, no_functions, with_function}
use gsym_rs.Format.Function.Decode.{function_levels, decode_from}
use gsym_rs.Format.Function.{check_inline_depth, check_merged_depth}
use gsym_rs.Model.Equality.{eq_function}
use gsym_rs.Format.Function.Depth.{decode_from-levels}
use gsym_rs.Validation.{validate_for_builder, validate_function_files}
use gsym_rs.Validation.Files.{validate_for_builder-validate_function_files}
use gsym_rs.Builder.{
  GsymBuilder, default_options, with_options, merge_equal_ranges, set_function_set, Find, add_file,
  add_function, validate_all_files, validate_file_references,
}
use gsym_rs.Builder.Files.{IsFind, add_file-get_elem?}
use gsym_rs.Builder.Reach.{
  Built, validate_file_references-validate_all_files, Built-policy, add_file-add_file,
}
use gsym_rs.Writer.Finalize.{dedup_by, repair_final_range, deduplicate_functions, merge_functions}
use gsym_rs.Writer.Finalize.Dedup.{
  IsSorted, IsStrict, covers, deduplicate_functions-IsStrict, merge_functions-IsStrict,
}
use gsym_rs.Writer.Finalize.Repair.{IsAccepted, repair_final_range-IsAccepted}

abbrev body : AddressRange
body = record { start = 0x1000; end = 0x1010 }

abbrev with_rows : Function
with_rows =
    function body (b'f' ∷ []) (record { address = 0x1004; file = 3; line = 7 } ∷ [])
      (some (inline_node (body ∷ []) (b'f' ∷ []) 1 0 no_nodes)) no_functions []

abbrev plain : Function
plain = function body (b'g' ∷ []) [] none no_functions []

-- A function of unknown size at the end.
abbrev open_end : Function
open_end =
    function (record { start = 0x2000; end = 0x2000 }) (b'h' ∷ [])
      (record { address = 0x2000; file = 1; line = 9 } ∷ []) none no_functions []

checked : validate_for_builder with_rows ≡ ok 3
unfolding validate_for_builder check_inline_depth check_merged_depth
checked = refl

validate_for_builder-validate_function_files_example :
    (3 < 4) ↔ (validate_function_files with_rows 4 ≡ ok tt)
validate_for_builder-validate_function_files_example =
    validate_for_builder-validate_function_files with_rows 4 (omega arith) checked

-- A hash table that looks at its slots in turn.
abbrev find_first : Find
find_first [] test = none
find_first (i ∷ slots) test = if test i then some i else find_first slots test

find_first-matches :
    (slots : List ℕ) (test : ℕ → Bool) (i : ℕ) → find_first slots test ≡ some i → test i ≡ true
find_first-matches [] test i h = cc
find_first-matches (j ∷ slots) test i h = elim (Bool-cases (test j)) [
  | inl e ↦ ground arith
  | inr e ↦ find_first-matches slots test i (rw (e, find_first) at h)
]

find_first_complete :
    (slots : List ℕ) (test : ℕ → Bool)
    → find_first slots test ≡ none
    → All (λ i. test i ≡ false) slots
find_first_complete [] test h = tt
find_first_complete (j ∷ slots) test h = elim (Bool-cases (test j)) [
  | inl e ↦ cc (rw (e, find_first) at h)
  | inr e ↦ (e, find_first_complete slots test (rw (e, find_first) at h))
]

find_first-IsFind : IsFind find_first
find_first-IsFind = record { matches = find_first-matches; complete = find_first_complete }

abbrev main_file : FileEntry
main_file = record { directory = b'/' ∷ []; basename = b'm' ∷ [] }

abbrev with_file : GsymBuilder
with_file = record (with_options default_options) {
  files = record { directory = []; basename = [] } ∷ main_file ∷ [];
  file_index = 1 ∷ 0 ∷ [];
}

abbrev with_function_too : GsymBuilder
with_function_too = record with_file { functions = with_rows ∷ []; maximum_file_index = 3 }

added_file : add_file find_first main_file (with_options default_options) ≡ ok (1, with_file)
unfolding add_file
added_file = refl

added_function : add_function with_rows with_file ≡ ok with_function_too
unfolding add_function validate_for_builder check_inline_depth check_merged_depth
added_function = refl

built : Built find_first with_function_too
built =
    Built.func with_rows added_function
      (Built.file main_file added_file (Built.start default_options))

-- The function refers to a file that is missing.
validate_file_references-validate_all_files_example :
    validate_file_references with_function_too ≡ validate_all_files (with_rows ∷ []) 2
validate_file_references-validate_all_files_example =
    validate_file_references-validate_all_files find_first with_function_too built

add_file-add_file_example :
    add_file find_first main_file with_function_too ≡ ok (1, with_function_too)
add_file-add_file_example =
    add_file-add_file find_first with_function_too main_file 1 find_first-IsFind built refl

add_file-get_elem?_example :
    (get_elem? (with_file).files 1 ≡ some main_file)
    × ((j : ℕ) (g : FileEntry)
        → get_elem? (with_options default_options).files j ≡ some g
        → get_elem? with_file.files j ≡ some g)
add_file-get_elem?_example =
    add_file-get_elem? find_first main_file (with_options default_options) find_first-IsFind
      added_file

Built-policy_example : (true ≡ true) ↔ (merge_equal_ranges ≡ merge_equal_ranges)
Built-policy_example =
    Built-policy find_first (set_function_set with_function_too merge_equal_ranges)
      (Built.policy merge_equal_ranges built)

decode_from-levels_example : function_levels 17 4 0x1000 3 ≡ decode_from 4 0x1000 3
decode_from-levels_example = decode_from-levels 4 0x1000 4 3

open_checked : validate_for_builder open_end ≡ ok 1
unfolding validate_for_builder check_inline_depth check_merged_depth
open_checked = refl

repair_final_range-IsAccepted_example : All IsAccepted (
    repair_final_range
      (with_rows ∷ open_end ∷ [])
      (record default_options { executable_ranges = record { start = 0x1000; end = 0x2040 } ∷ [] }))
repair_final_range-IsAccepted_example =
    repair_final_range-IsAccepted (with_rows ∷ open_end ∷ [])
      (record default_options { executable_ranges = record { start = 0x1000; end = 0x2040 } ∷ [] })
      (omega arith) ((3, checked), ((1, open_checked), tt))

sorted : IsSorted (with_rows ∷ plain ∷ open_end ∷ [])
sorted = ((inr (refl, omega arith), (inl (omega arith), tt)), ((inl (omega arith), tt), (tt, tt)))

deduplicate_functions-IsStrict_example :
    IsStrict (deduplicate_functions (with_rows ∷ plain ∷ open_end ∷ []))
    × (any (covers 0x1008) (deduplicate_functions (with_rows ∷ plain ∷ open_end ∷ []))
        ≡ any (covers 0x1008) (with_rows ∷ plain ∷ open_end ∷ []))
deduplicate_functions-IsStrict_example =
    deduplicate_functions-IsStrict (with_rows ∷ plain ∷ open_end ∷ []) 0x1008 sorted

merge_functions-IsStrict_example :
    IsStrict (merge_functions (with_rows ∷ plain ∷ open_end ∷ []))
    × (any (covers 0x1008) (merge_functions (with_rows ∷ plain ∷ open_end ∷ []))
        ≡ any (covers 0x1008) (with_rows ∷ plain ∷ open_end ∷ []))
merge_functions-IsStrict_example =
    merge_functions-IsStrict (with_rows ∷ plain ∷ open_end ∷ []) 0x1008 sorted

merged_runs :
    merge_functions (with_rows ∷ plain ∷ [])
    ≡ function body
        (b'f' ∷ [])
        (record { address = 0x1004; file = 3; line = 7 } ∷ [])
        (some (inline_node (body ∷ []) (b'f' ∷ []) 1 0 no_nodes))
        (with_function plain no_functions)
        []
      ∷ []
unfolding merge_functions eq_function dedup_by
merged_runs = refl
