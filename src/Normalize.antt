-- ===== src/Normalize.antt =====
-- src/normalize.rs: `compact_line_rows`, which drops a row at the place of the row before it, and
-- `compact_function_lines`.
pub mod Lookup
use gsym_rs.Prelude.{ℕ, Bool, ◌&&◌, List, [], ◌∷◌, ◌==◌, if◌then◌else◌}
use gsym_rs.Model.{LineEntry}
use gsym_rs.Model.Function.{Function, function, Functions, no_functions, with_function}

abbrev pub same_place : (current previous : LineEntry) → Bool
same_place current previous = current.file == previous.file && current.line == previous.line

-- `dedup_by` behind a row that it kept: each row is compared with the last row kept.
unfoldable pub compact_after : LineEntry → List LineEntry → List LineEntry
compact_after previous [] = []
compact_after previous (row ∷ rows) =
    let dropped = compact_after previous rows in
    let kept = compact_after row rows in if same_place row previous then dropped else row ∷ kept

unfoldable pub compact_line_rows : List LineEntry → List LineEntry
unfolding compact_after
compact_line_rows [] = []
compact_line_rows (row ∷ rows) = row ∷ compact_after row rows

unfoldable mutual
  unfolding compact_line_rows

  pub compact_function : Function → Function
  compact_function (function range name lines inline merged call_sites) =
      function range name (compact_line_rows lines) inline (compact_functions merged) call_sites

  pub compact_functions : Functions → Functions
  compact_functions no_functions = no_functions
  compact_functions (with_function f functions) =
      with_function (compact_function f) (compact_functions functions)

unfoldable pub compact_function_lines : List Function → List Function
unfolding compact_function
compact_function_lines [] = []
compact_function_lines (f ∷ functions) = compact_function f ∷ compact_function_lines functions
