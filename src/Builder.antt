-- ===== src/Builder.antt =====
-- src/builder.rs: `GsymBuilder` and its options; src/writer/mod.rs: `WriterOptions`; src/version.rs.
pub mod Reach
pub mod Files
use gsym_rs.Prelude.{
  ℕ, ◌≡◌, max, Bool, true, false, not, ◌&&◌, List, [], ◌∷◌, ◌++◌, length, get_elem?, Option, none,
  some, ltb, ◌==◌, if◌then◌else◌,
}
use gsym_rs.Prelude.Words.{try_u32, u32_max}
use gsym_rs.Error.{limit, Error, Result, ok, err, ok_or, guard, ◌>>=◌, ◌>>◌}
use gsym_rs.Model.{FileEntry, empty_file}
use gsym_rs.Model.Range.{AddressRange}
use gsym_rs.Model.Function.{Function}
use gsym_rs.Endian.Order.{Endian, little}
use gsym_rs.Writer.Strings.{eq_bytes}
use gsym_rs.Validation.{validate_for_builder, validate_function_files}

pub data GsymVersion : Type 0 where
  v1 v2 : GsymVersion

abbrev pub number : GsymVersion → ℕ
number v1 = 1
number v2 = 2

pub record WriterOptions : Type 0 where
  pub version : GsymVersion
  pub endian : Endian
  pub base_address : Option ℕ
  pub build_id : List ℕ

-- `WriterOptions::default()`.
abbrev pub default_writer : WriterOptions
default_writer = record { version = v1; endian = little; base_address = none; build_id = [] }

pub data FunctionSetPolicy : Type 0 where
  deduplicate merge_equal_ranges preserve : FunctionSetPolicy

pub record BuilderOptions : Type 0 where
  pub writer : WriterOptions
  pub executable_ranges : List AddressRange
  pub repair_zero_sized_functions : Bool
  pub merge_equal_address_functions : Bool

-- `BuilderOptions::default()`.
abbrev pub default_options : BuilderOptions
default_options = record {
  writer = default_writer;
  executable_ranges = [];
  repair_zero_sized_functions = true;
  merge_equal_address_functions = false;
}

-- A slot is its index: the hash of an entry is a function of its bytes, and the hasher is left out.
pub record GsymBuilder : Type 0 where
  pub options : BuilderOptions
  pub function_set : FunctionSetPolicy
  pub files : List FileEntry
  pub file_index : List ℕ
  pub functions : List Function
  pub maximum_file_index : ℕ

abbrev pub interned_file : List FileEntry → ℕ → Option FileEntry
interned_file = get_elem?

unfoldable pub eq_file : FileEntry → FileEntry → Bool
unfolding eq_bytes
eq_file left right =
    eq_bytes left.directory right.directory && eq_bytes left.basename right.basename

-- `interned_file(files, index) == Some(file)`.
unfoldable pub is_file : List FileEntry → FileEntry → ℕ → Bool
unfolding eq_file
is_file files file index = elim (interned_file files index) [
  | none ↦ false
  | some found ↦ eq_file found file
]

abbrev pub new : GsymBuilder
new = record {
  options = default_options;
  function_set = deduplicate;
  files = empty_file ∷ [];
  file_index = 0 ∷ [];
  functions = [];
  maximum_file_index = 0;
}

abbrev pub policy_of : Bool → FunctionSetPolicy
policy_of true = merge_equal_ranges
policy_of false = deduplicate

abbrev pub with_options : BuilderOptions → GsymBuilder
with_options options = record new {
  options = options;
  function_set = policy_of options.merge_equal_address_functions;
}

-- `matches!(policy, FunctionSetPolicy::MergeEqualRanges)`.
abbrev pub is_merge : FunctionSetPolicy → Bool
is_merge merge_equal_ranges = true
is_merge deduplicate = false
is_merge preserve = false

-- The setters.
module _ (b : GsymBuilder) where
  abbrev pub set_writer : WriterOptions → GsymBuilder
  set_writer writer = record b { options = record b.options { writer = writer } }

  abbrev pub set_version : GsymVersion → GsymBuilder
  set_version version = set_writer (record b.options.writer { version = version })

  abbrev pub set_endian : Endian → GsymBuilder
  set_endian endian = set_writer (record b.options.writer { endian = endian })

  abbrev pub set_base_address : ℕ → GsymBuilder
  set_base_address address = set_writer (record b.options.writer { base_address = some address })

  abbrev pub set_build_id : List ℕ → GsymBuilder
  set_build_id build_id = set_writer (record b.options.writer { build_id = build_id })

  abbrev pub set_repair : Bool → GsymBuilder
  set_repair enabled = record b {
    options = record b.options { repair_zero_sized_functions = enabled };
  }

  abbrev pub set_function_set : FunctionSetPolicy → GsymBuilder
  set_function_set policy = record b {
    options = record b.options { merge_equal_address_functions = is_merge policy };
    function_set = policy;
  }

  abbrev pub set_merge : Bool → GsymBuilder
  set_merge enabled = record b {
    options = record b.options { merge_equal_address_functions = enabled };
    function_set = policy_of enabled;
  }

  abbrev pub set_executable_ranges : List AddressRange → GsymBuilder
  set_executable_ranges ranges = record b {
    options = record b.options { executable_ranges = ranges };
  }

-- `HashTable::find` of hashbrown on the slots that were inserted: equal files hash alike.
abbrev pub Find : Type 0
Find = List ℕ → (ℕ → Bool) → Option ℕ

unfoldable pub insert_file : FileEntry → GsymBuilder → Result (ℕ × GsymBuilder)
insert_file file b = do
  index ← ok_or (try_u32 (length b.files)) (limit "file table" (length b.files) u32_max)
  ok (index, record b { files = b.files ++ file ∷ []; file_index = index ∷ b.file_index })

unfoldable pub add_file : Find → FileEntry → GsymBuilder → Result (ℕ × GsymBuilder)
unfolding insert_file is_file
add_file find file b = elim (find b.file_index (is_file b.files file)) [
  | some index ↦ ok (index, b)
  | none ↦ insert_file file b
]

unfoldable pub add_function : Function → GsymBuilder → Result GsymBuilder
add_function f b = do
  maximum ← validate_for_builder f
  ok (record b {
    functions = b.functions ++ f ∷ [];
    maximum_file_index = max b.maximum_file_index maximum;
  })

-- The `for` loop of `validate_file_references`.
unfoldable pub validate_all_files : List Function → ℕ → Result (Unit {0})
validate_all_files [] count = ok tt
validate_all_files (f ∷ functions) count =
    validate_function_files f count >> validate_all_files functions count

unfoldable pub validate_file_references : GsymBuilder → Result (Unit {0})
unfolding validate_all_files
validate_file_references b =
    if not (ltb b.maximum_file_index (length b.files))
    then validate_all_files b.functions (length b.files)
    else ok tt
