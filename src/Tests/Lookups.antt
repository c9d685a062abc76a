-- ===== src/Tests/Lookups.antt =====
-- The string table and the address table.
use mathlib.Core.Path.{subst}
use gsym_rs.Prelude.{
  ℕ, zero, suc, ◌≡◌, ◌≢◌, ◌≤◌, ◌<◌, ◌^◌, refl, sym, true, false, Bool-cases, inl, inr, List, [],
  ◌∷◌, ◌++◌, length, Option, none, some, arith,
}
use gsym_rs.Error.{ok}
use gsym_rs.Model.{FileEntry}
use gsym_rs.Endian.Order.{little, int_value, le_value}
use gsym_rs.Endian.Cursor.{at, read_uint, read_u16, read_fixed, take_array}
use gsym_rs.Reader.Layout.{ParsedLayout, v1}
use gsym_rs.Reader.Addresses.{address, find_address_index}
use gsym_rs.Reader.Addresses.Index.{IsLast, find_address_index-IsLast}
use gsym_rs.Writer.Strings.{StringTable, Find, eq_bytes, interned, intern, intern_files, new}
use gsym_rs.Writer.Strings.ReadBack.{FindsMatches}
use gsym_rs.Writer.Strings.Files.{NameFiles, string_at-intern_files}
use gsym_rs.Writer.Widths.{IsWidth, address_offset_width, address_offset_width-fits}

-- A table that looks at its entries one after the other.
unfoldable first_match : Find
first_match [] test = none
first_match (entry ∷ entries) test =
    let rest = first_match entries test in elim (test entry) [ true ↦ some entry | false ↦ rest ]

first_match-FindsMatches : FindsMatches first_match
unfolding first_match
first_match-FindsMatches [] test found P h ps = cc
first_match-FindsMatches (entry ∷ entries) test found P h (p, ps) = elim (Bool-cases (test entry)) [
  | inl yes_here ↦
      let same : entry ≡ found = cc (rw (yes_here, first_match) at h) in
      subst (λ e. (test e ≡ true) × P e) same (yes_here, p)
  | inr not_here ↦
      first_match-FindsMatches entries test found P (rw (not_here, first_match) at h) ps
]

abbrev files : List FileEntry
files =
    record { directory = 47 ∷ 115 ∷ []; basename = 97 ∷ [] }
    ∷ record { directory = 47 ∷ 115 ∷ []; basename = 98 ∷ [] }
    ∷ []

-- The directory of both files is stored once.
interned_files : intern_files first_match files (new first_match) ≡ (
  (1, 4) ∷ (1, 6) ∷ [],
  record {
    bytes = 0 ∷ 47 ∷ 115 ∷ 0 ∷ 97 ∷ 0 ∷ 98 ∷ 0 ∷ [];
    entries =
        record { offset = 6; len = 1 }
        ∷ record { offset = 4; len = 1 }
        ∷ record { offset = 1; len = 2 }
        ∷ record { offset = 0; len = 0 }
        ∷ [];
  },
)
unfolding first_match intern_files intern interned eq_bytes
interned_files = refl

string_at-intern_files_example :
    NameFiles
      (5 ∷ [])
      ((intern_files first_match files (new first_match)).1).bytes
      (6 ∷ [])
      ((intern_files first_match files (new first_match)).0)
      files
string_at-intern_files_example =
    string_at-intern_files first_match first_match-FindsMatches files (5 ∷ []) (6 ∷ [])
      (((not_nul, (not_nul, tt)), (not_nul, tt)), (((not_nul, (not_nul, tt)), (not_nul, tt)), tt))
      (subst (λ (t : List (ℕ × ℕ) × StringTable). length (5 ∷ ((t.1).bytes ++ 6 ∷ [])) < 2 ^ 64)
        (sym interned_files) (omega arith))
  where
    not_nul : {n : ℕ} → suc n ≢ 0
    not_nul h = absurd (omega arith)

abbrev table_layout : ParsedLayout
table_layout = record {
  version = v1;
  endian = little;
  address_offset_size = 2;
  string_offset_size = 4;
  base_address = 0x1000;
  address_count = 2;
  build_id = record { start = 0; end = 0 };
  address_offsets = record { start = 1; end = 5 };
  address_info_offsets = record { start = 0; end = 0 };
  file_table = record { start = 0; end = 0 };
  string_table = record { start = 0; end = 0 };
  function_info = record { start = 0; end = 0 };
  file_count = 0;
}

abbrev table_bytes : List ℕ
table_bytes = 9 ∷ 16 ∷ 0 ∷ 0 ∷ 2 ∷ 9 ∷ []

abbrev starts : ℕ → ℕ
starts zero = 0x1010
starts (suc i) = 0x1200

table_reads : (i : ℕ) → i < 2 → address table_bytes table_layout i ≡ ok (starts i)
unfolding address at read_uint read_u16 read_fixed take_array int_value le_value
table_reads zero h = refl
table_reads (suc zero) h = refl
table_reads (suc (suc i)) h = absurd (omega arith)

starts-sorted : (i j : ℕ) → i ≤ j → j < 2 → starts i ≤ starts j
starts-sorted zero zero h k = omega arith
starts-sorted zero (suc j) h k = omega arith
starts-sorted (suc i) zero h k = absurd (omega arith)
starts-sorted (suc i) (suc j) h k = omega arith

find_address_index-IsLast_example :
    (r : Option ℕ) × (find_address_index table_bytes table_layout 0x11ff ≡ ok r)
    × IsLast 2 starts 0x11ff r
find_address_index-IsLast_example =
    find_address_index-IsLast table_bytes table_layout starts 0x11ff (record {
      inside = omega arith;
      extent = refl;
      width = omega arith;
      reads = table_reads;
      sorted = starts-sorted;
    })

address_offset_width-fits_example :
    (let w = address_offset_width 70000 in
      IsWidth w × (70000 < 256 ^ w) × ((w' : ℕ) → IsWidth w' → 70000 < 256 ^ w' → w ≤ w'))
address_offset_width-fits_example = address_offset_width-fits 70000 (omega arith)
