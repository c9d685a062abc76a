-- ===== src/Format/V1/Bounds.antt =====
-- The version-1 layout keeps its tables apart and inside the file.
use mathlib.Core.Path.{subst}
use gsym_rs.Prelude.{ℕ, ◌+◌, ◌*◌, ◌%◌, ◌≤◌, ◌≡◌, refl, arith, not, ltb}
use gsym_rs.Prelude.Words.{checked_add, checked_mul}
use gsym_rs.Error.{
  overflow, invalid_format, section_out_of_bounds, ok, ok_injective, guard-elim, ok_or-elim,
}
use gsym_rs.Format.{align_up}
use gsym_rs.Format.Align.{align_up-ok, checked_add-ok, checked_mul-ok}
use gsym_rs.Format.V1.{Header}
use gsym_rs.Format.V1.Sections.{Layout, layout}

-- The tables in file order, the first three aligned for their entries; the address tables have the
-- room for theirs, and where the file table ends is not known before its count is read.
pub record IsLaidOut (h : Header) (input_len : ℕ) (l : Layout) : Type 0 where
  pub behind_header : 48 ≤ l.address_offsets.start
  pub aligned : l.address_offsets.start % h.address_offset_size ≡ 0
  pub addresses :
      l.address_offsets.end ≡ l.address_offsets.start + h.address_count * h.address_offset_size
  pub behind_addresses : l.address_offsets.end ≤ l.address_info_offsets.start
  pub info_aligned : l.address_info_offsets.start % 4 ≡ 0
  pub infos : l.address_info_offsets.end ≡ l.address_info_offsets.start + h.address_count * 4
  pub behind_infos : l.address_info_offsets.end ≤ l.file_table_offset
  pub files_aligned : l.file_table_offset % 4 ≡ 0
  pub behind_files : l.file_table_offset ≤ l.string_table.start
  pub strings : l.string_table.end ≡ l.string_table.start + h.string_table_size
  pub inside : l.string_table.end ≤ input_len
  pub functions : l.function_info_offset ≡ l.string_table.end

-- What `layout` accepts.
pub layout-IsLaidOut :
    (h : Header) (input_len : ℕ) {l : Layout} → layout h input_len ≡ ok l → IsLaidOut h input_len l
unfolding layout
layout-IsLaidOut h n {l = l} e =
    ok_or-elim (align_up 48 h.address_offset_size) (overflow "v1 address-table alignment") _ e
      λ a ea e.
        ok_or-elim (checked_mul h.address_count h.address_offset_size)
          (overflow "v1 address-table size") _ e
          λ b eb e. ok_or-elim (checked_add a b) (overflow "v1 address-table end") _ e λ c ec e.
            ok_or-elim (align_up c 4) (overflow "v1 address-info alignment") _ e λ d ed e.
              ok_or-elim (checked_mul h.address_count 4) (overflow "v1 address-info table size") _ e
                λ f ef e.
                  ok_or-elim (checked_add d f) (overflow "v1 address-info table end") _ e λ g eg e.
                    ok_or-elim (align_up g 4) (overflow "v1 file-table alignment") _ e λ i ei e.
                      ok_or-elim (checked_add h.string_table_offset h.string_table_size)
                        (overflow "v1 string-table end") _ e
                        λ j ej e.
                          guard-elim (not (ltb h.string_table_offset i))
                            (invalid_format "v1 string table overlaps fixed tables") _ e
                            λ t e.
                              guard-elim (not (ltb n j))
                                (section_out_of_bounds 3 h.string_table_offset h.string_table_size
                                  n)
                                _ e
                                λ u e.
                                  let (a1, _, a2) = align_up-ok 48 h.address_offset_size ea in
                                  let (d1, _, d2) = align_up-ok c 4 ed in
                                  let (i1, _, i2) = align_up-ok g 4 ei in
                                  let b1 =
                                    checked_mul-ok h.address_count h.address_offset_size eb in
                                  let f1 = checked_mul-ok h.address_count 4 ef in
                                  let c1 = checked_add-ok a b ec in
                                  let g1 = checked_add-ok d f eg in
                                  let j1 =
                                    checked_add-ok h.string_table_offset h.string_table_size ej in
                                  subst (IsLaidOut h n) (ok_injective e) (record {
                                    behind_header = a1;
                                    aligned = a2;
                                    addresses = omega arith;
                                    behind_addresses = d1;
                                    info_aligned = d2;
                                    infos = omega arith;
                                    behind_infos = i1;
                                    files_aligned = i2;
                                    behind_files = ground arith;
                                    strings = omega arith;
                                    inside = ground arith;
                                    functions = refl;
                                  })
