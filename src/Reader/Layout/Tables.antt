-- ===== src/Reader/Layout/Tables.antt =====
-- The tables of an accepted version-1 file.
use mathlib.Core.Path.{subst}
use gsym_rs.Prelude.{ℕ, ◌+◌, ◌*◌, ◌%◌, ◌≤◌, ◌≡◌, refl, List, length, not, ltb, arith}
use gsym_rs.Prelude.Words.{checked_add}
use gsym_rs.Error.{
  overflow, invalid_format, ok, ok_injective, and_then, and_then-eq, bind-elim, guard-elim,
  ok_or-elim,
}
use gsym_rs.Endian.Order.{Endian}
use gsym_rs.Endian.Cursor.{at, read_u32}
use gsym_rs.Format.Align.{checked_add-ok, file_table_size-ok}
use gsym_rs.Format.V1
use gsym_rs.Format.V1.Bounds.{layout-IsLaidOut}
use gsym_rs.Format.V1.Sections.{layout}
use gsym_rs.Reader.Layout.{ParsedLayout, parse_v1}

-- The tables in file order, and what is behind them.
pub record IsTabled (bytes : List ℕ) (l : ParsedLayout) : Type 0 where
  pub behind_header : 48 ≤ l.address_offsets.start
  pub aligned : l.address_offsets.start % l.address_offset_size ≡ 0
  pub addresses :
      l.address_offsets.end ≡ l.address_offsets.start + l.address_count * l.address_offset_size
  pub behind_addresses : l.address_offsets.end ≤ l.address_info_offsets.start
  pub info_aligned : l.address_info_offsets.start % 4 ≡ 0
  pub infos : l.address_info_offsets.end ≡ l.address_info_offsets.start + l.address_count * 4
  pub behind_infos : l.address_info_offsets.end ≤ l.file_table.start
  pub files_aligned : l.file_table.start % 4 ≡ 0
  pub counted :
      and_then (at bytes l.endian l.file_table.start) (λ c. and_then (read_u32 c) (λ r. ok (r.0)))
      ≡ ok l.file_count
  pub files : l.file_table.end ≡ l.file_table.start + (4 + l.file_count * 8)
  pub behind_files : l.file_table.end ≤ l.string_table.start
  pub strings : l.string_table.start ≤ l.string_table.end
  pub inside : l.string_table.end ≤ length bytes
  pub functions : l.function_info.start ≡ l.string_table.end
  pub to_end : l.function_info.end ≡ length bytes

-- Where `parse_v1` accepts a file, whatever its bytes, the address table, the address-info table, the
-- file table and the string table stand in this order behind the header and inside the file, the first
-- three aligned for their entries and with exactly the room that these need, of the file table as many
-- as its first four bytes say. The function data starts behind the string table and is the rest of the
-- file.
pub parse_v1-IsTabled :
    (native : Endian) (bytes : List ℕ) {l : ParsedLayout}
    → parse_v1 native bytes ≡ ok l
    → IsTabled bytes l
unfolding parse_v1
parse_v1-IsTabled native bytes h = bind-elim (V1.decode native bytes) _ h λ r p h.
    bind-elim (layout (r.0) (length bytes)) _ h λ tables q h.
      bind-elim (at bytes (r.1) tables.file_table_offset) _ h λ files at_files h.
        bind-elim (read_u32 files) _ h λ counted read h.
          bind-elim (V1.file_table_size (counted.0)) _ h λ size sized h.
            ok_or-elim (checked_add tables.file_table_offset size) (overflow "v1 file table end") _
              h
              λ end ended h.
                guard-elim (not (ltb tables.string_table.start end))
                  (invalid_format "v1 file table overlaps string table") _ h
                  λ below h.
                    let laid = layout-IsLaidOut (r.0) (length bytes) q in
                    let room = file_table_size-ok (counted.0) 8 "v1 file-table size" sized in
                    let sum = checked_add-ok tables.file_table_offset size ended in
                    subst (IsTabled bytes) (ok_injective h) (record {
                      behind_header = laid.behind_header;
                      aligned = laid.aligned;
                      addresses = laid.addresses;
                      behind_addresses = laid.behind_addresses;
                      info_aligned = laid.info_aligned;
                      infos = laid.infos;
                      behind_infos = laid.behind_infos;
                      files_aligned = laid.files_aligned;
                      counted =
                          and_then-eq (at bytes (r.1) tables.file_table_offset) _ at_files
                            (and_then-eq (read_u32 files) _ read refl);
                      files = omega arith;
                      behind_files = ground arith;
                      strings = omega (arith, laid.strings);
                      inside = laid.inside;
                      functions = laid.functions;
                      to_end = refl;
                    })
