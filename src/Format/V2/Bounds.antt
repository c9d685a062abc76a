-- ===== src/Format/V2/Bounds.antt =====
-- The layout that the writer chooses has aligned sections, in order, in a file of the stated size.
use mathlib.Core.Path.{subst}
use gsym_rs.Prelude.{
  ℕ, ◌+◌, ◌*◌, ◌%◌, ◌≤◌, ◌≡◌, refl, sym, ap, ◌∙◌, arith, String, Option, ◌==◌, Bool-cases, inl, inr,
  if◌then◌else◌,
}
use gsym_rs.Prelude.Words.{checked_add, checked_mul}
use gsym_rs.Error.{overflow, ok, ok_injective, bind-elim, ok_or-elim}
use gsym_rs.Format.{Range, align_up}
use gsym_rs.Format.Align.{align_up-ok, checked_add-ok, checked_mul-ok, file_table_size-ok}
use gsym_rs.Format.V2.{Header, file_table_size}
use gsym_rs.Format.V2.Sections.{
  WriteLayout, checked_range, uuid_range, directory_end_of, write_layout,
}

-- The sections in file order.
pub record IsPlaced (h : Header) (uuid_size files strings functions : ℕ) (l : WriteLayout)
    : Type 0 where
  pub directory : l.directory_end ≡ 20 + (if uuid_size == 0 then 6 else 7) * 20
  pub behind_uuid : l.directory_end + uuid_size ≤ l.address_offsets.start
  pub aligned : l.address_offsets.start % h.address_offset_size ≡ 0
  pub addresses :
      l.address_offsets.end ≡ l.address_offsets.start + h.address_count * h.address_offset_size
  pub behind_addresses : l.address_offsets.end ≤ l.address_info_offsets.start
  pub info_aligned : l.address_info_offsets.start % 8 ≡ 0
  pub infos : l.address_info_offsets.end ≡ l.address_info_offsets.start + h.address_count * 8
  pub behind_infos : l.address_info_offsets.end ≤ l.file_table.start
  pub files_aligned : l.file_table.start % 4 ≡ 0
  pub behind_files : l.file_table.end ≡ l.string_table.start
  pub file_entries : l.file_table.end ≡ l.file_table.start + (4 + files * 16)
  pub string_size : l.string_table.end ≡ l.string_table.start + strings
  pub behind_strings : l.string_table.end ≤ l.function_info.start
  pub functions_aligned : l.function_info.start % 4 ≡ 0
  pub function_size : l.function_info.end ≡ l.function_info.start + functions
  pub size : l.file_size ≡ l.function_info.end

checked_range-ok :
    (start size : ℕ) (context : String) {r : Range}
    → checked_range start size context ≡ ok r
    → (r.start ≡ start) × (r.end ≡ start + size)
checked_range-ok start size context h =
    ok_or-elim (checked_add start size) (overflow context) _ h λ end e h.
      let same = sym (ok_injective h) in
      (
        ap (λ (r : Range). r.start) same,
        ap (λ (r : Range). r.end) same ∙ checked_add-ok start size e,
      )

uuid_range-ok : (n d : ℕ) {r : Option Range × ℕ} → uuid_range n d ≡ ok r → r.1 ≡ d + n
uuid_range-ok n d h = elim (Bool-cases (n == 0)) [
  | inl none_there ↦
      ap (λ (r : Option Range × ℕ). r.1) (sym (ok_injective (rw none_there at h))) ∙ ground arith
  | inr some_there ↦
      ok_or-elim (checked_add d n) (overflow "v2 UUID section end") _ (rw some_there at h)
        λ end e h. ap (λ (r : Option Range × ℕ). r.1) (sym (ok_injective h)) ∙ checked_add-ok d n e
]

-- Where `write_layout` succeeds, the sections stand in file order behind the directory and the
-- identifier, and none overlaps the next. The address tables and the file table have exactly the room
-- that their entries need and are aligned for them, the other two sections have the sizes asked for,
-- and the file ends with the last section.
pub write_layout-IsPlaced :
    (h : Header) (uuid_size files strings functions : ℕ) {l : WriteLayout}
    → write_layout h uuid_size files strings functions ≡ ok l
    → IsPlaced h uuid_size files strings functions l
unfolding write_layout
write_layout-IsPlaced h u n s f p = bind-elim (uuid_range u (directory_end_of u)) _ p λ r er p.
    ok_or-elim (align_up (r.1) h.address_offset_size) (overflow "v2 address-table alignment") _ p
      λ a ea p.
        ok_or-elim (checked_mul h.address_count h.address_offset_size)
          (overflow "v2 address-table size") _ p
          λ b eb p. bind-elim (checked_range a b "v2 address table") _ p λ ra era p.
            ok_or-elim (align_up ra.end 8) (overflow "v2 address-info alignment") _ p λ c ec p.
              ok_or-elim (checked_mul h.address_count 8) (overflow "v2 address-info size") _ p
                λ d ed p. bind-elim (checked_range c d "v2 address-info table") _ p λ rb erb p.
                  ok_or-elim (align_up rb.end 4) (overflow "v2 file-table alignment") _ p λ g eg p.
                    bind-elim (file_table_size n) _ p λ k ek p.
                      bind-elim (checked_range g k "v2 file table") _ p λ rc erc p.
                        bind-elim (checked_range rc.end s "v2 string table") _ p λ rd erd p.
                          ok_or-elim (align_up rd.end 4) (overflow "v2 FunctionInfo alignment") _ p
                            λ m em p.
                              bind-elim (checked_range m f "v2 FunctionInfo section") _ p
                                λ re ere p.
                                  let start = uuid_range-ok u (directory_end_of u) er in
                                  let (a1, _, a2) = align_up-ok (r.1) h.address_offset_size ea in
                                  let (c1, _, c2) = align_up-ok ra.end 8 ec in
                                  let (g1, _, g2) = align_up-ok rb.end 4 eg in
                                  let (m1, _, m2) = align_up-ok rd.end 4 em in
                                  let b1 =
                                    checked_mul-ok h.address_count h.address_offset_size eb in
                                  let d1 = checked_mul-ok h.address_count 8 ed in
                                  let (pa0, pa1) = checked_range-ok a b _ era in
                                  let (pb0, pb1) = checked_range-ok c d _ erb in
                                  let (pc0, pc1) = checked_range-ok g k _ erc in
                                  let (pd0, pd1) = checked_range-ok rc.end s _ erd in
                                  let (pe0, pe1) = checked_range-ok m f _ ere in
                                  subst (IsPlaced h u n s f) (ok_injective p) (record {
                                    directory = refl;
                                    behind_uuid = omega arith;
                                    aligned = ap (λ (t : ℕ). t % h.address_offset_size) pa0 ∙ a2;
                                    addresses = omega arith;
                                    behind_addresses = omega arith;
                                    info_aligned = ap (λ (t : ℕ). t % 8) pb0 ∙ c2;
                                    infos = omega arith;
                                    behind_infos = omega arith;
                                    files_aligned = ap (λ (t : ℕ). t % 4) pc0 ∙ g2;
                                    behind_files = sym pd0;
                                    file_entries = omega (arith, file_table_size-ok n 16 _ ek);
                                    string_size = omega arith;
                                    behind_strings = omega arith;
                                    functions_aligned = ap (λ (t : ℕ). t % 4) pe0 ∙ m2;
                                    function_size = omega arith;
                                    size = refl;
                                  })
