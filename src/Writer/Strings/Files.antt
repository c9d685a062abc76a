-- ===== src/Writer/Strings/Files.antt =====
-- The file table that the writer interns names the files that it was given.
use mathlib.Core.Path.{subst}
use gsym_rs.Prelude.{
  ℕ, ◌+◌, ◌^◌, ◌<◌, ◌≡◌, refl, sym, ap, ◌∙◌, List, [], ◌∷◌, ◌++◌, length, length-append,
  append_assoc, append-nil, All, arith, Option-cases, inl, inr,
}
use gsym_rs.Error.{ok}
use gsym_rs.Format.{Range}
use gsym_rs.Model.{FileEntry}
use gsym_rs.Reader.Strings.{string_at}
use gsym_rs.Writer.Strings.{StringTable, Find, is_string, new, intern, intern_files}
use gsym_rs.Writer.Strings.ReadBack.{
  Holds, Holds-more, IsNulFree, IsTable, FindsMatches, string_at-Holds, intern-Holds,
}

-- The offsets of a file table, one pair for each file.
abbrev AllHold : List ℕ → List (ℕ × ℕ) → List FileEntry → Type 0
AllHold bytes [] [] = Unit
AllHold bytes [] (file ∷ files) = ⊥
AllHold bytes (offset ∷ offsets) [] = ⊥
AllHold bytes ((directory, basename) ∷ offsets) (file ∷ files) =
    Holds bytes directory file.directory
    × Holds bytes basename file.basename
    × AllHold bytes offsets files

-- What `string_at` reads at the offsets, with the string table somewhere in a file.
abbrev pub NameFiles : (before bytes behind : List ℕ) → List (ℕ × ℕ) → List FileEntry → Type 0
NameFiles before bytes behind [] [] = Unit
NameFiles before bytes behind [] (file ∷ files) = ⊥
NameFiles before bytes behind (offset ∷ offsets) [] = ⊥
NameFiles before bytes behind ((directory, basename) ∷ offsets) (file ∷ files) =
    let all = before ++ (bytes ++ behind) in
    let table : Range = record { start = length before; end = length before + length bytes } in
    (string_at all table directory ≡ ok file.directory)
    × (string_at all table basename ≡ ok file.basename)
    × NameFiles before bytes behind offsets files

abbrev pub IsPath : FileEntry → Type 0
IsPath file = IsNulFree file.directory × IsNulFree file.basename

abbrev Extends : StringTable → StringTable → Type 0
Extends later earlier = (more : List ℕ) × (later.bytes ≡ earlier.bytes ++ more)

Extends-trans : (c b a : StringTable) → Extends c b → Extends b a → Extends c a
Extends-trans c b a (more, p) (more', q) =
    (more' ++ more, p ∙ ap (λ (t : List ℕ). t ++ more) q ∙ append_assoc a.bytes more' more)

Extends-Holds :
    (b a : StringTable) (offset : ℕ) (string : List ℕ)
    → Extends b a
    → Holds a.bytes offset string
    → Holds b.bytes offset string
Extends-Holds b a offset string (more, p) h =
    subst (λ (t : List ℕ). Holds t offset string) (sym p) (Holds-more a.bytes more string offset h)

Extends-size : (b a : StringTable) → Extends b a → length b.bytes < 2 ^ 64 → length a.bytes < 2 ^ 64
Extends-size b a (more, p) h = omega (arith, ap length p, length-append a.bytes more)

module _ (find : Find) where
  intern-Extends :
      (string : List ℕ) (table : StringTable) → Extends ((intern find string table).1) table
  unfolding intern
  intern-Extends string table =
      elim (Option-cases (find table.entries (is_string table.bytes string))) [
        | inl e ↦ rw (e, intern) (string ++ 0 ∷ [], refl)
        | inr (entry, e) ↦ rw (e, intern) ([], sym (append-nil table.bytes))
      ]

  intern_files-Extends :
      (files : List FileEntry) (table : StringTable)
      → Extends ((intern_files find files table).1) table
  unfolding intern_files
  intern_files-Extends [] table = ([], sym (append-nil table.bytes))
  intern_files-Extends (file ∷ files) table =
      let table1 = (intern find file.directory table).1 in
      let table2 = (intern find file.basename table1).1 in
      let table3 = (intern_files find files table2).1 in
      Extends-trans table3 table1 table
        (Extends-trans table3 table2 table1 (intern_files-Extends files table2)
          (intern-Extends file.basename table1))
        (intern-Extends file.directory table)

module _ (find : Find) (sound : FindsMatches find) where
  intern_files-AllHold :
      (files : List FileEntry) (table : StringTable)
      → IsTable table
      → length ((intern_files find files table).1).bytes < 2 ^ 64
      → AllHold ((intern_files find files table).1).bytes ((intern_files find files table).0) files
  unfolding intern_files
  intern_files-AllHold [] table h small = tt
  intern_files-AllHold (file ∷ files) table h small =
      let table1 = (intern find file.directory table).1 in
      let table2 = (intern find file.basename table1).1 in
      let table3 = (intern_files find files table2).1 in
      let later = intern_files-Extends find files table2 in
      let small2 = Extends-size table3 table2 later small in
      let small1 = Extends-size table2 table1 (intern-Extends find file.basename table1) small2 in
      let small0 = Extends-size table1 table (intern-Extends find file.directory table) small1 in
      let (h1, directory, _) = intern-Holds find sound file.directory table h small0 in
      let (h2, basename, more) = intern-Holds find sound file.basename table1 h1 small1 in
      (
        Extends-Holds table3 table2 _ file.directory later
            (Extends-Holds table2 table1 _ file.directory more directory),
        Extends-Holds table3 table2 _ file.basename later basename,
        intern_files-AllHold files table2 h2 small,
      )

AllHold-NameFiles :
    (before bytes behind : List ℕ) (offsets : List (ℕ × ℕ)) (files : List FileEntry)
    → length (before ++ (bytes ++ behind)) < 2 ^ 64
    → All IsPath files
    → AllHold bytes offsets files
    → NameFiles before bytes behind offsets files
AllHold-NameFiles before bytes behind [] [] small clean h = tt
AllHold-NameFiles before bytes behind [] (file ∷ files) small clean h = absurd h
AllHold-NameFiles before bytes behind (offset ∷ offsets) [] small clean h = absurd h
AllHold-NameFiles before bytes behind ((d, b) ∷ offsets) (file ∷ files) small ((cd, cb), clean)
      (hd, hb, h) =
    (
      string_at-Holds before bytes behind file.directory d small cd hd,
      string_at-Holds before bytes behind file.basename b small cb hb,
      AllHold-NameFiles before bytes behind offsets files small clean h,
    )

-- Given a hash table whose `find` returns only matching entries, the offsets that `intern_files`
-- returns for files without a NUL in their names are read back by `string_at` as exactly those names,
-- from the finished table, wherever it stands in a file of addressable size.
pub string_at-intern_files :
    (find : Find)
    → FindsMatches find
    → (files : List FileEntry) (before behind : List ℕ) → All IsPath files
    → length (before ++ (((intern_files find files (new find)).1).bytes ++ behind)) < 2 ^ 64
    → NameFiles before
        ((intern_files find files (new find)).1).bytes
        behind
        ((intern_files find files (new find)).0)
        files
string_at-intern_files find sound files before behind clean small =
    let bytes = ((intern_files find files (new find)).1).bytes in
    AllHold-NameFiles before bytes behind _ files small clean (
      intern_files-AllHold find sound files (new find) start
        (omega (arith, length-append before (bytes ++ behind), length-append bytes behind)))
  where
    start : IsTable (new find)
    start = (([], record { before = []; behind = []; all = refl; place = refl }, refl), tt)
