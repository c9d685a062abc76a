-- ===== src/Writer/Strings/ReadBack.antt =====
-- What was interned is read back from the finished table.
use mathlib.Core.Path.{subst}
use gsym_rs.Prelude.{
  ℕ, suc, ◌+◌, ◌-◌, ◌^◌, ◌<◌, ◌≡◌, ◌≢◌, refl, sym, ap, ◌∙◌, Bool, true, false, ◌&&◌, List, [], ◌∷◌,
  ◌++◌, length, length-append, append_assoc, append-nil, All, All-map, take, drop, slice,
  take-length-append, drop-length-append, Option, none, some, Option-cases, Bool-cases, inl, inr,
  ltb, leb, ◌==◌, arith,
}
use gsym_rs.Error.{ok}
use gsym_rs.Reader.Strings.{position_of_nul, string_at}
use gsym_rs.Writer.Strings.{StringEntry, StringTable, eq_bytes, interned, Find, is_string, intern}

-- `string` stands at the offset, with a NUL behind it.
pub record Holds (bytes : List ℕ) (offset : ℕ) (string : List ℕ) : Type 0 where
  pub before : List ℕ
  pub behind : List ℕ
  pub all : bytes ≡ before ++ (string ++ 0 ∷ behind)
  pub place : length before ≡ offset

abbrev pub IsNulFree : List ℕ → Type 0
IsNulFree string = All (λ b. b ≢ 0) string

-- Every entry stands for a string of its length in the bytes.
abbrev pub IsTable : StringTable → Type 0
IsTable table =
    All
      (λ entry.
        (string : List ℕ) × Holds table.bytes entry.offset string × (length string ≡ entry.len))
      table.entries

-- What the documentation of `HashTable::find` says of an entry that it returns.
abbrev pub FindsMatches : Find → Type 1
FindsMatches find =
    (entries : List StringEntry) (test : StringEntry → Bool) (entry : StringEntry)
    (P : StringEntry → Type 0)
    → find entries test ≡ some entry
    → All P entries
    → (test entry ≡ true) × P entry

pub Holds-more :
    (bytes more string : List ℕ) (offset : ℕ)
    → Holds bytes offset string
    → Holds (bytes ++ more) offset string
Holds-more bytes more string offset h = record {
  before = h.before;
  behind = h.behind ++ more;
  all =
      ap (λ (t : List ℕ). t ++ more) h.all
      ∙ append_assoc h.before (string ++ 0 ∷ h.behind) more
      ∙ ap (λ (t : List ℕ). h.before ++ t) (append_assoc string (0 ∷ h.behind) more);
  place = h.place;
}

pub eq_bytes-ok : (xs ys : List ℕ) → eq_bytes xs ys ≡ true → xs ≡ ys
unfolding eq_bytes
eq_bytes-ok [] [] h = refl
eq_bytes-ok [] (y ∷ ys) h = cc
eq_bytes-ok (x ∷ xs) [] h = cc
eq_bytes-ok (x ∷ xs) (y ∷ ys) h = elim (Bool-cases (x == y)) [
  | inl e ↦
      let first : x ≡ y = ground arith in
      let others = eq_bytes-ok xs ys (rw e at h) in
      ap (λ (a : ℕ). a ∷ xs) first ∙ ap (λ (t : List ℕ). y ∷ t) others
  | inr e ↦ cc (rw e at h)
]

-- A slice of a list in three parts.
slice-middle :
    (xs ys zs : List ℕ) → slice (xs ++ (ys ++ zs)) (length xs) (length xs + length ys) ≡ some ys
slice-middle xs ys zs = rw within (
    ap some (
      ap (λ (n : ℕ). take n (drop (length xs) (xs ++ (ys ++ zs)))) size
      ∙ ap (take (length ys)) (drop-length-append xs (ys ++ zs))
      ∙ take-length-append ys zs))
  where
    within :
        (leb (length xs) (length xs + length ys)
          && leb (length xs + length ys) (length (xs ++ (ys ++ zs))))
        ≡ true
    within = ground (arith, length-append xs (ys ++ zs), length-append ys zs)

    size : length xs + length ys - length xs ≡ length ys
    size = omega arith

interned-Holds :
    (bytes string : List ℕ) (entry : StringEntry)
    → length bytes < 2 ^ 64
    → Holds bytes entry.offset string
    → length string ≡ entry.len
    → interned bytes entry ≡ some string
unfolding interned
interned-Holds bytes string entry small h len =
    rw (fits, interned)
      (ap (λ (n : ℕ). slice bytes n (entry.offset + entry.len)) (sym h.place)
        ∙ ap (λ (n : ℕ). slice bytes (length h.before) n) end
        ∙ ap (λ (t : List ℕ). slice t (length h.before) (length h.before + length string)) h.all
        ∙ slice-middle h.before string (0 ∷ h.behind))
  where
    total : length bytes ≡ length h.before + length (string ++ 0 ∷ h.behind)
    total = ap length h.all ∙ length-append h.before (string ++ 0 ∷ h.behind)

    fits : leb (entry.offset + entry.len) 0xffff_ffff_ffff_ffff ≡ true
    fits = ground (arith, total, length-append string (0 ∷ h.behind), h.place, len)

    end : entry.offset + entry.len ≡ length h.before + length string
    end = omega (arith, h.place, len)

position_of_nul-end :
    (string rest : List ℕ)
    → IsNulFree string
    → position_of_nul (string ++ 0 ∷ rest) ≡ some (length string)
unfolding position_of_nul
position_of_nul-end [] rest h = refl
position_of_nul-end (b ∷ bs) rest (p, h) = ground (arith, position_of_nul-end bs rest h)

-- A string of the table, wherever the table stands in the file.
pub string_at-Holds :
    (before bytes behind string : List ℕ) (offset : ℕ)
    → length (before ++ (bytes ++ behind)) < 2 ^ 64
    → IsNulFree string
    → Holds bytes offset string
    → string_at
        (before ++ (bytes ++ behind))
        (record { start = length before; end = length before + length bytes })
        offset
      ≡ ok string
unfolding string_at
string_at-Holds before bytes behind string offset small clean h =
    rw (fits, inside, cut, position_of_nul-end string h.behind clean, head) refl
  where
    total : length bytes ≡ length h.before + (length string + suc (length h.behind))
    total =
        ap length h.all
        ∙ length-append h.before (string ++ 0 ∷ h.behind)
        ∙ ap (λ (n : ℕ). length h.before + n) (length-append string (0 ∷ h.behind))

    whole : length (before ++ (bytes ++ behind)) ≡ length before + (length bytes + length behind)
    whole =
        length-append before (bytes ++ behind)
        ∙ ap (λ (n : ℕ). length before + n) (length-append bytes behind)

    fits : leb (length before + offset) 0xffff_ffff_ffff_ffff ≡ true
    fits = ground (arith, total, whole, h.place)

    inside : ltb (length before + offset) (length before + length bytes) ≡ true
    inside = ground (arith, total, h.place)

    tail : List ℕ
    tail = string ++ 0 ∷ h.behind

    parts : before ++ (bytes ++ behind) ≡ before ++ h.before ++ (tail ++ behind)
    parts =
        ap (λ (t : List ℕ). before ++ (t ++ behind)) h.all
        ∙ ap (λ (t : List ℕ). before ++ t) (append_assoc h.before tail behind)
        ∙ sym (append_assoc before h.before (tail ++ behind))

    start : length (before ++ h.before) ≡ length before + offset
    start = omega (arith, length-append before h.before, h.place)

    stop : length (before ++ h.before) + length tail ≡ length before + length bytes
    stop = omega (arith, length-append before h.before, total, length-append string (0 ∷ h.behind))

    cut :
        slice (before ++ (bytes ++ behind)) (length before + offset) (length before + length bytes)
        ≡ some tail
    cut =
        ap (λ (t : List ℕ). slice t (length before + offset) (length before + length bytes)) parts
        ∙ ap
            (λ (n : ℕ).
              slice (before ++ h.before ++ (tail ++ behind)) n (length before + length bytes))
            (sym start)
        ∙ ap
            (λ (n : ℕ).
              slice (before ++ h.before ++ (tail ++ behind)) (length (before ++ h.before)) n)
            (sym stop)
        ∙ slice-middle (before ++ h.before) tail behind

    head : slice tail 0 (length string) ≡ some string
    head = ap (λ (n : ℕ). slice tail 0 n) (omega arith) ∙ slice-middle [] string (0 ∷ h.behind)

stored :
    (string : List ℕ) (table : StringTable)
    → Holds (table.bytes ++ (string ++ 0 ∷ [])) (length table.bytes) string
stored string table = record { before = table.bytes; behind = []; all = refl; place = refl }

module _ (find : Find) (sound : FindsMatches find) where
  pub intern-Holds :
      (string : List ℕ) (table : StringTable)
      → IsTable table
      → length table.bytes < 2 ^ 64
      → let (offset, table') = intern find string table in
        IsTable table'
        × Holds table'.bytes offset string
        × ((more : List ℕ) × (table'.bytes ≡ table.bytes ++ more))
  unfolding intern
  intern-Holds string table h small =
      elim (Option-cases (find table.entries (is_string table.bytes string))) [
        | inl e ↦
            rw (e, intern)
              (
                (
                  (string, stored string table, refl),
                  All-map
                      (λ (entry : StringEntry).
                        (s : List ℕ) × Holds (table.bytes ++ (string ++ 0 ∷ [])) entry.offset s
                        × (length s ≡ entry.len))
                      (λ entry k. (
                        k.0,
                        Holds-more table.bytes (string ++ 0 ∷ []) (k.0) entry.offset (k.1),
                        k.2,
                      ))
                      table.entries h,
                ),
                stored string table,
                (string ++ 0 ∷ [], refl),
              )
        | inr (entry, e) ↦
            let (passed, (s, k, len)) =
              sound table.entries (is_string table.bytes string) entry _ e h in
            let same : s ≡ string = eq_bytes-ok s string (
              ap
                (λ (o : Option (List ℕ)). elim o [
                  | none ↦ false
                  | some found ↦ eq_bytes found string
                ])
                (sym (interned-Holds table.bytes s entry small k len))
              ∙ passed) in
            rw (e, intern)
              (h, subst (Holds table.bytes entry.offset) same k, ([], sym (append-nil table.bytes)))
      ]
