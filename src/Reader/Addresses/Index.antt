-- ===== src/Reader/Addresses/Index.antt =====
-- `find_address_index` on a sorted address table.
use mathlib.Core.Path.{subst}
use native.Mathlib.Nat.{mul-mod_left, mul-div_left}
use gsym_rs.Prelude.{
  ℕ, zero, suc, ◌+◌, ◌-◌, ◌*◌, ◌/◌, ◌%◌, ◌≤◌, ◌<◌, ◌≡◌, ◌⊎◌, refl, sym, ap, ◌∙◌, Bool, true, ◌||◌,
  Bool-cases, inl, inr, List, [], ◌∷◌, length, take, drop, drop-drop, length-take, length-drop,
  slice, Option, none, some, ltb, leb, ◌==◌, arith,
}
use gsym_rs.Prelude.Words.{checked_add, checked_mul, checked_sub}
use gsym_rs.Error.{overflow, ok, ok_or, and_then, bind-elim, ok_or-elim, ok_injective}
use gsym_rs.Endian.Order.{Endian, int_value}
use gsym_rs.Endian.Cursor.{Cursor, at, read_uint, read_fixed, read_u8, read_u16, read_u32, read_u64}
use gsym_rs.Endian.Cursor.Rest.{read_fixed-ok}
use gsym_rs.Format.Align.{checked_add-ok, checked_mul-ok}
use gsym_rs.Reader.Layout.{ParsedLayout}
use gsym_rs.Reader.Addresses.{address, entry_at, search_loop, partition_point, find_address_index}
use gsym_rs.Reader.Addresses.Search.{search_loop-IsBound}

-- A table inside the file, whose entries are the sorted addresses `start`.
pub record IsAddressTable (bytes : List ℕ) (l : ParsedLayout) (start : ℕ → ℕ) : Type 0 where
  pub inside : l.address_offsets.end ≤ length bytes
  pub extent :
      l.address_offsets.end ≡ l.address_offsets.start + l.address_count * l.address_offset_size
  pub width : 1 ≤ l.address_offset_size
  pub reads : (i : ℕ) → i < l.address_count → address bytes l i ≡ ok (start i)
  pub sorted : (i j : ℕ) → i ≤ j → j < l.address_count → start i ≤ start j

module _ {A : Type 0} where
  take-drop-take :
      (w k n : ℕ) (xs : List A) → k + w ≤ n → take w (drop k (take n xs)) ≡ take w (drop k xs)
  take-drop-take zero k n xs h = refl
  take-drop-take (suc w) zero zero xs h = absurd (omega arith)
  take-drop-take (suc w) zero (suc n) [] h = refl
  take-drop-take (suc w) zero (suc n) (x ∷ xs) h =
      ap (λ (t : List A). x ∷ t) (take-drop-take w zero n xs (omega arith))
  take-drop-take (suc w) (suc k) zero xs h = absurd (omega arith)
  take-drop-take (suc w) (suc k) (suc n) [] h = refl
  take-drop-take (suc w) (suc k) (suc n) (x ∷ xs) h = take-drop-take (suc w) k n xs (omega arith)

abbrev is_fixed : ℕ → Bool
is_fixed w = w == 1 || w == 2 || w == 4 || w == 8

-- At these widths `read_uint` is a fixed-width read.
read_uint-fixed : (w : ℕ) (c : Cursor) → is_fixed w ≡ true → read_uint w c ≡ read_fixed w c
unfolding read_uint read_u8 read_u16 read_u32 read_u64
read_uint-fixed w c h = elim (one_of w h) [
  | inl e ↦ subst (λ (k : ℕ). read_uint k c ≡ read_fixed k c) (sym e) refl
  | inr (inl e) ↦ subst (λ (k : ℕ). read_uint k c ≡ read_fixed k c) (sym e) refl
  | inr (inr (inl e)) ↦ subst (λ (k : ℕ). read_uint k c ≡ read_fixed k c) (sym e) refl
  | inr (inr (inr e)) ↦ subst (λ (k : ℕ). read_uint k c ≡ read_fixed k c) (sym e) refl
]
  where
    one_of : (w : ℕ) → is_fixed w ≡ true → (w ≡ 1) ⊎ ((w ≡ 2) ⊎ ((w ≡ 4) ⊎ (w ≡ 8)))
    one_of w h = ground arith

at-ok :
    (bytes : List ℕ) (e : Endian) (position : ℕ) {c : Cursor}
    → at bytes e position ≡ ok c
    → c ≡ record { bytes = bytes; position = position; endian = e }
unfolding at
at-ok bytes e position h = elim (Bool-cases (leb position (length bytes))) [
  | inl p ↦ sym (ok_injective (rw p at h))
  | inr p ↦ cc (rw p at h)
]

module _ (bytes : List ℕ) (l : ParsedLayout) (start : ℕ → ℕ)
    (t : IsAddressTable bytes l start) where
  abbrev table : List ℕ
  table =
      take (l.address_offsets.end - l.address_offsets.start) (drop l.address_offsets.start bytes)

  entry_at-address :
      (i : ℕ)
      → i < l.address_count
      → is_fixed l.address_offset_size ≡ true
      → start i ≡ l.base_address + entry_at l.endian l.address_offset_size table i
  unfolding address
  entry_at-address i h fixed =
      ok_or-elim (checked_mul i l.address_offset_size) (overflow "address table index") _
        (t.reads i h)
        λ a ea e.
          ok_or-elim (checked_add l.address_offsets.start a) (overflow "address table offset") _ e
            λ b eb e. bind-elim (at bytes l.endian b) _ e λ c ec e.
              bind-elim (read_uint l.address_offset_size c) _ e λ r er e.
                let place = at-ok bytes l.endian b ec in
                let value =
                  read_fixed-ok l.address_offset_size c
                    (rw (read_uint-fixed l.address_offset_size c fixed) at er) in
                let sum = last_sum (r.0) e in
                let offset : b ≡ l.address_offsets.start + i * l.address_offset_size =
                  checked_add-ok l.address_offsets.start a eb
                  ∙ ap (λ (n : ℕ). l.address_offsets.start + n)
                      (checked_mul-ok i l.address_offset_size ea) in
                sum
                ∙ ap (λ (v : ℕ). l.base_address + v)
                    (value
                      ∙ ap
                          (λ (d : Cursor).
                            int_value d.endian
                              (take l.address_offset_size (drop d.position d.bytes)))
                          place
                      ∙ ap
                          (λ (n : ℕ).
                            int_value l.endian (take l.address_offset_size (drop n bytes)))
                          offset
                      ∙ ap (λ (xs : List ℕ). int_value l.endian (take l.address_offset_size xs))
                          (sym
                            (drop-drop l.address_offsets.start (i * l.address_offset_size) bytes))
                      ∙ ap (int_value l.endian) (
                          sym (
                            take-drop-take l.address_offset_size (i * l.address_offset_size)
                              (l.address_offsets.end - l.address_offsets.start)
                              (drop l.address_offsets.start bytes)
                              (room i l.address_count l.address_offset_size h t.extent))))
    where
      last_sum :
          (v : ℕ)
          → ok_or (checked_add l.base_address v) (overflow "function address") ≡ ok (start i)
          → start i ≡ l.base_address + v
      last_sum v e = ground arith

      rows : (i n w : ℕ) → i < n → i * w + w ≤ n * w
      rows i n w h = grind arith

      room :
          (i n w : ℕ)
          → i < n
          → l.address_offsets.end ≡ l.address_offsets.start + n * w
          → i * w + w ≤ l.address_offsets.end - l.address_offsets.start
      room i n w h e = omega (arith, rows i n w h)

  length-table : length table ≡ l.address_count * l.address_offset_size
  length-table =
      length-take (l.address_offsets.end - l.address_offsets.start)
        (drop l.address_offsets.start bytes)
      ∙ omega (arith, length-drop l.address_offsets.start bytes, t.inside, t.extent)

  -- Every address is an offset from the base.
  base_below : (i : ℕ) → i < l.address_count → l.base_address ≤ start i
  unfolding address
  base_below i h =
      ok_or-elim (checked_mul i l.address_offset_size) (overflow "address table index") _
        (t.reads i h)
        λ a ea e.
          ok_or-elim (checked_add l.address_offsets.start a) (overflow "address table offset") _ e
            λ b eb e.
              bind-elim (at bytes l.endian b) _ e λ c ec e.
                bind-elim (read_uint l.address_offset_size c) _ e λ r er e. last_sum (r.0) e
    where
      last_sum :
          (v : ℕ)
          → ok_or (checked_add l.base_address v) (overflow "function address") ≡ ok (start i)
          → l.base_address ≤ start i
      last_sum v e = ground arith

-- The last of the first `n` addresses at or below the probe, or none of them.
abbrev pub IsLast : (n : ℕ) (start : ℕ → ℕ) (probe : ℕ) → Option ℕ → Type 0
IsLast n start probe none = (i : ℕ) → i < n → probe < start i
IsLast n start probe (some k) =
    (k < n) × (start k ≤ probe) × ((i : ℕ) → k < i → i < n → probe < start i)

IsBound-IsLast :
    (n : ℕ) (start : ℕ → ℕ) (probe low : ℕ)
    → (low ≤ n)
      × ((i : ℕ) → i < low → start i ≤ probe)
      × ((i : ℕ) → low ≤ i → i < n → probe < start i)
    → IsLast n start probe (checked_sub low 1)
IsBound-IsLast n start probe zero (h, below, above) = λ i p. above i (omega arith) p
IsBound-IsLast n start probe (suc k) (h, below, above) =
    subst (IsLast n start probe) (sym (less k))
      (omega arith, below k (omega arith), λ i p q. above i (omega arith) q)
  where
    less : (k : ℕ) → checked_sub (suc k) 1 ≡ some k
    less k = ground arith

module _ (bytes : List ℕ) (l : ParsedLayout) (start : ℕ → ℕ) (t : IsAddressTable bytes l start)
    (probe : ℕ) (above_base : l.base_address ≤ probe) where
  abbrev n : ℕ
  n = l.address_count

  abbrev entries : List ℕ
  entries =
      take (l.address_offsets.end - l.address_offsets.start) (drop l.address_offsets.start bytes)

  slow :
      (r : ℕ) × (search_loop n
          (λ i. and_then (address bytes l i) (λ found. ok (leb found probe)))
          0
          n
        ≡ ok r)
      × IsLast n start probe (checked_sub r 1)
  slow =
      let (r, run, bound) =
        search_loop-IsBound n probe start
          (λ i. and_then (address bytes l i) (λ found. ok (leb found probe)))
          (λ i h. rw (t.reads i h) refl) t.sorted n 0 n (omega arith) (omega arith) (omega arith)
          (λ i h. absurd (omega arith)) (λ i h k. absurd (omega arith)) in
      (r, run, IsBound-IsLast n start probe r bound)

  fast :
      is_fixed l.address_offset_size ≡ true
      → (r : ℕ) × (partition_point l.endian l.address_offset_size entries (probe - l.base_address)
          ≡ ok r)
        × IsLast n start probe (checked_sub r 1)
  unfolding partition_point
  fast fixed =
      let w = l.address_offset_size in
      let entry = entry_at l.endian w entries in
      let (r, run, (hi, below, above)) =
        search_loop-IsBound n (probe - l.base_address) entry
          (λ i. ok (leb (entry i) (probe - l.base_address))) (λ i h. refl) ordered n 0 n
          (omega arith) (omega arith) (omega arith) (λ i h. absurd (omega arith))
          (λ i h k. absurd (omega arith)) in
      (
        r,
        rw (sized, counted) run,
        IsBound-IsLast n start probe r (
          hi,
          λ i p. omega (arith, below i p, entry_at-address bytes l start t i (omega arith) fixed),
          λ i p q. omega (arith, above i p q, entry_at-address bytes l start t i q fixed),
        ),
      )
    where
      ordered :
          (i j : ℕ)
          → i ≤ j
          → j < n
          → entry_at l.endian l.address_offset_size entries i
            ≤ entry_at l.endian l.address_offset_size entries j
      ordered i j p q = omega (
        arith,
        t.sorted i j p q,
        entry_at-address bytes l start t i (omega arith) fixed,
        entry_at-address bytes l start t j q fixed,
      )

      whole : (m w : ℕ) → 1 ≤ w → (m * w % w ≡ 0) × (m * w / w ≡ m)
      whole m w h = (mul-mod_left m w, mul-div_left m h)

      sized : (l.address_offset_size == 1 || length entries % l.address_offset_size == 0) ≡ true
      sized = ground (arith, length-table bytes l start t, whole n l.address_offset_size t.width)

      counted : length entries / l.address_offset_size ≡ n
      counted =
          ap (λ (k : ℕ). k / l.address_offset_size) (length-table bytes l start t)
          ∙ (whole n l.address_offset_size t.width).1

-- On an address table that lies inside the file and decodes to addresses that never go down, the
-- search in entries of any width succeeds with the index of the last address at or below the one
-- looked up, and with nothing if every address is above it.
pub find_address_index-IsLast :
    (bytes : List ℕ) (l : ParsedLayout) (start : ℕ → ℕ) (probe : ℕ)
    → IsAddressTable bytes l start
    → (r : Option ℕ) × (find_address_index bytes l probe ≡ ok r)
      × IsLast l.address_count start probe r
unfolding find_address_index
find_address_index-IsLast bytes l start probe t =
    elim (Bool-cases (ltb probe l.base_address || l.address_count == 0)) [
      | inl out ↦ (none, rw out refl, λ i h. ground (arith, base_below bytes l start t i h))
      | inr within ↦
          let above_base : l.base_address ≤ probe = ground arith in
          elim (Bool-cases (is_fixed l.address_offset_size)) [
            | inl fixed ↦
                let (r, run, last) = fast bytes l start t probe above_base fixed in
                (checked_sub r 1, rw (within, cut, fixed, run) refl, last)
            | inr odd ↦
                let (r, run, last) = slow bytes l start t probe above_base in
                (checked_sub r 1, rw (within, cut, odd, run) refl, last)
          ]
    ]
  where
    cut :
        slice bytes l.address_offsets.start l.address_offsets.end
        ≡ some (
            take
              (l.address_offsets.end - l.address_offsets.start)
              (drop l.address_offsets.start bytes))
    cut = ground (arith, t.inside, t.extent)
