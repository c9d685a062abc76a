-- ===== src/Format/V1/RoundTrip.antt =====
-- A version-1 header that was written is read back, whatever the byte order of the reader's machine.
use mathlib.Core.Path.{subst}
use gsym_rs.Prelude.{
  ℕ, ◌-◌, ◌≤◌, ◌≡◌, refl, sym, ap, List, [], ◌∷◌, ◌++◌, length, length-append, length-replicate,
  append-nil, take-length-append, replicate, slice, first_chunk, Option, some, arith, not, ltb,
}
use gsym_rs.Prelude.Words.{IsU32, IsU64}
use gsym_rs.Error.{ok, ok_or, guard, invalid_uuid_size, invalid_format}
use gsym_rs.Endian.Order.{Endian, little, big, int_bytes, int_value, le_bytes, le_value}
use gsym_rs.Endian.Cursor.{read_u8, read_u16, read_u32, read_u64, take as read_bytes}
use gsym_rs.Endian.Cursor.Reads.{
  Reads, Reads-fixed, Reads-bind, Reads-check, Reads-guard, Reads-pure, Reads-take, Reads-u8,
  Reads-lift, Reads-cast,
}
use gsym_rs.Format.V1.Uuid.{FixedUuid, new-fits}
use gsym_rs.Format.V1.{Header, read_uuid, detect_endian, read_header, validate_address_offset_size}

-- The values of a header's fields fit their types, and its identifier is one that `new` makes.
pub record IsHeader (h : Header) (uuid : List ℕ) : Type 0 where
  pub size : validate_address_offset_size h.address_offset_size ≡ ok tt
  pub base : IsU64 h.base_address
  pub count : IsU32 h.address_count
  pub strings : IsU32 h.string_table_offset
  pub strings_size : IsU32 h.string_table_size
  pub short : length uuid ≤ 20
  pub same : h.uuid ≡ record { bytes = uuid ++ replicate (20 - length uuid) 0; len = length uuid }

first_four :
    (a b c d : ℕ) (xs : List ℕ) → first_chunk 4 (a ∷ b ∷ c ∷ d ∷ xs) ≡ some (a ∷ b ∷ c ∷ d ∷ [])
first_four a b c d xs = ground arith

pub detect_endian-magic :
    (native e : Endian) (xs : List ℕ)
    → detect_endian native (int_bytes e 4 0x4753_594d ++ xs) ≡ ok e
unfolding detect_endian int_bytes int_value le_bytes le_value
detect_endian-magic little little xs = rw (first_four 77 89 83 71 xs) refl
detect_endian-magic little big xs = rw (first_four 71 83 89 77 xs) refl
detect_endian-magic big little xs = rw (first_four 77 89 83 71 xs) refl
detect_endian-magic big big xs = rw (first_four 71 83 89 77 xs) refl

abbrev fields : Endian → Header → List ℕ → List ℕ
fields e h uuid =
    int_bytes e 2 1
    ++ (h.address_offset_size
        ∷ length uuid
        ∷ (int_bytes e 8 h.base_address
            ++ (int_bytes e 4 h.address_count
                ++ (int_bytes e 4 h.string_table_offset
                    ++ (int_bytes e 4 h.string_table_size
                        ++ (uuid ++ replicate (20 - length uuid) 0))))))

abbrev header_bytes : Endian → Header → List ℕ → List ℕ
header_bytes e h uuid = int_bytes e 4 0x4753_594d ++ fields e h uuid

minus_zero : (n : ℕ) → n - 0 ≡ n
minus_zero n = omega arith

short : (n : ℕ) → n ≤ 20 → guard (not (ltb 20 n)) (invalid_uuid_size n) ≡ ok tt
short n h = ground arith

module _ (e : Endian) (h : Header) (uuid : List ℕ) (v : IsHeader h uuid) where
  padded : List ℕ
  padded = uuid ++ replicate {A = ℕ} (20 - length uuid) 0

  length-padded : length padded ≡ 20
  unfolding padded
  length-padded = omega (
    arith,
    length-append uuid (replicate {A = ℕ} (20 - length uuid) 0),
    length-replicate {A = ℕ} (20 - length uuid) 0,
    v.short,
  )

  stored : slice padded 0 (length uuid) ≡ some uuid
  unfolding padded
  stored = ground (
    arith,
    take-length-append uuid (replicate {A = ℕ} (20 - length uuid) 0),
    length-padded,
    v.short,
    minus_zero (length uuid),
  )

  Reads-uuid :
      Reads e (read_uuid (length uuid)) padded (record { bytes = padded; len = length uuid })
  unfolding read_uuid padded
  Reads-uuid = Reads-cast (append-nil padded) refl (
      Reads-bind {m = read_bytes 20} _
        (subst (λ (n : ℕ). Reads e (read_bytes n) padded padded) length-padded (Reads-take padded))
        (Reads-check
          (ok_or (slice padded 0 (length uuid)) (invalid_format "v1 build ID is truncated")) _ uuid
          (ap (λ (o : Option (List ℕ)). ok_or o (invalid_format "v1 build ID is truncated")) stored)
          (Reads-lift (new-fits uuid v.short))))

  pub Reads-header : Reads e read_header (header_bytes e h uuid) h
  unfolding padded read_header read_u16 read_u32 read_u64
  Reads-header = Reads-bind {m = read_u32} _ (Reads-fixed 4 0x4753_594d (omega arith)) (
      Reads-bind {m = read_u16} _ (Reads-fixed 2 1 (omega arith)) (
        Reads-bind {m = read_u8} _ {ys = length uuid ∷ _} (Reads-u8 h.address_offset_size) (
          Reads-guard (validate_address_offset_size h.address_offset_size) _ v.size (
            Reads-bind {m = read_u8} _ (Reads-u8 (length uuid)) (
              Reads-guard (guard (not (ltb 20 (length uuid))) (invalid_uuid_size (length uuid))) _
                (short (length uuid) v.short)
                (Reads-bind {m = read_u64} _ (Reads-fixed 8 h.base_address (omega (arith, v.base)))
                  (Reads-bind {m = read_u32} _
                    (Reads-fixed 4 h.address_count (omega (arith, v.count)))
                    (Reads-bind {m = read_u32} _
                      (Reads-fixed 4 h.string_table_offset (omega (arith, v.strings)))
                      (Reads-bind {m = read_u32} _
                        (Reads-fixed 4 h.string_table_size (omega (arith, v.strings_size)))
                        (Reads-cast (append-nil padded) refl (
                          Reads-bind {m = read_uuid (length uuid)} _ Reads-uuid (
                            Reads-cast refl
                              (ap (λ (u : FixedUuid). record h { uuid = u }) (sym v.same))
                              (Reads-pure _)))))))))))))
