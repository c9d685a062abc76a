-- ===== src/Format/V1/Uuid.antt =====
-- src/format/v1.rs: `FixedUuid`, a build identifier in storage of a fixed size.
use gsym_rs.Prelude.{
  ℕ, ◌-◌, ◌≤◌, ◌≡◌, List, ◌++◌, length, replicate, take, ltb, if◌then◌else◌, arith,
}
use gsym_rs.Prelude.Words.{try_u8}
use gsym_rs.Error.{v1_build_id_too_long, Result, ok, err, ok_or, and_then}

abbrev pub max_uuid_size : ℕ
max_uuid_size = 20

pub record FixedUuid : Type 0 where
  pub bytes : List ℕ
  pub len : ℕ

-- The copy over the first bytes of the zeros leaves the zeros behind it.
unfoldable pub new : List ℕ → Result FixedUuid
new uuid =
    if ltb max_uuid_size (length uuid)
    then err (v1_build_id_too_long (length uuid))
    else and_then (ok_or (try_u8 (length uuid)) (v1_build_id_too_long (length uuid))) (λ len.
      ok (record { bytes = uuid ++ replicate (max_uuid_size - length uuid) 0; len = len }))

abbrev pub as_slice : FixedUuid → List ℕ
as_slice uuid = take uuid.len uuid.bytes

pub new-fits :
    (uuid : List ℕ)
    → length uuid ≤ max_uuid_size
    → new uuid
      ≡ ok (record { bytes = uuid ++ replicate (max_uuid_size - length uuid) 0; len = length uuid })
unfolding new
new-fits uuid h = ground arith
