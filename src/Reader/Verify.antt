-- ===== src/Reader/Verify.antt =====
-- src/reader.rs: `verify` and `decode_all_verified`, which read every record of a file.
pub mod Decodes
use gsym_rs.Prelude.{
  ℕ, zero, suc, ◌-◌, Bool, true, false, not, ◌&&◌, List, [], ◌∷◌, ◌++◌, length, replicate, slice,
  get_elem?, set, Option, none, some, is_nil, ltb, ◌==◌, if◌then◌else◌,
}
use gsym_rs.Error.{invalid_format, Result, ok, err, guard, and_then, ◌>>◌}
use gsym_rs.Model.Function.{Function}
use gsym_rs.Format.Function.{EncodedFunction}
use gsym_rs.Format.Function.Decode as Record
use gsym_rs.Reader.Layout.{ParsedLayout}
use gsym_rs.Reader.Addresses.{address}
use gsym_rs.Reader.Functions.{FunctionRef, file_at, function}
use gsym_rs.Reader.Owned.{validate, decode_validated}

pub record VerifyReport : Type 0 where
  pub functions : ℕ
  pub files : ℕ
  pub strings : ℕ
  pub function_info_bytes : ℕ

-- `memchr_iter(0, ..).count()`.
unfoldable pub count_nul : List ℕ → ℕ
count_nul [] = 0
count_nul (b ∷ bs) = let rest = count_nul bs in if b == 0 then suc rest else rest

abbrev pub is_nul : Option ℕ → Bool
is_nul none = false
is_nul (some b) = b == 0

abbrev pub descends : Option ℕ → ℕ → Bool
descends none address = false
descends (some previous) address = ltb address previous

abbrev or_empty : Option (List ℕ) → List ℕ
or_empty none = []
or_empty (some bs) = bs

module _ (bytes : List ℕ) (l : ParsedLayout) where
  -- `FunctionRef::decode_encoded`.
  unfoldable pub decode_encoded : FunctionRef → Result EncodedFunction
  decode_encoded reference =
      Record.decode reference.raw.bytes l.endian l.string_offset_size reference.raw.range.start

  unfoldable pub check_file_zero : Result (Unit {0})
  check_file_zero =
      if ltb 0 l.file_count
      then and_then (file_at bytes l 0) (λ names.
        guard (is_nil (names.0) && is_nil (names.1))
          (invalid_format "file-table index zero must be empty"))
      else ok tt

  -- The visitor gets the decoded record and the state `S`.
  module _ {S : Type 0} (visitor : EncodedFunction → S → Result S) where
    -- The body of the `for` loop for the address of entry `index`.
    unfoldable pub verify_entry :
        (index start : ℕ) → Option ℕ → List Bool → S → Result (List Bool × S)
    verify_entry index start previous verified state =
        guard (not (descends previous start)) (invalid_format "address table is not sorted")
        >> and_then (function bytes l index) (λ reference.
          and_then (decode_encoded reference) (λ decoded.
            and_then (validate bytes l decoded verified)
              (λ verified'. and_then (visitor decoded state) (λ state'. ok (verified', state')))))

    -- The `for` loop, with the number of entries that are left.
    unfoldable pub verify_loop :
        (left index : ℕ) → Option ℕ → List Bool → S → Result (List Bool × S)
    unfolding verify_entry
    verify_loop zero index previous verified state = ok (verified, state)
    verify_loop (suc left) index previous verified state =
        and_then (address bytes l index) (λ start.
          and_then (verify_entry index start previous verified state)
            (λ after. verify_loop left (suc index) (some start) (after.0) (after.1)))

  -- The loop over the files that no record named.
  unfoldable pub verify_rest : (index : ℕ) → List Bool → Result (Unit {0})
  verify_rest index [] = ok tt
  verify_rest index (true ∷ verified) = verify_rest (suc index) verified
  verify_rest index (false ∷ verified) =
      and_then (file_at bytes l index) (λ _. verify_rest (suc index) verified)

  abbrev pub no_files : List Bool
  no_files = set (replicate l.file_count false) 0 true

  unfoldable pub verify_with :
      {S : Type 0} → (EncodedFunction → S → Result S) → S → Result (VerifyReport × S)
  unfolding verify_loop verify_rest check_file_zero count_nul
  verify_with visitor state =
      guard (is_nul (get_elem? bytes l.string_table.start))
        (invalid_format "GSYM string table does not begin with an empty string")
      >> (check_file_zero
          >> and_then (verify_loop visitor l.address_count 0 none no_files state) (λ after.
            verify_rest 0 (after.0)
            >> ok (
              record {
                functions = l.address_count;
                files = l.file_count;
                strings =
                    count_nul (or_empty (slice bytes l.string_table.start l.string_table.end));
                function_info_bytes = l.function_info.end - l.function_info.start;
              },
              after.1,
            )))

  unfoldable pub verify : Result VerifyReport
  unfolding verify_with
  verify = and_then (verify_with {S = Unit {0}} (λ _ state. ok state) tt) (λ r. ok (r.0))

  abbrev pub push_decoded : EncodedFunction → List Function → Result (List Function)
  push_decoded encoded functions =
      and_then (decode_validated bytes l encoded) (λ f. ok (functions ++ f ∷ []))

  unfoldable pub decode_all_verified : Result (VerifyReport × List Function)
  unfolding verify_with
  decode_all_verified = verify_with push_decoded []
