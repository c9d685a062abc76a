-- ===== src/Format/V2/RoundTrip.antt =====
-- A version-2 header, and an entry of its directory, are read back as they were written.
use gsym_rs.Prelude.{ℕ, ◌^◌, ◌<◌, ◌≡◌, refl, ◌∙◌, List, ◌∷◌, ◌++◌, length, append-nil, arith}
use gsym_rs.Prelude.Words.{IsU32, IsU64}
use gsym_rs.Error.{ok}
use gsym_rs.Endian.Order.{Endian, int_bytes}
use gsym_rs.Endian.Cursor.{read_u32, read_u64}
use gsym_rs.Endian.Cursor.Reads.{Reads, Reads-fixed, Reads-bind, Reads-pure, Reads-cast}
use gsym_rs.Endian.Encoder.{Encoder, len, write_bytes, write_u32, write_u64, write_fixed}
use gsym_rs.Endian.Encoder.Writes.{write_bytes-append, Reads-after, cursor_over}
use gsym_rs.Format.V2.{Header, GlobalData, decode_from, encode_into, validate_address_offset_size}

-- The values of a header's fields fit their types, and the encoder accepts them.
pub record IsHeader (h : Header) : Type 0 where
  pub size : validate_address_offset_size h.address_offset_size ≡ ok tt
  pub encoding : h.string_table_encoding ≡ 0
  pub base : IsU64 h.base_address
  pub count : IsU32 h.address_count

abbrev fields : Endian → Header → List ℕ
fields e h =
    int_bytes e 2 2
    ++ (h.address_offset_size ∷ 0 ∷ (int_bytes e 8 h.base_address ++ int_bytes e 4 h.address_count))

abbrev header_bytes : Endian → Header → List ℕ
header_bytes e h = int_bytes e 4 0x4753_594d ++ fields e h

abbrev entry_bytes : Endian → GlobalData → List ℕ
entry_bytes e d =
    int_bytes e 4 d.section_type ++ (int_bytes e 8 d.file_offset ++ int_bytes e 8 d.file_size)

Reads-entry :
    {e : Endian} (d : GlobalData)
    → IsU32 d.section_type
    → IsU64 d.file_offset
    → IsU64 d.file_size
    → Reads e decode_from (entry_bytes e d) d
unfolding decode_from read_u32 read_u64
Reads-entry d t o s = Reads-bind {m = read_u32} _ (Reads-fixed 4 d.section_type (omega arith)) (
    Reads-bind {m = read_u64} _ (Reads-fixed 8 d.file_offset (omega arith)) (
      Reads-cast (append-nil _) refl
        (Reads-bind {m = read_u64} _ (Reads-fixed 8 d.file_size (omega arith)) (Reads-pure _))))

encode_into-bytes :
    (d : GlobalData) (e : Encoder) → encode_into d e ≡ write_bytes (entry_bytes e.endian d) e
unfolding encode_into write_u32 write_u64 write_fixed
encode_into-bytes d e =
    write_bytes-append (int_bytes e.endian 8 d.file_offset) (int_bytes e.endian 8 d.file_size) _
    ∙ write_bytes-append (int_bytes e.endian 4 d.section_type) _ e

-- Whatever follows it, `decode_from` returns the directory entry that `encode_into` appended, if its
-- fields fit their types, and stops behind it.
pub decode_from-encode_into :
    (d : GlobalData) (e : Encoder) (tail : List ℕ)
    → IsU32 d.section_type
    → IsU64 d.file_offset
    → IsU64 d.file_size
    → length ((encode_into d e).bytes ++ tail) < 2 ^ 64
    → decode_from (cursor_over (encode_into d e) tail (len e))
      ≡ ok (d, cursor_over (encode_into d e) tail (len (encode_into d e)))
decode_from-encode_into d e tail t o s small =
    Reads-after decode_from (entry_bytes e.endian d) e (encode_into d e) tail
      (encode_into-bytes d e) (Reads-entry d t o s) small
