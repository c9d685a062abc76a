-- ===== src/Format/Function/RoundTrip/Payload.antt =====
-- Payloads behind their lengths: what `write_sized` leaves in the buffer, and a payload read to its end.
use gsym_rs.Prelude.{
  ℕ, String, ◌+◌, ◌-◌, ◌^◌, ◌<◌, ◌≡◌, refl, sym, ap, ◌∙◌, List, [], ◌++◌, length, length-append,
  append_assoc, append-nil, drop, drop-length-append, take-length-append, arith, slice,
}
use gsym_rs.Prelude.Words.{checked_add, checked_sub, try_u32}
use gsym_rs.Error.{Error, Result, ok, bind-elim, ok_or-elim, ok_injective}
use gsym_rs.Endian.Order.{Endian, int_bytes, length-int_bytes}
use gsym_rs.Endian.Cursor as Cursor
use gsym_rs.Endian.Cursor.{Read, read_u32, new}
use gsym_rs.Endian.Cursor.Reads.{Reads}
use gsym_rs.Endian.Encoder.{Encoder, len, write_bytes, write_u32, patch, patch_u32}
use gsym_rs.Endian.Encoder.Appends.{added, Extends, Appends, Appends-u32, Appends-take, len-eq}
use gsym_rs.Format.Function.{to_end, whole}
use gsym_rs.Format.Function.Encode.{write_sized}

-- With anything behind it.
pub whole-Reads :
    {A : Type 0} (m : Read A) (xs ys : List ℕ) (e : Endian) {a : A}
    → Reads e m xs a
    → length (xs ++ ys) < 2 ^ 64
    → whole m (xs ++ ys) e ≡ ok a
whole-Reads m xs ys e r small =
    rw (r.run (new (xs ++ ys) e) ys (record { within = omega arith; small = small }) refl refl) refl

pub whole-to_end :
    {A : Type 0} (error : Error) (m : Read A) (xs : List ℕ) (e : Endian) {a : A}
    → Reads e m xs a
    → length xs < 2 ^ 64
    → whole (to_end error m) xs e ≡ ok a
whole-to_end error m xs e r small =
    rw
      (r.run (new xs e) [] (record { within = omega arith; small = small }) refl
        (sym (append-nil xs)))
      (ground (arith, used_up (length xs)))
  where
    used_up : (n : ℕ) → n - (0 + n) ≡ 0
    used_up n = omega arith

drop_front : (xs ys : List ℕ) (n : ℕ) → n ≡ length xs → drop n (xs ++ ys) ≡ ys
drop_front xs ys n h = ap (λ (k : ℕ). drop k (xs ++ ys)) h ∙ drop-length-append xs ys

-- A patch of the bytes `ys` behind `xs`.
patched :
    (xs ys zs value : List ℕ)
    → length value ≡ length ys
    → patch (length xs) value (xs ++ (ys ++ zs)) ≡ xs ++ (value ++ zs)
unfolding patch
patched xs ys zs value h =
    ap (λ (t : List ℕ). t ++ value ++ drop (length xs + length value) (xs ++ (ys ++ zs)))
      (take-length-append xs (ys ++ zs))
    ∙ ap (λ (t : List ℕ). xs ++ value ++ t)
        (ap (drop (length xs + length value)) (sym (append_assoc xs ys zs))
          ∙ drop_front (xs ++ ys) zs (length xs + length value)
              (omega (arith, length-append xs ys)))
    ∙ append_assoc xs value zs

patch_u32-ok :
    (xs ys zs : List ℕ) (v : ℕ) (p : Encoder) {out' : Encoder}
    → length ys ≡ 4
    → p.bytes ≡ xs ++ (ys ++ zs)
    → patch_u32 (length xs) v p ≡ ok out'
    → out' ≡ record p { bytes = xs ++ (int_bytes p.endian 4 v ++ zs) }
unfolding patch_u32
patch_u32-ok xs ys zs v p four e h =
    ok_or-elim (checked_add (length xs) (length (int_bytes p.endian 4 v))) _ _ h λ end sum h.
      ok_or-elim (slice p.bytes (length xs) end) _ _ h λ there inside h.
        sym (ok_injective h)
        ∙ ap (λ (t : List ℕ). record p { bytes = t })
            (ap (patch (length xs) (int_bytes p.endian 4 v)) e
              ∙ patched xs ys zs (int_bytes p.endian 4 v)
                  (length-int_bytes p.endian 4 v ∙ sym four))

-- A sized payload: the payload written on its own, and its length and bytes as they are read.
pub record Sized (payload : Encoder → Result Encoder) (out out' : Encoder) : Type 0 where
  pub start : Encoder
  pub end : Encoder
  pub bytes : List ℕ
  pub order : start.endian ≡ out.endian
  pub ran : payload start ≡ ok end
  pub same : bytes ≡ added start end
  pub header : Appends read_u32 (length bytes) out (write_u32 (length bytes) out)
  pub body : Appends (Cursor.take (length bytes)) bytes (write_u32 (length bytes) out) out'
  pub small : length bytes < 2 ^ 64

patched-Sized :
    (payload : Encoder → Result Encoder) (out p : Encoder) (n m : ℕ) {out' : Encoder}
    → payload (write_u32 0 out) ≡ ok p
    → Extends (write_u32 0 out) p
    → len p ≡ len (write_u32 0 out) + n
    → m ≡ n
    → m < 2 ^ 32
    → patch_u32 (len out) m p ≡ ok out'
    → Sized payload out out'
unfolding write_u32 write_bytes
patched-Sized payload out p n m {out' = out'} ran extends size same small h =
    let e = out.endian in
    let start = write_u32 0 out in
    let xs = added start p in
    let zeros = int_bytes e 4 0 in
    let count : m ≡ length xs = omega (arith, len-eq xs start p extends) in
    let bytes : p.bytes ≡ out.bytes ++ (zeros ++ xs) =
      ap (λ (o : Encoder). o.bytes) extends ∙ append_assoc out.bytes zeros xs in
    let order : p.endian ≡ e = ap (λ (o : Encoder). o.endian) extends in
    let result : out' ≡ write_bytes xs (write_u32 (length xs) out) =
      patch_u32-ok out.bytes zeros xs m p (length-int_bytes e 4 0) bytes h
      ∙ ap (λ (d : Endian). record { bytes = out.bytes ++ (int_bytes d 4 m ++ xs); endian = d })
          order
      ∙ ap (λ (k : ℕ). record out { bytes = out.bytes ++ (int_bytes e 4 k ++ xs) }) count
      ∙ ap (λ (t : List ℕ). record out { bytes = t })
          (sym (append_assoc out.bytes (int_bytes e 4 (length xs)) xs)) in
    record {
      start = start;
      end = p;
      bytes = xs;
      order = refl;
      ran = ran;
      same = refl;
      header = Appends-u32 out (length xs) (omega arith);
      body = Appends-take (write_u32 (length xs) out) xs result;
      small = omega arith;
    }

pub write_sized-ok :
    (length_context context : String) (payload : Encoder → Result Encoder) (out : Encoder)
    {out' : Encoder}
    → ((start : Encoder) (end : Encoder) → payload start ≡ ok end → Extends start end)
    → write_sized length_context context payload out ≡ ok out'
    → Sized payload out out'
unfolding write_sized
write_sized-ok lc c payload out {out' = out'} grows h =
    bind-elim (payload (write_u32 0 out)) _ h λ p ran h.
      ok_or-elim (checked_sub (len p) (len (write_u32 0 out))) _ _ h λ n diff h.
        ok_or-elim (try_u32 n) _ _ h λ m fits h.
          patched-Sized payload out p n m ran (grows (write_u32 0 out) p ran) (ground arith)
            (ground arith) (ground arith) h
