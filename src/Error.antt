-- ===== src/Error.antt =====
-- src/error.rs: the errors of the format and model layers, and the crate's `Result`.
use gsym_rs.Prelude.{ℕ, String, Bool, true, false, Option, none, some, ◌≡◌, refl, ◌⊎◌, inl, inr}

-- The conversion and I/O variants are left out: the code modelled here does not build them.
-- `malformed` keeps the name of what was parsed and drops the formatted text.
pub data Error : Type 0 where
  unexpected_eof : (offset needed remaining : ℕ) → Error
  overflow : String → Error
  out_of_range : (field : String) (value limit : ℕ) → Error
  function_index_out_of_bounds : (index count : ℕ) → Error
  invalid_magic : ℕ → Error
  unsupported_version : ℕ → Error
  invalid_address_offset_size : (version size : ℕ) → Error
  unsupported_string_table_encoding : ℕ → Error
  invalid_uuid_size : ℕ → Error
  v1_build_id_too_long : ℕ → Error
  missing_section : ℕ → Error
  duplicate_section : ℕ → Error
  zero_sized_section : ℕ → Error
  section_out_of_bounds : (section_type offset size input_len : ℕ) → Error
  invalid_offset : (offset input_len : ℕ) → Error
  invalid_alignment : ℕ → Error
  malformed_uleb : (offset : ℕ) (reason : String) → Error
  malformed_sleb : (offset : ℕ) (reason : String) → Error
  unsupported_info_type : ℕ → Error
  zero_name_offset : Error
  invalid_format : String → Error
  invalid_model : String → Error
  limit : (context : String) (value limit : ℕ) → Error
  malformed : (context : String) → Error
  v1_limit_exceeded : (field : String) (value : ℕ) → Error

pub data Result {ℓ} (A : Type ℓ) : Type ℓ where
  ok : A → Result A
  err : Error → Result A

-- `.ok_or(e)`.
abbrev pub ok_or {ℓ} : {A : Type ℓ} → Option A → Error → Result A
ok_or none e = err e
ok_or (some a) e = ok a

-- `?`: the error ends the function.
infixl 5 ◌>>=◌ ◌>>◌
abbrev pub ◌>>=◌ {ℓ μ} : {A : Type ℓ} {C : Type μ} → Result A → (A → Result C) → Result C
ok value >>= next = next value
err error >>= next = err error

-- The same under a name, for modules that bind reads.
abbrev pub and_then {ℓ κ} : {A : Type ℓ} {B : Type κ} → Result A → (A → Result B) → Result B
and_then m f = m >>= f

-- `if !test { return Err(e) }`.
abbrev pub guard : Bool → Error → Result (Unit {0})
guard true e = ok tt
guard false e = err e

abbrev pub ◌>>◌ {μ} : {C : Type μ} → Result (Unit {0}) → Result C → Result C
check >> next = check >>= λ _. next

abbrev pub map_err {ℓ} : {A : Type ℓ} → (Error → Error) → Result A → Result A
map_err f (ok a) = ok a
map_err f (err e) = err (f e)

-- Where a chain succeeds, so does its first step.
pub and_then-ok {ℓ μ} :
    {A : Type ℓ} {C : Type μ} (first : Result A) (next : A → Result C) {result : C}
    → and_then first next ≡ ok result
    → (value : A) × (first ≡ ok value) × (next value ≡ ok result)
and_then-ok (err error) next h = cc
and_then-ok (ok value) next h = (value, refl, h)

pub and_then-eq {ℓ μ} :
    {A : Type ℓ} {C : Type μ} (first : Result A) (next : A → Result C) {value : A} {result : C}
    → first ≡ ok value
    → next value ≡ ok result
    → and_then first next ≡ ok result
and_then-eq first next {value = value} {result = result} h k = rw h k

pub guard-eq {ℓ} :
    {B : Type ℓ} (test : Bool) (e : Error) (m : Result B) {b : B}
    → test ≡ true
    → m ≡ ok b
    → (guard test e >> m) ≡ ok b
guard-eq test e m h k = rw h k

pub check-eq {ℓ} :
    {B : Type ℓ} (check : Result (Unit {0})) (m : Result B) {b : B}
    → check ≡ ok tt
    → m ≡ ok b
    → (check >> m) ≡ ok b
check-eq check m h k = rw h k

pub Result-cases {ℓ} :
    {A : Type ℓ} (r : Result A) → ((a : A) × (r ≡ ok a)) ⊎ ((e : Error) × (r ≡ err e))
Result-cases (ok a) = inl (a, refl)
Result-cases (err e) = inr (e, refl)

-- A guard that let the rest through.
pub guard-ok {ℓ} :
    {B : Type ℓ} (test : Bool) (e : Error) (m : Result B) {b : B}
    → (guard test e >> m) ≡ ok b
    → (test ≡ true) × (m ≡ ok b)
guard-ok true e m h = (refl, h)
guard-ok false e m h = cc

-- The same to go on from, with each result a variable of its own.
module _ {ℓ κ} {B : Type ℓ} {C : Type κ} {b : B} where
  pub bind-elim {μ} :
      {A : Type μ} (m : Result A) (f : A → Result B)
      → (m >>= f) ≡ ok b
      → ((a : A) → m ≡ ok a → f a ≡ ok b → C)
      → C
  bind-elim (ok a) f h k = k a refl h
  bind-elim (err e) f h k = cc

  pub ok_or-elim {μ} :
      {A : Type μ} (o : Option A) (e : Error) (f : A → Result B)
      → (ok_or o e >>= f) ≡ ok b
      → ((a : A) → o ≡ some a → f a ≡ ok b → C)
      → C
  ok_or-elim none e f h k = cc
  ok_or-elim (some a) e f h k = k a refl h

  pub guard-elim :
      (test : Bool) (e : Error) (m : Result B)
      → (guard test e >> m) ≡ ok b
      → (test ≡ true → m ≡ ok b → C)
      → C
  guard-elim true e m h k = k refl h
  guard-elim false e m h k = cc

-- A check whose error is its own.
pub check-elim {ℓ κ} :
    {B : Type ℓ} {C : Type κ} {b : B} (check : Result (Unit {0})) (m : Result B)
    → (check >> m) ≡ ok b
    → (check ≡ ok tt → m ≡ ok b → C)
    → C
check-elim (ok unit) m h k = k refl h
check-elim (err e) m h k = cc

pub ok_injective {ℓ} : {A : Type ℓ} {a b : A} → ok a ≡ ok b → a ≡ b
ok_injective h = cc

pub guard-true : (test : Bool) (e : Error) → guard test e ≡ ok tt → test ≡ true
guard-true true e h = refl
guard-true false e h = cc
