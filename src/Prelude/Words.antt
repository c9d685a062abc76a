-- ===== src/Prelude/Words.antt =====
-- Arithmetic of `u8`, `u32`, `u64` and `usize`, on a target with 64-bit pointers.
use gsym_rs.Prelude.{ℕ, ◌+◌, ◌-◌, ◌*◌, ◌/◌, ◌^◌, ◌<◌, min, Option, none, some, leb, if◌then◌else◌}

abbrev pub u8_max : ℕ
u8_max = 0xff

abbrev pub u16_max : ℕ
u16_max = 0xffff

abbrev pub u32_max : ℕ
u32_max = 0xffff_ffff

abbrev pub u64_max : ℕ
u64_max = 0xffff_ffff_ffff_ffff

-- `a.checked_add(b)` on `u64` and `usize`.
abbrev pub checked_add : ℕ → ℕ → Option ℕ
checked_add a b = if leb (a + b) u64_max then some (a + b) else none

abbrev pub checked_sub : ℕ → ℕ → Option ℕ
checked_sub a b = if leb b a then some (a - b) else none

abbrev pub checked_mul : ℕ → ℕ → Option ℕ
checked_mul a b = if leb (a * b) u64_max then some (a * b) else none

abbrev pub saturating_add : ℕ → ℕ → ℕ
saturating_add a b = min (a + b) u64_max

abbrev pub saturating_mul : ℕ → ℕ → ℕ
saturating_mul a b = min (a * b) u64_max

-- `a.div_ceil(b)`.
abbrev pub div_ceil : ℕ → ℕ → ℕ
div_ceil a b = (a + b - 1) / b

-- `u32::try_from(a)` and `u8::try_from(a)`, of a value that is not negative.
abbrev pub try_u32 : ℕ → Option ℕ
try_u32 a = if leb a u32_max then some a else none

abbrev pub try_u8 : ℕ → Option ℕ
try_u8 a = if leb a u8_max then some a else none

abbrev pub IsByte : ℕ → Type 0
IsByte b = b < 256

abbrev pub IsU32 : ℕ → Type 0
IsU32 v = v < 2 ^ 32

abbrev pub IsU64 : ℕ → Type 0
IsU64 v = v < 2 ^ 64
