-- ===== src/Conv.antt =====
-- The range-checked conversions of conv/convert_primitives.go. A Go conversion keeps the low bits.
use spv_wallet.Prelude.{
  ℕ, ◌-◌, ◌%◌, ◌≤◌, ◌||◌, Option, none, some, ltb, leb, if◌then◌else◌, ◌≡◌, ◌↔◌, ◌<◌, arith,
}
use spv_wallet.Prelude.Int.{ℤ, pos, negsuc, ltb_ℤ}
use spv_wallet.Prelude.Results.{Result, ok, err}

pub data ConvError : Type 0 where
  invalid_uint32 invalid_uint64 invalid_int invalid_int64 : ConvError

abbrev pub max_uint32 : ℕ
max_uint32 = 4294967295

abbrev pub max_int64 : ℕ
max_int64 = 9223372036854775807

abbrev pub min_int64 : ℤ
min_int64 = negsuc 9223372036854775807

-- `uint32(value)` and `uint64(value)` of a signed value
abbrev pub to_uint32 : ℤ → ℕ
to_uint32 (pos n) = n % 4294967296
to_uint32 (negsuc n) = 4294967295 - n % 4294967296

abbrev pub to_uint64 : ℤ → ℕ
to_uint64 (pos n) = n % 18446744073709551616
to_uint64 (negsuc n) = 18446744073709551615 - n % 18446744073709551616

-- `int64(value)` of an unsigned value
abbrev pub to_int64 : ℕ → ℤ
to_int64 n = if leb n 9223372036854775807 then pos n else negsuc (18446744073709551615 - n)

unfoldable pub int64_to_uint32 : ℤ → Result ConvError ℕ
int64_to_uint32 value =
    if ltb_ℤ value (pos 0) || ltb_ℤ (pos max_uint32) value
    then err invalid_uint32
    else ok (to_uint32 value)

unfoldable pub uint64_to_uint32 : ℕ → Result ConvError ℕ
uint64_to_uint32 value =
    if ltb max_uint32 value then err invalid_uint32 else ok (to_uint32 (pos value))

unfoldable pub uint32_to_int64 : ℕ → ℤ
uint32_to_int64 value = to_int64 value

unfoldable pub uint64_to_int64 : ℕ → Result ConvError ℤ
uint64_to_int64 value = if ltb max_int64 value then err invalid_int64 else ok (to_int64 value)

unfoldable pub int64_to_uint64 : ℤ → Result ConvError ℕ
int64_to_uint64 value = if ltb_ℤ value (pos 0) then err invalid_uint64 else ok (to_uint64 value)

-- `int` has 64 bits.
unfoldable pub int64_to_int : ℤ → Result ConvError ℤ
int64_to_int value =
    if ltb_ℤ value min_int64 || ltb_ℤ (pos max_int64) value then err invalid_int else ok value

unfoldable pub uint64_to_int : ℕ → Result ConvError ℤ
uint64_to_int value = if ltb max_int64 value then err invalid_int else ok (to_int64 value)

unfoldable pub int_to_uint64 : ℤ → Result ConvError ℕ
int_to_uint64 value = if ltb_ℤ value (pos 0) then err invalid_uint64 else ok (to_uint64 value)

unfoldable pub int_to_uint32 : ℤ → Result ConvError ℕ
int_to_uint32 value =
    if ltb_ℤ value (pos 0) || ltb_ℤ (pos max_uint32) value
    then err invalid_uint32
    else ok (to_uint32 value)

-- The pointer to a `VarInt` may be nil.
unfoldable pub var_int_to_int : Option ℕ → Result ConvError ℤ
var_int_to_int none = err invalid_int
var_int_to_int (some i) = if ltb max_int64 i then err invalid_int else ok (to_int64 i)

-- A conversion to 32 unsigned bits succeeds exactly for the numbers that fit, and keeps them.
pub int_to_uint32_iff :
    (value : ℤ) (n : ℕ) → (int_to_uint32 value ≡ ok n) ↔ ((value ≡ pos n) × (n ≤ max_uint32))
unfolding int_to_uint32
int_to_uint32_iff (pos m) n = (λ h. ground arith, λ h. ground arith)
int_to_uint32_iff (negsuc m) n = (λ h. ground arith, λ h. ground arith)

-- A conversion between 64 unsigned and signed bits succeeds exactly for the numbers below 2 ^ 63 and
-- keeps them, and on those the two conversions undo each other.
pub uint64_to_int64_iff :
    (value : ℕ) (z : ℤ)
    → value < 18446744073709551616
    → ((uint64_to_int64 value ≡ ok z) ↔ ((z ≡ pos value) × (value ≤ max_int64)))
      × ((uint64_to_int64 value ≡ ok z) → int64_to_uint64 z ≡ ok value)
unfolding uint64_to_int64 int64_to_uint64
uint64_to_int64_iff value (pos m) b = ((λ h. ground arith, λ h. ground arith), λ h. ground arith)
uint64_to_int64_iff value (negsuc m) b = ((λ h. ground arith, λ h. ground arith), λ h. ground arith)
