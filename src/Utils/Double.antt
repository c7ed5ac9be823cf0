-- ===== src/Utils/Double.antt =====
-- src/utils.h: the arithmetic of median, on `int64_t` and `double`. A sum of two `int64_t` that is out
-- of range is undefined in C++; here it wraps, as the processor's addition does. A whole number becomes
-- the nearest double, and of two that are as near the one that is even in its last of 53 bits.
use osiris_arm.Common.{
  ℕ, zero, suc, ◌+◌, ◌-◌, ◌*◌, ◌/◌, ◌%◌, ◌^◌, ◌<◌, ◌≡◌, refl, ltb, ◌==◌, ◌&&◌, ◌||◌, if◌then◌else◌,
  arith,
}
use osiris_arm.Common.Int.{ℤ, pos, negsuc, abs, sub_ℕ, half, leb_ℤ}

-- a sum in 64 bits
unfoldable pub wrap_int64 : ℤ → ℤ
wrap_int64 (pos n) = if ltb n (2 ^ 63) then pos n else negsuc (2 ^ 64 - 1 - n)
wrap_int64 (negsuc n) = if ltb n (2 ^ 63) then negsuc n else pos (2 ^ 64 - 1 - n)

-- How many of the last bits do not fit the 53 of a double. As many halvings as `left` are tried; 16 are
-- enough below 2 ^ 69.
unfoldable pub excess_bits : ℕ → ℕ → ℕ
excess_bits zero n = 0
excess_bits (suc left) n =
    let rest = excess_bits left (n / 2) in if ltb n (2 ^ 53) then 0 else rest + 1

-- the nearest multiple of a unit
unfoldable pub round_to : ℕ → ℕ → ℕ
round_to unit n =
    let below = n / unit in
    if ltb (2 * (n % unit)) unit || (2 * (n % unit) == unit && below % 2 == 0)
    then below * unit
    else (below + 1) * unit

unfoldable pub nearest_double : ℕ → ℕ
unfolding excess_bits round_to
nearest_double n = round_to (2 ^ excess_bits 16 n) n

-- `static_cast<double>` of an `int64_t`
unfoldable pub to_double : ℤ → ℤ
unfolding nearest_double
to_double (pos n) = pos (nearest_double n)
to_double (negsuc n) = sub_ℕ 0 (nearest_double (suc n))

unfoldable pub saturate_int64 : ℤ → ℤ
saturate_int64 x =
    if leb_ℤ (pos (2 ^ 63)) x
    then pos (2 ^ 63 - 1)
    else if leb_ℤ x (negsuc (2 ^ 63 - 1))
    then negsuc (2 ^ 63 - 1)
    else x

saturate_int64-exact : (x : ℤ) → abs x < 2 ^ 63 → saturate_int64 x ≡ x
unfolding saturate_int64
saturate_int64-exact (pos n) h = ground arith
saturate_int64-exact (negsuc n) h = ground arith

-- `static_cast<int64_t>` of a double that is given times two: it is cut to a whole number. One out of
-- range is undefined in C++; here it becomes the nearest `int64_t`, as the processor's conversion does.
unfoldable pub from_doubled : ℤ → ℤ
unfolding saturate_int64 half
from_doubled x = saturate_int64 (half x)

pub from_doubled-exact : (x : ℤ) → abs (half x) < 2 ^ 63 → from_doubled x ≡ half x
unfolding from_doubled
from_doubled-exact x h = saturate_int64-exact (half x) h

pub wrap_int64-exact : (x : ℤ) → abs x < 2 ^ 63 → wrap_int64 x ≡ x
unfolding wrap_int64
wrap_int64-exact (pos n) h = ground arith
wrap_int64-exact (negsuc n) h = ground arith

excess_bits_none : (left n : ℕ) → n < 2 ^ 53 → excess_bits left n ≡ 0
unfolding excess_bits
excess_bits_none zero n h = refl
excess_bits_none (suc left) n h = ground arith

round_to_one : (n : ℕ) → round_to 1 n ≡ n
unfolding round_to
round_to_one n = ground arith

nearest_double-exact : (n : ℕ) → n < 2 ^ 53 → nearest_double n ≡ n
unfolding nearest_double
nearest_double-exact n h = rw (excess_bits_none 16 n h) (round_to_one n)

-- Whole numbers below 2 ^ 53 in size are doubles.
pub to_double-exact : (x : ℤ) → abs x < 2 ^ 53 → to_double x ≡ x
unfolding to_double
to_double-exact (pos n) h = rw (nearest_double-exact n h) refl
to_double-exact (negsuc n) h = rw (nearest_double-exact (suc n) h) (ground arith)
