-- ===== src/Common/Numeral.antt =====
-- `std::stoi` and `std::stoll`: the text is read as `strtol` reads it, and the exceptions for no
-- number and for a number out of range are `none`.
pub mod RoundTrip
use Prim.Native.Nat.{ℕ, ◌+◌, ◌-◌, ◌*◌, ◌^◌}
use mathlib.Core.Bool.{Bool, true, false, ◌&&◌, ◌||◌}
use mathlib.Core.Option.{Option, none, some}
use mathlib.Core.List.{[], ◌∷◌}
use osiris_arm.Common.Tests.{◌==◌, ltb, leb, if◌then◌else◌}
use osiris_arm.Common.Int.{ℤ, pos, negsuc, sub_ℕ, leb_ℤ}
use osiris_arm.Common.Text.{Bytes}

-- the value of a letter or digit in any base
unfoldable pub letter_value : ℕ → ℕ
letter_value c =
    if leb b'0' c && leb c b'9'
    then c - b'0'
    else if leb b'a' c && leb c b'z'
    then c - b'a' + 10
    else if leb b'A' c && leb c b'Z'
    then c - b'A' + 10
    else 36

unfoldable pub is_digit : ℕ → ℕ → Bool
unfolding letter_value
is_digit base c = ltb (letter_value c) base

-- the number that the digits at the front of a text continue
unfoldable pub read_digits : ℕ → ℕ → Bytes → ℕ
unfolding is_digit
read_digits base acc [] = acc
read_digits base acc (c ∷ s) =
    if is_digit base c then read_digits base (acc * base + letter_value c) s else acc

unfoldable pub read_number : ℕ → Bytes → Option ℕ
unfolding read_digits
read_number base [] = none
read_number base (c ∷ s) = if is_digit base c then some (read_digits base 0 (c ∷ s)) else none

-- in base 16, `0x` before a digit is skipped
unfoldable pub skip_prefix : ℕ → Bytes → Bytes
unfolding is_digit
skip_prefix base (z ∷ x ∷ c ∷ s) =
    if base == 16 && z == b'0' && (x == b'x' || x == b'X') && is_digit 16 c
    then c ∷ s
    else z ∷ x ∷ c ∷ s
skip_prefix base s = s

unfoldable pub is_space : ℕ → Bool
is_space c = c == b' ' || (leb 9 c && leb c 13)

unfoldable pub skip_space : Bytes → Bytes
unfolding is_space
skip_space [] = []
skip_space (c ∷ s) = if is_space c then skip_space s else c ∷ s

negated : Option ℕ → Option ℤ
negated none = none
negated (some n) = some (sub_ℕ 0 n)

positive : Option ℕ → Option ℤ
positive none = none
positive (some n) = some (pos n)

unfoldable pub read_signed : ℕ → Bytes → Option ℤ
unfolding read_number skip_prefix negated positive
read_signed base [] = none
read_signed base (c ∷ s) =
    if c == b'-'
    then negated (read_number base (skip_prefix base s))
    else if c == b'+'
    then positive (read_number base (skip_prefix base s))
    else positive (read_number base (skip_prefix base (c ∷ s)))

in_range : ℤ → ℤ → Option ℤ → Option ℤ
in_range lo hi none = none
in_range lo hi (some n) = if leb_ℤ lo n && leb_ℤ n hi then some n else none

-- int is 32 bits wide and long long 64
unfoldable pub stoi : ℕ → Bytes → Option ℤ
unfolding read_signed skip_space in_range
stoi base s = in_range (negsuc (2 ^ 31 - 1)) (pos (2 ^ 31 - 1)) (read_signed base (skip_space s))

unfoldable pub stoll : ℕ → Bytes → Option ℤ
unfolding read_signed skip_space in_range
stoll base s = in_range (negsuc (2 ^ 63 - 1)) (pos (2 ^ 63 - 1)) (read_signed base (skip_space s))
