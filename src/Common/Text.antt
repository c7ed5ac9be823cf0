-- ===== src/Common/Text.antt =====
-- Text as a list of bytes: literals, comparison, search, the numbers of `std::to_string` and
-- `std::hex`, and the lines of `std::getline`.
use Prim.Native.Nat.{ℕ, zero, suc, ◌+◌, ◌-◌, ◌/◌, ◌%◌}
use Prim.Native.Char.{code}
use Prim.Native.String.{String}
use mathlib.Core.Path.{◌≡◌, refl}
use mathlib.Core.Logic.{◌↔◌}
use mathlib.Core.Bool.{Bool, true, false, ◌&&◌, ◌||◌}
use mathlib.Core.List.{List, [], ◌∷◌, ◌++◌}
use native.Mathlib.Omega.{arith}
use osiris_arm.Common.Tests.{◌==◌, ltb, if◌then◌else◌}
use osiris_arm.Common.Int.{ℤ, pos, negsuc}

abbrev pub Bytes : Type 0
Bytes = List ℕ

-- The code points of a literal, which are its bytes where the text is ASCII.
abbrev pub codes : String → Bytes
codes String.[] = []
codes (String.◌∷◌ c s) = code c ∷ codes s

unfoldable pub str_eq : Bytes → Bytes → Bool
str_eq [] [] = true
str_eq [] (c ∷ t) = false
str_eq (c ∷ s) [] = false
str_eq (c ∷ s) (d ∷ t) = c == d && str_eq s t

pub str_eq_iff : (s t : Bytes) → (str_eq s t ≡ true) ↔ (s ≡ t)
unfolding str_eq
str_eq_iff [] [] = ground arith
str_eq_iff [] (c ∷ t) = ground arith
str_eq_iff (c ∷ s) [] = ground arith
str_eq_iff (c ∷ s) (d ∷ t) = ground (arith, str_eq_iff s t)

pub str_eq_refl : (s : Bytes) → str_eq s s ≡ true
str_eq_refl s = (str_eq_iff s s).1 refl

unfoldable pub starts_with : Bytes → Bytes → Bool
starts_with [] s = true
starts_with (c ∷ p) [] = false
starts_with (c ∷ p) (d ∷ s) = c == d && starts_with p s

-- `s.find(p) != std::string::npos`
unfoldable pub contains : Bytes → Bytes → Bool
unfolding starts_with
contains p [] = starts_with p []
contains p (d ∷ s) = starts_with p (d ∷ s) || contains p s

-- The digit of a value below 36, in lower case.
unfoldable pub digit : ℕ → ℕ
digit d = if ltb d 10 then b'0' + d else b'a' + (d - 10)

-- The digits of `n` in a base, before the text `out`; one round of fuel for each digit.
unfoldable pub print_loop : ℕ → ℕ → ℕ → Bytes → Bytes
unfolding digit
print_loop base zero n out = out
print_loop base (suc fuel) n out =
    let rest = print_loop base fuel (n / base) (digit (n % base) ∷ out) in
    if ltb n base then digit n ∷ out else rest

-- `std::to_string` and `std::hex` of an unsigned number below 2 ^ 64: at most 64 digits.
unfoldable pub print : ℕ → ℕ → Bytes
unfolding print_loop
print base n = print_loop base 64 n []

-- `std::to_string` of a signed number
unfoldable pub to_string : ℤ → Bytes
unfolding print
to_string (pos n) = print 10 n
to_string (negsuc n) = b'-' ∷ print 10 (suc n)

-- The lines that `std::getline` reads: a last line counts when it holds a byte.
unfoldable pub lines_from : Bytes → Bytes → List Bytes
lines_from [] [] = []
lines_from (c ∷ cur) [] = (c ∷ cur) ∷ []
lines_from cur (c ∷ s) = if c == b'\n' then cur ∷ lines_from [] s else lines_from (cur ++ c ∷ []) s

unfoldable pub lines : Bytes → List Bytes
unfolding lines_from
lines s = lines_from [] s

-- `os << line << std::endl`, for each of the lines
unfoldable pub unlines : List Bytes → Bytes
unlines [] = []
unlines (l ∷ ls) = l ++ b'\n' ∷ unlines ls
