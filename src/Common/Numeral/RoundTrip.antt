-- ===== src/Common/Numeral/RoundTrip.antt =====
-- `std::stoi` and `std::stoll` on what `std::to_string` and `std::hex` print.
use Prim.Native.Nat.{ℕ, zero, suc, ◌+◌, ◌-◌, ◌*◌, ◌/◌, ◌%◌, ◌^◌, ◌≤◌, ◌<◌}
use mathlib.Core.Path.{◌≡◌, refl, sym, ap, ◌∙◌}
use mathlib.Core.Bool.{true, false, ◌||◌}
use mathlib.Core.Option.{some}
use mathlib.Core.List.{[], ◌∷◌}
use mathlib.Core.Logic.{◌⊎◌, inl, inr}
use native.Mathlib.Omega.{arith}
use native.Mathlib.Nat.{pow-succ', pow-zero}
use osiris_arm.Common.Tests.{◌==◌, ltb, Bool-cases}
use osiris_arm.Common.Lists.{All}
use osiris_arm.Common.Int.{ℤ, pos, negsuc, sub_ℕ, ◌≤ℤ◌}
use osiris_arm.Common.Text.{Bytes, digit, print, print_loop, to_string}
use osiris_arm.Common.Numeral.{
  letter_value, is_digit, read_digits, read_number, skip_prefix, is_space, skip_space, read_signed,
  stoi, stoll,
}

-- A digit of the printing functions: below 16, and no letter in upper case.
abbrev pub IsNumeral : ℕ → Type 0
IsNumeral c = ((b'0' ≤ c) × (c ≤ b'9')) ⊎ ((b'a' ≤ c) × (c ≤ b'f'))

pub letter_value-digit : (d : ℕ) → d < 16 → letter_value (digit d) ≡ d
unfolding letter_value digit
letter_value-digit d h = ground arith

pub digit-IsNumeral : (d : ℕ) → d < 16 → IsNumeral (digit d)
unfolding digit
digit-IsNumeral d h = ground arith

abbrev IsDigit : ℕ → ℕ → Type 0
IsDigit base c = IsNumeral c × (is_digit base c ≡ true)

module _ (base : ℕ) (low : 1 < base) (high : base ≤ 16) where
  pub read_digits_step :
      (acc d : ℕ) (s : Bytes)
      → d < base
      → read_digits base acc (digit d ∷ s) ≡ read_digits base (acc * base + d) s
  unfolding read_digits
  read_digits_step acc d s h = rw (letter_value-digit d (omega arith)) (ground arith)

  div_bound : (n p : ℕ) → n < base * p → n / base < p
  div_bound n p h = grind arith

  read-print_loop :
      (fuel n : ℕ) (out : Bytes)
      → n < base ^ fuel
      → read_digits base 0 (print_loop base fuel n out) ≡ read_digits base n out
  unfolding print_loop
  read-print_loop zero n out h =
      let none_left : n ≡ 0 = omega (arith, pow-zero base) in
      ap (λ m. read_digits base m out) (sym none_left)
  read-print_loop (suc fuel) n out h = elim (Bool-cases (ltb n base)) [
    | inl e ↦
        rw e
          (read_digits_step 0 n out (ground arith) ∙ ap (λ m. read_digits base m out) (omega arith))
    | inr e ↦
        let bound : n < base * base ^ fuel = rw (pow-succ' base fuel) at h in
        rw e (
          read-print_loop fuel (n / base) (digit (n % base) ∷ out) (div_bound n (base ^ fuel) bound)
          ∙ (read_digits_step (n / base) (n % base) out (grind arith)
              ∙ ap (λ m. read_digits base m out) (grind arith)))
  ]

  pub digit-IsDigit : (d : ℕ) → d < base → IsDigit base (digit d)
  unfolding is_digit
  digit-IsDigit d h =
      (digit-IsNumeral d (omega arith), rw (letter_value-digit d (omega arith)) (ground arith))

  print_loop-IsDigit :
      (fuel n : ℕ) (out : Bytes)
      → All (IsDigit base) out
      → All (IsDigit base) (print_loop base fuel n out)
  unfolding print_loop
  print_loop-IsDigit zero n out t = t
  print_loop-IsDigit (suc fuel) n out t = elim (Bool-cases (ltb n base)) [
    | inl e ↦ rw e (digit-IsDigit n (ground arith), t)
    | inr e ↦ rw e (
        print_loop-IsDigit fuel (n / base) (digit (n % base) ∷ out)
          (digit-IsDigit (n % base) (grind arith), t))
  ]

  print_loop_cons :
      (fuel n c : ℕ) (out : Bytes)
      → (d : ℕ) × (rest : Bytes) × (print_loop base fuel n (c ∷ out) ≡ d ∷ rest)
  unfolding print_loop
  print_loop_cons zero n c out = (c, out, refl)
  print_loop_cons (suc fuel) n c out = elim (Bool-cases (ltb n base)) [
    | inl e ↦ (digit n, c ∷ out, rw e refl)
    | inr e ↦ rw e (print_loop_cons fuel (n / base) (digit (n % base)) (c ∷ out))
  ]

  -- a printed number has a first digit
  print_cons : (n : ℕ) → (d : ℕ) × (rest : Bytes) × (print base n ≡ d ∷ rest)
  unfolding print print_loop
  print_cons n = elim (Bool-cases (ltb n base)) [
    | inl e ↦ (digit n, [], rw e refl)
    | inr e ↦ rw e (print_loop_cons 63 (n / base) (digit (n % base)) [])
  ]

  print-IsDigit : (n : ℕ) → All (IsDigit base) (print base n)
  unfolding print
  print-IsDigit n = print_loop-IsDigit 64 n [] tt

  pub read_digits-print : (n : ℕ) → n < base ^ 64 → read_digits base 0 (print base n) ≡ n
  unfolding print
  read_digits-print n h = read-print_loop 64 n [] h ∙ (unfold read_digits in refl)

  pub read_number_cons :
      (d : ℕ) (rest : Bytes)
      → is_digit base d ≡ true
      → read_number base (d ∷ rest) ≡ some (read_digits base 0 (d ∷ rest))
  unfolding read_number
  read_number_cons d rest h = rw h refl

  read_number-print : (n : ℕ) → n < base ^ 64 → read_number base (print base n) ≡ some n
  read_number-print n h =
      let (d, rest, e) = print_cons n in
      let digits : All (IsDigit base) (d ∷ rest) = rw e at (print-IsDigit n) in
      let value : read_digits base 0 (d ∷ rest) ≡ n = rw e at (read_digits-print n h) in
      rw e (read_number_cons d rest digits.0.1 ∙ ap some value)

skip_prefix_lem : (base : ℕ) (s : Bytes) → All IsNumeral s → skip_prefix base s ≡ s
unfolding skip_prefix
skip_prefix_lem base [] t = refl
skip_prefix_lem base (z ∷ []) t = refl
skip_prefix_lem base (z ∷ x ∷ []) t = refl
skip_prefix_lem base (z ∷ x ∷ c ∷ s) (hz, (hx, t)) = rw (no_x x hx) (elim (Bool-cases (z == b'0')) [
  | inl e ↦ rw e (elim (Bool-cases (base == 16)) [ inl b ↦ rw b refl | inr b ↦ rw b refl ])
  | inr e ↦ rw e (elim (Bool-cases (base == 16)) [ inl b ↦ rw b refl | inr b ↦ rw b refl ])
])
  where
    no_x : (x : ℕ) → IsNumeral x → (x == b'x' || x == b'X') ≡ false
    no_x x h = ground arith

pub read_signed-numeral :
    (base c : ℕ) (s : Bytes)
    → All IsNumeral (c ∷ s)
    → (n : ℕ) → read_number base (c ∷ s) ≡ some n
    → read_signed base (skip_space (c ∷ s)) ≡ some (pos n)
unfolding read_signed skip_space
read_signed-numeral base c s t n h =
    let no_space : is_space c ≡ false = blank c t.0 in
    let number : skip_prefix base (c ∷ s) ≡ c ∷ s = skip_prefix_lem base (c ∷ s) t in
    rw no_space (rw (minus c t.0, plus c t.0, number, h) refl)
  where
    blank : (c : ℕ) → IsNumeral c → is_space c ≡ false
    blank c h = ground arith

    minus : (c : ℕ) → IsNumeral c → (c == b'-') ≡ false
    minus c h = ground arith

    plus : (c : ℕ) → IsNumeral c → (c == b'+') ≡ false
    plus c h = ground arith

numerals : (base : ℕ) (s : Bytes) → All (IsDigit base) s → All IsNumeral s
numerals base [] t = tt
numerals base (c ∷ s) (h, t) = (h.0, numerals base s t)

module _ (base : ℕ) (low : 1 < base) (high : base ≤ 16) (n : ℕ) (fits : n < base ^ 64) where
  read_signed-print : read_signed base (skip_space (print base n)) ≡ some (pos n)
  read_signed-print =
      let (d, rest, e) = print_cons base low high n in
      let digits : All (IsDigit base) (d ∷ rest) = rw e at (print-IsDigit base low high n) in
      let value : read_number base (d ∷ rest) ≡ some n =
        rw e at (read_number-print base low high n fits) in
      rw e (read_signed-numeral base d rest (numerals base (d ∷ rest) digits) n value)

  pub print-IsNumeral : All IsNumeral (print base n)
  print-IsNumeral = numerals base (print base n) (print-IsDigit base low high n)

-- A long long that is not negative is read back from its print in hexadecimal.
pub stoll-print : (n : ℕ) → n < 2 ^ 63 → stoll 16 (print 16 n) ≡ some (pos n)
unfolding stoll
stoll-print n h =
    rw (read_signed-print 16 (omega arith) (omega arith) n (omega arith)) (ground arith)

minus_print :
    (n : ℕ) → n < 10 ^ 64 → read_signed 10 (skip_space (b'-' ∷ print 10 n)) ≡ some (sub_ℕ 0 n)
unfolding read_signed skip_space
minus_print n h =
    rw
      (
        skip_prefix_lem 10 (print 10 n) (print-IsNumeral 10 (omega arith) (omega arith) n h),
        read_number-print 10 (omega arith) (omega arith) n h,
      )
      refl

-- An int is read back from what `std::to_string` prints.
pub stoi-to_string :
    (z : ℤ) → negsuc (2 ^ 31 - 1) ≤ℤ z → z ≤ℤ pos (2 ^ 31 - 1) → stoi 10 (to_string z) ≡ some z
unfolding stoi to_string
stoi-to_string (pos n) lo hi =
    rw (read_signed-print 10 (omega arith) (omega arith) n (omega arith)) (ground arith)
stoi-to_string (negsuc n) lo hi = rw (minus_print (suc n) (omega arith)) (ground arith)
