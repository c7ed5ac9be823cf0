-- ===== src/CodeGenerator/Uid.antt =====
-- Instruction UIDs of src/code_generator.cc, made of an index and read.
use osiris_arm.Common.{
  ℕ, suc, ◌+◌, ◌-◌, ◌*◌, ◌/◌, ◌%◌, ◌^◌, ◌≤◌, ◌<◌, ◌≡◌, ◌≢◌, refl, sym, ap, ◌∙◌, Bytes, str_eq,
  str_eq_iff, str_eq_refl, List, [], ◌∷◌, ◌++◌, true, false, ◌⊎◌, inl, inr, Bool-cases, some, ◌==◌,
  ltb, leb, if◌then◌else◌, length, get_elem?, ok, exited, aborted, undefined, ◌>>=◌, arith, All,
  drop-append, length-append, ==_refl, ==_iff, get_elem?-some, get_elem?-none,
}
use osiris_arm.Common.Int.{pos}
use osiris_arm.Common.Text.{print, print_loop, digit}
use osiris_arm.Common.Numeral.{stoi, read_digits}
use osiris_arm.Common.Numeral.RoundTrip.{
  IsNumeral, digit-IsNumeral, read_digits_step, read_signed-numeral, read_number_cons,
  digit-IsDigit,
}
use osiris_arm.CodeGenerator.{
  X86Instruction, CodeGenerator, end_of_hash, generate_instruction_uid, fill_zero,
  instruction_uid_to_instruction_index, create_instruction_from_index,
}

-- The four digits of a number below 2 ^ 16.
abbrev pub hex4 : ℕ → Bytes
hex4 v = digit (v / 4096) ∷ digit (v / 256 % 16) ∷ digit (v / 16 % 16) ∷ digit (v % 16) ∷ []

print_last : (fuel n : ℕ) (out : Bytes) → n < 16 → print_loop 16 (suc fuel) n out ≡ digit n ∷ out
unfolding print_loop
print_last fuel n out h = ground arith

print_more :
    (fuel n : ℕ) (out : Bytes)
    → 16 ≤ n
    → print_loop 16 (suc fuel) n out ≡ print_loop 16 fuel (n / 16) (digit (n % 16) ∷ out)
unfolding print_loop
print_more fuel n out h = let test : ltb n 16 ≡ false = ground arith in rw test refl

print_start : (v : ℕ) → print 16 v ≡ print_loop 16 64 v []
unfolding print
print_start v = refl

fill_one : (v : ℕ) → v < 16 → fill_zero 4 (print 16 v) ≡ hex4 v
unfolding fill_zero digit
fill_one v h = rw (print_start v, print_last 63 v [] h) (ground arith)

fill_two : (v : ℕ) → 16 ≤ v → v < 256 → fill_zero 4 (print 16 v) ≡ hex4 v
unfolding fill_zero digit
fill_two v l h =
    rw
      (
        print_start v,
        print_more 63 v [] l,
        print_last 62 (v / 16) (digit (v % 16) ∷ []) (omega arith),
      )
      (ground arith)

fill_three : (v : ℕ) → 256 ≤ v → v < 4096 → fill_zero 4 (print 16 v) ≡ hex4 v
unfolding fill_zero digit
fill_three v l h =
    rw
      (
        print_start v,
        print_more 63 v [] (omega arith),
        print_more 62 (v / 16) (digit (v % 16) ∷ []) (omega arith),
        print_last 61 (v / 16 / 16) (digit (v / 16 % 16) ∷ digit (v % 16) ∷ []) (omega arith),
      )
      (ground arith)

fill_four : (v : ℕ) → 4096 ≤ v → v < 2 ^ 16 → fill_zero 4 (print 16 v) ≡ hex4 v
unfolding fill_zero digit
fill_four v l h =
    rw
      (
        print_start v,
        print_more 63 v [] (omega arith),
        print_more 62 (v / 16) (digit (v % 16) ∷ []) (omega arith),
        print_more 61 (v / 16 / 16) (digit (v / 16 % 16) ∷ digit (v % 16) ∷ []) (omega arith),
        print_last 60 (v / 16 / 16 / 16)
            (digit (v / 16 / 16 % 16) ∷ digit (v / 16 % 16) ∷ digit (v % 16) ∷ []) (omega arith),
      )
      (ground arith)

-- A number below 2 ^ 16, filled up to four characters, is its four digits.
fill-print : (v : ℕ) → v < 2 ^ 16 → fill_zero 4 (print 16 v) ≡ hex4 v
fill-print v h = elim (Bool-cases (ltb v 16)) [
  | inl a ↦ fill_one v (ground arith)
  | inr a ↦ elim (Bool-cases (ltb v 256)) [
    | inl b ↦ fill_two v (ground arith) (ground arith)
    | inr b ↦ elim (Bool-cases (ltb v 4096)) [
      | inl c ↦ fill_three v (ground arith) (ground arith)
      | inr c ↦ fill_four v (ground arith) h
    ]
  ]
]

hex4-IsNumeral : (v : ℕ) → v < 2 ^ 16 → All IsNumeral (hex4 v)
hex4-IsNumeral v h = (
  digit-IsNumeral (v / 4096) (omega arith),
  (
    digit-IsNumeral (v / 256 % 16) (omega arith),
    (digit-IsNumeral (v / 16 % 16) (omega arith), (digit-IsNumeral (v % 16) (omega arith), tt)),
  ),
)

read-hex4 : (v : ℕ) → v < 2 ^ 16 → read_digits 16 0 (hex4 v) ≡ v
read-hex4 v h =
    let step = read_digits_step 16 (omega arith) (omega arith) in
    step 0 (v / 4096) (digit (v / 256 % 16) ∷ digit (v / 16 % 16) ∷ digit (v % 16) ∷ [])
      (omega arith)
    ∙ (step _ (v / 256 % 16) (digit (v / 16 % 16) ∷ digit (v % 16) ∷ []) (omega arith)
        ∙ (step _ (v / 16 % 16) (digit (v % 16) ∷ []) (omega arith)
            ∙ (step _ (v % 16) [] (omega arith) ∙ finish)))
  where
    finish :
        read_digits 16
          ((((0 * 16 + v / 4096) * 16 + v / 256 % 16) * 16 + v / 16 % 16) * 16 + v % 16)
          []
        ≡ v
    finish = unfold read_digits in omega arith

stoi-hex4 : (v : ℕ) → v < 2 ^ 16 → stoi 16 (hex4 v) ≡ some (pos v)
unfolding stoi
stoi-hex4 v h =
    let member = (digit-IsDigit 16 (omega arith) (omega arith) (v / 4096) (omega arith)).1 in
    let rest = digit (v / 256 % 16) ∷ digit (v / 16 % 16) ∷ digit (v % 16) ∷ [] in
    let number = read_signed-numeral 16 (digit (v / 4096)) rest (hex4-IsNumeral v h) v (
      read_number_cons 16 (omega arith) (omega arith) (digit (v / 4096)) rest member
      ∙ ap some (read-hex4 v h)) in
    rw number (ground arith)

length-hex4 : (v : ℕ) → length (hex4 v) ≡ 4
length-hex4 v = refl

end_of_hash_lem : (start : Bytes) (v : ℕ) → end_of_hash (start ++ hex4 v) ≡ ok (hex4 v)
unfolding end_of_hash
end_of_hash_lem start v =
    let size = length-append start (hex4 v) in
    let keep : length (start ++ hex4 v) - 4 ≡ length start = omega arith in
    let long : ltb (length (start ++ hex4 v)) 4 ≡ false = ground arith in
    rw (long, keep, drop-append start (hex4 v)) refl

hex4-injective : (a b : ℕ) → a < 2 ^ 16 → b < 2 ^ 16 → hex4 a ≡ hex4 b → a ≡ b
hex4-injective a b ha hb e = sym (read-hex4 a ha) ∙ (ap (read_digits 16 0) e ∙ read-hex4 b hb)

str_eq-hex4 : (a b : ℕ) → a < 2 ^ 16 → b < 2 ^ 16 → str_eq (hex4 a) (hex4 b) ≡ (a == b)
str_eq-hex4 a b ha hb = elim (Bool-cases (str_eq (hex4 a) (hex4 b))) [
  | inl e ↦ rw (e, hex4-injective a b ha hb ((str_eq_iff (hex4 a) (hex4 b)).0 e), ==_refl) refl
  | inr e ↦ elim (Bool-cases (a == b)) [
    | inl same ↦
        let eq : a ≡ b = (==_iff a b).0 same in absurd (elim_false (rw (eq, str_eq_refl) at e))
    | inr differ ↦ rw (e, differ) refl
  ]
]
  where
    elim_false : true ≡ false → ⊥
    elim_false e = cc

-- With a hash that ends in the digits of `v`, the UID of an index below 2 ^ 16 is `v` followed by the
-- index, two bytes each, and no other index has a UID.
pub generate_instruction_uid_lem :
    (start : Bytes) (v i : ℕ)
    → v < 2 ^ 16
    → generate_instruction_uid (start ++ hex4 v) i
      ≡ (if leb i 65535 then ok (v * 2 ^ 16 + i) else aborted)
unfolding generate_instruction_uid
generate_instruction_uid_lem [] v i h = rw (end_of_hash_lem [] v, stoi-hex4 v h) (ground arith)
generate_instruction_uid_lem (c ∷ start) v i h =
    rw (end_of_hash_lem (c ∷ start) v, stoi-hex4 v h) (ground arith)

-- Under a hash that ends in the digits of `v`, a UID is taken exactly when its two upper bytes are
-- `v`: the index is then its two lower bytes, and otherwise the program exits with an error.
pub instruction_uid_to_instruction_index_lem :
    (start : Bytes) (v uid : ℕ)
    → v < 2 ^ 16
    → instruction_uid_to_instruction_index (start ++ hex4 v) uid
      ≡ (if uid / 2 ^ 16 % 2 ^ 16 == v then ok (uid % 2 ^ 16) else exited 1)
unfolding instruction_uid_to_instruction_index
instruction_uid_to_instruction_index_lem start v uid h =
    rw (end_of_hash_lem start v, fill-print (uid / 2 ^ 16 % 2 ^ 16) (omega arith))
      (rw (str_eq-hex4 (uid / 2 ^ 16 % 2 ^ 16) v (omega arith) h) refl)

-- Under a hash that ends in the four digits of a number, the UID that is made of an index below 2 ^ 16 is
-- read back as the index.
pub instruction_uid_to_instruction_index-generate_instruction_uid :
    (start : Bytes) (v i : ℕ)
    → v < 2 ^ 16
    → i < 2 ^ 16
    → (generate_instruction_uid (start ++ hex4 v) i
        >>= instruction_uid_to_instruction_index (start ++ hex4 v))
      ≡ ok i
instruction_uid_to_instruction_index-generate_instruction_uid start v i h hi =
    let small : leb i 65535 ≡ true = ground arith in
    let high : ((v * 2 ^ 16 + i) / 2 ^ 16 % 2 ^ 16 == v) ≡ true = ground arith in
    rw (generate_instruction_uid_lem start v i h, small)
      (rw (instruction_uid_to_instruction_index_lem start v (v * 2 ^ 16 + i) h, high)
        (ap ok (omega arith)))

-- The UID that is made of an index below 2 ^ 16 under a hash that ends in the four digits of a number is
-- refused under a hash that ends in those of another: the program exits with an error.
pub generate_instruction_uid_other_file :
    (start start' : Bytes) (v w i : ℕ)
    → v < 2 ^ 16
    → w < 2 ^ 16
    → i < 2 ^ 16
    → v ≢ w
    → (generate_instruction_uid (start ++ hex4 v) i
        >>= instruction_uid_to_instruction_index (start' ++ hex4 w))
      ≡ exited 1
generate_instruction_uid_other_file start start' v w i hv hw hi ne =
    let small : leb i 65535 ≡ true = ground arith in
    let other : ((v * 2 ^ 16 + i) / 2 ^ 16 % 2 ^ 16 == w) ≡ false = ground arith in
    rw (generate_instruction_uid_lem start v i hv, small)
      (rw (instruction_uid_to_instruction_index_lem start' w (v * 2 ^ 16 + i) hw, other) refl)

-- The three cases of CreateInstructionFromIndex: an index in the list gives its instruction, one beyond
-- the size of the list aborts, and the size itself passes the check and is out of bounds.
pub create_instruction_from_index_lem :
    (generator : CodeGenerator) (i : ℕ)
    → let list = generator.instruction_list in
      ((x : X86Instruction) × (get_elem? list i ≡ some x)
        × (create_instruction_from_index generator i ≡ ok x))
      ⊎ (((i ≡ length list) × (create_instruction_from_index generator i ≡ undefined))
          ⊎ ((length list < i) × (create_instruction_from_index generator i ≡ aborted)))
unfolding create_instruction_from_index
create_instruction_from_index_lem generator i = elim (Bool-cases (ltb i (length list))) [
  | inl h ↦
      let (x, e) = get_elem?-some list i (ground arith) in
      let test : ltb (length list) i ≡ false = ground arith in inl (x, e, rw (test, e) refl)
  | inr h ↦ elim (Bool-cases (ltb (length list) i)) [
    | inl test ↦ inr (inr (ground arith, rw test refl))
    | inr test ↦ inr (inl (ground arith, rw (test, get_elem?-none list i (ground arith)) refl))
  ]
]
  where
    list : List X86Instruction
    list = generator.instruction_list
