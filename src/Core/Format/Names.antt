-- ===== src/Core/Format/Names.antt =====
-- src/core.cc: the names of the formatted files.
use osiris_arm.Common.{
  ℕ, ◌^◌, ◌<◌, ◌≡◌, ◌≢◌, refl, sym, ap, ◌∙◌, Bytes, codes, List, [], ◌∷◌, ◌++◌, inl, inr,
  Bool-cases, Option, none, some, ◌==◌, if◌then◌else◌, arith, All, All-append, append_assoc,
}
use osiris_arm.Common.Text.{print}
use osiris_arm.Common.Numeral.{read_digits}
use osiris_arm.Common.Numeral.RoundTrip.{IsNumeral, print-IsNumeral, read_digits-print}
use osiris_arm.Utils.Split.{Lacks}
use osiris_arm.Core.Format.{Instruction, no_spaces, name_of, formatted_filename}

-- what stands behind the last `d`
abbrev after_last : ℕ → Bytes → Option Bytes
after_last d [] = none
after_last d (c ∷ s) = elim (after_last d s) [
  | some t ↦ some t
  | none ↦ if c == d then some s else none
]

after_last-none : (d : ℕ) (s : Bytes) → Lacks d s → after_last d s ≡ none
after_last-none d [] h = refl
after_last-none d (c ∷ s) (hc, h) = ground (arith, after_last-none d s h)

after_last-append : (d : ℕ) (s p : Bytes) → Lacks d p → after_last d (s ++ d ∷ p) ≡ some p
after_last-append d [] p h = ground (arith, after_last-none d p h)
after_last-append d (c ∷ s) p h = rw (after_last-append d s p h) refl

print_Lacks : (s : Bytes) → All IsNumeral s → Lacks b'-' s × Lacks b'/' s
print_Lacks [] h = (tt, tt)
print_Lacks (c ∷ s) (hc, h) =
    ((ground arith, (print_Lacks s h).0), (ground arith, (print_Lacks s h).1))

index_Lacks : (n : ℕ) → n < 2 ^ 64 → Lacks b'-' (print 10 n) × Lacks b'/' (print 10 n)
index_Lacks n h =
    print_Lacks (print 10 n) (print-IsNumeral 10 (omega arith) (omega arith) n (omega arith))

print_apart : (i j : ℕ) → i < 2 ^ 64 → j < 2 ^ 64 → print 10 i ≡ print 10 j → i ≡ j
print_apart i j hi hj e =
    sym (read_digits-print 10 (omega arith) (omega arith) i (omega arith))
    ∙ (ap (read_digits 10 0) e ∙ read_digits-print 10 (omega arith) (omega arith) j (omega arith))

index_part :
    (filename : Bytes) (is : List Instruction) (i : ℕ)
    → i < 2 ^ 64
    → after_last b'-' (formatted_filename filename is i) ≡ some (print 10 i)
unfolding formatted_filename
index_part filename is i h =
    let front = no_spaces (name_of filename is) in
    ap (after_last b'-') (sym (append_assoc front (codes "--") (b'-' ∷ print 10 i)))
    ∙ after_last-append b'-' (front ++ codes "--") (print 10 i) (index_Lacks i h).0

same_index :
    (filename filename' : Bytes) (is is' : List Instruction) (i j : ℕ)
    → i < 2 ^ 64
    → j < 2 ^ 64
    → formatted_filename filename is i ≡ formatted_filename filename' is' j
    → i ≡ j
same_index filename filename' is is' i j hi hj e = print_apart i j hi hj (
    value (
      sym (index_part filename is i hi) ∙ (ap (after_last b'-') e ∙ index_part filename' is' j hj)))
  where
    value : {x y : Bytes} → some x ≡ some y → x ≡ y
    value p = cc

-- Formatted files with different indices below 2 ^ 64 have different names, whatever the names and the
-- instructions are.
pub formatted_filename_apart :
    (filename filename' : Bytes) (is is' : List Instruction) (i j : ℕ)
    → i < 2 ^ 64
    → j < 2 ^ 64
    → i ≢ j
    → formatted_filename filename is i ≢ formatted_filename filename' is' j
formatted_filename_apart filename filename' is is' i j hi hj apart e =
    apart (same_index filename filename' is is' i j hi hj e)

-- An instruction whose texts hold no slash.
abbrev pub IsSlashFree : Instruction → Type 0
IsSlashFree i = Lacks b'/' i.mnemonic × Lacks b'/' i.op_str

no_spaces-Lacks : (s : Bytes) → Lacks b'/' s → Lacks b'/' (no_spaces s)
unfolding no_spaces
no_spaces-Lacks [] h = tt
no_spaces-Lacks (c ∷ s) (hc, h) = elim (Bool-cases (c == b' ')) [
  | inl e ↦ rw e ((λ p. absurd (omega arith)), no_spaces-Lacks s h)
  | inr e ↦ rw e (hc, no_spaces-Lacks s h)
]

name_of-Lacks :
    (filename : Bytes) (is : List Instruction)
    → Lacks b'/' filename
    → All IsSlashFree is
    → Lacks b'/' (name_of filename is)
unfolding name_of
name_of-Lacks filename [] h hi = ground arith
name_of-Lacks filename (i ∷ is) h ((hm, ho), _) =
    All-append (λ c. c ≢ b'/') i.mnemonic (b'_' ∷ i.op_str) hm ((λ p. absurd (omega arith)), ho)

pub formatted_filename-Lacks :
    (filename : Bytes) (is : List Instruction) (i : ℕ)
    → i < 2 ^ 64
    → Lacks b'/' filename
    → All IsSlashFree is
    → Lacks b'/' (formatted_filename filename is i)
unfolding formatted_filename
formatted_filename-Lacks filename is i hi h slash_free =
    All-append (λ c. c ≢ b'/') (no_spaces (name_of filename is)) (codes "---" ++ print 10 i)
      (no_spaces-Lacks (name_of filename is) (name_of-Lacks filename is h slash_free))
      (
        (λ p. absurd (omega arith)),
        ((λ p. absurd (omega arith)), ((λ p. absurd (omega arith)), (index_Lacks i hi).1)),
      )
