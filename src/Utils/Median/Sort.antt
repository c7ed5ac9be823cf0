-- ===== src/Utils/Median/Sort.antt =====
-- The sort behind `median` of src/utils.h, its order and its values.
use mathlib.Core.List.{Perm}
use mathlib.Core.List.Perm
use osiris_arm.Common.{
  ℕ, suc, ◌+◌, ◌≡◌, refl, List, [], ◌∷◌, Bool, true, false, Bool-cases, inl, inr, arith, length,
  All, if◌then◌else◌,
}
use osiris_arm.Common.Int.{ℤ, leb_ℤ, ◌≤ℤ◌}
use osiris_arm.Utils.Median.{insert, sort}

abbrev pub IsSorted : List ℤ → Type 0
IsSorted [] = Unit
IsSorted (x ∷ xs) = All (λ y. x ≤ℤ y) xs × IsSorted xs

leb→le : (x y : ℤ) → leb_ℤ x y ≡ true → x ≤ℤ y
leb→le x y h = ground arith

not_leb→le : (x y : ℤ) → leb_ℤ x y ≡ false → y ≤ℤ x
not_leb→le x y h = ground arith

All-below : (x y : ℤ) (ys : List ℤ) → x ≤ℤ y → All (λ z. y ≤ℤ z) ys → All (λ z. x ≤ℤ z) ys
All-below x y [] h t = tt
All-below x y (z ∷ ys) h (hz, t) = (omega arith, All-below x y ys h t)

module _ (P : ℤ → Type 0) where
  pub All-insert : (x : ℤ) (ys : List ℤ) → P x → All P ys → All P (insert x ys)
  unfolding insert
  All-insert x [] h t = (h, tt)
  All-insert x (y ∷ ys) h (hy, t) = elim (Bool-cases (leb_ℤ x y)) [
    | inl e ↦ rw e (h, (hy, t))
    | inr e ↦ rw e (hy, All-insert x ys h t)
  ]

  -- What holds of every value holds of every sorted value.
  pub All-sort : (xs : List ℤ) → All P xs → All P (sort xs)
  unfolding sort
  All-sort [] t = tt
  All-sort (x ∷ xs) (h, t) = All-insert x (sort xs) h (All-sort xs t)

insert-IsSorted : (x : ℤ) (ys : List ℤ) → IsSorted ys → IsSorted (insert x ys)
unfolding insert
insert-IsSorted x [] t = (tt, tt)
insert-IsSorted x (y ∷ ys) (hy, t) = elim (Bool-cases (leb_ℤ x y)) [
  | inl e ↦ rw e ((leb→le x y e, All-below x y ys (leb→le x y e) hy), (hy, t))
  | inr e ↦ rw e (All-insert (λ z. y ≤ℤ z) x ys (not_leb→le x y e) hy, insert-IsSorted x ys t)
]

pub sort-IsSorted : (xs : List ℤ) → IsSorted (sort xs)
unfolding sort
sort-IsSorted [] = tt
sort-IsSorted (x ∷ xs) = insert-IsSorted x (sort xs) (sort-IsSorted xs)

insert-perm : (x : ℤ) (ys : List ℤ) → Perm (insert x ys) (x ∷ ys)
unfolding insert
insert-perm x [] = Perm.refl (x ∷ [])
insert-perm x (y ∷ ys) = elim (Bool-cases (leb_ℤ x y)) [
  | inl e ↦ rw e (Perm.refl (x ∷ y ∷ ys))
  | inr e ↦ rw e (Perm.trans (Perm.cons y (insert-perm x ys)) (Perm.swap x y ys))
]

pub sort-perm : (xs : List ℤ) → Perm (sort xs) xs
unfolding sort
sort-perm [] = Perm.refl []
sort-perm (x ∷ xs) = Perm.trans (insert-perm x (sort xs)) (Perm.cons x (sort-perm xs))

-- How many values pass a test.
unfoldable pub count_if : (ℤ → Bool) → List ℤ → ℕ
count_if p [] = 0
count_if p (x ∷ xs) = (if p x then 1 else 0) + count_if p xs

count_if-insert :
    (p : ℤ → Bool) (x : ℤ) (ys : List ℤ) → count_if p (insert x ys) ≡ count_if p (x ∷ ys)
unfolding insert count_if
count_if-insert p x [] = refl
count_if-insert p x (y ∷ ys) = elim (Bool-cases (leb_ℤ x y)) [
  | inl e ↦ rw e refl
  | inr e ↦ rw e (rw (count_if-insert p x ys) (omega arith))
]

pub count_if-sort : (p : ℤ → Bool) (xs : List ℤ) → count_if p (sort xs) ≡ count_if p xs
unfolding sort count_if
count_if-sort p [] = refl
count_if-sort p (x ∷ xs) = rw (count_if-insert p x (sort xs)) (rw (count_if-sort p xs) refl)

length-insert : (x : ℤ) (ys : List ℤ) → length (insert x ys) ≡ suc (length ys)
unfolding insert
length-insert x [] = refl
length-insert x (y ∷ ys) = ground (arith, length-insert x ys)

pub length-sort : (xs : List ℤ) → length (sort xs) ≡ length xs
unfolding sort
length-sort [] = refl
length-sort (x ∷ xs) = rw (length-insert x (sort xs)) (omega (arith, length-sort xs))
