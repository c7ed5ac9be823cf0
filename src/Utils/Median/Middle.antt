-- ===== src/Utils/Median/Middle.antt =====
-- What `median` of src/utils.h returns.
use osiris_arm.Common.{
  ℕ, zero, suc, ◌+◌, ◌-◌, ◌*◌, ◌/◌, ◌%◌, ◌^◌, ◌∙◌, ◌≤◌, ◌<◌, ◌≡◌, ◌≢◌, refl, ap, List, [], ◌∷◌,
  Bool, true, Bool-cases, inl, inr, arith, length, All, ◌==◌,
}
use osiris_arm.Common.Int.{ℤ, leb_ℤ, ◌≤ℤ◌, ◌+ℤ◌, abs, abs_parts, pos, negsuc, int_laws}
use osiris_arm.Utils.Double.{wrap_int64, to_double, wrap_int64-exact, to_double-exact}
use osiris_arm.Utils.Median.{sort, at, middle, median}
use osiris_arm.Utils.Median.Sort.{
  IsSorted, All-sort, sort-IsSorted, count_if, count_if-sort, length-sort,
}

at-All : (P : ℤ → Type 0) (xs : List ℤ) (i : ℕ) → i < length xs → All P xs → P (at xs i)
at-All P [] i h t = absurd (omega arith)
at-All P (x ∷ xs) zero h t = t.0
at-All P (x ∷ xs) (suc i) h t = at-All P xs i (omega arith) t.1

-- sorted values rise with the index
at-mono : (xs : List ℤ) (i j : ℕ) → IsSorted xs → i ≤ j → j < length xs → at xs i ≤ℤ at xs j
at-mono [] i j s h l = absurd (omega arith)
at-mono (x ∷ xs) zero zero s h l = omega arith
at-mono (x ∷ xs) zero (suc j) s h l = at-All (λ y. x ≤ℤ y) xs j (omega arith) s.0
at-mono (x ∷ xs) (suc i) zero s h l = absurd (omega arith)
at-mono (x ∷ xs) (suc i) (suc j) s h l = at-mono xs i j s.1 (omega arith) (omega arith)

-- all values up to an index pass a test if they do so one by one, so that many are counted
count_prefix :
    (p : ℤ → Bool) (xs : List ℤ) (i : ℕ)
    → i ≤ length xs
    → ((j : ℕ) → j < i → p (at xs j) ≡ true)
    → i ≤ count_if p xs
unfolding count_if
count_prefix p xs zero h all = omega arith
count_prefix p [] (suc i) h all = absurd (omega arith)
count_prefix p (x ∷ xs) (suc i) h all =
    rw (all 0 (omega arith))
      (omega (arith, count_prefix p xs i (omega arith) (λ j l. all (suc j) (omega arith))))

count_suffix :
    (p : ℤ → Bool) (xs : List ℤ) (i : ℕ)
    → ((j : ℕ) → i ≤ j → j < length xs → p (at xs j) ≡ true)
    → length xs ≤ i + count_if p xs
unfolding count_if
count_suffix p [] i all = omega arith
count_suffix p (x ∷ xs) zero all =
    rw (all 0 (omega arith) (omega arith))
      (omega (arith, count_suffix p xs zero (λ j h l. all (suc j) (omega arith) (omega arith))))
count_suffix p (x ∷ xs) (suc i) all =
    omega (arith, count_suffix p xs i (λ j h l. all (suc j) (omega arith) (omega arith)))

-- `2 * x <= m` and `m <= 2 * x`
abbrev pub at_most : ℤ → ℤ → Bool
at_most m x = leb_ℤ (x +ℤ x) m

abbrev pub at_least : ℤ → ℤ → Bool
at_least m x = leb_ℤ m (x +ℤ x)

le→leb : (x y : ℤ) → x ≤ℤ y → leb_ℤ x y ≡ true
le→leb x y h = ground arith

twice_le : (a b c : ℤ) → a ≤ℤ b → a ≤ℤ c → a +ℤ a ≤ℤ b +ℤ c
twice_le a b c h k = omega int_laws

le_twice : (a b c : ℤ) → b ≤ℤ a → c ≤ℤ a → b +ℤ c ≤ℤ a +ℤ a
le_twice a b c h k = omega int_laws

-- A value that has no more bits than a double, and whose sum with another has not either.
abbrev pub IsExact : ℤ → Type 0
IsExact x = abs x < 2 ^ 52

abs_add : (a b : ℤ) → abs (a +ℤ b) ≤ abs a + abs b
unfolding ◌+ℤ◌
abs_add (pos a) (pos b) = ground arith
abs_add (pos a) (negsuc b) = ground arith
abs_add (negsuc a) (pos b) = ground arith
abs_add (negsuc a) (negsuc b) = ground arith

sum_exact : (a b : ℤ) → IsExact a → IsExact b → to_double (wrap_int64 (a +ℤ b)) ≡ a +ℤ b
sum_exact a b ha hb =
    let small : abs (a +ℤ b) < 2 ^ 53 = omega (arith, abs_add a b) in
    ap to_double (wrap_int64-exact (a +ℤ b) (omega arith)) ∙ to_double-exact (a +ℤ b) small

twice_exact : (a : ℤ) → IsExact a → to_double a +ℤ to_double a ≡ a +ℤ a
twice_exact a h = ap (λ x. x +ℤ x) (to_double-exact a (omega arith))

-- An odd number of values has one middle index, so both cases are the sum of two values.
middle_lem :
    (xs : List ℤ)
    → 0 < length xs
    → All IsExact xs
    → middle xs ≡ at xs ((length xs - 1) / 2) +ℤ at xs (length xs / 2)
unfolding middle
middle_lem xs full exact =
    let high = at-All IsExact xs (length xs / 2) (omega arith) exact in
    elim (Bool-cases (length xs % 2 == 0)) [
      | inl e ↦ rw e (
          sum_exact (at xs ((length xs - 1) / 2)) (at xs (length xs / 2))
            (at-All IsExact xs ((length xs - 1) / 2) (omega arith) exact) high)
      | inr e ↦ rw e (
          twice_exact (at xs (length xs / 2)) high
          ∙ ap (λ i. at xs i +ℤ at xs (length xs / 2)) (ground arith))
    ]

module _ (xs : List ℤ) (s : IsSorted xs) (full : 0 < length xs) (exact : All IsExact xs) where
  middle_low : (j : ℕ) → j < suc ((length xs - 1) / 2) → at_most (middle xs) (at xs j) ≡ true
  middle_low j h = rw (middle_lem xs full exact) (
      le→leb (at xs j +ℤ at xs j) (at xs ((length xs - 1) / 2) +ℤ at xs (length xs / 2)) (
        twice_le (at xs j) (at xs ((length xs - 1) / 2)) (at xs (length xs / 2))
          (at-mono xs j ((length xs - 1) / 2) s (omega arith) (omega arith))
          (at-mono xs j (length xs / 2) s (omega arith) (omega arith))))

  middle_high : (j : ℕ) → length xs / 2 ≤ j → j < length xs → at_least (middle xs) (at xs j) ≡ true
  middle_high j h l = rw (middle_lem xs full exact) (
      le→leb (at xs ((length xs - 1) / 2) +ℤ at xs (length xs / 2)) (at xs j +ℤ at xs j) (
        le_twice (at xs j) (at xs ((length xs - 1) / 2)) (at xs (length xs / 2))
          (at-mono xs ((length xs - 1) / 2) j s (omega arith) l)
          (at-mono xs (length xs / 2) j s h l)))

  middle_halves :
      (length xs ≤ 2 * count_if (at_most (middle xs)) xs)
      × (length xs ≤ 2 * count_if (at_least (middle xs)) xs)
  middle_halves =
      let low =
        count_prefix (at_most (middle xs)) xs (suc ((length xs - 1) / 2)) (omega arith)
          middle_low in
      let high = count_suffix (at_least (middle xs)) xs (length xs / 2) middle_high in
      (omega arith, omega arith)

-- Of values below 2 ^ 52 in size, at least half are at most the median, and at least half are at
-- least the median.
pub median_halves :
    (xs : List ℤ)
    → All IsExact xs
    → (length xs ≤ 2 * count_if (at_most (median xs)) xs)
      × (length xs ≤ 2 * count_if (at_least (median xs)) xs)
unfolding median
median_halves [] h = (omega arith, omega arith)
median_halves (x ∷ xs) h =
    let s = sort (x ∷ xs) in
    let size = length-sort (x ∷ xs) in
    let halves =
      middle_halves s (sort-IsSorted (x ∷ xs)) (omega arith) (All-sort IsExact (x ∷ xs) h) in
    (
      omega (arith, count_if-sort (at_most (middle s)) (x ∷ xs)),
      omega (arith, count_if-sort (at_least (middle s)) (x ∷ xs)),
    )

abs_between : (lo hi x : ℤ) → IsExact lo → IsExact hi → (lo ≤ℤ x) × (x ≤ℤ hi) → IsExact x
abs_between lo hi (pos x) l u h = omega (arith, abs_parts hi)
abs_between lo hi (negsuc x) l u h = omega (arith, abs_parts lo)

between-IsExact :
    (lo hi : ℤ) (xs : List ℤ)
    → IsExact lo
    → IsExact hi
    → All (λ x. (lo ≤ℤ x) × (x ≤ℤ hi)) xs
    → All IsExact xs
between-IsExact lo hi [] l u t = tt
between-IsExact lo hi (x ∷ xs) l u (h, t) =
    (abs_between lo hi x l u h, between-IsExact lo hi xs l u t)

-- Of values between two bounds below 2 ^ 52 in size, at least one, the median is between them.
pub median_bounds :
    (lo hi : ℤ) (xs : List ℤ)
    → IsExact lo
    → IsExact hi
    → xs ≢ []
    → All (λ x. (lo ≤ℤ x) × (x ≤ℤ hi)) xs
    → (lo +ℤ lo ≤ℤ median xs) × (median xs ≤ℤ hi +ℤ hi)
unfolding median
median_bounds lo hi [] l u h t = absurd (h refl)
median_bounds lo hi (x ∷ xs) l u h t =
    let s = sort (x ∷ xs) in
    let size = length-sort (x ∷ xs) in
    let within = All-sort (λ y. (lo ≤ℤ y) × (y ≤ℤ hi)) (x ∷ xs) t in
    let a = at-All (λ y. (lo ≤ℤ y) × (y ≤ℤ hi)) s ((length s - 1) / 2) (omega arith) within in
    let b = at-All (λ y. (lo ≤ℤ y) × (y ≤ℤ hi)) s (length s / 2) (omega arith) within in
    let exact = between-IsExact lo hi s l u within in
    rw (middle_lem s (omega arith) exact) (twice_le lo _ _ a.0 b.0, le_twice hi _ _ a.1 b.1)
