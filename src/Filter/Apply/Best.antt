-- ===== src/Filter/Apply/Best.antt =====
-- src/filter.cc: ApplyFiltersOnFile with one of the filters that keep the best row of a key, and with one
-- that looks at a line only.
use osiris_arm.Common.{
  ℕ, zero, suc, ◌+◌, ◌<◌, ◌≡◌, refl, sym, ap, ◌∙◌, subst, Bytes, str_eq, str_eq_iff, str_eq_refl,
  List, [], ◌∷◌, Bool, true, false, ◌&&◌, ◌||◌, not, inl, inr, ◌↔◌, Bool-cases, some, ltb,
  if◌then◌else◌, get_elem?, ok, arith,
}
use osiris_arm.Common.Int.{ℤ, abs_int, ◌≤ℤ◌, ◌<ℤ◌, ltb_ℤ, leb_ℤ}
use osiris_arm.Filter.Line.{ResultLineData, result_line_data}
use osiris_arm.Filter.{filter_best}
use osiris_arm.Filter.Best.{Row, IsBest, Tracks, filter_best_lem}

-- Whether the second row rules the first out: the same key, and a timing of larger
-- `std::abs`, or of as large at an earlier place.
unfoldable pub beats : ℕ → Row → ℕ → Row → Bool
beats i (k, t) j (k', u) =
    str_eq k k' && (ltb_ℤ (abs_int t) (abs_int u) || (leb_ℤ (abs_int t) (abs_int u) && ltb j i))

unfoldable pub beaten : ℕ → Row → ℕ → List Row → Bool
unfolding beats
beaten i r j [] = false
beaten i r j (r' ∷ rows) = beats i r j r' || beaten i r (suc j) rows

-- A row is the best of its key when no row of the file rules it out.
unfoldable pub is_best : List Row → ℕ → Row → Bool
unfolding beaten
is_best rows i r = not (beaten i r 0 rows)

-- What stands beside the rows that are the best of their key, from a place on.
unfoldable pub best_lines {ℓ} : {A : Type ℓ} → List Row → ℕ → List Row → List A → List A
unfolding is_best
best_lines all i [] ls = []
best_lines all i (r ∷ rows) [] = []
best_lines all i (r ∷ rows) (l ∷ ls) =
    let rest = best_lines all (suc i) rows ls in if is_best all i r then l ∷ rest else rest

-- the lines are read as these
abbrev pub AreRead : List Bytes → List ResultLineData → Type 0
AreRead [] [] = Unit
AreRead [] (d ∷ ds) = ⊥
AreRead (l ∷ ls) [] = ⊥
AreRead (l ∷ ls) (d ∷ ds) = (result_line_data l ≡ ok d) × AreRead ls ds

beats_at : (i : ℕ) (r q : Row) (m n : ℕ) (b : Bool) → m ≡ n → beats i r m q ≡ b → beats i r n q ≡ b
beats_at i r q m n b e h = subst (λ k. beats i r k q ≡ b) e h

first_false : (a b : Bool) → (a || b) ≡ false → (a ≡ false) × (b ≡ false)
first_false a b h = (ground arith, ground arith)

later_true : (a b : Bool) → (a || b) ≡ true → a ≡ false → b ≡ true
later_true a b h e = ground arith

the_row : {q r : Row} → some q ≡ some r → q ≡ r
the_row e = cc

beaten-false :
    (i : ℕ) (r : Row) (rows : List Row) (j0 j : ℕ) (r' : Row)
    → beaten i r j0 rows ≡ false
    → get_elem? rows j ≡ some r'
    → beats i r (j0 + j) r' ≡ false
unfolding beaten
beaten-false i r [] j0 j r' h found = cc
beaten-false i r (q ∷ rows) j0 zero r' h found = beats_at i r r' j0 (j0 + 0) false (omega arith) (
    subst (λ x. beats i r j0 x ≡ false) (the_row found)
      (first_false _ (beaten i r (suc j0) rows) h).0)
beaten-false i r (q ∷ rows) j0 (suc j) r' h found =
    beats_at i r r' (suc j0 + j) (j0 + suc j) false (omega arith)
      (beaten-false i r rows (suc j0) j r' (first_false (beats i r j0 q) _ h).1 found)

beaten-true :
    (i : ℕ) (r : Row) (rows : List Row) (j0 : ℕ)
    → beaten i r j0 rows ≡ true
    → (j : ℕ) × (r' : Row) × (get_elem? rows j ≡ some r') × (beats i r (j0 + j) r' ≡ true)
unfolding beaten
beaten-true i r [] j0 h = cc
beaten-true i r (q ∷ rows) j0 h = elim (Bool-cases (beats i r j0 q)) [
  | inl e ↦ (0, q, refl, beats_at i r q j0 (j0 + 0) true (omega arith) e)
  | inr e ↦
      let (j, r', found, e') = beaten-true i r rows (suc j0) (later_true _ _ h e) in
      (suc j, r', found, beats_at i r r' (suc j0 + j) (j0 + suc j) true (omega arith) e')
]

-- what a row that is not ruled out by another says of the two
beats-false :
    (i j : ℕ) (k : Bytes) (t u : ℤ)
    → beats i (k, t) j (k, u) ≡ false
    → (abs_int u ≤ℤ abs_int t) × (j < i → abs_int u <ℤ abs_int t)
unfolding beats
beats-false i j k t u h = let same = str_eq_refl k in (ground arith, λ early. ground arith)

beats-true :
    (i j : ℕ) (k k' : Bytes) (t u : ℤ)
    → beats i (k, t) j (k', u) ≡ true
    → (k ≡ k') × ((abs_int u ≤ℤ abs_int t) × (j < i → abs_int u <ℤ abs_int t) → ⊥)
unfolding beats
beats-true i j k k' t u h = (
  ground (arith, str_eq_iff k k'),
  λ best. clash (abs_int u) (abs_int t) (ground arith) best.0 best.1,
)
  where
    clash : (a b : ℤ) → (ltb_ℤ b a || (leb_ℤ b a && ltb j i)) ≡ true → a ≤ℤ b → (j < i → a <ℤ b) → ⊥
    clash a b e le lt = ground arith

not-true : (b : Bool) → not b ≡ true → b ≡ false
not-true b h = ground arith

is_best-IsBest :
    (rows : List Row) (i : ℕ) (k : Bytes) (t : ℤ)
    → get_elem? rows i ≡ some (k, t)
    → (is_best rows i (k, t) ≡ true) ↔ IsBest rows k i t
unfolding is_best
is_best-IsBest rows i k t found = (
  λ h. (
    found,
    λ j u at. beats-false i j k t u (
        beats_at i (k, t) (k, u) (0 + j) j false (omega arith)
          (beaten-false i (k, t) rows 0 j (k, u) (not-true _ h) at)),
  ),
  λ best. elim (Bool-cases (beaten i (k, t) 0 rows)) [
    | inl e ↦
        let (j, (k', u), at, h) = beaten-true i (k, t) rows 0 e in
        let (same, clash) =
          beats-true i j k k' t u (beats_at i (k, t) (k', u) (0 + j) j true (omega arith) h) in
        absurd (clash (best.1 j u (subst (λ x. get_elem? rows j ≡ some (x, u)) (sym same) at)))
    | inr e ↦ rw e refl
  ],
)

-- The filter's answer, on the map of all rows, is the test of the row.
pub filter_best-is_best :
    (rows : List Row) (s : _) (tracks : Tracks rows s) (i : ℕ) (k : Bytes) (t : ℤ)
    → get_elem? rows i ≡ some (k, t)
    → filter_best k i t s ≡ ok (s, not (is_best rows i (k, t)))
filter_best-is_best rows s tracks i k t found =
    let (out, e, answer) = filter_best_lem rows s tracks i k t found in
    let (sound, full) = is_best-IsBest rows i k t found in
    e
    ∙ ap (λ b. ok (s, b))
        (opposite out (is_best rows i (k, t)) (λ h. full (answer.0 h)) (λ h. answer.1 (sound h)))
  where
    opposite : (a b : Bool) → (a ≡ false → b ≡ true) → (b ≡ true → a ≡ false) → a ≡ not b
    opposite true true f g = let no = g refl in cc
    opposite true false f g = refl
    opposite false true f g = refl
    opposite false false f g = let no = f refl in cc
