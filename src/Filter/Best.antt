-- ===== src/Filter/Best.antt =====
-- The maps behind the filters for unique tuples and pairs in src/filter.cc, built over rows of
-- a key and a timing, and what they say of a row.
use osiris_arm.Common.{
  ℕ, ◌<◌, ◌≡◌, refl, sym, ◌∙◌, Bytes, str_eq, str_eq_iff, str_eq_refl, List, [], ◌∷◌, ◌++◌, Bool,
  true, false, ◌&&◌, Bool-cases, Option-cases, ◌↔◌, inl, inr, Option, none, some, ◌==◌, ==_iff, ltb,
  if◌then◌else◌, ok, ◌>>◌, assert, arith, length, get_elem?, get_elem?-snoc, get_elem?-lt,
  get_elem?-append_left, get_elem?-length,
}
use osiris_arm.Common.Int.{ℤ, abs_int, ◌≤ℤ◌, ◌<ℤ◌, ltb_ℤ, leb_ℤ}
use osiris_arm.Filter.{Seen, find_entry, insert_entry, prefilter_best, filter_best}

-- A row of the result file, as such a filter sees it: the key and the timing.
abbrev pub Row : Type 0
Row = Bytes × ℤ

find-insert_entry :
    (j k : Bytes) (v : ℕ × ℤ) (seen : Seen)
    → find_entry j (insert_entry k v seen) ≡ (if str_eq j k then some v else find_entry j seen)
unfolding find_entry insert_entry
find-insert_entry j k v [] = refl
find-insert_entry j k v ((i, w) ∷ seen) =
    ground (arith, str_eq_iff j k, str_eq_iff k i, str_eq_iff j i, find-insert_entry j k v seen)

find-insert_entry_self :
    (j k : Bytes) (v : ℕ × ℤ) (seen : Seen)
    → str_eq j k ≡ true
    → find_entry j (insert_entry k v seen) ≡ some v
find-insert_entry_self j k v seen e = rw (find-insert_entry j k v seen, e) refl

find-insert_entry_ne :
    (j k : Bytes) (v : ℕ × ℤ) (seen : Seen)
    → str_eq j k ≡ false
    → find_entry j (insert_entry k v seen) ≡ find_entry j seen
find-insert_entry_ne j k v seen e = rw (find-insert_entry j k v seen, e) refl

-- Row `n` has key `k` and timing `t`; no row of the key has a timing of larger `std::abs`, and no
-- earlier row of it has one of as large.
abbrev pub IsBest : List Row → Bytes → ℕ → ℤ → Type 0
IsBest rows k n t =
    (get_elem? rows n ≡ some (k, t))
    × ((j : ℕ) (u : ℤ)
        → get_elem? rows j ≡ some (k, u)
        → (abs_int u ≤ℤ abs_int t) × (j < n → abs_int u <ℤ abs_int t))

-- The map holds the best row of each key, and an entry for the key of each row.
pub record Tracks (rows : List Row) (seen : Seen) : Type 0 where
  pub best : (k : Bytes) (n : ℕ) (t : ℤ) → find_entry k seen ≡ some (n, t) → IsBest rows k n t
  pub complete :
      (j : ℕ) (k : Bytes) (u : ℤ)
      → get_elem? rows j ≡ some (k, u)
      → (n : ℕ) × (t : ℤ) × (find_entry k seen ≡ some (n, t))

pub nil-Tracks : Tracks [] []
nil-Tracks = record {
  best = λ k n t h. absurd (nothing k n t h);
  complete = λ j k u h. absurd (no_row h);
}
  where
    nothing : (k : Bytes) (n : ℕ) (t : ℤ) → find_entry k [] ≡ some (n, t) → ⊥
    nothing k n t h = unfold find_entry in cc

    no_row : {r : Row} → ◌≡◌ {A = Option Row} none (some r) → ⊥
    no_row h = cc

module _ (rows : List Row) (seen : Seen) (tracks : Tracks rows seen) (k : Bytes) (t : ℤ) where
  abbrev rows' : List Row
  rows' = rows ++ (k, t) ∷ []

  -- an old best row stays best if the new row has another key, or no larger timing
  keep-IsBest :
      (k' : Bytes) (n : ℕ) (u : ℤ)
      → (k ≡ k' → abs_int t ≤ℤ abs_int u)
      → IsBest rows k' n u
      → IsBest rows' k' n u
  keep-IsBest k' n u low (here, above) =
      let inside = get_elem?-lt rows n (k', u) here in
      (
        get_elem?-append_left rows ((k, t) ∷ []) n inside ∙ here,
        λ j w found. elim (get_elem?-snoc rows (k, t) j (k', w) found) [
          | inl old ↦ above j w old
          | inr (last, same) ↦
              let key : k ≡ k' = cc in
              let time : t ≡ w = cc in (rw (← time) (low key), λ early. absurd (omega arith))
        ],
      )

  -- the new row is best if it beats every old row of its key
  new-IsBest :
      ((j : ℕ) (u : ℤ) → get_elem? rows j ≡ some (k, u) → abs_int u <ℤ abs_int t)
      → IsBest rows' k (length rows) t
  new-IsBest beats = (
    get_elem?-length rows [] (k, t),
    λ j w found. elim (get_elem?-snoc rows (k, t) j (k, w) found) [
      | inl old ↦ let less = beats j w old in (omega arith, λ early. less)
      | inr (last, same) ↦
          let time : t ≡ w = cc in (rw time (omega arith), λ early. absurd (omega arith))
    ],
  )

  insert-Tracks :
      ((j : ℕ) (u : ℤ) → get_elem? rows j ≡ some (k, u) → abs_int u <ℤ abs_int t)
      → Tracks rows' (insert_entry k (length rows, t) seen)
  insert-Tracks beats = record {
    best = λ k' n u h. elim (Bool-cases (str_eq k' k)) [
      | inl e ↦
          let same : k' ≡ k = (str_eq_iff k' k).0 e in
          let entry : ◌≡◌ {A = Option (ℕ × ℤ)} (some (length rows, t)) (some (n, u)) =
            sym (find-insert_entry_self k' k (length rows, t) seen e) ∙ h in
          let at : length rows ≡ n = cc in
          let time : t ≡ u = cc in rw (same, ← at, ← time) (new-IsBest beats)
      | inr e ↦
          let entry : find_entry k' seen ≡ some (n, u) =
            sym (find-insert_entry_ne k' k (length rows, t) seen e) ∙ h in
          keep-IsBest k' n u (λ same. absurd (differ k' e same)) (tracks.best k' n u entry)
    ];
    complete = λ j k' u h. elim (Bool-cases (str_eq k' k)) [
      | inl e ↦ (length rows, t, find-insert_entry_self k' k (length rows, t) seen e)
      | inr e ↦ elim (get_elem?-snoc rows (k, t) j (k', u) h) [
        | inl old ↦
            let (n, w, entry) = tracks.complete j k' u old in
            (n, w, find-insert_entry_ne k' k (length rows, t) seen e ∙ entry)
        | inr (last, same) ↦ let key : k ≡ k' = cc in absurd (differ k' e key)
      ]
    ];
  }
    where
      differ : (k' : Bytes) → str_eq k' k ≡ false → k ≡ k' → ⊥
      differ k' e same =
          let both = str_eq_refl k in let no : str_eq k k ≡ false = rw (← same) at e in cc

  keep-Tracks :
      (n : ℕ) (w : ℤ) → find_entry k seen ≡ some (n, w) → abs_int t ≤ℤ abs_int w → Tracks rows' seen
  keep-Tracks n w entry low = record {
    best = λ k' m u h. keep-IsBest k' m u (λ same. bounded k' m u h same) (tracks.best k' m u h);
    complete = λ j k' u h. elim (get_elem?-snoc rows (k, t) j (k', u) h) [
      | inl old ↦ tracks.complete j k' u old
      | inr (last, same) ↦ let key : k ≡ k' = cc in (n, w, rw (← key) entry)
    ];
  }
    where
      bounded :
          (k' : Bytes) (m : ℕ) (u : ℤ)
          → find_entry k' seen ≡ some (m, u)
          → k ≡ k'
          → abs_int t ≤ℤ abs_int u
      bounded k' m u h same = let time : w ≡ u = cc in rw (← time) low

  prefilter_new :
      find_entry k seen ≡ none
      → prefilter_best k (length rows) t seen ≡ insert_entry k (length rows, t) seen
  unfolding prefilter_best
  prefilter_new e = rw (e, prefilter_best) refl

  prefilter_old :
      (n : ℕ) (w : ℤ)
      → find_entry k seen ≡ some (n, w)
      → prefilter_best k (length rows) t seen
        ≡ (if ltb_ℤ (abs_int w) (abs_int t) then insert_entry k (length rows, t) seen else seen)
  unfolding prefilter_best
  prefilter_old n w e = rw (e, prefilter_best) refl

  -- A map that holds the best row of each key of some rows, and only of those keys, does so for the rows
  -- with one more at their end, after the first pass has seen that row.
  pub prefilter_best-Tracks : Tracks rows' (prefilter_best k (length rows) t seen)
  prefilter_best-Tracks = elim (Option-cases (find_entry k seen)) [
    | inl new ↦ rw (prefilter_new new) (
        insert-Tracks (λ j u h.
          let (n, w, entry) = tracks.complete j k u h in absurd (no_entry (sym new ∙ entry))))
    | inr ((n, w), entry) ↦
        rw (prefilter_old n w entry) (elim (Bool-cases (ltb_ℤ (abs_int w) (abs_int t))) [
          | inl more ↦ rw more (insert-Tracks (λ j u h. below n w entry j u h (ground arith)))
          | inr less ↦ rw less (keep-Tracks n w entry (ground arith))
        ])
  ]
    where
      no_entry : {n : ℕ} {w : ℤ} → ◌≡◌ {A = Option (ℕ × ℤ)} none (some (n, w)) → ⊥
      no_entry h = cc

      below :
          (n : ℕ) (w : ℤ)
          → find_entry k seen ≡ some (n, w)
          → (j : ℕ) (u : ℤ) → get_elem? rows j ≡ some (k, u)
          → abs_int w <ℤ abs_int t
          → abs_int u <ℤ abs_int t
      below n w entry j u h more =
          let at_most = ((tracks.best k n w entry).1 j u h).0 in omega arith

filter_old :
    (k : Bytes) (i : ℕ) (t : ℤ) (n : ℕ) (w : ℤ) (seen : Seen)
    → find_entry k seen ≡ some (n, w)
    → filter_best k i t seen ≡ (
        if i == n
        then ◌>>◌ {Y = Seen × Bool} (assert (leb_ℤ t w && leb_ℤ w t)) (ok (seen, false))
        else ok (seen, true))
unfolding filter_best
filter_old k i t n w seen e = rw (e, filter_best) refl

asserted :
    (t w : ℤ) (seen : Seen)
    → t ≡ w
    → ◌>>◌ {Y = Seen × Bool} (assert (leb_ℤ t w && leb_ℤ w t)) (ok (seen, false)) ≡ ok (seen, false)
asserted t w seen e =
    let test : (leb_ℤ t w && leb_ℤ w t) ≡ true = rw e (ground arith) in rw test refl

same_time : (k : Bytes) (t w : ℤ) → ◌≡◌ {A = Option Row} (some (k, t)) (some (k, w)) → t ≡ w
same_time k t w e = cc

-- two rows of a key cannot both be its best row
second :
    (rows : List Row) (k : Bytes) (i : ℕ) (t : ℤ) (n : ℕ) (w : ℤ)
    → (i == n) ≡ false
    → (get_elem? rows i ≡ some (k, t)) × (get_elem? rows n ≡ some (k, w))
    → ((j : ℕ) (u : ℤ)
        → get_elem? rows j ≡ some (k, u)
        → (abs_int u ≤ℤ abs_int w) × (j < n → abs_int u <ℤ abs_int w))
    → ((j : ℕ) (u : ℤ)
        → get_elem? rows j ≡ some (k, u)
        → (abs_int u ≤ℤ abs_int t) × (j < i → abs_int u <ℤ abs_int t))
    → ⊥
second rows k i t n w ne (at_i, at_n) above_n above_i =
    let (le_n, lt_n) = above_n i t at_i in
    let (le_i, lt_i) = above_i n w at_n in
    elim (Bool-cases (ltb i n)) [
      | inl e ↦ let less = lt_n (ground arith) in omega arith
      | inr e ↦ let less = lt_i (ground arith) in omega arith
    ]

-- The test that a filter makes of a row, on a map that tracks all rows: no assertion fails, the map
-- stays, and the row is kept exactly when it is the first of the largest `std::abs` of a timing
-- of its key.
pub filter_best_lem :
    (rows : List Row) (seen : Seen)
    → Tracks rows seen
    → (i : ℕ) (k : Bytes) (t : ℤ) → get_elem? rows i ≡ some (k, t)
    → (out : Bool) × (filter_best k i t seen ≡ ok (seen, out)) × ((out ≡ false) ↔ IsBest rows k i t)
filter_best_lem rows seen tracks i k t found =
    let (n, w, entry) = tracks.complete i k t found in
    let (here, above) = tracks.best k n w entry in
    elim (Bool-cases (i == n)) [
      | inl e ↦
          let at : i ≡ n = (==_iff i n).0 e in
          let row : get_elem? rows i ≡ some (k, w) = rw at here in
          let time : t ≡ w = same_time k t w (sym found ∙ row) in
          (
            false,
            rw (filter_old k i t n w seen entry, e) (asserted t w seen time),
            (λ _. (found, λ j u h. rw (at, time) (above j u h)), λ _. refl),
          )
      | inr e ↦ (
        true,
        rw (filter_old k i t n w seen entry, e) refl,
        (
          λ h. absurd (true_false h),
          λ best. absurd (second rows k i t n w e (found, here) above best.1),
        ),
      )
    ]
  where
    true_false : true ≡ false → ⊥
    true_false h = cc
