-- ===== src/Filter/Apply/Unique.antt =====
-- src/filter.cc: ApplyFiltersOnFile with one of the filters that keep the best row of a key.
use osiris_arm.Common.{
  ℕ, suc, ◌≡◌, refl, sym, ap, ◌∙◌, subst, Bytes, str_eq_refl, List, [], ◌∷◌, ◌++◌, false, not, inl,
  inr, Bool-cases, some, length, get_elem?, get_elem?-length, ok, arith, append-nil, append_assoc,
  length-append, All,
}
use osiris_arm.Filter.Line.{ResultLineData, csv_header}
use osiris_arm.Filter.{
  ResultFilterFunctions, ResultFilter, execute_prefilter_function, prefilter_best,
}
use osiris_arm.Filter.Keyed.{Keyed}
use osiris_arm.Filter.Best.{Row, Tracks, nil-Tracks, prefilter_best-Tracks}
use osiris_arm.Filter.Apply.{run_prefilters, prefilter_pass, run_filters, filter_pass, apply_lines}
use osiris_arm.Filter.Apply.Best.{AreRead, is_best, best_lines, filter_best-is_best}

module _ (f : ResultFilterFunctions) (keyed : Keyed f) where
  open keyed use {key, seen, seen_after, other, other_after, active_after, filter_after}

  -- the rows that the filter sees
  abbrev pub rows_of : List ResultLineData → List Row
  rows_of [] = []
  rows_of (d ∷ ds) = (key d, d.timing) ∷ rows_of ds

  -- the loop over the active filters, when there is only this one
  run_prefilters_one :
      (n : ℕ) (d : ResultLineData) (s : ResultFilter)
      → s.active_filters ≡ f ∷ []
      → run_prefilters n d s.active_filters s ≡ execute_prefilter_function n d f s
  unfolding run_prefilters
  run_prefilters_one n d s active = ap (λ fs. run_prefilters n d fs s) active

  prefilter_pass-Tracks :
      (done : List Row) (n : ℕ) (ls : List Bytes) (ds : List ResultLineData) (s : ResultFilter)
      → n ≡ length done
      → AreRead ls ds
      → s.active_filters ≡ f ∷ []
      → Tracks done (seen s)
      → (s' : ResultFilter) × (prefilter_pass n ls s ≡ ok s')
        × (s'.active_filters ≡ f ∷ [])
        × (other s' ≡ other s)
        × Tracks (done ++ rows_of ds) (seen s')
  unfolding prefilter_pass
  prefilter_pass-Tracks done n [] [] s at read active tracks =
      (s, refl, active, refl, rw (append-nil done) tracks)
  prefilter_pass-Tracks done n [] (d ∷ ds) s at read active tracks = absurd read
  prefilter_pass-Tracks done n (l ∷ ls) [] s at read active tracks = absurd read
  prefilter_pass-Tracks done n (l ∷ ls) (d ∷ ds) s at (read, rest) active tracks =
      let r : Row = (key d, d.timing) in
      let s1 = execute_prefilter_function n d f s in
      let step : Tracks (done ++ r ∷ []) (seen s1) =
        subst (Tracks (done ++ r ∷ [])) (sym (seen_after n d s)) (
          subst (λ k. Tracks (done ++ r ∷ []) (prefilter_best (key d) k d.timing (seen s))) (sym at)
            (prefilter_best-Tracks done (seen s) tracks (key d) d.timing)) in
      let (s', e, active', same, tracks') =
        prefilter_pass-Tracks (done ++ r ∷ []) (suc n) ls ds s1
          (omega (arith, at, length-append done (r ∷ []))) rest (active_after n d s ∙ active)
          step in
      (
        s',
        rw (read, run_prefilters_one n d s active) e,
        active',
        same ∙ other_after n d s,
        subst (λ rows. Tracks rows (seen s')) (append_assoc done (r ∷ []) (rows_of ds)) tracks',
      )

  run_filters_one :
      (all : List Row) (n : ℕ) (d : ResultLineData) (s : ResultFilter)
      → s.active_filters ≡ f ∷ []
      → Tracks all (seen s)
      → get_elem? all n ≡ some (key d, d.timing)
      → run_filters n d s.active_filters false s ≡ ok (s, not (is_best all n (key d, d.timing)))
  unfolding run_filters
  run_filters_one all n d s active tracks found =
      let answer =
        filter_after n d s _ (filter_best-is_best all (seen s) tracks n (key d) d.timing found) in
      ap (λ fs. run_filters n d fs false s) active ∙ rw answer refl

  filter_pass-best_lines :
      (all done : List Row) (n : ℕ) (ls : List Bytes) (ds : List ResultLineData) (s : ResultFilter)
      (written : List Bytes)
      → n ≡ length done
      → all ≡ done ++ rows_of ds
      → AreRead ls ds
      → s.active_filters ≡ f ∷ []
      → Tracks all (seen s)
      → filter_pass n ls s written ≡ ok (s, written ++ best_lines all n (rows_of ds) ls)
  unfolding filter_pass best_lines
  filter_pass-best_lines all done n [] [] s written at split read active tracks =
      rw (append-nil written) refl
  filter_pass-best_lines all done n [] (d ∷ ds) s written at split read active tracks = absurd read
  filter_pass-best_lines all done n (l ∷ ls) [] s written at split read active tracks = absurd read
  filter_pass-best_lines all done n (l ∷ ls) (d ∷ ds) s written at split (read, rest) active
        tracks =
      let r : Row = (key d, d.timing) in
      let found : get_elem? all n ≡ some r =
        rw (split, at) (get_elem?-length done (rows_of ds) r) in
      let next = λ (out : List Bytes).
        filter_pass-best_lines all (done ++ r ∷ []) (suc n) ls ds s out
          (omega (arith, at, length-append done (r ∷ [])))
          (split ∙ sym (append_assoc done (r ∷ []) (rows_of ds))) rest active tracks in
      rw (read, run_filters_one all n d s active tracks found)
        (elim (Bool-cases (is_best all n r)) [
          | inl e ↦
              rw e
                (next (written ++ l ∷ []) ∙ ap (λ t. ok (s, t)) (append_assoc written (l ∷ []) _))
          | inr e ↦ rw e (next written)
        ])

  pub best_lines-AreRead :
      (all : List Row) (n : ℕ) (ls : List Bytes) (ds es : List ResultLineData)
      → AreRead ls ds
      → AreRead (best_lines all n (rows_of es) ls) (best_lines all n (rows_of es) ds)
  unfolding best_lines
  best_lines-AreRead all n ls ds [] read = tt
  best_lines-AreRead all n [] [] (e ∷ es) read = tt
  best_lines-AreRead all n [] (d ∷ ds) (e ∷ es) read = absurd read
  best_lines-AreRead all n (l ∷ ls) [] (e ∷ es) read = absurd read
  best_lines-AreRead all n (l ∷ ls) (d ∷ ds) (e ∷ es) (read, rest) =
      elim (Bool-cases (is_best all n (key e, e.timing))) [
        | inl h ↦ rw h (read, best_lines-AreRead all (suc n) ls ds es rest)
        | inr h ↦ rw h (best_lines-AreRead all (suc n) ls ds es rest)
      ]

pub All-best_lines {κ} :
    (P : Bytes → Type κ) (all : List Row) (n : ℕ) (ls : List Bytes) (rows : List Row)
    → All P ls
    → All P (best_lines all n rows ls)
unfolding best_lines
All-best_lines P all n ls [] h = tt
All-best_lines P all n [] (r ∷ rows) h = tt
All-best_lines P all n (l ∷ ls) (r ∷ rows) (hl, h) = elim (Bool-cases (is_best all n r)) [
  | inl e ↦ rw e (hl, All-best_lines P all (suc n) ls rows h)
  | inr e ↦ rw e (All-best_lines P all (suc n) ls rows h)
]

-- On a fresh map, a file whose lines are read is filtered to the header and exactly the lines whose row is
-- the best of its key: no other row of the file with that key has a timing of larger `std::abs`, or one
-- of as large further up. The object keeps its one active filter and the map of the other filter.
pub apply_lines-best_lines :
    (f : ResultFilterFunctions) (keyed : Keyed f) (ls : List Bytes) (ds : List ResultLineData)
    (s : ResultFilter)
    → AreRead ls ds
    → s.active_filters ≡ f ∷ []
    → keyed.seen s ≡ []
    → (s' : ResultFilter) × (s'.active_filters ≡ f ∷ [])
      × (keyed.other s' ≡ keyed.other s)
      × (apply_lines (csv_header ∷ ls) s
          ≡ ok (s', csv_header ∷ best_lines (rows_of f keyed ds) 0 (rows_of f keyed ds) ls))
unfolding apply_lines
apply_lines-best_lines f keyed ls ds s read active fresh =
    let (s', e, active', same, tracks) =
      prefilter_pass-Tracks f keyed [] 0 ls ds s refl read active (rw fresh nil-Tracks) in
    (
      s',
      active',
      same,
      rw (str_eq_refl csv_header, e)
          (filter_pass-best_lines f keyed (rows_of f keyed ds) [] 0 ls ds s' (csv_header ∷ []) refl
            refl read active' tracks),
    )
