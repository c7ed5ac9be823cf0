-- ===== src/Filter/Apply/Plain.antt =====
-- src/filter.cc: ApplyFiltersOnFile with one of the filters that look at a line only.
use osiris_arm.Common.{
  ℕ, suc, ◌≡◌, refl, ap, ◌∙◌, Bytes, str_eq_refl, List, [], ◌∷◌, ◌++◌, Bool, false, inl, inr,
  Bool-cases, if◌then◌else◌, ok, append-nil, append_assoc, All,
}
use osiris_arm.Filter.Line.{ResultLineData, csv_header}
use osiris_arm.Filter.{ResultFilterFunctions, ResultFilter}
use osiris_arm.Filter.Keyed.{Plain}
use osiris_arm.Filter.Apply.{run_prefilters, prefilter_pass, run_filters, filter_pass, apply_lines}
use osiris_arm.Filter.Apply.Best.{AreRead}

-- What stands beside the lines that a test does not remove: the lines themselves, or what they say.
unfoldable pub passed_lines {ℓ} :
    {A : Type ℓ} → (ResultLineData → Bool) → List ResultLineData → List A → List A
passed_lines verdict [] ls = []
passed_lines verdict (d ∷ ds) [] = []
passed_lines verdict (d ∷ ds) (l ∷ ls) =
    let rest = passed_lines verdict ds ls in if verdict d then rest else l ∷ rest

module _ (f : ResultFilterFunctions) (plain : Plain f) where
  open plain use {verdict, prefilter_after, filter_after}

  prefilter_pass_plain :
      (n : ℕ) (ls : List Bytes) (ds : List ResultLineData) (s : ResultFilter)
      → AreRead ls ds
      → s.active_filters ≡ f ∷ []
      → prefilter_pass n ls s ≡ ok s
  unfolding prefilter_pass run_prefilters
  prefilter_pass_plain n [] [] s read active = refl
  prefilter_pass_plain n [] (d ∷ ds) s read active = absurd read
  prefilter_pass_plain n (l ∷ ls) [] s read active = absurd read
  prefilter_pass_plain n (l ∷ ls) (d ∷ ds) s (read, rest) active =
      let one = ap (λ fs. run_prefilters n d fs s) active ∙ prefilter_after n d s in
      rw (read, one) (prefilter_pass_plain (suc n) ls ds s rest active)

  filter_pass_plain :
      (n : ℕ) (ls : List Bytes) (ds : List ResultLineData) (s : ResultFilter) (written : List Bytes)
      → AreRead ls ds
      → s.active_filters ≡ f ∷ []
      → filter_pass n ls s written ≡ ok (s, written ++ passed_lines verdict ds ls)
  unfolding filter_pass run_filters passed_lines
  filter_pass_plain n [] [] s written read active = rw (append-nil written) refl
  filter_pass_plain n [] (d ∷ ds) s written read active = absurd read
  filter_pass_plain n (l ∷ ls) [] s written read active = absurd read
  filter_pass_plain n (l ∷ ls) (d ∷ ds) s written (read, rest) active =
      let answer = filter_after n d s in
      let one : run_filters n d s.active_filters false s ≡ ok (s, verdict d) =
        ap (λ fs. run_filters n d fs false s) active ∙ rw answer refl in
      rw (read, one)
        (elim (Bool-cases (verdict d)) [
          | inl e ↦ rw e (filter_pass_plain (suc n) ls ds s written rest active)
          | inr e ↦ rw e (
              filter_pass_plain (suc n) ls ds s (written ++ l ∷ []) rest active
              ∙ ap (λ t. ok (s, t)) (append_assoc written (l ∷ []) _))
        ])

-- A file whose lines are read is filtered to the header and exactly the lines that the filter's test does
-- not remove, and the object stays as it is.
pub apply_lines-passed_lines :
    (f : ResultFilterFunctions) (plain : Plain f) (ls : List Bytes) (ds : List ResultLineData)
    (s : ResultFilter)
    → AreRead ls ds
    → s.active_filters ≡ f ∷ []
    → apply_lines (csv_header ∷ ls) s ≡ ok (s, csv_header ∷ passed_lines plain.verdict ds ls)
unfolding apply_lines
apply_lines-passed_lines f plain ls ds s read active =
    rw (str_eq_refl csv_header, prefilter_pass_plain f plain 0 ls ds s read active)
      (filter_pass_plain f plain 0 ls ds s (csv_header ∷ []) read active)

module _ (verdict : ResultLineData → Bool) where
  pub passed_lines-AreRead :
      (ls : List Bytes) (ds : List ResultLineData)
      → AreRead ls ds
      → AreRead (passed_lines verdict ds ls) (passed_lines verdict ds ds)
  unfolding passed_lines
  passed_lines-AreRead [] [] read = tt
  passed_lines-AreRead [] (d ∷ ds) read = absurd read
  passed_lines-AreRead (l ∷ ls) [] read = absurd read
  passed_lines-AreRead (l ∷ ls) (d ∷ ds) (read, rest) = elim (Bool-cases (verdict d)) [
    | inl e ↦ rw e (passed_lines-AreRead ls ds rest)
    | inr e ↦ rw e (read, passed_lines-AreRead ls ds rest)
  ]

  pub All-passed_lines {κ} :
      (P : Bytes → Type κ) (ls : List Bytes) (ds : List ResultLineData)
      → All P ls
      → All P (passed_lines verdict ds ls)
  unfolding passed_lines
  All-passed_lines P ls [] h = tt
  All-passed_lines P [] (d ∷ ds) h = tt
  All-passed_lines P (l ∷ ls) (d ∷ ds) (hl, h) = elim (Bool-cases (verdict d)) [
    | inl e ↦ rw e (All-passed_lines P ls ds h)
    | inr e ↦ rw e (hl, All-passed_lines P ls ds h)
  ]
