-- ===== src/Executor/Experiment/Results.antt =====
-- src/executor.cc: the results of the experiments.
use osiris_arm.Common.{
  ℕ, ◌<◌, ◌≤◌, ◌^◌, ◌≡◌, refl, Bytes, List, [], ◌∷◌, Bool, ◌⊎◌, inl, inr, Bool-cases, leb, length,
  ok, assert, Holds, >>=-Holds, Holds-eq_ok, arith, All,
}
use osiris_arm.Common.Int.{ℤ, pos, negsuc, ◌≤ℤ◌, ◌-ℤ◌, ◌+ℤ◌, abs, half}
use osiris_arm.Utils.Double.{to_double-exact, from_doubled-exact}
use osiris_arm.Utils.Median.{median}
use osiris_arm.Utils.Median.Middle.{median_bounds}
use osiris_arm.Executor.Machine.{Machine}
use osiris_arm.Executor.Experiment.{
  Executor, TestResult, failure, cycles_between, sample, measure_trigger, trigger_page,
  nop_sequence, test_trigger_sequence,
}
use osiris_arm.Executor.Experiment.Samples.{IsShort, sample-Holds, ShortRuns}

-- doubled, the median of short timings is at most 10000
median-IsShort : (xs : List ℤ) → All IsShort xs → (pos 0 ≤ℤ median xs) × (median xs ≤ℤ pos 10000)
unfolding median ◌+ℤ◌
median-IsShort [] h = (omega arith, omega arith)
median-IsShort (x ∷ xs) h =
    median_bounds (pos 0) (pos 5000) (x ∷ xs) (omega arith) (omega arith) (λ e. cc) h

half_difference :
    (a b : ℤ)
    → (pos 0 ≤ℤ a) × (a ≤ℤ pos 10000)
    → (pos 0 ≤ℤ b) × (b ≤ℤ pos 10000)
    → abs (half (a -ℤ b)) ≤ 5000
unfolding half ◌-ℤ◌
half_difference (pos a) (pos b) ha hb = ground arith
half_difference (pos a) (negsuc b) ha hb = absurd (omega arith)
half_difference (negsuc a) b ha hb = absurd (omega arith)

difference_small :
    (a b : ℤ)
    → (pos 0 ≤ℤ a) × (a ≤ℤ pos 10000)
    → (pos 0 ≤ℤ b) × (b ≤ℤ pos 10000)
    → abs (a -ℤ b) < 2 ^ 53
unfolding ◌-ℤ◌
difference_small (pos a) (pos b) ha hb = ground arith
difference_small (pos a) (negsuc b) ha hb = absurd (omega arith)
difference_small (negsuc a) b ha hb = absurd (omega arith)

cycles_between-IsShort :
    (xs ys : List ℤ) → All IsShort xs → All IsShort ys → abs (cycles_between xs ys) ≤ 5000
unfolding cycles_between
cycles_between-IsShort xs ys hx hy =
    let a = median-IsShort xs hx in
    let b = median-IsShort ys hy in
    let small = half_difference (median xs) (median ys) a b in
    rw
      (
        to_double-exact (median xs -ℤ median ys) (difference_small (median xs) (median ys) a b),
        from_doubled-exact (median xs -ℤ median ys) (omega arith),
      )
      small

-- What TestTriggerSequence returns: the failure, or a success with at most 5000 cycles of difference.
abbrev pub IsTriggerResult : TestResult → Type 0
IsTriggerResult r = (r ≡ failure) ⊎ ((r.error ≡ 0) × (abs r.cycles_difference ≤ 5000))

module _ (m : Machine) where
  abbrev IsTriggerEnd : TestResult × Executor m → Type 0
  IsTriggerEnd r = IsTriggerResult r.0

  measure_trigger-Holds :
      (no_testruns : ℕ) (s : Executor m) → Holds IsTriggerEnd (measure_trigger m no_testruns s)
  unfolding measure_trigger
  measure_trigger-Holds no_testruns s =
      >>=-Holds IsTriggerEnd (sample m (λ c. leb c 5000) 0 no_testruns [] s) _ (λ trigger made.
        let short = Holds-eq_ok (ShortRuns m 0) _ (sample-Holds m 0 no_testruns [] s tt) made in
        let s1 = record (trigger.1.1) { results_trigger = trigger.1.0 } in
        elim (Bool-cases trigger.0) [
          | inl e ↦ rw e (inl refl)
          | inr e ↦ rw e (
              >>=-Holds IsTriggerEnd (sample m (λ c. leb c 5000) 1 no_testruns [] s1) _
                (λ notrigger made'.
                  let short' =
                    Holds-eq_ok (ShortRuns m 1) _ (sample-Holds m 1 no_testruns [] s1 tt) made' in
                  elim (Bool-cases notrigger.0) [
                    | inl e' ↦ rw e' (inl refl)
                    | inr e' ↦
                        rw e' (
                          inr (refl, cycles_between-IsShort notrigger.1.0 trigger.1.0 short' short))
                  ]))
        ])

  test_trigger_sequence-Holds :
      (trigger measurement reset : Bytes) (only_in_speculation : Bool)
      (no_testruns reset_amount : ℕ) (s : Executor m)
      → Holds IsTriggerEnd (
          test_trigger_sequence m trigger measurement reset only_in_speculation no_testruns
            reset_amount s)
  unfolding test_trigger_sequence
  test_trigger_sequence-Holds trigger measurement reset only_in_speculation no_testruns reset_amount
        s =
      >>=-Holds IsTriggerEnd (assert (leb (length trigger) 200)) _ (λ _ _.
        >>=-Holds IsTriggerEnd
          (trigger_page m only_in_speculation trigger measurement reset reset_amount s.page_0) _
          (λ page_0 _.
            >>=-Holds IsTriggerEnd
              (trigger_page m only_in_speculation nop_sequence measurement reset reset_amount
                s.page_1)
              _ (λ page_1 _. measure_trigger-Holds no_testruns _)))

  -- When TestTriggerSequence returns, it returns error 1 and leaves a difference of -1, or it returns 0
  -- and leaves a difference of at most 5000 cycles in either direction, on every machine.
  pub test_trigger_sequence_lem :
      (trigger measurement reset : Bytes) (only_in_speculation : Bool)
      (no_testruns reset_amount : ℕ) (s : Executor m) {r : TestResult × Executor m}
      → test_trigger_sequence m trigger measurement reset only_in_speculation no_testruns
          reset_amount s
        ≡ ok r
      → IsTriggerResult r.0
  test_trigger_sequence_lem trigger measurement reset only_in_speculation no_testruns reset_amount s
        h =
      Holds-eq_ok IsTriggerEnd _
        (test_trigger_sequence-Holds trigger measurement reset only_in_speculation no_testruns
          reset_amount s)
        h
