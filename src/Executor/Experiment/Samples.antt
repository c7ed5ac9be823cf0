-- ===== src/Executor/Experiment/Samples.antt =====
-- src/executor.cc: a loop of test runs on one page.
use osiris_arm.Common.{
  ℕ, zero, suc, ◌≤◌, ◌≡◌, List, [], ◌∷◌, ◌++◌, Bool, true, inl, inr, Bool-cases, ◌==◌, leb, Holds,
  >>=-Holds, arith, All, All-append,
}
use osiris_arm.Common.Int.{ℤ, pos, ◌≤ℤ◌}
use osiris_arm.Executor.Machine.{Machine}
use osiris_arm.Executor.Experiment.{Executor, to_int64, execute_testrun, after_run, sample}

-- Timings that TestTriggerSequence keeps: at most 5000 cycles.
abbrev pub IsShort : ℤ → Type 0
IsShort t = (pos 0 ≤ℤ t) × (t ≤ℤ pos 5000)

leb_short : (c : ℕ) → leb c 5000 ≡ true → c ≤ 5000
leb_short c h = ground arith

small : (c : ℕ) → leb c 5000 ≡ true → to_int64 c ≡ pos c
unfolding to_int64
small c h = ground arith

to_int64-IsShort : (c : ℕ) → leb c 5000 ≡ true → IsShort (to_int64 c)
unfolding to_int64
to_int64-IsShort c h = rw (small c h) (omega arith, omega (arith, leb_short c h))

module _ (m : Machine) (codepage_no : ℕ) where
  abbrev pub ShortRuns : Bool × (List ℤ × Executor m) → Type 0
  ShortRuns r = All IsShort r.1.0

  -- the loop of TestTriggerSequence keeps only short timings
  pub sample-Holds :
      (left : ℕ) (runs : List ℤ) (s : Executor m)
      → All IsShort runs
      → Holds ShortRuns (sample m (λ c. leb c 5000) codepage_no left runs s)
  unfolding sample
  sample-Holds zero runs s short = short
  sample-Holds (suc left) runs s short =
      >>=-Holds ShortRuns (execute_testrun m codepage_no s) _ (λ e _.
        elim (Bool-cases (e.error == 0)) [
          | inl fine ↦ rw fine (elim (Bool-cases (leb e.cycles_elapsed 5000)) [
            | inl few ↦ rw few (
                sample-Holds left (runs ++ to_int64 e.cycles_elapsed ∷ []) (after_run m s e)
                  (All-append _ runs _ short (to_int64-IsShort e.cycles_elapsed few, tt)))
            | inr many ↦ rw many (sample-Holds left runs (after_run m s e) short)
          ])
          | inr wrong ↦ rw wrong short
        ])
