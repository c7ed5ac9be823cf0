-- ===== src/Executor/Experiment.antt =====
-- src/executor.cc: ClearDataPage, ExecuteTestrun and the three experiments. Counts of runs and of
-- executions, which are `int` in the code, are not negative at any call.
pub mod Samples
pub mod Ends
pub mod Results
use osiris_arm.Common.{
  ℕ, zero, suc, ◌+◌, ◌-◌, ◌*◌, ◌/◌, ◌^◌, Bytes, List, [], ◌∷◌, ◌++◌, Bool, true, false, map, ◌==◌,
  ltb, leb, if◌then◌else◌, length, replicate, Outcome, ok, aborted, ◌>>=◌, ◌>>◌, assert,
}
use osiris_arm.Common.Int.{ℤ, pos, negsuc, ◌-ℤ◌}
use osiris_arm.Utils.Double.{wrap_int64, to_double, from_doubled}
use osiris_arm.Utils.Median.{median}
use osiris_arm.Executor.Page.{CodePage, pagesize}
use osiris_arm.Executor.Codegen.{
  create_reset_testrun_code, create_testrun_code, create_speculative_trigger_testrun_code,
  create_sequence_of_nops,
}
use osiris_arm.Executor.Machine.{Machine, Faults, Execution, execute_code_page}

pub record Executor (m : Machine) : Type 0 where
  pub world : m.World
  pub faults : Faults
  pub data_pages : List Bytes
  pub page_0 : CodePage
  pub page_1 : CodePage
  pub results_trigger : List ℤ
  pub results_notrigger : List ℤ

-- What an experiment returns, and leaves in `*cycles_difference`.
pub record TestResult : Type 0 where
  pub error : ℕ
  pub cycles_difference : ℤ

-- a `uint64_t` kept in an `int64_t`
unfoldable pub to_int64 : ℕ → ℤ
to_int64 n = if ltb n (2 ^ 63) then pos n else negsuc (2 ^ 64 - 1 - n)

unfoldable pub zero_page : Bytes
zero_page = replicate pagesize 0

-- The NOP that TestTriggerSequence takes in place of the trigger.
abbrev pub nop_sequence : Bytes
nop_sequence = 0x1F ∷ 0x20 ∷ 0x03 ∷ 0xD5 ∷ []

-- Two medians are subtracted as doubles and cut to a whole number; the model's are doubled.
unfoldable pub cycles_between : List ℤ → List ℤ → ℤ
unfolding median to_double from_doubled
cycles_between runs_a runs_b = from_doubled (to_double (median runs_a -ℤ median runs_b))

abbrev pub failure : TestResult
failure = record { error = 1; cycles_difference = negsuc 0 }

module _ (m : Machine) where
  unfoldable pub clear_data_page : Executor m → Executor m
  clear_data_page s = record s { data_pages = map (λ _. zero_page) s.data_pages }

  unfoldable pub execution_code_page : ℕ → Executor m → CodePage
  execution_code_page zero s = s.page_0
  execution_code_page (suc _) s = s.page_1

  -- the call, and the state behind it
  unfoldable pub execute_testrun : ℕ → Executor m → Outcome (Execution m)
  unfolding execution_code_page execute_code_page
  execute_testrun codepage_no s =
      execute_code_page m (execution_code_page codepage_no s).bytes s.world s.data_pages s.faults

  abbrev pub after_run : Executor m → Execution m → Executor m
  after_run s e = record s { world = e.world; data_pages = e.data_pages; faults = e.faults }

  -- A loop of test runs on one page: whether a run failed, the timings kept, and the state.
  unfoldable pub sample :
      (ℕ → Bool) → ℕ → ℕ → List ℤ → Executor m → Outcome (Bool × (List ℤ × Executor m))
  sample keep codepage_no zero runs s = ok (false, (runs, s))
  sample keep codepage_no (suc left) runs s = do
    e ← execute_testrun codepage_no s
    let kept = if keep e.cycles_elapsed then runs ++ to_int64 e.cycles_elapsed ∷ [] else runs
    let rest = sample keep codepage_no left kept (after_run s e)
    (if e.error == 0 then rest else ok (true, (runs, after_run s e)))

  -- TestResetSequence behind the generation of its two pages
  unfoldable pub measure_reset : ℕ → Executor m → Outcome (TestResult × Executor m)
  unfolding cycles_between
  measure_reset no_testruns s = do
    clean ← sample (λ _. true) 0 no_testruns [] s
    (if clean.0 then ok (failure, clean.1.1) else (do
      noisy ← sample (λ _. true) 1 no_testruns [] clean.1.1
      (if noisy.0
          then ok (failure, noisy.1.1)
          else ok (
            record { error = 0; cycles_difference = cycles_between clean.1.0 noisy.1.0 },
            noisy.1.1,
          ))))

  unfoldable pub test_reset_sequence :
      Bytes → Bytes → Bytes → ℕ → ℕ → Executor m → Outcome (TestResult × Executor m)
  unfolding measure_reset clear_data_page create_sequence_of_nops
  test_reset_sequence trigger measurement reset no_testruns reset_amount s = do
    page_0 ←
        create_reset_testrun_code (create_sequence_of_nops (length reset)) measurement reset
          reset_amount s.page_0
    page_1 ← create_reset_testrun_code trigger measurement reset reset_amount s.page_1
    measure_reset no_testruns (record (clear_data_page s) { page_0 = page_0; page_1 = page_1 })

  -- the loop of TestSequenceTriple, which runs the pages in turn
  unfoldable pub sample_pairs : ℕ → List ℤ → Executor m → Outcome (Bool × (List ℤ × Executor m))
  sample_pairs zero results s = ok (false, (results, s))
  sample_pairs (suc left) results s = do
    a ← execute_testrun 0 s
    let s1 = after_run s a
    (if a.error == 0
        then (do
          b ← execute_testrun 1 s1
          let s2 = after_run s1 b
          let difference = wrap_int64 (to_int64 a.cycles_elapsed -ℤ to_int64 b.cycles_elapsed)
          let rest = sample_pairs left (results ++ difference ∷ []) s2
          (if b.error == 0 then rest else ok (true, (results, s2))))
        else ok (true, (results, s1)))

  unfoldable pub test_sequence_triple :
      Bytes → Bytes → Bytes → ℕ → Executor m → Outcome (TestResult × Executor m)
  unfolding sample_pairs clear_data_page median from_doubled
  test_sequence_triple trigger measurement reset no_testruns s = do
    page_0 ← create_testrun_code trigger reset measurement 1 s.page_0
    page_1 ← create_testrun_code reset trigger measurement 1 s.page_1
    r ←
        sample_pairs no_testruns []
          (record (clear_data_page s) { page_0 = page_0; page_1 = page_1 })
    (if r.0
        then ok (failure, r.1.1)
        else ok (record { error = 0; cycles_difference = from_doubled (median r.1.0) }, r.1.1))

  -- TestTriggerSequence behind the generation of its two pages; runs of more than 5000 cycles are
  -- left out
  unfoldable pub measure_trigger : ℕ → Executor m → Outcome (TestResult × Executor m)
  unfolding cycles_between
  measure_trigger no_testruns s = do
    trigger ← sample (λ c. leb c 5000) 0 no_testruns [] s
    let s1 = record (trigger.1.1) { results_trigger = trigger.1.0 }
    (if trigger.0 then ok (failure, s1) else (do
      notrigger ← sample (λ c. leb c 5000) 1 no_testruns [] s1
      let s2 = record (notrigger.1.1) { results_notrigger = notrigger.1.0 }
      (if notrigger.0
          then ok (failure, s2)
          else ok (
            record { error = 0; cycles_difference = cycles_between notrigger.1.0 trigger.1.0 },
            s2,
          ))))

  -- the pages of TestTriggerSequence
  unfoldable pub trigger_page : Bool → Bytes → Bytes → Bytes → ℕ → CodePage → Outcome CodePage
  unfolding create_speculative_trigger_testrun_code create_testrun_code
  trigger_page true trigger measurement reset amount page =
      create_speculative_trigger_testrun_code measurement trigger reset amount page
  trigger_page false trigger measurement reset amount page =
      create_testrun_code reset trigger measurement amount page

  unfoldable pub test_trigger_sequence :
      Bytes → Bytes → Bytes → Bool → ℕ → ℕ → Executor m → Outcome (TestResult × Executor m)
  unfolding measure_trigger trigger_page clear_data_page
  test_trigger_sequence trigger measurement reset only_in_speculation no_testruns reset_amount s =
      do
        assert (leb (length trigger) 200)
        page_0 ← trigger_page only_in_speculation trigger measurement reset reset_amount s.page_0
        page_1 ←
            trigger_page only_in_speculation nop_sequence measurement reset reset_amount s.page_1
        let cleared = clear_data_page s
        measure_trigger no_testruns (record cleared {
          page_0 = page_0;
          page_1 = page_1;
          results_trigger = [];
          results_notrigger = [];
          world = m.ic_iallu (m.ic_iallu cleared.world);
        })
