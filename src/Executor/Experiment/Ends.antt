-- ===== src/Executor/Experiment/Ends.antt =====
-- src/executor.cc: when an experiment comes to its end.
use osiris_arm.Common.{
  ℕ, zero, suc, ◌<◌, ◌≤◌, ◌≡◌, refl, ◌∙◌, Bytes, List, [], Bool, true, false, inl, inr, Bool-cases,
  ◌==◌, ltb, leb, length, Outcome, Returns, >>=-Returns, arith,
}
use osiris_arm.Common.Int.{ℤ}
use osiris_arm.Executor.Page.{CodePage, pagesize}
use osiris_arm.Executor.Page.Layout.{emit, up_to_100, laid_out}
use osiris_arm.Executor.Codegen.{create_reset_testrun_code, create_sequence_of_nops}
use osiris_arm.Executor.Codegen.Layout.{
  reset_testrun_code, create_reset_testrun_code_lem, testrun_code, create_testrun_code_lem,
}
use osiris_arm.Executor.Codegen.Speculation.{
  speculative_code, create_speculative_trigger_testrun_code_lem,
}
use osiris_arm.Executor.Machine.{
  Machine, sigsegv, sigfpe, sigill, sigtrap, other_signal, Effect, returned, raised, Faults,
  after_call, execute_code_page,
}
use osiris_arm.Executor.Experiment.{
  Executor, execute_testrun, after_run, sample, measure_trigger, trigger_page, nop_sequence,
  test_trigger_sequence, test_reset_sequence, measure_reset,
}

-- The call came back or raised one of the four signals that are counted.
abbrev pub IsHandled : Effect → Type 0
IsHandled (raised (other_signal n)) = ⊥
IsHandled (raised sigsegv) = Unit
IsHandled (raised sigfpe) = Unit
IsHandled (raised sigill) = Unit
IsHandled (raised sigtrap) = Unit
IsHandled (returned cycles) = Unit

-- A machine on which every page comes back or raises one of those signals.
abbrev pub IsHandling : Machine → Type 0
IsHandling m =
    (world : m.World) (code : Bytes) (pages : List Bytes) → IsHandled (m.call world code pages).0

-- the code of one page of TestTriggerSequence
abbrev pub trigger_code : Bool → Bytes → Bytes → Bytes → ℕ → Bytes
trigger_code true trigger measurement reset amount =
    speculative_code measurement trigger reset amount
trigger_code false trigger measurement reset amount = testrun_code reset trigger measurement amount

emitted :
    (amount : ℕ) (code : Bytes) (made : Outcome CodePage)
    → made ≡ up_to_100 amount (emit code)
    → amount ≤ 100
    → length code < pagesize
    → Returns made
emitted amount code made e few fits = (
  laid_out code,
  e
      ∙ (let a : leb amount 100 ≡ true = ground arith in
          let b : ltb (length code) pagesize ≡ true = ground arith in rw (a, b) refl),
)

module _ (m : Machine) where
  after_call-Returns :
      (faults : Faults) (effect : Effect) (rest : m.World × List Bytes)
      → IsHandled effect
      → Returns (after_call m faults (effect, rest))
  unfolding after_call
  after_call-Returns faults (returned cycles) rest h = (_, refl)
  after_call-Returns faults (raised sigsegv) rest h = (_, refl)
  after_call-Returns faults (raised sigfpe) rest h = (_, refl)
  after_call-Returns faults (raised sigill) rest h = (_, refl)
  after_call-Returns faults (raised sigtrap) rest h = (_, refl)
  after_call-Returns faults (raised (other_signal n)) rest h = absurd h

  trigger_page-Returns :
      (only_in_speculation : Bool) (trigger measurement reset : Bytes) (amount : ℕ)
      (page : CodePage)
      → amount ≤ 100
      → length (trigger_code only_in_speculation trigger measurement reset amount) < pagesize
      → Returns (trigger_page m only_in_speculation trigger measurement reset amount page)
  unfolding trigger_page
  trigger_page-Returns true trigger measurement reset amount page few fits =
      emitted amount _ _
        (create_speculative_trigger_testrun_code_lem measurement trigger reset amount page) few fits
  trigger_page-Returns false trigger measurement reset amount page few fits =
      emitted amount _ _ (create_testrun_code_lem reset trigger measurement amount page) few fits

  module _ (handling : IsHandling m) where
    execute_testrun-Returns :
        (codepage_no : ℕ) (s : Executor m) → Returns (execute_testrun m codepage_no s)
    unfolding execute_testrun execute_code_page
    execute_testrun-Returns codepage_no s = after_call-Returns s.faults _ _ (handling _ _ _)

    sample-Returns :
        (keep : ℕ → Bool) (codepage_no left : ℕ) (runs : List ℤ) (s : Executor m)
        → Returns (sample m keep codepage_no left runs s)
    unfolding sample
    sample-Returns keep codepage_no zero runs s = (_, refl)
    sample-Returns keep codepage_no (suc left) runs s =
        >>=-Returns (execute_testrun m codepage_no s) _ (execute_testrun-Returns codepage_no s)
          (λ e. elim (Bool-cases (e.error == 0)) [
            | inl fine ↦ rw fine (sample-Returns keep codepage_no left _ (after_run m s e))
            | inr wrong ↦ rw wrong (_, refl)
          ])

    measure_trigger-Returns :
        (no_testruns : ℕ) (s : Executor m) → Returns (measure_trigger m no_testruns s)
    unfolding measure_trigger
    measure_trigger-Returns no_testruns s =
        >>=-Returns (sample m (λ c. leb c 5000) 0 no_testruns [] s) _
          (sample-Returns _ 0 no_testruns [] s)
          (λ trigger. elim (Bool-cases trigger.0) [
            | inl e ↦ rw e (_, refl)
            | inr e ↦ rw e (
                >>=-Returns (sample m (λ c. leb c 5000) 1 no_testruns [] _) _
                  (sample-Returns _ 1 no_testruns [] _)
                  (λ notrigger. elim (Bool-cases notrigger.0) [
                    | inl e' ↦ rw e' (_, refl)
                    | inr e' ↦ rw e' (_, refl)
                  ]))
          ])

    measure_reset-Returns :
        (no_testruns : ℕ) (s : Executor m) → Returns (measure_reset m no_testruns s)
    unfolding measure_reset
    measure_reset-Returns no_testruns s =
        >>=-Returns (sample m (λ _. true) 0 no_testruns [] s) _
          (sample-Returns _ 0 no_testruns [] s)
          (λ clean. elim (Bool-cases clean.0) [
            | inl e ↦ rw e (_, refl)
            | inr e ↦ rw e (
                >>=-Returns (sample m (λ _. true) 1 no_testruns [] clean.1.1) _
                  (sample-Returns _ 1 no_testruns [] clean.1.1)
                  (λ noisy. elim (Bool-cases noisy.0) [
                    | inl e' ↦ rw e' (_, refl)
                    | inr e' ↦ rw e' (_, refl)
                  ]))
          ])

-- TestTriggerSequence returns on a machine whose pages come back or raise a counted signal, for a trigger of at most 200 bytes
-- and at most 100 resets, when the code of both pages, with the trigger and with the NOP in its place, is
-- shorter than a page.
pub test_trigger_sequence-Returns :
    (m : Machine) (trigger measurement reset : Bytes) (only_in_speculation : Bool)
    (no_testruns reset_amount : ℕ) (s : Executor m)
    → IsHandling m
    → length trigger ≤ 200
    → reset_amount ≤ 100
    → length (trigger_code only_in_speculation trigger measurement reset reset_amount) < pagesize
    → length (trigger_code only_in_speculation nop_sequence measurement reset reset_amount)
      < pagesize
    → Returns (
        test_trigger_sequence m trigger measurement reset only_in_speculation no_testruns
          reset_amount s)
unfolding test_trigger_sequence
test_trigger_sequence-Returns m trigger measurement reset only_in_speculation no_testruns
      reset_amount s handling short few fits_trigger fits_nop =
    let test : leb (length trigger) 200 ≡ true = ground arith in
    rw test (
      >>=-Returns
        (trigger_page m only_in_speculation trigger measurement reset reset_amount s.page_0) _
        (trigger_page-Returns m only_in_speculation trigger measurement reset reset_amount s.page_0
          few fits_trigger)
        (λ page_0.
          >>=-Returns
            (trigger_page m only_in_speculation nop_sequence measurement reset reset_amount
              s.page_1)
            _
            (trigger_page-Returns m only_in_speculation nop_sequence measurement reset reset_amount
              s.page_1 few fits_nop)
            (λ page_1. measure_trigger-Returns m handling no_testruns _)))

-- TestResetSequence returns on a machine whose pages come back or raise a counted signal, for at most 100
-- resets, when the code of both pages is shorter than a page.
pub test_reset_sequence-Returns :
    (m : Machine) (trigger measurement reset : Bytes) (no_testruns reset_amount : ℕ)
    (s : Executor m)
    → IsHandling m
    → reset_amount ≤ 100
    → length (reset_testrun_code trigger measurement reset reset_amount) < pagesize
    → length
        (reset_testrun_code (create_sequence_of_nops (length reset)) measurement reset reset_amount)
      < pagesize
    → Returns (test_reset_sequence m trigger measurement reset no_testruns reset_amount s)
unfolding test_reset_sequence
test_reset_sequence-Returns m trigger measurement reset no_testruns reset_amount s handling few
      fits_trigger fits_nops =
    let nops = create_sequence_of_nops (length reset) in
    >>=-Returns (create_reset_testrun_code nops measurement reset reset_amount s.page_0) _
      (emitted reset_amount _ _
        (create_reset_testrun_code_lem nops measurement reset reset_amount s.page_0) few fits_nops)
      (λ page_0.
        >>=-Returns (create_reset_testrun_code trigger measurement reset reset_amount s.page_1) _
          (emitted reset_amount _ _
            (create_reset_testrun_code_lem trigger measurement reset reset_amount s.page_1) few
            fits_trigger)
          (λ page_1. measure_reset-Returns m handling no_testruns _))
