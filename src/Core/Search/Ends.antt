-- ===== src/Core/Search/Ends.antt =====
-- src/core.cc: when the search without assumptions comes to its end.
use osiris_arm.Common.{
  ℕ, zero, suc, ◌+◌, ◌*◌, ◌<◌, ◌≤◌, ◌≡◌, refl, Bytes, List, [], ◌∷◌, Bool, true, false, ◌&&◌, inl,
  inr, Bool-cases, ◌==◌, if◌then◌else◌, length, get_elem?-some, All-get_elem?, ok, Returns,
  >>=-Returns, arith, All,
}
use osiris_arm.Common.Int.{ℤ, pos, ◌-ℤ◌}
use osiris_arm.CodeGenerator.{
  X86Instruction, CodeGenerator, create_instruction_from_index, get_number_of_instructions,
}
use osiris_arm.CodeGenerator.Load.{found_by_index}
use osiris_arm.Filter.Line.{csv_header}
use osiris_arm.Executor.Codegen.{create_sequence_of_nops}
use osiris_arm.Executor.Codegen.Length.{
  length-testrun_code, length-reset_testrun_code, length-speculative_code,
  length-create_sequence_of_nops,
}
use osiris_arm.Executor.Machine.{Machine}
use osiris_arm.Executor.Page.{pagesize}
use osiris_arm.Executor.Experiment.{
  Executor, nop_sequence, test_trigger_sequence, test_reset_sequence,
}
use osiris_arm.Executor.Experiment.Ends.{
  IsHandling, trigger_code, test_trigger_sequence-Returns, test_reset_sequence-Returns,
}
use osiris_arm.Core.{
  is_sleep, is_outside, test_triple, iterations_no, reset_executions_amount_without_assumptions,
}
use osiris_arm.Core.Search.{
  reset_loop, trigger_loop, measurement_loop, find_and_output_triggerpairs_without_assumptions,
}

-- An instruction of at most 200 bytes, which the assertion of TestTriggerSequence asks for.
abbrev pub IsBrief : X86Instruction → Type 0
IsBrief i = length i.byte_representation ≤ 200

pub found :
    (g : CodeGenerator) (i : ℕ)
    → All IsBrief g.instruction_list
    → i < get_number_of_instructions g
    → (x : X86Instruction) × (create_instruction_from_index g i ≡ ok x) × IsBrief x
unfolding get_number_of_instructions
found g i brief inside =
    let (x, e) = get_elem?-some g.instruction_list i inside in
    (x, found_by_index g i x e, All-get_elem? IsBrief g.instruction_list i x brief e)

at_most_once : (n k : ℕ) → n ≤ 1 → n * k ≤ k
at_most_once zero k h = omega arith
at_most_once (suc zero) k h = omega arith
at_most_once (suc (suc n)) k h = absurd (omega arith)

once : (b : Bool) → (if b then 1 else 1) ≤ 1
once true = omega arith
once false = omega arith

-- the executions of a reset that a test makes
abbrev pub executions : X86Instruction → ℕ → ℕ
executions reset amount = if is_sleep reset then 1 else amount

trigger_code-fits :
    (only_in_speculation : Bool) (trigger measurement reset : Bytes) (amount : ℕ)
    → length trigger ≤ 200
    → length measurement ≤ 200
    → amount * length reset ≤ 3400
    → length (trigger_code only_in_speculation trigger measurement reset amount) < pagesize
trigger_code-fits true trigger measurement reset amount t m r =
    omega (arith, length-speculative_code measurement trigger reset amount)
trigger_code-fits false trigger measurement reset amount t m r =
    omega (arith, length-testrun_code reset trigger measurement amount)

module _ (m : Machine) (handling : IsHandling m) (only_in_speculation : Bool) (low high : ℤ) where
  pub test_triple-Returns :
      (amount : ℕ) (trigger measurement reset : X86Instruction) (s : Executor m)
      → IsBrief trigger
      → IsBrief measurement
      → IsBrief reset
      → executions reset amount ≤ 100
      → executions reset amount * length reset.byte_representation ≤ 3400
      → Returns (test_triple m only_in_speculation low high amount trigger measurement reset s)
  unfolding test_triple
  test_triple-Returns amount trigger measurement reset s t me r few copies =
      let T = trigger.byte_representation in
      let M = measurement.byte_representation in
      let R = reset.byte_representation in
      let times = executions reset amount in
      let nops = create_sequence_of_nops (length R) in
      >>=-Returns (test_trigger_sequence m T M R only_in_speculation iterations_no times s) _
        (test_trigger_sequence-Returns m T M R only_in_speculation iterations_no times s handling t
          few (trigger_code-fits only_in_speculation T M R times t me copies)
          (trigger_code-fits only_in_speculation nop_sequence M R times (omega arith) me copies))
        (λ q. elim (Bool-cases (q.0.error == 0 && is_outside low high q.0.cycles_difference)) [
          | inr e ↦ rw e (_, refl)
          | inl e ↦ rw e (
              >>=-Returns (test_reset_sequence m T M R iterations_no times q.1) _
                (test_reset_sequence-Returns m T M R iterations_no times q.1 handling few
                  (omega (arith, length-reset_testrun_code T M R times))
                  (omega (
                    arith,
                    length-reset_testrun_code nops M R times,
                    length-create_sequence_of_nops (length R),
                  )))
                (λ w. (_, refl)))
        ])

  module _ (g : CodeGenerator) (brief : All IsBrief g.instruction_list) where
    reset_loop-Returns :
        (measurement trigger : X86Instruction) (reset_idx left : ℕ) (csv : List Bytes)
        (s : Executor m)
        → reset_idx + left ≤ get_number_of_instructions g
        → IsBrief measurement
        → IsBrief trigger
        → Returns
            (reset_loop m g only_in_speculation low high measurement trigger reset_idx left csv s)
    unfolding reset_loop
    reset_loop-Returns measurement trigger reset_idx zero csv s inside me t = (_, refl)
    reset_loop-Returns measurement trigger reset_idx (suc left) csv s inside me t =
        let (reset, e, r) = found g reset_idx brief (omega arith) in
        rw e (
          >>=-Returns
            (test_triple m only_in_speculation low high reset_executions_amount_without_assumptions
              trigger measurement reset s)
            _
            (test_triple-Returns reset_executions_amount_without_assumptions trigger measurement
              reset s t me r (omega (arith, once (is_sleep reset)))
              (omega (
                arith,
                at_most_once (executions reset 1) (length reset.byte_representation)
                    (once (is_sleep reset)),
              )))
            (λ q.
              reset_loop-Returns measurement trigger (suc reset_idx) left _ q.1 (omega arith) me t))

    trigger_loop-Returns :
        (measurement : X86Instruction) (trigger_idx left : ℕ) (csv : List Bytes) (s : Executor m)
        → trigger_idx + left ≤ get_number_of_instructions g
        → IsBrief measurement
        → Returns (trigger_loop m g only_in_speculation low high measurement trigger_idx left csv s)
    unfolding trigger_loop
    trigger_loop-Returns measurement trigger_idx zero csv s inside me = (_, refl)
    trigger_loop-Returns measurement trigger_idx (suc left) csv s inside me =
        let (trigger, e, t) = found g trigger_idx brief (omega arith) in
        rw e (elim (Bool-cases (is_sleep trigger)) [
          | inl asleep ↦
              rw asleep
                (trigger_loop-Returns measurement (suc trigger_idx) left csv s (omega arith) me)
          | inr awake ↦ rw awake (
              >>=-Returns
                (reset_loop m g only_in_speculation low high measurement trigger 0
                  (get_number_of_instructions g) csv s)
                _
                (reset_loop-Returns measurement trigger 0 (get_number_of_instructions g) csv s
                  (omega arith) me t)
                (λ q.
                  trigger_loop-Returns measurement (suc trigger_idx) left q.0 q.1 (omega arith) me))
        ])

    measurement_loop-Returns :
        (measurement_idx left : ℕ) (csv : List Bytes) (s : Executor m)
        → measurement_idx + left ≤ get_number_of_instructions g
        → Returns (measurement_loop m g only_in_speculation low high measurement_idx left csv s)
    unfolding measurement_loop
    measurement_loop-Returns measurement_idx zero csv s inside = (_, refl)
    measurement_loop-Returns measurement_idx (suc left) csv s inside =
        let (measurement, e, me) = found g measurement_idx brief (omega arith) in
        rw e (
          >>=-Returns
            (trigger_loop m g only_in_speculation low high measurement 0
              (get_number_of_instructions g) csv s)
            _
            (trigger_loop-Returns measurement 0 (get_number_of_instructions g) csv s (omega arith)
              me)
            (λ q. measurement_loop-Returns (suc measurement_idx) left q.0 q.1 (omega arith)))

-- The search without assumptions comes to its end and writes its file, for any list of instructions of
-- at most 200 bytes, on a machine whose pages come back or raise a counted signal.
pub find_and_output_triggerpairs_without_assumptions-Returns :
    (m : Machine) (g : CodeGenerator) (only_in_speculation : Bool) (threshold : ℤ) (s : Executor m)
    → IsHandling m
    → All IsBrief g.instruction_list
    → Returns (find_and_output_triggerpairs_without_assumptions m g only_in_speculation threshold s)
unfolding find_and_output_triggerpairs_without_assumptions
find_and_output_triggerpairs_without_assumptions-Returns m g only_in_speculation threshold s
      handling brief =
    >>=-Returns
      (measurement_loop m g only_in_speculation (pos 0 -ℤ threshold) threshold 0
        (get_number_of_instructions g) (csv_header ∷ []) s)
      _
      (measurement_loop-Returns m handling only_in_speculation (pos 0 -ℤ threshold) threshold g
        brief 0 (get_number_of_instructions g) (csv_header ∷ []) s (omega arith))
      (λ r. (_, refl))
