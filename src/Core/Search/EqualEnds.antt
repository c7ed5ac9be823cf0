-- ===== src/Core/Search/EqualEnds.antt =====
-- src/core.cc: when the search with equal trigger and measurement comes to its end.
use osiris_arm.Common.{
  ℕ, zero, suc, ◌+◌, ◌*◌, ◌≤◌, ◌≡◌, refl, Bytes, List, [], ◌∷◌, Bool, true, false, inl, inr,
  Bool-cases, if◌then◌else◌, length, ok, Returns, >>=-Returns, arith, All, All-get_elem?,
  get_elem?-some,
}
use osiris_arm.Common.Int.{ℤ}
use osiris_arm.CodeGenerator.{
  X86Instruction, CodeGenerator, create_instruction_from_index, get_number_of_instructions,
}
use osiris_arm.CodeGenerator.Load.{found_by_index}
use osiris_arm.Filter.Line.{csv_header}
use osiris_arm.Executor.Machine.{Machine}
use osiris_arm.Executor.Experiment.{Executor}
use osiris_arm.Executor.Experiment.Ends.{IsHandling}
use osiris_arm.Core.{is_sleep, test_triple, reset_executions_amount_trigger_equals_measurement}
use osiris_arm.Core.Search.{
  ResultFile, equal_reset_loop, equal_trigger_loop,
  find_and_output_triggerpairs_with_trigger_equals_measurement,
}
use osiris_arm.Core.Search.Ends.{executions, test_triple-Returns}

-- At most 68 bytes, of which a page holds 50 copies beside the other code.
abbrev pub IsSmall : X86Instruction → Type 0
IsSmall i = length i.byte_representation ≤ 68

found-IsSmall :
    (g : CodeGenerator) (i : ℕ)
    → All IsSmall g.instruction_list
    → suc i ≤ get_number_of_instructions g
    → (x : X86Instruction) × (create_instruction_from_index g i ≡ ok x) × IsSmall x
unfolding get_number_of_instructions
found-IsSmall g i small inside =
    let (x, e) = get_elem?-some g.instruction_list i inside in
    (x, found_by_index g i x e, All-get_elem? IsSmall g.instruction_list i x small e)

fifty : (b : Bool) → (if b then 1 else 50) ≤ 50
fifty true = omega arith
fifty false = omega arith

copies : (amount n : ℕ) → amount ≤ 50 → n ≤ 68 → amount * n ≤ 3400
copies amount n h k = grind arith

module _ (m : Machine) (handling : IsHandling m) (only_in_speculation : Bool) (low high : ℤ) where
  module _ (g : CodeGenerator) (small : All IsSmall g.instruction_list) where
    equal_reset_loop-Returns :
        (trigger : X86Instruction) (reset_idx left : ℕ) (output csv : List Bytes) (s : Executor m)
        → reset_idx + left ≤ get_number_of_instructions g
        → IsSmall trigger
        → Returns
            (equal_reset_loop m g only_in_speculation low high trigger reset_idx left output csv s)
    unfolding equal_reset_loop
    equal_reset_loop-Returns trigger reset_idx zero output csv s inside t = (_, refl)
    equal_reset_loop-Returns trigger reset_idx (suc left) output csv s inside t =
        let (reset, e, r) = found-IsSmall g reset_idx small (omega arith) in
        let few = fifty (is_sleep reset) in
        rw e (
          >>=-Returns
            (test_triple m only_in_speculation low high
              reset_executions_amount_trigger_equals_measurement trigger trigger reset s)
            _
            (test_triple-Returns m handling only_in_speculation low high
              reset_executions_amount_trigger_equals_measurement trigger trigger reset s
              (omega arith) (omega arith) (omega arith) (omega (arith, few))
              (copies (executions reset 50) (length reset.byte_representation) few r))
            (λ q. equal_reset_loop-Returns trigger (suc reset_idx) left _ _ q.1 (omega arith) t))

    equal_trigger_loop-Returns :
        (trigger_idx left : ℕ) (files : List ResultFile) (csv : List Bytes) (s : Executor m)
        → trigger_idx + left ≤ get_number_of_instructions g
        → Returns (equal_trigger_loop m g only_in_speculation low high trigger_idx left files csv s)
    unfolding equal_trigger_loop
    equal_trigger_loop-Returns trigger_idx zero files csv s inside = (_, refl)
    equal_trigger_loop-Returns trigger_idx (suc left) files csv s inside =
        let (trigger, e, t) = found-IsSmall g trigger_idx small (omega arith) in
        rw e (elim (Bool-cases (is_sleep trigger)) [
          | inl asleep ↦
              rw asleep (equal_trigger_loop-Returns (suc trigger_idx) left _ csv s (omega arith))
          | inr awake ↦ rw awake (
              >>=-Returns
                (equal_reset_loop m g only_in_speculation low high trigger 0
                  (get_number_of_instructions g) [] csv s)
                _
                (equal_reset_loop-Returns trigger 0 (get_number_of_instructions g) [] csv s
                  (omega arith) t)
                (λ q.
                  equal_trigger_loop-Returns (suc trigger_idx) left _ q.1.0 q.1.1 (omega arith)))
        ])

-- The search with equal trigger and measurement comes to its end, for any list of instructions of at most
-- 68 bytes, on a machine whose pages come back or raise a counted signal.
pub find_and_output_triggerpairs_with_trigger_equals_measurement-Returns :
    (m : Machine) (g : CodeGenerator) (only_in_speculation : Bool) (low high : ℤ) (s : Executor m)
    → IsHandling m
    → All IsSmall g.instruction_list
    → Returns (
        find_and_output_triggerpairs_with_trigger_equals_measurement m g only_in_speculation low
          high s)
unfolding find_and_output_triggerpairs_with_trigger_equals_measurement
find_and_output_triggerpairs_with_trigger_equals_measurement-Returns m g only_in_speculation low
      high s handling small =
    >>=-Returns
      (equal_trigger_loop m g only_in_speculation low high 0 (get_number_of_instructions g) []
        (csv_header ∷ []) s)
      _
      (equal_trigger_loop-Returns m handling only_in_speculation low high g small 0
        (get_number_of_instructions g) [] (csv_header ∷ []) s (omega arith))
      (λ r. (_, refl))
