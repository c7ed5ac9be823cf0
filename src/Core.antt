-- ===== src/Core.antt =====
-- src/core.cc: the searches for trigger-reset pairs and the test of the instruction list. Files that are
-- written come back as their content.
pub mod Cleanup
pub mod Csv
pub mod Format
pub mod Search
use osiris_arm.Common.{
  ℕ, zero, suc, ◌+◌, ◌-◌, Bytes, codes, str_eq, List, [], ◌∷◌, ◌++◌, Bool, true, false, ◌&&◌, ◌||◌,
  Option, none, some, ◌==◌, if◌then◌else◌, length, Outcome, ok, aborted, ◌>>=◌,
}
use osiris_arm.Common.Int.{ℤ, pos, negsuc, ltb_ℤ}
use osiris_arm.Common.Text.{to_string, unlines}
use osiris_arm.Utils.Base64.{base64_encode}
use osiris_arm.CodeGenerator.{
  X86Instruction, CodeGenerator, create_instruction_from_index, get_number_of_instructions,
  get_csv_representation, header,
}
use osiris_arm.Executor.Machine.{Machine}
use osiris_arm.Executor.Experiment.{
  Executor, TestResult, test_trigger_sequence, test_reset_sequence,
}

-- the members of Core that the constructor sets
abbrev pub iterations_no : ℕ
iterations_no = 10

abbrev pub reset_executions_amount_without_assumptions : ℕ
reset_executions_amount_without_assumptions = 1

abbrev pub reset_executions_amount_trigger_equals_measurement : ℕ
reset_executions_amount_trigger_equals_measurement = 50

-- the sleeps, which are only valid reset sequences
unfoldable pub is_sleep : X86Instruction → Bool
unfolding str_eq
is_sleep i =
    str_eq i.assembly_code (codes "busy-sleep")
    || str_eq i.assembly_code (codes "short-busy-sleep")
    || str_eq i.assembly_code (codes "sleep-syscall")

-- `result < low || result > high`
abbrev pub is_outside : ℤ → ℤ → ℤ → Bool
is_outside low high result = ltb_ℤ result low || ltb_ℤ high result

-- `-20 < reset_test_result && reset_test_result < 20`
abbrev pub is_quiet : ℤ → Bool
is_quiet result = ltb_ℤ (negsuc 19) result && ltb_ℤ result (pos 20)

-- One line of the csv output.
unfoldable pub csv_line : ℤ → X86Instruction → X86Instruction → X86Instruction → Bytes
unfolding to_string get_csv_representation
csv_line result measurement trigger reset =
    to_string result
    ++ (codes ";"
        ++ (get_csv_representation measurement
            ++ (codes ";"
                ++ (get_csv_representation trigger
                    ++ (codes ";" ++ get_csv_representation reset)))))

module _ (m : Machine) where
  -- The body of the innermost loops: the timing that is written, if there is one. The second
  -- experiment is made only behind a success of the first.
  unfoldable pub test_triple :
      Bool
      → ℤ
      → ℤ
      → ℕ
      → X86Instruction
      → X86Instruction
      → X86Instruction
      → Executor m
      → Outcome (Option ℤ × Executor m)
  test_triple only_in_speculation low high amount trigger measurement reset s = do
    let reset_amount = if is_sleep reset then 1 else amount
    r ←
        test_trigger_sequence m trigger.byte_representation measurement.byte_representation
          reset.byte_representation only_in_speculation iterations_no reset_amount s
    let again =
        test_reset_sequence m trigger.byte_representation measurement.byte_representation
          reset.byte_representation iterations_no reset_amount r.1
    (if r.0.error == 0 && is_outside low high r.0.cycles_difference
        then (do
          q ← again
          ok (
            (if q.0.error == 0 && is_quiet q.0.cycles_difference
                then some r.0.cycles_difference
                else none),
            q.1,
          ))
        else ok (none, r.1))
