-- ===== src/Examples/Outputs.antt =====
-- The test of the instruction list in src/core.cc on a small machine.
use osiris_arm.Common.{
  ℕ, ◌*◌, ◌^◌, ◌≤◌, ◌≡◌, refl, Bytes, List, [], ◌++◌, ◌⊎◌, some, length, Outcome, ok, All,
}
use osiris_arm.Utils.Hash.{calculate_file_hash_sha256}
use osiris_arm.CodeGenerator.Uid.{hex4}
use osiris_arm.CodeGenerator.{
  X86Instruction, load, get_number_of_instructions, create_instruction_from_index,
}
use osiris_arm.Executor.Experiment.{Executor, sample, execute_testrun}
use osiris_arm.Core.Cleanup.{output_non_faulting_instructions}
use osiris_arm.Core.Cleanup.Reload.{with_uids}
use osiris_arm.Core.Cleanup.Output.{IsListed, output_non_faulting_instructions-load}
use osiris_arm.Examples.{toy_sha}
use osiris_arm.Examples.Instructions.{nop_file, loaded, nop_file_loads}
use osiris_arm.Examples.Machines.{toy_machine, start, report_or}

abbrev nop_output : Outcome (Bytes × Executor toy_machine)
nop_output = output_non_faulting_instructions toy_machine loaded start

nop_output_succeeds : nop_output ≡ ok (report_or nop_output)
unfolding output_non_faulting_instructions get_number_of_instructions create_instruction_from_index
    sample execute_testrun
nop_output_succeeds = refl

output_non_faulting_instructions-load_example :
    ((report_or nop_output).0 ≡ [])
    ⊎ ((xs : List X86Instruction) × (start : Bytes) × (v : ℕ) × (calculate_file_hash_sha256 toy_sha
            (some (report_or nop_output).0)
          ≡ start ++ hex4 v)
        × (load toy_sha (some (report_or nop_output).0)
            ≡ ok (record {
              instruction_list = with_uids (v * 2 ^ 16) xs;
              instruction_file_sha256hash = start ++ hex4 v;
            }))
        × All (IsListed loaded) xs
        × (length xs ≤ 1))
output_non_faulting_instructions-load_example =
    output_non_faulting_instructions-load toy_machine toy_sha nop_file start nop_file_loads
      nop_output_succeeds
