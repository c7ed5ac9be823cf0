-- ===== src/Core/Cleanup.antt =====
-- src/core.cc: the test of the instruction list, which runs each instruction as trigger, measurement
-- and reset, and writes those that do not fault in the format that CodeGenerator reads.
pub mod Reload
pub mod Output
use osiris_arm.Common.{
  ℕ, zero, suc, Bytes, codes, List, [], ◌∷◌, ◌++◌, false, ◌==◌, if◌then◌else◌, Outcome, ok, ◌>>=◌,
}
use osiris_arm.Common.Text.{unlines}
use osiris_arm.Utils.Base64.{base64_encode}
use osiris_arm.CodeGenerator.{
  X86Instruction, CodeGenerator, create_instruction_from_index, get_number_of_instructions, header,
}
use osiris_arm.Executor.Machine.{Machine}
use osiris_arm.Executor.Experiment.{Executor, test_trigger_sequence}

-- one line of the output
unfoldable pub instruction_line : X86Instruction → Bytes
unfolding base64_encode
instruction_line i =
    base64_encode i.byte_representation
    ++ (codes ";"
        ++ (i.assembly_code
            ++ (codes ";"
                ++ (i.category ++ (codes ";" ++ (i.extension ++ (codes ";" ++ i.isa_set)))))))

-- the `for` over the indices that are written
unfoldable pub output_lines : CodeGenerator → List ℕ → Outcome (List Bytes)
unfolding instruction_line
output_lines g [] = ok []
output_lines g (instruction_idx ∷ rest) = do
  instruction ← create_instruction_from_index g instruction_idx
  lines ← output_lines g rest
  ok (instruction_line instruction ∷ lines)

-- What is written for the indices: nothing, not even the header, when there are none.
unfoldable pub output_text : CodeGenerator → List ℕ → Outcome Bytes
unfolding output_lines
output_text g [] = ok []
output_text g (i ∷ is) = do lines ← output_lines g (i ∷ is); ok (unlines (header ∷ lines))

module _ (m : Machine) (g : CodeGenerator) where
  -- one round of FindNonFaultingInstructions: a write to the device, and the experiment
  unfoldable pub test_instruction : X86Instruction → Executor m → Outcome (ℕ × Executor m)
  unfolding test_trigger_sequence
  test_instruction i s = do
    r ←
        test_trigger_sequence m i.byte_representation i.byte_representation i.byte_representation
          false 1 1 (record s { world = m.ic_iallu s.world })
    ok (r.0.error, r.1)

  unfoldable pub find_loop : ℕ → ℕ → List ℕ → Executor m → Outcome (List ℕ × Executor m)
  unfolding test_instruction
  find_loop inst_idx zero indexes s = ok (indexes, s)
  find_loop inst_idx (suc left) indexes s = do
    instruction ← create_instruction_from_index g inst_idx
    r ← test_instruction instruction s
    find_loop (suc inst_idx) left (if r.0 == 0 then indexes ++ inst_idx ∷ [] else indexes) r.1

  unfoldable pub find_non_faulting_instructions : Executor m → Outcome (List ℕ × Executor m)
  unfolding find_loop
  find_non_faulting_instructions s = find_loop 0 (get_number_of_instructions g) [] s

  -- OutputNonFaultingInstructions: the content of the output file
  unfoldable pub output_non_faulting_instructions : Executor m → Outcome (Bytes × Executor m)
  unfolding find_non_faulting_instructions output_text
  output_non_faulting_instructions s = do
    r ← find_non_faulting_instructions s
    text ← output_text g r.0
    ok (text, r.1)
