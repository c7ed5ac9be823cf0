-- ===== src/Core/Search.antt =====
-- src/core.cc: the two searches, loop by loop.
pub mod Ends
pub mod Report
pub mod Readable
pub mod Equal
pub mod EqualEnds
pub mod EqualSize
use osiris_arm.Common.{
  ℕ, zero, suc, ◌+◌, ◌-◌, Bytes, codes, List, [], ◌∷◌, ◌++◌, Bool, true, false, ◌||◌, Option, none,
  some, ◌==◌, if◌then◌else◌, length, Outcome, ok, aborted, ◌>>=◌,
}
use osiris_arm.Common.Int.{ℤ, pos, negsuc, sub_ℕ, ◌-ℤ◌}
use osiris_arm.Common.Text.{str_eq, contains, to_string, unlines}
use osiris_arm.Utils.Base64.{base64_encode}
use osiris_arm.CodeGenerator.{
  X86Instruction, CodeGenerator, create_instruction_from_index, get_number_of_instructions,
}
use osiris_arm.Filter.Line.{csv_header}
use osiris_arm.Executor.Machine.{Machine}
use osiris_arm.Executor.Experiment.{Executor}
use osiris_arm.Core.{
  is_sleep, csv_line, test_triple, reset_executions_amount_without_assumptions,
  reset_executions_amount_trigger_equals_measurement,
}

-- A file below the output folder: its name and its content.
abbrev pub ResultFile : Type 0
ResultFile = Bytes × Bytes

unfoldable pub strip_slashes : Bytes → Bytes
strip_slashes [] = []
strip_slashes (c ∷ s) = if c == b'/' then strip_slashes s else c ∷ s

-- the files but the one of a name
unfoldable pub remove_file : Bytes → List ResultFile → List ResultFile
unfolding str_eq
remove_file name [] = []
remove_file name ((other, content) ∷ files) =
    let rest = remove_file name files in if str_eq other name then rest else (other, content) ∷ rest

-- A file is created below a folder, and its stream is not checked. The path is the folder, a slash and
-- the name, so slashes at the front of the name do nothing, and a name with a slash further on names a
-- folder that does not exist: what is written is lost. A file of the same name is written again.
unfoldable pub create_file : Bytes → Bytes → List ResultFile → List ResultFile
unfolding strip_slashes remove_file contains
create_file path content files =
    let name = strip_slashes path in
    if str_eq name [] || contains (codes "/") name
    then files
    else remove_file name files ++ (name, content) ∷ []

-- the lines that one tested triple adds
unfoldable pub add_line :
    X86Instruction → X86Instruction → X86Instruction → List Bytes → Option ℤ → List Bytes
add_line measurement trigger reset csv none = csv
add_line measurement trigger reset csv (some result) =
    csv ++ csv_line result measurement trigger reset ∷ []

-- one line of a file of the output folder
unfoldable pub output_line : X86Instruction → ℤ → Bytes
unfolding to_string base64_encode
output_line reset result =
    base64_encode reset.byte_representation ++ (codes ";" ++ to_string result)

unfoldable pub add_output : X86Instruction → List Bytes → Option ℤ → List Bytes
unfolding output_line
add_output reset output none = output
add_output reset output (some result) = output ++ output_line reset result ∷ []

-- a file is written for a trigger with a result
unfoldable pub add_file : X86Instruction → List Bytes → List ResultFile → List ResultFile
unfolding create_file
add_file trigger [] files = files
add_file trigger (l ∷ ls) files =
    create_file (base64_encode trigger.byte_representation) (unlines (l ∷ ls)) files

module _ (m : Machine) (g : CodeGenerator) (only_in_speculation : Bool) where
  -- The `for` over the resets, by the instructions left. Its bounds are written for every search:
  -- a timing below `low` or above `high` counts.
  unfoldable pub reset_loop :
      ℤ
      → ℤ
      → X86Instruction
      → X86Instruction
      → ℕ
      → ℕ
      → List Bytes
      → Executor m
      → Outcome (List Bytes × Executor m)
  unfolding add_line
  reset_loop low high measurement trigger reset_idx zero csv s = ok (csv, s)
  reset_loop low high measurement trigger reset_idx (suc left) csv s = do
    reset ← create_instruction_from_index g reset_idx
    r ←
        test_triple m only_in_speculation low high reset_executions_amount_without_assumptions
          trigger measurement reset s
    reset_loop low high measurement trigger (suc reset_idx) left
        (add_line measurement trigger reset csv r.0) r.1

  unfoldable pub trigger_loop :
      ℤ → ℤ → X86Instruction → ℕ → ℕ → List Bytes → Executor m → Outcome (List Bytes × Executor m)
  trigger_loop low high measurement trigger_idx zero csv s = ok (csv, s)
  trigger_loop low high measurement trigger_idx (suc left) csv s = do
    trigger ← create_instruction_from_index g trigger_idx
    r ←
        (if is_sleep trigger
          then ok (csv, s)
          else reset_loop low high measurement trigger 0 (get_number_of_instructions g) csv s)
    trigger_loop low high measurement (suc trigger_idx) left r.0 r.1

  unfoldable pub measurement_loop :
      ℤ → ℤ → ℕ → ℕ → List Bytes → Executor m → Outcome (List Bytes × Executor m)
  measurement_loop low high measurement_idx zero csv s = ok (csv, s)
  measurement_loop low high measurement_idx (suc left) csv s = do
    measurement ← create_instruction_from_index g measurement_idx
    r ← trigger_loop low high measurement 0 (get_number_of_instructions g) csv s
    measurement_loop low high (suc measurement_idx) left r.0 r.1

  -- FindAndOutputTriggerpairsWithoutAssumptions: the content of the csv file. The code goes on when
  -- the file cannot be opened; what it writes is then lost.
  unfoldable pub find_and_output_triggerpairs_without_assumptions :
      ℤ → Executor m → Outcome (Bytes × Executor m)
  unfolding measurement_loop trigger_loop reset_loop
  find_and_output_triggerpairs_without_assumptions threshold s = do
    r ←
        measurement_loop (pos 0 -ℤ threshold) threshold 0 (get_number_of_instructions g)
          (csv_header ∷ []) s
    ok (unlines r.0, r.1)

  -- the `for` over the resets of the other search, which writes to two streams
  unfoldable pub equal_reset_loop :
      ℤ
      → ℤ
      → X86Instruction
      → ℕ
      → ℕ
      → List Bytes
      → List Bytes
      → Executor m
      → Outcome (List Bytes × (List Bytes × Executor m))
  unfolding add_line add_output
  equal_reset_loop low high trigger reset_idx zero output csv s = ok (output, (csv, s))
  equal_reset_loop low high trigger reset_idx (suc left) output csv s = do
    reset ← create_instruction_from_index g reset_idx
    r ←
        test_triple m only_in_speculation low high
          reset_executions_amount_trigger_equals_measurement trigger trigger reset s
    equal_reset_loop low high trigger (suc reset_idx) left (add_output reset output r.0)
        (add_line trigger trigger reset csv r.0) r.1

  unfoldable pub equal_trigger_loop :
      ℤ
      → ℤ
      → ℕ
      → ℕ
      → List ResultFile
      → List Bytes
      → Executor m
      → Outcome (List ResultFile × (List Bytes × Executor m))
  unfolding add_file
  equal_trigger_loop low high trigger_idx zero files csv s = ok (files, (csv, s))
  equal_trigger_loop low high trigger_idx (suc left) files csv s = do
    trigger ← create_instruction_from_index g trigger_idx
    r ←
        (if is_sleep trigger
          then ok ([], (csv, s))
          else equal_reset_loop low high trigger 0 (get_number_of_instructions g) [] csv s)
    equal_trigger_loop low high (suc trigger_idx) left (add_file trigger r.0 files) r.1.0 r.1.1

  -- FindAndOutputTriggerpairsWithTriggerEqualsMeasurement: the files of the recreated folder, in the
  -- order of their writing, and the content of the csv file.
  unfoldable pub find_and_output_triggerpairs_with_trigger_equals_measurement :
      ℤ → ℤ → Executor m → Outcome (List ResultFile × (Bytes × Executor m))
  unfolding equal_trigger_loop equal_reset_loop
  find_and_output_triggerpairs_with_trigger_equals_measurement low high s = do
    r ← equal_trigger_loop low high 0 (get_number_of_instructions g) [] (csv_header ∷ []) s
    ok (r.0, (unlines r.1.0, r.1.1))
