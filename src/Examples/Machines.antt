-- ===== src/Examples/Machines.antt =====
-- Runs of src/executor.cc and src/core.cc on a small machine.
use osiris_arm.Common.{
  ℕ, suc, ◌+◌, ◌-◌, ◌^◌, ◌≡◌, refl, Bytes, List, [], ◌∷◌, ◌++◌, false, if◌then◌else◌, ltb, length,
  drop, Outcome, ok, exited, aborted, undefined, Returns, arith, All,
}
use osiris_arm.Executor.Codegen.Length.{length-testrun_code}
use osiris_arm.Executor.Experiment.Ends.{test_trigger_sequence-Returns}
use osiris_arm.Core.Search.Ends.{find_and_output_triggerpairs_without_assumptions-Returns}
use osiris_arm.Common.Text.{unlines}
use osiris_arm.Common.Int.{pos, half, ◌-ℤ◌, ◌+ℤ◌}
use osiris_arm.CodeGenerator.{
  CodeGenerator, get_number_of_instructions, create_instruction_from_index,
}
use osiris_arm.Filter.Line.{csv_header}
use osiris_arm.Executor.Page.{CodePage, write_loop, write_at}
use osiris_arm.Executor.Page.Layout.{emit, up_to_100, write_loop_lem}
use osiris_arm.Executor.Codegen.{
  create_reset_testrun_code, create_testrun_code, create_speculative_trigger_testrun_code,
  call_displacement, jmp_displacement, lea_rip_displacement,
}
use osiris_arm.Executor.Codegen.Layout.{
  reset_testrun_code, testrun_code, measured, create_reset_testrun_code_lem,
  create_testrun_code_lem,
}
use osiris_arm.Executor.Codegen.Speculation.{
  speculative_code, before_call, lea_code, return_code, create_speculative_trigger_testrun_code_lem,
  displacements_lem,
}
use osiris_arm.Executor.Machine.{
  Machine, returned, raised, sigill, Faults, Execution, execute_code_page,
}
use osiris_arm.Executor.Machine.Counters.{IsCounted, execute_code_page_lem}
use osiris_arm.Executor.Experiment.{
  Executor, TestResult, nop_sequence, sample, execute_testrun, to_int64, test_trigger_sequence,
  test_reset_sequence,
}
use osiris_arm.Executor.Experiment.Results.{IsTriggerResult, test_trigger_sequence_lem}
use osiris_arm.Core.{is_sleep, test_triple}
use osiris_arm.Core.Search.{find_and_output_triggerpairs_without_assumptions}
use osiris_arm.Core.Search.Report.{IsFound, find_and_output_triggerpairs_without_assumptions_lem}
use osiris_arm.Examples.Instructions.{nop_instruction}

-- A machine whose first ten runs take 300 cycles, and the others 100.
abbrev pub toy_machine : Machine
toy_machine = record {
  World = ℕ;
  call = λ runs code pages. (returned (if ltb runs 10 then 300 else 100), (suc runs, pages));
  read_pmcr = λ runs. 0;
  write_pmcr = λ runs value. runs;
  ic_iallu = λ runs. runs;
}

-- A machine on which every page is an illegal instruction.
abbrev faulty_machine : Machine
faulty_machine = record {
  World = ℕ;
  call = λ runs code pages. (raised sigill, (suc runs, pages));
  read_pmcr = λ runs. 0;
  write_pmcr = λ runs value. runs;
  ic_iallu = λ runs. runs;
}

abbrev pub no_faults : Faults
no_faults = record { sigsegv_no = 0; sigfpe_no = 0; sigill_no = 0; sigtrap_no = 0 }

abbrev empty_page : CodePage
empty_page = record { bytes = []; last_written_index = 0 }

abbrev pub start : Executor toy_machine
start = record {
  world = 0;
  faults = no_faults;
  data_pages = [];
  page_0 = empty_page;
  page_1 = empty_page;
  results_trigger = [];
  results_notrigger = [];
}

write_loop_lem_example :
    write_loop (7 ∷ 8 ∷ []) 1 (5 ∷ 0 ∷ 0 ∷ 0 ∷ []) ≡ write_at 1 (7 ∷ 8 ∷ []) (5 ∷ 0 ∷ 0 ∷ 0 ∷ [])
write_loop_lem_example = write_loop_lem (7 ∷ 8 ∷ []) (5 ∷ []) (0 ∷ 0 ∷ 0 ∷ []) (omega arith)

create_testrun_code_lem_example :
    create_testrun_code nop_sequence nop_sequence nop_sequence 2 empty_page
    ≡ up_to_100 2 (emit (testrun_code nop_sequence nop_sequence nop_sequence 2))
create_testrun_code_lem_example =
    create_testrun_code_lem nop_sequence nop_sequence nop_sequence 2 empty_page

create_reset_testrun_code_lem_example :
    create_reset_testrun_code nop_sequence nop_sequence nop_sequence 2 empty_page
    ≡ up_to_100 2 (emit (reset_testrun_code nop_sequence nop_sequence nop_sequence 2))
create_reset_testrun_code_lem_example =
    create_reset_testrun_code_lem nop_sequence nop_sequence nop_sequence 2 empty_page

create_speculative_trigger_testrun_code_lem_example :
    create_speculative_trigger_testrun_code nop_sequence nop_sequence nop_sequence 2 empty_page
    ≡ up_to_100 2 (emit (speculative_code nop_sequence nop_sequence nop_sequence 2))
create_speculative_trigger_testrun_code_lem_example =
    create_speculative_trigger_testrun_code_lem nop_sequence nop_sequence nop_sequence 2 empty_page

displacements_lem_example :
    let code = speculative_code nop_sequence nop_sequence nop_sequence 2 in
    let behind_call = length (before_call nop_sequence 2) + 5 in
    (drop (behind_call + call_displacement nop_sequence) code
      ≡ lea_code ++ (return_code ++ measured nop_sequence))
    × (drop (behind_call + 4 + 5 + jmp_displacement) code ≡ measured nop_sequence)
    × (drop (behind_call + 4 + 5 + 7 + lea_rip_displacement) code ≡ measured nop_sequence)
displacements_lem_example = displacements_lem nop_sequence nop_sequence nop_sequence 2

abbrev faulted : Execution faulty_machine
faulted = record {
  error = 1;
  cycles_elapsed = 2 ^ 64 - 1;
  world = 1;
  data_pages = [];
  faults = record no_faults { sigill_no = 1 };
}

faulty_run : execute_code_page faulty_machine [] 0 [] no_faults ≡ ok faulted
unfolding execute_code_page
faulty_run = refl

execute_code_page_lem_example : IsCounted faulty_machine no_faults faulted
execute_code_page_lem_example = execute_code_page_lem faulty_machine [] 0 [] no_faults faulty_run

abbrev value_or : Outcome (TestResult × Executor toy_machine) → TestResult × Executor toy_machine
value_or (ok r) = r
value_or (exited n) = (record { error = 7; cycles_difference = pos 0 }, start)
value_or aborted = (record { error = 7; cycles_difference = pos 0 }, start)
value_or undefined = (record { error = 7; cycles_difference = pos 0 }, start)

abbrev nop_test : Outcome (TestResult × Executor toy_machine)
nop_test = test_trigger_sequence toy_machine nop_sequence nop_sequence nop_sequence false 10 1 start

nop_test_succeeds : nop_test ≡ ok (value_or nop_test)
unfolding test_trigger_sequence sample execute_testrun
nop_test_succeeds = refl

test_trigger_sequence_lem_example : IsTriggerResult (value_or nop_test).0
test_trigger_sequence_lem_example =
    test_trigger_sequence_lem toy_machine nop_sequence nop_sequence nop_sequence false 10 1 start
      nop_test_succeeds

abbrev pub one_instruction : CodeGenerator
one_instruction = record {
  instruction_list = nop_instruction ∷ [];
  instruction_file_sha256hash = [];
}

abbrev pub report_or : Outcome (Bytes × Executor toy_machine) → Bytes × Executor toy_machine
report_or (ok r) = r
report_or (exited n) = ([], start)
report_or aborted = ([], start)
report_or undefined = ([], start)

abbrev nop_search : Outcome (Bytes × Executor toy_machine)
nop_search =
    find_and_output_triggerpairs_without_assumptions toy_machine one_instruction false (pos 50)
      start

nop_search_succeeds : nop_search ≡ ok (report_or nop_search)
unfolding find_and_output_triggerpairs_without_assumptions get_number_of_instructions
    create_instruction_from_index is_sleep test_triple test_trigger_sequence sample execute_testrun
    half ◌-ℤ◌ to_int64 ◌+ℤ◌ test_reset_sequence create_reset_testrun_code
nop_search_succeeds = refl

find_and_output_triggerpairs_without_assumptions_lem_example :
    (ls : List Bytes) × ((report_or nop_search).0 ≡ unlines (csv_header ∷ ls))
    × All (IsFound one_instruction (pos 0 -ℤ pos 50) (pos 50)) ls
find_and_output_triggerpairs_without_assumptions_lem_example =
    find_and_output_triggerpairs_without_assumptions_lem toy_machine one_instruction false (pos 50)
      start nop_search_succeeds

test_trigger_sequence-Returns_example : Returns nop_test
test_trigger_sequence-Returns_example =
    test_trigger_sequence-Returns toy_machine nop_sequence nop_sequence nop_sequence false 10 1
      start (λ world code pages. tt) (omega arith) (omega arith)
      (omega (arith, length-testrun_code nop_sequence nop_sequence nop_sequence 1))
      (omega (arith, length-testrun_code nop_sequence nop_sequence nop_sequence 1))

find_and_output_triggerpairs_without_assumptions-Returns_example : Returns nop_search
find_and_output_triggerpairs_without_assumptions-Returns_example =
    find_and_output_triggerpairs_without_assumptions-Returns toy_machine one_instruction false
      (pos 50) start (λ world code pages. tt) (omega arith, tt)
