-- ===== src/Osiris/Main.antt =====
-- src/osiris.cc: `main`. Parameters are what the system gives: whether the CPU can be chosen, the options, the
-- names that open for writing, the order in which a folder is listed, the constructor of the executor,
-- SHA-256, the disassembler and the shuffle.
pub mod Runs
use osiris_arm.Common.{
  ℕ, Bytes, codes, List, [], ◌∷◌, ◌++◌, Bool, true, false, not, Option, none, some, if◌then◌else◌,
  Outcome, ok, exited, ◌>>=◌, ◌>>◌, assert,
}
use osiris_arm.Common.Int.{ℤ, pos, negsuc}
use osiris_arm.Common.Text.{unlines}
use osiris_arm.Utils.Hash.{Sha256}
use osiris_arm.CodeGenerator.{CodeGenerator, load}
use osiris_arm.Executor.Machine.{Machine}
use osiris_arm.Executor.Experiment.{Executor}
use osiris_arm.Core.Search.{
  ResultFile, find_and_output_triggerpairs_without_assumptions,
  find_and_output_triggerpairs_with_trigger_equals_measurement,
}
use osiris_arm.Core.Cleanup.{output_non_faulting_instructions}
use osiris_arm.Core.Format.{Instruction, format_trigger_pair_output}
use osiris_arm.Osiris.Arguments.{CommandLineArguments, OptionEvent, parse_arguments}
use osiris_arm.Osiris.Files.{Files, read_file, write_file}
use osiris_arm.Osiris.Stages.{base_name_of, filter_stages, is_empty}
use osiris_arm.Osiris.Confirm.{ConfirmInput, confirm_results_of_fuzzer}

abbrev pub instruction_file : Bytes
instruction_file = codes "../arm-Instructions/instructions_arm.b64"

abbrev pub instruction_file_cleaned : Bytes
instruction_file_cleaned = codes "../arm-Instructions/instructions_arm_cleaned.b64"

abbrev pub output_csv_no_assumptions : Bytes
output_csv_no_assumptions = codes "./measure_trigger_pairs.csv"

abbrev pub output_csv_trigger_equals_measurement : Bytes
output_csv_trigger_equals_measurement = codes "./triggerpairs.csv"

-- The files, and the contents of the two output folders.
pub record Disk : Type 0 where
  pub files : Files
  pub triggerpairs : List ResultFile
  pub triggerpairs_formatted : List ResultFile

module _ (opens : Bytes → Bool) where
  -- what is written to a file that cannot be opened is lost
  unfoldable pub write_if : Bytes → Bytes → Files → Files
  write_if name content files = if opens name then write_file name content files else files

  -- the files behind the opening of the output streams of the confirmation
  unfoldable pub open_outputs : Bytes → Files → Files
  unfolding write_if base_name_of
  open_outputs output files =
      write_if (base_name_of output ++ codes "_cleaned.csv") [] (write_if output [] files)

  -- an input stream that was opened before
  unfoldable pub read_opened : Bytes → Files → Files → Option Bytes
  unfolding read_file
  read_opened name before after = elim (read_file name before) [
    | none ↦ none
    | some _ ↦ read_file name after
  ]

  module _ (m : Machine) (sha : Sha256) (shuffle : List ConfirmInput → List ConfirmInput)
      (cs_disasm : Bytes → List Instruction) (listing : List ResultFile → List ResultFile)
      (executor : Outcome (Executor m)) where
    unfoldable pub confirm_stage : Bytes → Bytes → Disk → Outcome Disk
    unfolding open_outputs read_opened is_empty
    confirm_stage input output d = do
      assert (not (is_empty input))
      assert (not (is_empty output))
      let opened = open_outputs output d.files
      r ←
          confirm_results_of_fuzzer m sha shuffle (read_file instruction_file_cleaned opened)
            (read_opened input d.files opened) executor
      ok (record d {
        files =
            write_if (base_name_of output ++ codes "_cleaned.csv") (unlines r.0.cleaned)
              (write_if output (unlines r.0.output) opened);
      })

    unfoldable pub filter_stage : Bytes → Disk → Outcome Disk
    filter_stage filename d = do
      files ← filter_stages opens filename d.files
      ok (record d { files = files })

    unfoldable pub cleanup_stage : Disk → Outcome Disk
    unfolding write_if
    cleanup_stage d = do
      g ← load sha (read_file instruction_file d.files)
      s ← executor
      r ← output_non_faulting_instructions m g s
      ok (record d { files = write_if instruction_file_cleaned r.0 d.files })

    -- the two searches, and the formatting behind the second
    unfoldable pub fuzzing_stage : Bool → Bool → Disk → Outcome Disk
    unfolding write_if
    fuzzing_stage all speculation_trigger d = do
      g ← load sha (read_file instruction_file_cleaned d.files)
      s ← executor
      (if all
          then (do
            r ← find_and_output_triggerpairs_without_assumptions m g speculation_trigger (pos 50) s
            ok (record d { files = write_if output_csv_no_assumptions r.0 d.files }))
          else (do
            r ←
                find_and_output_triggerpairs_with_trigger_equals_measurement m g speculation_trigger
                  (negsuc 49) (pos 50) s
            formatted ← format_trigger_pair_output cs_disasm (listing r.0)
            ok (record {
              files = write_if output_csv_trigger_equals_measurement r.1.0 d.files;
              triggerpairs = r.0;
              triggerpairs_formatted = formatted;
            })))

    -- the order in which the options are looked at
    unfoldable pub run : CommandLineArguments → Disk → Outcome Disk
    unfolding confirm_stage filter_stage cleanup_stage fuzzing_stage
    run a d =
        if a.confirm
        then confirm_stage a.filename_confirm_input a.filename_confirm_output d
        else if a.filter
        then filter_stage a.filename_filter d
        else if a.cleanup
        then cleanup_stage d
        else fuzzing_stage a.all a.speculation_trigger d

    -- main; a value stands for the exit code 0 and the files that are left
    unfoldable pub main : Bool → List OptionEvent → List Bytes → Disk → Outcome Disk
    main has_cpu_0 events positional d =
        if has_cpu_0 then (do a ← parse_arguments events positional; run a d) else exited 1
