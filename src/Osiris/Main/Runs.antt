-- ===== src/Osiris/Main/Runs.antt =====
-- src/osiris.cc: whole runs of the program.
use osiris_arm.Common.{
  ℕ, ◌≡◌, refl, ap, ◌∙◌, Bytes, List, ◌∷◌, Bool, true, false, some, if◌then◌else◌, length,
  get_elem?, Outcome, ok, arith, All,
}
use osiris_arm.Common.Int.{pos, negsuc}
use osiris_arm.Common.Text.{unlines}
use osiris_arm.Utils.Hash.{Sha256}
use osiris_arm.CodeGenerator.{CodeGenerator, load}
use osiris_arm.Filter.Line.{csv_header}
use osiris_arm.Executor.Machine.{Machine}
use osiris_arm.Executor.Experiment.{Executor}
use osiris_arm.Executor.Experiment.Ends.{IsHandling}
use osiris_arm.Core.Search.{ResultFile}
use osiris_arm.Core.Search.EqualEnds.{
  IsSmall, find_and_output_triggerpairs_with_trigger_equals_measurement-Returns,
}
use osiris_arm.Core.Search.Report.{IsFound}
use osiris_arm.Core.Search.Equal.{find_and_output_triggerpairs_with_trigger_equals_measurement_lem}
use osiris_arm.Core.Search.EqualSize.{length-find_and_output_triggerpairs}
use osiris_arm.CodeGenerator.Printable.{length-load_le}
use osiris_arm.Core.Format.{Instruction}
use osiris_arm.Core.Format.Names.{IsSlashFree}
use osiris_arm.Core.Format.Result.{AreFormatted}
use osiris_arm.Core.Format.Reports.{format_trigger_pair_output-search}
use osiris_arm.Osiris.Arguments.{CommandLineArguments, OptionEvent, new_arguments, parse_arguments}
use osiris_arm.Osiris.Arguments.Result.{IsOption, is_given, parse_arguments-options, arguments_of}
use osiris_arm.Osiris.Files.{read_file, write_file}
use osiris_arm.Osiris.Stages.Result.{read_same}
use osiris_arm.Osiris.Confirm.{ConfirmInput}
use osiris_arm.Osiris.Main.{
  Disk, instruction_file_cleaned, output_csv_trigger_equals_measurement, fuzzing_stage, run, main,
}

-- What a folder's listing gives: its files, in any order.
abbrev pub Lists : (List ResultFile → List ResultFile) → Type 0
Lists listing =
    (folder : List ResultFile)
    → (length (listing folder) ≡ length folder)
      × ((i : ℕ) (f : ResultFile)
          → get_elem? (listing folder) i ≡ some f
          → (j : ℕ) × (get_elem? folder j ≡ some f))

no_files :
    (events : List OptionEvent) (positional : List Bytes)
    → All IsOption events
    → is_given b'1' events ≡ false
    → parse_arguments events positional ≡ ok (arguments_of events new_arguments)
no_files events positional options no_confirm =
    parse_arguments-options events positional options
    ∙ unconfirmed (is_given b'1' events) _ _ no_confirm
  where
    unconfirmed :
        (b : Bool) (x y : Outcome CommandLineArguments) → b ≡ false → (if b then x else y) ≡ y
    unconfirmed b x y e = ground arith

-- What the second search and the formatting leave.
abbrev IsFuzzed :
    (Bytes → List Instruction) → (List ResultFile → List ResultFile) → CodeGenerator → Disk → Type 0
IsFuzzed cs_disasm listing g d =
    ((ls : List Bytes) × (read_file output_csv_trigger_equals_measurement d.files
        ≡ some (unlines (csv_header ∷ ls)))
      × All (IsFound g (negsuc 49) (pos 50)) ls)
    × AreFormatted cs_disasm 0 (listing d.triggerpairs) d.triggerpairs_formatted

module _ (opens : Bytes → Bool) (m : Machine) (sha : Sha256)
    (shuffle : List ConfirmInput → List ConfirmInput) (cs_disasm : Bytes → List Instruction)
    (listing : List ResultFile → List ResultFile) (s : Executor m) (content : Bytes)
    {g : CodeGenerator} (handling : IsHandling m) (lists : Lists listing)
    (slash_free : (bs : Bytes) → All IsSlashFree (cs_disasm bs))
    (open_csv : opens output_csv_trigger_equals_measurement ≡ true)
    (loaded : load sha (some content) ≡ ok g) (small : All IsSmall g.instruction_list) where
  fuzzing_stage_lem :
      (speculation_trigger : Bool) (d : Disk)
      → read_file instruction_file_cleaned d.files ≡ some content
      → (d' : Disk) × (fuzzing_stage opens m sha shuffle cs_disasm listing
            (ok s)
            false
            speculation_trigger
            d
          ≡ ok d')
        × IsFuzzed cs_disasm listing g d'
  unfolding fuzzing_stage
  fuzzing_stage_lem speculation_trigger d there =
      let (r, searched) =
        find_and_output_triggerpairs_with_trigger_equals_measurement-Returns m g speculation_trigger
          (negsuc 49) (pos 50) s handling small in
      let (_, (ls, e, found)) =
        find_and_output_triggerpairs_with_trigger_equals_measurement_lem m g speculation_trigger
          (negsuc 49) (pos 50) s searched in
      let few =
        length-find_and_output_triggerpairs m g speculation_trigger (negsuc 49) (pos 50) s
          searched in
      let (formatted, made, are) =
        format_trigger_pair_output-search m sha content speculation_trigger (negsuc 49) (pos 50)
          cs_disasm (listing r.0) s loaded searched (lists r.0).1
          (omega (arith, (lists r.0).0, few, length-load_le sha content loaded)) slash_free in
      (
        record {
          files = write_file output_csv_trigger_equals_measurement r.1.0 d.files;
          triggerpairs = r.0;
          triggerpairs_formatted = formatted;
        },
        rw (there, loaded, searched, made, open_csv) refl,
        (
          (ls, read_same output_csv_trigger_equals_measurement r.1.0 d.files ∙ ap some e, found),
          are,
        ),
      )

  run_lem :
      (a : CommandLineArguments) (d : Disk)
      → a.confirm ≡ false
      → a.filter ≡ false
      → a.cleanup ≡ false
      → a.all ≡ false
      → read_file instruction_file_cleaned d.files ≡ some content
      → (d' : Disk) × (run opens m sha shuffle cs_disasm listing (ok s) a d ≡ ok d')
        × IsFuzzed cs_disasm listing g d'
  unfolding run
  run_lem a d no_confirm no_filter no_cleanup no_all there =
      rw (no_confirm, no_filter, no_cleanup, no_all)
        (fuzzing_stage_lem a.speculation_trigger d there)

  -- A run with no option but `--speculation` ends with exit code 0, when CPU 0 can be chosen, the executor is
  -- constructed and the cleaned instruction file is loaded. The instructions of that file have at
  -- most 68 bytes each, the machine's pages come back or raise a counted signal, the csv file can be opened, the
  -- folder is listed in some order, and no text of the disassembler has a slash. Its csv file then holds the
  -- header and lines of timings below -50 or above 50 cycles, and each file of the folder has one formatted file.
  pub main_default :
      (events : List OptionEvent) (positional : List Bytes) (d : Disk)
      → All IsOption events
      → is_given b'1' events ≡ false
      → is_given b'f' events ≡ false
      → is_given b'c' events ≡ false
      → is_given b'a' events ≡ false
      → read_file instruction_file_cleaned d.files ≡ some content
      → (d' : Disk) × (main opens m sha shuffle cs_disasm listing (ok s) true events positional d
          ≡ ok d')
        × ((ls : List Bytes) × (read_file output_csv_trigger_equals_measurement d'.files
              ≡ some (unlines (csv_header ∷ ls)))
            × All (IsFound g (negsuc 49) (pos 50)) ls)
        × AreFormatted cs_disasm 0 (listing d'.triggerpairs) d'.triggerpairs_formatted
  unfolding main
  main_default events positional d options no_confirm no_filter no_cleanup no_all there =
      let (d', made, fuzzed) =
        run_lem (arguments_of events new_arguments) d no_confirm no_filter no_cleanup no_all
          there in
      (d', rw (no_files events positional options no_confirm) made, fuzzed.0, fuzzed.1)
