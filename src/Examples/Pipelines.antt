-- ===== src/Examples/Pipelines.antt =====
-- Runs of src/osiris.cc on a small machine, from the options to the files.
use osiris_arm.Common.{
  ◌≡◌, refl, Bytes, codes, str_eq, List, [], ◌∷◌, ◌++◌, map, true, none, some, inl, inr, length, ok,
  exited, Returns, arith, All,
}
use osiris_arm.Common.Int.{pos, negsuc}
use osiris_arm.Common.Text.{lines, unlines}
use osiris_arm.CodeGenerator.{CodeGenerator, load}
use osiris_arm.Filter.Line.{ResultLineData, csv_header}
use osiris_arm.Filter.Keyed.{tuples_filter, pairs_filter, cache_filter}
use osiris_arm.Filter.Apply.Best.{AreRead}
use osiris_arm.Filter.Apply.Plain.{passed_lines}
use osiris_arm.Core.Search.{find_and_output_triggerpairs_without_assumptions}
use osiris_arm.Core.Search.Report.{IsFound}
use osiris_arm.Core.Search.Ends.{find_and_output_triggerpairs_without_assumptions-Returns}
use osiris_arm.Core.Format.Result.{AreFormatted}
use osiris_arm.Osiris.Arguments.{OptionEvent, new_arguments, parse_arguments}
use osiris_arm.Osiris.Arguments.Result.{parse_arguments_lem, parse_arguments-exited}
use osiris_arm.Osiris.Files.{Files, read_file, write_file}
use osiris_arm.Osiris.Stages.{output_file3, base_name_of, filter_stages}
use osiris_arm.Osiris.Stages.Result.{best_of}
use osiris_arm.Osiris.Confirm.{ConfirmInput, read_inputs, confirm_results_of_fuzzer}
use osiris_arm.Osiris.Confirm.Result.{
  Entry, entry_line, stable, unstable, Tested, confirm_results_of_fuzzer_lem,
}
use osiris_arm.Osiris.Pipeline.{filter_stages-find_and_output, confirm_results-find_and_output}
use osiris_arm.Osiris.Main.{
  Disk, instruction_file_cleaned, output_csv_trigger_equals_measurement, main,
}
use osiris_arm.Osiris.Main.Runs.{main_default}
use osiris_arm.Examples.{toy_sha}
use osiris_arm.Examples.Instructions.{nop_file, loaded, nop_file_loads}
use osiris_arm.Examples.Machines.{toy_machine, start}
use osiris_arm.Examples.Searches.{toy_disasm, toy_disasm-IsSlashFree}

abbrev search :
    Returns
      (find_and_output_triggerpairs_without_assumptions toy_machine loaded true (pos 50) start)
search =
    find_and_output_triggerpairs_without_assumptions-Returns toy_machine loaded true (pos 50) start
      (λ world code pages. tt) (omega arith, tt)

filter_stages-find_and_output_example :
    (ls : List Bytes) × (ds : List ResultLineData) × (search.0.0 ≡ unlines (csv_header ∷ ls))
    × AreRead ls ds
    × (let ls1 = passed_lines cache_filter.verdict ds ls in
        let ds1 = passed_lines cache_filter.verdict ds ds in
        let ls2 = best_of tuples_filter ds1 ls1 in
        let ds2 = best_of tuples_filter ds1 ds1 in
        (files' : Files) × (filter_stages
            (λ name. true)
            (codes "a.csv")
            (write_file (codes "a.csv") search.0.0 [])
          ≡ ok files')
        × (read_file (output_file3 (base_name_of (codes "a.csv"))) files'
            ≡ some (unlines (csv_header ∷ best_of pairs_filter ds2 ls2))))
filter_stages-find_and_output_example =
    filter_stages-find_and_output toy_machine toy_sha nop_file true (pos 50) start (λ name. true)
      (codes "a.csv") [] nop_file_loads search.1 (λ e. cc) refl refl refl

abbrev in_order : List ConfirmInput → List ConfirmInput
in_order inputs = inputs

abbrev confirmed : Returns (
    confirm_results_of_fuzzer toy_machine toy_sha in_order
      (some nop_file)
      (some search.0.0)
      (ok start))
confirmed =
    confirm_results-find_and_output toy_machine toy_sha nop_file true (pos 50) start in_order start
      (λ world code pages. tt) (λ xs i x e. (i, e)) nop_file_loads (omega arith, tt) search.1

confirm_results-find_and_output_example : Returns (
    confirm_results_of_fuzzer toy_machine toy_sha in_order
      (some nop_file)
      (some search.0.0)
      (ok start))
confirm_results-find_and_output_example =
    confirm_results-find_and_output toy_machine toy_sha nop_file true (pos 50) start in_order start
      (λ world code pages. tt) (λ xs i x e. (i, e)) nop_file_loads (omega arith, tt) search.1

confirm_results_of_fuzzer_lem_example :
    (rest : List Bytes) × (g : CodeGenerator) × (inputs : List ConfirmInput) × (es : List Entry)
    × (lines search.0.0 ≡ csv_header ∷ rest)
    × (load toy_sha (some nop_file) ≡ ok g)
    × (read_inputs rest ≡ ok inputs)
    × Tested g (in_order inputs) es
    × (confirmed.0.0.output ≡ csv_header ∷ map entry_line es)
    × (confirmed.0.0.cleaned ≡ csv_header ∷ map entry_line (stable es))
    × (confirmed.0.0.succeeded ≡ length (stable es))
    × (confirmed.0.0.failed ≡ length (unstable es))
confirm_results_of_fuzzer_lem_example =
    confirm_results_of_fuzzer_lem toy_machine toy_sha in_order (some nop_file) search.0.0 (ok start)
      confirmed.1

abbrev some_options : List OptionEvent
some_options = (b'f', some (codes "a.csv")) ∷ (b's', none) ∷ (b'f', some (codes "b.csv")) ∷ []

abbrev confirm_options : List OptionEvent
confirm_options = (b'1', none) ∷ some_options

parse_arguments_lem_example :
    (parse_arguments confirm_options [] ≡ exited 1)
    × (parse_arguments confirm_options (codes "in.csv" ∷ []) ≡ exited 1)
    × (parse_arguments confirm_options (codes "in.csv" ∷ codes "out.csv" ∷ [])
        ≡ ok (record new_arguments {
          speculation_trigger = true;
          filter = true;
          filename_filter = codes "b.csv";
          confirm = true;
          filename_confirm_input = codes "in.csv";
          filename_confirm_output = codes "out.csv";
        }))
parse_arguments_lem_example =
    parse_arguments_lem confirm_options (codes "in.csv") (codes "out.csv") []
      (inr (inr (inr refl)), (refl, (inr (inr (inl refl)), (refl, tt))))

parse_arguments-exited_example : parse_arguments (some_options ++ (b'?', none) ∷ []) [] ≡ exited 0
parse_arguments-exited_example =
    parse_arguments-exited some_options [] b'?' none [] (refl, (inr (inr (inl refl)), (refl, tt)))
      (
        (λ e. absurd (omega arith)),
        (λ e. absurd (omega arith)),
        (λ e. absurd (omega arith)),
        (λ e. absurd (omega arith)),
        (λ e. absurd (omega arith)),
        (λ e. absurd (omega arith)),
      )

abbrev disk : Disk
disk = record {
  files = (instruction_file_cleaned, nop_file) ∷ [];
  triggerpairs = [];
  triggerpairs_formatted = [];
}

instructions_there : read_file instruction_file_cleaned disk.files ≡ some nop_file
unfolding read_file str_eq
instructions_there = refl

main_default_example :
    (d' : Disk) × (main
        (λ name. true)
        toy_machine
        toy_sha
        in_order
        toy_disasm
        (λ files. files)
        (ok start)
        true
        ((b's', none) ∷ [])
        []
        disk
      ≡ ok d')
    × ((ls : List Bytes) × (read_file output_csv_trigger_equals_measurement d'.files
          ≡ some (unlines (csv_header ∷ ls)))
        × All (IsFound loaded (negsuc 49) (pos 50)) ls)
    × AreFormatted toy_disasm 0 d'.triggerpairs d'.triggerpairs_formatted
main_default_example =
    main_default (λ name. true) toy_machine toy_sha in_order toy_disasm (λ files. files) start
      nop_file (λ world code pages. tt) (λ folder. (refl, λ i f e. (i, e))) toy_disasm-IsSlashFree
      refl nop_file_loads (omega arith, tt) ((b's', none) ∷ []) [] disk (inr (inr (inl refl)), tt)
      refl refl refl refl instructions_there
