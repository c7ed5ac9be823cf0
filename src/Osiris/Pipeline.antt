-- ===== src/Osiris/Pipeline.antt =====
-- src/osiris.cc: the file of a search without assumptions, taken up by the filter stage and by the confirmation.
use osiris_arm.Common.{◌≡◌, ◌≢◌, ap, ◌∙◌, Bytes, List, [], ◌∷◌, true, some, ok, Bool, All, Returns}
use osiris_arm.Common.Int.{ℤ, pos, ◌-ℤ◌}
use osiris_arm.Common.Text.{lines, unlines}
use osiris_arm.Common.Lines.{lines-unlines}
use osiris_arm.Utils.Hash.{Sha256}
use osiris_arm.Utils.Split.{Lacks}
use osiris_arm.CodeGenerator.{CodeGenerator, load}
use osiris_arm.CodeGenerator.Printable.{load-IsPrintable}
use osiris_arm.Filter.Line.{ResultLineData, csv_header}
use osiris_arm.Filter.Keyed.{cache_filter, tuples_filter, pairs_filter}
use osiris_arm.Filter.Apply.Best.{AreRead}
use osiris_arm.Filter.Apply.Plain.{passed_lines}
use osiris_arm.Executor.Machine.{Machine}
use osiris_arm.Executor.Experiment.{Executor}
use osiris_arm.Executor.Experiment.Ends.{IsHandling}
use osiris_arm.Core.Search.{find_and_output_triggerpairs_without_assumptions}
use osiris_arm.Core.Search.Report.{IsFound, find_and_output_triggerpairs_without_assumptions_lem}
use osiris_arm.Core.Search.Readable.{near-IsInt, found-rows, find_and_output-AreRead}
use osiris_arm.Osiris.Files.{Files, read_file, write_file}
use osiris_arm.Osiris.Stages.{output_file1, output_file2, output_file3, base_name_of, filter_stages}
use osiris_arm.Osiris.Stages.Result.{best_of, read_same, header_newline, filter_stages_lem}
use osiris_arm.Osiris.Confirm.{ConfirmInput, confirm_results_of_fuzzer}
use osiris_arm.Osiris.Confirm.Returns.{
  IsShort, IsLineOf, Shuffles, confirm_results_of_fuzzer-Returns,
}

lines_of_report :
    (ls : List Bytes) → All (Lacks b'\n') ls → lines (unlines (csv_header ∷ ls)) ≡ csv_header ∷ ls
lines_of_report ls plain = lines-unlines (csv_header ∷ ls) (header_newline, plain)

written_lines :
    (g : CodeGenerator) (low high : ℤ) (ls : List Bytes)
    → All (IsFound g low high) ls
    → All (IsLineOf g) ls
written_lines g low high [] h = tt
written_lines g low high (l ∷ ls) ((result, m, t, r, e, om, ot, ors, awake, out, near), h) =
    ((result, m, t, r, near-IsInt result near, om, ot, ors, e), written_lines g low high ls h)

module _ (m : Machine) (sha : Sha256) (instructions : Bytes) (only_in_speculation : Bool)
    (threshold : ℤ) (s : Executor m) where
  -- The file of a search with the instructions of a loaded file goes through the filter stage, under any name
  -- but the empty one, when the three output files can be opened: the stage returns, and its last file holds the lines
  -- of the search without a cache sequence that are the best of their property tuple, and among
  -- these of their pair of extensions.
  pub filter_stages-find_and_output :
      {g : CodeGenerator} {r : Bytes × Executor m} (opens : Bytes → Bool) (name : Bytes)
      (files : Files)
      → load sha (some instructions) ≡ ok g
      → find_and_output_triggerpairs_without_assumptions m g only_in_speculation threshold s ≡ ok r
      → name ≢ []
      → opens (output_file1 (base_name_of name)) ≡ true
      → opens (output_file2 (base_name_of name)) ≡ true
      → opens (output_file3 (base_name_of name)) ≡ true
      → (ls : List Bytes) × (ds : List ResultLineData) × (r.0 ≡ unlines (csv_header ∷ ls))
        × AreRead ls ds
        × (let ls1 = passed_lines cache_filter.verdict ds ls in
            let ds1 = passed_lines cache_filter.verdict ds ds in
            let ls2 = best_of tuples_filter ds1 ls1 in
            let ds2 = best_of tuples_filter ds1 ds1 in
            (files' : Files) × (filter_stages opens name (write_file name r.0 files) ≡ ok files')
            × (read_file (output_file3 (base_name_of name)) files'
                ≡ some (unlines (csv_header ∷ best_of pairs_filter ds2 ls2))))
  filter_stages-find_and_output opens name files loaded searched named o1 o2 o3 =
      let (ls, ds, e, read, _, plain) =
        find_and_output-AreRead m sha instructions only_in_speculation threshold s loaded
          searched in
      let (files', end, kept1, kept2, kept3) =
        filter_stages_lem opens name (write_file name _ files) ls ds named
          (read_same name _ files ∙ ap some e) plain read o1 o2 o3 in
      (ls, ds, e, read, (files', end, kept3))

  -- The file of a search is confirmed to its end with the same instructions, all of at most 37
  -- bytes, on a machine whose pages come back or raise a counted signal, where the shuffle makes up no
  -- elements.
  pub confirm_results-find_and_output :
      {g : CodeGenerator} {r : Bytes × Executor m} (shuffle : List ConfirmInput → List ConfirmInput)
      (s' : Executor m)
      → IsHandling m
      → Shuffles shuffle
      → load sha (some instructions) ≡ ok g
      → All IsShort g.instruction_list
      → find_and_output_triggerpairs_without_assumptions m g only_in_speculation threshold s ≡ ok r
      → Returns (confirm_results_of_fuzzer m sha shuffle (some instructions) (some r.0) (ok s'))
  confirm_results-find_and_output {g} shuffle s' handling shuffles loaded short searched =
      let (ls, e, found) =
        find_and_output_triggerpairs_without_assumptions_lem m g only_in_speculation threshold s
          searched in
      let low = pos 0 -ℤ threshold in
      let (ds, read, rows, plain) =
        found-rows g low threshold (λ i of. load-IsPrintable sha instructions i loaded of) ls
          found in
      rw e (
        confirm_results_of_fuzzer-Returns m sha shuffle instructions (unlines (csv_header ∷ ls)) s'
          handling shuffles loaded short (lines_of_report ls plain)
          (written_lines g low threshold ls found))
