-- ===== src/Examples/Runs.antt =====
-- Runs of src/osiris.cc and of its filters on small files.
use osiris_arm.Common.{◌≡◌, refl, Bytes, codes, str_eq, List, [], ◌∷◌, true, some, ok, arith, All}
use osiris_arm.Common.Int.{pos, negsuc}
use osiris_arm.Common.Numeral.{stoi}
use osiris_arm.Common.Text.{unlines}
use osiris_arm.Utils.Split.{Lacks, split_string, count}
use osiris_arm.Utils.Split.Laws.{count-Lacks}
use osiris_arm.Filter.{ResultFilter, new_filter, unique_property_tuples, remove_all_cache_sequences}
use osiris_arm.Filter.Line.{ResultLineData, result_line_data, csv_header}
use osiris_arm.Filter.Keyed.{tuples_filter, pairs_filter, cache_filter}
use osiris_arm.Filter.Apply.{apply_lines}
use osiris_arm.Filter.Apply.Best.{AreRead, best_lines}
use osiris_arm.Filter.Apply.Unique.{rows_of, apply_lines-best_lines}
use osiris_arm.Filter.Apply.Plain.{passed_lines, apply_lines-passed_lines}
use osiris_arm.Core.{csv_line}
use osiris_arm.Osiris.Files.{Files, read_file}
use osiris_arm.Osiris.Stages.{output_file1, output_file2, output_file3, base_name_of, filter_stages}
use osiris_arm.Osiris.Stages.Result.{best_of, filter_stages_lem}
use osiris_arm.Osiris.Confirm.{confirmed_line}
use osiris_arm.Osiris.Confirm.Lines.{confirmed_line-csv_line}
use osiris_arm.Examples.Instructions.{nop_instruction}

-- two lines with the same properties, the second with the larger timing
abbrev two_lines : List Bytes
two_lines =
    codes "60;1;NOP;a;b;c;2;NOP;a;b;c;3;NOP;a;b;c"
    ∷ codes "-310;1;ADD;a;b;c;2;NOP;a;b;c;3;NOP;a;b;c"
    ∷ []

abbrev line_data_for : Bytes → ResultLineData → ResultLineData
line_data_for sequence d = record d { measurement_sequence = sequence }

abbrev first_data : ResultLineData
first_data = record {
  timing = pos 60;
  measurement_sequence = codes "NOP";
  measurement_category = codes "a";
  measurement_extension = codes "b";
  measurement_isa_set = codes "c";
  trigger_sequence = codes "NOP";
  trigger_category = codes "a";
  trigger_extension = codes "b";
  trigger_isa_set = codes "c";
  reset_sequence = codes "NOP";
  reset_category = codes "a";
  reset_extension = codes "b";
  reset_isa_set = codes "c";
}

abbrev two_data : List ResultLineData
two_data =
    first_data
    ∷ (record first_data { timing = negsuc 309; measurement_sequence = codes "ADD" })
    ∷ []

two_lines-AreRead : AreRead two_lines two_data
unfolding result_line_data split_string stoi
two_lines-AreRead = (refl, (refl, tt))

abbrev tuples_object : ResultFilter
tuples_object = record new_filter { active_filters = unique_property_tuples ∷ [] }

abbrev cache_object : ResultFilter
cache_object = record new_filter { active_filters = remove_all_cache_sequences ∷ [] }

apply_lines-best_lines_example :
    (s' : ResultFilter) × (s'.active_filters ≡ unique_property_tuples ∷ [])
    × (tuples_filter.other s' ≡ tuples_filter.other tuples_object)
    × (apply_lines (csv_header ∷ two_lines) tuples_object
        ≡ ok (
          s',
          csv_header
              ∷ best_lines
                  (rows_of unique_property_tuples tuples_filter two_data)
                  0
                  (rows_of unique_property_tuples tuples_filter two_data)
                  two_lines,
        ))
apply_lines-best_lines_example =
    apply_lines-best_lines unique_property_tuples tuples_filter two_lines two_data tuples_object
      two_lines-AreRead refl refl

apply_lines-passed_lines_example :
    apply_lines (csv_header ∷ two_lines) cache_object
    ≡ ok (cache_object, csv_header ∷ passed_lines cache_filter.verdict two_data two_lines)
apply_lines-passed_lines_example =
    apply_lines-passed_lines remove_all_cache_sequences cache_filter two_lines two_data cache_object
      two_lines-AreRead refl

abbrev result_files : Files
result_files = (codes "a.csv", unlines (csv_header ∷ two_lines)) ∷ []

two_lines_newline : All (Lacks b'\n') two_lines
unfolding count
two_lines_newline = (
  count-Lacks b'\n' (codes "60;1;NOP;a;b;c;2;NOP;a;b;c;3;NOP;a;b;c") refl,
  (count-Lacks b'\n' (codes "-310;1;ADD;a;b;c;2;NOP;a;b;c;3;NOP;a;b;c") refl, tt),
)

result_file_there : read_file (codes "a.csv") result_files ≡ some (unlines (csv_header ∷ two_lines))
unfolding read_file str_eq
result_file_there = refl

filter_stages_lem_example :
    let base = base_name_of (codes "a.csv") in
    let ls1 = passed_lines cache_filter.verdict two_data two_lines in
    let ds1 = passed_lines cache_filter.verdict two_data two_data in
    let ls2 = best_of tuples_filter ds1 ls1 in
    let ds2 = best_of tuples_filter ds1 ds1 in
    let ls3 = best_of pairs_filter ds2 ls2 in
    (files' : Files) × (filter_stages (λ name. true) (codes "a.csv") result_files ≡ ok files')
    × (read_file (output_file1 base) files' ≡ some (unlines (csv_header ∷ ls1)))
    × (read_file (output_file2 base) files' ≡ some (unlines (csv_header ∷ ls2)))
    × (read_file (output_file3 base) files' ≡ some (unlines (csv_header ∷ ls3)))
filter_stages_lem_example =
    filter_stages_lem (λ name. true) (codes "a.csv") result_files two_lines two_data (λ e. cc)
      result_file_there two_lines_newline two_lines-AreRead refl refl refl

confirmed_line-csv_line_example :
    confirmed_line (pos 70) (csv_line (pos 60) nop_instruction nop_instruction nop_instruction)
    ≡ csv_line (pos 70) nop_instruction nop_instruction nop_instruction
confirmed_line-csv_line_example =
    confirmed_line-csv_line (pos 60) nop_instruction nop_instruction nop_instruction
      (omega arith, omega arith) (pos 70)
