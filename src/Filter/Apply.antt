-- ===== src/Filter/Apply.antt =====
-- src/filter.cc: ApplyFiltersOnFile. The input file is a parameter, `none` when it cannot be opened;
-- the output file, another one, can be opened or not. The result has the text that is written.
pub mod Kept
pub mod Best
pub mod Unique
pub mod Plain
use osiris_arm.Common.{
  ℕ, suc, Bytes, str_eq, List, [], ◌∷◌, ◌++◌, Bool, true, false, Option, none, some, if◌then◌else◌,
  Outcome, ok, exited, ◌>>=◌,
}
use osiris_arm.Common.Text.{lines, unlines}
use osiris_arm.Filter.Line.{ResultLineData, result_line_data, csv_header}
use osiris_arm.Filter.{
  ResultFilterFunctions, ResultFilter, execute_prefilter_function, execute_filter_function,
}

-- the `for` over the active filters, in the first reading
unfoldable pub run_prefilters :
    ℕ → ResultLineData → List ResultFilterFunctions → ResultFilter → ResultFilter
unfolding execute_prefilter_function
run_prefilters line_no line [] s = s
run_prefilters line_no line (f ∷ fs) s =
    run_prefilters line_no line fs (execute_prefilter_function line_no line f s)

-- the first reading of the file
unfoldable pub prefilter_pass : ℕ → List Bytes → ResultFilter → Outcome ResultFilter
unfolding run_prefilters
prefilter_pass line_no [] s = ok s
prefilter_pass line_no (line ∷ rest) s = do
  d ← result_line_data line
  prefilter_pass (suc line_no) rest (run_prefilters line_no d s.active_filters s)

-- `filter_out = filter_out || ExecuteFilterFunction(…)`, for each active filter
unfoldable pub run_filters :
    ℕ
    → ResultLineData
    → List ResultFilterFunctions
    → Bool
    → ResultFilter
    → Outcome (ResultFilter × Bool)
unfolding execute_filter_function
run_filters line_no line [] filter_out s = ok (s, filter_out)
run_filters line_no line (f ∷ fs) true s = run_filters line_no line fs true s
run_filters line_no line (f ∷ fs) false s = do
  r ← execute_filter_function line_no line f s
  run_filters line_no line fs r.1 r.0

-- the second reading; the lines that are written come back
unfoldable pub filter_pass :
    ℕ → List Bytes → ResultFilter → List Bytes → Outcome (ResultFilter × List Bytes)
unfolding run_filters
filter_pass line_no [] s written = ok (s, written)
filter_pass line_no (line ∷ rest) s written = do
  d ← result_line_data line
  r ← run_filters line_no d s.active_filters false s
  filter_pass (suc line_no) rest r.0 (if r.1 then written else written ++ line ∷ [])

unfoldable pub apply_lines : List Bytes → ResultFilter → Outcome (ResultFilter × List Bytes)
unfolding prefilter_pass filter_pass
apply_lines [] s = exited 1
apply_lines (line ∷ rest) s =
    if str_eq line csv_header
    then (do s' ← prefilter_pass 0 rest s; filter_pass 0 rest s' (csv_header ∷ []))
    else exited 1

unfoldable pub apply_filters_on_file :
    Option Bytes → Bool → ResultFilter → Outcome (ResultFilter × Bytes)
unfolding apply_lines
apply_filters_on_file none output_opens s = exited 1
apply_filters_on_file (some content) false s = exited 1
apply_filters_on_file (some content) true s = do
  r ← apply_lines (lines content) s
  ok (r.0, unlines r.1)
