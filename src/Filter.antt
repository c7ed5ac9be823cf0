-- ===== src/Filter.antt =====
-- src/filter.cc and src/filter.h: the filters over the result lines, and their application to a file.
pub mod Line
pub mod Best
pub mod Active
pub mod Keyed
pub mod Apply
use osiris_arm.Common.{
  ℕ, zero, suc, ◌+◌, Bytes, codes, str_eq, List, [], ◌∷◌, ◌++◌, Bool, true, false, ◌&&◌, ◌||◌, not,
  Option, none, some, ◌==◌, ltb, if◌then◌else◌, Outcome, ok, exited, aborted, undefined, ◌>>=◌,
  ◌>>◌, assert,
}
use osiris_arm.Common.Int.{ℤ, pos, negsuc, abs_int, ltb_ℤ, leb_ℤ}
use osiris_arm.Common.Text.{contains, lines}
use osiris_arm.Filter.Line.{ResultLineData, result_line_data, csv_header}

pub data ResultFilterFunctions : Type 0 where
  increase_threshold_to_300 : ResultFilterFunctions
  remove_cache_reset_sequence : ResultFilterFunctions
  remove_all_cache_sequences : ResultFilterFunctions
  unique_property_tuples : ResultFilterFunctions
  measurement_trigger_extension_pairs : ResultFilterFunctions

-- A map from texts to a line number and a timing.
abbrev pub Seen : Type 0
Seen = List (Bytes × (ℕ × ℤ))

unfoldable pub find_entry : Bytes → Seen → Option (ℕ × ℤ)
find_entry k [] = none
find_entry k ((j, v) ∷ seen) = if str_eq k j then some v else find_entry k seen

-- `seen[k] = v`
unfoldable pub insert_entry : Bytes → ℕ × ℤ → Seen → Seen
insert_entry k v [] = (k, v) ∷ []
insert_entry k v ((j, w) ∷ seen) =
    if str_eq k j then (j, v) ∷ seen else (j, w) ∷ insert_entry k v seen

-- The members that change; the code declares `active_prefilters_` too and never uses it.
pub record ResultFilter : Type 0 where
  pub best_property_tuples_seen : Seen
  pub best_measure_trigger_extensionpair_seen : Seen
  pub active_filters : List ResultFilterFunctions

abbrev pub new_filter : ResultFilter
new_filter = record {
  best_property_tuples_seen = [];
  best_measure_trigger_extensionpair_seen = [];
  active_filters = [];
}

unfoldable pub filter_function_increase_threshold_300 : ResultLineData → Bool
filter_function_increase_threshold_300 line =
    ltb_ℤ (negsuc 299) line.timing && ltb_ℤ line.timing (pos 300)

unfoldable pub property_tuple : ResultLineData → Bytes
property_tuple l =
    l.measurement_category
    ++ (l.measurement_extension
        ++ (l.measurement_isa_set
            ++ (l.trigger_category
                ++ (l.trigger_extension
                    ++ (l.trigger_isa_set
                        ++ (l.reset_category ++ (l.reset_extension ++ l.reset_isa_set)))))))

unfoldable pub extension_pair : ResultLineData → Bytes
extension_pair l = l.measurement_extension ++ l.trigger_extension

-- What both prefilters do with their map.
unfoldable pub prefilter_best : Bytes → ℕ → ℤ → Seen → Seen
unfolding find_entry insert_entry abs_int
prefilter_best key line_no timing seen = elim (find_entry key seen) [
  | some (best_no, current_best_timing) ↦
      if ltb_ℤ (abs_int current_best_timing) (abs_int timing)
      then insert_entry key (line_no, timing) seen
      else seen
  | none ↦ insert_entry key (line_no, timing) seen
]

-- What both filters do with their map: `seen[key]` adds an entry of zeros when there is none.
unfoldable pub filter_best : Bytes → ℕ → ℤ → Seen → Outcome (Seen × Bool)
unfolding find_entry insert_entry
filter_best key line_no timing seen =
    let value : ℕ × ℤ = elim (find_entry key seen) [ none ↦ (0, pos 0) | some v ↦ v ] in
    let seen' : Seen = elim (find_entry key seen) [
      | none ↦ insert_entry key (0, pos 0) seen
      | some v ↦ seen
    ] in
    if line_no == value.0
    then (assert (leb_ℤ timing value.1 && leb_ℤ value.1 timing) >> ok (seen', false))
    else ok (seen', true)

unfoldable pub prefilter_function_unique_property_tuples :
    ℕ → ResultLineData → ResultFilter → ResultFilter
unfolding property_tuple prefilter_best
prefilter_function_unique_property_tuples line_no line s = record s {
  best_property_tuples_seen =
      prefilter_best (property_tuple line) line_no line.timing s.best_property_tuples_seen;
}

unfoldable pub filter_function_unique_property_tuples :
    ℕ → ResultLineData → ResultFilter → Outcome (ResultFilter × Bool)
unfolding property_tuple filter_best
filter_function_unique_property_tuples line_no line s = do
  r ← filter_best (property_tuple line) line_no line.timing s.best_property_tuples_seen
  ok (record s { best_property_tuples_seen = r.0 }, r.1)

unfoldable pub prefilter_function_measurement_trigger_extension_pairs :
    ℕ → ResultLineData → ResultFilter → ResultFilter
unfolding extension_pair prefilter_best
prefilter_function_measurement_trigger_extension_pairs line_no line s = record s {
  best_measure_trigger_extensionpair_seen =
      prefilter_best (extension_pair line) line_no line.timing
        s.best_measure_trigger_extensionpair_seen;
}

unfoldable pub filter_function_measurement_trigger_extension_pairs :
    ℕ → ResultLineData → ResultFilter → Outcome (ResultFilter × Bool)
unfolding extension_pair filter_best
filter_function_measurement_trigger_extension_pairs line_no line s = do
  r ←
      filter_best (extension_pair line) line_no line.timing
        s.best_measure_trigger_extensionpair_seen
  ok (record s { best_measure_trigger_extensionpair_seen = r.0 }, r.1)

-- the three tests that the cache filters make of one sequence
unfoldable pub is_cache_sequence : Bytes → Bool
unfolding contains
is_cache_sequence s =
    if contains (codes "CLFLUSH") s
    then true
    else if contains (codes "MOV") s && contains (codes "NT") s
    then true
    else contains (codes "MASKMOV") s

unfoldable pub filter_function_remove_cache_reset_sequence : ResultLineData → Bool
unfolding is_cache_sequence
filter_function_remove_cache_reset_sequence line = is_cache_sequence line.reset_sequence

unfoldable pub filter_function_remove_all_cache_sequences : ResultLineData → Bool
unfolding is_cache_sequence
filter_function_remove_all_cache_sequences line =
    if is_cache_sequence line.measurement_sequence
    then true
    else if is_cache_sequence line.trigger_sequence
    then true
    else is_cache_sequence line.reset_sequence

unfoldable pub execute_prefilter_function :
    ℕ → ResultLineData → ResultFilterFunctions → ResultFilter → ResultFilter
unfolding prefilter_function_unique_property_tuples
    prefilter_function_measurement_trigger_extension_pairs
execute_prefilter_function n line unique_property_tuples s =
    prefilter_function_unique_property_tuples n line s
execute_prefilter_function n line measurement_trigger_extension_pairs s =
    prefilter_function_measurement_trigger_extension_pairs n line s
execute_prefilter_function n line remove_all_cache_sequences s = s
execute_prefilter_function n line remove_cache_reset_sequence s = s
execute_prefilter_function n line increase_threshold_to_300 s = s

unfoldable pub execute_filter_function :
    ℕ → ResultLineData → ResultFilterFunctions → ResultFilter → Outcome (ResultFilter × Bool)
unfolding filter_function_unique_property_tuples filter_function_measurement_trigger_extension_pairs
    filter_function_remove_cache_reset_sequence filter_function_remove_all_cache_sequences
    filter_function_increase_threshold_300
execute_filter_function n line unique_property_tuples s =
    filter_function_unique_property_tuples n line s
execute_filter_function n line measurement_trigger_extension_pairs s =
    filter_function_measurement_trigger_extension_pairs n line s
execute_filter_function n line remove_cache_reset_sequence s =
    ok (s, filter_function_remove_cache_reset_sequence line)
execute_filter_function n line remove_all_cache_sequences s =
    ok (s, filter_function_remove_all_cache_sequences line)
execute_filter_function n line increase_threshold_to_300 s =
    ok (s, filter_function_increase_threshold_300 line)
