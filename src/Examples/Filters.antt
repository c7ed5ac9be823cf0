-- ===== src/Examples/Filters.antt =====
-- Runs of src/filter.cc on small inputs.
use osiris_arm.Common.{
  ◌-◌, ◌^◌, Bytes, some, str_eq, ◌≡◌, refl, codes, List, [], ◌∷◌, Bool, true, false, ◌↔◌,
  if◌then◌else◌, ok,
}
use osiris_arm.Common.Int.{pos, negsuc, abs_int}
use osiris_arm.Filter.{
  ResultFilterFunctions, ResultFilter, new_filter, Seen, prefilter_best, filter_best,
  increase_threshold_to_300, remove_cache_reset_sequence, unique_property_tuples,
}
use osiris_arm.Common.Text.{lines, unlines}
use osiris_arm.Common.Numeral.{stoi}
use osiris_arm.Utils.Split.{split_string}
use osiris_arm.Filter.Line.{csv_header, result_line_data}
use osiris_arm.Filter.Apply.{apply_filters_on_file}
use osiris_arm.Filter.Apply.Kept.{IsFiltered, apply_filters_on_file_lem}
use osiris_arm.Filter.Active.{filter_eq, is_active, enable_filter, IsDistinct, enable_filter_lem}
use osiris_arm.Filter.Best.{Row, IsBest, Tracks, nil-Tracks, prefilter_best-Tracks, filter_best_lem}

abbrev rows : List Row
rows = (codes "k", negsuc 299) ∷ (codes "k", pos 100) ∷ []

abbrev seen_1 : Seen
seen_1 = prefilter_best (codes "k") 0 (negsuc 299) []

abbrev seen_2 : Seen
seen_2 = prefilter_best (codes "k") 1 (pos 100) seen_1

seen_1-Tracks : Tracks ((codes "k", negsuc 299) ∷ []) seen_1
seen_1-Tracks = prefilter_best-Tracks [] [] nil-Tracks (codes "k") (negsuc 299)

rows-Tracks : Tracks rows seen_2
rows-Tracks =
    prefilter_best-Tracks ((codes "k", negsuc 299) ∷ []) seen_1 seen_1-Tracks (codes "k") (pos 100)

filter_best_lem_example :
    (out : Bool) × (filter_best (codes "k") 1 (pos 100) seen_2 ≡ ok (seen_2, out))
    × ((out ≡ false) ↔ IsBest rows (codes "k") 1 (pos 100))
filter_best_lem_example = filter_best_lem rows seen_2 rows-Tracks 1 (codes "k") (pos 100) refl

-- the least int stays negative
least_int : prefilter_best (codes "k") 2 (negsuc (2 ^ 31 - 1)) seen_1 ≡ seen_1
unfolding prefilter_best abs_int str_eq
least_int = refl

abbrev one_filter : ResultFilter
one_filter = record new_filter { active_filters = unique_property_tuples ∷ [] }

one_filter-IsDistinct : IsDistinct one_filter.active_filters
unfolding is_active
one_filter-IsDistinct = (refl, tt)

enable_filter_lem_example :
    IsDistinct (enable_filter increase_threshold_to_300 one_filter).active_filters
    × ((g : ResultFilterFunctions)
        → is_active g (enable_filter increase_threshold_to_300 one_filter).active_filters ≡ (
            if filter_eq increase_threshold_to_300 g
            then true
            else is_active g one_filter.active_filters))
enable_filter_lem_example =
    enable_filter_lem increase_threshold_to_300 one_filter one_filter-IsDistinct

abbrev result_line : Bytes
result_line = codes "310;1;CLFLUSH;a;b;c;2;NOP;a;b;c;3;NOP;a;b;c"

abbrev results : Bytes
results = unlines (csv_header ∷ result_line ∷ [])

abbrev cache_filter : ResultFilter
cache_filter = record new_filter { active_filters = remove_cache_reset_sequence ∷ [] }

-- the line is kept: its reset sequence is no cache sequence
results_filtered :
    apply_filters_on_file (some results) true cache_filter ≡ ok (cache_filter, results)
unfolding apply_filters_on_file lines unlines str_eq result_line_data split_string stoi
results_filtered = refl

apply_filters_on_file_lem_example : IsFiltered results (cache_filter, results)
apply_filters_on_file_lem_example = apply_filters_on_file_lem results cache_filter results_filtered
