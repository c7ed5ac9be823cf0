-- ===== src/Osiris/Stages.antt =====
-- src/osiris.cc: the filter stage of `main`, three runs of one filter object over files.
pub mod Result
use osiris_arm.Common.{
  ℕ, Bytes, codes, List, [], ◌∷◌, ◌++◌, Bool, true, false, not, Option, none, some, ◌==◌,
  if◌then◌else◌, Outcome, ok, ◌>>=◌, ◌>>◌, assert,
}
use osiris_arm.Filter.{
  ResultFilterFunctions, remove_all_cache_sequences, unique_property_tuples,
  measurement_trigger_extension_pairs, ResultFilter, new_filter,
}
use osiris_arm.Filter.Active.{enable_filter, clear_all_filters}
use osiris_arm.Filter.Apply.{apply_filters_on_file}
use osiris_arm.Osiris.Files.{Files, read_file, write_file}

-- `s.substr(0, s.find_last_of(d))`, when the text holds `d`
unfoldable pub before_last : ℕ → Bytes → Option Bytes
before_last d [] = none
before_last d (c ∷ s) = elim (before_last d s) [
  | some front ↦ some (c ∷ front)
  | none ↦ if c == d then some [] else none
]

-- the input name without its file ending
unfoldable pub base_name_of : Bytes → Bytes
unfolding before_last
base_name_of input_file = elim (before_last b'.' input_file) [
  | some front ↦ front
  | none ↦ input_file
]

abbrev pub output_file1 : Bytes → Bytes
output_file1 base_name = base_name ++ codes "_nocache.csv"

abbrev pub output_file2 : Bytes → Bytes
output_file2 base_name = base_name ++ codes "_nocache_filtered_by_all.csv"

abbrev pub output_file3 : Bytes → Bytes
output_file3 base_name = base_name ++ codes "_nocache_filtered_by_all_mt_extensionpair.csv"

unfoldable pub is_empty : Bytes → Bool
is_empty [] = true
is_empty (c ∷ s) = false

module _ (opens : Bytes → Bool) where
  -- EnableFilter and ApplyFiltersOnFile
  unfoldable pub stage :
      ResultFilterFunctions → Bytes → Bytes → ResultFilter → Files → Outcome (ResultFilter × Files)
  unfolding enable_filter apply_filters_on_file read_file write_file
  stage filter input output s files = do
    r ← apply_filters_on_file (read_file input files) (opens output) (enable_filter filter s)
    ok (r.0, write_file output r.1 files)

  unfoldable pub filter_stages : Bytes → Files → Outcome Files
  unfolding stage base_name_of clear_all_filters is_empty
  filter_stages filename_filter files = do
    assert (not (is_empty filename_filter))
    let base_name = base_name_of filename_filter
    r1 ← stage remove_all_cache_sequences filename_filter (output_file1 base_name) new_filter files
    r2 ←
        stage unique_property_tuples (output_file1 base_name) (output_file2 base_name)
          (clear_all_filters r1.0) r1.1
    r3 ←
        stage measurement_trigger_extension_pairs (output_file2 base_name) (output_file3 base_name)
          (clear_all_filters r2.0) r2.1
    ok r3.1
