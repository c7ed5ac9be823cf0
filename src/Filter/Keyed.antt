-- ===== src/Filter/Keyed.antt =====
-- src/filter.cc: the five filters in two interfaces, those that keep the best row of a key and those that
-- look at one line only.
use osiris_arm.Common.{ℕ, ◌≡◌, refl, Bytes, Bool, ok}
use osiris_arm.Filter.{
  ResultFilterFunctions, increase_threshold_to_300, remove_cache_reset_sequence,
  remove_all_cache_sequences, unique_property_tuples, measurement_trigger_extension_pairs,
  ResultFilter, Seen, prefilter_best, filter_best, property_tuple, extension_pair,
  execute_prefilter_function, execute_filter_function, filter_function_increase_threshold_300,
  filter_function_remove_cache_reset_sequence, filter_function_remove_all_cache_sequences,
  filter_function_unique_property_tuples, filter_function_measurement_trigger_extension_pairs,
}
use osiris_arm.Filter.Line.{ResultLineData}

-- A filter that works through the best rows in one map of the object.
pub record Keyed (f : ResultFilterFunctions) : Type 0 where
  pub key : ResultLineData → Bytes
  pub seen : ResultFilter → Seen
  pub seen_after :
      (n : ℕ) (d : ResultLineData) (s : ResultFilter)
      → seen (execute_prefilter_function n d f s) ≡ prefilter_best (key d) n d.timing (seen s)
  -- the map of the other such filter
  pub other : ResultFilter → Seen
  pub other_after :
      (n : ℕ) (d : ResultLineData) (s : ResultFilter)
      → other (execute_prefilter_function n d f s) ≡ other s
  pub active_after :
      (n : ℕ) (d : ResultLineData) (s : ResultFilter)
      → (execute_prefilter_function n d f s).active_filters ≡ s.active_filters
  pub filter_after :
      (n : ℕ) (d : ResultLineData) (s : ResultFilter) (out : Bool)
      → filter_best (key d) n d.timing (seen s) ≡ ok (seen s, out)
      → execute_filter_function n d f s ≡ ok (s, out)

-- A filter that has no first pass and whose answer is a test of the line.
pub record Plain (f : ResultFilterFunctions) : Type 0 where
  pub verdict : ResultLineData → Bool
  pub prefilter_after :
      (n : ℕ) (d : ResultLineData) (s : ResultFilter) → execute_prefilter_function n d f s ≡ s
  pub filter_after :
      (n : ℕ) (d : ResultLineData) (s : ResultFilter)
      → execute_filter_function n d f s ≡ ok (s, verdict d)

pub tuples_after :
    (n : ℕ) (d : ResultLineData) (s : ResultFilter) (out : Bool)
    → filter_best (property_tuple d) n d.timing s.best_property_tuples_seen
      ≡ ok (s.best_property_tuples_seen, out)
    → execute_filter_function n d unique_property_tuples s ≡ ok (s, out)
unfolding execute_filter_function filter_function_unique_property_tuples
tuples_after n d s out h = rw h refl

pub pairs_after :
    (n : ℕ) (d : ResultLineData) (s : ResultFilter) (out : Bool)
    → filter_best (extension_pair d) n d.timing s.best_measure_trigger_extensionpair_seen
      ≡ ok (s.best_measure_trigger_extensionpair_seen, out)
    → execute_filter_function n d measurement_trigger_extension_pairs s ≡ ok (s, out)
unfolding execute_filter_function filter_function_measurement_trigger_extension_pairs
pairs_after n d s out h = rw h refl

-- the laws of the first pass are equations by computation
pub tuples_seen_after :
    (n : ℕ) (d : ResultLineData) (s : ResultFilter)
    → let s' = execute_prefilter_function n d unique_property_tuples s in
      (s'.best_property_tuples_seen
        ≡ prefilter_best (property_tuple d) n d.timing s.best_property_tuples_seen)
      × (s'.active_filters ≡ s.active_filters)
      × (s'.best_measure_trigger_extensionpair_seen ≡ s.best_measure_trigger_extensionpair_seen)
unfolding execute_prefilter_function
tuples_seen_after n d s = (refl, refl, refl)

pub pairs_seen_after :
    (n : ℕ) (d : ResultLineData) (s : ResultFilter)
    → let s' = execute_prefilter_function n d measurement_trigger_extension_pairs s in
      (s'.best_measure_trigger_extensionpair_seen
        ≡ prefilter_best (extension_pair d) n d.timing s.best_measure_trigger_extensionpair_seen)
      × (s'.active_filters ≡ s.active_filters)
      × (s'.best_property_tuples_seen ≡ s.best_property_tuples_seen)
unfolding execute_prefilter_function
pairs_seen_after n d s = (refl, refl, refl)

abbrev pub tuples_filter : Keyed unique_property_tuples
tuples_filter = record {
  key = property_tuple;
  seen = λ s. s.best_property_tuples_seen;
  seen_after = λ n d s. (tuples_seen_after n d s).0;
  other = λ s. s.best_measure_trigger_extensionpair_seen;
  other_after = λ n d s. (tuples_seen_after n d s).2;
  active_after = λ n d s. (tuples_seen_after n d s).1;
  filter_after = tuples_after;
}

abbrev pub pairs_filter : Keyed measurement_trigger_extension_pairs
pairs_filter = record {
  key = extension_pair;
  seen = λ s. s.best_measure_trigger_extensionpair_seen;
  seen_after = λ n d s. (pairs_seen_after n d s).0;
  other = λ s. s.best_property_tuples_seen;
  other_after = λ n d s. (pairs_seen_after n d s).2;
  active_after = λ n d s. (pairs_seen_after n d s).1;
  filter_after = pairs_after;
}

-- the three filters without a first pass
pub plain_after :
    (n : ℕ) (d : ResultLineData) (s : ResultFilter)
    → (execute_prefilter_function n d increase_threshold_to_300 s ≡ s)
      × (execute_prefilter_function n d remove_cache_reset_sequence s ≡ s)
      × (execute_prefilter_function n d remove_all_cache_sequences s ≡ s)
unfolding execute_prefilter_function
plain_after n d s = (refl, refl, refl)

pub verdict_after :
    (n : ℕ) (d : ResultLineData) (s : ResultFilter)
    → (execute_filter_function n d increase_threshold_to_300 s
        ≡ ok (s, filter_function_increase_threshold_300 d))
      × (execute_filter_function n d remove_cache_reset_sequence s
          ≡ ok (s, filter_function_remove_cache_reset_sequence d))
      × (execute_filter_function n d remove_all_cache_sequences s
          ≡ ok (s, filter_function_remove_all_cache_sequences d))
unfolding execute_filter_function
verdict_after n d s = (refl, refl, refl)

abbrev pub threshold_filter : Plain increase_threshold_to_300
threshold_filter = record {
  verdict = filter_function_increase_threshold_300;
  prefilter_after = λ n d s. (plain_after n d s).0;
  filter_after = λ n d s. (verdict_after n d s).0;
}

abbrev pub cache_reset_filter : Plain remove_cache_reset_sequence
cache_reset_filter = record {
  verdict = filter_function_remove_cache_reset_sequence;
  prefilter_after = λ n d s. (plain_after n d s).1;
  filter_after = λ n d s. (verdict_after n d s).1;
}

abbrev pub cache_filter : Plain remove_all_cache_sequences
cache_filter = record {
  verdict = filter_function_remove_all_cache_sequences;
  prefilter_after = λ n d s. (plain_after n d s).2;
  filter_after = λ n d s. (verdict_after n d s).2;
}
