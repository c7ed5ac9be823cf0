-- ===== src/Filter/Active.antt =====
-- src/filter.cc: the list of active filters. A vector is searched by `std::find`.
use osiris_arm.Common.{
  ℕ, ◌≡◌, refl, List, [], ◌∷◌, ◌++◌, Bool, true, false, Bool-cases, inl, inr, arith, if◌then◌else◌,
}
use osiris_arm.Filter.{
  ResultFilterFunctions, increase_threshold_to_300, remove_cache_reset_sequence,
  remove_all_cache_sequences, unique_property_tuples, measurement_trigger_extension_pairs,
  ResultFilter,
}

-- the number of an enumerator
abbrev code_of : ResultFilterFunctions → ℕ
code_of increase_threshold_to_300 = 0
code_of remove_cache_reset_sequence = 1
code_of remove_all_cache_sequences = 2
code_of unique_property_tuples = 3
code_of measurement_trigger_extension_pairs = 4

unfoldable pub filter_eq : ResultFilterFunctions → ResultFilterFunctions → Bool
filter_eq increase_threshold_to_300 increase_threshold_to_300 = true
filter_eq remove_cache_reset_sequence remove_cache_reset_sequence = true
filter_eq remove_all_cache_sequences remove_all_cache_sequences = true
filter_eq unique_property_tuples unique_property_tuples = true
filter_eq measurement_trigger_extension_pairs measurement_trigger_extension_pairs = true
filter_eq _ _ = false

unfoldable pub is_active : ResultFilterFunctions → List ResultFilterFunctions → Bool
unfolding filter_eq
is_active f [] = false
is_active f (g ∷ fs) = if filter_eq g f then true else is_active f fs

-- `active_filters_.erase(filter_pos)`: the first one that is found
unfoldable pub erase_first :
    ResultFilterFunctions → List ResultFilterFunctions → List ResultFilterFunctions
unfolding filter_eq
erase_first f [] = []
erase_first f (g ∷ fs) = if filter_eq g f then fs else g ∷ erase_first f fs

unfoldable pub enable_filter : ResultFilterFunctions → ResultFilter → ResultFilter
unfolding is_active
enable_filter f s =
    if is_active f s.active_filters
    then s
    else record s { active_filters = s.active_filters ++ f ∷ [] }

unfoldable pub disable_filter : ResultFilterFunctions → ResultFilter → ResultFilter
unfolding is_active erase_first
disable_filter f s =
    if is_active f s.active_filters
    then record s { active_filters = erase_first f s.active_filters }
    else s

unfoldable pub clear_all_filters : ResultFilter → ResultFilter
clear_all_filters s = record s { active_filters = [] }

unfoldable pub enable_filters : List ResultFilterFunctions → ResultFilter → ResultFilter
unfolding enable_filter
enable_filters [] s = s
enable_filters (f ∷ fs) s = enable_filters fs (enable_filter f s)

unfoldable pub disable_filters : List ResultFilterFunctions → ResultFilter → ResultFilter
unfolding disable_filter
disable_filters [] s = s
disable_filters (f ∷ fs) s = disable_filters fs (disable_filter f s)

-- No filter is active twice.
abbrev pub IsDistinct : List ResultFilterFunctions → Type 0
IsDistinct [] = Unit
IsDistinct (f ∷ fs) = (is_active f fs ≡ false) × IsDistinct fs

eq_sound : (f g : ResultFilterFunctions) → filter_eq f g ≡ true → f ≡ g
unfolding filter_eq
eq_sound f g h = ground arith

eq_refl : (f : ResultFilterFunctions) → filter_eq f f ≡ true
unfolding filter_eq
eq_refl f = ground arith

is_active-append :
    (f g : ResultFilterFunctions) (fs : List ResultFilterFunctions)
    → is_active g (fs ++ f ∷ []) ≡ (if is_active g fs then true else filter_eq f g)
unfolding is_active
is_active-append f g [] = ground arith
is_active-append f g (h ∷ fs) = elim (Bool-cases (filter_eq h g)) [
  | inl e ↦ rw e refl
  | inr e ↦ rw e (is_active-append f g fs)
]

is_active-erase_first :
    (f g : ResultFilterFunctions) (fs : List ResultFilterFunctions)
    → IsDistinct fs
    → is_active g (erase_first f fs) ≡ (if filter_eq f g then false else is_active g fs)
unfolding is_active erase_first
is_active-erase_first f g [] d = ground arith
is_active-erase_first f g (h ∷ fs) (new, d) = elim (Bool-cases (filter_eq h f)) [
  | inl e ↦ let same : h ≡ f = eq_sound h f e in rw (e, ← same) (ground (arith, eq_sound h g, new))
  | inr e ↦ rw e (
      ground
        (arith, is_active-erase_first f g fs d, eq_sound h g, eq_sound f g, eq_refl g, eq_refl f))
]

outside :
    (f g : ResultFilterFunctions) (fs : List ResultFilterFunctions)
    → is_active f (g ∷ fs) ≡ false
    → (filter_eq f g ≡ false) × (is_active f fs ≡ false)
unfolding is_active
outside f g fs h = ground (arith, eq_sound f g, eq_refl f)

append-IsDistinct :
    (f : ResultFilterFunctions) (fs : List ResultFilterFunctions)
    → is_active f fs ≡ false
    → IsDistinct fs
    → IsDistinct (fs ++ f ∷ [])
append-IsDistinct f [] h d = (unfold is_active in refl, tt)
append-IsDistinct f (g ∷ fs) h (new, d) =
    let (apart, rest) = outside f g fs h in
    (rw (is_active-append f g fs) (rw (new, apart) refl), append-IsDistinct f fs rest d)

erase_first-IsDistinct :
    (f : ResultFilterFunctions) (fs : List ResultFilterFunctions)
    → IsDistinct fs
    → IsDistinct (erase_first f fs)
unfolding erase_first
erase_first-IsDistinct f [] d = tt
erase_first-IsDistinct f (g ∷ fs) (new, d) = elim (Bool-cases (filter_eq g f)) [
  | inl e ↦ rw e d
  | inr e ↦ rw e (erased e, erase_first-IsDistinct f fs d)
]
  where
    erased : filter_eq g f ≡ false → is_active g (erase_first f fs) ≡ false
    erased e =
        rw (is_active-erase_first f g fs d)
          (elim (Bool-cases (filter_eq f g)) [ inl h ↦ rw h refl | inr h ↦ rw h new ])

-- Enabling a filter keeps the active filters distinct, makes that one active and changes no other.
pub enable_filter_lem :
    (f : ResultFilterFunctions) (s : ResultFilter)
    → IsDistinct s.active_filters
    → let s' = enable_filter f s in
      IsDistinct s'.active_filters
      × ((g : ResultFilterFunctions)
          → is_active g s'.active_filters
            ≡ (if filter_eq f g then true else is_active g s.active_filters))
unfolding enable_filter
enable_filter_lem f s d = elim (Bool-cases (is_active f s.active_filters)) [
  | inl e ↦ rw e (
    d,
    λ g. elim (Bool-cases (filter_eq f g)) [
      | inl h ↦ let same : f ≡ g = eq_sound f g h in rw (h, ← same) e
      | inr h ↦ rw h refl
    ],
  )
  | inr e ↦ rw e (
    append-IsDistinct f s.active_filters e d,
    λ g.
        rw (is_active-append f g s.active_filters)
          (swap (is_active g s.active_filters) (filter_eq f g)),
  )
]
  where
    swap : (a b : Bool) → (if a then true else b) ≡ (if b then true else a)
    swap true true = refl
    swap true false = refl
    swap false true = refl
    swap false false = refl

-- Disabling a filter keeps the active filters distinct, makes that one inactive and changes no other.
pub disable_filter_lem :
    (f : ResultFilterFunctions) (s : ResultFilter)
    → IsDistinct s.active_filters
    → let s' = disable_filter f s in
      IsDistinct s'.active_filters
      × ((g : ResultFilterFunctions)
          → is_active g s'.active_filters
            ≡ (if filter_eq f g then false else is_active g s.active_filters))
unfolding disable_filter
disable_filter_lem f s d = elim (Bool-cases (is_active f s.active_filters)) [
  | inl e ↦ rw e (
    erase_first-IsDistinct f s.active_filters d,
    λ g. is_active-erase_first f g s.active_filters d,
  )
  | inr e ↦ rw e (
    d,
    λ g. elim (Bool-cases (filter_eq f g)) [
      | inl h ↦ let same : f ≡ g = eq_sound f g h in rw (h, ← same) e
      | inr h ↦ rw h refl
    ],
  )
]
