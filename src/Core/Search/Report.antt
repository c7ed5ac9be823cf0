-- ===== src/Core/Search/Report.antt =====
-- src/core.cc: what the lines of a report stand for.
use osiris_arm.Common.{
  ℕ, zero, suc, ◌≤◌, ◌≡◌, refl, sym, ap, ◌∙◌, Bytes, List, [], ◌∷◌, ◌++◌, Bool, true, false, ◌&&◌,
  inl, inr, Bool-cases, Option, none, some, ◌==◌, if◌then◌else◌, ok, Holds, >>=-Holds, Holds-eq_ok,
  All, All-append,
}
use osiris_arm.Common.Int.{ℤ, pos, abs, ◌-ℤ◌}
use osiris_arm.Common.Text.{unlines}
use osiris_arm.CodeGenerator.{
  X86Instruction, CodeGenerator, create_instruction_from_index, get_number_of_instructions,
}
use osiris_arm.CodeGenerator.Printable.{IsOf}
use osiris_arm.Filter.Line.{csv_header}
use osiris_arm.Executor.Machine.{Machine}
use osiris_arm.Executor.Experiment.{
  Executor, TestResult, test_trigger_sequence, test_reset_sequence,
}
use osiris_arm.Executor.Experiment.Results.{IsTriggerResult, test_trigger_sequence_lem}
use osiris_arm.Core.{
  is_sleep, is_outside, is_quiet, csv_line, test_triple, iterations_no,
  reset_executions_amount_without_assumptions,
}
use osiris_arm.Core.Search.{
  add_line, reset_loop, trigger_loop, measurement_loop,
  find_and_output_triggerpairs_without_assumptions,
}

true-ne-false : true ≡ false → ⊥
true-ne-false e = cc

-- A timing that is reported is outside of the bounds, and at most 5000 cycles.
abbrev pub IsReported : ℤ → ℤ → Option ℤ → Type 0
IsReported low high none = Unit
IsReported low high (some result) = (is_outside low high result ≡ true) × (abs result ≤ 5000)

-- A line that stands for a reported timing of three instructions of the generator, the trigger not one
-- of the sleeps.
abbrev pub IsFound : CodeGenerator → ℤ → ℤ → Bytes → Type 0
IsFound g low high line =
    (result : ℤ) × (measurement : X86Instruction) × (trigger : X86Instruction)
    × (reset : X86Instruction) × (line ≡ csv_line result measurement trigger reset)
    × IsOf g measurement
    × IsOf g trigger
    × IsOf g reset
    × (is_sleep trigger ≡ false)
    × (is_outside low high result ≡ true)
    × (abs result ≤ 5000)

-- The header, and then lines that were found.
abbrev pub IsReport : CodeGenerator → ℤ → ℤ → List Bytes → Type 0
IsReport g low high csv = (ls : List Bytes) × (csv ≡ csv_header ∷ ls) × All (IsFound g low high) ls

pub add_line-IsReport :
    (g : CodeGenerator) (low high : ℤ) (measurement trigger reset : X86Instruction)
    (csv : List Bytes) (r : Option ℤ)
    → IsOf g measurement
    → IsOf g trigger
    → IsOf g reset
    → is_sleep trigger ≡ false
    → IsReported low high r
    → IsReport g low high csv
    → IsReport g low high (add_line measurement trigger reset csv r)
unfolding add_line
add_line-IsReport g low high measurement trigger reset csv none om ot ors awake h report = report
add_line-IsReport g low high measurement trigger reset csv (some result) om ot ors awake (out, near)
      (ls, e, all) =
    (
      ls ++ csv_line result measurement trigger reset ∷ [],
      ap (λ c. c ++ csv_line result measurement trigger reset ∷ []) e,
      All-append _ ls _ all
          ((result, measurement, trigger, reset, refl, om, ot, ors, awake, out, near), tt),
    )

module _ (m : Machine) (only_in_speculation : Bool) (low high : ℤ) where
  abbrev pub ReportedEnd : Option ℤ × Executor m → Type 0
  ReportedEnd r = IsReported low high r.0

  trigger_success :
      (r : TestResult) → IsTriggerResult r → (r.error == 0) ≡ true → abs r.cycles_difference ≤ 5000
  trigger_success r (inl e) h =
      absurd (true-ne-false (sym h ∙ ap (λ (t : TestResult). t.error == 0) e))
  trigger_success r (inr h) _ = h.1

  pub test_triple-Holds :
      (amount : ℕ) (trigger measurement reset : X86Instruction) (s : Executor m)
      → Holds ReportedEnd
          (test_triple m only_in_speculation low high amount trigger measurement reset s)
  unfolding test_triple
  test_triple-Holds amount trigger measurement reset s =
      >>=-Holds ReportedEnd
        (test_trigger_sequence m trigger.byte_representation measurement.byte_representation
          reset.byte_representation only_in_speculation iterations_no
          (if is_sleep reset then 1 else amount) s)
        _
        (λ r made.
          let result = test_trigger_sequence_lem m _ _ _ _ _ _ s made in
          elim (Bool-cases (r.0.error == 0)) [
            | inr wrong ↦ rw wrong tt
            | inl fine ↦ rw fine (elim (Bool-cases (is_outside low high r.0.cycles_difference)) [
              | inr inside ↦ rw inside tt
              | inl out ↦ rw out (
                  >>=-Holds ReportedEnd
                    (test_reset_sequence m trigger.byte_representation
                      measurement.byte_representation reset.byte_representation iterations_no
                      (if is_sleep reset then 1 else amount) r.1)
                    _
                    (λ q _. elim (Bool-cases (q.0.error == 0 && is_quiet q.0.cycles_difference)) [
                      | inl quiet ↦ rw quiet (out, trigger_success r.0 result fine)
                      | inr loud ↦ rw loud tt
                    ]))
            ])
          ])

module _ (m : Machine) (g : CodeGenerator) (only_in_speculation : Bool) (low high : ℤ) where
  abbrev ReportEnd : List Bytes × Executor m → Type 0
  ReportEnd r = IsReport g low high r.0

  reset_loop-Holds :
      (measurement trigger : X86Instruction) (reset_idx left : ℕ) (csv : List Bytes)
      (s : Executor m)
      → IsOf g measurement
      → IsOf g trigger
      → is_sleep trigger ≡ false
      → IsReport g low high csv
      → Holds ReportEnd
          (reset_loop m g only_in_speculation low high measurement trigger reset_idx left csv s)
  unfolding reset_loop
  reset_loop-Holds measurement trigger reset_idx zero csv s om ot awake report = report
  reset_loop-Holds measurement trigger reset_idx (suc left) csv s om ot awake report =
      >>=-Holds ReportEnd (create_instruction_from_index g reset_idx) _ (λ reset created.
        >>=-Holds ReportEnd
          (test_triple m only_in_speculation low high reset_executions_amount_without_assumptions
            trigger measurement reset s)
          _
          (λ r made. reset_loop-Holds measurement trigger (suc reset_idx) left _ r.1 om ot awake (
            add_line-IsReport g low high measurement trigger reset csv r.0 om ot
              (reset_idx, created) awake
              (Holds-eq_ok (ReportedEnd m only_in_speculation low high) _
                (test_triple-Holds m only_in_speculation low high _ trigger measurement reset s)
                made)
              report)))

  trigger_loop-Holds :
      (measurement : X86Instruction) (trigger_idx left : ℕ) (csv : List Bytes) (s : Executor m)
      → IsOf g measurement
      → IsReport g low high csv
      → Holds ReportEnd
          (trigger_loop m g only_in_speculation low high measurement trigger_idx left csv s)
  unfolding trigger_loop
  trigger_loop-Holds measurement trigger_idx zero csv s om report = report
  trigger_loop-Holds measurement trigger_idx (suc left) csv s om report =
      >>=-Holds ReportEnd (create_instruction_from_index g trigger_idx) _ (λ trigger created.
        elim (Bool-cases (is_sleep trigger)) [
          | inl asleep ↦
              rw asleep (trigger_loop-Holds measurement (suc trigger_idx) left csv s om report)
          | inr awake ↦ rw awake (
              >>=-Holds ReportEnd
                (reset_loop m g only_in_speculation low high measurement trigger 0
                  (get_number_of_instructions g) csv s)
                _
                (λ r made. trigger_loop-Holds measurement (suc trigger_idx) left r.0 r.1 om (
                  Holds-eq_ok ReportEnd _
                    (reset_loop-Holds measurement trigger 0 (get_number_of_instructions g) csv s om
                      (trigger_idx, created) awake report)
                    made)))
        ])

  measurement_loop-Holds :
      (measurement_idx left : ℕ) (csv : List Bytes) (s : Executor m)
      → IsReport g low high csv
      → Holds ReportEnd
          (measurement_loop m g only_in_speculation low high measurement_idx left csv s)
  unfolding measurement_loop
  measurement_loop-Holds measurement_idx zero csv s report = report
  measurement_loop-Holds measurement_idx (suc left) csv s report =
      >>=-Holds ReportEnd (create_instruction_from_index g measurement_idx) _
        (λ measurement created.
          >>=-Holds ReportEnd
            (trigger_loop m g only_in_speculation low high measurement 0
              (get_number_of_instructions g) csv s)
            _
            (λ r made. measurement_loop-Holds (suc measurement_idx) left r.0 r.1 (
              Holds-eq_ok ReportEnd _
                (trigger_loop-Holds measurement 0 (get_number_of_instructions g) csv s
                  (measurement_idx, created) report)
                made)))

abbrev WrittenEnd : (m : Machine) → CodeGenerator → ℤ → Bytes × Executor m → Type 0
WrittenEnd m g threshold r =
    (ls : List Bytes) × (r.0 ≡ unlines (csv_header ∷ ls))
    × All (IsFound g (pos 0 -ℤ threshold) threshold) ls

find-Holds :
    (m : Machine) (g : CodeGenerator) (only_in_speculation : Bool) (threshold : ℤ) (s : Executor m)
    → Holds
        (WrittenEnd m g threshold)
        (find_and_output_triggerpairs_without_assumptions m g only_in_speculation threshold s)
unfolding find_and_output_triggerpairs_without_assumptions
find-Holds m g only_in_speculation threshold s =
    let low = pos 0 -ℤ threshold in
    >>=-Holds (WrittenEnd m g threshold)
      (measurement_loop m g only_in_speculation low threshold 0 (get_number_of_instructions g)
        (csv_header ∷ []) s)
      _
      (λ r made.
        let (ls, e, all) =
          Holds-eq_ok (ReportEnd m g only_in_speculation low threshold) _
            (measurement_loop-Holds m g only_in_speculation low threshold 0
              (get_number_of_instructions g) (csv_header ∷ []) s ([], refl, tt))
            made in
        (ls, ap unlines e, all))

-- When the search without assumptions returns, the file holds the header and then lines that stand each
-- for three instructions of the generator, the trigger not one of the sleeps, whose timing is below the negated threshold
-- or above the threshold, and at most 5000 cycles in size.
pub find_and_output_triggerpairs_without_assumptions_lem :
    (m : Machine) (g : CodeGenerator) (only_in_speculation : Bool) (threshold : ℤ) (s : Executor m)
    {r : Bytes × Executor m}
    → find_and_output_triggerpairs_without_assumptions m g only_in_speculation threshold s ≡ ok r
    → (ls : List Bytes) × (r.0 ≡ unlines (csv_header ∷ ls))
      × All (IsFound g (pos 0 -ℤ threshold) threshold) ls
find_and_output_triggerpairs_without_assumptions_lem m g only_in_speculation threshold s h =
    Holds-eq_ok (WrittenEnd m g threshold) _ (find-Holds m g only_in_speculation threshold s) h
