-- ===== src/Core/Search/Equal.antt =====
-- src/core.cc: what the search with equal trigger and measurement writes.
use osiris_arm.Common.{
  ℕ, zero, suc, ◌≤◌, ◌≡◌, ◌≢◌, refl, ap, Bytes, List, [], ◌∷◌, Bool, true, false, inl, inr,
  Bool-cases, Option, none, some, str_eq, ◌||◌, codes, arith, ok, Holds, >>=-Holds, Holds-eq_ok,
  All, All-append,
}
use osiris_arm.Common.Int.{ℤ, abs}
use osiris_arm.Common.Text.{unlines, contains}
use osiris_arm.Utils.Split.{Lacks}
use osiris_arm.Utils.Split.Laws.{contains-Lacks}
use osiris_arm.Utils.Base64.{base64_encode}
use osiris_arm.CodeGenerator.{
  X86Instruction, CodeGenerator, create_instruction_from_index, get_number_of_instructions,
}
use osiris_arm.CodeGenerator.Printable.{IsOf}
use osiris_arm.Filter.Line.{csv_header}
use osiris_arm.Executor.Machine.{Machine}
use osiris_arm.Executor.Experiment.{Executor}
use osiris_arm.Core.{
  is_sleep, is_outside, test_triple, reset_executions_amount_trigger_equals_measurement,
}
use osiris_arm.Core.Search.{
  ResultFile, strip_slashes, remove_file, create_file, output_line, add_output, add_file,
  equal_reset_loop, equal_trigger_loop,
  find_and_output_triggerpairs_with_trigger_equals_measurement,
}
use osiris_arm.Core.Search.Report.{
  IsReported, IsFound, IsReport, add_line-IsReport, ReportedEnd, test_triple-Holds,
}

-- A line for a reported timing behind a reset.
abbrev pub IsOutputLine : CodeGenerator → ℤ → ℤ → Bytes → Type 0
IsOutputLine g low high line =
    (result : ℤ) × (reset : X86Instruction) × (line ≡ output_line reset result)
    × IsOf g reset
    × (is_outside low high result ≡ true)
    × (abs result ≤ 5000)

-- A file of a trigger that is no sleep: named by its bytes, with no slash, and with at least one line.
abbrev pub IsResultFile : CodeGenerator → ℤ → ℤ → ResultFile → Type 0
IsResultFile g low high file =
    (trigger : X86Instruction) × (ls : List Bytes) × (file.0
      ≡ strip_slashes (base64_encode trigger.byte_representation))
    × Lacks b'/' file.0
    × (file.1 ≡ unlines ls)
    × (ls ≢ [])
    × IsOf g trigger
    × (is_sleep trigger ≡ false)
    × All (IsOutputLine g low high) ls

add_output-IsOutputLine :
    (g : CodeGenerator) (low high : ℤ) (reset : X86Instruction) (output : List Bytes) (r : Option ℤ)
    → IsOf g reset
    → IsReported low high r
    → All (IsOutputLine g low high) output
    → All (IsOutputLine g low high) (add_output reset output r)
unfolding add_output
add_output-IsOutputLine g low high reset output none of h all = all
add_output-IsOutputLine g low high reset output (some result) of (out, near) all =
    All-append _ output _ all ((result, reset, refl, of, out, near), tt)

remove_file-All {κ} :
    (P : ResultFile → Type κ) (name : Bytes) (files : List ResultFile)
    → All P files
    → All P (remove_file name files)
unfolding remove_file
remove_file-All P name [] h = tt
remove_file-All P name ((other, content) ∷ files) (hf, h) = elim (Bool-cases (str_eq other name)) [
  | inl e ↦ rw e (remove_file-All P name files h)
  | inr e ↦ rw e (hf, remove_file-All P name files h)
]

slash_free :
    (name : Bytes) → (str_eq name [] || contains (codes "/") name) ≡ false → Lacks b'/' name
slash_free name h = contains-Lacks b'/' name (ground arith)

pub create_file-All {κ} :
    (P : ResultFile → Type κ) (path content : Bytes) (files : List ResultFile)
    → (Lacks b'/' (strip_slashes path) → P (strip_slashes path, content))
    → All P files
    → All P (create_file path content files)
unfolding create_file
create_file-All P path content files hp h =
    let name = strip_slashes path in
    elim (Bool-cases (str_eq name [] || contains (codes "/") name)) [
      | inl e ↦ rw e h
      | inr e ↦ rw e (
          All-append P (remove_file name files) _ (remove_file-All P name files h)
            (hp (slash_free name e), tt))
    ]

add_file-IsResultFile :
    (g : CodeGenerator) (low high : ℤ) (trigger : X86Instruction) (ls : List Bytes)
    (files : List ResultFile)
    → IsOf g trigger
    → (ls ≢ [] → is_sleep trigger ≡ false)
    → All (IsOutputLine g low high) ls
    → All (IsResultFile g low high) files
    → All (IsResultFile g low high) (add_file trigger ls files)
unfolding add_file
add_file-IsResultFile g low high trigger [] files of awake hl h = h
add_file-IsResultFile g low high trigger (l ∷ ls) files of awake hl h =
    create_file-All (IsResultFile g low high) (base64_encode trigger.byte_representation)
      (unlines (l ∷ ls)) files
      (λ free. (trigger, l ∷ ls, refl, free, refl, (λ e. cc), of, awake (λ e. cc), hl)) h

module _ (m : Machine) (g : CodeGenerator) (only_in_speculation : Bool) (low high : ℤ) where
  abbrev ResetsEnd : List Bytes × (List Bytes × Executor m) → Type 0
  ResetsEnd r = All (IsOutputLine g low high) r.0 × IsReport g low high r.1.0

  equal_reset_loop-Holds :
      (trigger : X86Instruction) (reset_idx left : ℕ) (output csv : List Bytes) (s : Executor m)
      → IsOf g trigger
      → is_sleep trigger ≡ false
      → All (IsOutputLine g low high) output
      → IsReport g low high csv
      → Holds ResetsEnd
          (equal_reset_loop m g only_in_speculation low high trigger reset_idx left output csv s)
  unfolding equal_reset_loop
  equal_reset_loop-Holds trigger reset_idx zero output csv s of awake ho report = (ho, report)
  equal_reset_loop-Holds trigger reset_idx (suc left) output csv s of awake ho report =
      >>=-Holds ResetsEnd (create_instruction_from_index g reset_idx) _ (λ reset created.
        >>=-Holds ResetsEnd
          (test_triple m only_in_speculation low high
            reset_executions_amount_trigger_equals_measurement trigger trigger reset s)
          _
          (λ r made.
            let reported =
              Holds-eq_ok (ReportedEnd m only_in_speculation low high) _
                (test_triple-Holds m only_in_speculation low high _ trigger trigger reset s) made in
            equal_reset_loop-Holds trigger (suc reset_idx) left _ _ r.1 of awake
              (add_output-IsOutputLine g low high reset output r.0 (reset_idx, created) reported ho)
              (add_line-IsReport g low high trigger trigger reset csv r.0 of of (reset_idx, created)
                awake reported report)))

  abbrev TriggersEnd : List ResultFile × (List Bytes × Executor m) → Type 0
  TriggersEnd r = All (IsResultFile g low high) r.0 × IsReport g low high r.1.0

  equal_trigger_loop-Holds :
      (trigger_idx left : ℕ) (files : List ResultFile) (csv : List Bytes) (s : Executor m)
      → All (IsResultFile g low high) files
      → IsReport g low high csv
      → Holds TriggersEnd
          (equal_trigger_loop m g only_in_speculation low high trigger_idx left files csv s)
  unfolding equal_trigger_loop
  equal_trigger_loop-Holds trigger_idx zero files csv s hf report = (hf, report)
  equal_trigger_loop-Holds trigger_idx (suc left) files csv s hf report =
      >>=-Holds TriggersEnd (create_instruction_from_index g trigger_idx) _ (λ trigger created.
        elim (Bool-cases (is_sleep trigger)) [
          | inl asleep ↦ rw asleep (
              equal_trigger_loop-Holds (suc trigger_idx) left _ csv s
                (add_file-IsResultFile g low high trigger [] files (trigger_idx, created)
                  (λ e. absurd (e refl)) tt hf)
                report)
          | inr awake ↦ rw awake (
              >>=-Holds TriggersEnd
                (equal_reset_loop m g only_in_speculation low high trigger 0
                  (get_number_of_instructions g) [] csv s)
                _
                (λ r made.
                  let (ho, report') =
                    Holds-eq_ok ResetsEnd _
                      (equal_reset_loop-Holds trigger 0 (get_number_of_instructions g) [] csv s
                        (trigger_idx, created) awake tt report)
                      made in
                  equal_trigger_loop-Holds (suc trigger_idx) left _ r.1.0 r.1.1
                    (add_file-IsResultFile g low high trigger r.0 files (trigger_idx, created)
                      (λ _. awake) ho hf)
                    report'))
        ])

  abbrev EqualEnd : List ResultFile × (Bytes × Executor m) → Type 0
  EqualEnd r =
      All (IsResultFile g low high) r.0
      × ((ls : List Bytes) × (r.1.0 ≡ unlines (csv_header ∷ ls)) × All (IsFound g low high) ls)

  equal-Holds :
      (s : Executor m)
      → Holds EqualEnd (
          find_and_output_triggerpairs_with_trigger_equals_measurement m g only_in_speculation low
            high s)
  unfolding find_and_output_triggerpairs_with_trigger_equals_measurement
  equal-Holds s =
      >>=-Holds EqualEnd
        (equal_trigger_loop m g only_in_speculation low high 0 (get_number_of_instructions g) []
          (csv_header ∷ []) s)
        _
        (λ r made.
          let (hf, (ls, e, all)) =
            Holds-eq_ok TriggersEnd _
              (equal_trigger_loop-Holds 0 (get_number_of_instructions g) [] (csv_header ∷ []) s tt
                ([], refl, tt))
              made in
          (hf, (ls, ap unlines e, all)))

  -- When the search with equal trigger and measurement returns, its csv file holds the header and lines of
  -- reported timings, below the low or above the high threshold and at most 5000 cycles in size, for triggers
  -- that are no sleeps, and each file of the folder is named by the bytes of such a trigger, less any slashes
  -- at the front of the name, has no slash left, and holds at least one line, each a reset with a reported timing.
  pub find_and_output_triggerpairs_with_trigger_equals_measurement_lem :
      (s : Executor m) {r : List ResultFile × (Bytes × Executor m)}
      → find_and_output_triggerpairs_with_trigger_equals_measurement m g only_in_speculation low
          high s
        ≡ ok r
      → All (IsResultFile g low high) r.0
        × ((ls : List Bytes) × (r.1.0 ≡ unlines (csv_header ∷ ls)) × All (IsFound g low high) ls)
  find_and_output_triggerpairs_with_trigger_equals_measurement_lem s h =
      Holds-eq_ok EqualEnd _ (equal-Holds s) h
