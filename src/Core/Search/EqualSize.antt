-- ===== src/Core/Search/EqualSize.antt =====
-- src/core.cc: how many files the search with equal trigger and measurement writes.
use osiris_arm.Common.{
  ℕ, zero, suc, ◌+◌, ◌≤◌, ◌≡◌, Bytes, codes, str_eq, List, [], ◌∷◌, Bool, ◌||◌, inl, inr,
  Bool-cases, if◌then◌else◌, length, ok, Holds, >>=-Holds, Holds-map, Holds-eq_ok, arith,
  length-append,
}
use osiris_arm.Common.Int.{ℤ}
use osiris_arm.Common.Text.{contains, unlines}
use osiris_arm.Utils.Base64.{base64_encode}
use osiris_arm.CodeGenerator.{
  X86Instruction, CodeGenerator, create_instruction_from_index, get_number_of_instructions,
}
use osiris_arm.Filter.Line.{csv_header}
use osiris_arm.Executor.Machine.{Machine}
use osiris_arm.Executor.Experiment.{Executor}
use osiris_arm.Core.{is_sleep}
use osiris_arm.Core.Search.{
  ResultFile, strip_slashes, remove_file, create_file, add_file, equal_reset_loop,
  equal_trigger_loop, find_and_output_triggerpairs_with_trigger_equals_measurement,
}

length-remove_file :
    (name : Bytes) (files : List ResultFile) → length (remove_file name files) ≤ length files
unfolding remove_file
length-remove_file name [] = omega arith
length-remove_file name ((other, content) ∷ files) = elim (Bool-cases (str_eq other name)) [
  | inl e ↦ rw e (omega (arith, length-remove_file name files))
  | inr e ↦ rw e (omega (arith, length-remove_file name files))
]

length-create_file :
    (path content : Bytes) (files : List ResultFile)
    → length (create_file path content files) ≤ length files + 1
unfolding create_file
length-create_file path content files =
    let name = strip_slashes path in
    elim (Bool-cases (str_eq name [] || contains (codes "/") name)) [
      | inl e ↦ rw e (omega arith)
      | inr e ↦ rw e (
          omega (
            arith,
            length-append (remove_file name files) ((name, content) ∷ []),
            length-remove_file name files,
          ))
    ]

length-add_file :
    (trigger : X86Instruction) (ls : List Bytes) (files : List ResultFile)
    → length (add_file trigger ls files) ≤ length files + 1
unfolding add_file
length-add_file trigger [] files = omega arith
length-add_file trigger (l ∷ ls) files =
    length-create_file (base64_encode trigger.byte_representation) (unlines (l ∷ ls)) files

module _ (m : Machine) (g : CodeGenerator) (only_in_speculation : Bool) (low high : ℤ) where
  abbrev AtMost : ℕ → List ResultFile × (List Bytes × Executor m) → Type 0
  AtMost n r = length r.0 ≤ n

  equal_trigger_loop-AtMost :
      (trigger_idx left : ℕ) (files : List ResultFile) (csv : List Bytes) (s : Executor m)
      → Holds
          (AtMost (length files + left))
          (equal_trigger_loop m g only_in_speculation low high trigger_idx left files csv s)
  unfolding equal_trigger_loop
  equal_trigger_loop-AtMost trigger_idx zero files csv s = omega arith
  equal_trigger_loop-AtMost trigger_idx (suc left) files csv s =
      let P = AtMost (length files + suc left) in
      >>=-Holds P (create_instruction_from_index g trigger_idx) _ (λ trigger _.
        >>=-Holds P
          (if is_sleep trigger
            then ok ([], (csv, s))
            else equal_reset_loop m g only_in_speculation low high trigger 0
                (get_number_of_instructions g) [] csv s)
          _
          (λ r _.
            Holds-map (AtMost (length (add_file trigger r.0 files) + left)) P
              (equal_trigger_loop m g only_in_speculation low high (suc trigger_idx) left
                (add_file trigger r.0 files) r.1.0 r.1.1)
              (λ q h. omega (arith, length-add_file trigger r.0 files))
              (equal_trigger_loop-AtMost (suc trigger_idx) left (add_file trigger r.0 files) r.1.0
                r.1.1)))

  abbrev FewFiles : List ResultFile × (Bytes × Executor m) → Type 0
  FewFiles r = length r.0 ≤ length g.instruction_list

  few-Holds :
      (s : Executor m)
      → Holds FewFiles (
          find_and_output_triggerpairs_with_trigger_equals_measurement m g only_in_speculation low
            high s)
  unfolding find_and_output_triggerpairs_with_trigger_equals_measurement get_number_of_instructions
  few-Holds s =
      >>=-Holds FewFiles
        (equal_trigger_loop m g only_in_speculation low high 0 (get_number_of_instructions g) []
          (csv_header ∷ []) s)
        _
        (λ r made.
          let size =
            Holds-eq_ok (AtMost (0 + get_number_of_instructions g)) _
              (equal_trigger_loop-AtMost 0 (get_number_of_instructions g) [] (csv_header ∷ []) s)
              made in
          omega arith)

  -- The search writes at most one file for each instruction.
  pub length-find_and_output_triggerpairs :
      (s : Executor m) {r : List ResultFile × (Bytes × Executor m)}
      → find_and_output_triggerpairs_with_trigger_equals_measurement m g only_in_speculation low
          high s
        ≡ ok r
      → length r.0 ≤ length g.instruction_list
  length-find_and_output_triggerpairs s h = Holds-eq_ok FewFiles _ (few-Holds s) h
