-- ===== src/Core/Cleanup/Output.antt =====
-- src/core.cc: the file that OutputNonFaultingInstructions writes.
use osiris_arm.Common.{
  All-get_elem?, ℕ, zero, suc, ◌+◌, ◌*◌, ◌^◌, ◌≤◌, ◌≡◌, refl, ap, Bytes, List, [], ◌∷◌, ◌++◌, map,
  ◌⊎◌, inl, inr, Bool-cases, Option-cases, ◌==◌, some, if◌then◌else◌, ltb, length, get_elem?, ok,
  Holds, >>=-Holds, Holds-eq_ok, arith, All, length-append,
}
use osiris_arm.Common.Text.{unlines}
use osiris_arm.Utils.Hash.{Sha256, calculate_file_hash_sha256}
use osiris_arm.CodeGenerator.Uid.{hex4}
use osiris_arm.CodeGenerator.{
  X86Instruction, CodeGenerator, create_instruction_from_index, checked_index,
  get_number_of_instructions, load, header,
}
use osiris_arm.Executor.Machine.{Machine}
use osiris_arm.Executor.Experiment.{Executor}
use osiris_arm.Core.Cleanup.{
  instruction_line, output_lines, output_text, test_instruction, find_loop,
  find_non_faulting_instructions, output_non_faulting_instructions,
}
use osiris_arm.CodeGenerator.Printable.{IsWritable, load-IsWritable, length-load_le}
use osiris_arm.Core.Cleanup.Reload.{with_uids, load-unlines}

-- An instruction of the generator.
abbrev pub IsListed : CodeGenerator → X86Instruction → Type 0
IsListed g x = (i : ℕ) × (get_elem? g.instruction_list i ≡ some x)

-- The lines of some instructions of the generator, as many as the indices.
abbrev IsOutput : CodeGenerator → ℕ → List Bytes → Type 0
IsOutput g n lines =
    (xs : List X86Instruction) × (lines ≡ map instruction_line xs)
    × All (IsListed g) xs
    × (length xs ≡ n)

created :
    (g : CodeGenerator) (i : ℕ) (x : X86Instruction)
    → create_instruction_from_index g i ≡ ok x
    → IsListed g x
unfolding create_instruction_from_index checked_index
created g i x made = elim (Bool-cases (ltb (length g.instruction_list) i)) [
  | inl e ↦ cc
  | inr e ↦ elim (Option-cases (get_elem? g.instruction_list i)) [
    | inl nothing ↦ cc
    | inr (y, there) ↦ (i, cc)
  ]
]

output_lines-Holds :
    (g : CodeGenerator) (is : List ℕ) → Holds (IsOutput g (length is)) (output_lines g is)
unfolding output_lines
output_lines-Holds g [] = ([], refl, tt, refl)
output_lines-Holds g (i ∷ is) =
    >>=-Holds (IsOutput g (suc (length is))) (create_instruction_from_index g i) _ (λ x made.
      >>=-Holds (IsOutput g (suc (length is))) (output_lines g is) _ (λ lines made'.
        let (xs, e, listed, size) =
          Holds-eq_ok (IsOutput g (length is)) _ (output_lines-Holds g is) made' in
        (x ∷ xs, ap (◌∷◌ (instruction_line x)) e, (created g i x made, listed), ap suc size)))

-- The text is empty, or it is a file of some instructions of the generator.
abbrev pub IsFile : CodeGenerator → ℕ → Bytes → Type 0
IsFile g n text =
    (text ≡ [])
    ⊎ ((xs : List X86Instruction) × (text ≡ unlines (header ∷ map instruction_line xs))
        × All (IsListed g) xs
        × (length xs ≤ n))

output_text-Holds :
    (g : CodeGenerator) (is : List ℕ) → Holds (IsFile g (length is)) (output_text g is)
unfolding output_text
output_text-Holds g [] = inl refl
output_text-Holds g (i ∷ is) =
    >>=-Holds (IsFile g (suc (length is))) (output_lines g (i ∷ is)) _ (λ lines made.
      let (xs, e, listed, size) =
        Holds-eq_ok (IsOutput g (suc (length is))) _ (output_lines-Holds g (i ∷ is)) made in
      inr (xs, ap (λ ls. unlines (header ∷ ls)) e, listed, omega (arith, size)))

module _ (m : Machine) (g : CodeGenerator) where
  abbrev AtMost : ℕ → List ℕ × Executor m → Type 0
  AtMost n r = length r.0 ≤ n

  kept :
      (error inst_idx : ℕ) (indexes : List ℕ)
      → length indexes ≤ inst_idx
      → length (if error == 0 then indexes ++ inst_idx ∷ [] else indexes) ≤ suc inst_idx
  kept error inst_idx indexes h = elim (Bool-cases (error == 0)) [
    | inl e ↦ rw e (omega (arith, length-append indexes (inst_idx ∷ [])))
    | inr e ↦ rw e (omega arith)
  ]

  find_loop-Holds :
      (n inst_idx left : ℕ) (indexes : List ℕ) (s : Executor m)
      → length indexes ≤ inst_idx
      → inst_idx + left ≤ n
      → Holds (AtMost n) (find_loop m g inst_idx left indexes s)
  unfolding find_loop
  find_loop-Holds n inst_idx zero indexes s h l = omega arith
  find_loop-Holds n inst_idx (suc left) indexes s h l =
      >>=-Holds (AtMost n) (create_instruction_from_index g inst_idx) _ (λ instruction _.
        >>=-Holds (AtMost n) (test_instruction m g instruction s) _ (λ r _.
          find_loop-Holds n (suc inst_idx) left _ r.1 (kept r.0 inst_idx indexes h) (omega arith)))

  abbrev WrittenEnd : Bytes × Executor m → Type 0
  WrittenEnd r = IsFile g (length g.instruction_list) r.0

  shorter :
      (k : ℕ) (text : Bytes)
      → k ≤ length g.instruction_list
      → IsFile g k text
      → IsFile g (length g.instruction_list) text
  shorter k text h (inl e) = inl e
  shorter k text h (inr (xs, e, listed, size)) = inr (xs, e, listed, omega arith)

  output-Holds : (s : Executor m) → Holds WrittenEnd (output_non_faulting_instructions m g s)
  unfolding output_non_faulting_instructions find_non_faulting_instructions
      get_number_of_instructions
  output-Holds s =
      >>=-Holds WrittenEnd (find_loop m g 0 (length g.instruction_list) [] s) _ (λ r made.
        >>=-Holds WrittenEnd (output_text g r.0) _ (λ text made'.
          shorter (length r.0) text
            (Holds-eq_ok (AtMost (length g.instruction_list)) _
              (find_loop-Holds (length g.instruction_list) 0 (length g.instruction_list) [] s
                (omega arith) (omega arith))
              made)
            (Holds-eq_ok (IsFile g (length r.0)) _ (output_text-Holds g r.0) made')))

All-IsWritable :
    (g : CodeGenerator) (xs : List X86Instruction)
    → ((i : ℕ) (x : X86Instruction) → get_elem? g.instruction_list i ≡ some x → IsWritable x)
    → All (IsListed g) xs
    → All IsWritable xs
All-IsWritable g [] writable h = tt
All-IsWritable g (x ∷ xs) writable ((i, e), h) = (writable i x e, All-IsWritable g xs writable h)

-- When OutputNonFaultingInstructions returns, its file is empty, or the constructor of the CodeGenerator
-- reads it: the result has instructions of this generator, at most as many, with the UIDs of the new
-- file. The generator is one of at most 2 ^ 16 instructions, their texts
-- without semicolons and newlines.
pub output_non_faulting_instructions_lem :
    (m : Machine) (g : CodeGenerator) (sha : Sha256) (s : Executor m) {r : Bytes × Executor m}
    → length g.instruction_list ≤ 2 ^ 16
    → ((i : ℕ) (x : X86Instruction) → get_elem? g.instruction_list i ≡ some x → IsWritable x)
    → output_non_faulting_instructions m g s ≡ ok r
    → (r.0 ≡ [])
      ⊎ ((xs : List X86Instruction) × (start : Bytes) × (v : ℕ) × (calculate_file_hash_sha256 sha
              (some r.0)
            ≡ start ++ hex4 v)
          × (load sha (some r.0)
              ≡ ok (record {
                instruction_list = with_uids (v * 2 ^ 16) xs;
                instruction_file_sha256hash = start ++ hex4 v;
              }))
          × All (IsListed g) xs
          × (length xs ≤ length g.instruction_list))
output_non_faulting_instructions_lem m g sha s {r} small writable h =
    elim (Holds-eq_ok (WrittenEnd m g) _ (output-Holds m g s) h) [
      | inl e ↦ inl e
      | inr (xs, e, listed, size) ↦
          let (start, v, fits, hash, loads) =
            load-unlines sha xs (omega arith) (All-IsWritable g xs writable listed) in
          inr (xs, start, v, rw e hash, rw e loads, listed, size)
    ]

-- When OutputNonFaultingInstructions returns with the instructions of a loaded file, its file is empty, or
-- the constructor of the CodeGenerator reads it: the result has instructions of that file, at most as
-- many, with the hash of the new file, and UIDs that count up from 2 ^ 16 times the number that this hash
-- ends in, in hexadecimal.
pub output_non_faulting_instructions-load :
    (m : Machine) (sha : Sha256) (content : Bytes) {g : CodeGenerator} (s : Executor m)
    {r : Bytes × Executor m}
    → load sha (some content) ≡ ok g
    → output_non_faulting_instructions m g s ≡ ok r
    → (r.0 ≡ [])
      ⊎ ((xs : List X86Instruction) × (start : Bytes) × (v : ℕ) × (calculate_file_hash_sha256 sha
              (some r.0)
            ≡ start ++ hex4 v)
          × (load sha (some r.0)
              ≡ ok (record {
                instruction_list = with_uids (v * 2 ^ 16) xs;
                instruction_file_sha256hash = start ++ hex4 v;
              }))
          × All (IsListed g) xs
          × (length xs ≤ length g.instruction_list))
output_non_faulting_instructions-load m sha content {g} s loaded h =
    output_non_faulting_instructions_lem m g sha s (length-load_le sha content loaded)
      (λ i x found.
        All-get_elem? IsWritable g.instruction_list i x (load-IsWritable sha content loaded) found)
      h
