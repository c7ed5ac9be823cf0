-- ===== src/Osiris/Confirm/Returns.antt =====
-- src/osiris.cc: when the confirmation comes to its end.
use osiris_arm.Common.{
  ℕ, ◌*◌, ◌≤◌, ◌≡◌, refl, Bytes, str_eq, List, [], ◌∷◌, Bool, true, false, ◌||◌, inl, inr,
  Bool-cases, some, if◌then◌else◌, length, get_elem?, ok, Returns, >>=-Returns, arith, All,
  All-get_elem?, All-of_get_elem?, str_eq_refl,
}
use osiris_arm.Common.Int.{ℤ}
use osiris_arm.Common.Text.{lines}
use osiris_arm.Utils.Hash.{Sha256}
use osiris_arm.CodeGenerator.{X86Instruction, CodeGenerator, load, create_instruction_from_uid}
use osiris_arm.CodeGenerator.Load.{load_lem}
use osiris_arm.CodeGenerator.Printable.{IsOf, IsPrintable, load-IsPrintable, found_of_created}
use osiris_arm.Filter.Line.{csv_header}
use osiris_arm.Executor.Codegen.Length.{length-speculative_code}
use osiris_arm.Executor.Machine.{Machine}
use osiris_arm.Executor.Experiment.{Executor, nop_sequence}
use osiris_arm.Executor.Experiment.Ends.{IsHandling, test_trigger_sequence-Returns}
use osiris_arm.Core.{is_sleep, csv_line}
use osiris_arm.Core.Csv.{IsInt}
use osiris_arm.Osiris.Confirm.{
  ConfirmInput, Confirmation, read_inputs, confirm_triple, confirm_loop, confirm_lines,
  confirm_results_of_fuzzer,
}
use osiris_arm.Osiris.Confirm.Lines.{input_for, read_input-csv_line}

-- At most 37 bytes, of which a page holds 100 copies beside the other code.
abbrev pub IsShort : X86Instruction → Type 0
IsShort i = length i.byte_representation ≤ 37

-- The instruction that a UID names.
abbrev HasShort : CodeGenerator → ℕ → Type 0
HasShort g uid = (i : X86Instruction) × (create_instruction_from_uid g uid ≡ ok i) × IsShort i

abbrev IsRunnable : CodeGenerator → ConfirmInput → Type 0
IsRunnable g i = HasShort g i.measurement_uid × HasShort g i.trigger_uid × HasShort g i.reset_uid

-- A line that a search with the generator's instructions can write, its timing being an int.
abbrev pub IsLineOf : CodeGenerator → Bytes → Type 0
IsLineOf g line =
    (result : ℤ) × (m : X86Instruction) × (t : X86Instruction) × (r : X86Instruction) × IsInt result
    × IsOf g m
    × IsOf g t
    × IsOf g r
    × (line ≡ csv_line result m t r)

-- What the confirmation relies on of `std::shuffle`: an element of the result is one of the list.
abbrev pub Shuffles : (List ConfirmInput → List ConfirmInput) → Type 0
Shuffles shuffle =
    (xs : List ConfirmInput) (i : ℕ) (x : ConfirmInput)
    → get_elem? (shuffle xs) i ≡ some x
    → (j : ℕ) × (get_elem? xs j ≡ some x)

copies : (amount n : ℕ) → amount ≤ 100 → n ≤ 37 → amount * n ≤ 3700
copies amount n h k = grind arith

few : (b : Bool) → (if b then 1 else 100) ≤ 100
few true = omega arith
few false = omega arith

module _ (m : Machine) (handling : IsHandling m) where
  confirm_triple-Returns :
      (measurement trigger reset : X86Instruction) (s : Executor m)
      → IsShort measurement
      → IsShort trigger
      → IsShort reset
      → Returns (confirm_triple m measurement trigger reset s)
  unfolding confirm_triple
  confirm_triple-Returns measurement trigger reset s hm ht hr =
      let T = trigger.byte_representation in
      let M = measurement.byte_representation in
      let R = reset.byte_representation in
      let amount : ℕ = if is_sleep reset then 1 else 100 in
      let bound = copies amount (length R) (few (is_sleep reset)) hr in
      test_trigger_sequence-Returns m T M R true 200 amount s handling (omega arith)
        (few (is_sleep reset)) (omega (arith, length-speculative_code M T R amount, bound))
        (omega (arith, length-speculative_code M nop_sequence R amount, bound))

  module _ (g : CodeGenerator) where
    confirm_loop-Returns :
        (is : List ConfirmInput) (c : Confirmation) (s : Executor m)
        → All (IsRunnable g) is
        → Returns (confirm_loop m g is c s)
    unfolding confirm_loop
    confirm_loop-Returns [] c s h = (_, refl)
    confirm_loop-Returns (i ∷ is) c s
          (((measurement, em, hm), (trigger, et, ht), (reset, er, hr)), h) =
        rw (em, et, er)
          (elim (Bool-cases (is_sleep trigger || is_sleep measurement)) [
            | inl asleep ↦ rw asleep (confirm_loop-Returns is c s h)
            | inr awake ↦ rw awake (
                >>=-Returns (confirm_triple m measurement trigger reset s) _
                  (confirm_triple-Returns measurement trigger reset s hm ht hr)
                  (λ q. confirm_loop-Returns is _ q.1 h))
          ])

module _ (g : CodeGenerator) (printable : (i : X86Instruction) → IsOf g i → IsPrintable i) where
  read_lines :
      (named : (i : X86Instruction) → IsOf g i → HasShort g i.instruction_uid) (ls : List Bytes)
      → All (IsLineOf g) ls
      → (inputs : List ConfirmInput) × (read_inputs ls ≡ ok inputs) × All (IsRunnable g) inputs
  unfolding read_inputs
  read_lines named [] h = ([], refl, tt)
  read_lines named (l ∷ ls) ((result, m, t, r, fits, om, ot, ors, e), h) =
      let (inputs, read, run) = read_lines named ls h in
      (
        input_for result m t r ∷ inputs,
        rw e (
            rw
              (
                read_input-csv_line result m t r fits (printable m om) (printable t ot)
                    (printable r ors),
                read,
              )
              refl),
        ((named m om, named t ot, named r ors), run),
      )

with_header :
    (m : Machine) (sha : Sha256) (shuffle : List ConfirmInput → List ConfirmInput)
    (instructions line : Bytes) (rest : List Bytes) (s : Executor m) {g : CodeGenerator}
    {inputs : List ConfirmInput}
    → str_eq line csv_header ≡ true
    → load sha (some instructions) ≡ ok g
    → read_inputs rest ≡ ok inputs
    → Returns (
        confirm_loop m g
          (shuffle inputs)
          (record {
            output = csv_header ∷ [];
            cleaned = csv_header ∷ [];
            succeeded = 0;
            failed = 0;
          })
          s)
    → Returns (confirm_lines m sha shuffle (some instructions) (line ∷ rest) (ok s))
unfolding confirm_lines
with_header m sha shuffle instructions line rest s header loaded read ends =
    rw (header, loaded, read) ends

-- The confirmation returns, for the lines of a search with the instructions of the same file, all of at
-- most 37 bytes, on a machine whose pages come back or raise a counted signal, where the shuffle makes up
-- no elements.
pub confirm_results_of_fuzzer-Returns :
    (m : Machine) (sha : Sha256) (shuffle : List ConfirmInput → List ConfirmInput)
    (instructions input : Bytes) (s : Executor m) {g : CodeGenerator} {rest : List Bytes}
    → IsHandling m
    → Shuffles shuffle
    → load sha (some instructions) ≡ ok g
    → All IsShort g.instruction_list
    → lines input ≡ csv_header ∷ rest
    → All (IsLineOf g) rest
    → Returns (confirm_results_of_fuzzer m sha shuffle (some instructions) (some input) (ok s))
unfolding confirm_results_of_fuzzer
confirm_results_of_fuzzer-Returns m sha shuffle instructions input s {g} {rest} handling shuffles
      loaded short file written =
    let named : (i : X86Instruction) → IsOf g i → HasShort g i.instruction_uid = λ i of.
      let found = found_of_created g of.0 i of.1 in
      (
        i,
        (load_lem sha instructions of.0 i loaded found).2,
        All-get_elem? IsShort g.instruction_list of.0 i short found,
      ) in
    let (inputs, read, run) =
      read_lines g (λ i of. load-IsPrintable sha instructions i loaded of) named rest written in
    let shuffled = All-of_get_elem? (IsRunnable g) (shuffle inputs) (λ i x e.
      let (j, f) = shuffles inputs i x e in All-get_elem? (IsRunnable g) inputs j x run f) in
    rw file (
      with_header m sha shuffle instructions csv_header rest s (str_eq_refl csv_header) loaded read
        (confirm_loop-Returns m handling g (shuffle inputs) _ s shuffled))
