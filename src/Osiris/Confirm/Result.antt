-- ===== src/Osiris/Confirm/Result.antt =====
-- src/osiris.cc: what the confirmation writes and counts.
use osiris_arm.Common.{
  ◌+◌, ◌≤◌, ◌≡◌, sym, ap, ◌∙◌, subst, Bytes, str_eq, str_eq_iff, List, [], ◌∷◌, ◌++◌, map, true,
  false, ltb, ◌||◌, Option, some, inl, inr, Bool-cases, if◌then◌else◌, length, Outcome, ok,
  >>=-Holds, Holds, Holds-map, Holds-eq_ok, arith, append_assoc, append-nil,
}
use osiris_arm.Common.Int.{ℤ, abs}
use osiris_arm.Common.Text.{lines}
use osiris_arm.Utils.Hash.{Sha256}
use osiris_arm.CodeGenerator.{X86Instruction, CodeGenerator, load, create_instruction_from_uid}
use osiris_arm.Filter.Line.{csv_header}
use osiris_arm.Executor.Machine.{Machine}
use osiris_arm.Executor.Experiment.{Executor, TestResult}
use osiris_arm.Executor.Experiment.Results.{test_trigger_sequence_lem}
use osiris_arm.Core.{is_sleep}
use osiris_arm.Osiris.Confirm.{
  ConfirmInput, Confirmation, read_inputs, confirmed_line, is_stable, record_result, confirm_triple,
  confirm_loop, confirm_lines, confirm_results_of_fuzzer,
}

-- An input with the timing that was measured for it.
abbrev pub Entry : Type 0
Entry = ℤ × ConfirmInput

abbrev pub entry_line : Entry → Bytes
entry_line e = confirmed_line e.0 e.1.line

-- the entries with a timing of more than 50 cycles in size, and the others
abbrev pub stable : List Entry → List Entry
stable [] = []
stable (e ∷ es) = let rest = stable es in if ltb 50 (abs e.0) then e ∷ rest else rest

abbrev pub unstable : List Entry → List Entry
unstable [] = []
unstable (e ∷ es) = let rest = unstable es in if ltb 50 (abs e.0) then rest else e ∷ rest

-- The UIDs of the input name these instructions, the reset being any.
abbrev pub Names : CodeGenerator → ConfirmInput → X86Instruction → X86Instruction → Type 0
Names g i measurement trigger =
    (create_instruction_from_uid g i.measurement_uid ≡ ok measurement)
    × (create_instruction_from_uid g i.trigger_uid ≡ ok trigger)

-- The inputs in their order, those with a sleep as trigger or measurement left out, and the others each
-- with a timing of at most 5000 cycles in size.
pub data Tested (g : CodeGenerator) : List ConfirmInput → List Entry → Type 0 where
  done : Tested g [] []
  skipped :
      {i : ConfirmInput} {is : List ConfirmInput} {es : List Entry}
      (measurement trigger : X86Instruction)
      → Names g i measurement trigger
      → (is_sleep trigger || is_sleep measurement) ≡ true
      → Tested g is es
      → Tested g (i ∷ is) es
  tested :
      {i : ConfirmInput} {is : List ConfirmInput} {es : List Entry}
      (measurement trigger : X86Instruction) (result : ℤ)
      → Names g i measurement trigger
      → (is_sleep trigger || is_sleep measurement) ≡ false
      → abs result ≤ 5000
      → Tested g is es
      → Tested g (i ∷ is) ((result, i) ∷ es)

-- The streams and counters behind some entries.
abbrev pub recorded : List Entry → Confirmation → Confirmation
recorded es c = record {
  output = c.output ++ map entry_line es;
  cleaned = c.cleaned ++ map entry_line (stable es);
  succeeded = c.succeeded + length (stable es);
  failed = c.failed + length (unstable es);
}

recorded_none : (c : Confirmation) → c ≡ recorded [] c
recorded_none c = ground (arith, append-nil c.output, append-nil c.cleaned)

recorded_step :
    (e : Entry) (es : List Entry) (c : Confirmation)
    → recorded es (record_result e.0 e.1.line c) ≡ recorded (e ∷ es) c
unfolding record_result
recorded_step e es c =
    let l = entry_line e in
    elim (Bool-cases (is_stable e.0)) [
      | inl h ↦ rw h (
          ground (
            arith,
            append_assoc c.output (l ∷ []) (map entry_line es),
            append_assoc c.cleaned (l ∷ []) (map entry_line (stable es)),
          ))
      | inr h ↦ rw h (ground (arith, append_assoc c.output (l ∷ []) (map entry_line es)))
    ]

module _ (m : Machine) where
  confirm_triple-bound :
      (measurement trigger reset : X86Instruction) (s : Executor m) {r : TestResult × Executor m}
      → confirm_triple m measurement trigger reset s ≡ ok r
      → abs r.0.cycles_difference ≤ 5000
  unfolding confirm_triple
  confirm_triple-bound measurement trigger reset s {r} h =
      elim (test_trigger_sequence_lem m _ _ _ _ _ _ s h) [
        | inl e ↦ subst (λ (t : TestResult). abs t.cycles_difference ≤ 5000) (sym e) (omega arith)
        | inr q ↦ q.1
      ]

  module _ (g : CodeGenerator) where
    abbrev LoopEnd : List ConfirmInput → Confirmation → Confirmation × Executor m → Type 0
    LoopEnd is c r = (es : List Entry) × Tested g is es × (r.0 ≡ recorded es c)

    confirm_loop-Holds :
        (is : List ConfirmInput) (c : Confirmation) (s : Executor m)
        → Holds (LoopEnd is c) (confirm_loop m g is c s)
    unfolding confirm_loop
    confirm_loop-Holds [] c s = ([], done, recorded_none c)
    confirm_loop-Holds (i ∷ is) c s =
        let P = LoopEnd (i ∷ is) c in
        >>=-Holds P (create_instruction_from_uid g i.measurement_uid) _ (λ measurement found_m.
          >>=-Holds P (create_instruction_from_uid g i.trigger_uid) _ (λ trigger found_t.
            >>=-Holds P (create_instruction_from_uid g i.reset_uid) _ (λ reset _.
              elim (Bool-cases (is_sleep trigger || is_sleep measurement)) [
                | inl asleep ↦ rw asleep (
                    Holds-map (LoopEnd is c) P (confirm_loop m g is c s)
                      (λ r (es, t, e).
                        (es, skipped measurement trigger (found_m, found_t) asleep t, e))
                      (confirm_loop-Holds is c s))
                | inr awake ↦ rw awake (
                    >>=-Holds P (confirm_triple m measurement trigger reset s) _ (λ q made.
                      let result = q.0.cycles_difference in
                      let c' = record_result result i.line c in
                      Holds-map (LoopEnd is c') P (confirm_loop m g is c' q.1)
                        (λ r (es, t, e). (
                          (result, i) ∷ es,
                          tested measurement trigger result (found_m, found_t) awake
                              (confirm_triple-bound measurement trigger reset s made) t,
                          e ∙ recorded_step (result, i) es c,
                        ))
                        (confirm_loop-Holds is c' q.1)))
              ])))

-- the streams behind the header, and what the counters say
abbrev ConfirmEnd :
    (m : Machine)
    → Sha256
    → (List ConfirmInput → List ConfirmInput)
    → Option Bytes
    → List Bytes
    → Confirmation × Executor m
    → Type 0
ConfirmEnd m sha shuffle instructions all r =
    (rest : List Bytes) × (g : CodeGenerator) × (inputs : List ConfirmInput) × (es : List Entry)
    × (all ≡ csv_header ∷ rest)
    × (load sha instructions ≡ ok g)
    × (read_inputs rest ≡ ok inputs)
    × Tested g (shuffle inputs) es
    × (r.0.output ≡ csv_header ∷ map entry_line es)
    × (r.0.cleaned ≡ csv_header ∷ map entry_line (stable es))
    × (r.0.succeeded ≡ length (stable es))
    × (r.0.failed ≡ length (unstable es))

module _ (m : Machine) (sha : Sha256) (shuffle : List ConfirmInput → List ConfirmInput) where
  confirm_lines-Holds :
      (instructions : Option Bytes) (all : List Bytes) (executor : Outcome (Executor m))
      → Holds
          (ConfirmEnd m sha shuffle instructions all)
          (confirm_lines m sha shuffle instructions all executor)
  unfolding confirm_lines
  confirm_lines-Holds instructions [] executor = tt
  confirm_lines-Holds instructions (line ∷ rest) executor =
      elim (Bool-cases (str_eq line csv_header)) [
        | inr e ↦ rw e tt
        | inl e ↦
            let P = ConfirmEnd m sha shuffle instructions (line ∷ rest) in
            let start : Confirmation = record {
              output = csv_header ∷ [];
              cleaned = csv_header ∷ [];
              succeeded = 0;
              failed = 0;
            } in
            let same = (str_eq_iff line csv_header).0 e in
            rw e (
              >>=-Holds P executor _ (λ s _. >>=-Holds P (load sha instructions) _ (λ g loaded.
                >>=-Holds P (read_inputs rest) _ (λ inputs read.
                  Holds-map (LoopEnd m g (shuffle inputs) start) P
                    (confirm_loop m g (shuffle inputs) start s)
                    (λ r (es, t, end). (
                      rest,
                      g,
                      inputs,
                      es,
                      ap (λ l. l ∷ rest) same,
                      loaded,
                      read,
                      t,
                      ap (λ (c : Confirmation). c.output) end,
                      ap (λ (c : Confirmation). c.cleaned) end,
                      ap (λ (c : Confirmation). c.succeeded) end ∙ omega arith,
                      ap (λ (c : Confirmation). c.failed) end ∙ omega arith,
                    ))
                    (confirm_loop-Holds m g (shuffle inputs) start s)))))
      ]

  -- When the confirmation returns, its input began with the header and its lines were read as inputs. In
  -- the shuffled order, each input without a sleep as trigger or measurement has one output line, with a
  -- timing of at most 5000 cycles in size, and no other input has one. The cleaned file holds the lines
  -- of more than 50 cycles in size, and the two counters are the numbers of these and of the others.
  pub confirm_results_of_fuzzer_lem :
      (instructions : Option Bytes) (content : Bytes) (executor : Outcome (Executor m))
      {r : Confirmation × Executor m}
      → confirm_results_of_fuzzer m sha shuffle instructions (some content) executor ≡ ok r
      → (rest : List Bytes) × (g : CodeGenerator) × (inputs : List ConfirmInput) × (es : List Entry)
        × (lines content ≡ csv_header ∷ rest)
        × (load sha instructions ≡ ok g)
        × (read_inputs rest ≡ ok inputs)
        × Tested g (shuffle inputs) es
        × (r.0.output ≡ csv_header ∷ map entry_line es)
        × (r.0.cleaned ≡ csv_header ∷ map entry_line (stable es))
        × (r.0.succeeded ≡ length (stable es))
        × (r.0.failed ≡ length (unstable es))
  unfolding confirm_results_of_fuzzer
  confirm_results_of_fuzzer_lem instructions content executor h =
      Holds-eq_ok (ConfirmEnd m sha shuffle instructions (lines content)) _
        (confirm_lines-Holds instructions (lines content) executor) h
