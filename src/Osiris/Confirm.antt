-- ===== src/Osiris/Confirm.antt =====
-- src/osiris.cc: ConfirmResultsOfFuzzer. What the constructor of the executor gives is a parameter; `shuffle` is what
-- `std::shuffle` makes of the inputs. The two files that are written come back as their lines; neither
-- stream is checked, so what is written to a file that cannot be opened is lost.
pub mod Result
pub mod Lines
pub mod Returns
use osiris_arm.Common.{
  ℕ, suc, ◌+◌, ◌-◌, ◌^◌, Bytes, codes, str_eq, List, [], ◌∷◌, ◌++◌, Bool, true, false, ◌||◌, Option,
  none, some, ◌==◌, ltb, if◌then◌else◌, Outcome, ok, exited, aborted, ◌>>=◌,
}
use osiris_arm.Common.Int.{ℤ, pos, negsuc, abs}
use osiris_arm.Common.Text.{to_string, lines}
use osiris_arm.Common.Numeral.{stoll}
use osiris_arm.Utils.Split.{split_string}
use osiris_arm.Utils.Hash.{Sha256}
use osiris_arm.CodeGenerator.{X86Instruction, CodeGenerator, load, create_instruction_from_uid}
use osiris_arm.Filter.Line.{csv_header}
use osiris_arm.Executor.Machine.{Machine}
use osiris_arm.Executor.Experiment.{Executor, TestResult, test_trigger_sequence}
use osiris_arm.Core.{is_sleep}

-- a tuple of `inputs`
pub record ConfirmInput : Type 0 where
  pub measurement_uid : ℕ
  pub trigger_uid : ℕ
  pub reset_uid : ℕ
  pub line : Bytes

-- a long long kept in a `uint64_t`; the exceptions of `std::stoll` are not caught
unfoldable pub uid_of : Option ℤ → Outcome ℕ
uid_of none = aborted
uid_of (some (pos n)) = ok n
uid_of (some (negsuc n)) = ok (2 ^ 64 - suc n)

-- a round of the `while`, on the fields of its line
unfoldable pub input_of : Bytes → List Bytes → Outcome ConfirmInput
unfolding uid_of
input_of line
      (time ∷ mu ∷ ms ∷ mc ∷ me ∷ mi ∷ tu ∷ ts ∷ tc ∷ te ∷ ti ∷ ru ∷ rs ∷ rc ∷ re ∷ ri ∷ []) =
    do
      measurement_uid ← uid_of (stoll 16 mu)
      trigger_uid ← uid_of (stoll 16 tu)
      reset_uid ← uid_of (stoll 16 ru)
      ok (record {
        measurement_uid = measurement_uid;
        trigger_uid = trigger_uid;
        reset_uid = reset_uid;
        line = line;
      })
input_of line other = aborted

unfoldable pub read_input : Bytes → Outcome ConfirmInput
unfolding input_of
read_input line = input_of line (split_string line b';')

unfoldable pub read_inputs : List Bytes → Outcome (List ConfirmInput)
unfolding read_input
read_inputs [] = ok []
read_inputs (line ∷ rest) = do
  input ← read_input line
  inputs ← read_inputs rest
  ok (input ∷ inputs)

-- what stands behind the first `d`, if there is one
unfoldable pub behind : ℕ → Bytes → Option Bytes
behind d [] = none
behind d (c ∷ s) = if c == d then some s else behind d s

-- `line.substr(line.find(';') + 1)`: the whole line where there is no semicolon, as `npos + 1` is 0
unfoldable pub line_without_timing : Bytes → Bytes
unfolding behind
line_without_timing line = elim (behind b';' line) [ some rest ↦ rest | none ↦ line ]

unfoldable pub confirmed_line : ℤ → Bytes → Bytes
unfolding line_without_timing to_string
confirmed_line result line = to_string result ++ (codes ";" ++ line_without_timing line)

-- the two streams and the two counters
pub record Confirmation : Type 0 where
  pub output : List Bytes
  pub cleaned : List Bytes
  pub succeeded : ℕ
  pub failed : ℕ

-- `std::abs(result) > 50`
abbrev pub is_stable : ℤ → Bool
is_stable result = ltb 50 (abs result)

unfoldable pub record_result : ℤ → Bytes → Confirmation → Confirmation
unfolding confirmed_line
record_result result line c =
    let output_line = confirmed_line result line in
    let output = c.output ++ output_line ∷ [] in
    if is_stable result
    then record c {
      output = output;
      cleaned = c.cleaned ++ output_line ∷ [];
      succeeded = c.succeeded + 1;
    }
    else record c { output = output; failed = c.failed + 1 }

module _ (m : Machine) where
  -- the experiment; its error is not looked at
  unfoldable pub confirm_triple :
      X86Instruction
      → X86Instruction
      → X86Instruction
      → Executor m
      → Outcome (TestResult × Executor m)
  unfolding is_sleep
  confirm_triple measurement trigger reset s =
      test_trigger_sequence m trigger.byte_representation measurement.byte_representation
        reset.byte_representation true 200 (if is_sleep reset then 1 else 100) s

  module _ (g : CodeGenerator) where
    -- the loop over the inputs
    unfoldable pub confirm_loop :
        List ConfirmInput → Confirmation → Executor m → Outcome (Confirmation × Executor m)
    unfolding confirm_triple record_result
    confirm_loop [] c s = ok (c, s)
    confirm_loop (i ∷ inputs) c s = do
      measurement ← create_instruction_from_uid g i.measurement_uid
      trigger ← create_instruction_from_uid g i.trigger_uid
      reset ← create_instruction_from_uid g i.reset_uid
      let skip = confirm_loop inputs c s
      let test = confirm_triple measurement trigger reset s
      (if is_sleep trigger || is_sleep measurement then skip else (do
        r ← test
        confirm_loop inputs (record_result r.0.cycles_difference i.line c) r.1))

  unfoldable pub confirm_lines :
      Sha256
      → (List ConfirmInput → List ConfirmInput)
      → Option Bytes
      → List Bytes
      → Outcome (Executor m)
      → Outcome (Confirmation × Executor m)
  unfolding confirm_loop read_inputs
  confirm_lines sha shuffle instructions [] executor = exited 0
  confirm_lines sha shuffle instructions (line ∷ rest) executor =
      if str_eq line csv_header
      then (do
        s ← executor
        g ← load sha instructions
        inputs ← read_inputs rest
        confirm_loop g (shuffle inputs)
            (record {
              output = csv_header ∷ [];
              cleaned = csv_header ∷ [];
              succeeded = 0;
              failed = 0;
            })
            s)
      else exited 0

  -- ConfirmResultsOfFuzzer; an input file that cannot be opened has no header
  unfoldable pub confirm_results_of_fuzzer :
      Sha256
      → (List ConfirmInput → List ConfirmInput)
      → (instructions : Option Bytes) → (input : Option Bytes) → Outcome (Executor m)
      → Outcome (Confirmation × Executor m)
  unfolding confirm_lines
  confirm_results_of_fuzzer sha shuffle instructions none executor = exited 0
  confirm_results_of_fuzzer sha shuffle instructions (some content) executor =
      confirm_lines sha shuffle instructions (lines content) executor
