-- ===== src/Executor/Codegen/Length.antt =====
-- src/executor.cc: how long the generated code is.
use osiris_arm.Common.{
  ℕ, zero, suc, ◌+◌, ◌*◌, ◌≤◌, ◌≡◌, refl, Bytes, length, repeat, arith, length-append,
}
use osiris_arm.Utils.Bytes.{length-number_to_bytes_le}
use osiris_arm.Executor.Page.Layout.{concat}
use osiris_arm.Executor.Instructions.{
  prolog, epilog, serialize, timer_start, timer_end, timer_result,
}
use osiris_arm.Executor.Codegen.{create_sequence_of_nops}
use osiris_arm.Executor.Codegen.Layout.{measured, reset_testrun_code, testrun_code}
use osiris_arm.Executor.Codegen.Speculation.{speculative_code}

fixed_lengths :
    (length (concat prolog) ≡ 80)
    × (length (concat epilog) ≡ 80)
    × (length (concat serialize) ≡ 16)
    × (length (concat timer_start) ≡ 36)
    × (length (concat timer_end) ≡ 32)
    × (length (concat timer_result) ≡ 4)
unfolding concat
fixed_lengths = (refl, refl, refl, refl, refl, refl)

length-repeat : (n : ℕ) (s : Bytes) → length (repeat n s) ≡ n * length s
unfolding repeat
length-repeat zero s = omega arith
length-repeat (suc n) s = grind (arith, length-append s (repeat n s), length-repeat n s)

length-measured : (measurement : Bytes) → length (measured measurement) ≡ 152 + length measurement
length-measured measurement =
    let (p, e, s, start, end, result) = fixed_lengths in
    simp (length-append, p, e, s, start, end, result) (omega arith)

pub length-testrun_code :
    (first second measurement : Bytes) (amount : ℕ)
    → length (testrun_code first second measurement amount)
      ≡ 280 + amount * length first + length second + length measurement
length-testrun_code first second measurement amount =
    let (p, e, s, start, end, result) = fixed_lengths in
    simp (length-append, p, s, length-repeat, length-measured) (omega arith)

pub length-reset_testrun_code :
    (trigger measurement reset : Bytes) (amount : ℕ)
    → length (reset_testrun_code trigger measurement reset amount)
      ≡ 264 + length trigger + amount * length reset + length measurement
length-reset_testrun_code trigger measurement reset amount =
    let (p, e, s, start, end, result) = fixed_lengths in
    simp (length-append, p, s, length-repeat, length-measured) (omega arith)

pub length-speculative_code :
    (measurement trigger reset : Bytes) (amount : ℕ)
    → length (speculative_code measurement trigger reset amount)
      ≡ 286 + amount * length reset + length trigger + length measurement
length-speculative_code measurement trigger reset amount =
    let (p, e, s, start, end, result) = fixed_lengths in
    simp (length-append, p, s, length-repeat, length-measured, length-number_to_bytes_le)
      (omega arith)

-- NOPs are made for a whole number of instructions.
pub length-create_sequence_of_nops : (n : ℕ) → length (create_sequence_of_nops n) ≤ n + 3
unfolding create_sequence_of_nops
length-create_sequence_of_nops zero = omega arith
length-create_sequence_of_nops (suc zero) = omega arith
length-create_sequence_of_nops (suc (suc zero)) = omega arith
length-create_sequence_of_nops (suc (suc (suc zero))) = omega arith
length-create_sequence_of_nops (suc (suc (suc (suc n)))) =
    omega (arith, length-create_sequence_of_nops n)
