-- ===== src/Executor/Codegen/Layout.antt =====
-- src/executor.cc: the pages that the three code generators produce, for every sequence of bytes.
use osiris_arm.Common.{
  ℕ, ◌+◌, ◌<◌, ◌≡◌, refl, ap, ◌∙◌, Bytes, [], ◌++◌, false, inl, inr, Bool-cases, ltb, length,
  repeat, aborted, ◌>>◌, assert, arith, length-append,
}
use osiris_arm.Executor.Page.{CodePage, pagesize, add_all}
use osiris_arm.Executor.Page.Layout.{
  laid_out, emit, Emits, concat, >>=-Emits, add_all-Emits, add_repeated-Emits, assert-Emits,
  up_to_100, >>=-EmitsUpTo, assert-EmitsUpTo, add_bytes_to_code_page-Emits,
}
use osiris_arm.Executor.Instructions.{
  prolog, epilog, serialize, timer_start, timer_end, timer_result,
}
use osiris_arm.Executor.Codegen.{
  add_prolog, add_epilog, add_serialize_instruction_to_code_page, add_timer_start_to_code_page,
  add_timer_end_to_code_page, make_timer_result_return_value, add_measurement,
  create_reset_testrun_code, create_testrun_code,
}

pub add_prolog-Emits : Emits add_prolog (concat prolog)
unfolding add_prolog
add_prolog-Emits = add_all-Emits prolog

pub serialize-Emits : Emits add_serialize_instruction_to_code_page (concat serialize)
unfolding add_serialize_instruction_to_code_page
serialize-Emits = add_all-Emits serialize

too_long :
    (code : Bytes)
    → ltb (length code + 4) pagesize ≡ false
    → aborted ≡ emit (code ++ concat timer_result)
unfolding concat
too_long code e = rw (length-append code (concat timer_result), e) refl

timer_result_lem :
    (code : Bytes)
    → length code < pagesize
    → make_timer_result_return_value (laid_out code) ≡ emit (code ++ concat timer_result)
unfolding make_timer_result_return_value
timer_result_lem code h = elim (Bool-cases (ltb (length code + 4) pagesize)) [
  | inl e ↦
      ap (λ b. assert b >> add_all timer_result (laid_out code)) e
      ∙ (add_all-Emits timer_result).emits code h
  | inr e ↦ ap (λ b. assert b >> add_all timer_result (laid_out code)) e ∙ too_long code e
]

timer_result-Emits : Emits make_timer_result_return_value (concat timer_result)
timer_result-Emits = record { emits = timer_result_lem }

-- The code from the start of the timer on.
abbrev pub measured : Bytes → Bytes
measured measurement =
    concat timer_start
    ++ (measurement ++ (concat timer_end ++ (concat timer_result ++ (concat epilog ++ []))))

pub add_measurement-Emits :
    (measurement : Bytes) → Emits (add_measurement measurement) (measured measurement)
unfolding add_measurement add_timer_start_to_code_page add_timer_end_to_code_page add_epilog
add_measurement-Emits measurement = >>=-Emits (add_all-Emits timer_start) (
    >>=-Emits (add_bytes_to_code_page-Emits measurement) (
      >>=-Emits (add_all-Emits timer_end)
        (>>=-Emits timer_result-Emits (>>=-Emits (add_all-Emits epilog) assert-Emits))))

-- The code of CreateResetTestrunCode.
abbrev pub reset_testrun_code : Bytes → Bytes → Bytes → ℕ → Bytes
reset_testrun_code trigger measurement reset amount =
    concat prolog
    ++ (trigger
        ++ (concat serialize
            ++ (repeat amount reset ++ (concat serialize ++ measured measurement))))

-- The code of CreateTestrunCode.
abbrev pub testrun_code : Bytes → Bytes → Bytes → ℕ → Bytes
testrun_code first second measurement amount =
    concat prolog
    ++ (concat serialize
        ++ (repeat amount first
            ++ (concat serialize ++ (second ++ (concat serialize ++ measured measurement)))))

-- Whatever page it starts from, CreateResetTestrunCode leaves exactly its code and then the NOP sled,
-- when at most 100 resets are asked for and the code is shorter than the page, and aborts otherwise.
pub create_reset_testrun_code_lem :
    (trigger measurement reset : Bytes) (amount : ℕ) (page : CodePage)
    → create_reset_testrun_code trigger measurement reset amount page
      ≡ up_to_100 amount (emit (reset_testrun_code trigger measurement reset amount))
unfolding create_reset_testrun_code
create_reset_testrun_code_lem trigger measurement reset amount page =
    (>>=-EmitsUpTo add_prolog-Emits (
        >>=-EmitsUpTo (add_bytes_to_code_page-Emits trigger) (
          >>=-EmitsUpTo serialize-Emits (
            assert-EmitsUpTo amount (
              >>=-Emits (add_repeated-Emits amount reset)
                (>>=-Emits serialize-Emits (add_measurement-Emits measurement))))))).emits
      [] (omega arith)

-- Whatever page it starts from, CreateTestrunCode leaves exactly its code and then the NOP sled, when at
-- most 100 repetitions are asked for and the code is shorter than the page, and aborts otherwise.
pub create_testrun_code_lem :
    (first second measurement : Bytes) (amount : ℕ) (page : CodePage)
    → create_testrun_code first second measurement amount page
      ≡ up_to_100 amount (emit (testrun_code first second measurement amount))
unfolding create_testrun_code
create_testrun_code_lem first second measurement amount page =
    (>>=-EmitsUpTo add_prolog-Emits (
        >>=-EmitsUpTo serialize-Emits (
          assert-EmitsUpTo amount (
            >>=-Emits (add_repeated-Emits amount first) (
              >>=-Emits serialize-Emits (
                >>=-Emits (add_bytes_to_code_page-Emits second)
                  (>>=-Emits serialize-Emits (add_measurement-Emits measurement)))))))).emits
      [] (omega arith)
