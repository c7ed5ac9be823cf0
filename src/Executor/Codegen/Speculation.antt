-- ===== src/Executor/Codegen/Speculation.antt =====
-- src/executor.cc: the page of CreateSpeculativeTriggerTestrunCode, and where its displacements lead.
use osiris_arm.Common.{
  ℕ, ◌+◌, ◌≡◌, refl, Bytes, [], ◌++◌, length, take, drop, repeat, ◌>>=◌, arith, append_assoc,
  length-append, drop-append,
}
use osiris_arm.Utils.Bytes.{number_to_bytes_le, length-number_to_bytes_le}
use osiris_arm.Executor.Page.{CodePage, add_instruction_to_code_page, add_bytes_to_code_page}
use osiris_arm.Executor.Page.Layout.{
  emit, Emits, concat, >>=-Emits, add_repeated-Emits, up_to_100, >>=-EmitsUpTo, assert-EmitsUpTo,
  add_instruction_to_code_page-Emits, add_bytes_to_code_page-Emits,
}
use osiris_arm.Executor.Instructions.{prolog, serialize}
use osiris_arm.Executor.Codegen.{
  add_measurement, create_speculative_trigger_testrun_code, inst_relative_call, inst_relative_jmp,
  inst_lea_rax_deref_rip_plus_offset, inst_mov_deref_rsp_rax, inst_x86_ret, call_displacement,
  jmp_displacement, lea_rip_displacement,
}
use osiris_arm.Executor.Codegen.Layout.{
  add_prolog-Emits, serialize-Emits, add_measurement-Emits, measured,
}

-- The code before the call.
abbrev pub before_call : Bytes → ℕ → Bytes
before_call reset amount =
    concat prolog ++ (concat serialize ++ (repeat amount reset ++ concat serialize))

abbrev pub call_code : Bytes → Bytes
call_code trigger = take 1 inst_relative_call ++ number_to_bytes_le (call_displacement trigger) 4

abbrev pub jmp_code : Bytes
jmp_code = take 1 inst_relative_jmp ++ number_to_bytes_le jmp_displacement 4

abbrev pub lea_code : Bytes
lea_code = take 3 inst_lea_rax_deref_rip_plus_offset ++ number_to_bytes_le lea_rip_displacement 4

-- The instructions that the call leads to: they overwrite the return address.
abbrev pub return_code : Bytes
return_code = take 4 inst_mov_deref_rsp_rax ++ take 1 inst_x86_ret

-- The code of CreateSpeculativeTriggerTestrunCode, as it is written.
abbrev pub speculative_code : Bytes → Bytes → Bytes → ℕ → Bytes
speculative_code measurement trigger reset amount =
    concat prolog
    ++ (concat serialize
        ++ (repeat amount reset
            ++ (concat serialize
                ++ (take 1 inst_relative_call
                    ++ (number_to_bytes_le (call_displacement trigger) 4
                        ++ (trigger
                            ++ (take 1 inst_relative_jmp
                                ++ (number_to_bytes_le jmp_displacement 4
                                    ++ (take 3 inst_lea_rax_deref_rip_plus_offset
                                        ++ (number_to_bytes_le lea_rip_displacement 4
                                            ++ (take 4 inst_mov_deref_rsp_rax
                                                ++ (take 1 inst_x86_ret
                                                    ++ measured measurement))))))))))))

speculation_end-Emits :
    (measurement : Bytes)
    → Emits
        (λ page. add_instruction_to_code_page (take 1 inst_relative_jmp) page >>= λ page8.
          add_bytes_to_code_page (number_to_bytes_le jmp_displacement 4) page8 >>= λ page9.
          add_instruction_to_code_page (take 3 inst_lea_rax_deref_rip_plus_offset) page9
          >>= λ page10.
              add_bytes_to_code_page (number_to_bytes_le lea_rip_displacement 4) page10
              >>= λ page11.
                  add_instruction_to_code_page (take 4 inst_mov_deref_rsp_rax) page11 >>= λ page12.
                  add_instruction_to_code_page (take 1 inst_x86_ret) page12
                  >>= add_measurement measurement)
        (take 1 inst_relative_jmp
          ++ (number_to_bytes_le jmp_displacement 4
              ++ (take 3 inst_lea_rax_deref_rip_plus_offset
                  ++ (number_to_bytes_le lea_rip_displacement 4
                      ++ (take 4 inst_mov_deref_rsp_rax
                          ++ (take 1 inst_x86_ret ++ measured measurement))))))
speculation_end-Emits measurement =
    >>=-Emits (add_instruction_to_code_page-Emits (take 1 inst_relative_jmp)) (
      >>=-Emits (add_bytes_to_code_page-Emits (number_to_bytes_le jmp_displacement 4)) (
        >>=-Emits (add_instruction_to_code_page-Emits (take 3 inst_lea_rax_deref_rip_plus_offset)) (
          >>=-Emits (add_bytes_to_code_page-Emits (number_to_bytes_le lea_rip_displacement 4)) (
            >>=-Emits (add_instruction_to_code_page-Emits (take 4 inst_mov_deref_rsp_rax)) (
              >>=-Emits (add_instruction_to_code_page-Emits (take 1 inst_x86_ret))
                (add_measurement-Emits measurement))))))

-- Whatever page it starts from, CreateSpeculativeTriggerTestrunCode leaves exactly its code and then the
-- NOP sled, when at most 100 resets are asked for and the code is shorter than the page, and aborts
-- otherwise.
pub create_speculative_trigger_testrun_code_lem :
    (measurement trigger reset : Bytes) (amount : ℕ) (page : CodePage)
    → create_speculative_trigger_testrun_code measurement trigger reset amount page
      ≡ up_to_100 amount (emit (speculative_code measurement trigger reset amount))
unfolding create_speculative_trigger_testrun_code
create_speculative_trigger_testrun_code_lem measurement trigger reset amount page =
    (>>=-EmitsUpTo add_prolog-Emits (
        >>=-EmitsUpTo serialize-Emits (
          assert-EmitsUpTo amount (
            >>=-Emits (add_repeated-Emits amount reset) (
              >>=-Emits serialize-Emits (
                >>=-Emits (add_instruction_to_code_page-Emits (take 1 inst_relative_call)) (
                  >>=-Emits
                    (add_bytes_to_code_page-Emits
                      (number_to_bytes_le (call_displacement trigger) 4))
                    (>>=-Emits (add_bytes_to_code_page-Emits trigger)
                      (speculation_end-Emits measurement))))))))).emits
      [] (omega arith)

-- the code before and behind the target of the call, and of the jump
split_call :
    (measurement trigger reset : Bytes) (amount : ℕ)
    → speculative_code measurement trigger reset amount
      ≡ (before_call reset amount ++ (call_code trigger ++ (trigger ++ jmp_code)))
        ++ (lea_code ++ (return_code ++ measured measurement))
split_call measurement trigger reset amount = simp append_assoc

split_jmp :
    (measurement trigger reset : Bytes) (amount : ℕ)
    → speculative_code measurement trigger reset amount
      ≡ (before_call reset amount
          ++ (call_code trigger ++ (trigger ++ (jmp_code ++ (lea_code ++ return_code)))))
        ++ measured measurement
split_jmp measurement trigger reset amount = simp append_assoc

drop_at : (a b code : Bytes) (n : ℕ) → code ≡ a ++ b → n ≡ length a → drop n code ≡ b
drop_at a b code n e l = rw (e, l) (drop-append a b)

length_call :
    (trigger rest : Bytes)
    → length (call_code trigger ++ (trigger ++ rest)) ≡ 5 + length trigger + length rest
length_call trigger rest = omega (
  arith,
  length-append (call_code trigger) (trigger ++ rest),
  length-append trigger rest,
  length-append (take 1 inst_relative_call) (number_to_bytes_le (call_displacement trigger) 4),
  length-number_to_bytes_le 4 (call_displacement trigger),
)

length_jmp : length jmp_code ≡ 5
unfolding number_to_bytes_le
length_jmp = refl

length_end : length (jmp_code ++ (lea_code ++ return_code)) ≡ 17
unfolding number_to_bytes_le
length_end = refl

-- In the code that CreateSpeculativeTriggerTestrunCode writes, the call leads to the instruction behind
-- the jump, and the jump and the address that replaces the return address lead to the start of the
-- timer: each displacement counts from the end of its instruction.
pub displacements_lem :
    (measurement trigger reset : Bytes) (amount : ℕ)
    → let code = speculative_code measurement trigger reset amount in
      let behind_call = length (before_call reset amount) + 5 in
      let behind_jmp = behind_call + length trigger + 5 in
      let behind_lea = behind_jmp + 7 in
      (drop (behind_call + call_displacement trigger) code
        ≡ lea_code ++ (return_code ++ measured measurement))
      × (drop (behind_jmp + jmp_displacement) code ≡ measured measurement)
      × (drop (behind_lea + lea_rip_displacement) code ≡ measured measurement)
displacements_lem measurement trigger reset amount =
    let front = before_call reset amount in
    let call = length-append front (call_code trigger ++ (trigger ++ jmp_code)) in
    let jmp =
      length-append front
        (call_code trigger ++ (trigger ++ (jmp_code ++ (lea_code ++ return_code)))) in
    let body = length_call trigger jmp_code in
    let rest = length_call trigger (jmp_code ++ (lea_code ++ return_code)) in
    (
      drop_at (front ++ (call_code trigger ++ (trigger ++ jmp_code))) _ _ _
          (split_call measurement trigger reset amount) (omega (arith, call, body, length_jmp)),
      drop_at (front ++ (call_code trigger ++ (trigger ++ (jmp_code ++ (lea_code ++ return_code)))))
          _ _ _ (split_jmp measurement trigger reset amount) (omega (arith, jmp, rest, length_end)),
      drop_at (front ++ (call_code trigger ++ (trigger ++ (jmp_code ++ (lea_code ++ return_code)))))
          _ _ _ (split_jmp measurement trigger reset amount) (omega (arith, jmp, rest, length_end)),
    )
