-- ===== src/Executor/Codegen.antt =====
-- src/executor.cc: the functions that generate the code of an experiment on a page. Each starts from a
-- fresh page, and each assertion and full page aborts.
pub mod Layout
pub mod Speculation
pub mod Length
use osiris_arm.Common.{
  ℕ, zero, suc, ◌+◌, ◌-◌, ◌*◌, ◌≡◌, refl, Bytes, List, [], ◌∷◌, ◌++◌, ltb, leb, if◌then◌else◌,
  length, take, Outcome, ok, aborted, ◌>>=◌, ◌>>◌, assert,
}
use osiris_arm.Utils.Bytes.{number_to_bytes_le}
use osiris_arm.Executor.Page.{
  CodePage, pagesize, initialize_code_page, add_instruction_to_code_page, add_bytes_to_code_page,
  add_all, add_repeated,
}
use osiris_arm.Executor.Instructions.{
  prolog, epilog, serialize, timer_start, timer_end, timer_result,
}

unfoldable pub add_prolog : CodePage → Outcome CodePage
unfolding add_all
add_prolog page = add_all prolog page

unfoldable pub add_epilog : CodePage → Outcome CodePage
unfolding add_all
add_epilog page = add_all epilog page

unfoldable pub add_serialize_instruction_to_code_page : CodePage → Outcome CodePage
unfolding add_all
add_serialize_instruction_to_code_page page = add_all serialize page

unfoldable pub add_timer_start_to_code_page : CodePage → Outcome CodePage
unfolding add_all
add_timer_start_to_code_page page = add_all timer_start page

unfoldable pub add_timer_end_to_code_page : CodePage → Outcome CodePage
unfolding add_all
add_timer_end_to_code_page page = add_all timer_end page

unfoldable pub make_timer_result_return_value : CodePage → Outcome CodePage
unfolding add_all
make_timer_result_return_value page = do
  assert (ltb (page.last_written_index + 4) pagesize)
  add_all timer_result page

-- what all three functions do behind the code under test
unfoldable pub add_measurement : Bytes → CodePage → Outcome CodePage
unfolding add_timer_start_to_code_page add_timer_end_to_code_page make_timer_result_return_value
    add_epilog add_bytes_to_code_page
add_measurement measurement_sequence page = do
  page1 ← add_timer_start_to_code_page page
  page2 ← add_bytes_to_code_page measurement_sequence page1
  page3 ← add_timer_end_to_code_page page2
  page4 ← make_timer_result_return_value page3
  page5 ← add_epilog page4
  assert (ltb page5.last_written_index pagesize)
  ok page5

-- CreateResetTestrunCode
unfoldable pub create_reset_testrun_code : Bytes → Bytes → Bytes → ℕ → CodePage → Outcome CodePage
unfolding initialize_code_page add_prolog add_serialize_instruction_to_code_page add_repeated
    add_measurement
create_reset_testrun_code trigger_sequence measurement_sequence reset_sequence amount page = do
  page1 ← add_prolog (initialize_code_page page)
  page2 ← add_bytes_to_code_page trigger_sequence page1
  page3 ← add_serialize_instruction_to_code_page page2
  assert (leb amount 100)
  page4 ← add_repeated amount reset_sequence page3
  page5 ← add_serialize_instruction_to_code_page page4
  add_measurement measurement_sequence page5

-- CreateTestrunCode
unfoldable pub create_testrun_code : Bytes → Bytes → Bytes → ℕ → CodePage → Outcome CodePage
unfolding initialize_code_page add_prolog add_serialize_instruction_to_code_page add_repeated
    add_measurement
create_testrun_code first_sequence second_sequence measurement_sequence amount page = do
  page1 ← add_prolog (initialize_code_page page)
  page2 ← add_serialize_instruction_to_code_page page1
  assert (leb amount 100)
  page3 ← add_repeated amount first_sequence page2
  page4 ← add_serialize_instruction_to_code_page page3
  page5 ← add_bytes_to_code_page second_sequence page4
  page6 ← add_serialize_instruction_to_code_page page5
  add_measurement measurement_sequence page6

abbrev pub inst_relative_call : Bytes
inst_relative_call = 0xe8 ∷ 0xff ∷ 0xff ∷ 0xff ∷ 0xff ∷ []

abbrev pub inst_relative_jmp : Bytes
inst_relative_jmp = 0xe9 ∷ 0xff ∷ 0xff ∷ 0xff ∷ 0xff ∷ []

abbrev pub inst_lea_rax_deref_rip_plus_offset : Bytes
inst_lea_rax_deref_rip_plus_offset = 0x48 ∷ 0x8d ∷ 0x05 ∷ 0xff ∷ 0xff ∷ 0xff ∷ 0xff ∷ []

abbrev pub inst_mov_deref_rsp_rax : Bytes
inst_mov_deref_rsp_rax = 0x48 ∷ 0x89 ∷ 0x04 ∷ 0x24 ∷ []

abbrev pub inst_x86_ret : Bytes
inst_x86_ret = 0xc3 ∷ []

-- The three displacements, as `int32_t`; a trigger sequence is far below 2 ^ 31 bytes.
abbrev pub call_displacement : Bytes → ℕ
call_displacement trigger_sequence = length trigger_sequence + length inst_relative_jmp

abbrev pub jmp_displacement : ℕ
jmp_displacement =
    length inst_lea_rax_deref_rip_plus_offset + length inst_mov_deref_rsp_rax + length inst_x86_ret

abbrev pub lea_rip_displacement : ℕ
lea_rip_displacement = length inst_mov_deref_rsp_rax + length inst_x86_ret

-- CreateSpeculativeTriggerTestrunCode
unfoldable pub create_speculative_trigger_testrun_code :
    Bytes → Bytes → Bytes → ℕ → CodePage → Outcome CodePage
unfolding initialize_code_page add_prolog add_serialize_instruction_to_code_page add_repeated
    add_instruction_to_code_page number_to_bytes_le add_measurement
create_speculative_trigger_testrun_code measurement trigger reset amount page = do
  page1 ← add_prolog (initialize_code_page page)
  page2 ← add_serialize_instruction_to_code_page page1
  assert (leb amount 100)
  page3 ← add_repeated amount reset page2
  page4 ← add_serialize_instruction_to_code_page page3
  page5 ← add_instruction_to_code_page (take 1 inst_relative_call) page4
  page6 ← add_bytes_to_code_page (number_to_bytes_le (call_displacement trigger) 4) page5
  page7 ← add_bytes_to_code_page trigger page6
  page8 ← add_instruction_to_code_page (take 1 inst_relative_jmp) page7
  page9 ← add_bytes_to_code_page (number_to_bytes_le jmp_displacement 4) page8
  page10 ← add_instruction_to_code_page (take 3 inst_lea_rax_deref_rip_plus_offset) page9
  page11 ← add_bytes_to_code_page (number_to_bytes_le lea_rip_displacement 4) page10
  page12 ← add_instruction_to_code_page (take 4 inst_mov_deref_rsp_rax) page11
  page13 ← add_instruction_to_code_page (take 1 inst_x86_ret) page12
  add_measurement measurement page13

-- the `for (size_t i = 0; i < length; i += 4)` of CreateSequenceOfNOPs, by the bytes left
unfoldable pub create_sequence_of_nops : ℕ → Bytes
create_sequence_of_nops zero = []
create_sequence_of_nops (suc zero) = 0xD5 ∷ 0x03 ∷ 0x20 ∷ 0x1F ∷ []
create_sequence_of_nops (suc (suc zero)) = 0xD5 ∷ 0x03 ∷ 0x20 ∷ 0x1F ∷ []
create_sequence_of_nops (suc (suc (suc zero))) = 0xD5 ∷ 0x03 ∷ 0x20 ∷ 0x1F ∷ []
create_sequence_of_nops (suc (suc (suc (suc left)))) =
    0xD5 ∷ 0x03 ∷ 0x20 ∷ 0x1F ∷ create_sequence_of_nops left
