-- ===== src/Executor/Instructions.antt =====
-- src/executor.cc: the instructions that AddProlog, AddEpilog, AddSerializeInstructionToCodePage, the
-- timer functions and MakeTimerResultReturnValue add, in the order of their calls.
use osiris_arm.Common.{Bytes, List, [], ◌∷◌}

abbrev inst_dmb_sy : Bytes
inst_dmb_sy = 0xbf ∷ 0x3f ∷ 0x03 ∷ 0xd5 ∷ []

abbrev inst_dsb : Bytes
inst_dsb = 0x9f ∷ 0x3f ∷ 0x03 ∷ 0xd5 ∷ []

abbrev inst_dsb_sy : Bytes
inst_dsb_sy = 0x9f ∷ 0x3f ∷ 0x03 ∷ 0xd5 ∷ []

abbrev inst_isb_sy : Bytes
inst_isb_sy = 0xdf ∷ 0x3f ∷ 0x03 ∷ 0xd5 ∷ []

abbrev inst_ldp_x19_x20 : Bytes
inst_ldp_x19_x20 = 0xf3 ∷ 0x53 ∷ 0xc1 ∷ 0xa8 ∷ []

abbrev inst_ldp_x21_x22 : Bytes
inst_ldp_x21_x22 = 0xf5 ∷ 0x5b ∷ 0xc1 ∷ 0xa8 ∷ []

abbrev inst_ldp_x23_x24 : Bytes
inst_ldp_x23_x24 = 0xf7 ∷ 0x63 ∷ 0xc1 ∷ 0xa8 ∷ []

abbrev inst_ldp_x25_x26 : Bytes
inst_ldp_x25_x26 = 0xf9 ∷ 0x6b ∷ 0xc1 ∷ 0xa8 ∷ []

abbrev inst_ldp_x27_x28 : Bytes
inst_ldp_x27_x28 = 0xfb ∷ 0x73 ∷ 0xc1 ∷ 0xa8 ∷ []

abbrev inst_ldp_x29_30 : Bytes
inst_ldp_x29_30 = 0xfd ∷ 0x7b ∷ 0xc1 ∷ 0xa8 ∷ []

abbrev inst_ldr_q10 : Bytes
inst_ldr_q10 = 0xea ∷ 0x07 ∷ 0xc1 ∷ 0x3c ∷ []

abbrev inst_ldr_q11 : Bytes
inst_ldr_q11 = 0xeb ∷ 0x07 ∷ 0xc1 ∷ 0x3c ∷ []

abbrev inst_ldr_q12 : Bytes
inst_ldr_q12 = 0xec ∷ 0x07 ∷ 0xc1 ∷ 0x3c ∷ []

abbrev inst_ldr_q13 : Bytes
inst_ldr_q13 = 0xed ∷ 0x07 ∷ 0xc1 ∷ 0x3c ∷ []

abbrev inst_ldr_q14 : Bytes
inst_ldr_q14 = 0xee ∷ 0x07 ∷ 0xc1 ∷ 0x3c ∷ []

abbrev inst_ldr_q15 : Bytes
inst_ldr_q15 = 0xef ∷ 0x07 ∷ 0xc1 ∷ 0x3c ∷ []

abbrev inst_ldr_q8 : Bytes
inst_ldr_q8 = 0xe8 ∷ 0x07 ∷ 0xc1 ∷ 0x3c ∷ []

abbrev inst_ldr_q9 : Bytes
inst_ldr_q9 = 0xe9 ∷ 0x07 ∷ 0xc1 ∷ 0x3c ∷ []

abbrev inst_mov_pcmr_el0_x27 : Bytes
inst_mov_pcmr_el0_x27 = 0x1b ∷ 0x9c ∷ 0x1b ∷ 0xd5 ∷ []

abbrev inst_mov_x0_15 : Bytes
inst_mov_x0_15 = 0xe0 ∷ 0x03 ∷ 0x0f ∷ 0xaa ∷ []

abbrev inst_mov_x24_0 : Bytes
inst_mov_x24_0 = 0xf8 ∷ 0x66 ∷ 0xa2 ∷ 0xd2 ∷ []

abbrev inst_mov_x25_0 : Bytes
inst_mov_x25_0 = 0xf9 ∷ 0x66 ∷ 0xa2 ∷ 0xd2 ∷ []

abbrev inst_mov_x26_0 : Bytes
inst_mov_x26_0 = 0xfa ∷ 0x66 ∷ 0xa2 ∷ 0xd2 ∷ []

abbrev inst_mov_x26_x27 : Bytes
inst_mov_x26_x27 = 0xfa ∷ 0x03 ∷ 0x1b ∷ 0xaa ∷ []

abbrev inst_mov_x27_0 : Bytes
inst_mov_x27_0 = 0xfb ∷ 0x66 ∷ 0xa2 ∷ 0xd2 ∷ []

abbrev inst_mov_x27_pcmr_el0 : Bytes
inst_mov_x27_pcmr_el0 = 0x1b ∷ 0x9c ∷ 0x3b ∷ 0xd5 ∷ []

abbrev inst_mov_x29_sp : Bytes
inst_mov_x29_sp = 0xfd ∷ 0x03 ∷ 0x00 ∷ 0x91 ∷ []

abbrev inst_mrs_x27_pmccntr_el0 : Bytes
inst_mrs_x27_pmccntr_el0 = 0x1b ∷ 0x9d ∷ 0x3b ∷ 0xd5 ∷ []

abbrev inst_nop : Bytes
inst_nop = 0x1f ∷ 0x20 ∷ 0x03 ∷ 0xd5 ∷ []

abbrev inst_orr_x27_ox7 : Bytes
inst_orr_x27_ox7 = 0x7b ∷ 0x0b ∷ 0x40 ∷ 0xb2 ∷ []

abbrev inst_ret : Bytes
inst_ret = 0xc0 ∷ 0x03 ∷ 0x5f ∷ 0xd6 ∷ []

abbrev inst_sp_x29 : Bytes
inst_sp_x29 = 0xbf ∷ 0x03 ∷ 0x00 ∷ 0x91 ∷ []

abbrev inst_stp_x19_x20 : Bytes
inst_stp_x19_x20 = 0xf3 ∷ 0x53 ∷ 0xbf ∷ 0xa9 ∷ []

abbrev inst_stp_x21_x22 : Bytes
inst_stp_x21_x22 = 0xf5 ∷ 0x5b ∷ 0xbf ∷ 0xa9 ∷ []

abbrev inst_stp_x23_x24 : Bytes
inst_stp_x23_x24 = 0xf7 ∷ 0x63 ∷ 0xbf ∷ 0xa9 ∷ []

abbrev inst_stp_x25_x26 : Bytes
inst_stp_x25_x26 = 0xf9 ∷ 0x6b ∷ 0xbf ∷ 0xa9 ∷ []

abbrev inst_stp_x27_x28 : Bytes
inst_stp_x27_x28 = 0xfb ∷ 0x73 ∷ 0xbf ∷ 0xa9 ∷ []

abbrev inst_stp_x29_x30 : Bytes
inst_stp_x29_x30 = 0xfd ∷ 0x7b ∷ 0xbf ∷ 0xa9 ∷ []

abbrev inst_str_q10 : Bytes
inst_str_q10 = 0xea ∷ 0x0f ∷ 0x9f ∷ 0x3c ∷ []

abbrev inst_str_q11 : Bytes
inst_str_q11 = 0xeb ∷ 0x0f ∷ 0x9f ∷ 0x3c ∷ []

abbrev inst_str_q12 : Bytes
inst_str_q12 = 0xec ∷ 0x0f ∷ 0x9f ∷ 0x3c ∷ []

abbrev inst_str_q13 : Bytes
inst_str_q13 = 0xed ∷ 0x0f ∷ 0x9f ∷ 0x3c ∷ []

abbrev inst_str_q14 : Bytes
inst_str_q14 = 0xee ∷ 0x0f ∷ 0x9f ∷ 0x3c ∷ []

abbrev inst_str_q15 : Bytes
inst_str_q15 = 0xef ∷ 0x0f ∷ 0x9f ∷ 0x3c ∷ []

abbrev inst_str_q8 : Bytes
inst_str_q8 = 0xe8 ∷ 0x0f ∷ 0x9f ∷ 0x3c ∷ []

abbrev inst_str_q9 : Bytes
inst_str_q9 = 0xe9 ∷ 0x0f ∷ 0x9f ∷ 0x3c ∷ []

abbrev inst_sub_sp_1000 : Bytes
inst_sub_sp_1000 = 0xff ∷ 0x07 ∷ 0x40 ∷ 0xd1 ∷ []

abbrev inst_sub_x15_x27_x26 : Bytes
inst_sub_x15_x27_x26 = 0x6f ∷ 0x03 ∷ 0x1a ∷ 0xcb ∷ []

abbrev pub epilog : List Bytes
epilog =
    inst_dsb_sy ∷ inst_isb_sy ∷ inst_nop ∷ inst_dmb_sy ∷ inst_sp_x29 ∷ inst_ldr_q15 ∷ inst_ldr_q14
    ∷ inst_ldr_q13 ∷ inst_ldr_q12 ∷ inst_ldr_q11 ∷ inst_ldr_q10 ∷ inst_ldr_q9 ∷ inst_ldr_q8
    ∷ inst_ldp_x27_x28 ∷ inst_ldp_x25_x26 ∷ inst_ldp_x23_x24 ∷ inst_ldp_x21_x22 ∷ inst_ldp_x19_x20
    ∷ inst_ldp_x29_30 ∷ inst_ret ∷ []

abbrev pub prolog : List Bytes
prolog =
    inst_stp_x29_x30 ∷ inst_stp_x19_x20 ∷ inst_stp_x21_x22 ∷ inst_stp_x23_x24 ∷ inst_stp_x25_x26
    ∷ inst_stp_x27_x28 ∷ inst_str_q8 ∷ inst_str_q9 ∷ inst_str_q10 ∷ inst_str_q11 ∷ inst_str_q12
    ∷ inst_str_q13 ∷ inst_str_q14 ∷ inst_str_q15 ∷ inst_mov_x29_sp ∷ inst_sub_sp_1000
    ∷ inst_mov_x25_0 ∷ inst_mov_x24_0 ∷ inst_mov_x26_0 ∷ inst_mov_x27_0 ∷ []

abbrev pub serialize : List Bytes
serialize = inst_dmb_sy ∷ inst_dsb_sy ∷ inst_isb_sy ∷ inst_nop ∷ []

abbrev pub timer_start : List Bytes
timer_start =
    inst_nop ∷ inst_mov_x27_pcmr_el0 ∷ inst_orr_x27_ox7 ∷ inst_mov_pcmr_el0_x27
    ∷ inst_mrs_x27_pmccntr_el0 ∷ inst_mov_x26_x27 ∷ inst_dmb_sy ∷ inst_dsb ∷ inst_isb_sy ∷ []

abbrev pub timer_result : List Bytes
timer_result = inst_mov_x0_15 ∷ []

abbrev pub timer_end : List Bytes
timer_end =
    inst_dsb ∷ inst_isb_sy ∷ inst_mrs_x27_pmccntr_el0 ∷ inst_sub_x15_x27_x26 ∷ inst_dsb
    ∷ inst_isb_sy ∷ inst_nop ∷ inst_dmb_sy ∷ []
