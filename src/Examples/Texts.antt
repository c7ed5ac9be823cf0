-- ===== src/Examples/Texts.antt =====
-- Runs of the functions on names and lines in src/osiris.cc, src/core.cc and src/logger.cc, and of the constructor
-- of the Executor.
use osiris_arm.Common.{◌≡◌, refl, codes, [], ◌∷◌, ◌++◌, true, ◌==◌, none, exited}
use osiris_arm.Common.Int.{pos, negsuc}
use osiris_arm.Executor.Start.{OperatingSystem, new_executor}
use osiris_arm.Core.Search.{create_file}
use osiris_arm.Core.Format.{formatted_filename}
use osiris_arm.Osiris.Arguments.{parse_arguments}
use osiris_arm.Osiris.Stages.{base_name_of}
use osiris_arm.Osiris.Confirm.{confirmed_line}
use osiris_arm.Logger.{info, new_logger, set_log_level, log_info}
use osiris_arm.Examples.Machines.{toy_machine, no_faults}

new_timing : confirmed_line (negsuc 6) (codes "5;a;b") ≡ codes "-7;a;b"
unfolding confirmed_line
new_timing = refl

no_timing : confirmed_line (pos 7) (codes "abc") ≡ codes "7;abc"
unfolding confirmed_line
no_timing = refl

cut_name : base_name_of (codes "x.y.csv") ≡ codes "x.y"
unfolding base_name_of
cut_name = refl

whole_name : base_name_of (codes "x") ≡ codes "x"
unfolding base_name_of
whole_name = refl

error_name : formatted_filename (codes "a b") [] 12 ≡ codes "disasm_err_a_b---12"
unfolding formatted_filename
error_name = refl

instruction_name :
    formatted_filename
      (codes "a b")
      (record { mnemonic = codes "add"; op_str = codes "x0, x1" } ∷ [])
      0
    ≡ codes "add_x0,_x1---0"
unfolding formatted_filename
instruction_name = refl

-- the name ends in a folder that is not there
lost_file : create_file (codes "a/b") (codes "text") [] ≡ []
unfolding create_file
lost_file = refl

stripped_file : create_file (codes "/ab") (codes "text") [] ≡ (codes "ab", codes "text") ∷ []
unfolding create_file
stripped_file = refl

quiet : (log_info (codes "now") (codes "text") new_logger).printed ≡ []
unfolding log_info
quiet = refl

loud :
    (log_info (codes "now") (codes "text") (set_log_level info new_logger)).printed
    ≡ (27 ∷ (codes "[32m[now] INFO: text" ++ 27 ∷ codes "[0m")) ∷ []
unfolding log_info set_log_level
loud = refl

-- the second data page is mapped already
abbrev occupied : OperatingSystem
occupied = record {
  opens_device = true;
  is_unmapped = λ i. i == 0;
  maps_data_page = λ i. true;
  maps_code_page = λ i. true;
}

not_constructed : new_executor occupied toy_machine 0 no_faults 0 0 ≡ exited 1
unfolding new_executor
not_constructed = refl

missing_file : parse_arguments ((b'1', none) ∷ []) (codes "in.csv" ∷ []) ≡ exited 1
unfolding parse_arguments
missing_file = refl
