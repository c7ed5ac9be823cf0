-- ===== src/Examples/Instructions.antt =====
-- Runs of src/code_generator.cc and of the test of the instruction list on small files.
use osiris_arm.Common.{
  ℕ, ◌*◌, ◌^◌, ◌<◌, ◌≡◌, refl, Bytes, codes, [], ◌∷◌, ◌++◌, map, ◌⊎◌, some, length, get_elem?, ok,
  exited, undefined, aborted, str_eq, ◌>>=◌, arith,
}
use osiris_arm.Common.Numeral.{stoi}
use osiris_arm.Common.Text.{lines, unlines}
use osiris_arm.Utils.Split.{split_string}
use osiris_arm.Utils.Base64.{base64_decode}
use osiris_arm.Utils.Hash.{calculate_file_hash_sha256}
use osiris_arm.CodeGenerator.{
  X86Instruction, CodeGenerator, load, header, end_of_hash, generate_instruction_uid,
  instruction_uid_to_instruction_index, create_instruction_from_index, create_instruction_from_uid,
}
use osiris_arm.CodeGenerator.Uid.{
  hex4, instruction_uid_to_instruction_index-generate_instruction_uid,
  generate_instruction_uid_other_file, create_instruction_from_index_lem,
}
use osiris_arm.CodeGenerator.Load.{load_lem}
use osiris_arm.Core.Cleanup.{instruction_line}
use osiris_arm.CodeGenerator.Printable.{IsWritable}
use osiris_arm.Core.Cleanup.Reload.{with_uids, load-unlines}
use osiris_arm.Examples.{toy_sha}

abbrev pub nop_instruction : X86Instruction
nop_instruction = record {
  instruction_uid = 0;
  byte_representation = 0x1F ∷ 0x20 ∷ 0x03 ∷ 0xD5 ∷ [];
  assembly_code = codes "NOP";
  category = codes "C";
  extension = codes "E";
  isa_set = codes "I";
}

abbrev one_char : (c : ℕ) → Bytes
one_char c = c ∷ []

pub nop-IsWritable : IsWritable nop_instruction
nop-IsWritable = record {
  bytes = (omega arith, (omega arith, (omega arith, (omega arith, tt))));
  assembly = (
    ((λ e. omega arith), (λ e. omega arith)),
    (((λ e. omega arith), (λ e. omega arith)), (((λ e. omega arith), (λ e. omega arith)), tt)),
  );
  category = (((λ e. omega arith), (λ e. omega arith)), tt);
  extension = (((λ e. omega arith), (λ e. omega arith)), tt);
  isa_set = (((λ e. omega arith), (λ e. omega arith)), tt);
}

load-unlines_example :
    (start : Bytes) × (v : ℕ) × (v < 2 ^ 16)
    × (calculate_file_hash_sha256 toy_sha
          (some (unlines (header ∷ map instruction_line (nop_instruction ∷ nop_instruction ∷ []))))
        ≡ start ++ hex4 v)
    × (load toy_sha
          (some (unlines (header ∷ map instruction_line (nop_instruction ∷ nop_instruction ∷ []))))
        ≡ ok (record {
          instruction_list = with_uids (v * 2 ^ 16) (nop_instruction ∷ nop_instruction ∷ []);
          instruction_file_sha256hash = start ++ hex4 v;
        }))
load-unlines_example =
    load-unlines toy_sha (nop_instruction ∷ nop_instruction ∷ []) (omega arith)
      (nop-IsWritable, (nop-IsWritable, tt))

abbrev pub nop_file : Bytes
nop_file =
    codes "byte_representation;assembly_code;category;extension;isa_set\nHyAD1Q==;NOP;C;E;I\n"

-- the digits that the hash of the file ends in
abbrev pub nop_uid : ℕ
nop_uid = length nop_file * 2 ^ 16

abbrev pub loaded : CodeGenerator
loaded = record {
  instruction_list = record nop_instruction { instruction_uid = nop_uid } ∷ [];
  instruction_file_sha256hash = calculate_file_hash_sha256 toy_sha (some nop_file);
}

pub nop_file_loads : load toy_sha (some nop_file) ≡ ok loaded
unfolding load lines str_eq split_string generate_instruction_uid calculate_file_hash_sha256
    base64_decode end_of_hash stoi
nop_file_loads = refl

load_lem_example :
    (generate_instruction_uid loaded.instruction_file_sha256hash 0 ≡ ok nop_uid)
    × (create_instruction_from_index loaded 0
        ≡ ok (record nop_instruction { instruction_uid = nop_uid }))
    × (create_instruction_from_uid loaded nop_uid
        ≡ ok (record nop_instruction { instruction_uid = nop_uid }))
load_lem_example =
    load_lem toy_sha nop_file 0 (record nop_instruction { instruction_uid = nop_uid })
      nop_file_loads refl

instruction_uid_to_instruction_index-generate_instruction_uid_example :
    (generate_instruction_uid (codes "abcd" ++ hex4 0xbeef) 7
      >>= instruction_uid_to_instruction_index (codes "abcd" ++ hex4 0xbeef))
    ≡ ok 7
instruction_uid_to_instruction_index-generate_instruction_uid_example =
    instruction_uid_to_instruction_index-generate_instruction_uid (codes "abcd") 0xbeef 7
      (omega arith) (omega arith)

generate_instruction_uid_other_file_example :
    (generate_instruction_uid (codes "abcd" ++ hex4 0xbeef) 7
      >>= instruction_uid_to_instruction_index (codes "dcba" ++ hex4 0xbeee))
    ≡ exited 1
generate_instruction_uid_other_file_example =
    generate_instruction_uid_other_file (codes "abcd") (codes "dcba") 0xbeef 0xbeee 7 (omega arith)
      (omega arith) (omega arith) (λ e. omega arith)

-- one instruction, and the index 1: the size of the list
create_instruction_from_index_lem_example :
    ((x : X86Instruction) × (get_elem? loaded.instruction_list 1 ≡ some x)
      × (create_instruction_from_index loaded 1 ≡ ok x))
    ⊎ (((1 ≡ length loaded.instruction_list) × (create_instruction_from_index loaded 1 ≡ undefined))
        ⊎ ((length loaded.instruction_list < 1)
            × (create_instruction_from_index loaded 1 ≡ aborted)))
create_instruction_from_index_lem_example = create_instruction_from_index_lem loaded 1
