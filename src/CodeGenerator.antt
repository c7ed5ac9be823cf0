-- ===== src/CodeGenerator.antt =====
-- src/code_generator.cc and src/code_generator.h: the instruction list and the instruction UIDs.
-- The instruction file is a parameter: `none` when it cannot be opened, and else its content.
pub mod Uid
pub mod Load
pub mod Printable
use osiris_arm.Common.{
  ℕ, zero, suc, ◌+◌, ◌-◌, ◌*◌, ◌/◌, ◌%◌, ◌^◌, Bytes, codes, str_eq, List, [], ◌∷◌, ◌++◌, Bool, true,
  false, not, Option, none, some, ◌==◌, ltb, leb, if◌then◌else◌, length, drop, get_elem?, replicate,
  Outcome, ok, exited, aborted, undefined, ◌>>=◌, ◌>>◌, assert,
}
use osiris_arm.Common.Int.{ℤ, pos, negsuc}
use osiris_arm.Common.Text.{print, lines}
use osiris_arm.Common.Numeral.{stoi}
use osiris_arm.Utils.Split.{split_string}
use osiris_arm.Utils.Base64.{base64_decode}
use osiris_arm.Utils.Hash.{Sha256, calculate_file_hash_sha256}

pub record X86Instruction : Type 0 where
  pub instruction_uid : ℕ
  pub byte_representation : Bytes
  pub assembly_code : Bytes
  pub category : Bytes
  pub extension : Bytes
  pub isa_set : Bytes

-- x86Instruction::GetCSVRepresentation
unfoldable pub get_csv_representation : X86Instruction → Bytes
get_csv_representation i =
    print 16 i.instruction_uid
    ++ (codes ";"
        ++ (i.assembly_code
            ++ (codes ";"
                ++ (i.category ++ (codes ";" ++ (i.extension ++ (codes ";" ++ i.isa_set)))))))

pub record CodeGenerator : Type 0 where
  pub instruction_list : List X86Instruction
  pub instruction_file_sha256hash : Bytes

-- `hash.substr(hash.size() - 4, hash.size())`, which throws on a hash of less than four characters
unfoldable pub end_of_hash : Bytes → Outcome Bytes
end_of_hash hash = if ltb (length hash) 4 then aborted else ok (drop (length hash - 4) hash)

-- An int kept in a `uint64_t`.
to_uint64 : ℤ → ℕ
to_uint64 (pos n) = n
to_uint64 (negsuc n) = 2 ^ 64 - suc n

or_abort : Option ℤ → Outcome ℕ
unfolding to_uint64
or_abort none = aborted
or_abort (some n) = ok (to_uint64 n)

is_empty : Bytes → Bool
is_empty [] = true
is_empty (c ∷ s) = false

-- CodeGenerator::GenerateInstructionUID, on the hash that the generator holds
unfoldable pub generate_instruction_uid : Bytes → ℕ → Outcome ℕ
unfolding or_abort is_empty
generate_instruction_uid hash instruction_idx = do
  assert (not (is_empty hash))
  assert (leb instruction_idx 65535)
  end ← end_of_hash hash
  end_of_hash_integer ← or_abort (stoi 16 end)
  ok ((end_of_hash_integer * 2 ^ 16 % 2 ^ 64 + instruction_idx) % 2 ^ 64)

-- `std::setw(width) << std::setfill('0')` before a text
unfoldable pub fill_zero : ℕ → Bytes → Bytes
fill_zero width s = replicate (width - length s) b'0' ++ s

-- CodeGenerator::InstructionUIDToInstructionIndex
unfoldable pub instruction_uid_to_instruction_index : Bytes → ℕ → Outcome ℕ
instruction_uid_to_instruction_index hash instruction_uid = do
  loaded ← end_of_hash hash
  (if str_eq (fill_zero 4 (print 16 (instruction_uid / 2 ^ 16 % 2 ^ 16))) loaded
      then ok (instruction_uid % 2 ^ 16)
      else exited 1)

-- `instruction_list_[instruction_idx]`, behind the check that both callers make
unfoldable pub checked_index : List X86Instruction → ℕ → Outcome X86Instruction
checked_index list instruction_idx =
    if ltb (length list) instruction_idx
    then aborted
    else elim (get_elem? list instruction_idx) [ none ↦ undefined | some i ↦ ok i ]

unfoldable pub create_instruction_from_index : CodeGenerator → ℕ → Outcome X86Instruction
unfolding checked_index
create_instruction_from_index generator instruction_idx =
    checked_index generator.instruction_list instruction_idx

unfoldable pub create_instruction_from_uid : CodeGenerator → ℕ → Outcome X86Instruction
unfolding checked_index
create_instruction_from_uid generator instruction_uid = do
  instruction_idx ←
      instruction_uid_to_instruction_index generator.instruction_file_sha256hash instruction_uid
  checked_index generator.instruction_list instruction_idx

unfoldable pub get_number_of_instructions : CodeGenerator → ℕ
get_number_of_instructions generator = length generator.instruction_list

-- CodeGenerator::CreateRandomInstruction. What `std::uniform_int_distribution<int>` draws from the
-- seeded engine is a parameter; the upper bound of an empty list is -1, and such a distribution is
-- undefined. Lists are shorter than 2 ^ 31.
unfoldable pub create_random_instruction : (ℕ → ℕ → ℕ) → CodeGenerator → Outcome X86Instruction
unfolding create_instruction_from_index
create_random_instruction draw generator =
    if length generator.instruction_list == 0
    then undefined
    else create_instruction_from_index generator (draw 0 (length generator.instruction_list - 1))

abbrev pub header : Bytes
header = codes "byte_representation;assembly_code;category;extension;isa_set"

-- one round of the constructor's loop, on the fields of a line
unfoldable pub parse_fields : Bytes → ℕ → List Bytes → Outcome X86Instruction
parse_fields hash instruction_idx (bytes ∷ assembly ∷ category ∷ extension ∷ isa_set ∷ []) = do
  uid ← generate_instruction_uid hash instruction_idx
  ok (record {
    instruction_uid = uid;
    byte_representation = base64_decode bytes;
    assembly_code = assembly;
    category = category;
    extension = extension;
    isa_set = isa_set;
  })
parse_fields hash instruction_idx other = aborted

unfoldable pub load_lines :
    Bytes → ℕ → List Bytes → List X86Instruction → Outcome (List X86Instruction)
unfolding parse_fields
load_lines hash instruction_idx [] list = ok list
load_lines hash instruction_idx (line ∷ rest) list = do
  instruction ← parse_fields hash instruction_idx (split_string line b';')
  load_lines hash (instruction_idx + 1) rest (list ++ instruction ∷ [])

-- the header and the loop of the constructor; a file with no line has an empty first line
unfoldable pub load_content : Bytes → List Bytes → Outcome CodeGenerator
unfolding load_lines
load_content hash [] = exited 1
load_content hash (line ∷ rest) =
    if str_eq line header
    then (do
      list ← load_lines hash 0 rest []
      ok (record { instruction_list = list; instruction_file_sha256hash = hash }))
    else exited 1

-- CodeGenerator::CodeGenerator
unfoldable pub load : Sha256 → Option Bytes → Outcome CodeGenerator
unfolding load_content
load sha none = exited 1
load sha (some content) =
    load_content (calculate_file_hash_sha256 sha (some content)) (lines content)
