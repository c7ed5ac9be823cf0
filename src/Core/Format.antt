-- ===== src/Core/Format.antt =====
-- src/core.cc: FormatTriggerPairOutput. What `cs_disasm` makes of bytes and the entries that the directory
-- iterator gives, each a name with its content, are parameters. The files of the new folder come back in
-- the order of their writing.
pub mod Names
pub mod Result
pub mod Reports
use osiris_arm.Common.{
  ℕ, zero, suc, ◌+◌, Bytes, codes, str_eq, List, [], ◌∷◌, ◌++◌, map, Bool, true, false, ◌||◌, ◌==◌,
  if◌then◌else◌, Outcome, ok, undefined, ◌>>=◌,
}
use osiris_arm.Common.Text.{print, contains, lines, unlines}
use osiris_arm.Utils.Split.{split_string}
use osiris_arm.Utils.Bytes.{bytearray_to_string}
use osiris_arm.Utils.Base64.{base64_decode}
use osiris_arm.Core.Search.{ResultFile, create_file}

-- what the code reads of a `cs_insn`
pub record Instruction : Type 0 where
  pub mnemonic : Bytes
  pub op_str : Bytes

abbrev pub delimiter : Bytes
delimiter = codes "======================================================================="

abbrev pub delimiter2 : Bytes
delimiter2 = codes "-----------------------------------------------------------------------"

-- `std::replace(…, ' ', '_')`
unfoldable pub no_spaces : Bytes → Bytes
no_spaces [] = []
no_spaces (c ∷ s) = (if c == b' ' then b'_' else c) ∷ no_spaces s

-- mnemonic and operands of the first instruction, or the old name behind a prefix
unfoldable pub name_of : Bytes → List Instruction → Bytes
name_of filename [] = codes "disasm_err_" ++ filename
name_of filename (i ∷ is) = i.mnemonic ++ (codes "_" ++ i.op_str)

unfoldable pub formatted_filename : Bytes → List Instruction → ℕ → Bytes
unfolding no_spaces name_of print
formatted_filename filename instructions unique_idx =
    no_spaces (name_of filename instructions) ++ (codes "---" ++ print 10 unique_idx)

unfoldable pub instruction_lines : List Instruction → List Bytes
instruction_lines [] = []
instruction_lines (i ∷ is) = (i.mnemonic ++ (codes " " ++ i.op_str)) ∷ instruction_lines is

-- the instructions, or the line for bytes that are not disassembled
unfoldable pub or_error : Bytes → List Instruction → List Bytes
unfolding instruction_lines
or_error error [] = error ∷ []
or_error error (i ∷ is) = instruction_lines (i ∷ is)

-- a path is printed between quotes; names hold no quote and no backslash, which would be escaped
unfoldable pub trigger_lines : Bytes → List Instruction → List Bytes
unfolding or_error
trigger_lines filename instructions =
    delimiter
      ∷ codes "=================== trigger/measurement instruction ==================="
      ∷ delimiter
      ∷ or_error (codes "DISASM ERR(inst:\"" ++ (filename ++ codes "\")")) instructions
    ++ (delimiter
        ∷ codes "========================== reset instructions ========================="
        ∷ delimiter
        ∷ [])

module _ (cs_disasm : Bytes → List Instruction) where
  -- the fields of a line; `line_splitted[1]` is out of range where there is one field only
  unfoldable pub format_fields : List Bytes → Outcome (List Bytes)
  unfolding or_error
  format_fields (reset ∷ timing ∷ rest) = ok (
      or_error (codes "DISASM ERR (inst: " ++ (reset ++ codes ")"))
        (cs_disasm (bytearray_to_string (base64_decode reset)))
      ++ ((codes "TIMING: " ++ timing) ∷ delimiter2 ∷ []))
  format_fields other = undefined

  unfoldable pub format_lines : List Bytes → Outcome (List Bytes)
  unfolding format_fields
  format_lines [] = ok []
  format_lines (line ∷ rest) = do
    formatted ← format_fields (split_string line b';')
    others ← format_lines rest
    ok (formatted ++ others)

  -- the content of a formatted file
  unfoldable pub format_file : Bytes → Bytes → Outcome Bytes
  unfolding format_lines trigger_lines
  format_file filename content = do
    results ← format_lines (lines content)
    ok (
        unlines (
          trigger_lines filename (cs_disasm (bytearray_to_string (base64_decode filename)))
          ++ results))

  unfoldable pub format_loop : ℕ → List ResultFile → List ResultFile → Outcome (List ResultFile)
  format_loop unique_idx [] files = ok files
  format_loop unique_idx ((filename, content) ∷ rest) files = do
    text ← format_file filename content
    format_loop (suc unique_idx) rest (
        create_file
          (formatted_filename filename (cs_disasm (bytearray_to_string (base64_decode filename)))
            unique_idx)
          text files)

  -- FormatTriggerPairOutput, on the entries of the output folder
  unfoldable pub format_trigger_pair_output : List ResultFile → Outcome (List ResultFile)
  unfolding format_loop
  format_trigger_pair_output entries = format_loop 0 entries []
