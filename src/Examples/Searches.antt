-- ===== src/Examples/Searches.antt =====
-- Runs of the searches of src/core.cc on a small machine, and of what is made of their files.
use osiris_arm.Common.{
  ◌^◌, ◌≤◌, ◌≡◌, ◌≢◌, Bytes, codes, List, [], ◌∷◌, ◌++◌, map, true, length, ◌==◌, if◌then◌else◌, ok,
  Returns, arith, All,
}
use osiris_arm.Common.Int.{pos, negsuc}
use osiris_arm.Common.Text.{unlines, to_string}
use osiris_arm.CodeGenerator.Printable.{IsPrintable}
use osiris_arm.Utils.Split.{split_string}
use osiris_arm.Utils.Base64.{base64_encode}
use osiris_arm.Filter.Line.{csv_header, result_line_data}
use osiris_arm.Core.{csv_line}
use osiris_arm.Core.Csv.{line_data_of, result_line_data-csv_line}
use osiris_arm.Core.Search.{
  ResultFile, output_line, find_and_output_triggerpairs_with_trigger_equals_measurement,
}
use osiris_arm.Core.Search.Report.{IsFound}
use osiris_arm.Core.Search.Equal.{
  IsResultFile, find_and_output_triggerpairs_with_trigger_equals_measurement_lem,
}
use osiris_arm.Core.Search.EqualEnds.{
  find_and_output_triggerpairs_with_trigger_equals_measurement-Returns,
}
use osiris_arm.Core.Search.EqualSize.{length-find_and_output_triggerpairs}
use osiris_arm.Core.Format.{
  Instruction, delimiter2, formatted_filename, format_fields, format_trigger_pair_output,
}
use osiris_arm.Core.Format.Names.{IsSlashFree, formatted_filename_apart}
use osiris_arm.Core.Format.Result.{AreFormatted}
use osiris_arm.Core.Format.Reports.{format_fields-output_line, format_trigger_pair_output-search}
use osiris_arm.Examples.{toy_sha}
use osiris_arm.Examples.Instructions.{
  nop_instruction, nop-IsWritable, nop_file, loaded, nop_file_loads,
}
use osiris_arm.Examples.Machines.{toy_machine, start}

pub nop-IsPrintable : IsPrintable nop_instruction
nop-IsPrintable = record { uid = omega arith; texts = nop-IsWritable }

result_line_data-csv_line_example :
    result_line_data (csv_line (negsuc 99) nop_instruction nop_instruction nop_instruction)
    ≡ ok (line_data_of (negsuc 99) nop_instruction nop_instruction nop_instruction)
result_line_data-csv_line_example =
    result_line_data-csv_line (negsuc 99) nop_instruction nop_instruction nop_instruction
      (omega arith, omega arith) nop-IsPrintable nop-IsPrintable nop-IsPrintable

abbrev pub equal_search : Returns (
    find_and_output_triggerpairs_with_trigger_equals_measurement toy_machine loaded true
      (negsuc 49)
      (pos 50)
      start)
equal_search =
    find_and_output_triggerpairs_with_trigger_equals_measurement-Returns toy_machine loaded true
      (negsuc 49) (pos 50) start (λ world code pages. tt) (omega arith, tt)

find_and_output_triggerpairs_with_trigger_equals_measurement_lem_example :
    All (IsResultFile loaded (negsuc 49) (pos 50)) equal_search.0.0
    × ((ls : List Bytes) × (equal_search.0.1.0 ≡ unlines (csv_header ∷ ls))
        × All (IsFound loaded (negsuc 49) (pos 50)) ls)
find_and_output_triggerpairs_with_trigger_equals_measurement_lem_example =
    find_and_output_triggerpairs_with_trigger_equals_measurement_lem toy_machine loaded true
      (negsuc 49) (pos 50) start equal_search.1

formatted_filename_apart_example :
    formatted_filename (codes "HyAD1Q==") [] 3 ≢ formatted_filename (codes "HyAD1Q==") [] 4
formatted_filename_apart_example =
    formatted_filename_apart (codes "HyAD1Q==") (codes "HyAD1Q==") [] [] 3 4 (omega arith)
      (omega arith) (λ e. absurd (omega arith))

-- a disassembler that finds a NOP everywhere
abbrev pub toy_disasm : Bytes → List Instruction
toy_disasm bytes = record { mnemonic = codes "nop"; op_str = [] } ∷ []

pub toy_disasm-IsSlashFree : (bs : Bytes) → All IsSlashFree (toy_disasm bs)
toy_disasm-IsSlashFree bs = (
  (
    ((λ e. absurd (omega arith)), ((λ e. absurd (omega arith)), ((λ e. absurd (omega arith)), tt))),
    tt,
  ),
  tt,
)

format_fields-output_line_example :
    format_fields toy_disasm (split_string (output_line nop_instruction (negsuc 99)) b';')
    ≡ ok (
        (if length (toy_disasm nop_instruction.byte_representation) == 0
          then (codes "DISASM ERR (inst: "
              ++ (base64_encode nop_instruction.byte_representation ++ codes ")"))
            ∷ []
          else map
              (λ (i : Instruction). i.mnemonic ++ (codes " " ++ i.op_str))
              (toy_disasm nop_instruction.byte_representation))
        ++ ((codes "TIMING: " ++ to_string (negsuc 99)) ∷ delimiter2 ∷ []))
format_fields-output_line_example =
    format_fields-output_line nop_instruction (negsuc 99) nop-IsWritable.bytes
      (omega arith, omega arith) toy_disasm

few_files : length (equal_search.0).0 ≤ 2 ^ 64
few_files = omega (
  arith,
  length-find_and_output_triggerpairs toy_machine loaded true (negsuc 49) (pos 50) start
      equal_search.1,
)

format_trigger_pair_output-search_example :
    (files : List ResultFile) × (format_trigger_pair_output toy_disasm (equal_search.0).0
      ≡ ok files)
    × AreFormatted toy_disasm 0 (equal_search.0).0 files
format_trigger_pair_output-search_example =
    format_trigger_pair_output-search toy_machine toy_sha nop_file true (negsuc 49) (pos 50)
      toy_disasm (equal_search.0).0 start nop_file_loads equal_search.1 (λ i f e. (i, e)) few_files
      toy_disasm-IsSlashFree
