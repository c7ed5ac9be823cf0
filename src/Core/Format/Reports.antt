-- ===== src/Core/Format/Reports.antt =====
-- src/core.cc: FormatTriggerPairOutput on the folder of a search.
use osiris_arm.Common.{
  ℕ, ◌^◌, ◌≤◌, ◌≡◌, ◌≢◌, refl, ap, ◌∙◌, Bytes, codes, List, [], ◌∷◌, ◌++◌, map, Bool, some, length,
  ◌==◌, if◌then◌else◌, get_elem?, ok, Returns, >>=-Returns, arith, All, All-append, All-get_elem?,
  All-of_get_elem?,
}
use osiris_arm.Common.Int.{ℤ}
use osiris_arm.Common.Text.{to_string}
use osiris_arm.Common.Lines.{lines-unlines}
use osiris_arm.Utils.Hash.{Sha256}
use osiris_arm.Utils.Split.{Lacks, split_string}
use osiris_arm.Utils.Split.Laws.{split_string-append, split_string_of_Lacks}
use osiris_arm.Utils.Bytes.{bytearray_to_string_lem}
use osiris_arm.Utils.Base64.{base64_encode}
use osiris_arm.Utils.Base64.Laws.{IsByte}
use osiris_arm.Utils.Base64.RoundTrip.{base64_decode-base64_encode}
use osiris_arm.Utils.Base64.Alphabet.{base64_encode-IsPlain}
use osiris_arm.CodeGenerator.{X86Instruction, CodeGenerator, load}
use osiris_arm.CodeGenerator.Printable.{IsOf, load-IsPrintable}
use osiris_arm.Executor.Machine.{Machine}
use osiris_arm.Executor.Experiment.{Executor}
use osiris_arm.Core.Csv.{IsInt, to_string-IsPlain}
use osiris_arm.Core.Cleanup.Reload.{plain-Lacks, plain_newline}
use osiris_arm.Core.Search.{
  ResultFile, output_line, find_and_output_triggerpairs_with_trigger_equals_measurement,
}
use osiris_arm.Core.Search.Readable.{near-IsInt}
use osiris_arm.Core.Search.Equal.{
  IsOutputLine, IsResultFile, find_and_output_triggerpairs_with_trigger_equals_measurement_lem,
}
use osiris_arm.Core.Format.{
  Instruction, instruction_lines, or_error, delimiter2, format_fields, format_lines, format_file,
  format_trigger_pair_output,
}
use osiris_arm.Core.Format.Names.{IsSlashFree}
use osiris_arm.Core.Format.Result.{AreFormatted, IsFormattable, format_trigger_pair_output_lem}

instruction_lines-map :
    (is : List Instruction)
    → instruction_lines is ≡ map (λ (i : Instruction). i.mnemonic ++ (codes " " ++ i.op_str)) is
unfolding instruction_lines
instruction_lines-map [] = refl
instruction_lines-map (i ∷ is) = rw (instruction_lines-map is) refl

or_error-map :
    (error : Bytes) (is : List Instruction)
    → or_error error is ≡ (
        if length is == 0
        then error ∷ []
        else map (λ (i : Instruction). i.mnemonic ++ (codes " " ++ i.op_str)) is)
unfolding or_error
or_error-map error [] = refl
or_error-map error (i ∷ is) = rw (instruction_lines-map (i ∷ is)) (ground arith)

module _ (reset : X86Instruction) (result : ℤ) (bytes : All IsByte reset.byte_representation)
    (fits : IsInt result) where
  split-output_line :
      split_string (output_line reset result) b';'
      ≡ base64_encode reset.byte_representation ∷ to_string result ∷ []
  unfolding output_line
  split-output_line =
      let encoded = base64_encode reset.byte_representation in
      split_string-append encoded (to_string result) b';'
        (plain-Lacks encoded (base64_encode-IsPlain _ bytes))
      ∙ ap (◌∷◌ encoded) (
          split_string_of_Lacks (to_string result) b';'
            (plain-Lacks _ (to_string-IsPlain result fits)))

  output_line_newline : Lacks b'\n' (output_line reset result)
  unfolding output_line
  output_line_newline =
      let encoded = base64_encode reset.byte_representation in
      All-append (λ c. c ≢ b'\n') encoded (b';' ∷ to_string result)
        (plain_newline encoded (base64_encode-IsPlain _ bytes))
        (omega arith, plain_newline _ (to_string-IsPlain result fits))

  -- A line that the search writes for a reset is formatted as the disassembly of the bytes of the reset, a
  -- line of mnemonic and operands for each instruction, or an error line with their encoding when there is
  -- none, and then the timing, for bytes and a timing that is an int.
  pub format_fields-output_line :
      (cs_disasm : Bytes → List Instruction)
      → format_fields cs_disasm (split_string (output_line reset result) b';')
        ≡ ok (
            (if length (cs_disasm reset.byte_representation) == 0
              then (codes "DISASM ERR (inst: "
                  ++ (base64_encode reset.byte_representation ++ codes ")"))
                ∷ []
              else map
                  (λ (i : Instruction). i.mnemonic ++ (codes " " ++ i.op_str))
                  (cs_disasm reset.byte_representation))
            ++ ((codes "TIMING: " ++ to_string result) ∷ delimiter2 ∷ []))
  unfolding format_fields
  format_fields-output_line cs_disasm =
      rw
        (
          split-output_line,
          base64_decode-base64_encode reset.byte_representation bytes,
          bytearray_to_string_lem reset.byte_representation,
          or_error-map
              (codes "DISASM ERR (inst: " ++ (base64_encode reset.byte_representation ++ codes ")"))
              (cs_disasm reset.byte_representation),
        )
        refl

nil-Returns : (cs_disasm : Bytes → List Instruction) → Returns (format_lines cs_disasm [])
unfolding format_lines
nil-Returns cs_disasm = (_, refl)

cons-Returns :
    (cs_disasm : Bytes → List Instruction) (l : Bytes) (ls : List Bytes) {block : List Bytes}
    → format_fields cs_disasm (split_string l b';') ≡ ok block
    → Returns (format_lines cs_disasm ls)
    → Returns (format_lines cs_disasm (l ∷ ls))
unfolding format_lines
cons-Returns cs_disasm l ls made rest =
    rw made (>>=-Returns (format_lines cs_disasm ls) _ rest (λ others. (_, refl)))

module _ (cs_disasm : Bytes → List Instruction) (g : CodeGenerator) (low high : ℤ)
    (are_bytes : (i : X86Instruction) → IsOf g i → All IsByte i.byte_representation) where
  output_lines-Returns :
      (ls : List Bytes)
      → All (IsOutputLine g low high) ls
      → Returns (format_lines cs_disasm ls) × All (Lacks b'\n') ls
  output_lines-Returns [] h = (nil-Returns cs_disasm, tt)
  output_lines-Returns (l ∷ ls) ((result, reset, e, of, out, near), h) =
      let fits = near-IsInt result near in
      let (others, plain) = output_lines-Returns ls h in
      let made = format_fields-output_line reset result (are_bytes reset of) fits cs_disasm in
      rw e (
        cons-Returns cs_disasm (output_line reset result) ls made others,
        (output_line_newline reset result (are_bytes reset of) fits, plain),
      )

  result_file-IsFormattable :
      (f : ResultFile) → IsResultFile g low high f → IsFormattable cs_disasm f
  unfolding format_file
  result_file-IsFormattable f (trigger, ls, named, free, e, some_line, of, awake, h) =
      let (results, plain) = output_lines-Returns ls h in
      (
        free,
        rw (e, lines-unlines ls plain)
            (>>=-Returns (format_lines cs_disasm ls) _ results (λ formatted. (_, refl))),
      )

-- The folder of the search with equal trigger and measurement, with the instructions of a loaded file, is
-- formatted to the end in whatever order its files are listed, at most 2 ^ 64 of them, when no text of the
-- disassembler has a slash: each file has one formatted file.
pub format_trigger_pair_output-search :
    (m : Machine) (sha : Sha256) (content : Bytes) (only_in_speculation : Bool) (low high : ℤ)
    (cs_disasm : Bytes → List Instruction) (entries : List ResultFile) {g : CodeGenerator}
    (s : Executor m) {r : List ResultFile × (Bytes × Executor m)}
    → load sha (some content) ≡ ok g
    → find_and_output_triggerpairs_with_trigger_equals_measurement m g only_in_speculation low high
        s
      ≡ ok r
    → ((i : ℕ) (f : ResultFile)
        → get_elem? entries i ≡ some f
        → (j : ℕ) × (get_elem? r.0 j ≡ some f))
    → length entries ≤ 2 ^ 64
    → ((bs : Bytes) → All IsSlashFree (cs_disasm bs))
    → (files : List ResultFile) × (format_trigger_pair_output cs_disasm entries ≡ ok files)
      × AreFormatted cs_disasm 0 entries files
format_trigger_pair_output-search m sha content only_in_speculation low high cs_disasm entries {g} s
      {r} loaded searched listed small slash_free =
    let written =
      (find_and_output_triggerpairs_with_trigger_equals_measurement_lem m g only_in_speculation low
        high s searched).0 in
    let bytes : (i : X86Instruction) → IsOf g i → All IsByte i.byte_representation =
      λ i of. (load-IsPrintable sha content i loaded of).texts.bytes in
    format_trigger_pair_output_lem cs_disasm slash_free entries small (
      All-of_get_elem? (IsFormattable cs_disasm) entries (λ i f e.
        let (j, found) = listed i f e in
        result_file-IsFormattable cs_disasm g low high bytes f
          (All-get_elem? (IsResultFile g low high) r.0 j f written found)))
