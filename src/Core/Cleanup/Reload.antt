-- ===== src/Core/Cleanup/Reload.antt =====
-- src/core.cc and src/code_generator.cc: lines in the format that
-- OutputNonFaultingInstructions writes, and the constructor of the CodeGenerator on them.
use osiris_arm.Common.{
  ℕ, ◌+◌, ◌*◌, ◌^◌, ◌≤◌, ◌<◌, ◌≡◌, refl, ap, Bytes, List, [], ◌∷◌, ◌++◌, some, length, map, ok,
  arith, append-nil, append_assoc, All, All-append, str_eq_refl, codes,
}
use osiris_arm.Common.Text.{lines, unlines}
use osiris_arm.Common.Lines.{lines-unlines}
use osiris_arm.Utils.Split.{split_string, Lacks, join, count}
use osiris_arm.Utils.Split.Laws.{count-Lacks, split_string-join}
use osiris_arm.Utils.Base64.{base64_encode}
use osiris_arm.Utils.Base64.RoundTrip.{base64_decode-base64_encode}
use osiris_arm.Utils.Base64.Alphabet.{IsPlain, base64_encode-IsPlain}
use osiris_arm.Utils.Hash.{Sha256, calculate_file_hash_sha256, calculate_file_hash_sha256_end}
use osiris_arm.CodeGenerator.{X86Instruction, parse_fields, load_lines, load_content, load, header}
use osiris_arm.CodeGenerator.Uid.{hex4, generate_instruction_uid_lem}
use osiris_arm.CodeGenerator.Printable.{IsWritable}
use osiris_arm.Core.Cleanup.{instruction_line}

-- the instruction with another UID
abbrev pub with_uid : ℕ → X86Instruction → X86Instruction
with_uid uid i = record i { instruction_uid = uid }

-- instructions of a file with the UIDs that follow a first one
abbrev pub with_uids : ℕ → List X86Instruction → List X86Instruction
with_uids uid [] = []
with_uids uid (i ∷ is) = with_uid uid i ∷ with_uids (uid + 1) is

-- the five fields of a line
abbrev line_fields : X86Instruction → List Bytes
line_fields i =
    base64_encode i.byte_representation
    ∷ i.assembly_code
    ∷ i.category
    ∷ i.extension
    ∷ i.isa_set
    ∷ []

pub plain-Lacks : (s : Bytes) → All IsPlain s → Lacks b';' s
plain-Lacks [] h = tt
plain-Lacks (c ∷ s) (hc, h) = (hc.0, plain-Lacks s h)

pub plain_newline : (s : Bytes) → All IsPlain s → Lacks b'\n' s
plain_newline [] h = tt
plain_newline (c ∷ s) (hc, h) = (hc.1, plain_newline s h)

instruction_line-join : (i : X86Instruction) → instruction_line i ≡ join b';' (line_fields i)
unfolding instruction_line join
instruction_line-join i = refl

split-instruction_line :
    (i : X86Instruction) → IsWritable i → split_string (instruction_line i) b';' ≡ line_fields i
split-instruction_line i w = rw (instruction_line-join i) (
    split_string-join (line_fields i) b';' (λ e. cc)
      (
        plain-Lacks _ (base64_encode-IsPlain i.byte_representation w.bytes),
        (
          plain-Lacks _ w.assembly,
          (plain-Lacks _ w.category, (plain-Lacks _ w.extension, (plain-Lacks _ w.isa_set, tt))),
        ),
      ))

semicolon : (s t : Bytes) → Lacks b'\n' s → Lacks b'\n' t → Lacks b'\n' (s ++ (codes ";" ++ t))
semicolon s t hs ht = All-append _ s (codes ";" ++ t) hs ((λ e. absurd (omega arith)), ht)

line_newline : (i : X86Instruction) → IsWritable i → Lacks b'\n' (instruction_line i)
unfolding instruction_line
line_newline i w =
    semicolon _ _ (plain_newline _ (base64_encode-IsPlain i.byte_representation w.bytes)) (
      semicolon _ _ (plain_newline _ w.assembly) (
        semicolon _ _ (plain_newline _ w.category)
          (semicolon _ _ (plain_newline _ w.extension) (plain_newline _ w.isa_set))))

lines_newline :
    (is : List X86Instruction) → All IsWritable is → All (Lacks b'\n') (map instruction_line is)
lines_newline [] h = tt
lines_newline (i ∷ is) (w, h) = (line_newline i w, lines_newline is h)

module _ (start : Bytes) (v : ℕ) (fits : v < 2 ^ 16) where
  parse-line_fields :
      (n : ℕ) (i : X86Instruction)
      → n < 2 ^ 16
      → IsWritable i
      → parse_fields (start ++ hex4 v) n (line_fields i) ≡ ok (with_uid (v * 2 ^ 16 + n) i)
  unfolding parse_fields
  parse-line_fields n i small w =
      rw
        (
          generate_instruction_uid_lem start v n fits,
          base64_decode-base64_encode i.byte_representation w.bytes,
        )
        (ground arith)

  load_lines-map :
      (n : ℕ) (is list : List X86Instruction)
      → n + length is ≤ 2 ^ 16
      → All IsWritable is
      → load_lines (start ++ hex4 v) n (map instruction_line is) list
        ≡ ok (list ++ with_uids (v * 2 ^ 16 + n) is)
  unfolding load_lines
  load_lines-map n [] list small h = rw (append-nil list) refl
  load_lines-map n (i ∷ is) list small (w, h) =
      rw
        (
          split-instruction_line i w,
          parse-line_fields n i (omega arith) w,
          load_lines-map (n + 1) is (list ++ with_uid (v * 2 ^ 16 + n) i ∷ []) (omega arith) h,
          append_assoc,
        )
        (ap (λ u. ok (list ++ with_uid (v * 2 ^ 16 + n) i ∷ with_uids u is)) (omega arith))

  load_content-map :
      (is : List X86Instruction)
      → length is ≤ 2 ^ 16
      → All IsWritable is
      → load_content (start ++ hex4 v) (header ∷ map instruction_line is)
        ≡ ok (record {
          instruction_list = with_uids (v * 2 ^ 16) is;
          instruction_file_sha256hash = start ++ hex4 v;
        })
  unfolding load_content
  load_content-map is small h =
      rw (str_eq_refl header, load_lines-map 0 is [] (omega arith) h)
        (ap
          (λ n. ok (record {
            instruction_list = with_uids n is;
            instruction_file_sha256hash = start ++ hex4 v;
          }))
          (omega arith))

header_newline : Lacks b'\n' header
unfolding count
header_newline = count-Lacks b'\n' header refl

-- At most 2 ^ 16 instructions, their texts without semicolons and newlines, written in the format of the
-- instruction file, are loaded again: the constructor succeeds and has the same instructions in the same
-- order. It keeps the hash of the new file, and the UIDs count up from 2 ^ 16 times the number that the
-- last four digits of this hash are in hexadecimal.
pub load-unlines :
    (sha : Sha256) (is : List X86Instruction)
    → length is ≤ 2 ^ 16
    → All IsWritable is
    → (start : Bytes) × (v : ℕ) × (v < 2 ^ 16)
      × (calculate_file_hash_sha256 sha (some (unlines (header ∷ map instruction_line is)))
          ≡ start ++ hex4 v)
      × (load sha (some (unlines (header ∷ map instruction_line is)))
          ≡ ok (record {
            instruction_list = with_uids (v * 2 ^ 16) is;
            instruction_file_sha256hash = start ++ hex4 v;
          }))
unfolding load
load-unlines sha is small h =
    let text = unlines (header ∷ map instruction_line is) in
    let (start, v, e, fits) = calculate_file_hash_sha256_end sha text in
    let read : lines text ≡ header ∷ map instruction_line is =
      lines-unlines (header ∷ map instruction_line is) (header_newline, lines_newline is h) in
    (start, v, fits, e, rw (read, e) (load_content-map start v fits is small h))
