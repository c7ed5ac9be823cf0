-- ===== src/CodeGenerator/Printable.antt =====
-- The instructions that the constructor of src/code_generator.cc reads from a file, as far as they are printed again.
use osiris_arm.Common.{
  ℕ, ◌+◌, ◌^◌, ◌<◌, ◌≤◌, ◌≡◌, subst, Bytes, str_eq, List, [], ◌∷◌, ◌++◌, inl, inr, Bool-cases, some,
  ◌==◌, length, get_elem?, Outcome, ok, exited, >>=-eq_ok, arith, All, All-append, All-get_elem?,
  get_elem?-some,
}
use osiris_arm.Common.Text.{lines_from, lines}
use osiris_arm.Utils.Split.{split_string, fields, cons_head, Lacks, split_string-fields}
use osiris_arm.Utils.Split.Laws.{split_string_lem}
use osiris_arm.Utils.Base64.Laws.{IsByte}
use osiris_arm.Utils.Base64.Decoded.{base64_decode-IsByte}
use osiris_arm.Utils.Base64.Alphabet.{IsPlain}
use osiris_arm.Utils.Hash.{Sha256, calculate_file_hash_sha256, calculate_file_hash_sha256_end}
use osiris_arm.CodeGenerator.{
  X86Instruction, CodeGenerator, generate_instruction_uid, parse_fields, load_lines, load_content,
  load, create_instruction_from_index, checked_index, header,
}
use osiris_arm.CodeGenerator.Uid.{hex4, generate_instruction_uid_lem}
use osiris_arm.CodeGenerator.Load.{load_content-HasUids}

-- An instruction whose bytes are bytes and whose texts hold no semicolon and no newline.
pub record IsWritable (i : X86Instruction) : Type 0 where
  pub bytes : All IsByte i.byte_representation
  pub assembly : All IsPlain i.assembly_code
  pub category : All IsPlain i.category
  pub extension : All IsPlain i.extension
  pub isa_set : All IsPlain i.isa_set

-- What is printed of an instruction is plain, and its UID is below 2 ^ 32.
pub record IsPrintable (i : X86Instruction) : Type 0 where
  pub uid : i.instruction_uid < 2 ^ 32
  pub texts : IsWritable i

lines_from-Lacks : (cur s : Bytes) → Lacks b'\n' cur → All (Lacks b'\n') (lines_from cur s)
unfolding lines_from
lines_from-Lacks [] [] h = tt
lines_from-Lacks (c ∷ cur) [] h = (h, tt)
lines_from-Lacks [] (c ∷ s) h = elim (Bool-cases (c == b'\n')) [
  | inl e ↦ rw e (tt, lines_from-Lacks [] s tt)
  | inr e ↦ rw e (lines_from-Lacks (c ∷ []) s (ground arith, tt))
]
lines_from-Lacks (d ∷ cur) (c ∷ s) h = elim (Bool-cases (c == b'\n')) [
  | inl e ↦ rw e (h, lines_from-Lacks [] s tt)
  | inr e ↦ rw e (
      lines_from-Lacks (d ∷ (cur ++ c ∷ [])) s
        (h.0, All-append _ cur (c ∷ []) h.1 (ground arith, tt)))
]

fields-Lacks : (d e : ℕ) (s : Bytes) → Lacks e s → All (Lacks e) (fields d s)
unfolding fields
fields-Lacks d e [] h = (tt, tt)
fields-Lacks d e (c ∷ s) (hc, h) = elim (Bool-cases (c == d)) [
  | inl q ↦ rw q (tt, fields-Lacks d e s h)
  | inr q ↦ rw q (front (fields d s) (fields-Lacks d e s h))
]
  where
    front : (fs : List Bytes) → All (Lacks e) fs → All (Lacks e) (cons_head c fs)
    front [] t = ((hc, tt), tt)
    front (f ∷ fs) t = ((hc, t.0), t.1)

both-IsPlain : (s : Bytes) → Lacks b';' s → Lacks b'\n' s → All IsPlain s
both-IsPlain [] h k = tt
both-IsPlain (c ∷ s) h k = ((h.0, k.0), both-IsPlain s h.1 k.1)

All-IsPlain : (fs : List Bytes) → All (Lacks b';') fs → All (Lacks b'\n') fs → All (All IsPlain) fs
All-IsPlain [] h k = tt
All-IsPlain (f ∷ fs) h k = (both-IsPlain f h.0 k.0, All-IsPlain fs h.1 k.1)

split_string-IsPlain :
    (line : Bytes) → Lacks b'\n' line → All (All IsPlain) (split_string line b';')
split_string-IsPlain line h =
    All-IsPlain (split_string line b';') (split_string_lem line b';').1
      (rw (split_string-fields line b';') (fields-Lacks b';' b'\n' line h))

parse_fields-plain :
    (hash : Bytes) (i : ℕ) (fs : List Bytes) (x : X86Instruction)
    → All (All IsPlain) fs
    → parse_fields hash i fs ≡ ok x
    → IsWritable x
unfolding parse_fields
parse_fields-plain hash i (a ∷ b ∷ c ∷ d ∷ e ∷ []) x (pa, (pb, (pc, (pd, (pe, _))))) h =
    let (uid, made, built) = >>=-eq_ok (generate_instruction_uid hash i) _ h in
    subst IsWritable (same built) (record {
      bytes = base64_decode-IsByte a;
      assembly = pb;
      category = pc;
      extension = pd;
      isa_set = pe;
    })
  where
    same : {y z : X86Instruction} → ok y ≡ ok z → y ≡ z
    same p = cc
parse_fields-plain hash i [] x p h = cc
parse_fields-plain hash i _ x p h = cc

load_lines-plain :
    (hash : Bytes) (n : ℕ) (ls : List Bytes) (list : List X86Instruction)
    {all : List X86Instruction}
    → All (Lacks b'\n') ls
    → All IsWritable list
    → load_lines hash n ls list ≡ ok all
    → All IsWritable all
unfolding load_lines
load_lines-plain hash n [] list {all} hl old h = let same : list ≡ all = cc in rw (← same) old
load_lines-plain hash n (line ∷ ls) list {all} (hline, hl) old h =
    let (x, parsed, rest) = >>=-eq_ok (parse_fields hash n (split_string line b';')) _ h in
    load_lines-plain hash (n + 1) ls (list ++ x ∷ []) {all = all} hl
      (All-append IsWritable list (x ∷ []) old (
        parse_fields-plain hash n (split_string line b';') x (split_string-IsPlain line hline)
            parsed,
        tt,
      ))
      rest

load_content-plain :
    (hash : Bytes) (ls : List Bytes) {g : CodeGenerator}
    → All (Lacks b'\n') ls
    → load_content hash ls ≡ ok g
    → All IsWritable g.instruction_list
unfolding load_content
load_content-plain hash [] hl h = cc
load_content-plain hash (line ∷ rest) {g} (_, hl) h = elim (Bool-cases (str_eq line header)) [
  | inr e ↦ absurd (never (rw e at h))
  | inl e ↦
      let (list, loaded, built) = >>=-eq_ok (load_lines hash 0 rest []) _ (rw e at h) in
      let made : record { instruction_list = list; instruction_file_sha256hash = hash } ≡ g = cc in
      rw (← made) (load_lines-plain hash 0 rest [] {all = list} hl tt loaded)
]
  where
    never : ◌≡◌ {A = Outcome CodeGenerator} (exited 1) (ok g) → ⊥
    never p = cc

made_at :
    (list : List X86Instruction) (i : ℕ) (x : X86Instruction)
    → checked_index list i ≡ ok x
    → get_elem? list i ≡ some x
unfolding checked_index
made_at list i x h = ground arith

uid_fits :
    (start : Bytes) (v i uid : ℕ)
    → v < 2 ^ 16
    → generate_instruction_uid (start ++ hex4 v) i ≡ ok uid
    → uid < 2 ^ 32
uid_fits start v i uid fits h = let e = generate_instruction_uid_lem start v i fits in ground arith

pub load-IsWritable :
    (sha : Sha256) (content : Bytes) {g : CodeGenerator}
    → load sha (some content) ≡ ok g
    → All IsWritable g.instruction_list
unfolding load lines
load-IsWritable sha content h =
    load_content-plain (calculate_file_hash_sha256 sha (some content)) (lines content)
      (lines_from-Lacks [] content tt) h

index_fits :
    (start : Bytes) (v i uid : ℕ)
    → v < 2 ^ 16
    → generate_instruction_uid (start ++ hex4 v) i ≡ ok uid
    → i < 2 ^ 16
index_fits start v i uid fits h =
    let e = generate_instruction_uid_lem start v i fits in ground arith

last_below :
    {A : Type 0} (bound : ℕ) (xs : List A)
    → ((i : ℕ) (x : A) → get_elem? xs i ≡ some x → i < bound)
    → length xs ≤ bound
last_below bound [] h = omega arith
last_below bound (x ∷ xs) h =
    let (y, e) = get_elem?-some (x ∷ xs) (length xs) (omega arith) in
    omega (arith, h (length xs) y e)

-- A file with more than 2 ^ 16 instructions is not loaded.
pub length-load_le :
    (sha : Sha256) (content : Bytes) {g : CodeGenerator}
    → load sha (some content) ≡ ok g
    → length g.instruction_list ≤ 2 ^ 16
unfolding load
length-load_le sha content {g} h =
    let hash = calculate_file_hash_sha256 sha (some content) in
    let (start, v, e, fits) = calculate_file_hash_sha256_end sha content in
    let (uids, same, size) = load_content-HasUids hash (lines content) h in
    last_below (2 ^ 16) g.instruction_list (λ i x found.
      let made : generate_instruction_uid (start ++ hex4 v) i ≡ ok x.instruction_uid =
        rw e at (uids i x found) in
      index_fits start v i x.instruction_uid fits made)

-- The generator creates these instructions.
abbrev pub IsOf : CodeGenerator → X86Instruction → Type 0
IsOf g i = (instruction_idx : ℕ) × (create_instruction_from_index g instruction_idx ≡ ok i)

pub found_of_created :
    (g : CodeGenerator) (i : ℕ) (x : X86Instruction)
    → create_instruction_from_index g i ≡ ok x
    → get_elem? g.instruction_list i ≡ some x
unfolding create_instruction_from_index
found_of_created g i x created = made_at g.instruction_list i x created

-- Every instruction that the generator of a file creates can be printed: the UID is below 2 ^ 32, the bytes
-- are bytes, and the texts hold no semicolon and no newline.
pub load-IsPrintable :
    (sha : Sha256) (content : Bytes) {g : CodeGenerator} (i : X86Instruction)
    → load sha (some content) ≡ ok g
    → IsOf g i
    → IsPrintable i
unfolding load lines
load-IsPrintable sha content {g} x h (i, created) =
    let found = found_of_created g i x created in
    let hash = calculate_file_hash_sha256 sha (some content) in
    let (start, v, e, fits) = calculate_file_hash_sha256_end sha content in
    let (uids, same, size) = load_content-HasUids hash (lines content) h in
    let made : generate_instruction_uid (start ++ hex4 v) i ≡ ok x.instruction_uid =
      rw e at (uids i x found) in
    record {
      uid = uid_fits start v i x.instruction_uid fits made;
      texts =
          All-get_elem? IsWritable g.instruction_list i x
            (load_content-plain hash (lines content) (lines_from-Lacks [] content tt) h) found;
    }
