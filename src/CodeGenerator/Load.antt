-- ===== src/CodeGenerator/Load.antt =====
-- The constructor of the CodeGenerator in src/code_generator.cc, and the UIDs
-- and names of the instructions.
use osiris_arm.Common.{
  ℕ, suc, ◌+◌, ◌*◌, ◌/◌, ◌%◌, ◌^◌, ◌<◌, ◌≡◌, refl, sym, ap, ◌∙◌, Bytes, str_eq, List, [], ◌∷◌, ◌++◌,
  true, ◌==◌, inl, inr, Bool-cases, Option, none, some, ltb, leb, if◌then◌else◌, length, get_elem?,
  Outcome, ok, exited, aborted, >>=-eq_ok, arith, length-append, get_elem?-none, get_elem?-snoc,
}
use osiris_arm.Utils.Split.{split_string}
use osiris_arm.Common.Text.{lines}
use osiris_arm.Utils.Hash.{Sha256, calculate_file_hash_sha256, calculate_file_hash_sha256_end}
use osiris_arm.CodeGenerator.{
  X86Instruction, CodeGenerator, generate_instruction_uid, parse_fields, load_lines, load_content,
  load, create_instruction_from_uid, create_instruction_from_index, checked_index, header,
  instruction_uid_to_instruction_index,
}
use osiris_arm.CodeGenerator.Uid.{
  hex4, generate_instruction_uid_lem, instruction_uid_to_instruction_index_lem,
}

-- Each instruction has the UID of its index.
abbrev pub HasUids : Bytes → List X86Instruction → Type 0
HasUids hash list =
    (i : ℕ) (x : X86Instruction)
    → get_elem? list i ≡ some x
    → generate_instruction_uid hash i ≡ ok x.instruction_uid

parse_fields_uid :
    (hash : Bytes) (i : ℕ) (fs : List Bytes) (x : X86Instruction)
    → parse_fields hash i fs ≡ ok x
    → generate_instruction_uid hash i ≡ ok x.instruction_uid
unfolding parse_fields
parse_fields_uid hash i (a ∷ b ∷ c ∷ d ∷ e ∷ []) x h =
    let (uid, made, built) = >>=-eq_ok (generate_instruction_uid hash i) _ h in
    made ∙ ap ok (ok_uid built)
  where
    ok_uid : {y z : X86Instruction} → ok y ≡ ok z → y.instruction_uid ≡ z.instruction_uid
    ok_uid p = cc
parse_fields_uid hash i [] x h = cc
parse_fields_uid hash i _ x h = cc

snoc-HasUids :
    (hash : Bytes) (list : List X86Instruction) (x : X86Instruction)
    → HasUids hash list
    → generate_instruction_uid hash (length list) ≡ ok x.instruction_uid
    → HasUids hash (list ++ x ∷ [])
snoc-HasUids hash list x old new i y h = elim (get_elem?-snoc list x i y h) [
  | inl e ↦ old i y e
  | inr (e, f) ↦ rw (e, ← f) new
]

load_lines-HasUids :
    (hash : Bytes) (ls : List Bytes) (list : List X86Instruction) {all : List X86Instruction}
    → HasUids hash list
    → load_lines hash (length list) ls list ≡ ok all
    → HasUids hash all × (length all ≡ length list + length ls)
unfolding load_lines
load_lines-HasUids hash [] list {all} old h =
    let same : list ≡ all = cc in rw (← same) (old, omega arith)
load_lines-HasUids hash (line ∷ ls) list {all} old h =
    let (x, parsed, rest) =
      >>=-eq_ok (parse_fields hash (length list) (split_string line b';')) _ h in
    let size : length list + 1 ≡ length (list ++ x ∷ []) =
      omega (arith, length-append list (x ∷ [])) in
    let (uids, total) =
      load_lines-HasUids hash ls (list ++ x ∷ []) {all = all}
        (snoc-HasUids hash list x old
          (parse_fields_uid hash (length list) (split_string line b';') x parsed))
        (rw size at rest) in
    (uids, omega (arith, length-append list (x ∷ [])))

pub load_content-HasUids :
    (hash : Bytes) (ls : List Bytes) {g : CodeGenerator}
    → load_content hash ls ≡ ok g
    → HasUids hash g.instruction_list
      × (g.instruction_file_sha256hash ≡ hash)
      × (suc (length g.instruction_list) ≡ length ls)
unfolding load_content
load_content-HasUids hash [] h = cc
load_content-HasUids hash (line ∷ rest) {g} h = elim (Bool-cases (str_eq line header)) [
  | inr e ↦ absurd (never (rw e at h))
  | inl e ↦
      let (list, loaded, built) = >>=-eq_ok (load_lines hash 0 rest []) _ (rw e at h) in
      let (uids, total) =
        load_lines-HasUids hash rest [] {all = list} (λ i x n. absurd (nothing n)) loaded in
      let made : record { instruction_list = list; instruction_file_sha256hash = hash } ≡ g = cc in
      rw (← made) (uids, refl, omega arith)
]
  where
    never : ◌≡◌ {A = Outcome CodeGenerator} (exited 1) (ok g) → ⊥
    never p = cc

    nothing : {x : X86Instruction} → ◌≡◌ {A = Option X86Instruction} none (some x) → ⊥
    nothing p = cc

found_checked :
    (list : List X86Instruction) (i : ℕ) (x : X86Instruction)
    → get_elem? list i ≡ some x
    → checked_index list i ≡ ok x
unfolding checked_index
found_checked list i x found = elim (Bool-cases (ltb (length list) i)) [
  | inl e ↦ let beyond = get_elem?-none list i (ground arith) in absurd (cc)
  | inr e ↦ rw (e, found) refl
]

pub found_by_index :
    (g : CodeGenerator) (i : ℕ) (x : X86Instruction)
    → get_elem? g.instruction_list i ≡ some x
    → create_instruction_from_index g i ≡ ok x
unfolding create_instruction_from_index
found_by_index g i x found = found_checked g.instruction_list i x found

made_small :
    (start : Bytes) (v i uid : ℕ)
    → v < 2 ^ 16
    → generate_instruction_uid (start ++ hex4 v) i ≡ ok uid
    → (i < 2 ^ 16) × (uid ≡ v * 2 ^ 16 + i)
made_small start v i uid fits made =
    let value : (if leb i 65535 then ok (v * 2 ^ 16 + i) else aborted) ≡ ok uid =
      sym (generate_instruction_uid_lem start v i fits) ∙ made in
    elim (Bool-cases (leb i 65535)) [
      | inl e ↦ (ground arith, ok_eq (rw e at value))
      | inr e ↦ absurd (never (rw e at value))
    ]
  where
    ok_eq : ok (v * 2 ^ 16 + i) ≡ ok uid → uid ≡ v * 2 ^ 16 + i
    ok_eq p = cc

    never : ◌≡◌ {A = Outcome ℕ} aborted (ok uid) → ⊥
    never p = cc

found_by_uid :
    (g : CodeGenerator) (start : Bytes) (v : ℕ)
    → v < 2 ^ 16
    → g.instruction_file_sha256hash ≡ start ++ hex4 v
    → (i : ℕ) (x : X86Instruction) → get_elem? g.instruction_list i ≡ some x
    → generate_instruction_uid g.instruction_file_sha256hash i ≡ ok x.instruction_uid
    → create_instruction_from_uid g x.instruction_uid ≡ ok x
found_by_uid g start v fits same i x found made =
    let (small, uid) = made_small start v i x.instruction_uid fits (rw same at made) in
    let test : (x.instruction_uid / 2 ^ 16 % 2 ^ 16 == v) ≡ true = ground arith in
    let low : x.instruction_uid % 2 ^ 16 ≡ i = omega arith in
    let index : instruction_uid_to_instruction_index (start ++ hex4 v) x.instruction_uid ≡ ok i =
      rw (instruction_uid_to_instruction_index_lem start v x.instruction_uid fits)
        (rw (test, low) refl) in
    unfold create_instruction_from_uid in
    rw (same, index) (found_checked g.instruction_list i x found)

-- A file that loads gives one instruction for each line behind the header.
pub length-load :
    (sha : Sha256) (content : Bytes) {g : CodeGenerator}
    → load sha (some content) ≡ ok g
    → suc (length g.instruction_list) ≡ length (lines content)
unfolding load
length-load sha content h =
    (load_content-HasUids (calculate_file_hash_sha256 sha (some content)) (lines content) h).2

-- In a file that loads, each instruction has the UID of its place, and both of its names, index and
-- UID, give it back.
pub load_lem :
    (sha : Sha256) (content : Bytes) {g : CodeGenerator} (i : ℕ) (x : X86Instruction)
    → load sha (some content) ≡ ok g
    → get_elem? g.instruction_list i ≡ some x
    → (generate_instruction_uid g.instruction_file_sha256hash i ≡ ok x.instruction_uid)
      × (create_instruction_from_index g i ≡ ok x)
      × (create_instruction_from_uid g x.instruction_uid ≡ ok x)
unfolding load
load_lem sha content {g} i x h found =
    let hash = calculate_file_hash_sha256 sha (some content) in
    let (uids, same, size) = load_content-HasUids hash (lines content) h in
    let (start, v, ends, fits) = calculate_file_hash_sha256_end sha content in
    let made : generate_instruction_uid g.instruction_file_sha256hash i ≡ ok x.instruction_uid =
      rw same (uids i x found) in
    (made, found_by_index g i x found, found_by_uid g start v fits (same ∙ ends) i x found made)
