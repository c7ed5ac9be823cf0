-- ===== src/Core/Format/Result.antt =====
-- src/core.cc: the files that FormatTriggerPairOutput writes.
use osiris_arm.Common.{
  ℕ, suc, ◌+◌, ◌^◌, ◌<◌, ◌≤◌, ◌≡◌, ◌≢◌, refl, sym, ◌∙◌, Bytes, str_eq, str_eq_iff, List, [], ◌∷◌,
  ◌++◌, false, inl, inr, Bool-cases, length, ok, Returns, arith, All, All-append, append-nil,
  append_assoc,
}
use osiris_arm.Common.Text.{contains, starts_with}
use osiris_arm.Utils.Split.{Lacks}
use osiris_arm.Utils.Bytes.{bytearray_to_string}
use osiris_arm.Utils.Base64.{base64_decode}
use osiris_arm.Core.Search.{ResultFile, strip_slashes, remove_file, create_file}
use osiris_arm.Core.Format.{
  Instruction, formatted_filename, format_file, format_loop, format_trigger_pair_output,
}
use osiris_arm.Core.Format.Names.{IsSlashFree, formatted_filename_apart, formatted_filename-Lacks}

Lacks-contains : (d : ℕ) (s : Bytes) → Lacks d s → contains (d ∷ []) s ≡ false
unfolding contains starts_with
Lacks-contains d [] h = refl
Lacks-contains d (c ∷ s) (hc, h) = ground (arith, Lacks-contains d s h)

strip-Lacks : (s : Bytes) → Lacks b'/' s → strip_slashes s ≡ s
unfolding strip_slashes
strip-Lacks [] h = refl
strip-Lacks (c ∷ s) (hc, h) = ground arith

remove_file_of_new :
    (name : Bytes) (files : List ResultFile)
    → All (λ f. f.0 ≢ name) files
    → remove_file name files ≡ files
unfolding remove_file
remove_file_of_new name [] h = refl
remove_file_of_new name ((other, content) ∷ files) (hf, h) = elim (Bool-cases (str_eq other name)) [
  | inl e ↦ absurd (hf ((str_eq_iff other name).0 e))
  | inr e ↦ rw (e, remove_file_of_new name files h) refl
]

create_file_of_new :
    (name content : Bytes) (files : List ResultFile)
    → name ≢ []
    → Lacks b'/' name
    → All (λ f. f.0 ≢ name) files
    → create_file name content files ≡ files ++ (name, content) ∷ []
unfolding create_file
create_file_of_new name content files some_name free new = elim (Bool-cases (str_eq name [])) [
  | inl e ↦ absurd (some_name ((str_eq_iff name []).0 e))
  | inr e ↦
      rw
        (strip-Lacks name free, e, Lacks-contains b'/' name free, remove_file_of_new name files new)
        refl
]

module _ (cs_disasm : Bytes → List Instruction) where
  -- the name of the formatted file of an entry
  abbrev pub new_name : Bytes → ℕ → Bytes
  new_name filename unique_idx =
      formatted_filename filename (cs_disasm (bytearray_to_string (base64_decode filename)))
        unique_idx

  -- One formatted file for each entry, in their order, its name made with the index of its place and its
  -- content the formatted one.
  abbrev pub AreFormatted : ℕ → List ResultFile → List ResultFile → Type 0
  AreFormatted unique_idx [] [] = Unit
  AreFormatted unique_idx [] (f ∷ fs) = ⊥
  AreFormatted unique_idx (e ∷ es) [] = ⊥
  AreFormatted unique_idx (e ∷ es) (f ∷ fs) =
      (f.0 ≡ new_name e.0 unique_idx)
      × (format_file cs_disasm e.0 e.1 ≡ ok f.1)
      × AreFormatted (suc unique_idx) es fs

  -- An entry whose name has no slash and whose lines have their fields.
  abbrev pub IsFormattable : ResultFile → Type 0
  IsFormattable e = Lacks b'/' e.0 × Returns (format_file cs_disasm e.0 e.1)

  -- files written for smaller indices
  abbrev AreOlder : ℕ → List ResultFile → Type 0
  AreOlder unique_idx = All (λ f. (e : Bytes) × (j : ℕ) × (f.0 ≡ new_name e j) × (j < unique_idx))

  older_weaken : (i : ℕ) (fs : List ResultFile) → AreOlder i fs → AreOlder (suc i) fs
  older_weaken i [] h = tt
  older_weaken i (f ∷ fs) ((e, j, same, less), h) = ((e, j, same, omega arith), older_weaken i fs h)

  new_among :
      (filename : Bytes) (i : ℕ) (fs : List ResultFile)
      → i < 2 ^ 64
      → AreOlder i fs
      → All (λ f. f.0 ≢ new_name filename i) fs
  new_among filename i [] hi h = tt
  new_among filename i (f ∷ fs) hi ((e, j, same, less), h) = (
    (λ p.
        formatted_filename_apart e filename _ _ j i (omega arith) hi (λ equal. absurd (omega arith))
          (sym same ∙ p)),
    new_among filename i fs hi h,
  )

  name_some :
      (filename : Bytes) (is : List Instruction) (i : ℕ) → formatted_filename filename is i ≢ []
  unfolding formatted_filename
  name_some filename is i e = ends _ _ e
    where
      ends : (front back : Bytes) → front ++ b'-' ∷ back ≢ []
      ends [] back p = cc
      ends (c ∷ front) back p = cc

  module _ (slash_free : (bs : Bytes) → All IsSlashFree (cs_disasm bs)) where
    format_loop_lem :
        (unique_idx : ℕ) (es fs : List ResultFile)
        → unique_idx + length es ≤ 2 ^ 64
        → AreOlder unique_idx fs
        → All IsFormattable es
        → (new : List ResultFile) × (format_loop cs_disasm unique_idx es fs ≡ ok (fs ++ new))
          × AreFormatted unique_idx es new
    unfolding format_loop
    format_loop_lem i [] fs small older h = ([], rw (append-nil fs) refl, tt)
    format_loop_lem i ((filename, content) ∷ es) fs small older ((free, (text, made)), h) =
        let name = new_name filename i in
        let created : create_file name text fs ≡ fs ++ (name, text) ∷ [] =
          create_file_of_new name text fs (name_some filename _ i)
            (formatted_filename-Lacks filename _ i (omega arith) free (slash_free _))
            (new_among filename i fs (omega arith) older) in
        let (new, rest, formatted) =
          format_loop_lem (suc i) es (fs ++ (name, text) ∷ []) (omega arith)
            (All-append (λ f. (e : Bytes) × (j : ℕ) × (f.0 ≡ new_name e j) × (j < suc i)) fs
              ((name, text) ∷ []) (older_weaken i fs older) ((filename, i, refl, omega arith), tt))
            h in
        ((name, text) ∷ new, rw (made, created, rest, append_assoc) refl, (refl, made, formatted))

    -- FormatTriggerPairOutput returns when the lines of all entries have their fields, and no entry and no text
    -- of the disassembler has a slash, for at most 2 ^ 64 entries: each entry has one formatted file, which no
    -- other one replaces.
    pub format_trigger_pair_output_lem :
        (entries : List ResultFile)
        → length entries ≤ 2 ^ 64
        → All IsFormattable entries
        → (files : List ResultFile) × (format_trigger_pair_output cs_disasm entries ≡ ok files)
          × AreFormatted 0 entries files
    unfolding format_trigger_pair_output
    format_trigger_pair_output_lem entries small h = format_loop_lem 0 entries [] (omega arith) tt h
