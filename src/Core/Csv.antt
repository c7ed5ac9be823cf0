-- ===== src/Core/Csv.antt =====
-- src/core.cc and src/filter.cc: a line of the csv output, read again.
use osiris_arm.Common.{
  ℕ, suc, ◌-◌, ◌^◌, ◌<◌, ◌≡◌, ◌≢◌, refl, Bytes, List, [], ◌∷◌, ◌++◌, ok, arith, All, append_assoc,
  All-append,
}
use osiris_arm.Common.Int.{ℤ, pos, negsuc, ◌≤ℤ◌}
use osiris_arm.Common.Text.{print, to_string}
use osiris_arm.Common.Numeral.RoundTrip.{IsNumeral, print-IsNumeral, stoi-to_string}
use osiris_arm.Utils.Split.{split_string, Lacks, join}
use osiris_arm.Utils.Split.Laws.{split_string-join}
use osiris_arm.Utils.Base64.Alphabet.{IsPlain}
use osiris_arm.CodeGenerator.{X86Instruction, get_csv_representation}
use osiris_arm.CodeGenerator.Printable.{IsPrintable}
use osiris_arm.Filter.Line.{ResultLineData, result_line_data}
use osiris_arm.Core.{csv_line}
use osiris_arm.Core.Cleanup.Reload.{plain-Lacks, plain_newline}

-- A number of an int.
abbrev pub IsInt : ℤ → Type 0
IsInt z = (negsuc (2 ^ 31 - 1) ≤ℤ z) × (z ≤ℤ pos (2 ^ 31 - 1))

-- the five fields of an instruction, and the sixteen of a line
abbrev instruction_fields : X86Instruction → List Bytes
instruction_fields i =
    print 16 i.instruction_uid ∷ i.assembly_code ∷ i.category ∷ i.extension ∷ i.isa_set ∷ []

abbrev pub csv_fields : ℤ → X86Instruction → X86Instruction → X86Instruction → List Bytes
csv_fields result m t r =
    to_string result ∷ instruction_fields m ++ (instruction_fields t ++ instruction_fields r)

-- what a filter keeps of a line for these instructions
abbrev pub line_data_of : ℤ → X86Instruction → X86Instruction → X86Instruction → ResultLineData
line_data_of result m t r = record {
  timing = result;
  measurement_sequence = m.assembly_code;
  measurement_category = m.category;
  measurement_extension = m.extension;
  measurement_isa_set = m.isa_set;
  trigger_sequence = t.assembly_code;
  trigger_category = t.category;
  trigger_extension = t.extension;
  trigger_isa_set = t.isa_set;
  reset_sequence = r.assembly_code;
  reset_category = r.category;
  reset_extension = r.extension;
  reset_isa_set = r.isa_set;
}

csv_line-join :
    (result : ℤ) (m t r : X86Instruction)
    → csv_line result m t r ≡ join b';' (csv_fields result m t r)
unfolding csv_line get_csv_representation join
csv_line-join result m t r = simp append_assoc

numeral-IsPlain : (s : Bytes) → All IsNumeral s → All IsPlain s
numeral-IsPlain [] h = tt
numeral-IsPlain (c ∷ s) (hc, h) = ((ground arith, ground arith), numeral-IsPlain s h)

uid-IsPlain : (n : ℕ) → n < 2 ^ 32 → All IsPlain (print 16 n)
uid-IsPlain n h = numeral-IsPlain _ (print-IsNumeral 16 (omega arith) (omega arith) n (omega arith))

pub to_string-IsPlain : (z : ℤ) → IsInt z → All IsPlain (to_string z)
unfolding to_string
to_string-IsPlain (pos n) h =
    numeral-IsPlain _ (print-IsNumeral 10 (omega arith) (omega arith) n (omega arith))
to_string-IsPlain (negsuc n) h = (
  (omega arith, omega arith),
  numeral-IsPlain _ (print-IsNumeral 10 (omega arith) (omega arith) (suc n) (omega arith)),
)

All-Lacks : (fs : List Bytes) → All (All IsPlain) fs → All (Lacks b';') fs
All-Lacks [] h = tt
All-Lacks (f ∷ fs) (hf, h) = (plain-Lacks f hf, All-Lacks fs h)

append-IsPlain :
    (fs gs : List Bytes)
    → All (All IsPlain) fs
    → All (All IsPlain) gs
    → All (All IsPlain) (fs ++ gs)
append-IsPlain fs gs = All-append (All IsPlain) fs gs

instruction_fields-IsPlain :
    (i : X86Instruction) → IsPrintable i → All (All IsPlain) (instruction_fields i)
instruction_fields-IsPlain i p =
    let q = p.texts in
    (
      uid-IsPlain i.instruction_uid p.uid,
      (q.assembly, (q.category, (q.extension, (q.isa_set, tt)))),
    )

join_newline : (fs : List Bytes) → All (All IsPlain) fs → Lacks b'\n' (join b';' fs)
unfolding join
join_newline [] h = tt
join_newline (f ∷ []) h = plain_newline f h.0
join_newline (f ∷ g ∷ fs) (hf, h) =
    All-append (λ c. c ≢ b'\n') f (b';' ∷ join b';' (g ∷ fs)) (plain_newline f hf)
      (omega arith, join_newline (g ∷ fs) h)

module _ (result : ℤ) (m t r : X86Instruction) (fits : IsInt result) where
  module _ (pm : IsPrintable m) (pt : IsPrintable t) (pr : IsPrintable r) where
    csv_fields-IsPlain : All (All IsPlain) (csv_fields result m t r)
    csv_fields-IsPlain = (
      to_string-IsPlain result fits,
      append-IsPlain (instruction_fields m) (instruction_fields t ++ instruction_fields r)
          (instruction_fields-IsPlain m pm)
          (append-IsPlain (instruction_fields t) (instruction_fields r)
            (instruction_fields-IsPlain t pt) (instruction_fields-IsPlain r pr)),
    )

    pub split-csv_line : split_string (csv_line result m t r) b';' ≡ csv_fields result m t r
    split-csv_line = rw (csv_line-join result m t r) (
        split_string-join (csv_fields result m t r) b';' (λ e. cc)
          (All-Lacks (csv_fields result m t r) csv_fields-IsPlain))

    pub csv_line_newline : Lacks b'\n' (csv_line result m t r)
    csv_line_newline =
        rw (csv_line-join result m t r) (join_newline (csv_fields result m t r) csv_fields-IsPlain)

    -- A line that a search writes is read by the filters: its timing, which fits an int, and the texts
    -- of the three instructions come back, where no text holds a semicolon or a newline and the UIDs are
    -- below 2 ^ 32.
    pub result_line_data-csv_line :
        result_line_data (csv_line result m t r) ≡ ok (line_data_of result m t r)
    unfolding result_line_data
    result_line_data-csv_line = rw split-csv_line (rw (stoi-to_string result fits.0 fits.1) refl)
