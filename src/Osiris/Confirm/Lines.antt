-- ===== src/Osiris/Confirm/Lines.antt =====
-- src/osiris.cc: the confirmation on lines of a search.
use osiris_arm.Common.{ℕ, ◌^◌, ◌<◌, ◌≡◌, refl, ap, Bytes, codes, [], ◌∷◌, ◌++◌, some, ok, arith}
use osiris_arm.Common.Int.{ℤ}
use osiris_arm.Common.Text.{print, to_string}
use osiris_arm.Common.Numeral.{stoll}
use osiris_arm.Common.Numeral.RoundTrip.{stoll-print}
use osiris_arm.Utils.Split.{Lacks}
use osiris_arm.CodeGenerator.{X86Instruction, get_csv_representation}
use osiris_arm.CodeGenerator.Printable.{IsPrintable}
use osiris_arm.Core.{csv_line}
use osiris_arm.Core.Csv.{IsInt, split-csv_line, to_string-IsPlain}
use osiris_arm.Core.Cleanup.Reload.{plain-Lacks}
use osiris_arm.Osiris.Confirm.{
  ConfirmInput, uid_of, read_input, behind, line_without_timing, confirmed_line,
}

uid_of-print : (n : ℕ) → n < 2 ^ 32 → uid_of (stoll 16 (print 16 n)) ≡ ok n
unfolding uid_of
uid_of-print n h = rw (stoll-print n (omega arith)) refl

behind-append : (d : ℕ) (f s : Bytes) → Lacks d f → behind d (f ++ d ∷ s) ≡ some s
unfolding behind
behind-append d [] s h = ground arith
behind-append d (c ∷ f) s (hc, h) = ground (arith, behind-append d f s h)

-- the input that stands in a line for these instructions
abbrev pub input_for : ℤ → X86Instruction → X86Instruction → X86Instruction → ConfirmInput
input_for result m t r = record {
  measurement_uid = m.instruction_uid;
  trigger_uid = t.instruction_uid;
  reset_uid = r.instruction_uid;
  line = csv_line result m t r;
}

text_behind : (line rest : Bytes) → behind b';' line ≡ some rest → line_without_timing line ≡ rest
unfolding line_without_timing
text_behind line rest e = rw (e, line_without_timing) refl

-- what stands behind the timing
abbrev instructions_text : X86Instruction → X86Instruction → X86Instruction → Bytes
instructions_text m t r =
    get_csv_representation m
    ++ (codes ";" ++ (get_csv_representation t ++ (codes ";" ++ get_csv_representation r)))

module _ (result : ℤ) (m t r : X86Instruction) (fits : IsInt result) where
  -- Confirming a line of a search changes its timing and nothing else: the confirmed line is the line that
  -- the search writes for the same instructions with the new timing, the old one being an int.
  pub confirmed_line-csv_line :
      (new : ℤ) → confirmed_line new (csv_line result m t r) ≡ csv_line new m t r
  unfolding confirmed_line csv_line
  confirmed_line-csv_line new =
      let rest = instructions_text m t r in
      let cut : behind b';' (csv_line result m t r) ≡ some rest =
        behind-append b';' (to_string result) rest
          (plain-Lacks _ (to_string-IsPlain result fits)) in
      ap (λ text. to_string new ++ (codes ";" ++ text))
        (text_behind (csv_line result m t r) rest cut)

  module _ (pm : IsPrintable m) (pt : IsPrintable t) (pr : IsPrintable r) where
    -- A line of a search is read by the confirmation as the UIDs of its three instructions, where the texts
    -- are without semicolons and newlines, the UIDs below 2 ^ 32, and the timing is an int.
    pub read_input-csv_line : read_input (csv_line result m t r) ≡ ok (input_for result m t r)
    unfolding read_input
    read_input-csv_line =
        rw
          (
            split-csv_line result m t r fits pm pt pr,
            uid_of-print m.instruction_uid pm.uid,
            uid_of-print t.instruction_uid pt.uid,
            uid_of-print r.instruction_uid pr.uid,
          )
          refl
