-- ===== src/Core/Search/Readable.antt =====
-- src/core.cc and src/filter.cc: the lines of a report, as the filters read them.
use osiris_arm.Common.{◌≤◌, ◌≡◌, Bytes, List, [], ◌∷◌, Bool, true, some, ok, arith, All}
use osiris_arm.Common.Int.{ℤ, pos, abs, abs_parts, ◌-ℤ◌}
use osiris_arm.Common.Text.{unlines}
use osiris_arm.Utils.Hash.{Sha256}
use osiris_arm.Utils.Split.{Lacks}
use osiris_arm.CodeGenerator.{X86Instruction, CodeGenerator, load}
use osiris_arm.CodeGenerator.Printable.{IsPrintable, IsOf, load-IsPrintable}
use osiris_arm.Filter.Line.{ResultLineData, result_line_data, csv_header}
use osiris_arm.Filter.Apply.Best.{AreRead}
use osiris_arm.Executor.Machine.{Machine}
use osiris_arm.Executor.Experiment.{Executor}
use osiris_arm.Core.{is_outside}
use osiris_arm.Core.Csv.{IsInt, line_data_of, result_line_data-csv_line, csv_line_newline}
use osiris_arm.Core.Search.{find_and_output_triggerpairs_without_assumptions}
use osiris_arm.Core.Search.Report.{IsFound, find_and_output_triggerpairs_without_assumptions_lem}

-- A line read by a filter with a timing that the search reports.
abbrev pub IsRowOf : ℤ → ℤ → ResultLineData → Type 0
IsRowOf low high d = (is_outside low high d.timing ≡ true) × (abs d.timing ≤ 5000)

pub near-IsInt : (z : ℤ) → abs z ≤ 5000 → IsInt z
near-IsInt z h = (omega (arith, abs_parts z), omega (arith, abs_parts z))

module _ (g : CodeGenerator) (low high : ℤ)
    (printable : (i : X86Instruction) → IsOf g i → IsPrintable i) where
  found-row :
      (line : Bytes)
      → IsFound g low high line
      → (d : ResultLineData) × (result_line_data line ≡ ok d)
        × IsRowOf low high d
        × Lacks b'\n' line
  found-row line (result, m, t, r, e, om, ot, ors, awake, out, near) =
      let fits = near-IsInt result near in
      (
        line_data_of result m t r,
        rw e (
            result_line_data-csv_line result m t r fits (printable m om) (printable t ot)
              (printable r ors)),
        (out, near),
        rw e (
            csv_line_newline result m t r fits (printable m om) (printable t ot) (printable r ors)),
      )

  pub found-rows :
      (ls : List Bytes)
      → All (IsFound g low high) ls
      → (ds : List ResultLineData) × AreRead ls ds
        × All (IsRowOf low high) ds
        × All (Lacks b'\n') ls
  found-rows [] h = ([], tt, tt, tt)
  found-rows (l ∷ ls) (hl, h) =
      let (d, read, row, plain) = found-row l hl in
      let (ds, reads, rows, plains) = found-rows ls h in
      (d ∷ ds, (read, reads), (row, rows), (plain, plains))

-- What the search without assumptions writes, with the instructions of a loaded file, is read by the
-- filters: the header, and then lines that each give the fields of a result, its timing below the
-- negated threshold or above the threshold, and at most 5000 cycles in size.
pub find_and_output-AreRead :
    (m : Machine) (sha : Sha256) (content : Bytes) (only_in_speculation : Bool) (threshold : ℤ)
    {g : CodeGenerator} (s : Executor m) {r : Bytes × Executor m}
    → load sha (some content) ≡ ok g
    → find_and_output_triggerpairs_without_assumptions m g only_in_speculation threshold s ≡ ok r
    → (ls : List Bytes) × (ds : List ResultLineData) × (r.0 ≡ unlines (csv_header ∷ ls))
      × AreRead ls ds
      × All (IsRowOf (pos 0 -ℤ threshold) threshold) ds
      × All (Lacks b'\n') ls
find_and_output-AreRead m sha content only_in_speculation threshold {g} s loaded h =
    let (ls, e, found) =
      find_and_output_triggerpairs_without_assumptions_lem m g only_in_speculation threshold s h in
    let (ds, read, rows, plain) =
      found-rows g (pos 0 -ℤ threshold) threshold (λ i of. load-IsPrintable sha content i loaded of)
        ls found in
    (ls, ds, e, read, rows, plain)
