-- ===== src/Filter/Apply/Kept.antt =====
-- src/filter.cc: the lines that ApplyFiltersOnFile writes.
use osiris_arm.Common.{
  ℕ, suc, ◌≡◌, refl, sym, ap, ◌∙◌, Bytes, str_eq, str_eq_iff, List, [], ◌∷◌, ◌++◌, Bool, true,
  false, inl, inr, Bool-cases, some, length, ok, Holds, >>=-Holds, Holds-map, Holds-eq_ok,
  append-nil, append_assoc,
}
use osiris_arm.Common.Text.{lines, unlines}
use osiris_arm.Filter.Line.{result_line_data, csv_header}
use osiris_arm.Filter.{ResultFilter}
use osiris_arm.Filter.Apply.{
  prefilter_pass, filter_pass, run_filters, apply_lines, apply_filters_on_file,
}

-- the elements at which a mask holds
unfoldable pub select : List Bool → List Bytes → List Bytes
select [] ls = []
select (b ∷ mask) [] = []
select (true ∷ mask) (l ∷ ls) = l ∷ select mask ls
select (false ∷ mask) (l ∷ ls) = select mask ls

-- What stands behind the lines written so far is selected from the lines left.
abbrev IsKept : List Bytes → List Bytes → ResultFilter × List Bytes → Type 0
IsKept ls written r =
    (mask : List Bool) × (length mask ≡ length ls) × (r.1 ≡ written ++ select mask ls)

dropped :
    (l : Bytes) (ls written : List Bytes) (r : ResultFilter × List Bytes)
    → IsKept ls written r
    → IsKept (l ∷ ls) written r
unfolding select
dropped l ls written r (mask, size, e) = (false ∷ mask, ap suc size, e)

taken :
    (l : Bytes) (ls written : List Bytes) (r : ResultFilter × List Bytes)
    → IsKept ls (written ++ l ∷ []) r
    → IsKept (l ∷ ls) written r
unfolding select
taken l ls written r (mask, size, e) =
    (true ∷ mask, ap suc size, e ∙ append_assoc written (l ∷ []) (select mask ls))

filter_pass-Holds :
    (line_no : ℕ) (ls : List Bytes) (s : ResultFilter) (written : List Bytes)
    → Holds (IsKept ls written) (filter_pass line_no ls s written)
unfolding filter_pass select
filter_pass-Holds line_no [] s written = ([], refl, sym (append-nil written))
filter_pass-Holds line_no (l ∷ ls) s written =
    >>=-Holds (IsKept (l ∷ ls) written) (result_line_data l) _ (λ d _.
      >>=-Holds (IsKept (l ∷ ls) written) (run_filters line_no d s.active_filters false s) _ (λ r _.
        elim (Bool-cases r.1) [
          | inl out ↦ rw out (
              Holds-map (IsKept ls written) (IsKept (l ∷ ls) written) _ (dropped l ls written)
                (filter_pass-Holds (suc line_no) ls r.0 written))
          | inr kept ↦ rw kept (
              Holds-map (IsKept ls (written ++ l ∷ [])) (IsKept (l ∷ ls) written) _
                (taken l ls written) (filter_pass-Holds (suc line_no) ls r.0 (written ++ l ∷ [])))
        ]))

-- The file that is written, from the lines of the file that is read.
abbrev pub IsFiltered : Bytes → ResultFilter × Bytes → Type 0
IsFiltered content r =
    (rest : List Bytes) × (mask : List Bool) × (lines content ≡ csv_header ∷ rest)
    × (length mask ≡ length rest)
    × (r.1 ≡ unlines (csv_header ∷ select mask rest))

abbrev IsFilteredLines : List Bytes → ResultFilter × List Bytes → Type 0
IsFilteredLines ls r =
    (rest : List Bytes) × (mask : List Bool) × (ls ≡ csv_header ∷ rest)
    × (length mask ≡ length rest)
    × (r.1 ≡ csv_header ∷ select mask rest)

apply_lines-Holds :
    (ls : List Bytes) (s : ResultFilter) → Holds (IsFilteredLines ls) (apply_lines ls s)
unfolding apply_lines
apply_lines-Holds [] s = tt
apply_lines-Holds (l ∷ ls) s = elim (Bool-cases (str_eq l csv_header)) [
  | inl same ↦ rw same (
      >>=-Holds (IsFilteredLines (l ∷ ls)) (prefilter_pass 0 ls s) _ (λ s' _.
        Holds-map (IsKept ls (csv_header ∷ [])) (IsFilteredLines (l ∷ ls)) _
          (λ r (mask, size, e).
            (ls, mask, ap (λ t. t ∷ ls) ((str_eq_iff l csv_header).0 same), size, e))
          (filter_pass-Holds 0 ls s' (csv_header ∷ []))))
  | inr other ↦ rw other tt
]

apply-Holds :
    (content : Bytes) (s : ResultFilter)
    → Holds (IsFiltered content) (apply_filters_on_file (some content) true s)
unfolding apply_filters_on_file
apply-Holds content s = >>=-Holds (IsFiltered content) (apply_lines (lines content) s) _ (λ r made.
    let (rest, mask, e, size, out) =
      Holds-eq_ok (IsFilteredLines (lines content)) _ (apply_lines-Holds (lines content) s) made in
    (rest, mask, e, size, ap unlines out))

-- When ApplyFiltersOnFile returns, whatever filters are active, the file it read starts with the header,
-- and the file it wrote is the header and then some of the lines of the first, unchanged and in order.
pub apply_filters_on_file_lem :
    (content : Bytes) (s : ResultFilter) {r : ResultFilter × Bytes}
    → apply_filters_on_file (some content) true s ≡ ok r
    → IsFiltered content r
apply_filters_on_file_lem content s h = Holds-eq_ok (IsFiltered content) _ (apply-Holds content s) h
