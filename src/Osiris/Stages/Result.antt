-- ===== src/Osiris/Stages/Result.antt =====
-- src/osiris.cc: the files that the filter stage leaves.
use osiris_arm.Common.{
  ◌≡◌, ◌≢◌, refl, ap, ◌∙◌, Bytes, codes, str_eq, str_eq_refl, List, [], ◌∷◌, ◌++◌, Bool, true,
  false, some, ==_refl, if◌then◌else◌, ok, All,
}
use osiris_arm.Common.Text.{lines, unlines}
use osiris_arm.Common.Lines.{lines-unlines}
use osiris_arm.Utils.Split.{Lacks, count}
use osiris_arm.Utils.Split.Laws.{count-Lacks}
use osiris_arm.Filter.{
  ResultFilterFunctions, remove_all_cache_sequences, unique_property_tuples,
  measurement_trigger_extension_pairs, ResultFilter, new_filter,
}
use osiris_arm.Filter.Line.{ResultLineData, csv_header}
use osiris_arm.Filter.Active.{enable_filter, clear_all_filters, is_active}
use osiris_arm.Filter.Keyed.{Keyed, cache_filter, tuples_filter, pairs_filter}
use osiris_arm.Filter.Apply.{apply_lines, apply_filters_on_file}
use osiris_arm.Filter.Apply.Best.{AreRead, best_lines}
use osiris_arm.Filter.Apply.Unique.{
  rows_of, apply_lines-best_lines, best_lines-AreRead, All-best_lines,
}
use osiris_arm.Filter.Apply.Plain.{
  passed_lines, apply_lines-passed_lines, passed_lines-AreRead, All-passed_lines,
}
use osiris_arm.Osiris.Files.{Files, read_file, write_file, read_file-write_file}
use osiris_arm.Osiris.Stages.{
  base_name_of, output_file1, output_file2, output_file3, stage, filter_stages,
}

-- The lines, or their data, that the best rows of a keyed filter leave.
abbrev pub best_of {ℓ} :
    {A : Type ℓ} {f : ResultFilterFunctions} → Keyed f → List ResultLineData → List A → List A
best_of {f = f} keyed ds ls = best_lines (rows_of f keyed ds) 0 (rows_of f keyed ds) ls

pub header_newline : Lacks b'\n' csv_header
unfolding count
header_newline = count-Lacks b'\n' csv_header refl

enable_one :
    (f : ResultFilterFunctions) (s : ResultFilter)
    → s.active_filters ≡ []
    → (enable_filter f s) ≡ record s { active_filters = f ∷ [] }
unfolding enable_filter is_active
enable_one f s none_active =
    ap (λ fs. if is_active f fs then s else record s { active_filters = fs ++ f ∷ [] }) none_active

stage_lem :
    (opens : Bytes → Bool) (f : ResultFilterFunctions) (input output : Bytes) (s s' : ResultFilter)
    (files : Files) (ls ls' : List Bytes)
    → read_file input files ≡ some (unlines (csv_header ∷ ls))
    → All (Lacks b'\n') ls
    → opens output ≡ true
    → apply_lines (csv_header ∷ ls) (enable_filter f s) ≡ ok (s', csv_header ∷ ls')
    → stage opens f input output s files
      ≡ ok (s', write_file output (unlines (csv_header ∷ ls')) files)
unfolding stage apply_filters_on_file
stage_lem opens f input output s s' files ls ls' there plain open_ok applied =
    let whole : lines (unlines (csv_header ∷ ls)) ≡ csv_header ∷ ls =
      lines-unlines (csv_header ∷ ls) (header_newline, plain) in
    rw (there, open_ok, whole, applied) refl

str_eq-append : (a x y : Bytes) → str_eq (a ++ x) (a ++ y) ≡ str_eq x y
unfolding str_eq
str_eq-append [] x y = refl
str_eq-append (c ∷ a) x y = rw (==_refl) (str_eq-append a x y)

-- a stage with one filter for the best rows, on an object with a fresh map for it
keyed_stage :
    (opens : Bytes → Bool) (f : ResultFilterFunctions) (keyed : Keyed f) (input output : Bytes)
    (s : ResultFilter) (files : Files) (ls : List Bytes) (ds : List ResultLineData)
    → read_file input files ≡ some (unlines (csv_header ∷ ls))
    → All (Lacks b'\n') ls
    → AreRead ls ds
    → opens output ≡ true
    → s.active_filters ≡ []
    → keyed.seen (record s { active_filters = f ∷ [] }) ≡ []
    → (s' : ResultFilter) × (keyed.other s' ≡ keyed.other (record s { active_filters = f ∷ [] }))
      × (stage opens f input output s files
          ≡ ok (s', write_file output (unlines (csv_header ∷ best_of keyed ds ls)) files))
keyed_stage opens f keyed input output s files ls ds there plain read open_ok none_active fresh =
    let (s', active, other, applied) =
      apply_lines-best_lines f keyed ls ds (record s { active_filters = f ∷ [] }) read refl fresh in
    (
      s',
      other,
      stage_lem opens f input output s s' files ls (best_of keyed ds ls) there plain open_ok
          (rw (enable_one f s none_active) applied),
    )

All-best_of :
    {f : ResultFilterFunctions} (keyed : Keyed f) (ds : List ResultLineData) (ls : List Bytes)
    → All (Lacks b'\n') ls
    → All (Lacks b'\n') (best_of keyed ds ls)
All-best_of {f = f} keyed ds ls h =
    All-best_lines (Lacks b'\n') (rows_of f keyed ds) 0 ls (rows_of f keyed ds) h

best_of-AreRead :
    {f : ResultFilterFunctions} (keyed : Keyed f) (ls : List Bytes) (ds : List ResultLineData)
    → AreRead ls ds
    → AreRead (best_of keyed ds ls) (best_of keyed ds ds)
best_of-AreRead {f = f} keyed ls ds read =
    best_lines-AreRead f keyed (rows_of f keyed ds) 0 ls ds ds read

-- a file that is written is read, and the ones under other names stay
pub read_same :
    (name content : Bytes) (files : Files)
    → read_file name (write_file name content files) ≡ some content
read_same name content files =
    rw (read_file-write_file name name content files, str_eq_refl name) refl

read_other :
    (base x y content : Bytes) (files : Files)
    → str_eq x y ≡ false
    → read_file (base ++ x) (write_file (base ++ y) content files) ≡ read_file (base ++ x) files
read_other base x y content files e =
    rw (read_file-write_file (base ++ x) (base ++ y) content files, str_eq-append base x y, e) refl

names_differ :
    (str_eq (codes "_nocache.csv") (codes "_nocache_filtered_by_all.csv") ≡ false)
    × (str_eq (codes "_nocache.csv") (codes "_nocache_filtered_by_all_mt_extensionpair.csv")
        ≡ false)
    × (str_eq
          (codes "_nocache_filtered_by_all.csv")
          (codes "_nocache_filtered_by_all_mt_extensionpair.csv")
        ≡ false)
unfolding str_eq
names_differ = (refl, refl, refl)

-- behind the three writes, each of the files is there
kept_files :
    (base t1 t2 t3 : Bytes) (files : Files)
    → let files' =
        write_file
          (output_file3 base)
          t3
          (write_file (output_file2 base) t2 (write_file (output_file1 base) t1 files)) in
      (read_file (output_file1 base) files' ≡ some t1)
      × (read_file (output_file2 base) files' ≡ some t2)
      × (read_file (output_file3 base) files' ≡ some t3)
kept_files base t1 t2 t3 files =
    let (d12, d13, d23) = names_differ in
    let files1 = write_file (output_file1 base) t1 files in
    let files2 = write_file (output_file2 base) t2 files1 in
    (
      read_other base (codes "_nocache.csv") (codes "_nocache_filtered_by_all_mt_extensionpair.csv")
            t3 files2 d13
          ∙ (read_other base (codes "_nocache.csv") (codes "_nocache_filtered_by_all.csv") t2 files1
                d12
              ∙ read_same (output_file1 base) t1 files),
      read_other base (codes "_nocache_filtered_by_all.csv")
            (codes "_nocache_filtered_by_all_mt_extensionpair.csv") t3 files2 d23
          ∙ read_same (output_file2 base) t2 files1,
      read_same (output_file3 base) t3 files2,
    )

-- The filter stage, on an input file of the header and lines that are read, returns when its three output
-- files can be opened. The first then holds the lines without a cache sequence, the second those of them
-- that are the best of their property tuple, and the third those of the second that are the best of their
-- pair of extensions, each behind the header.
pub filter_stages_lem :
    (opens : Bytes → Bool) (input : Bytes) (files : Files) (ls : List Bytes)
    (ds : List ResultLineData)
    → input ≢ []
    → read_file input files ≡ some (unlines (csv_header ∷ ls))
    → All (Lacks b'\n') ls
    → AreRead ls ds
    → opens (output_file1 (base_name_of input)) ≡ true
    → opens (output_file2 (base_name_of input)) ≡ true
    → opens (output_file3 (base_name_of input)) ≡ true
    → let base = base_name_of input in
      let ls1 = passed_lines cache_filter.verdict ds ls in
      let ds1 = passed_lines cache_filter.verdict ds ds in
      let ls2 = best_of tuples_filter ds1 ls1 in
      let ds2 = best_of tuples_filter ds1 ds1 in
      let ls3 = best_of pairs_filter ds2 ls2 in
      (files' : Files) × (filter_stages opens input files ≡ ok files')
      × (read_file (output_file1 base) files' ≡ some (unlines (csv_header ∷ ls1)))
      × (read_file (output_file2 base) files' ≡ some (unlines (csv_header ∷ ls2)))
      × (read_file (output_file3 base) files' ≡ some (unlines (csv_header ∷ ls3)))
unfolding filter_stages clear_all_filters
filter_stages_lem opens [] files ls ds some_input there plain read o1 o2 o3 =
    absurd (some_input refl)
filter_stages_lem opens (c ∷ name) files ls ds some_input there plain read o1 o2 o3 =
    let base = base_name_of (c ∷ name) in
    let ls1 = passed_lines cache_filter.verdict ds ls in
    let ds1 = passed_lines cache_filter.verdict ds ds in
    let ls2 = best_of tuples_filter ds1 ls1 in
    let ds2 = best_of tuples_filter ds1 ds1 in
    let plain1 = All-passed_lines cache_filter.verdict (Lacks b'\n') ls ds plain in
    let read1 = passed_lines-AreRead cache_filter.verdict ls ds read in
    let s1 : ResultFilter = record new_filter {
      active_filters = remove_all_cache_sequences ∷ [];
    } in
    let first =
      stage_lem opens remove_all_cache_sequences (c ∷ name) (output_file1 base) new_filter s1 files
        ls ls1 there plain o1
        (rw (enable_one remove_all_cache_sequences new_filter refl)
          (apply_lines-passed_lines remove_all_cache_sequences cache_filter ls ds s1 read refl)) in
    let files1 = write_file (output_file1 base) (unlines (csv_header ∷ ls1)) files in
    let (s2, other2, second) =
      keyed_stage opens unique_property_tuples tuples_filter (output_file1 base) (output_file2 base)
        new_filter files1 ls1 ds1 (read_same (output_file1 base) (unlines (csv_header ∷ ls1)) files)
        plain1 read1 o2 refl refl in
    let files2 = write_file (output_file2 base) (unlines (csv_header ∷ ls2)) files1 in
    let (s3, other3, third) =
      keyed_stage opens measurement_trigger_extension_pairs pairs_filter (output_file2 base)
        (output_file3 base) (record s2 { active_filters = [] }) files2 ls2 ds2
        (read_same (output_file2 base) (unlines (csv_header ∷ ls2)) files1)
        (All-best_of tuples_filter ds1 ls1 plain1) (best_of-AreRead tuples_filter ls1 ds1 read1) o3
        refl other2 in
    let (kept1, kept2, kept3) =
      kept_files base (unlines (csv_header ∷ ls1)) (unlines (csv_header ∷ ls2))
        (unlines (csv_header ∷ best_of pairs_filter ds2 ls2)) files in
    (
      write_file (output_file3 base) (unlines (csv_header ∷ best_of pairs_filter ds2 ls2)) files2,
      rw (first, second, third) refl,
      kept1,
      kept2,
      kept3,
    )
