-- ===== src/Filter/Line.antt =====
-- src/filter.cc: ResultLineData, one line of the result file.
use osiris_arm.Common.{
  Bytes, codes, List, [], ◌∷◌, Option, none, some, Outcome, ok, exited, aborted, ◌>>=◌,
}
use osiris_arm.Common.Int.{ℤ}
use osiris_arm.Common.Numeral.{stoi}
use osiris_arm.Utils.Split.{split_string}

pub record ResultLineData : Type 0 where
  pub timing : ℤ
  pub measurement_sequence : Bytes
  pub measurement_category : Bytes
  pub measurement_extension : Bytes
  pub measurement_isa_set : Bytes
  pub trigger_sequence : Bytes
  pub trigger_category : Bytes
  pub trigger_extension : Bytes
  pub trigger_isa_set : Bytes
  pub reset_sequence : Bytes
  pub reset_category : Bytes
  pub reset_extension : Bytes
  pub reset_isa_set : Bytes

-- the header line of the result files
abbrev pub csv_header : Bytes
csv_header =
    codes
      "timing;measurement-uid;measurement-sequence;measurement-category;measurement-extension;measurement-isa-set;trigger-uid;trigger-sequence;trigger-category;trigger-extension;trigger-isa-set;reset-uid;reset-sequence;reset-category;reset-extension;reset-isa-set"

-- the exceptions of `std::stoi` are not caught
timing_of : Option ℤ → Outcome ℤ
timing_of none = aborted
timing_of (some t) = ok t

-- the constructor, on the fields of a line; the fields 1, 6 and 11 are the UIDs
unfoldable pub line_data : List Bytes → Outcome ResultLineData
unfolding timing_of
line_data (time ∷ mu ∷ ms ∷ mc ∷ me ∷ mi ∷ tu ∷ ts ∷ tc ∷ te ∷ ti ∷ ru ∷ rs ∷ rc ∷ re ∷ ri ∷ []) =
    do
      t ← timing_of (stoi 10 time)
      ok (record {
        timing = t;
        measurement_sequence = ms;
        measurement_category = mc;
        measurement_extension = me;
        measurement_isa_set = mi;
        trigger_sequence = ts;
        trigger_category = tc;
        trigger_extension = te;
        trigger_isa_set = ti;
        reset_sequence = rs;
        reset_category = rc;
        reset_extension = re;
        reset_isa_set = ri;
      })
line_data other = exited 1

-- ResultLineData::ResultLineData
unfoldable pub result_line_data : Bytes → Outcome ResultLineData
unfolding line_data
result_line_data line = line_data (split_string line b';')
