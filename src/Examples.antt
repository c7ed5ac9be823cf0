-- ===== src/Examples.antt =====
-- Runs of the functions of Utils on small inputs, and the theorems at them. Child modules have those of the
-- other parts.
pub mod Instructions
pub mod Filters
pub mod Machines
pub mod Outputs
pub mod Searches
pub mod Runs
pub mod Pipelines
pub mod Kernel
pub mod Texts
use osiris_arm.Common.{
  ℕ, zero, suc, ◌+◌, ◌*◌, ◌%◌, ◌^◌, ◌≤◌, ◌<◌, ◌≡◌, ◌≢◌, refl, Bytes, codes, List, [], ◌∷◌, ◌++◌,
  Bool, true, false, ◌⊎◌, inl, inr, ◌↔◌, Option, none, some, length, get_elem?, replicate, Outcome,
  ok, exited, undefined, aborted, ◌>>=◌, arith, All, append_assoc, set, take, drop, repeat,
}
use osiris_arm.Common.Int.{ℤ, pos, negsuc, ◌≤ℤ◌, ◌+ℤ◌, ◌-ℤ◌, abs}
use osiris_arm.Utils.Base64.{base64_encode, base64_decode}
use osiris_arm.Utils.Base64.RoundTrip.{base64_decode-base64_encode, length-base64_encode}
use osiris_arm.Utils.Base64.Alphabet.{base64_encode-IsPlain, IsPlain}
use osiris_arm.Utils.Split.{split_string, join, Lacks, count}
use osiris_arm.Utils.Split.Laws.{split_string_lem, split_string-join, split_string-append}
use osiris_arm.Utils.Median.{median}
use osiris_arm.Utils.Median.Sort.{count_if}
use osiris_arm.Utils.Median.Middle.{at_most, at_least, median_halves, median_bounds}
use osiris_arm.Utils.Bytes.{
  create_bytearray, bytearray_to_string, number_to_bytes_le, le_value,
  bytearray_to_string-create_bytearray, le_value-number_to_bytes_le,
}
use osiris_arm.Utils.Hash.{
  Sha256, calculate_file_hash_sha256, hexdigest, calculate_file_hash_sha256_lem,
}

pub zeros_small : (k n : ℕ) → n < 256 → All (λ b. b < 256) (replicate k 0 ++ n ∷ [])
zeros_small zero n h = (h, tt)
zeros_small (suc k) n h = (omega arith, zeros_small k n h)

-- A hash in the place of SHA-256: thirty-one zeros and the length.
abbrev pub toy_sha : Sha256
toy_sha = record {
  Ctx = Bytes;
  init = [];
  update = λ c s. c ++ s;
  final = λ c. replicate 31 0 ++ (length c % 256) ∷ [];
  update-append = λ c s t. append_assoc c s t;
  length-final = λ c. refl;
  final_bytes = λ c. zeros_small 31 (length c % 256) (omega arith);
}

abbrev sample_bytes : Bytes
sample_bytes = 0 ∷ 255 ∷ 16 ∷ 83 ∷ []

encoded_example : base64_encode sample_bytes ≡ codes "AP8QUw=="
unfolding base64_encode
encoded_example = refl

base64_decode-base64_encode_example : base64_decode (base64_encode sample_bytes) ≡ sample_bytes
base64_decode-base64_encode_example =
    base64_decode-base64_encode sample_bytes
      (omega arith, (omega arith, (omega arith, (omega arith, tt))))

abbrev text : Bytes
text = codes "a;;bc"

split_string_lem_example :
    (join b';' (split_string text b';') ≡ text)
    × All (Lacks b';') (split_string text b';')
    × (length (split_string text b';') ≡ 3)
unfolding count
split_string_lem_example = split_string_lem text b';'

split_string-append_example :
    split_string (codes "a" ++ b';' ∷ codes "b;c") b';'
    ≡ codes "a" ∷ split_string (codes "b;c") b';'
split_string-append_example =
    split_string-append (codes "a") (codes "b;c") b';' ((λ e. omega arith), tt)

abbrev timings : List ℤ
timings = pos 5 ∷ negsuc 0 ∷ pos 9 ∷ pos 2 ∷ []

median_example : median timings ≡ pos 7
unfolding median ◌+ℤ◌
median_example = refl

-- 2 ^ 53 + 1 is not a double.
median_rounds : median (pos (2 ^ 53 + 1) ∷ []) ≡ pos (2 ^ 54)
unfolding median ◌+ℤ◌
median_rounds = refl

median_halves_example :
    (4 ≤ 2 * count_if (at_most (median timings)) timings)
    × (4 ≤ 2 * count_if (at_least (median timings)) timings)
median_halves_example =
    median_halves timings (omega arith, (omega arith, (omega arith, (omega arith, tt))))

calculate_file_hash_sha256_lem_example :
    (calculate_file_hash_sha256 toy_sha (some text)
      ≡ hexdigest (toy_sha.final (toy_sha.update toy_sha.init text)))
    × (length (calculate_file_hash_sha256 toy_sha (some text)) ≡ 64)
calculate_file_hash_sha256_lem_example = calculate_file_hash_sha256_lem toy_sha text
