-- ===== src/Utils/Bytes.antt =====
-- src/utils.cc: CreateBytearray, BytearrayToString and NumberToBytesLE. A `char` is unsigned on
-- ARM, so a character and a `std::byte` are the same number below 256.
use native.Mathlib.Nat.{pow-succ'}
use osiris_arm.Common.{
  ℕ, zero, suc, ◌+◌, ◌*◌, ◌/◌, ◌%◌, ◌^◌, ◌<◌, ◌≡◌, refl, ap, Bytes, [], ◌∷◌, ◌++◌, append-nil,
  append_assoc, none, some, arith, length, get_elem?, length-append, All, Outcome, ok, undefined,
  ◌>>=◌, get_elem?-length,
}

-- the `for` of CreateBytearray, with the rounds left; a read behind the array is undefined
create_loop : Bytes → ℕ → ℕ → Bytes → Outcome Bytes
create_loop byte_arr i zero res = ok res
create_loop byte_arr i (suc left) res = elim (get_elem? byte_arr i) [
  | none ↦ undefined
  | some b ↦ create_loop byte_arr (i + 1) left (res ++ b ∷ [])
]

unfoldable pub create_bytearray : Bytes → ℕ → Outcome Bytes
unfolding create_loop
create_bytearray byte_arr arr_len = create_loop byte_arr 0 arr_len []

-- the stream `res` of BytearrayToString, character by character
string_loop : Bytes → Bytes → Bytes
string_loop [] res = res
string_loop (b ∷ bs) res = string_loop bs (res ++ b ∷ [])

unfoldable pub bytearray_to_string : Bytes → Bytes
unfolding string_loop
bytearray_to_string bytes = string_loop bytes []

string_loop_lem : (bs res : Bytes) → string_loop bs res ≡ res ++ bs
unfolding string_loop
string_loop_lem [] res = rw append-nil
string_loop_lem (b ∷ bs) res = simp (string_loop_lem bs, append_assoc)

pub bytearray_to_string_lem : (bs : Bytes) → bytearray_to_string bs ≡ bs
unfolding bytearray_to_string
bytearray_to_string_lem bs = string_loop_lem bs []

create_loop_lem :
    (done rest out : Bytes)
    → create_loop (done ++ rest) (length done) (length rest) out ≡ ok (out ++ rest)
unfolding create_loop
create_loop_lem done [] out = rw append-nil
create_loop_lem done (b ∷ rest) out =
    rw (get_elem?-length done rest b, create_loop)
      (next (create_loop_lem (done ++ b ∷ []) rest (out ++ b ∷ [])))
  where
    next :
        create_loop
            ((done ++ b ∷ []) ++ rest)
            (length (done ++ b ∷ []))
            (length rest)
            (out ++ b ∷ [])
          ≡ ok ((out ++ b ∷ []) ++ rest)
        → create_loop (done ++ b ∷ rest) (length done + 1) (length rest) (out ++ b ∷ [])
          ≡ ok (out ++ b ∷ rest)
    next h = simp (append_assoc, length-append) at h

-- Making a byte array of a whole text and reading it back as a string gives the text.
pub bytearray_to_string-create_bytearray :
    (s : Bytes) → (create_bytearray s (length s) >>= λ bytes. ok (bytearray_to_string bytes)) ≡ ok s
unfolding create_bytearray
bytearray_to_string-create_bytearray s =
    rw (create_loop_lem [] s []) (ap ok (bytearray_to_string_lem s))

-- the `for` of NumberToBytesLE, with the rounds left
bytes_loop : ℕ → ℕ → Bytes → Bytes
bytes_loop number zero bytes = bytes
bytes_loop number (suc left) bytes =
    bytes_loop (number / 2 ^ 8) left (bytes ++ (number % 2 ^ 8) ∷ [])

unfoldable pub number_to_bytes_le : ℕ → ℕ → Bytes
unfolding bytes_loop
number_to_bytes_le number result_length = bytes_loop number result_length []

-- The number that bytes in little-endian order stand for.
abbrev pub le_value : Bytes → ℕ
le_value [] = 0
le_value (b ∷ bs) = b + 256 * le_value bs

bytes_loop-append : (k n : ℕ) (out : Bytes) → bytes_loop n k out ≡ out ++ bytes_loop n k []
unfolding bytes_loop
bytes_loop-append zero n out = rw append-nil
bytes_loop-append (suc k) n out = rw (
  bytes_loop-append k (n / 2 ^ 8) (out ++ (n % 2 ^ 8) ∷ []),
  bytes_loop-append k (n / 2 ^ 8) ((n % 2 ^ 8) ∷ []),
  append_assoc,
)

number_to_bytes_le-suc :
    (n k : ℕ) → number_to_bytes_le n (suc k) ≡ (n % 256) ∷ number_to_bytes_le (n / 256) k
unfolding number_to_bytes_le
number_to_bytes_le-suc n k = bytes_loop-append k (n / 256) ((n % 256) ∷ [])

pub length-number_to_bytes_le : (k n : ℕ) → length (number_to_bytes_le n k) ≡ k
length-number_to_bytes_le zero n = unfold number_to_bytes_le in refl
length-number_to_bytes_le (suc k) n =
    rw number_to_bytes_le-suc (ap suc (length-number_to_bytes_le k (n / 256)))

mod_step : (n p : ℕ) → n % 256 + 256 * ((n / 256) % p) ≡ n % (256 * p)
mod_step n p = grind arith

-- The bytes of a number stand for it modulo 256 to their count, and each is below 256.
pub le_value-number_to_bytes_le :
    (n k : ℕ)
    → (le_value (number_to_bytes_le n k) ≡ n % 256 ^ k)
      × All (λ b. b < 256) (number_to_bytes_le n k)
le_value-number_to_bytes_le n zero = unfold number_to_bytes_le in (omega arith, tt)
le_value-number_to_bytes_le n (suc k) =
    let (value, bytes) = le_value-number_to_bytes_le (n / 256) k in
    rw number_to_bytes_le-suc
      (rw (value, mod_step n (256 ^ k), pow-succ' 256 k) refl, (omega arith, bytes))
