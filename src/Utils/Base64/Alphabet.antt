-- ===== src/Utils/Base64/Alphabet.antt =====
-- The characters of an encoding by base64 in src/utils.cc, and the separators of fields and lines.
use osiris_arm.Common.{
  ℕ, ◌+◌, ◌*◌, ◌^◌, ◌<◌, ◌≡◌, ◌≢◌, refl, Bytes, [], ◌∷◌, true, ◌&&◌, not, ◌==◌, arith, All,
  check_table, check_table_sound,
}
use osiris_arm.Utils.Base64.{char_at, field, encode_loop, base64_encode}
use osiris_arm.Utils.Base64.Laws.{IsByte, encode_loop-append}

abbrev pub IsPlain : ℕ → Type 0
IsPlain c = (c ≢ b';') × (c ≢ b'\n')

plain_table : check_table 64 (λ i. not (char_at i == b';') && not (char_at i == b'\n')) ≡ true
unfolding check_table char_at
plain_table = refl

char_at-IsPlain : (i : ℕ) → i < 64 → IsPlain (char_at i)
char_at-IsPlain i h =
    let fact =
      check_table_sound 64 (λ i. not (char_at i == b';') && not (char_at i == b'\n')) i plain_table
        h in
    (ground arith, ground arith)

padding-IsPlain : IsPlain b'='
padding-IsPlain = (omega arith, omega arith)

encode_loop-IsPlain : (bs : Bytes) → All IsByte bs → All IsPlain (encode_loop bs [])
unfolding encode_loop
encode_loop-IsPlain [] h = tt
encode_loop-IsPlain (x ∷ []) (hx, _) = (
  char_at-IsPlain (field x 2 6) (omega arith),
  (char_at-IsPlain (field x 0 2 * 2 ^ 4) (omega arith), (padding-IsPlain, (padding-IsPlain, tt))),
)
encode_loop-IsPlain (x ∷ y ∷ []) (hx, (hy, _)) = (
  char_at-IsPlain (field x 2 6) (omega arith),
  (
    char_at-IsPlain (field x 0 2 * 2 ^ 4 + field y 4 4) (omega arith),
    (char_at-IsPlain (field y 0 4 * 2 ^ 2) (omega arith), (padding-IsPlain, tt)),
  ),
)
encode_loop-IsPlain (x ∷ y ∷ z ∷ bs) (hx, (hy, (hz, hs))) = rw (encode_loop-append bs) (
  char_at-IsPlain (field x 2 6) (omega arith),
  (
    char_at-IsPlain (field x 0 2 * 2 ^ 4 + field y 4 4) (omega arith),
    (
      char_at-IsPlain (field y 0 4 * 2 ^ 2 + field z 6 2) (omega arith),
      (char_at-IsPlain (field z 0 6) (omega arith), encode_loop-IsPlain bs hs),
    ),
  ),
)

-- No encoding of bytes holds a semicolon or a newline.
pub base64_encode-IsPlain : (bs : Bytes) → All IsByte bs → All IsPlain (base64_encode bs)
unfolding base64_encode
base64_encode-IsPlain bs h = encode_loop-IsPlain bs h
