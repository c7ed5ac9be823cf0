-- ===== src/Utils/Base64.antt =====
-- src/utils.cc: base64_encode and base64_decode. `(x & mask) >> lo` on a run of bits is `field`;
-- an `unsigned char` keeps a value modulo 256. Texts are shorter than 2 ^ 31, so `in_len` is exact.
pub mod Tables
pub mod Laws
pub mod Alphabet
pub mod RoundTrip
pub mod Decoded
use osiris_arm.Common.{
  ℕ, zero, suc, ◌+◌, ◌-◌, ◌*◌, ◌/◌, ◌%◌, ◌^◌, Bytes, codes, List, [], ◌∷◌, ◌++◌, Bool, true, false,
  ◌&&◌, ◌||◌, Option, none, some, ◌==◌, leb, if◌then◌else◌, get_or, take, length,
}

abbrev pub base64_chars : Bytes
base64_chars = codes "ABCDEFGHIJKLMNOPQRSTUVWXYZabcdefghijklmnopqrstuvwxyz0123456789+/"

-- `isalnum` in the C locale
unfoldable pub is_alnum : ℕ → Bool
is_alnum c = (leb b'0' c && leb c b'9') || (leb b'A' c && leb c b'Z') || (leb b'a' c && leb c b'z')

unfoldable pub is_base64 : ℕ → Bool
unfolding is_alnum
is_base64 c = is_alnum c || c == b'+' || c == b'/'

-- the `width` bits of `x` from bit `lo` on
abbrev pub field : ℕ → ℕ → ℕ → ℕ
field x lo width = (x / 2 ^ lo) % 2 ^ width

-- `base64_chars.find(c)` kept in an `unsigned char`: npos is 2 ^ 64 - 1, so it becomes 255
find_from : ℕ → Bytes → ℕ → ℕ
find_from i [] c = 255
find_from i (d ∷ s) c = if d == c then i else find_from (i + 1) s c

unfoldable pub find_char : ℕ → ℕ
unfolding find_from
find_char c = find_from 0 base64_chars c

-- `base64_chars[i]`
unfoldable pub char_at : ℕ → ℕ
char_at i = get_or base64_chars i 0

-- The three bytes that four values stand for: `char_array_3` from `char_array_4`.
unfoldable pub array_3 : ℕ → ℕ → ℕ → ℕ → Bytes
array_3 a b c d =
    ((a * 2 ^ 2 + field b 4 2) % 256)
    ∷ ((field b 0 4 * 2 ^ 4 + field c 2 4) % 256)
    ∷ ((field c 0 2 * 2 ^ 6 + d) % 256)
    ∷ []

-- What stands behind the loop: the values not read are `find('\0')`, and `i - 1` bytes are kept.
unfoldable pub decode_rest : Bytes → Bytes → Bytes
unfolding array_3 find_char
decode_rest [] ret = ret
decode_rest (a ∷ []) ret = ret
decode_rest (a ∷ b ∷ []) ret =
    ret ++ take 1 (array_3 (find_char a) (find_char b) (find_char 0) (find_char 0))
decode_rest (a ∷ b ∷ c ∷ rest) ret =
    ret ++ take 2 (array_3 (find_char a) (find_char b) (find_char c) (find_char 0))

-- The loop over the text. `quad` is `char_array_4` up to `i`; a fourth character empties it.
unfoldable pub push_char : Bytes → ℕ → Bytes → Bytes × Bytes
unfolding array_3 find_char
push_char (a ∷ b ∷ c ∷ []) d ret =
    ([], ret ++ array_3 (find_char a) (find_char b) (find_char c) (find_char d))
push_char quad d ret = (quad ++ d ∷ [], ret)

unfoldable pub decode_loop : Bytes → Bytes → Bytes → Bytes
unfolding push_char decode_rest is_base64
decode_loop [] quad ret = decode_rest quad ret
decode_loop (c ∷ s) quad ret =
    let next = push_char quad c ret in
    let rest = decode_loop s next.0 next.1 in
    if c == b'=' then decode_rest quad ret else if is_base64 c then rest else decode_rest quad ret

unfoldable pub base64_decode : Bytes → Bytes
unfolding decode_loop
base64_decode encoded_string = decode_loop encoded_string [] []

-- `pos` moves by three; the text is appended to `ret`
unfoldable pub encode_loop : Bytes → Bytes → Bytes
unfolding char_at
encode_loop [] ret = ret
encode_loop (x ∷ []) ret =
    ret ++ char_at (field x 2 6) ∷ char_at (field x 0 2 * 2 ^ 4) ∷ b'=' ∷ b'=' ∷ []
encode_loop (x ∷ y ∷ []) ret =
    ret
    ++ char_at (field x 2 6)
      ∷ char_at (field x 0 2 * 2 ^ 4 + field y 4 4)
      ∷ char_at (field y 0 4 * 2 ^ 2)
      ∷ b'='
      ∷ []
encode_loop (x ∷ y ∷ z ∷ rest) ret = encode_loop rest (
    ret
    ++ char_at (field x 2 6)
      ∷ char_at (field x 0 2 * 2 ^ 4 + field y 4 4)
      ∷ char_at (field y 0 4 * 2 ^ 2 + field z 6 2)
      ∷ char_at (field z 0 6)
      ∷ [])

unfoldable pub base64_encode : Bytes → Bytes
unfolding encode_loop
base64_encode bytes_to_encode = encode_loop bytes_to_encode []
