-- ===== src/Utils/Base64/Tables.antt =====
-- The alphabet of base64 in src/utils.cc, checked character by character.
use Prim.Native.Nat.{bit_and}
use osiris_arm.Common.{
  ℕ, ◌/◌, ◌<◌, ◌≡◌, refl, true, false, ◌&&◌, not, arith, ◌==◌, ==_iff, check_table,
  check_table_sound,
}
use osiris_arm.Utils.Base64.{is_base64, find_char, char_at, field}

find_char_table : check_table 64 (λ i. find_char (char_at i) == i) ≡ true
unfolding check_table find_char char_at
find_char_table = refl

-- A character of the alphabet is found at its index.
pub find_char-char_at : (i : ℕ) → i < 64 → find_char (char_at i) ≡ i
find_char-char_at i h = (==_iff _ i).0 (check_table_sound 64 _ i find_char_table h)

alphabet_table : check_table 64 (λ i. is_base64 (char_at i) && not (char_at i == b'=')) ≡ true
unfolding check_table char_at is_base64
alphabet_table = refl

pub is_base64-char_at :
    (i : ℕ) → i < 64 → (is_base64 (char_at i) ≡ true) × ((char_at i == b'=') ≡ false)
is_base64-char_at i h =
    let fact =
      check_table_sound 64 (λ i. is_base64 (char_at i) && not (char_at i == b'=')) i alphabet_table
        h in
    ground arith

-- The runs of bits are the masks that the code writes.
field_table :
    check_table 256 (λ x.
      (field x 2 6 == bit_and x 0xfc / 4)
      && (field x 4 4 == bit_and x 0xf0 / 16)
      && (field x 6 2 == bit_and x 0xc0 / 64)
      && (field x 4 2 == bit_and x 0x30 / 16)
      && (field x 2 4 == bit_and x 0x3c / 4)
      && (field x 0 2 == bit_and x 0x03)
      && (field x 0 4 == bit_and x 0x0f)
      && (field x 0 6 == bit_and x 0x3f))
    ≡ true
unfolding check_table
field_table = refl
