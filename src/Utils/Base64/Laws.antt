-- ===== src/Utils/Base64/Laws.antt =====
-- Encoding and decoding in base64, as src/utils.cc does them.
use osiris_arm.Common.{
  ℕ, ◌+◌, ◌*◌, ◌^◌, ◌<◌, ◌≡◌, refl, ap, sym, Bytes, [], ◌∷◌, ◌++◌, append-nil, append_assoc, arith,
  take,
}
use osiris_arm.Utils.Base64.{
  decode_loop, decode_rest, push_char, encode_loop, array_3, char_at, field,
}
use osiris_arm.Utils.Base64.Tables.{find_char-char_at, is_base64-char_at}

abbrev pub IsByte : ℕ → Type 0
IsByte b = b < 256

-- a character of the alphabet is taken
pub decode_char :
    (i : ℕ) (s quad ret : Bytes)
    → i < 64
    → decode_loop (char_at i ∷ s) quad ret
      ≡ decode_loop s (push_char quad (char_at i) ret).0 (push_char quad (char_at i) ret).1
unfolding decode_loop
decode_char i s quad ret h = let (member, other) = is_base64-char_at i h in rw (other, member)

-- padding ends the text
pub decode_pad : (s quad ret : Bytes) → decode_loop (b'=' ∷ s) quad ret ≡ decode_rest quad ret
unfolding decode_loop
decode_pad s quad ret = refl

-- four characters of the alphabet stand for three bytes
pub decode_quad :
    (i j k l : ℕ) (s ret : Bytes)
    → i < 64
    → j < 64
    → k < 64
    → l < 64
    → decode_loop (char_at i ∷ char_at j ∷ char_at k ∷ char_at l ∷ s) [] ret
      ≡ decode_loop s [] (ret ++ array_3 i j k l)
unfolding push_char
decode_quad i j k l s ret hi hj hk hl =
    rw
      (
        decode_char i (char_at j ∷ char_at k ∷ char_at l ∷ s) [] ret hi,
        decode_char j (char_at k ∷ char_at l ∷ s) (char_at i ∷ []) ret hj,
        decode_char k (char_at l ∷ s) (char_at i ∷ char_at j ∷ []) ret hk,
        decode_char l s (char_at i ∷ char_at j ∷ char_at k ∷ []) ret hl,
      )
      (rw
        (
          find_char-char_at i hi,
          find_char-char_at j hj,
          find_char-char_at k hk,
          find_char-char_at l hl,
        )
        refl)

pub encode_loop-append : (bs ret : Bytes) → encode_loop bs ret ≡ ret ++ encode_loop bs []
unfolding encode_loop
encode_loop-append [] ret = sym (append-nil ret)
encode_loop-append (x ∷ []) ret = refl
encode_loop-append (x ∷ y ∷ []) ret = refl
encode_loop-append (x ∷ y ∷ z ∷ bs) ret = simp (encode_loop-append bs, append_assoc)

module _ (x : ℕ) (hx : IsByte x) where
  pub array_3_one : (c d : ℕ) → take 1 (array_3 (field x 2 6) (field x 0 2 * 2 ^ 4) c d) ≡ x ∷ []
  unfolding array_3
  array_3_one c d = ap (λ (b : ℕ). b ∷ []) (omega arith)

  module _ (y : ℕ) (hy : IsByte y) where
    pub array_3_two :
        (d : ℕ)
        → take 2 (array_3 (field x 2 6) (field x 0 2 * 2 ^ 4 + field y 4 4) (field y 0 4 * 2 ^ 2) d)
          ≡ x ∷ y ∷ []
    unfolding array_3
    array_3_two d = ground arith

    pub array_3_three :
        (z : ℕ)
        → IsByte z
        → array_3
            (field x 2 6)
            (field x 0 2 * 2 ^ 4 + field y 4 4)
            (field y 0 4 * 2 ^ 2 + field z 6 2)
            (field z 0 6)
          ≡ x ∷ y ∷ z ∷ []
    unfolding array_3
    array_3_three z hz = ground arith
