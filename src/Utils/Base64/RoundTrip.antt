-- ===== src/Utils/Base64/RoundTrip.antt =====
-- base64_encode of src/utils.cc, and base64_decode behind it.
use osiris_arm.Common.{
  ℕ, ◌+◌, ◌*◌, ◌/◌, ◌^◌, ◌<◌, ◌≡◌, refl, ap, sym, ◌∙◌, Bytes, [], ◌∷◌, ◌++◌, append-nil,
  append_assoc, arith, length, All, take,
}
use osiris_arm.Utils.Base64.{
  base64_decode, base64_encode, decode_loop, decode_rest, push_char, encode_loop, array_3, char_at,
  find_char, field,
}
use osiris_arm.Utils.Base64.Tables.{find_char-char_at}
use osiris_arm.Utils.Base64.Laws.{
  IsByte, decode_char, decode_pad, decode_quad, encode_loop-append, array_3_one, array_3_two,
  array_3_three,
}

decode_two :
    (i j : ℕ) (s ret : Bytes)
    → i < 64
    → j < 64
    → decode_loop (char_at i ∷ char_at j ∷ b'=' ∷ s) [] ret
      ≡ ret ++ take 1 (array_3 i j (find_char 0) (find_char 0))
unfolding push_char decode_rest
decode_two i j s ret hi hj =
    rw
      (
        decode_char i (char_at j ∷ b'=' ∷ s) [] ret hi,
        decode_char j (b'=' ∷ s) (char_at i ∷ []) ret hj,
        decode_pad s (char_at i ∷ char_at j ∷ []) ret,
        find_char-char_at i hi,
        find_char-char_at j hj,
      )
      refl

decode_three :
    (i j k : ℕ) (s ret : Bytes)
    → i < 64
    → j < 64
    → k < 64
    → decode_loop (char_at i ∷ char_at j ∷ char_at k ∷ b'=' ∷ s) [] ret
      ≡ ret ++ take 2 (array_3 i j k (find_char 0))
unfolding push_char decode_rest
decode_three i j k s ret hi hj hk =
    rw
      (
        decode_char i (char_at j ∷ char_at k ∷ b'=' ∷ s) [] ret hi,
        decode_char j (char_at k ∷ b'=' ∷ s) (char_at i ∷ []) ret hj,
        decode_char k (b'=' ∷ s) (char_at i ∷ char_at j ∷ []) ret hk,
        decode_pad s (char_at i ∷ char_at j ∷ char_at k ∷ []) ret,
        find_char-char_at i hi,
        find_char-char_at j hj,
        find_char-char_at k hk,
      )
      refl

decode-encode_loop :
    (bs out : Bytes) → All IsByte bs → decode_loop (encode_loop bs []) [] out ≡ out ++ bs
unfolding encode_loop
decode-encode_loop [] out h = unfold decode_loop decode_rest in sym (append-nil out)
decode-encode_loop (x ∷ []) out (hx, _) =
    decode_two (field x 2 6) (field x 0 2 * 2 ^ 4) (b'=' ∷ []) out (omega arith) (omega arith)
    ∙ ap (λ t. out ++ t) (array_3_one x hx (find_char 0) (find_char 0))
decode-encode_loop (x ∷ y ∷ []) out (hx, (hy, _)) =
    decode_three (field x 2 6) (field x 0 2 * 2 ^ 4 + field y 4 4) (field y 0 4 * 2 ^ 2) [] out
      (omega arith) (omega arith) (omega arith)
    ∙ ap (λ t. out ++ t) (array_3_two x hx y hy (find_char 0))
decode-encode_loop (x ∷ y ∷ z ∷ bs) out (hx, (hy, (hz, hs))) =
    rw
      (
        encode_loop-append bs (
            char_at (field x 2 6)
            ∷ char_at (field x 0 2 * 2 ^ 4 + field y 4 4)
            ∷ char_at (field y 0 4 * 2 ^ 2 + field z 6 2)
            ∷ char_at (field z 0 6)
            ∷ []),
        decode_quad (field x 2 6) (field x 0 2 * 2 ^ 4 + field y 4 4)
            (field y 0 4 * 2 ^ 2 + field z 6 2) (field z 0 6) (encode_loop bs []) out (omega arith)
            (omega arith) (omega arith) (omega arith),
        array_3_three x hx y hy z hz,
        decode-encode_loop bs (out ++ x ∷ y ∷ z ∷ []) hs,
        append_assoc,
      )
      refl

-- Decoding the encoding of any bytes gives the bytes back.
pub base64_decode-base64_encode :
    (bs : Bytes) → All IsByte bs → base64_decode (base64_encode bs) ≡ bs
unfolding base64_decode base64_encode
base64_decode-base64_encode bs h = decode-encode_loop bs [] h

length-encode_loop : (bs : Bytes) → length (encode_loop bs []) ≡ (length bs + 2) / 3 * 4
unfolding encode_loop
length-encode_loop [] = refl
length-encode_loop (x ∷ []) = refl
length-encode_loop (x ∷ y ∷ []) = refl
length-encode_loop (x ∷ y ∷ z ∷ bs) =
    rw (encode_loop-append bs) (omega (arith, length-encode_loop bs))

-- The length that base64_encode reserves, `len_encoded`, is the length of what it returns.
pub length-base64_encode : (bs : Bytes) → length (base64_encode bs) ≡ (length bs + 2) / 3 * 4
unfolding base64_encode
length-base64_encode bs = length-encode_loop bs
