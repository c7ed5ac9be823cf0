-- ===== src/Utils/Base64/Decoded.antt =====
-- What base64_decode of src/utils.cc gives on any text.
use osiris_arm.Common.{
  ℕ, Bytes, [], ◌∷◌, ◌++◌, inl, inr, Bool-cases, ◌==◌, take, arith, All, All-append, All-take,
}
use osiris_arm.Utils.Base64.{
  array_3, find_char, is_base64, decode_rest, push_char, decode_loop, base64_decode,
}
use osiris_arm.Utils.Base64.Laws.{IsByte}

array_3-IsByte : (a b c d : ℕ) → All IsByte (array_3 a b c d)
unfolding array_3
array_3-IsByte a b c d = (omega arith, (omega arith, (omega arith, tt)))

append-IsByte : (xs ys : Bytes) → All IsByte xs → All IsByte ys → All IsByte (xs ++ ys)
append-IsByte xs ys hx hy = All-append IsByte xs ys hx hy

kept-IsByte :
    (n : ℕ) (ret : Bytes) (a b c d : ℕ)
    → All IsByte ret
    → All IsByte (ret ++ take n (array_3 a b c d))
kept-IsByte n ret a b c d h =
    append-IsByte ret (take n (array_3 a b c d)) h
      (All-take IsByte n (array_3 a b c d) (array_3-IsByte a b c d))

decode_rest-IsByte : (quad ret : Bytes) → All IsByte ret → All IsByte (decode_rest quad ret)
unfolding decode_rest
decode_rest-IsByte [] ret h = h
decode_rest-IsByte (a ∷ []) ret h = h
decode_rest-IsByte (a ∷ b ∷ []) ret h =
    kept-IsByte 1 ret (find_char a) (find_char b) (find_char 0) (find_char 0) h
decode_rest-IsByte (a ∷ b ∷ c ∷ rest) ret h =
    kept-IsByte 2 ret (find_char a) (find_char b) (find_char c) (find_char 0) h

push_char-IsByte :
    (quad : Bytes) (d : ℕ) (ret : Bytes) → All IsByte ret → All IsByte (push_char quad d ret).1
unfolding push_char
push_char-IsByte [] d ret h = h
push_char-IsByte (a ∷ []) d ret h = h
push_char-IsByte (a ∷ b ∷ []) d ret h = h
push_char-IsByte (a ∷ b ∷ c ∷ []) d ret h =
    append-IsByte ret (array_3 (find_char a) (find_char b) (find_char c) (find_char d)) h
      (array_3-IsByte (find_char a) (find_char b) (find_char c) (find_char d))
push_char-IsByte (a ∷ b ∷ c ∷ e ∷ quad) d ret h = h

decode_loop-IsByte : (s quad ret : Bytes) → All IsByte ret → All IsByte (decode_loop s quad ret)
unfolding decode_loop
decode_loop-IsByte [] quad ret h = decode_rest-IsByte quad ret h
decode_loop-IsByte (c ∷ s) quad ret h =
    let next = push_char quad c ret in
    elim (Bool-cases (c == b'=')) [
      | inl e ↦ rw e (decode_rest-IsByte quad ret h)
      | inr e ↦ rw e (elim (Bool-cases (is_base64 c)) [
        | inl f ↦ rw f (decode_loop-IsByte s next.0 next.1 (push_char-IsByte quad c ret h))
        | inr f ↦ rw f (decode_rest-IsByte quad ret h)
      ])
    ]

-- Any text is decoded to bytes.
pub base64_decode-IsByte : (s : Bytes) → All IsByte (base64_decode s)
unfolding base64_decode
base64_decode-IsByte s = decode_loop-IsByte s [] [] tt
