-- ===== src/Utils/Hash.antt =====
-- src/utils.cc: CalculateFileHashSHA256. The hash functions of OpenSSL are a parameter, and so is
-- the file: `none` when it cannot be opened, and otherwise its content.
use osiris_arm.Common.{
  ℕ, zero, suc, ◌+◌, ◌*◌, ◌/◌, ◌%◌, ◌^◌, ◌≤◌, ◌<◌, ◌≡◌, refl, ap, Bytes, [], ◌∷◌, ◌++◌, Option,
  none, some, arith, length, length-drop, take, drop, take-append-drop, All, ltb, if◌then◌else◌,
}
use osiris_arm.Common.Text.{digit}

-- SHA256_Init, SHA256_Update and SHA256_Final: updates one after the other hash the bytes of both,
-- and a digest is SHA256_DIGEST_LENGTH bytes, each below 256.
pub record Sha256 : Type 1 where
  pub Ctx : Type 0
  pub init : Ctx
  pub update : Ctx → Bytes → Ctx
  pub final : Ctx → Bytes
  pub update-append : (c : Ctx) (s t : Bytes) → update (update c s) t ≡ update c (s ++ t)
  pub length-final : (c : Ctx) → length (final c) ≡ 32
  pub final_bytes : (c : Ctx) → All (λ b. b < 256) (final c)

-- `std::setw(2) << std::setfill('0') << std::hex` of a byte
unfoldable pub hex_byte : ℕ → Bytes
unfolding digit
hex_byte b = digit (b / 16) ∷ digit (b % 16) ∷ []

unfoldable pub hexdigest : Bytes → Bytes
unfolding hex_byte
hexdigest [] = []
hexdigest (b ∷ bs) = hex_byte b ++ hexdigest bs

abbrev pub read_buffer_size : ℕ
read_buffer_size = 4096 * 10

module _ (sha : Sha256) where
  open sha use {Ctx, init, update, final, update-append, length-final, final_bytes}

  -- The loop `while (!file_stream.eof())` with a buffer of any size: a read that comes short sets
  -- the end of the file, and a read that fills the buffer does not. Fuel as for the file's length.
  unfoldable pub hash_loop : ℕ → ℕ → Bytes → Ctx → Ctx
  hash_loop size zero content ctx = ctx
  hash_loop size (suc fuel) content ctx =
      let rest = hash_loop size fuel (drop size content) (update ctx (take size content)) in
      if ltb (length content) size then update ctx (take size content) else rest

  unfoldable pub calculate_file_hash_sha256 : Option Bytes → Bytes
  unfolding hash_loop hexdigest
  calculate_file_hash_sha256 none = []
  calculate_file_hash_sha256 (some content) =
      hexdigest (final (hash_loop read_buffer_size (suc (length content)) content init))

  take_all : (size : ℕ) (content : Bytes) → length content < size → take size content ≡ content
  take_all zero content h = absurd (omega arith)
  take_all (suc size) [] h = refl
  take_all (suc size) (c ∷ content) h = ap (◌∷◌ c) (take_all size content (omega arith))

  hash_loop_lem :
      (size fuel : ℕ) (content : Bytes) (ctx : Ctx)
      → 0 < size
      → length content < fuel
      → hash_loop size fuel content ctx ≡ update ctx content
  unfolding hash_loop
  hash_loop_lem size zero content ctx pos h = absurd (omega arith)
  hash_loop_lem size (suc fuel) content ctx pos h = ground (
    arith,
    take_all size content,
    hash_loop_lem size fuel (drop size content) (update ctx (take size content)) pos,
    update-append ctx (take size content) (drop size content),
    take-append-drop size content,
    length-drop size content,
  )

  hexdigest_pair :
      (a b : ℕ)
      → b < 256
      → a < 256
      → hexdigest (a ∷ b ∷ [])
        ≡ digit ((a * 256 + b) / 4096)
          ∷ digit ((a * 256 + b) / 256 % 16)
          ∷ digit ((a * 256 + b) / 16 % 16)
          ∷ digit ((a * 256 + b) % 16)
          ∷ []
  unfolding hexdigest
  hexdigest_pair a b hb ha =
      let p : (a * 256 + b) / 4096 ≡ a / 16 = omega arith in
      let q : (a * 256 + b) / 256 % 16 ≡ a % 16 = omega arith in
      let r : (a * 256 + b) / 16 % 16 ≡ b / 16 = omega arith in
      let s : (a * 256 + b) % 16 ≡ b % 16 = omega arith in rw (p, q, r, s) refl

  abbrev EndsIn : Bytes → ℕ → Bytes → Type 0
  EndsIn start v hash =
      hash
      ≡ start ++ digit (v / 4096) ∷ digit (v / 256 % 16) ∷ digit (v / 16 % 16) ∷ digit (v % 16) ∷ []

  hexdigest_end :
      (xs : Bytes)
      → 2 ≤ length xs
      → All (λ b. b < 256) xs
      → (start : Bytes) × (v : ℕ) × EndsIn start v (hexdigest xs) × (v < 2 ^ 16)
  unfolding hexdigest
  hexdigest_end [] h t = absurd (omega arith)
  hexdigest_end (x ∷ []) h t = absurd (omega arith)
  hexdigest_end (x ∷ y ∷ []) h t =
      ([], x * 256 + y, hexdigest_pair x y t.1.0 t.0, omega (arith, t.0, t.1.0))
  hexdigest_end (x ∷ y ∷ z ∷ xs) h t =
      let (start, v, e, fits) = hexdigest_end (y ∷ z ∷ xs) (omega arith) t.1 in
      (hex_byte x ++ start, v, ap (λ t. hex_byte x ++ t) e, fits)

  -- The hash of a file ends in the four digits of a number below 2 ^ 16.
  pub calculate_file_hash_sha256_end :
      (content : Bytes)
      → (start : Bytes) × (v : ℕ) × EndsIn start v (calculate_file_hash_sha256 (some content))
        × (v < 2 ^ 16)
  unfolding calculate_file_hash_sha256
  calculate_file_hash_sha256_end content =
      let ctx = hash_loop read_buffer_size (suc (length content)) content init in
      hexdigest_end (final ctx) (omega (arith, length-final ctx)) (final_bytes ctx)

  length-hexdigest : (bs : Bytes) → length (hexdigest bs) ≡ 2 * length bs
  unfolding hexdigest hex_byte
  length-hexdigest [] = refl
  length-hexdigest (b ∷ bs) = omega (arith, length-hexdigest bs)

  -- Reading a file in blocks gives the digest of its whole content in hexadecimal, 64 characters.
  pub calculate_file_hash_sha256_lem :
      (content : Bytes)
      → (calculate_file_hash_sha256 (some content) ≡ hexdigest (final (update init content)))
        × (length (calculate_file_hash_sha256 (some content)) ≡ 64)
  unfolding calculate_file_hash_sha256
  calculate_file_hash_sha256_lem content =
      let whole =
        hash_loop_lem read_buffer_size (suc (length content)) content init (omega arith)
          (omega arith) in
      (
        rw whole refl,
        rw whole (
            omega (
              arith,
              length-hexdigest (final (update init content)),
              length-final (update init content),
            )),
      )
