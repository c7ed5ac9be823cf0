-- ===== src/Executor/Page/Layout.antt =====
-- src/executor.cc: what the functions that write to a code page leave on it.
use osiris_arm.Common.{
  ℕ, zero, suc, ◌+◌, ◌≤◌, ◌<◌, ◌≡◌, refl, sym, ap, ◌∙◌, Bytes, List, [], ◌∷◌, ◌++◌, inl, inr,
  Bool-cases, ltb, leb, if◌then◌else◌, length, drop, set, repeat, Outcome, ok, aborted, ◌>>=◌, ◌>>◌,
  assert, arith, append-nil, append_assoc, length-append, length-drop, drop-append, take-append,
}
use osiris_arm.Executor.Page.{
  CodePage, pagesize, write_at, nop_sled, initialize_code_page, add_instruction_to_code_page,
  write_loop, add_bytes_to_code_page, add_all, add_repeated,
}

length-nop_sled : length nop_sled ≡ pagesize
unfolding nop_sled repeat
length-nop_sled = refl

-- The page that holds some code, with the sled behind it.
abbrev pub laid_out : Bytes → CodePage
laid_out code = record {
  bytes = code ++ drop (length code) nop_sled;
  last_written_index = length code;
}

-- The code is on the page when it is shorter than the page, and the program aborts otherwise.
abbrev pub emit : Bytes → Outcome CodePage
emit code = if ltb (length code) pagesize then ok (laid_out code) else aborted

drop-nil : (n : ℕ) → drop {A = ℕ} n [] ≡ []
drop-nil zero = refl
drop-nil (suc n) = refl

drop-length_append :
    (a b s : Bytes) → drop (length (a ++ b)) s ≡ drop (length b) (drop (length a) s)
drop-length_append [] b s = refl
drop-length_append (x ∷ a) b [] = sym (drop-nil (length b))
drop-length_append (x ∷ a) b (y ∷ s) = drop-length_append a b s

write_at-append :
    (code i rest : Bytes)
    → write_at (length code) i (code ++ rest) ≡ code ++ (i ++ drop (length i) rest)
unfolding write_at
write_at-append code i rest =
    rw
      (
        take-append code rest,
        sym (length-append code i),
        drop-length_append code i (code ++ rest),
        drop-append code rest,
      )
      refl

set-append : (a b : Bytes) (c x : ℕ) → set (a ++ c ∷ b) (length a) x ≡ a ++ x ∷ b
set-append [] b c x = refl
set-append (y ∷ a) b c x = ap (◌∷◌ y) (set-append a b c x)

-- The loop that writes byte by byte overwrites as many bytes.
write_loop-append :
    (bs a b : Bytes)
    → length bs ≤ length b
    → write_loop bs (length a) (a ++ b) ≡ a ++ (bs ++ drop (length bs) b)
unfolding write_loop
write_loop-append [] a b h = refl
write_loop-append (x ∷ bs) a [] h = absurd (omega arith)
write_loop-append (x ∷ bs) a (c ∷ b) h = rw (set-append a b c x) (
    shift (length (a ++ x ∷ [])) (omega (arith, length-append a (x ∷ [])))
      (write_loop-append bs (a ++ x ∷ []) b (omega arith)))
  where
    shift :
        (n : ℕ)
        → n ≡ length a + 1
        → write_loop bs n ((a ++ x ∷ []) ++ b) ≡ (a ++ x ∷ []) ++ (bs ++ drop (length bs) b)
        → write_loop bs (length a + 1) (a ++ x ∷ b) ≡ a ++ x ∷ (bs ++ drop (length bs) b)
    shift n e h' =
        ap (λ k. write_loop bs k (a ++ x ∷ b)) (sym e)
        ∙ (ap (λ t. write_loop bs n t) (sym (append_assoc a (x ∷ []) b))
            ∙ (h' ∙ append_assoc a (x ∷ []) (bs ++ drop (length bs) b)))

-- Writing byte by byte is copying the block, where the page has room for it.
pub write_loop_lem :
    (bs code rest : Bytes)
    → length bs ≤ length rest
    → write_loop bs (length code) (code ++ rest) ≡ write_at (length code) bs (code ++ rest)
write_loop_lem bs code rest h =
    write_loop-append bs code rest h ∙ sym (write_at-append code bs rest)

-- A function of the page appends its bytes to the code on it, or aborts.
pub record Emits (f : CodePage → Outcome CodePage) (added : Bytes) : Type 0 where
  pub emits : (code : Bytes) → length code < pagesize → f (laid_out code) ≡ emit (code ++ added)

laid_out-append :
    (code i : Bytes)
    → ◌≡◌ {A = CodePage}
        (record {
          bytes = code ++ (i ++ drop (length i) (drop (length code) nop_sled));
          last_written_index = length code + length i;
        })
        (laid_out (code ++ i))
laid_out-append code i =
    rw (append_assoc code i, drop-length_append code i nop_sled, length-append code i) refl

pub add_instruction_to_code_page-Emits : (i : Bytes) → Emits (add_instruction_to_code_page i) i
unfolding add_instruction_to_code_page
add_instruction_to_code_page-Emits i = record {
  emits = λ code h. rw (write_at-append code i, laid_out-append code i, length-append code i) refl;
}

add_bytes_to_code_page_lem :
    (i code : Bytes) → add_bytes_to_code_page i (laid_out code) ≡ emit (code ++ i)
unfolding add_bytes_to_code_page
add_bytes_to_code_page_lem i code = elim (Bool-cases (ltb (length code + length i) pagesize)) [
  | inl fits ↦
      let room : length i ≤ length (drop (length code) nop_sled) =
        ground (arith, length-drop (length code) nop_sled, length-nop_sled) in
      rw
        (
          write_loop-append i code (drop (length code) nop_sled) room,
          laid_out-append code i,
          length-append code i,
        )
        refl
  | inr full ↦ rw (length-append code i, full) refl
]

pub add_bytes_to_code_page-Emits : (i : Bytes) → Emits (add_bytes_to_code_page i) i
add_bytes_to_code_page-Emits i = record { emits = λ code h. add_bytes_to_code_page_lem i code }

-- One function behind another.
pub >>=-Emits :
    {f g : CodePage → Outcome CodePage} {a b : Bytes}
    → Emits f a
    → Emits g b
    → Emits (λ page. f page >>= g) (a ++ b)
>>=-Emits {f = f} {g = g} {a = a} {b = b} ef eg = record { emits = both }
  where
    both :
        (code : Bytes)
        → length code < pagesize
        → (f (laid_out code) >>= g) ≡ emit (code ++ (a ++ b))
    both code h = rw (ef.emits code h) (elim (Bool-cases (ltb (length (code ++ a)) pagesize)) [
      | inl fits ↦ rw fits (eg.emits (code ++ a) (ground arith) ∙ ap emit (append_assoc code a b))
      | inr full ↦
          rw (full, sym (append_assoc code a b), length-append (code ++ a) b) (ground arith)
    ])

ok-Emits : Emits (λ page. ok page) []
ok-Emits = record { emits = λ code h. rw (append-nil code) (ground arith) }

-- the bytes of instructions, one after the other
unfoldable pub concat : List Bytes → Bytes
concat [] = []
concat (i ∷ is) = i ++ concat is

pub add_all-Emits : (is : List Bytes) → Emits (add_all is) (concat is)
unfolding add_all concat
add_all-Emits [] = ok-Emits
add_all-Emits (i ∷ is) = >>=-Emits (add_instruction_to_code_page-Emits i) (add_all-Emits is)

pub add_repeated-Emits :
    (amount : ℕ) (sequence : Bytes) → Emits (add_repeated amount sequence) (repeat amount sequence)
unfolding add_repeated repeat
add_repeated-Emits zero sequence = ok-Emits
add_repeated-Emits (suc amount) sequence =
    >>=-Emits (add_bytes_to_code_page-Emits sequence) (add_repeated-Emits amount sequence)

-- an assertion that a written index is inside the page never fails
pub assert-Emits : Emits (λ page. assert (ltb page.last_written_index pagesize) >> ok page) []
assert-Emits = record { emits = λ code h. rw (append-nil code) (ground arith) }

-- An outcome for at most 100 repetitions, and an abort for more.
abbrev pub up_to_100 : ℕ → Outcome CodePage → Outcome CodePage
up_to_100 amount made = if leb amount 100 then made else aborted

-- A function of the page that appends its bytes when the assertion on an amount holds.
pub record EmitsUpTo (amount : ℕ) (f : CodePage → Outcome CodePage) (added : Bytes) : Type 0 where
  pub emits :
      (code : Bytes)
      → length code < pagesize
      → f (laid_out code) ≡ up_to_100 amount (emit (code ++ added))

pub assert-EmitsUpTo :
    {f : CodePage → Outcome CodePage} {a : Bytes} (amount : ℕ)
    → Emits f a
    → EmitsUpTo amount (λ page. assert (leb amount 100) >> f page) a
assert-EmitsUpTo {f = f} {a = a} amount ef = record { emits = tested }
  where
    tested :
        (code : Bytes)
        → length code < pagesize
        → (assert (leb amount 100) >> f (laid_out code)) ≡ up_to_100 amount (emit (code ++ a))
    tested code h = elim (Bool-cases (leb amount 100)) [
      | inl e ↦ rw e (ef.emits code h)
      | inr e ↦ rw e refl
    ]

pub >>=-EmitsUpTo :
    {f g : CodePage → Outcome CodePage} {a b : Bytes} {amount : ℕ}
    → Emits f a
    → EmitsUpTo amount g b
    → EmitsUpTo amount (λ page. f page >>= g) (a ++ b)
>>=-EmitsUpTo {f = f} {g = g} {a = a} {b = b} {amount = amount} ef eg = record { emits = both }
  where
    both :
        (code : Bytes)
        → length code < pagesize
        → (f (laid_out code) >>= g) ≡ up_to_100 amount (emit (code ++ (a ++ b)))
    both code h = rw (ef.emits code h) (elim (Bool-cases (ltb (length (code ++ a)) pagesize)) [
      | inl fits ↦ rw fits (
          eg.emits (code ++ a) (ground arith)
          ∙ ap (λ t. up_to_100 amount (emit t)) (append_assoc code a b))
      | inr full ↦
          rw (full, sym (append_assoc code a b), length-append (code ++ a) b) (ground arith)
    ])

-- a fresh page holds no code
pub initialize_code_page_lem : (page : CodePage) → initialize_code_page page ≡ laid_out []
unfolding initialize_code_page
initialize_code_page_lem page = refl
