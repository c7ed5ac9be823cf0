-- ===== src/Common/Lines.antt =====
-- Writing lines and reading them.
use osiris_arm.Common.Tests.{◌==◌, ==_iff}
use osiris_arm.Common.Lists.{All}
use osiris_arm.Common.Text.{Bytes, lines_from, lines, unlines}
use osiris_arm.Common.{
  ℕ, ◌≡◌, ◌≢◌, refl, ap, ◌∙◌, List, [], ◌∷◌, ◌++◌, inl, inr, Bool-cases, append_assoc, append-nil,
}

lines_from-newline : (cur s : Bytes) → lines_from cur (b'\n' ∷ s) ≡ cur ∷ lines_from [] s
unfolding lines_from
lines_from-newline [] s = refl
lines_from-newline (c ∷ cur) s = refl

lines_from-char :
    (cur : Bytes) (c : ℕ) (s : Bytes)
    → c ≢ b'\n'
    → lines_from cur (c ∷ s) ≡ lines_from (cur ++ c ∷ []) s
unfolding lines_from
lines_from-char [] c s h = elim (Bool-cases (c == b'\n')) [
  | inl e ↦ absurd (h ((==_iff c b'\n').0 e))
  | inr e ↦ rw e refl
]
lines_from-char (d ∷ cur) c s h = elim (Bool-cases (c == b'\n')) [
  | inl e ↦ absurd (h ((==_iff c b'\n').0 e))
  | inr e ↦ rw e refl
]

lines_from-line :
    (cur l s : Bytes)
    → All (λ c. c ≢ b'\n') l
    → lines_from cur (l ++ b'\n' ∷ s) ≡ (cur ++ l) ∷ lines_from [] s
lines_from-line cur [] s h = lines_from-newline cur s ∙ rw (append-nil cur) refl
lines_from-line cur (c ∷ l) s (hc, h) =
    lines_from-char cur c (l ++ b'\n' ∷ s) hc
    ∙ (lines_from-line (cur ++ c ∷ []) l s h ∙ rw (append_assoc cur (c ∷ []) l) refl)

pub lines-unlines :
    (ls : List Bytes) → All (λ l. All (λ c. c ≢ b'\n') l) ls → lines (unlines ls) ≡ ls
unfolding lines unlines lines_from
lines-unlines [] h = refl
lines-unlines (l ∷ ls) (hl, h) =
    lines_from-line [] l (unlines ls) hl ∙ ap (◌∷◌ l) (lines-unlines ls h)
