-- ===== src/Utils/Split.antt =====
-- src/utils.cc: SplitString. The iterators `start` and `next` are the text that is left from them;
-- `std::find` gives what stands before the delimiter and the text from it on.
pub mod Laws
use osiris_arm.Common.{
  ℕ, zero, suc, ◌+◌, ◌≤◌, ◌<◌, ◌≡◌, ◌≢◌, refl, ap, sym, ◌∙◌, Bytes, codes, List, [], ◌∷◌, ◌++◌,
  true, false, append-nil, append_assoc, arith, length, length-append, All, All-append, ◌==◌,
  if◌then◌else◌,
}

-- `[start, next)` for `next = std::find(start, end, delimiter)`
unfoldable pub before : ℕ → Bytes → Bytes
before delimiter [] = []
before delimiter (c ∷ s) = if c == delimiter then [] else c ∷ before delimiter s

-- `[next, end)`
unfoldable pub from : ℕ → Bytes → Bytes
from delimiter [] = []
from delimiter (c ∷ s) = if c == delimiter then c ∷ s else from delimiter s

-- the `while (next != end)`: each round takes a delimiter from the text, so one more round than
-- the text has bytes is fuel enough
split_loop : ℕ → ℕ → Bytes → List Bytes → List Bytes
split_loop delimiter zero start results = results
split_loop delimiter (suc fuel) start results = elim (from delimiter start) [
  | [] ↦ results ++ before delimiter start ∷ []
  | _ ∷ rest ↦ split_loop delimiter fuel rest (results ++ before delimiter start ∷ [])
]

unfoldable pub split_string : Bytes → ℕ → List Bytes
unfolding split_loop before from
split_string input_str delimiter = split_loop delimiter (suc (length input_str)) input_str []

-- The fields between the delimiters of a text, by recursion on the text.
abbrev pub cons_head : ℕ → List Bytes → List Bytes
cons_head c [] = (c ∷ []) ∷ []
cons_head c (f ∷ fs) = (c ∷ f) ∷ fs

unfoldable pub fields : ℕ → Bytes → List Bytes
fields d [] = [] ∷ []
fields d (c ∷ s) = if c == d then [] ∷ fields d s else cons_head c (fields d s)

-- The fields with the delimiter between them.
unfoldable pub join : ℕ → List Bytes → Bytes
join d [] = []
join d (f ∷ []) = f
join d (f ∷ g ∷ fs) = f ++ d ∷ join d (g ∷ fs)

unfoldable pub count : ℕ → Bytes → ℕ
count d [] = 0
count d (c ∷ s) = if c == d then suc (count d s) else count d s

abbrev pub Lacks : ℕ → Bytes → Type 0
Lacks d = All (λ c. c ≢ d)

-- what the text from the next delimiter on leaves to do
abbrev fields_after : ℕ → Bytes → Bytes → List Bytes
fields_after d head [] = head ∷ []
fields_after d head (_ ∷ rest) = head ∷ fields d rest

fields_step : (d : ℕ) (s : Bytes) → fields d s ≡ fields_after d (before d s) (from d s)
unfolding fields before from
fields_step d [] = refl
fields_step d (c ∷ s) = ground (arith, fields_step d s)

length-from : (d : ℕ) (s : Bytes) → length (from d s) ≤ length s
unfolding from
length-from d [] = omega arith
length-from d (c ∷ s) = ground (arith, length-from d s)

split_loop-fields :
    (d fuel : ℕ) (s : Bytes) (results : List Bytes)
    → length s < fuel
    → split_loop d fuel s results ≡ results ++ fields d s
unfolding split_loop
split_loop-fields d zero s results h = absurd (omega arith)
split_loop-fields d (suc fuel) s results h =
    rw (fields_step d s)
      (go (λ rest out. split_loop-fields d fuel rest out) (from d s) (length-from d s))
  where
    go :
        ((rest : Bytes) (out : List Bytes)
          → length rest < fuel
          → split_loop d fuel rest out ≡ out ++ fields d rest)
        → (f : Bytes) → length f ≤ length s
        → elim f [
          | [] ↦ results ++ before d s ∷ []
          | _ ∷ rest ↦ split_loop d fuel rest (results ++ before d s ∷ [])
        ]
          ≡ results ++ fields_after d (before d s) f
    go ih [] l = refl
    go ih (c ∷ rest) l =
        ih rest (results ++ before d s ∷ []) (omega arith)
        ∙ append_assoc results (before d s ∷ []) (fields d rest)

-- The loop of SplitString cuts a text into exactly the fields between its delimiters.
pub split_string-fields : (s : Bytes) (d : ℕ) → split_string s d ≡ fields d s
unfolding split_string
split_string-fields s d = split_loop-fields d (suc (length s)) s [] (omega arith)
