-- ===== src/Utils/Split/Laws.antt =====
-- SplitString of src/utils.cc, and joins of fields.
use osiris_arm.Common.{
  false, Bool-cases, inl, inr, ◌==◌, ℕ, suc, ◌≡◌, ◌≢◌, refl, ap, sym, ◌∙◌, Bytes, List, [], ◌∷◌,
  ◌++◌, arith, length, All, ==_refl,
}
use osiris_arm.Common.Text.{starts_with, contains}
use osiris_arm.Utils.Split.{
  split_string, split_string-fields, fields, cons_head, join, count, Lacks,
}

fields-ne-nil : (d : ℕ) (s : Bytes) → fields d s ≢ []
unfolding fields
fields-ne-nil d [] h = cc
fields-ne-nil d (c ∷ s) h = ground (arith, cons_head-ne-nil c (fields d s))
  where
    cons_head-ne-nil : (c : ℕ) (fs : List Bytes) → cons_head c fs ≢ []
    cons_head-ne-nil c [] h = cc
    cons_head-ne-nil c (f ∷ fs) h = cc

join-cons_head : (d c : ℕ) (fs : List Bytes) → join d (cons_head c fs) ≡ c ∷ join d fs
unfolding join
join-cons_head d c [] = refl
join-cons_head d c (f ∷ []) = refl
join-cons_head d c (f ∷ g ∷ fs) = refl

join-nil_cons : (d : ℕ) (fs : List Bytes) → fs ≢ [] → join d ([] ∷ fs) ≡ d ∷ join d fs
unfolding join
join-nil_cons d [] h = absurd (h refl)
join-nil_cons d (f ∷ fs) h = refl

join-fields : (d : ℕ) (s : Bytes) → join d (fields d s) ≡ s
unfolding fields
join-fields d [] = unfold join in refl
join-fields d (c ∷ s) = ground (
  arith,
  join-fields d s,
  join-cons_head d c (fields d s),
  join-nil_cons d (fields d s) (fields-ne-nil d s),
)

cons_head-Lacks :
    (d c : ℕ) (fs : List Bytes) → c ≢ d → All (Lacks d) fs → All (Lacks d) (cons_head c fs)
cons_head-Lacks d c [] h t = ((h, tt), tt)
cons_head-Lacks d c (f ∷ fs) h (hf, t) = ((h, hf), t)

fields-Lacks : (d : ℕ) (s : Bytes) → All (Lacks d) (fields d s)
unfolding fields
fields-Lacks d [] = (tt, tt)
fields-Lacks d (c ∷ s) = ground (arith, fields-Lacks d s, cons_head-Lacks d c (fields d s))

length-cons_head : (c : ℕ) (fs : List Bytes) → fs ≢ [] → length (cons_head c fs) ≡ length fs
length-cons_head c [] h = absurd (h refl)
length-cons_head c (f ∷ fs) h = refl

length-fields : (d : ℕ) (s : Bytes) → length (fields d s) ≡ suc (count d s)
unfolding fields count
length-fields d [] = refl
length-fields d (c ∷ s) =
    ground (arith, length-fields d s, length-cons_head c (fields d s) (fields-ne-nil d s))

fields-append : (d : ℕ) (f s : Bytes) → Lacks d f → fields d (f ++ d ∷ s) ≡ f ∷ fields d s
unfolding fields
fields-append d [] s h = rw ==_refl
fields-append d (c ∷ f) s h = ground (arith, fields-append d f s h.1)

fields_of_Lacks : (d : ℕ) (f : Bytes) → Lacks d f → fields d f ≡ f ∷ []
unfolding fields
fields_of_Lacks d [] h = refl
fields_of_Lacks d (c ∷ f) h = ground (arith, fields_of_Lacks d f h.1)

fields-join : (d : ℕ) (fs : List Bytes) → fs ≢ [] → All (Lacks d) fs → fields d (join d fs) ≡ fs
unfolding join
fields-join d [] h t = absurd (h refl)
fields-join d (f ∷ []) h t = fields_of_Lacks d f t.0
fields-join d (f ∷ g ∷ fs) h t =
    fields-append d f (join d (g ∷ fs)) t.0 ∙ ap (◌∷◌ f) (fields-join d (g ∷ fs) (λ e. cc) t.1)

-- Putting the delimiter back between the fields gives the text, no field holds the delimiter, and
-- there is one field more than the text has delimiters. This holds of every text and delimiter.
pub split_string_lem :
    (s : Bytes) (d : ℕ)
    → (join d (split_string s d) ≡ s)
      × All (Lacks d) (split_string s d)
      × (length (split_string s d) ≡ suc (count d s))
split_string_lem s d =
    rw (split_string-fields s d) (join-fields d s, fields-Lacks d s, length-fields d s)

-- Fields without the delimiter, at least one, are split from their join as they were.
pub split_string-join :
    (fs : List Bytes) (d : ℕ) → fs ≢ [] → All (Lacks d) fs → split_string (join d fs) d ≡ fs
split_string-join fs d h t = split_string-fields (join d fs) d ∙ fields-join d fs h t

-- The first field is cut off at the first delimiter.
pub split_string-append :
    (f s : Bytes) (d : ℕ) → Lacks d f → split_string (f ++ d ∷ s) d ≡ f ∷ split_string s d
split_string-append f s d h =
    split_string-fields (f ++ d ∷ s) d
    ∙ (fields-append d f s h ∙ ap (◌∷◌ f) (sym (split_string-fields s d)))

pub split_string_of_Lacks : (f : Bytes) (d : ℕ) → Lacks d f → split_string f d ≡ f ∷ []
split_string_of_Lacks f d h = split_string-fields f d ∙ fields_of_Lacks d f h

-- a text without any of them
pub count-Lacks : (d : ℕ) (s : Bytes) → count d s ≡ 0 → Lacks d s
unfolding count
count-Lacks d [] h = tt
count-Lacks d (c ∷ s) h = elim (Bool-cases (c == d)) [
  | inl e ↦ absurd (ground arith)
  | inr e ↦ (ground arith, count-Lacks d s (ground arith))
]

-- a text in which a single character is not found
pub contains-Lacks : (d : ℕ) (s : Bytes) → contains (d ∷ []) s ≡ false → Lacks d s
unfolding contains starts_with
contains-Lacks d [] h = tt
contains-Lacks d (c ∷ s) h = elim (Bool-cases (d == c)) [
  | inl e ↦ absurd (cc (rw e at h))
  | inr e ↦ (ground arith, contains-Lacks d s (rw e at h))
]
