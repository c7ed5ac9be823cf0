-- ===== src/Utils/Median.antt =====
-- src/utils.h: median, at `int64_t`. The result is a double that is a whole number or a half, so the
-- model returns twice that double. `std::sort` is an insertion sort here; of equal numbers all orders
-- are one.
pub mod Sort
pub mod Middle
use osiris_arm.Common.{ℕ, ◌-◌, ◌/◌, ◌%◌, List, [], ◌∷◌, ◌==◌, if◌then◌else◌, get_or, length}
use osiris_arm.Common.Int.{ℤ, pos, ◌+ℤ◌, leb_ℤ}
use osiris_arm.Utils.Double.{wrap_int64, to_double}

unfoldable pub insert : ℤ → List ℤ → List ℤ
insert x [] = x ∷ []
insert x (y ∷ ys) = if leb_ℤ x y then x ∷ y ∷ ys else y ∷ insert x ys

unfoldable pub sort : List ℤ → List ℤ
unfolding insert
sort [] = []
sort (x ∷ xs) = insert x (sort xs)

-- `values[i]`, which the callers below keep in range
abbrev pub at : List ℤ → ℕ → ℤ
at values i = get_or values i (pos 0)

-- the middle of sorted values as a double, times two
unfoldable pub middle : List ℤ → ℤ
unfolding to_double wrap_int64
middle values =
    if length values % 2 == 0
    then to_double
        (wrap_int64 (at values ((length values - 1) / 2) +ℤ at values (length values / 2)))
    else to_double (at values (length values / 2)) +ℤ to_double (at values (length values / 2))

unfoldable pub median : List ℤ → ℤ
unfolding sort middle
median [] = pos 0
median (x ∷ xs) = middle (sort (x ∷ xs))
