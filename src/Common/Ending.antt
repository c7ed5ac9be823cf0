-- ===== src/Common/Ending.antt =====
-- How a piece of the program ends: with a value, by `exit`, by `abort` (a failed assertion or an
-- exception that nothing catches, too), or in behaviour that C++ leaves undefined.
use Prim.Native.Nat.{ℕ}
use mathlib.Core.Path.{◌≡◌, refl, subst}
use mathlib.Core.Bool.{Bool, true, false}

pub data Outcome {ℓ} (A : Type ℓ) : Type ℓ where
  ok : A → Outcome A
  exited : ℕ → Outcome A
  aborted : Outcome A
  undefined : Outcome A

infixl 5 ◌>>=◌ ◌>>◌
-- go on with the value, and with nothing after any other end
abbrev pub ◌>>=◌ {ℓ κ} :
    {X : Type ℓ} {Y : Type κ} (end : Outcome X) (next : X → Outcome Y) → Outcome Y
undefined >>= next = undefined
aborted >>= next = aborted
exited code >>= next = exited code
ok value >>= next = next value

-- `assert(test)`
abbrev pub assert : Bool → Outcome (Unit {0})
assert true = ok tt
assert false = aborted

-- go on without a value
abbrev pub ◌>>◌ {ℓ} : {Y : Type ℓ} (end : Outcome (Unit {0})) (next : Outcome Y) → Outcome Y
end >> next = end >>= λ nothing. next

-- a value at the end is the value of the first part, passed on
pub >>=-eq_ok {ℓ κ} :
    {X : Type ℓ} {Y : Type κ} (first : Outcome X) (next : X → Outcome Y) {y : Y}
    (ends : (first >>= next) ≡ ok y)
    → (x : X) × (first ≡ ok x) × (next x ≡ ok y)
>>=-eq_ok undefined next ends = cc
>>=-eq_ok aborted next ends = cc
>>=-eq_ok (exited code) next ends = cc
>>=-eq_ok (ok value) next ends = (value, refl, ends)

-- what holds of the value, if there is one
abbrev pub Holds {ℓ κ} : {A : Type ℓ} → (A → Type κ) → Outcome A → Type κ
Holds P (ok a) = P a
Holds P (exited n) = Unit
Holds P aborted = Unit
Holds P undefined = Unit

pub >>=-Holds {ℓ κ ι} :
    {A : Type ℓ} {B : Type κ} (Q : B → Type ι) (m : Outcome A) (f : A → Outcome B)
    → ((a : A) → m ≡ ok a → Holds Q (f a))
    → Holds Q (m >>= f)
>>=-Holds Q (ok a) f h = h a refl
>>=-Holds Q (exited n) f h = tt
>>=-Holds Q aborted f h = tt
>>=-Holds Q undefined f h = tt

ok_value {ℓ} : {A : Type ℓ} {a b : A} → ok a ≡ ok b → a ≡ b
ok_value e = cc

pub Holds-eq_ok {ℓ κ} :
    {A : Type ℓ} (P : A → Type κ) (m : Outcome A) {a : A} → Holds P m → m ≡ ok a → P a
Holds-eq_ok P (ok a) h e = subst P (ok_value e) h
Holds-eq_ok P (exited n) h e = cc
Holds-eq_ok P aborted h e = cc
Holds-eq_ok P undefined h e = cc

-- what holds of the value can be weakened
pub Holds-map {ℓ κ ι} :
    {A : Type ℓ} (P : A → Type κ) (Q : A → Type ι) (m : Outcome A)
    → ((a : A) → P a → Q a)
    → Holds P m
    → Holds Q m
Holds-map P Q (ok a) f h = f a h
Holds-map P Q (exited n) f h = tt
Holds-map P Q aborted f h = tt
Holds-map P Q undefined f h = tt

-- there is a value at the end
abbrev pub Returns {ℓ} : {A : Type ℓ} → Outcome A → Type ℓ
Returns end = (value : _) × (end ≡ ok value)

pub >>=-Returns {ℓ κ} :
    {A : Type ℓ} {B : Type κ} (m : Outcome A) (f : A → Outcome B)
    → Returns m
    → ((a : A) → Returns (f a))
    → Returns (m >>= f)
>>=-Returns m f (a, e) h = rw e (h a)
