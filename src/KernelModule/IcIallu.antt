-- ===== src/KernelModule/IcIallu.antt =====
-- kernel_moudle/ic-moudle/ic-iallu.c: the device behind which `ic iallu` stands. What the kernel's functions
-- answer is a parameter; the resources that the module holds are a list, the latest first.
use osiris_arm.Common.{
  ℕ, ◌≡◌, ◌≢◌, refl, List, [], ◌∷◌, Bool, ◌⊎◌, inl, inr, Bool-cases, ◌==◌, if◌then◌else◌, Outcome,
  ok, undefined, ◌>>=◌,
}
use osiris_arm.Common.Int.{ℤ, pos, negsuc}

pub data Resource : Type 0 where
  chrdev_region : Resource
  device_class : Resource
  device : Resource
  character_device : Resource

-- Whether a function succeeds, and the error that `PTR_ERR` reads of a pointer that is none.
pub record Kernel : Type 0 where
  pub alloc_chrdev_region : Bool
  pub class_create : Bool
  pub class_error : ℤ
  pub device_create : Bool
  pub device_error : ℤ
  pub cdev_add : Bool

abbrev pub number_of : Resource → ℕ
number_of chrdev_region = 0
number_of device_class = 1
number_of device = 2
number_of character_device = 3

-- A resource is given back while it is the latest one that is held: anything else is a fault of the module.
unfoldable pub release : Resource → List Resource → Outcome (List Resource)
release r [] = undefined
release r (held ∷ rest) = if number_of r == number_of held then ok rest else undefined

-- ic_iallu_init: what it returns, and what is held
unfoldable pub ic_iallu_init : Kernel → Outcome (ℤ × List Resource)
unfolding release
ic_iallu_init k =
    if k.alloc_chrdev_region
    then (let held1 = chrdev_region ∷ [] in
        if k.class_create
        then (let held2 = device_class ∷ held1 in
            if k.device_create
            then (let held3 = device ∷ held2 in
                if k.cdev_add then ok (pos 0, character_device ∷ held3) else (do
                  a ← release device held3
                  b ← release device_class a
                  c ← release chrdev_region b
                  ok (negsuc 0, c)))
            else (do
              a ← release device_class held2
              b ← release chrdev_region a
              ok (k.device_error, b)))
        else (do a ← release chrdev_region held1; ok (k.class_error, a)))
    else ok (negsuc 0, [])

unfoldable pub ic_iallu_exit : List Resource → Outcome (List Resource)
unfolding release
ic_iallu_exit held = do
  a ← release character_device held
  b ← release device a
  c ← release device_class b
  release chrdev_region c

-- ic_iallu_write: the instruction is executed, and all bytes count as written
unfoldable pub ic_iallu_write {ℓ} : {World : Type ℓ} → (World → World) → ℕ → World → ℕ × World
ic_iallu_write ic_iallu count world = (count, ic_iallu world)

-- The module loads with all four resources, which the exit gives back, latest first, or it does not load and
-- holds nothing; a load that fails returns an error when the errors of the kernel are none of them 0.
pub ic_iallu_init_lem :
    (k : Kernel)
    → k.class_error ≢ pos 0
    → k.device_error ≢ pos 0
    → (r : ℤ × List Resource) × (ic_iallu_init k ≡ ok r)
      × (((r.0 ≡ pos 0) × (ic_iallu_exit r.1 ≡ ok [])) ⊎ ((r.0 ≢ pos 0) × (r.1 ≡ [])))
unfolding ic_iallu_init ic_iallu_exit
ic_iallu_init_lem k class_fails device_fails = elim (Bool-cases k.alloc_chrdev_region) [
  | inr e1 ↦ ((negsuc 0, []), rw e1 refl, inr ((λ p. cc), refl))
  | inl e1 ↦ elim (Bool-cases k.class_create) [
    | inr e2 ↦ ((k.class_error, []), rw (e1, e2) refl, inr (class_fails, refl))
    | inl e2 ↦ elim (Bool-cases k.device_create) [
      | inr e3 ↦ ((k.device_error, []), rw (e1, e2, e3) refl, inr (device_fails, refl))
      | inl e3 ↦ elim (Bool-cases k.cdev_add) [
        | inr e4 ↦ ((negsuc 0, []), rw (e1, e2, e3, e4) refl, inr ((λ p. cc), refl))
        | inl e4 ↦ (
          (pos 0, character_device ∷ device ∷ device_class ∷ chrdev_region ∷ []),
          rw (e1, e2, e3, e4) refl,
          inl (refl, refl),
        )
      ]
    ]
  ]
]
