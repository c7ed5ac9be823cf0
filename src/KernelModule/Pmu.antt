-- ===== src/KernelModule/Pmu.antt =====
-- kernel_moudle/arm_pmu_module/arm_pmu.c: the access of user programs to the cycle counter. A handler is
-- the list of its writes to system registers, given what its reads give. The bits of a `u32` are written out:
-- `x & 0x3f` is `x % 2 ^ 6`, and an `|` with one bit adds it unless it is set.
use osiris_arm.Common.{
  ℕ, ◌+◌, ◌-◌, ◌/◌, ◌%◌, ◌^◌, ◌≡◌, refl, List, [], ◌∷◌, map, ◌==◌, if◌then◌else◌, arith,
}

pub data Write : Type 0 where
  pmuserenr_el0 : ℕ → Write
  pmcntenset_el0 : ℕ → Write
  pmintenset_el1 : ℕ → Write
  pmcr_el0 : ℕ → Write

-- `x | 2 ^ k`
unfoldable pub with_bit : ℕ → ℕ → ℕ
with_bit k x = if x / 2 ^ k % 2 == 1 then x else x + 2 ^ k

abbrev pub armv8_pmcr_e : ℕ
armv8_pmcr_e = 0

abbrev pub armv8_pmcr_lc : ℕ
armv8_pmcr_lc = 6

-- armv8pmu_pmcr_write: the value is masked with ARMV8_PMCR_MASK, 0x3f
unfoldable pub armv8pmu_pmcr_write : ℕ → Write
armv8pmu_pmcr_write val = pmcr_el0 (val % 2 ^ 6)

-- The reads of a handler.
pub record Reads : Type 0 where
  pub pmintenset : ℕ
  pub pmcr : ℕ

-- `ARMV8_PMCR_LC &(~(1 << 3))` is ARMV8_PMCR_LC; `~(1 << 31)` is the int 0x7fffffff
unfoldable pub enable_cpu_counters : Reads → List Write
unfolding with_bit armv8pmu_pmcr_write
enable_cpu_counters r =
    pmuserenr_el0 0xf
    ∷ pmcntenset_el0 (2 ^ 31)
    ∷ pmintenset_el1 (r.pmintenset % 2 ^ 31)
    ∷ armv8pmu_pmcr_write (with_bit armv8_pmcr_lc (with_bit armv8_pmcr_e (r.pmcr % 2 ^ 32)))
    ∷ []

-- `x | ~ARMV8_PMCR_E` keeps the last bit and sets the others
unfoldable pub disable_cpu_counters : Reads → List Write
unfolding armv8pmu_pmcr_write
disable_cpu_counters r =
    armv8pmu_pmcr_write (2 ^ 32 - 2 + r.pmcr % 2 ^ 32 % 2) ∷ pmuserenr_el0 0 ∷ []

-- init and fini, on the reads of each CPU
unfoldable pub init : List Reads → List (List Write)
init cpus = map enable_cpu_counters cpus

unfoldable pub fini : List Reads → List (List Write)
fini cpus = map disable_cpu_counters cpus

-- Whatever is read, loading the module writes a PMCR with the enable bit and without the LC bit, which the mask
-- takes away again, its other bits below 6 being those that were read, and lets user programs in.
-- Unloading it shuts them out, but writes a PMCR with the enable bit that was read: it does not disable
-- the counters, and writes ones to the bits above.
pub cpu_counters_lem :
    (r : Reads)
    → (v : ℕ) × (w : ℕ) × (enable_cpu_counters r
        ≡ pmuserenr_el0 0xf
          ∷ pmcntenset_el0 (2 ^ 31)
          ∷ pmintenset_el1 (r.pmintenset % 2 ^ 31)
          ∷ pmcr_el0 v
          ∷ [])
      × (v % 2 ≡ 1)
      × (v / 2 ^ 6 ≡ 0)
      × (v / 2 ≡ r.pmcr % 2 ^ 6 / 2)
      × (disable_cpu_counters r ≡ pmcr_el0 w ∷ pmuserenr_el0 0 ∷ [])
      × (w % 2 ≡ r.pmcr % 2)
      × (w / 2 ≡ 31)
unfolding enable_cpu_counters disable_cpu_counters
cpu_counters_lem r = (
  with_bit armv8_pmcr_lc (with_bit armv8_pmcr_e (r.pmcr % 2 ^ 32)) % 2 ^ 6,
  (2 ^ 32 - 2 + r.pmcr % 2 ^ 32 % 2) % 2 ^ 6,
  refl,
  ground arith,
  ground arith,
  ground arith,
  refl,
  omega arith,
  omega arith,
)
