-- ===== src/Examples/Kernel.antt =====
-- Runs of the kernel modules of kernel_moudle.
use osiris_arm.Common.{ℕ, ◌/◌, ◌%◌, ◌^◌, ◌≡◌, ◌≢◌, List, [], ◌∷◌, true, false, ◌⊎◌, ok}
use osiris_arm.Common.Int.{ℤ, pos, negsuc}
use osiris_arm.KernelModule.Pmu.{
  Reads, pmuserenr_el0, pmcntenset_el0, pmintenset_el1, pmcr_el0, enable_cpu_counters,
  disable_cpu_counters, cpu_counters_lem,
}
use osiris_arm.KernelModule.IcIallu.{
  Kernel, Resource, ic_iallu_init, ic_iallu_exit, ic_iallu_init_lem,
}

abbrev reads : Reads
reads = record { pmintenset = 0; pmcr = 0x41023040 }

cpu_counters_lem_example :
    (v : ℕ) × (w : ℕ) × (enable_cpu_counters reads
      ≡ pmuserenr_el0 0xf ∷ pmcntenset_el0 (2 ^ 31) ∷ pmintenset_el1 0 ∷ pmcr_el0 v ∷ [])
    × (v % 2 ≡ 1)
    × (v / 2 ^ 6 ≡ 0)
    × (v / 2 ≡ 0)
    × (disable_cpu_counters reads ≡ pmcr_el0 w ∷ pmuserenr_el0 0 ∷ [])
    × (w % 2 ≡ 0)
    × (w / 2 ≡ 31)
cpu_counters_lem_example = cpu_counters_lem reads

-- the last step fails
abbrev kernel : Kernel
kernel = record {
  alloc_chrdev_region = true;
  class_create = true;
  class_error = negsuc 11;
  device_create = true;
  device_error = negsuc 11;
  cdev_add = false;
}

ic_iallu_init_lem_example :
    (r : ℤ × List Resource) × (ic_iallu_init kernel ≡ ok r)
    × (((r.0 ≡ pos 0) × (ic_iallu_exit r.1 ≡ ok [])) ⊎ ((r.0 ≢ pos 0) × (r.1 ≡ [])))
ic_iallu_init_lem_example = ic_iallu_init_lem kernel (λ e. cc) (λ e. cc)
