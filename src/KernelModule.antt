-- ===== src/KernelModule.antt =====
-- kernel_moudle: the kernel modules that open the cycle counter and the cache maintenance to the fuzzer.
pub mod Pmu
pub mod IcIallu
