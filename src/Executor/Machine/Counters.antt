-- ===== src/Executor/Machine/Counters.antt =====
-- src/executor.cc: the fault counters over the run of a code page.
use osiris_arm.Common.{
  ℕ, suc, ◌+◌, ◌-◌, ◌^◌, ◌≡◌, refl, Bytes, List, ◌⊎◌, inl, inr, ok, Holds, Holds-eq_ok, arith,
}
use osiris_arm.Executor.Machine.{
  Machine, sigsegv, sigfpe, sigill, sigtrap, other_signal, Effect, returned, raised, Faults,
  Execution, after_call, execute_code_page,
}

-- How many faults were counted.
unfoldable pub total : Faults → ℕ
total f = f.sigsegv_no + f.sigfpe_no + f.sigill_no + f.sigtrap_no

-- A run succeeds without a counted fault, or fails with one and a time of 2 ^ 64 - 1 cycles.
abbrev pub IsCounted : (m : Machine) → Faults → Execution m → Type 0
IsCounted m before e =
    ((e.error ≡ 0) × (total e.faults ≡ total before))
    ⊎ ((e.error ≡ 1) × (e.cycles_elapsed ≡ 2 ^ 64 - 1) × (total e.faults ≡ suc (total before)))

after_call-Holds :
    (m : Machine) (faults : Faults) (c : Effect × (m.World × List Bytes))
    → Holds (IsCounted m faults) (after_call m faults c)
unfolding after_call total
after_call-Holds m faults (returned cycle_diff, (world, pages)) = inl (refl, refl)
after_call-Holds m faults (raised sigsegv, (world, pages)) = inr (refl, refl, omega arith)
after_call-Holds m faults (raised sigfpe, (world, pages)) = inr (refl, refl, omega arith)
after_call-Holds m faults (raised sigill, (world, pages)) = inr (refl, refl, omega arith)
after_call-Holds m faults (raised sigtrap, (world, pages)) = inr (refl, refl, omega arith)
after_call-Holds m faults (raised (other_signal n), (world, pages)) = tt

execute-Holds :
    (m : Machine) (code : Bytes) (world : m.World) (pages : List Bytes) (faults : Faults)
    → Holds (IsCounted m faults) (execute_code_page m code world pages faults)
unfolding execute_code_page
execute-Holds m code world pages faults = after_call-Holds m faults _

-- When ExecuteCodePage returns, it returns 0 and no fault counter has changed in sum, or it returns 1,
-- leaves 2 ^ 64 - 1 cycles, and has counted exactly one fault.
pub execute_code_page_lem :
    (m : Machine) (code : Bytes) (world : m.World) (pages : List Bytes) (faults : Faults)
    {e : Execution m}
    → execute_code_page m code world pages faults ≡ ok e
    → IsCounted m faults e
execute_code_page_lem m code world pages faults h =
    Holds-eq_ok (IsCounted m faults) _ (execute-Holds m code world pages faults) h
