-- ===== src/Executor/Machine.antt =====
-- src/executor.cc: ExecuteCodePage and the fault handler. The processor is a parameter: what a page of
-- code does when it is called, and the registers and devices that the code around the call uses.
pub mod Counters
use Prim.Native.Nat.{bit_and, bit_or}
use osiris_arm.Common.{
  ℕ, zero, suc, ◌+◌, ◌-◌, ◌^◌, Bytes, List, [], ◌∷◌, Outcome, ok, exited, aborted, undefined, ◌>>=◌,
}

pub data Signal : Type 0 where
  sigsegv : Signal
  sigfpe : Signal
  sigill : Signal
  sigtrap : Signal
  other_signal : ℕ → Signal

-- A call of a page returns a number of 64 bits or raises a signal.
pub data Effect : Type 0 where
  returned : ℕ → Effect
  raised : Signal → Effect

pub record Machine : Type 1 where
  pub World : Type 0
  -- the call of a code page, on the content of the data pages
  pub call : World → Bytes → List Bytes → Effect × (World × List Bytes)
  pub read_pmcr : World → ℕ
  pub write_pmcr : World → ℕ → World
  -- a write to the device behind `ic_iallu_fd_`
  pub ic_iallu : World → World

-- the static counters of the fault handler
pub record Faults : Type 0 where
  pub sigsegv_no : ℕ
  pub sigfpe_no : ℕ
  pub sigill_no : ℕ
  pub sigtrap_no : ℕ

-- FaultHandler, up to its `longjmp`
unfoldable pub fault_handler : Signal → Faults → Outcome Faults
fault_handler sigsegv f = ok (record f { sigsegv_no = f.sigsegv_no + 1 })
fault_handler sigfpe f = ok (record f { sigfpe_no = f.sigfpe_no + 1 })
fault_handler sigill f = ok (record f { sigill_no = f.sigill_no + 1 })
fault_handler sigtrap f = ok (record f { sigtrap_no = f.sigtrap_no + 1 })
fault_handler (other_signal n) f = aborted

-- arm_v8_timing_init on the value of PMCR_EL0, a `uint32_t`
unfoldable pub timing_init : ℕ → ℕ
timing_init value = bit_and (bit_or (bit_or (bit_or value 1) 4) 2) (2 ^ 32 - 1 - 8)

-- What ExecuteCodePage leaves: the return value, `*cycles_elapsed` and the state around it.
pub record Execution (m : Machine) : Type 0 where
  pub error : ℕ
  pub cycles_elapsed : ℕ
  pub world : m.World
  pub data_pages : List Bytes
  pub faults : Faults

module _ (m : Machine) where
  open m use {World, call, read_pmcr, write_pmcr, ic_iallu}

  -- the two branches of the `setjmp`
  unfoldable pub after_call : Faults → Effect × (World × List Bytes) → Outcome (Execution m)
  unfolding fault_handler
  after_call faults (returned cycle_diff, (world, data_pages)) = ok (record {
    error = 0;
    cycles_elapsed = cycle_diff;
    world = ic_iallu world;
    data_pages = data_pages;
    faults = faults;
  })
  after_call faults (raised sig, (world, data_pages)) = do
    counted ← fault_handler sig faults
    ok (record {
      error = 1;
      cycles_elapsed = 2 ^ 64 - 1;
      world = world;
      data_pages = data_pages;
      faults = counted;
    })

  unfoldable pub execute_code_page : Bytes → World → List Bytes → Faults → Outcome (Execution m)
  unfolding after_call timing_init
  execute_code_page code world data_pages faults =
      let ready = ic_iallu (write_pmcr world (timing_init (read_pmcr world))) in
      after_call faults (call ready code data_pages)
