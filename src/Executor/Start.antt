-- ===== src/Executor/Start.antt =====
-- src/executor.cc: the constructor of the Executor, and the fault counts that it prints. What the operating
-- system answers is a parameter; signal handlers are registered at each execution in the debug build.
use osiris_arm.Common.{
  ℕ, zero, suc, Bytes, codes, List, [], ◌∷◌, ◌++◌, Bool, true, false, Outcome, ok, exited, ◌>>=◌,
  ◌>>◌,
}
use osiris_arm.Common.Text.{print}
use osiris_arm.Executor.Machine.{Machine, Faults}
use osiris_arm.Executor.Experiment.{Executor, zero_page}

-- The answers that the constructor tests, by the index of a page: `open` of the device gives a descriptor,
-- `msync` fails with ENOMEM (nothing is mapped there), `mmap` gives the data page at its address, and
-- `mmap` gives a code page.
pub record OperatingSystem : Type 0 where
  pub opens_device : Bool
  pub is_unmapped : ℕ → Bool
  pub maps_data_page : ℕ → Bool
  pub maps_code_page : ℕ → Bool

abbrev pub data_pages_no : ℕ
data_pages_no = 2

abbrev pub code_pages_no : ℕ
code_pages_no = 2

-- `std::exit(1)` unless the test holds
abbrev pub require : Bool → Outcome (Unit {0})
require true = ok tt
require false = exited 1

module _ (os : OperatingSystem) where
  -- the loop over the data pages, by the pages left
  unfoldable pub map_data_pages : ℕ → ℕ → List Bytes → Outcome (List Bytes)
  map_data_pages i zero pages = ok pages
  map_data_pages i (suc left) pages = do
    require (os.is_unmapped i)
    require (os.maps_data_page i)
    map_data_pages (suc i) left (pages ++ zero_page ∷ [])

  unfoldable pub map_code_pages : ℕ → ℕ → Outcome (Unit {0})
  map_code_pages i zero = ok tt
  map_code_pages i (suc left) = do require (os.maps_code_page i); map_code_pages (suc i) left

  -- Executor::Executor. The fault counters are static and keep their values; the indices of the code pages
  -- are not set before a page is initialised, so what they hold is given.
  unfoldable pub new_executor : (m : Machine) → m.World → Faults → ℕ → ℕ → Outcome (Executor m)
  unfolding map_data_pages map_code_pages
  new_executor m world faults index_0 index_1 = do
    require os.opens_device
    data_pages ← map_data_pages 0 data_pages_no []
    map_code_pages 0 code_pages_no
    ok (record {
      world = world;
      faults = faults;
      data_pages = data_pages;
      page_0 = record { bytes = zero_page; last_written_index = index_0 };
      page_1 = record { bytes = zero_page; last_written_index = index_1 };
      results_trigger = [];
      results_notrigger = [];
    })

-- PrintFaultCount, as the lines that it prints
unfoldable pub print_fault_count : Faults → List Bytes
unfolding print
print_fault_count f =
    codes "=== Faultcounters of Executor ==="
    ∷ (codes "\tSIGSEGV: " ++ print 10 f.sigsegv_no)
    ∷ (codes "\tSIGFPE: " ++ print 10 f.sigfpe_no)
    ∷ (codes "\tSIGILL: " ++ print 10 f.sigill_no)
    ∷ (codes "\tSIGTRAP: " ++ print 10 f.sigtrap_no)
    ∷ codes "================================="
    ∷ []
