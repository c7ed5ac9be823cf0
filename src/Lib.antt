-- ===== src/Lib.antt =====
-- A model of the fuzzer osiris_arm: it searches triples of instructions (trigger, measurement, reset)
-- for timing differences, and filters what it finds.
-- Parts, and the files of the repository that they model:
--   Common          numbers, lists, texts, and how a piece of the program ends
--   Utils           src/utils.cc and src/utils.h: byte arrays, SplitString, base64, median and
--                   its arithmetic, file hash
--   CodeGenerator   src/code_generator.cc: the instruction file, UIDs, access to instructions
--                   Printable: what of a loaded instruction is written to files.
--   Executor        src/executor.cc. Page: a code page and the functions that write to it.
--                   Instructions and Codegen: the generated code. Machine: ExecuteCodePage and the fault
--                   handler. Experiment: test runs and the experiments made of them. Start: the
--                   constructor.
--   Core            src/core.cc. Search: the two searches; their report, size and end in child modules.
--                   Csv: a line of the report and the fields it is read as. Cleanup: the test of the
--                   instruction list. Format: FormatTriggerPairOutput.
--   Filter          src/filter.cc. Line: a line of the results. Active: the set of enabled filters.
--                   Best: the maps of the two passes for unique rows. Keyed: the filters as two
--                   interfaces. Apply: ApplyFiltersOnFile, and its result over each interface.
--   Logger          src/logger.cc: levels and printed lines
--   Osiris          src/osiris.cc. Arguments: ParseArguments. Files: the files of a run. Stages: the
--                   filter stages. Confirm: ConfirmResultsOfFuzzer. Main: the stages of main and its
--                   order. Pipeline and Main.Runs: the components put together.
--   KernelModule    kernel_moudle. Pmu: arm_pmu_module/arm_pmu.c. IcIallu: ic-moudle/ic-iallu.c.
--   Examples        runs on small inputs
-- Core takes instructions from CodeGenerator and passes their bytes to Executor; the lines it writes
-- have the header that Filter and the confirmation expect. CodeGenerator uses base64, SplitString and
-- the file hash. Osiris runs Core, Filter and the confirmation on the files that they leave each other.
-- Functions keep the source's names in lower case with underscores, types keep theirs.
--
-- How the model stands for the code:
--   A text is the list of its bytes, and a byte array the list of its values. Outcome tells a value from
--   `exit`, from an abort (a failed assertion in a debug build, a full page, an exception that nothing
--   catches) and from behaviour that C++ leaves undefined. Objects are records that operations take and
--   return; files are the texts that are read or written, `none` for one that cannot be opened.
--   Numbers of 64 and 32 bits have their wrap-around written out where the code can reach it; counters of
--   type int and sizes of texts are taken to stay in range. A median is kept doubled, rounded to a
--   double (Utils.Double). Arithmetic on timings that C++ leaves undefined, which is a sum out of range,
--   the cast of a large double and `std::abs` of the least int, has the result the processor gives.
--   `std::sort` is an insertion sort, a `std::map` an association list.
--   Parameters: SHA-256 (Hash.Sha256, with the laws that updates append and that a digest has 32 bytes),
--   the processor with its counters, caches and devices (Machine.Machine), the random draw, the shuffle,
--   the events of getopt, the disassembler, the order in which a folder is listed, which names open for
--   writing, and what the system answers to the constructor of the executor.
--   Loops run on the list they read or on the rounds left. SplitString and the file hash run on fuel of
--   one more than the length of the input, which is enough since each round takes at least one byte;
--   printing a number runs on 64 digits, which is enough below 2 ^ 64.
-- Not modelled: PrintHelp, log messages at their places, failures of the file system other than a file that
-- does not open, the destructor of the executor, signal registration and the variant for DEBUGMODE, the
-- first part of src/executor.cc, which is commented out, the assembly of src/ic_iallu_trigger.s, data,
-- scripts, generated and build files.
pub mod Common
pub mod Utils
pub mod CodeGenerator
pub mod Filter
pub mod Executor
pub mod Core
pub mod KernelModule
pub mod Logger
pub mod Osiris
pub mod Examples
