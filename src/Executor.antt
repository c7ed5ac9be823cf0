-- ===== src/Executor.antt =====
-- src/executor.cc and src/executor.h: the code that is generated for an experiment, and its run.
pub mod Page
pub mod Instructions
pub mod Codegen
pub mod Machine
pub mod Experiment
pub mod Start
