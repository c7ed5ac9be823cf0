-- ===== src/Osiris.antt =====
-- src/osiris.cc: the command line, the stages of a run and the confirmation of results.
pub mod Arguments
pub mod Files
pub mod Stages
pub mod Confirm
pub mod Pipeline
pub mod Main
