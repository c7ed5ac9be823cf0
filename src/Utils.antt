-- ===== src/Utils.antt =====
-- src/utils.cc and src/utils.h, a module for each family of functions.
pub mod Bytes
pub mod Split
pub mod Base64
pub mod Double
pub mod Median
pub mod Hash
