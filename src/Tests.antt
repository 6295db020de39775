-- ===== src/Tests.antt =====
-- The theorems at concrete inputs, where their hypotheses hold.
pub mod Instances
pub mod Words
pub mod Files
pub mod Checks
pub mod Specs
pub mod Program
pub mod Runs
