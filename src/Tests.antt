-- ===== src/Tests.antt =====
-- Runs of the model on concrete inputs: one for each theorem that has hypotheses.
pub mod Kernel
pub mod Minipy
pub mod Processes
pub mod Paths
pub mod Windows
pub mod Parsing
pub mod Spawning
pub mod Archive
