-- ===== src/Lpm.antt =====
-- online/lpm_integration.py: the order in which waiting requests are admitted.
pub mod Data
pub mod Deprioritize
pub mod Lex
pub mod Sort
pub mod Sections
pub mod Stride
pub mod Interleave
pub mod Fair
pub mod Clusters
pub mod Admission
mod Tests
