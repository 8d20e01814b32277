-- ===== src/Eviction.antt =====
-- online/eviction.py: how the demand of waiting requests protects nodes of the radix cache.
pub mod Demand
pub mod Modes
mod Tests
