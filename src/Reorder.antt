-- ===== src/Reorder.antt =====
-- python/peek/offline/reorder.py: the batch reordering of prompts.
pub mod Defs
pub mod Build
pub mod Permutes
pub mod Dispatcher
pub mod Tracked
pub mod Hashed
pub mod Remembered
pub mod Linked
mod Tests
