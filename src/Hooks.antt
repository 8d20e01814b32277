-- ===== src/Hooks.antt =====
-- online/engines/sglang/patch_hook.py: the hooks that keep the pending tree in step with the
-- scheduler's waiting queue.
pub mod State
pub mod Intern
pub mod Enter
pub mod Leave
pub mod Synced
pub mod Validate
pub mod CacheMatch
pub mod Priority
pub mod Ranking
pub mod MainHits
pub mod Longest
pub mod Tests
