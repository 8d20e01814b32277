-- ===== src/VllmHooks.antt =====
-- online/engines/vllm/patch_hook.py: the index of block demand, which the hook keeps beside the
-- pending tree, the choice of blocks to evict by it, and the path of finished requests.
pub mod Demand
pub mod Totals
pub mod Depths
pub mod Counts
pub mod Counted
pub mod Victims
pub mod Scanning
pub mod Chosen
pub mod Blocks
pub mod Finish
pub mod Waiting
pub mod Rearranged
mod Tests
