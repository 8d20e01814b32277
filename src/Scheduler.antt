-- ===== src/Scheduler.antt =====
-- offline/scheduler.py: the hooks that reorder the waiting queues of the two servers.
pub mod Data
pub mod Detect
pub mod ByPrefix
pub mod Regroup
pub mod Cached
pub mod RefCounts
pub mod GroupSchedule
pub mod Rearranges
pub mod Victims
pub mod Paths
mod FreeList
mod Tests
