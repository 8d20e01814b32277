-- ===== src/Offline.antt =====
-- python/peek/offline/engine.py: the server's engine, which reads the tags that the client's
-- dispatcher writes into the rids.
pub mod Decimal
pub mod Tags
pub mod Requests
pub mod Tagged
pub mod Grouped
pub mod Full
pub mod Ordered
pub mod Budget
pub mod Store
pub mod Refs
pub mod Removal
pub mod Run
pub mod Tests
