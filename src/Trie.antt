-- ===== src/Trie.antt =====
-- python/peek/offline/trie.py: the prefix trie over token sequences.
pub mod Data
pub mod Update
pub mod Insert
pub mod Entries
pub mod Remove
pub mod Found
pub mod RoundTrip
pub mod Traverse
pub mod Order
pub mod Contiguous
pub mod Groups
pub mod Sharing
mod Tests
