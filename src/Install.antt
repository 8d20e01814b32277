-- ===== src/Install.antt =====
-- python/peek/offline/sglang_patches/install.py and python/peek/offline/vllm_patches/install.py:
-- the installers, which edit the files of an installed engine in place and keep backups.
pub mod Text
pub mod Regex
pub mod Replaced
pub mod Inserted
pub mod Files
pub mod Careful
pub mod VllmTexts
pub mod Vllm
pub mod SglangTexts
pub mod SglangRadix
pub mod Sglang
pub mod RoundTrip
mod Tests
pub mod Checked
pub mod Restored
pub mod Reverted
