-- ===== src/Engine.antt =====
-- offline/engine_vllm.py: the engine that schedules vLLM's waiting queue and protects its cache.
pub mod Score
pub mod Cycle
pub mod Keeps
pub mod Seen
pub mod Waiting
pub mod Hook
mod Tests
