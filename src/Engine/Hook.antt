-- ===== src/Engine/Hook.antt =====
-- `vllm_on_schedule` of offline/scheduler.py: the single entry point from vLLM's scheduler.
use mathlib.Core.List.{Perm}
use mathlib.Core.List.Perm
use peek.Prelude.{
  ℕ, ◌≡◌, refl, List, [], Option, none, some, Bool, true, false, not, ◌&&◌, arith, length, select,
  if◌then◌else◌, ltb, nat_eq,
}
use peek.Trie.Data.{is_nil}
use peek.Scheduler.Data.{VllmRequest}
use peek.Scheduler.Detect.{detect_sharing}
use peek.Scheduler.GroupSchedule.{first_hashes}
use peek.Scheduler.RefCounts.{Block, update_queue_ref_counts}
use peek.Engine.Score.{FirstSeen}
use peek.Engine.Cycle.{Engine, is_new, run}
use peek.Engine.Keeps.{run-perm}

-- What the hook reads of the scheduler, and the engine kept for it, made when it is first needed.
-- `available` is true if the manager and its block pool exist, `server_reorder` if the variable
-- PEEK_OFFLINE_SERVER_REORDER is 1.
pub record Scheduler : Type 0 where
  pub available : Bool
  pub enable_queue_aware_eviction : Bool
  pub enable_caching : Bool
  pub server_reorder : Bool
  pub blocks : List Block
  pub waiting : List VllmRequest
  pub prev_protected : Option (Option (List ℕ) × FirstSeen)

abbrev pub is_active : Scheduler → Bool
is_active s =
    s.available && s.enable_queue_aware_eviction && s.enable_caching && not (is_nil s.waiting)

-- The engine kept for the scheduler, or a new one, over the blocks of the pool.
abbrev pub engine_of : Scheduler → Engine
engine_of s = elim s.prev_protected [
  | none ↦ record { prev_protected = none; group_first_seen = []; blocks = s.blocks }
  | some (protected, seen) ↦ record {
    prev_protected = protected;
    group_first_seen = seen;
    blocks = s.blocks;
  }
]

module _ (get_cached_block : ℕ → List ℕ) where
  -- Without reordering, only the reference counts are updated.
  unfoldable pub count_only : Scheduler → Scheduler
  unfolding detect_sharing first_hashes update_queue_ref_counts
  count_only s =
      let new_reqs = select is_new s.waiting in
      if ltb 1 (length new_reqs) && detect_sharing (first_hashes new_reqs)
      then record s { blocks = update_queue_ref_counts get_cached_block new_reqs s.blocks }
      else s

  -- A cycle of the engine.
  unfoldable pub run_engine : ℕ → ℕ → Scheduler → Scheduler
  unfolding run
  run_engine now later s =
      let r = run get_cached_block now later (engine_of s) s.waiting in
      record s {
        blocks = r.0.blocks;
        waiting = r.1;
        prev_protected = some (r.0.prev_protected, r.0.group_first_seen);
      }

  unfoldable pub vllm_on_schedule : ℕ → ℕ → Scheduler → Scheduler
  vllm_on_schedule now later s =
      if not (is_active s)
      then s
      else if not s.server_reorder
      then count_only s
      else run_engine now later s

  waiting-count_only : (s : Scheduler) → (count_only s).waiting ≡ s.waiting
  unfolding count_only
  waiting-count_only s = ground arith

  waiting-run_engine :
      (now later : ℕ) (s : Scheduler) → Perm (run_engine now later s).waiting s.waiting
  unfolding run_engine
  waiting-run_engine now later s = run-perm get_cached_block now later (engine_of s) s.waiting

  -- What the hook may do to a scheduler.
  pub record IsHarmless (s s' : Scheduler) : Type 0 where
    pub kept : Perm s'.waiting s.waiting
    pub inactive : is_active s ≡ false → s' ≡ s
    pub counting : s.server_reorder ≡ false → s'.waiting ≡ s.waiting

  branches :
      (now later : ℕ) (s : Scheduler) (a b : Bool)
      → is_active s ≡ a
      → s.server_reorder ≡ b
      → IsHarmless s (if not a then s else if not b then count_only s else run_engine now later s)
  branches now later s false b e f = record {
    kept = Perm.rfl;
    inactive = λ h. refl;
    counting = λ h. refl;
  }
  branches now later s true false e f = record {
    kept = rw (waiting-count_only s) Perm.rfl;
    inactive = λ h. cc;
    counting = λ h. waiting-count_only s;
  }
  branches now later s true true e f = record {
    kept = waiting-run_engine now later s;
    inactive = λ h. cc;
    counting = λ h. cc;
  }

  -- `vllm_on_schedule` leaves a permutation of the waiting queue, changes nothing at all unless
  -- all of its guards hold, and leaves the order alone unless the server is to reorder.
  pub vllm_on_schedule-IsHarmless :
      (now later : ℕ) (s : Scheduler) → IsHarmless s (vllm_on_schedule now later s)
  unfolding vllm_on_schedule
  vllm_on_schedule-IsHarmless now later s =
      branches now later s (is_active s) s.server_reorder refl refl
