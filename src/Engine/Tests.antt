-- ===== src/Engine/Tests.antt =====
-- A run of the engine on a small queue, and its theorems there.
use mathlib.Core.List.{mem-cons_self, mem-cons_of_mem}
use peek.Engine.Score.{Scored, score_group}
use peek.Engine.Seen.{seen_after}
use peek.Engine.Waiting.{IsEmitted, seen_after-IsEmitted}
use peek.Prelude.{
  arith, true, ℕ, ◌≡◌, ◌⊎◌, refl, List, [], ◌∷◌, map, none, false, nat_eq, if◌then◌else◌,
}
use peek.Prelude.Membership.{contains}
use peek.Scheduler.Data.{VllmRequest}
use peek.Scheduler.RefCounts.{block}
use peek.Engine.Cycle.{Engine, run}
use peek.Engine.Hook.{
  run_engine, Scheduler, IsHarmless, vllm_on_schedule, vllm_on_schedule-IsHarmless,
}
use peek.Engine.Keeps.{IsCycle, run-IsCycle}

abbrev request : ℕ → List ℕ → ℕ → VllmRequest
request i hs computed = record { request_id = i; block_hashes = hs; num_computed_tokens = computed }

abbrev waiting : List VllmRequest
waiting =
    request 0 (1 ∷ 2 ∷ []) 0
    ∷ request 1 (5 ∷ 6 ∷ []) 0
    ∷ request 2 (9 ∷ []) 4
    ∷ request 3 (5 ∷ 6 ∷ []) 0
    ∷ request 4 (5 ∷ []) 0
    ∷ []

-- The hashes 5 and 6 are cached, each in the block of its number.
abbrev cached : ℕ → List ℕ
cached h = if contains (5 ∷ 6 ∷ []) h then h ∷ [] else []

abbrev fresh : Engine
fresh = record {
  prev_protected = none;
  group_first_seen = [];
  blocks = block 5 false 3 ∷ block 6 false 1 ∷ block 7 false 8 ∷ [];
}

cycled :
    map (λ (r : VllmRequest). r.request_id) (run cached 0 0 fresh waiting).1
    ≡ 1 ∷ 3 ∷ 4 ∷ 0 ∷ 2 ∷ []
unfolding run
cycled = refl

protected :
    (run cached 0 0 fresh waiting).0.blocks
    ≡ block 5 false 1 ∷ block 6 false 1 ∷ block 7 false 0 ∷ []
unfolding run
protected = refl

run-IsCycle_example :
    ((run cached 0 0 fresh waiting).1 ≡ waiting) ⊎ IsCycle waiting (run cached 0 0 fresh waiting).1
run-IsCycle_example = run-IsCycle cached 0 0 fresh waiting

abbrev scheduler : Scheduler
scheduler = record {
  available = true;
  enable_queue_aware_eviction = true;
  enable_caching = true;
  server_reorder = true;
  blocks = fresh.blocks;
  waiting = waiting;
  prev_protected = none;
}

hooked :
    map (λ (r : VllmRequest). r.request_id) (vllm_on_schedule cached 0 0 scheduler).waiting
    ≡ 1 ∷ 3 ∷ 4 ∷ 0 ∷ 2 ∷ []
unfolding vllm_on_schedule run_engine
hooked = refl

vllm_on_schedule-IsHarmless_example :
    IsHarmless cached scheduler (vllm_on_schedule cached 0 0 scheduler)
vllm_on_schedule-IsHarmless_example = vllm_on_schedule-IsHarmless cached 0 0 scheduler

-- The request 4 alone in its group, first queued at 100 and seen again at 120 and 131.
abbrev lonely : Scored
lonely = score_group cached (5 ∷ [], request 4 (5 ∷ []) 0 ∷ [])

abbrev pair : Scored
pair = score_group cached (5 ∷ 6 ∷ [], request 1 (5 ∷ 6 ∷ []) 0 ∷ request 3 (5 ∷ 6 ∷ []) 0 ∷ [])

abbrev later_cycles : List (ℕ × List (List ℕ))
later_cycles = (120, (5 ∷ []) ∷ (5 ∷ 6 ∷ []) ∷ []) ∷ (131, (5 ∷ 6 ∷ []) ∷ (5 ∷ []) ∷ []) ∷ []

seen_after-IsEmitted_example :
    IsEmitted 40 131
      (seen_after ((100, (5 ∷ []) ∷ []) ∷ later_cycles) [])
      (pair ∷ lonely ∷ [])
      lonely
unfolding contains score_group
seen_after-IsEmitted_example =
    seen_after-IsEmitted 40 131 100 (5 ∷ []) ((5 ∷ []) ∷ []) later_cycles [] (pair ∷ lonely ∷ [])
      lonely refl (refl, (refl, (refl, tt))) (omega arith) (mem-cons_of_mem _ mem-cons_self) refl
