-- ===== src/Scheduler/Tests.antt =====
-- Runs of the scheduler hooks on small queues, and their theorems there.
use mathlib.Core.Option
use peek.Prelude.{ℕ, ◌≡◌, refl, List, [], ◌∷◌, map, some, true, false, arith, tuple_beq, nat_eq}
use peek.Scheduler.Data.{VllmRequest, SglangRequest}
use peek.Scheduler.Detect.{detect_sharing}
use peek.Scheduler.ByPrefix.{reorder_requests_by_prefix}
use peek.Scheduler.Regroup.{fast_prefix_group_reorder}
use peek.Scheduler.Cached.{Radix, no_edge, edge, sglang_cached_prefix_length}
use peek.Scheduler.RefCounts.{Block, block, update_queue_ref_counts}
use peek.Scheduler.Paths.{IsFiled}
use peek.Scheduler.GroupSchedule.{sglang_group_schedule}
use peek.Scheduler.Rearranges.{Rearranges, sglang_group_schedule-Rearranges}
use peek.Scheduler.FreeList.{take_first, unlink, list-IsQueue}
use peek.Scheduler.Victims.{
  victims, popleft_queue_aware, IsCheapest, popleft_queue_aware-IsCheapest,
}

abbrev vllm : ℕ → List ℕ → VllmRequest
vllm i hs = record { request_id = i; block_hashes = hs; num_computed_tokens = 0 }

abbrev sglang : ℕ → List ℕ → ℕ → List ℕ → SglangRequest
sglang i ids node hit = record {
  rid = i;
  origin_input_ids = some ids;
  last_node = node;
  prefix_indices = hit;
}

abbrev new_requests : List VllmRequest
new_requests =
    vllm 0 (7 ∷ [])
    ∷ vllm 1 (5 ∷ 6 ∷ 8 ∷ [])
    ∷ vllm 2 (7 ∷ 3 ∷ [])
    ∷ vllm 3 (5 ∷ 6 ∷ [])
    ∷ vllm 4 (5 ∷ [])
    ∷ []

abbrev other_requests : List VllmRequest
other_requests = vllm 9 [] ∷ []

abbrev queue : List SglangRequest
queue =
    sglang 0 (7 ∷ 1 ∷ []) 1 []
    ∷ sglang 1 (5 ∷ 6 ∷ []) 2 (8 ∷ 9 ∷ [])
    ∷ sglang 2 (5 ∷ 6 ∷ []) 2 (8 ∷ 9 ∷ [])
    ∷ []

abbrev keys : List ℕ
keys = 3 ∷ 4 ∷ 3 ∷ []

shared : detect_sharing keys ≡ true
unfolding detect_sharing
shared = refl

by_prefix :
    Option.map
      (map (λ (r : VllmRequest). r.request_id))
      (reorder_requests_by_prefix new_requests other_requests)
    ≡ some (4 ∷ 3 ∷ 1 ∷ 0 ∷ 2 ∷ 9 ∷ [])
unfolding reorder_requests_by_prefix
by_prefix = refl

fast : map (λ (r : SglangRequest). r.rid) (fast_prefix_group_reorder 2 queue) ≡ 1 ∷ 2 ∷ 0 ∷ []
unfolding fast_prefix_group_reorder
fast = refl

abbrev by_prefix_out : List VllmRequest
by_prefix_out = vllm 0 (7 ∷ []) ∷ vllm 2 (7 ∷ 3 ∷ []) ∷ vllm 1 (5 ∷ []) ∷ vllm 9 [] ∷ []

abbrev three_new : List VllmRequest
three_new = vllm 1 (5 ∷ []) ∷ vllm 2 (7 ∷ 3 ∷ []) ∷ vllm 0 (7 ∷ []) ∷ []

by_prefix_run : reorder_requests_by_prefix three_new other_requests ≡ some by_prefix_out
unfolding reorder_requests_by_prefix
by_prefix_run = refl

-- Hashes below 6 are cached, each in the block of its number.
abbrev cached_block : ℕ → List ℕ
cached_block h = elim (tuple_beq (h ∷ []) (5 ∷ [])) [ true ↦ 5 ∷ [] | false ↦ [] ]

abbrev pool : List Block
pool = block 4 false 3 ∷ block 5 false 9 ∷ block 0 true 0 ∷ []

counted :
    update_queue_ref_counts cached_block new_requests pool
    ≡ block 4 false 0 ∷ block 5 false 3 ∷ block 0 true 0 ∷ []
unfolding update_queue_ref_counts
counted = refl

-- The tokens 5, 6 are cached as one edge, 7 below it is evicted.
abbrev radix : Radix
radix = edge 5 (some (5 ∷ 6 ∷ [])) false (edge 7 (some (7 ∷ [])) true no_edge no_edge) no_edge

walked : sglang_cached_prefix_length radix (5 ∷ 6 ∷ 7 ∷ 8 ∷ []) ≡ 2
unfolding sglang_cached_prefix_length
walked = refl

radix-IsFiled : IsFiled radix
radix-IsFiled = ((6 ∷ [], refl), tt, (([], refl), tt, tt, tt), tt)

sglang_group_schedule-Rearranges_example : Rearranges (sglang_group_schedule 2 radix queue) queue
sglang_group_schedule-Rearranges_example = sglang_group_schedule-Rearranges 2 radix queue

abbrev free_blocks : List Block
free_blocks = block 1 false 2 ∷ block 2 false 0 ∷ block 3 false 1 ∷ block 4 false 0 ∷ []

evicted : victims 3 free_blocks ≡ block 2 false 0 ∷ block 4 false 0 ∷ block 3 false 1 ∷ []
unfolding victims
evicted = refl

popleft_queue_aware-IsCheapest_example :
    (r : List Block × List Block) × (popleft_queue_aware take_first unlink 3 free_blocks ≡ some r)
    × IsCheapest 3 free_blocks r.0 r.1
popleft_queue_aware-IsCheapest_example =
    popleft_queue_aware-IsCheapest take_first unlink list-IsQueue 3 free_blocks (omega arith)
