-- ===== src/Engine/Cycle.antt =====
-- `run`, `_reset_queue_refs` and `_protect_top_groups` of `VllmPeekEngine`.
use peek.Prelude.{
  ℕ, ◌-◌, ◌*◌, ◌/◌, List, [], ◌∷◌, ◌++◌, map, Option, none, some, Bool, not, ◌&&◌, ◌||◌, length,
  take, select, sum, if◌then◌else◌, ltb, leb, ◌==◌, max, min, nat_eq, tuple_eq,
}
use peek.Prelude.Membership.{contains}
use peek.Trie.Data.{is_nil}
use peek.Scheduler.Data.{VllmRequest}
use peek.Scheduler.ByPrefix.{shortest_first}
use peek.Scheduler.Detect.{detect_sharing}
use peek.Scheduler.GroupSchedule.{first_hashes}
use peek.Scheduler.RefCounts.{Block, reset_queue_ref_counts, inc_queue_ref_count}
use peek.Engine.Score.{
  Scored, FirstSeen, group_requests, score_group, rep_hashes, seen_at, update_seen,
  reorder_by_score,
}

-- The engine's own state and the blocks of the pool.
pub record Engine : Type 0 where
  pub prev_protected : Option (List ℕ)
  pub group_first_seen : FirstSeen
  pub blocks : List Block

abbrev pub is_new : VllmRequest → Bool
is_new r = (r.num_computed_tokens == 0) && ltb 0 (length r.block_hashes)

abbrev pub keys_of : List (List ℕ × List VllmRequest) → List (List ℕ)
keys_of [] = []
keys_of ((k, g) ∷ gs) = k ∷ keys_of gs

abbrev pub zero_block : List ℕ → Block → Block
zero_block ids b = if contains ids b.block_id then record b { queue_ref_count = 0 } else b

module _ (get_cached_block : ℕ → List ℕ) where
  -- The blocks of the hashes that were protected in the last cycle are reset, at first all.
  unfoldable pub reset_hashes : List ℕ → List Block → List Block
  unfolding contains
  reset_hashes [] blocks = blocks
  reset_hashes (bh ∷ bhs) blocks = reset_hashes bhs (map (zero_block (get_cached_block bh)) blocks)

  unfoldable pub reset_queue_refs : Engine → Engine
  unfolding reset_hashes
  reset_queue_refs e = elim e.prev_protected [
    | none ↦ record e { blocks = reset_queue_ref_counts e.blocks }
    | some hashes ↦ record e { blocks = reset_hashes hashes e.blocks }
  ]

  -- The hashes of a representative before the first that is not cached, with their blocks counted.
  unfoldable pub protect_hashes : List ℕ → List Block × List ℕ → List Block × List ℕ
  unfolding inc_queue_ref_count
  protect_hashes [] st = st
  protect_hashes (bh ∷ bhs) (blocks, protected) =
      if is_nil (get_cached_block bh)
      then protect_hashes bhs (blocks, protected)
      else protect_hashes bhs
          (inc_queue_ref_count (get_cached_block bh) blocks, protected ++ bh ∷ [])

  abbrev pub capacity_groups : ℕ → List Scored → ℕ
  capacity_groups pool scored =
      let num = length scored in
      let avg = max 1 (sum (map (λ (s : Scored). length (rep_hashes s.members)) scored) / num) in
      if ltb 0 num && ltb 0 pool then pool / avg else num

  abbrev pub protect_k : ℕ → List Scored → ℕ
  protect_k pool scored = min (length scored) (max 1 (capacity_groups pool scored * 2 / 3))

  -- A group that has been waiting for more than half a second and has one member is stale.
  abbrev pub is_stale : ℕ → FirstSeen → Scored → Bool
  is_stale now seen s = ltb 500 (now - seen_at now seen s.key) && leb (length s.members) 1

  unfoldable pub protect_groups :
      ℕ → FirstSeen → List Scored → List Block × List ℕ → List Block × List ℕ
  unfolding protect_hashes
  protect_groups now seen [] st = st
  protect_groups now seen (s ∷ ss) st =
      if (s.cached_blocks == 0) || is_stale now seen s
      then protect_groups now seen ss st
      else protect_groups now seen ss
          (protect_hashes (take s.cached_blocks (rep_hashes s.members)) st)

  unfoldable pub protect_top_groups : ℕ → List Scored → Engine → Engine
  unfolding protect_groups
  protect_top_groups now scored e =
      let st =
        protect_groups now e.group_first_seen (take (protect_k (length e.blocks) scored) scored)
          (e.blocks, []) in
      record e { blocks = st.0; prev_protected = some st.1 }

  -- The members are sorted in place when the queue is reordered, and the groups share them.
  abbrev pub with_sorted : Scored → Scored
  with_sorted s = record s { members = shortest_first s.members }

  -- A cycle at the times `now`, when the queue is reordered, and `later`, when groups are protected.
  unfoldable pub run : ℕ → ℕ → Engine → List VllmRequest → Engine × List VllmRequest
  unfolding first_hashes reset_queue_refs reorder_by_score protect_top_groups group_requests
      score_group update_seen shortest_first detect_sharing
  run now later e waiting =
      let new_reqs = select is_new waiting in
      let other = select (λ r. not (is_new r)) waiting in
      let groups = group_requests new_reqs in
      let scored = map (score_group get_cached_block) groups in
      let seen = update_seen now (keys_of groups) e.group_first_seen in
      let reset = record (reset_queue_refs e) { group_first_seen = seen } in
      if leb (length new_reqs) 1
      then (e, waiting)
      else if not (detect_sharing (first_hashes new_reqs))
      then (e, waiting)
      else (
        protect_top_groups later (map with_sorted scored) reset,
        reorder_by_score (length waiting) now seen scored ++ other,
      )
