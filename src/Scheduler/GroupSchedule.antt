-- ===== src/Scheduler/GroupSchedule.antt =====
-- Group-level scheduling: `_group_and_score_sglang`, `sglang_group_schedule`,
-- `vllm_group_schedule`, `vllm_reorder_waiting_queue` and `sglang_reorder_waiting_queue`.

use peek.Prelude.{
  ℕ, ◌*◌, List, [], ◌∷◌, ◌++◌, map, Option, none, some, Bool, ◌&&◌, ◌||◌, not, length, get_elem?,
  concat, range, if◌then◌else◌, ltb, leb, ◌==◌, tuple_beq, nat_eq,
}
use peek.Prelude.Sort.{sort_by, ge_key}
use peek.Prelude.Membership.{select_out, contains}
use peek.Prelude.Pick.{pick}
use peek.Trie.Data.{is_nil}
use peek.Trie.Traverse.{prefix_groups_with_tokens}
use peek.Reorder.Defs.{default_config, build_trie, reorder_for_prefix_sharing, ReorderConfig}
use peek.Scheduler.Data.{VllmRequest, SglangRequest, token_ids, first_of}
use peek.Scheduler.Detect.{detect_sharing, detect_sharing_sglang}
use peek.Scheduler.Cached.{Radix, sglang_cached_prefix_length, vllm_cached_prefix_length}

-- A group: its prefix and its positions.
abbrev pub Group : Type 0
Group = List ℕ × List ℕ

-- `seqs[idx]`, for an index in range.
abbrev pub seq_at : List (List ℕ) → ℕ → List ℕ
seq_at seqs idx = elim (get_elem? seqs idx) [ none ↦ [] | some s ↦ s ]

abbrev pub grouped_indices : List Group → List ℕ
grouped_indices groups = concat (map (λ g. g.1) groups)

abbrev pub singleton : List (List ℕ) → ℕ → Group
singleton seqs idx = (seq_at seqs idx, idx ∷ [])

-- The groups of the trie, and one for each position that is in none of them.
unfoldable pub all_groups : ℕ → List (List ℕ) → List Group
unfolding contains
all_groups min_prefix_len seqs =
    let groups = prefix_groups_with_tokens min_prefix_len (build_trie seqs) in
    groups ++ map (singleton seqs) (select_out (grouped_indices groups) (range (length seqs)))

-- Pairs of a length and an index, in their order.
abbrev pub shorter : List (List ℕ) → ℕ → ℕ → Bool
shorter seqs i j =
    let m = length (seq_at seqs i) in
    let n = length (seq_at seqs j) in ltb m n || (m == n && leb i j)

module _ (cached : List ℕ → ℕ) where
  -- `cached_len * len(indices)`
  abbrev pub group_score : Group → ℕ
  group_score (prefix, indices) = (if is_nil prefix then 0 else cached prefix) * length indices

  unfoldable pub group_order : ℕ → List (List ℕ) → List ℕ
  unfolding all_groups sort_by
  group_order min_prefix_len seqs = concat (
      map (λ g. sort_by (shorter seqs) g.1)
        (sort_by (ge_key group_score) (all_groups min_prefix_len seqs)))

-- None where a position were out of range.
unfoldable pub group_and_score_sglang : Radix → List SglangRequest → Option (List SglangRequest)
unfolding group_order pick
group_and_score_sglang tree_cache waiting_queue =
    pick waiting_queue
      (group_order (sglang_cached_prefix_length tree_cache) 1 (map token_ids waiting_queue))

unfoldable pub sglang_group_schedule : ℕ → Radix → List SglangRequest → Option (List SglangRequest)
sglang_group_schedule reorder_threshold tree_cache waiting_queue =
    if ltb (length waiting_queue) reorder_threshold
    then some waiting_queue
    else if not (detect_sharing_sglang 64 waiting_queue)
    then some waiting_queue
    else group_and_score_sglang tree_cache waiting_queue

-- `[r.block_hashes[0] for r in new_reqs if len(r.block_hashes) > 0]`
unfoldable pub first_hashes : List VllmRequest → List ℕ
first_hashes [] = []
first_hashes (r ∷ rs) = elim (first_of r.block_hashes) [
  | none ↦ first_hashes rs
  | some h ↦ h ∷ first_hashes rs
]

abbrev pub hashes_of : VllmRequest → List ℕ
hashes_of r = r.block_hashes

unfoldable pub vllm_group_schedule : (ℕ → List ℕ) → ℕ → List VllmRequest → Option (List VllmRequest)
unfolding group_order pick
vllm_group_schedule get_cached_block reorder_threshold new_reqs =
    if leb (length new_reqs) 1 || ltb (length new_reqs) reorder_threshold
    then some new_reqs
    else if not (detect_sharing (first_hashes new_reqs))
    then some new_reqs
    else pick new_reqs
        (group_order (vllm_cached_prefix_length get_cached_block) 1 (map hashes_of new_reqs))

-- `all(order[i] == i for i in range(len(order)))`
abbrev pub is_identity : List ℕ → Bool
is_identity order = tuple_beq order (range (length order))

abbrev pub block_config : ReorderConfig
block_config = record default_config { min_sharing_depth = 1; min_avg_sharing_depth = 1 }

unfoldable pub vllm_reorder_waiting_queue : ℕ → List VllmRequest → Option (List VllmRequest)
unfolding pick
vllm_reorder_waiting_queue reorder_threshold new_reqs =
    let order = reorder_for_prefix_sharing block_config (map hashes_of new_reqs) in
    if leb (length new_reqs) 1 || leb reorder_threshold (length new_reqs)
    then some new_reqs
    else if is_identity order
    then some new_reqs
    else pick new_reqs order

unfoldable pub sglang_reorder_waiting_queue :
    ℕ → Option Radix → List SglangRequest → Option (List SglangRequest)
unfolding pick
sglang_reorder_waiting_queue reorder_threshold tree_cache waiting_queue =
    let order = reorder_for_prefix_sharing default_config (map token_ids waiting_queue) in
    if ltb (length waiting_queue) reorder_threshold then some waiting_queue else elim tree_cache [
      | some tree ↦ sglang_group_schedule reorder_threshold tree waiting_queue
      | none ↦ if is_identity order then some waiting_queue else pick waiting_queue order
    ]
