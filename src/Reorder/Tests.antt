-- ===== src/Reorder/Tests.antt =====
-- Runs of the batch reordering, and its theorems there.
use mathlib.Core.List.{Perm}
use peek.Prelude.{ℕ, ◌≡◌, ◌⊎◌, refl, List, [], ◌∷◌, length, range, arith}
use mathlib.Core.Option
use peek.Prelude.{◌+◌, some, false}
use peek.Trie.Update.{remove}
use peek.Reorder.Dispatcher.{Dispatcher, Sent, new_dispatcher, count_of, enrol, submit, withdraw}
use peek.Reorder.Linked.{IsLinked, enrol-IsLinked, submit-IsLinked, new_dispatcher-IsLinked}
use peek.Trie.Update.{insert}
use peek.Trie.Traverse.{ratio, dfs_order, sharing_score, score_walk}
use peek.Trie.Contiguous.{IsBlock}
use peek.Reorder.Defs.{
  ReorderConfig, default_config, full_duplication_ratio, build_trie, reorder_for_prefix_sharing,
}
use peek.Reorder.Permutes.{
  positions_of, reorder_for_prefix_sharing-perm, reorder_for_prefix_sharing-IsBlock,
}

abbrev prompts : List (List ℕ)
prompts = (7 ∷ 8 ∷ 1 ∷ []) ∷ (5 ∷ []) ∷ (7 ∷ 8 ∷ 2 ∷ []) ∷ (5 ∷ 6 ∷ []) ∷ (7 ∷ 8 ∷ 3 ∷ []) ∷ []

abbrev shallow : ReorderConfig
shallow = record default_config { min_sharing_depth = 1; min_avg_sharing_depth = 1 }

reorder-prompts : reorder_for_prefix_sharing shallow prompts ≡ 4 ∷ 2 ∷ 0 ∷ 1 ∷ 3 ∷ []
unfolding reorder_for_prefix_sharing full_duplication_ratio build_trie insert sharing_score
    score_walk dfs_order
reorder-prompts = refl

-- With the default thresholds two tokens are too little to share.
reorder-default : reorder_for_prefix_sharing default_config prompts ≡ range 5
unfolding reorder_for_prefix_sharing full_duplication_ratio build_trie insert sharing_score
    score_walk dfs_order
reorder-default = refl

duplicates : full_duplication_ratio ((1 ∷ []) ∷ (2 ∷ []) ∷ (1 ∷ []) ∷ []) ≡ ratio 2 3
unfolding full_duplication_ratio
duplicates = refl

reorder_for_prefix_sharing-perm_example :
    Perm (reorder_for_prefix_sharing shallow prompts) (range (length prompts))
reorder_for_prefix_sharing-perm_example = reorder_for_prefix_sharing-perm shallow prompts

reorder_for_prefix_sharing-IsBlock_example :
    (reorder_for_prefix_sharing shallow prompts ≡ range (length prompts))
    ⊎ ∥ IsBlock
        (reorder_for_prefix_sharing shallow prompts)
        (positions_of (7 ∷ 8 ∷ []) 0 prompts) ∥₁
reorder_for_prefix_sharing-IsBlock_example =
    reorder_for_prefix_sharing-IsBlock shallow prompts (7 ∷ 8 ∷ []) (omega arith)

-- A dispatcher with one prompt.
abbrev hash_of : List ℕ → ℕ
hash_of key = 100 + length key

abbrev with_one : Dispatcher
with_one = enrol hash_of (1 ∷ 2 ∷ []) (7 ∷ []) (new_dispatcher 8)

with_one-IsLinked : IsLinked with_one
with_one-IsLinked =
    enrol-IsLinked hash_of (1 ∷ 2 ∷ []) (7 ∷ []) (new_dispatcher 8) (new_dispatcher-IsLinked 8)

tagged :
    Option.map (λ (r : Dispatcher × Sent). r.1) (submit hash_of (1 ∷ 2 ∷ []) (8 ∷ []) with_one)
    ≡ some (record { rank = 0; group_key = 102; rid = 8 ∷ [] })
unfolding submit
tagged = refl

-- The removal of a prompt that is not stored drops the count all the same.
miscounted :
    (count_of (1 ∷ 2 ∷ []) (withdraw (1 ∷ 2 ∷ []) 99 with_one).group_count ≡ 0)
    × ((remove (1 ∷ 2 ∷ []) 99 with_one.trie).1 ≡ false)
unfolding withdraw enrol remove
miscounted = (refl, refl)

submit-IsLinked_example :
    (r : Dispatcher × Sent) × (submit hash_of (1 ∷ 2 ∷ []) (8 ∷ []) with_one ≡ some r)
    × IsLinked r.0
submit-IsLinked_example = submit-IsLinked hash_of (1 ∷ 2 ∷ []) (8 ∷ []) with_one with_one-IsLinked
