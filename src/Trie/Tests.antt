-- ===== src/Trie/Tests.antt =====
-- Runs of the trie on small inputs, and its theorems there.
use mathlib.Core.List.{Mem}
use peek.Prelude.{ℕ, ◌≡◌, refl, List, [], ◌∷◌, true, false, take}
use peek.Trie.Data.{PrefixTrie, new_trie, contents, IsValid}
use peek.Trie.Update.{insert, remove, build}
use peek.Trie.Found.{remove_iff}
use peek.Trie.RoundTrip.{remove-insert}
use peek.Trie.Traverse.{
  ratio, dfs_order, dfs_group_keys, prefix_groups_with_tokens, sharing_score, score_walk,
}
use peek.Trie.Contiguous.{IsBlock, indices_under, dfs_order-IsBlock}
use peek.Reorder.Build.{build-IsValid}

abbrev sequences : List (List ℕ)
sequences = (4 ∷ []) ∷ (1 ∷ 2 ∷ []) ∷ (1 ∷ 2 ∷ 3 ∷ []) ∷ (1 ∷ 2 ∷ []) ∷ (1 ∷ 5 ∷ []) ∷ []

abbrev sample : PrefixTrie
sample = build sequences (new_trie 8)

sample-IsValid : IsValid sample
sample-IsValid = build-IsValid 8 sequences

dfs_order-sample :
    (dfs_order false sample ≡ 0 ∷ 1 ∷ 3 ∷ 2 ∷ 4 ∷ [])
    × (dfs_order true sample ≡ 1 ∷ 3 ∷ 2 ∷ 4 ∷ 0 ∷ [])
unfolding build insert dfs_order
dfs_order-sample = (refl, refl)

dfs_group_keys-sample :
    dfs_group_keys true sample ≡ (1 ∷ 2 ∷ []) ∷ (1 ∷ 2 ∷ 3 ∷ []) ∷ (1 ∷ 5 ∷ []) ∷ (4 ∷ []) ∷ []
unfolding build insert dfs_group_keys
dfs_group_keys-sample = refl

prefix_groups-sample : prefix_groups_with_tokens 2 sample ≡ (1 ∷ 2 ∷ [], 1 ∷ 3 ∷ 2 ∷ []) ∷ []
unfolding build insert prefix_groups_with_tokens
prefix_groups-sample = refl

sharing_score-sample :
    sharing_score 1 sample ≡ record { coverage = ratio 4 5; max_group = 4; avg_depth = ratio 4 4 }
unfolding build insert sharing_score score_walk
sharing_score-sample = refl

removed-sample : (remove (1 ∷ 2 ∷ []) 3 sample).1 ≡ true
unfolding build insert remove
removed-sample = refl

not_removed-sample : (remove (1 ∷ 2 ∷ []) 9 sample).1 ≡ false
unfolding build insert remove
not_removed-sample = refl

not_stored : ¬ Mem (take sample.max_depth (1 ∷ 2 ∷ []), 9) (contents sample.root)
not_stored m =
    let found = (remove_iff (1 ∷ 2 ∷ []) 9 sample sample-IsValid).1 m in
    let missing = not_removed-sample in cc

remove-insert_example : remove (1 ∷ 2 ∷ []) 9 (insert (1 ∷ 2 ∷ []) 9 sample) ≡ (sample, true)
remove-insert_example = remove-insert (1 ∷ 2 ∷ []) 9 sample sample-IsValid not_stored

dfs_order-IsBlock_example :
    ∥ IsBlock (dfs_order true sample) (indices_under (1 ∷ []) sample.root) ∥₁
dfs_order-IsBlock_example = dfs_order-IsBlock true sample (1 ∷ []) sample-IsValid
