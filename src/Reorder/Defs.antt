-- ===== src/Reorder/Defs.antt =====
-- `reorder_for_prefix_sharing` and `_full_duplication_ratio`.
use peek.Prelude.{
  ℕ, ◌+◌, ◌*◌, List, [], ◌∷◌, Bool, length, range, sum, select, ltb, leb, ◌==◌, if◌then◌else◌, Eq,
  tuple_eq, true,
}
use peek.Prelude.Group.{values}
use peek.Trie.Data.{PrefixTrie, new_trie}
use peek.Trie.Update.{build}
use peek.Trie.Traverse.{Ratio, ratio, sharing_score, dfs_order}

-- `a < b`, by cross-multiplication.
abbrev pub ratio_lt : Ratio → Ratio → Bool
ratio_lt a b = ltb (a.num * b.den) (b.num * a.den)

-- The keyword arguments of `reorder_for_prefix_sharing`.
pub record ReorderConfig : Type 0 where
  pub min_sharing_depth : ℕ
  pub min_coverage : Ratio
  pub min_avg_sharing_depth : ℕ
  pub max_duplication : Ratio

abbrev pub default_config : ReorderConfig
default_config = record {
  min_sharing_depth = 32;
  min_coverage = ratio 1 10;
  min_avg_sharing_depth = 64;
  max_duplication = ratio 1 2;
}

module _ {ℓ} {K : Type ℓ} ⦃e : Eq K⦄ where
  -- `counts[key] = counts.get(key, 0) + 1`
  unfoldable pub count_up : K → List (K × ℕ) → List (K × ℕ)
  count_up k [] = (k, 1) ∷ []
  count_up k ((j, n) ∷ counts) =
      if e.beq j k then (j, n + 1) ∷ counts else (j, n) ∷ count_up k counts

  unfoldable pub count_all : List (K × ℕ) → List K → List (K × ℕ)
  unfolding count_up
  count_all counts [] = counts
  count_all counts (k ∷ ks) = count_all (count_up k counts) ks

unfoldable pub duplicated : List (List ℕ) → ℕ
unfolding count_all
duplicated sequences = sum (select (λ c. leb 2 c) (values (count_all [] sequences)))

unfoldable pub full_duplication_ratio : List (List ℕ) → Ratio
unfolding duplicated
full_duplication_ratio sequences =
    if length sequences == 0 then ratio 0 1 else ratio (duplicated sequences) (length sequences)

-- `PrefixTrie()` takes 128 tokens of each sequence.
abbrev pub default_max_depth : ℕ
default_max_depth = 128

unfoldable pub build_trie : List (List ℕ) → PrefixTrie
unfolding build
build_trie sequences = build sequences (new_trie default_max_depth)

unfoldable pub reorder_for_prefix_sharing : ReorderConfig → List (List ℕ) → List ℕ
reorder_for_prefix_sharing cfg sequences =
    let n = length sequences in
    let trie = build_trie sequences in
    let score = sharing_score cfg.min_sharing_depth trie in
    let order = dfs_order true trie in
    if n == 0
    then []
    else if ratio_lt cfg.max_duplication (full_duplication_ratio sequences)
    then range n
    else if ratio_lt score.coverage cfg.min_coverage
    then range n
    else if ratio_lt score.avg_depth (ratio cfg.min_avg_sharing_depth 1)
    then range n
    else order
