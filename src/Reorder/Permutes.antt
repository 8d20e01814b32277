-- ===== src/Reorder/Permutes.antt =====
-- `reorder_for_prefix_sharing` returns each position once, and keeps prompts with a common prefix
-- together.
use mathlib.Core.Logic.{∥∥₁_map}
use mathlib.Core.List.{Perm}
use mathlib.Core.List.Perm
use peek.Prelude.{
  ℕ, zero, suc, ◌≤◌, ◌≡◌, ◌⊎◌, refl, ap, inl, inr, List, [], ◌∷◌, map, true, arith, length, take,
  range, select, ◌==◌, ◌&&◌, Bool-cases, if◌then◌else◌,
}
use peek.Prelude.Perms.{select-perm}
use peek.Trie.Data.{Item, contents, IsValid}
use peek.Trie.Traverse.{dfs_order}
use peek.Trie.Order.{indices, dfs_order-perm}
use peek.Trie.Contiguous.{begins, has_prefix, IsBlock, dfs_order-IsBlock}
use peek.Reorder.Defs.{ReorderConfig, default_max_depth, build_trie, reorder_for_prefix_sharing}
use peek.Reorder.Build.{positioned, build-IsValid, contents-build, map-positioned}

build_trie-IsValid : (ss : List (List ℕ)) → IsValid (build_trie ss)
unfolding build_trie
build_trie-IsValid ss = build-IsValid default_max_depth ss

contents-build_trie :
    (ss : List (List ℕ)) → Perm (contents (build_trie ss).root) (positioned default_max_depth 0 ss)
unfolding build_trie
contents-build_trie ss = contents-build default_max_depth ss

-- The trie holds each position once.
pub indices-build_trie :
    (ss : List (List ℕ)) → Perm (indices (build_trie ss).root) (range (length ss))
unfolding indices
indices-build_trie ss =
    rw (← map-positioned default_max_depth 0 ss) (Perm.map (λ x. x.1) (contents-build_trie ss))

-- Either the natural order is kept, or the depth-first order of the trie is returned.
reorder_cases :
    (cfg : ReorderConfig) (ss : List (List ℕ))
    → (reorder_for_prefix_sharing cfg ss ≡ range (length ss))
      ⊎ (reorder_for_prefix_sharing cfg ss ≡ dfs_order true (build_trie ss))
unfolding reorder_for_prefix_sharing
reorder_cases cfg [] = inl refl
reorder_cases cfg (s ∷ ss) = ground arith

-- `reorder_for_prefix_sharing` returns a permutation of the positions of its argument, whatever
-- the thresholds are: no prompt is lost and none is named twice.
pub reorder_for_prefix_sharing-perm :
    (cfg : ReorderConfig) (ss : List (List ℕ))
    → Perm (reorder_for_prefix_sharing cfg ss) (range (length ss))
reorder_for_prefix_sharing-perm cfg ss = elim (reorder_cases cfg ss) [
  | inl same ↦ rw same Perm.rfl
  | inr dfs ↦ rw dfs (Perm.trans (dfs_order-perm true (build_trie ss)) (indices-build_trie ss))
]

-- The positions, from `i` on, of the sequences that begin with `p`.
abbrev pub positions_of : List ℕ → ℕ → List (List ℕ) → List ℕ
positions_of p i [] = []
positions_of p i (s ∷ ss) =
    if begins p s then i ∷ positions_of p (suc i) ss else positions_of p (suc i) ss

begins-take : (d : ℕ) (p s : List ℕ) → length p ≤ d → begins p (take d s) ≡ begins p s
begins-take d [] s h = refl
begins-take zero (t ∷ p) s h = absurd (omega arith)
begins-take (suc d) (t ∷ p) [] h = refl
begins-take (suc d) (t ∷ p) (u ∷ s) h = ap (λ b. (u == t) && b) (begins-take d p s (omega arith))

select-positioned :
    (d : ℕ) (p : List ℕ) (i : ℕ) (ss : List (List ℕ))
    → length p ≤ d
    → map (λ (x : Item). x.1) (select (has_prefix p) (positioned d i ss)) ≡ positions_of p i ss
select-positioned d p i [] h = refl
select-positioned d p i (s ∷ ss) h = rw (begins-take d p s h) (elim (Bool-cases (begins p s)) [
  | inl e ↦ rw e (ap (◌∷◌ i) (select-positioned d p (suc i) ss h))
  | inr e ↦ rw e (select-positioned d p (suc i) ss h)
])

-- Unless the natural order is kept, all prompts that share a prefix of at most 128 tokens are
-- consecutive in the order that is returned.
pub reorder_for_prefix_sharing-IsBlock :
    (cfg : ReorderConfig) (ss : List (List ℕ)) (p : List ℕ)
    → length p ≤ default_max_depth
    → (reorder_for_prefix_sharing cfg ss ≡ range (length ss))
      ⊎ ∥ IsBlock (reorder_for_prefix_sharing cfg ss) (positions_of p 0 ss) ∥₁
reorder_for_prefix_sharing-IsBlock cfg ss p h = elim (reorder_cases cfg ss) [
  | inl same ↦ inl same
  | inr dfs ↦ inr (
      rw dfs (
        ∥∥₁_map (dfs_order-IsBlock true (build_trie ss) p (build_trie-IsValid ss)) λ b. record {
          before = b.before;
          block = b.block;
          after = b.after;
          split = b.split;
          same = Perm.trans b.same (
              rw (← select-positioned default_max_depth p 0 ss h)
                (Perm.map (λ x. x.1) (select-perm (has_prefix p) (contents-build_trie ss))));
        }))
]
