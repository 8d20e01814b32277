-- ===== src/Offline/Ordered.antt =====
-- python/peek/offline/engine.py: what `_queue_depth_reorder` does to a queue.
use mathlib.Core.List.{Perm, perm_append_comm}
use mathlib.Core.List.Perm
use peek.Prelude.{
  ℕ, ◌≡◌, refl, List, [], ◌∷◌, ◌++◌, Option, map, concat, select, select-append, select-append-perm,
  tuple_eq,
}
use peek.Prelude.Group.{group_by, values, group_by-perm}
use peek.Prelude.Partition.{IsPartition, IsPartition-perm, group_by-IsPartition}
use peek.Prelude.Selected.{selected, in_front, IsPartition-selected}
use peek.Prelude.Sort.{
  sort_by, ge_key, ge_key-IsOrder, sort_by-perm, sort_by-IsSorted, IsSorted, IsOrder,
}
use peek.Prelude.Perms.{select-perm}
use peek.Prelude.Lex.{leb_fraction-IsOrder}
use peek.Offline.Full.{
  Matched, GroupStat, prefix_key, is_normal, is_deprioritized, with_stat, stats_of,
  deprioritized_reqs, targets, scores_higher, schedule, queue_depth_reorder, investment,
}

module _ {N : Type 0} (late : List (List ℕ)) where
  normal-with_stat :
      (key : List ℕ) (g : List (Matched N)) (stats : List (GroupStat N))
      → map (λ s. s.normal) (with_stat key g stats) ≡ in_front g (map (λ s. s.normal) stats)
  normal-with_stat key [] stats = refl
  normal-with_stat key (r ∷ rs) stats = refl

  normal-stats_of :
      (gs : List (List ℕ × List (Matched N)))
      → map (λ s. s.normal) (stats_of late gs) ≡ selected (is_normal late) (values gs)
  unfolding stats_of
  normal-stats_of [] = refl
  normal-stats_of ((k, g) ∷ gs) =
      rw (normal-with_stat k (select (is_normal late) g) (stats_of late gs), normal-stats_of gs)
        refl

  deprioritized_reqs-select :
      (gs : List (List ℕ × List (Matched N)))
      → deprioritized_reqs late gs ≡ select (is_deprioritized late) (concat (values gs))
  unfolding deprioritized_reqs
  deprioritized_reqs-select [] = refl
  deprioritized_reqs-select ((k, g) ∷ gs) =
      rw
        (deprioritized_reqs-select gs, select-append (is_deprioritized late) g (concat (values gs)))
        refl

scores_higher-IsOrder : {N : Type 0} (keys : List (List ℕ)) → IsOrder (scores_higher {N = N} keys)
scores_higher-IsOrder keys = record {
  trans = λ a b c p q. leb_fraction-IsOrder.trans _ _ _ q p;
  total = λ a b p. leb_fraction-IsOrder.total _ _ p;
}

-- A queue `rs` reordered: the groups of the requests that are not deprioritized, one group for
-- each key, by their scores; then those that are.
pub record IsByDepth {N : Type 0} (total_size : Option ℕ) (late : List (List ℕ))
    (rs out : List (Matched N)) : Type 0 where
  pub groups : List (GroupStat N)
  pub parts : IsPartition prefix_key (select (is_normal late) rs) (map (λ s. s.normal) groups)
  pub by_investment : List (GroupStat N)
  pub invested : IsSorted (ge_key investment) by_investment
  pub same : Perm by_investment groups
  pub order : IsSorted (scores_higher (map (λ s. s.key) (targets total_size by_investment))) groups
  pub behind : List (Matched N)
  pub behind_perm : Perm behind (select (is_deprioritized late) rs)
  pub split : out ≡ concat (map (λ s. s.normal) groups) ++ behind

module _ {N : Type 0} where
  pub queue_depth_reorder-IsByDepth :
      (total_size : Option ℕ) (late : List (List ℕ)) (rs : List (Matched N))
      → IsByDepth total_size late rs (queue_depth_reorder total_size late rs).waiting_queue
        × Perm (queue_depth_reorder total_size late rs).waiting_queue rs
  unfolding queue_depth_reorder schedule
  queue_depth_reorder-IsByDepth total_size late rs = (
    by_depth,
    Perm.trans (Perm.append by_depth.parts.whole by_depth.behind_perm) (
        Perm.trans
          (perm_append_comm (select (is_normal late) rs) (select (is_deprioritized late) rs))
          (select-append-perm (is_deprioritized late) rs)),
  )
    where
      gs : List (List ℕ × List (Matched N))
      gs = group_by prefix_key rs

      stats : List (GroupStat N)
      stats = sort_by (ge_key investment) (stats_of late gs)

      keys : List (List ℕ)
      keys = map (λ s. s.key) (targets total_size stats)

      scored : List (GroupStat N)
      scored = sort_by (scores_higher keys) stats

      by_depth : IsByDepth total_size late rs (queue_depth_reorder total_size late rs).waiting_queue
      by_depth = record {
        groups = scored;
        parts =
            IsPartition-perm prefix_key
              (Perm.symm (
                Perm.map (λ s. s.normal)
                  (Perm.trans (sort_by-perm (scores_higher keys) stats)
                    (sort_by-perm (ge_key investment) (stats_of late gs)))))
              (rw (normal-stats_of late gs) (
                IsPartition-selected (is_normal late) prefix_key (hlevel)
                  (group_by-IsPartition (hlevel) prefix_key rs)));
        by_investment = stats;
        invested = sort_by-IsSorted _ (ge_key-IsOrder investment) (stats_of late gs);
        same = Perm.symm (sort_by-perm (scores_higher keys) stats);
        order = sort_by-IsSorted _ (scores_higher-IsOrder keys) stats;
        behind = deprioritized_reqs late gs;
        behind_perm =
            rw (deprioritized_reqs-select late gs)
              (select-perm (is_deprioritized late) (group_by-perm prefix_key rs));
        split = refl;
      }
