-- ===== src/Offline/Full.antt =====
-- python/peek/offline/engine.py: `_queue_depth_reorder`, the order of a queue whose requests have
-- no tags. The score is an exact fraction here.
use peek.Prelude.{
  ℕ, ◌+◌, ◌-◌, ◌*◌, ◌/◌, max, List, [], ◌∷◌, ◌++◌, Option, none, some, Bool, true, false, map,
  if◌then◌else◌, ltb, leb, ◌&&◌, not, length, take, sum, concat, select, tuple_eq,
}
use peek.Prelude.Group.{group_by}
use peek.Prelude.Sort.{sort_by, ge_key}
use peek.Prelude.Membership.{contains}
use peek.Prelude.Lex.{Fraction, leb_fraction}
use peek.Offline.Requests.{Request}

-- A request with what `_compute_prefix_matches` wrote into it.
pub record Matched (N : Type 0) : Type 0 where
  pub request : Request
  pub prefix_indices : List ℕ
  pub last_node : Option N

-- A group's statistics, with what its cached fraction is computed of.
pub record GroupStat (N : Type 0) : Type 0 where
  pub key : List ℕ
  pub normal : List (Matched N)
  pub queue_count : ℕ
  pub prefix_len : ℕ
  pub total_cached : ℕ
  pub rep_node : Option N
  pub rep_cached : ℕ

abbrev pub rid_in : List (List ℕ) → Option (List ℕ) → Bool
rid_in deprioritized none = false
rid_in deprioritized (some rid) = contains deprioritized rid

module _ {N : Type 0} where
  -- `_KEY_LEN` is 64.
  abbrev pub prefix_key : Matched N → List ℕ
  prefix_key r =
      let ids = r.request.origin_input_ids in if leb 64 (length ids) then take 64 ids else ids

  abbrev pub is_deprioritized : List (List ℕ) → Matched N → Bool
  is_deprioritized deprioritized r = rid_in deprioritized r.request.rid

  abbrev pub is_normal : List (List ℕ) → Matched N → Bool
  is_normal deprioritized r = not (is_deprioritized deprioritized r)

  -- A group's entry, when some of its members are not deprioritized.
  abbrev pub with_stat : List ℕ → List (Matched N) → List (GroupStat N) → List (GroupStat N)
  with_stat key [] stats = stats
  with_stat key (rep ∷ others) stats =
      let normal = rep ∷ others in
      record {
        key = key;
        normal = normal;
        queue_count = length normal;
        prefix_len = length rep.request.origin_input_ids;
        total_cached = sum (map (λ r. length r.prefix_indices) normal);
        rep_node = rep.last_node;
        rep_cached = length rep.prefix_indices;
      }
      ∷ stats

  -- Step 2.
  unfoldable pub stats_of : List (List ℕ) → List (List ℕ × List (Matched N)) → List (GroupStat N)
  stats_of deprioritized [] = []
  stats_of deprioritized ((key, members) ∷ gs) =
      with_stat key (select (is_normal deprioritized) members) (stats_of deprioritized gs)

  unfoldable pub deprioritized_reqs :
      List (List ℕ) → List (List ℕ × List (Matched N)) → List (Matched N)
  deprioritized_reqs deprioritized [] = []
  deprioritized_reqs deprioritized ((key, members) ∷ gs) =
      select (is_deprioritized deprioritized) members ++ deprioritized_reqs deprioritized gs

  -- Step 3: the loop over the statistics, which leaves when the budget is used up and there is
  -- a target already.
  unfoldable pub fill_budget : ℕ → ℕ → Bool → List (GroupStat N) → List (GroupStat N)
  fill_budget budget used found [] = []
  fill_budget budget used found (s ∷ ss) =
      let rest = fill_budget budget (used + s.prefix_len) true ss in
      if ltb budget (used + s.prefix_len) && found then [] else s ∷ rest

  unfoldable pub targets : Option ℕ → List (GroupStat N) → List (GroupStat N)
  unfolding fill_budget
  targets none stats = stats
  targets (some total_size) stats =
      let budget = total_size * 3 / 4 in
      if ltb 0 budget then fill_budget budget 0 false stats else stats

  -- Step 4: the score, with a thousand for the cached fraction.
  abbrev pub depth_score : List (List ℕ) → GroupStat N → Fraction
  depth_score target_keys s =
      let whole = max (s.prefix_len * s.queue_count) 1 in
      let target_bonus = if contains target_keys s.key then 10000 else 0 in
      record {
        gain = (target_bonus + s.queue_count) * whole + 1000 * s.total_cached;
        loss = 0;
        den_pred = whole - 1;
      }

  abbrev pub scores_higher : List (List ℕ) → GroupStat N → GroupStat N → Bool
  scores_higher target_keys a b =
      leb_fraction (depth_score target_keys b) (depth_score target_keys a)

  -- `self._target_nodes`
  abbrev pub target_nodes : List (List ℕ) → List (GroupStat N) → List N
  target_nodes target_keys [] = []
  target_nodes target_keys (s ∷ ss) =
      let rest = target_nodes target_keys ss in
      elim s.rep_node [
        | none ↦ rest
        | some node ↦ if contains target_keys s.key && ltb 0 s.rep_cached then node ∷ rest else rest
      ]

  -- `queue_count x prefix_len`
  abbrev pub investment : GroupStat N → ℕ
  investment s = s.queue_count * s.prefix_len

-- The queue, the nodes to protect and the number of groups.
pub record Reordered (N : Type 0) : Type 0 where
  pub waiting_queue : List (Matched N)
  pub nodes : List N
  pub group_count : ℕ

module _ {N : Type 0} where
  -- Steps 4 and 5, of the statistics in the order of their investment values.
  unfoldable pub schedule : Option ℕ → List (Matched N) → List (GroupStat N) → Reordered N
  unfolding targets sort_by
  schedule total_size late stats =
      let target_keys = map (λ s. s.key) (targets total_size stats) in
      let scored = sort_by (scores_higher target_keys) stats in
      record {
        waiting_queue = concat (map (λ s. s.normal) scored) ++ late;
        nodes = target_nodes target_keys stats;
        group_count = length scored;
      }

  unfoldable pub queue_depth_reorder : Option ℕ → List (List ℕ) → List (Matched N) → Reordered N
  unfolding group_by stats_of deprioritized_reqs schedule sort_by
  queue_depth_reorder total_size deprioritized waiting_queue =
      let groups = group_by prefix_key waiting_queue in
      schedule total_size (deprioritized_reqs deprioritized groups)
        (sort_by (ge_key investment) (stats_of deprioritized groups))
