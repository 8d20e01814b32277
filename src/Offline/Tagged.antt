-- ===== src/Offline/Tagged.antt =====
-- python/peek/offline/engine.py: `_run_tagged` from its second step on. The score, which the
-- source computes in floating point, is an exact fraction here, a thousand times as large.
use peek.Prelude.{
  ℕ, suc, ◌+◌, ◌-◌, ◌*◌, ◌/◌, min, max, ◌&&◌, List, [], ◌∷◌, ◌++◌, Option, none, some, ◌>>=◌, Bool,
  map, if◌then◌else◌, ltb, length, take, sum, concat, not,
}
use peek.Prelude.Int.{ℤ, ltb_ℤ, int_eq}
use peek.Prelude.Group.{group_by}
use peek.Prelude.Sort.{sort_by}
use peek.Prelude.Dict.{get, put}
use peek.Prelude.Lex.{lex, Fraction, leb_fraction}
use peek.Offline.Requests.{Request, Match, TreeCache, Tagged}
use peek.Offline.Tags.{starts_with, is_tagged, parse_peek_rid}

-- A request's share of step 2, with what the later requests give.
abbrev pub add_tagged :
    Request → Option (ℤ × ℤ × List ℕ) → Option (List Tagged) → Option (List Tagged)
add_tagged r tag rest = tag >>= λ (rank, key, orig).
    rest >>= λ ts. some (record { rank = rank; key = key; request = r } ∷ ts)

abbrev pub collect_one : Option (List ℕ) → Request → Option (List Tagged) → Option (List Tagged)
collect_one none r rest = rest
collect_one (some rid) r rest =
    if is_tagged rid then add_tagged r (parse_peek_rid rid) rest else rest

-- Step 2, before the grouping. none where `int` raises a ValueError.
unfoldable pub collect : List Request → Option (List Tagged)
unfolding starts_with parse_peek_rid
collect [] = some []
collect (r ∷ rs) = collect_one r.rid r (collect rs)

-- `max_wait`, over the members.
unfoldable pub max_wait : ℕ → List Tagged → ℕ
max_wait now [] = 0
max_wait now (t ∷ ts) =
    let arr = t.request.entry_time in
    let rest = max_wait now ts in if ltb 0 arr then max (now - arr) rest else rest

-- `d.get(k, default)`, of what was found.
abbrev or_default : ℕ → Option ℕ → ℕ
or_default default none = default
or_default default (some n) = n

module _ {C N : Type 0} (tc : TreeCache C N) where
  -- An entry of `group_stats`, with the first member's rank.
  pub record Stat : Type 0 where
    pub group_key : ℤ
    pub dfs_rank : ℤ
    pub members : List Tagged
    pub prefix_len : ℕ
    pub matched : Match N
    pub eviction_risk : ℕ

module _ {C N : Type 0} {tc : TreeCache C N} where
  abbrev pub cached_len : Stat tc → ℕ
  cached_len s = length s.matched.device_indices

module _ {C N : Type 0} (tc : TreeCache C N) (monotonic : ℕ → ℕ) where
  -- For how long the prefix was not used, `max(0.0, now - last_access)`.
  abbrev pub eviction_risk_of : C → ℕ → Match N → ℕ
  eviction_risk_of c now m = elim m.last_device_node [
    | none ↦ 0
    | some node ↦ if ltb 0 (length m.device_indices) then now - tc.last_access_time node c else 0
  ]

  -- Steps 3 and 4: one match for each group. `monotonic i` is the clock's reading at the group
  -- of place i.
  unfoldable pub match_groups : ℕ → List (ℤ × List Tagged) → C → Option (C × List (Stat tc))
  match_groups i [] c = some (c, [])
  match_groups i ((key, []) ∷ gs) c = none
  match_groups i ((key, rep ∷ members) ∷ gs) c =
      let r = rep.request in
      let (c', m) = tc.match_prefix (r.origin_input_ids ++ r.output_ids) r.extra_key c in
      let stat : Stat tc = record {
        group_key = key;
        dfs_rank = rep.rank;
        members = rep ∷ members;
        prefix_len = length r.origin_input_ids;
        matched = m;
        eviction_risk = eviction_risk_of c' (monotonic i) m;
      } in
      match_groups (suc i) gs c' >>= λ (c'', stats). some (c'', stat ∷ stats)

module _ {C N : Type 0} {tc : TreeCache C N} where
  -- Step 5: `score`.
  unfoldable pub score : ℕ → List (ℤ × ℕ) → Stat tc → Fraction
  unfolding get max_wait
  score now client_pending s =
      let queue_count = length s.members in
      let total = max s.prefix_len 1 in
      let pending = or_default queue_count (get s.group_key client_pending) in
      let future_refs = pending - 32 in
      let urgency = 100 * s.eviction_risk + 100 * max_wait now s.members + queue_count in
      record {
        gain = 10000000 * cached_len s + urgency * total;
        loss = 1000 * future_refs * total;
        den_pred = total - 1;
      }

  -- `scored.sort(key=lambda x: (-x[0], x[1]))`
  abbrev pub goes_first : ℕ → List (ℤ × ℕ) → Stat tc → Stat tc → Bool
  goes_first now pending =
      lex (λ a b. leb_fraction (score now pending b) (score now pending a))
        (λ a b. not (ltb_ℤ b.dfs_rank a.dfs_rank))

  -- Step 6: the members of a group carry its match.
  abbrev pub queue_of : List (Stat tc) → List (Request × Match N)
  queue_of scored = concat (map (λ s. map (λ t. (t.request, s.matched)) s.members) scored)

  -- `group_fracs`: cached and whole length of the prefix.
  unfoldable pub group_fracs : List (ℤ × (ℕ × ℕ)) → List (Stat tc) → List (ℤ × (ℕ × ℕ))
  unfolding put
  group_fracs d [] = d
  group_fracs d (s ∷ ss) = group_fracs (put s.group_key (cached_len s, max s.prefix_len 1) d) ss

  -- Step 7: how many groups get protection, three quarters of those that fit.
  unfoldable pub protect_k : ℕ → List (Stat tc) → ℕ
  protect_k total_cached scored =
      let num_groups = length scored in
      let lengths = sum (map (λ s. s.prefix_len) scored) in
      let capacity =
        if ltb 0 num_groups && ltb 0 total_cached
        then total_cached * num_groups / max num_groups lengths
        else num_groups in
      min num_groups (max 1 (capacity * 3 / 4))

  abbrev pub nodes_to_protect : List (Stat tc) → List N
  nodes_to_protect [] = []
  nodes_to_protect (s ∷ ss) =
      let rest = nodes_to_protect ss in
      elim s.matched.last_device_node [
        | none ↦ rest
        | some node ↦ if ltb 0 (cached_len s) then node ∷ rest else rest
      ]

module _ {C N : Type 0} (tc : TreeCache C N) where
  abbrev pub inc_all : List N → C → C
  inc_all [] c = c
  inc_all (n ∷ ns) c = inc_all ns (tc.inc_queue_ref n c)

  -- What the engine leaves behind.
  pub record Outcome : Type 0 where
    pub cache : C
    pub scored : List (Stat tc)
    pub waiting_queue : List (Request × Match N)
    pub protected_nodes : List N
    pub fracs : List (ℤ × (ℕ × ℕ))

module _ {C N : Type 0} (tc : TreeCache C N) (monotonic : ℕ → ℕ) (now : ℕ)
    (client_pending : List (ℤ × ℕ)) where
  abbrev pub conclude : C → List (Stat tc) → Outcome tc
  conclude c stats =
      let scored = sort_by (goes_first now client_pending) stats in
      let total_cached = or_default 0 (tc.total_size c) in
      let protected_nodes = nodes_to_protect (take (protect_k total_cached scored) scored) in
      record {
        cache = inc_all tc protected_nodes c;
        scored = scored;
        waiting_queue = queue_of scored;
        protected_nodes = protected_nodes;
        fracs = group_fracs [] scored;
      }

  unfoldable pub run_tagged : List Request → C → Option (Outcome tc)
  unfolding collect group_by match_groups score group_fracs protect_k sort_by
  run_tagged waiting_queue c = collect waiting_queue >>= λ tagged.
      match_groups tc monotonic 0 (group_by (λ t. t.key) tagged) c >>= λ (c', stats).
      some (conclude c' stats)
