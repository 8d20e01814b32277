-- ===== src/Hooks/Priority.antt =====
-- online/engines/sglang/patch_hook.py: `_patched_calc_priority`. Of what a match writes into a
-- request only `prefix_indices` is read here, and kept; the counters, the validation of the order
-- and the warnings are left out.
use peek.Prelude.{
  ℕ, suc, zero, List, [], ◌∷◌, Option, none, some, Bool, true, false, ◌&&◌, not, if◌then◌else◌, ltb,
  length, ◌>>=◌, tuple_eq,
}
use peek.Prelude.Int.{ℤ}
use peek.Prelude.Dict.{get}
use peek.Trie.Traverse.{Ratio}
use peek.Lpm.Data.{Req, Inputs, ClusterInfo}
use peek.Lpm.Sort.{SortConfig, peek_sort_inplace}
use peek.Lpm.Clusters.{ClpmConfig, peek_clpm_sort_inplace}
use peek.Hooks.State.{PendingTree, Hook, intern_all}
use peek.Hooks.CacheMatch.{Edges, cache_match}

-- The environment's settings, and the scheduler's policy. The share of the big lane and the bonus
-- for age are as in `ClpmConfig`.
pub record Settings : Type 0 where
  pub policy_is_lpm : Bool
  pub peek_lpm : Bool
  pub lpm_fb_threshold : ℕ
  pub lazy_match_prefix : Bool
  pub lazy_k : ℕ
  pub skip_dualwalk : Bool
  pub peek_clpm : Bool
  pub rank_by_size : Bool
  pub check_threshold : ℤ
  pub deprioritize_threshold : ℤ
  pub arrival_ns : List ℕ → ℕ
  pub age_bonus : List ℕ → ℕ
  pub big_lane_share : Ratio
  pub group_major : Bool

abbrev pub sort_config : Settings → SortConfig
sort_config s = record {
  check_threshold = s.check_threshold;
  deprioritize_threshold = s.deprioritize_threshold;
  rank_by_cluster_size = s.rank_by_size;
  peek_lpm_sort = s.peek_lpm;
}

abbrev pub clpm_config : Settings → ClpmConfig
clpm_config s = record {
  check_threshold = s.check_threshold;
  deprioritize_threshold = s.deprioritize_threshold;
  arrival_ns = s.arrival_ns;
  age_bonus = s.age_bonus;
  big_lane_share = s.big_lane_share;
  group_major = s.group_major;
}

-- SGLang's side, with a tree cache `C`: its own calc_priority, with its answer, and the match of a
-- request, whose extra key it reads from the request. `edges` are those of the cache's root, if
-- it has one.
pub record Sglang (C : Type 0) : Type 0 where
  pub orig_calc_priority : List Req → C → List Req × C × Bool
  pub match_prefix : Req → C → C × List ℕ
  pub edges : C → Option Edges

-- What the Rust core answers: `compute_main_hits`, which is none where it raises an exception,
-- the clusters, the scores and the order of LPM's keys.
pub record Core (Tree : Type 0) : Type 0 where
  pub compute_main_hits : (List ℕ → ℕ) → Tree → Option (ℕ → Option ℕ)
  pub all_cluster_info : Tree → ℕ → Option ClusterInfo
  pub compute_req_scores : Tree → ℕ → ℕ
  pub lpm_sort_order : List (ℕ × Bool) → List ℕ

-- `pi is not None and len(pi) > 0`
abbrev pub is_populated : Option (List ℕ) → Bool
is_populated none = false
is_populated (some []) = false
is_populated (some (i ∷ is)) = true

module _ {C : Type 0} (sg : Sglang C) where
  abbrev pub populate : Req → C → C × Req
  populate r c =
      let (c', indices) = sg.match_prefix r c in (c', record r { prefix_indices = some indices })

  unfoldable pub populate_all : List Req → C → C × List Req
  populate_all [] c = (c, [])
  populate_all (r ∷ rs) c =
      let (c', r') = populate r c in let (c'', rs') = populate_all rs c' in (c'', r' ∷ rs')

  abbrev pub populate_lazily : Req → C → C × Req
  populate_lazily r c = if is_populated r.prefix_indices then (c, r) else populate r c

  -- The first k requests.
  unfoldable pub populate_first : ℕ → List Req → C → C × List Req
  populate_first zero rs c = (c, rs)
  populate_first (suc k) [] c = (c, [])
  populate_first (suc k) (r ∷ rs) c =
      let (c', r') = populate_lazily r c in
      let (c'', rs') = populate_first k rs c' in (c'', r' ∷ rs')

module _ (C : Type 0) (pt : PendingTree) where
  -- The queue, the cache, the hooks' state and the answer, which is none where the function
  -- returns nothing.
  pub record Ranked : Type 0 where
    pub waiting_queue : List Req
    pub cache : C
    pub hook : Hook pt
    pub answer : Option Bool

module _ {Tree : Type 0} (core : Core Tree) (set : Settings) where
  -- `dualwalk_hits`
  abbrev pub hits_at : Option Edges → Tree → Option (ℕ → Option ℕ)
  hits_at none tree = none
  hits_at (some cache_root) tree =
      if set.skip_dualwalk then none else core.compute_main_hits (cache_match cache_root) tree

  abbrev pub sorted : Inputs → List Req → Option (List Req)
  sorted inp wq =
      if set.peek_clpm
      then (peek_clpm_sort_inplace (clpm_config set) inp wq >>= λ (out, depr). some out)
      else peek_sort_inplace core.lpm_sort_order (sort_config set) inp wq

module _ {C : Type 0} (sg : Sglang C) {pt : PendingTree} (core : Core pt.Tree)
    (set : Settings) where
  -- Only rids of the queue are looked up.
  abbrev pub inputs : C → Hook pt → Inputs
  inputs c st = record {
    rid_to_int = λ rid. get rid st.rid_interner;
    main_hits = hits_at core set (sg.edges c) st.tree;
    all_cluster_info = core.all_cluster_info st.tree;
    compute_req_scores = core.compute_req_scores st.tree;
  }

  -- From the population of the matches on.
  abbrev pub rank_by_cache : List Req → C → Hook pt → Option (Ranked C pt)
  rank_by_cache wq c st =
      let (c1, wq1) = if set.lazy_match_prefix then (c, wq) else populate_all sg wq c in
      let st1 = intern_all pt wq1 st in
      sorted core set (inputs c1 st1) wq1 >>= λ wq2.
      let (c3, wq3) =
        if set.lazy_match_prefix then populate_first sg set.lazy_k wq2 c1 else (c1, wq2) in
      some (record { waiting_queue = wq3; cache = c3; hook = st1; answer = some true })

  unfoldable pub calc_priority : List Req → C → Hook pt → Option (Ranked C pt)
  unfolding populate_all intern_all cache_match peek_clpm_sort_inplace peek_sort_inplace
      populate_first get
  calc_priority wq c st =
      if not set.policy_is_lpm
      then (let (wq', c', answer) = sg.orig_calc_priority wq c in
          some (record { waiting_queue = wq'; cache = c'; hook = st; answer = some answer }))
      else if set.peek_lpm && ltb set.lpm_fb_threshold (length wq)
      then some (record { waiting_queue = wq; cache = c; hook = st; answer = none })
      else rank_by_cache wq c st
