-- ===== src/VllmHooks/Waiting.antt =====
-- `_compute_main_hits`, `_ReqAdapter` and `_reorder_waiting`, with the sorts of
-- lpm_integration.py. The requests that are written back stand here as their ids, which are
-- distinct; the counters are left out.
use peek.Prelude.{
  ℕ, zero, suc, ◌-◌, List, [], ◌∷◌, map, Option, none, some, Bool, false, ◌&&◌, ◌||◌, not,
  if◌then◌else◌, ltb, leb, length, ◌>>=◌, nat_eq, tuple_eq,
}
use peek.Prelude.Dict.{get, put}
use peek.Lpm.Data.{Req, Inputs, ClusterInfo, rid_of, get_or_zero}
use peek.Lpm.Sort.{peek_sort_inplace}
use peek.Lpm.Clusters.{ClpmConfig, peek_clpm_sort_inplace}
use peek.Hooks.State.{PendingTree, Hook, intern_all}

-- What the hook reads of vLLM's request.
pub record Request : Type 0 where
  pub request_id : List ℕ
  pub prompt_token_ids : List ℕ
  pub output_token_ids : List ℕ
  pub block_hashes : List ℕ
  pub skip_reading_prefix_cache : Bool
  pub num_tokens : ℕ

-- The settings of the environment, as in `ClpmConfig`.
pub record Settings : Type 0 where
  pub scheduler : Bool
  pub peek_lpm : Bool
  pub lpm_fb_threshold : ℕ
  pub peek_clpm : Bool
  pub clpm : ClpmConfig

-- What vLLM and the Rust core answer: the number of cached tokens of a chain of hashes, up to a
-- length, which is none where the call raises an exception; the clusters, the scores and the order
-- of LPM's keys.
pub record Services (Tree : Type 0) : Type 0 where
  pub enable_caching : Bool
  pub find_longest_cache_hit : List ℕ → ℕ → Option ℕ
  pub all_cluster_info : Tree → ℕ → Option ClusterInfo
  pub compute_req_scores : Tree → ℕ → ℕ
  pub lpm_sort_order : List (ℕ × Bool) → List ℕ

abbrev pub hit_of_hashes : (List ℕ → ℕ → Option ℕ) → List ℕ → ℕ → ℕ
hit_of_hashes find [] num_tokens = 0
hit_of_hashes find (h ∷ hs) num_tokens = get_or_zero (find (h ∷ hs) (num_tokens - 1))

-- What a request gets in `out`.
abbrev pub hit_of : (List ℕ → ℕ → Option ℕ) → Request → ℕ
hit_of find r =
    if r.skip_reading_prefix_cache then 0 else hit_of_hashes find r.block_hashes r.num_tokens

unfoldable pub hits_into :
    (List ℕ → ℕ → Option ℕ) → List (List ℕ × ℕ) → List Request → List (List ℕ × ℕ)
unfolding put
hits_into find out [] = out
hits_into find out (r ∷ rs) = hits_into find (put r.request_id (hit_of find r) out) rs

unfoldable pub compute_main_hits :
    {Tree : Type 0} → Services Tree → List Request → List (List ℕ × ℕ)
unfolding hits_into
compute_main_hits sv wq =
    if sv.enable_caching then hits_into sv.find_longest_cache_hit [] wq else []

-- `[0] * n`
abbrev pub zeros : ℕ → List ℕ
zeros zero = []
zeros (suc n) = 0 ∷ zeros n

-- `_ReqAdapter`
unfoldable pub adapter : List (List ℕ × ℕ) → Request → Req
unfolding get
adapter hits r = record {
  rid = r.request_id;
  origin_input_ids = r.prompt_token_ids;
  output_ids = r.output_token_ids;
  prefix_indices = some (zeros (get_or_zero (get r.request_id hits)));
}

-- `main_hits_by_int`
unfoldable pub hits_by_int : List (List ℕ × ℕ) → List (List ℕ × ℕ) → List (ℕ × ℕ)
unfolding get put
hits_by_int interner [] = []
hits_by_int interner ((rid, hit) ∷ hits) = elim (get rid interner) [
  | none ↦ hits_by_int interner hits
  | some i ↦ put i hit (hits_by_int interner hits)
]

module _ {pt : PendingTree} (sv : Services pt.Tree) where
  abbrev pub inputs : List (List ℕ × ℕ) → Hook pt → Inputs
  inputs hits st = record {
    rid_to_int = λ rid. get rid st.rid_interner;
    main_hits = some (λ i. get i (hits_by_int st.rid_interner hits));
    all_cluster_info = sv.all_cluster_info st.tree;
    compute_req_scores = sv.compute_req_scores st.tree;
  }

module _ {Tree : Type 0} (sv : Services Tree) (set : Settings) where
  abbrev pub sorted : Inputs → List Req → Option (List Req)
  sorted inp adapters =
      if set.peek_clpm
      then (peek_clpm_sort_inplace set.clpm inp adapters >>= λ (out, depr). some out)
      else peek_sort_inplace sv.lpm_sort_order
          (record {
            check_threshold = set.clpm.check_threshold;
            deprioritize_threshold = set.clpm.deprioritize_threshold;
            rank_by_cluster_size = false;
            peek_lpm_sort = set.peek_lpm;
          })
          inp adapters

-- The queue is left as it is.
abbrev pub stays : Settings → Bool → List Request → Bool
stays set is_fcfs wq =
    not set.scheduler
    || not is_fcfs
    || leb (length wq) 1
    || (set.peek_lpm && ltb set.lpm_fb_threshold (length wq))

module _ {pt : PendingTree} (sv : Services pt.Tree) (set : Settings) where
  -- The ids of the queue and the hook's state afterwards.
  unfoldable pub reorder_waiting : Bool → List Request → Hook pt → Option (List (List ℕ) × Hook pt)
  unfolding compute_main_hits adapter hits_by_int intern_all peek_clpm_sort_inplace
      peek_sort_inplace
  reorder_waiting is_fcfs wq st =
      if stays set is_fcfs wq
      then some (map (λ r. r.request_id) wq, st)
      else (let hits = compute_main_hits sv wq in
          let adapters = map (adapter hits) wq in
          let st' = intern_all pt adapters st in
          sorted sv set (inputs {pt = pt} sv hits st') adapters >>= λ out.
          some (map rid_of out, st'))
