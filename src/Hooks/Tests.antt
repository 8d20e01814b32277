-- ===== src/Hooks/Tests.antt =====
-- The hooks on concrete queues, with an association list as the pending tree.
use peek.Prelude.{
  take, range, length, ◌++◌, ◌≤◌, true, false, ℕ, ◌≡◌, refl, sym, ◌∙◌, subst, inl, inr, List, [],
  ◌∷◌, Option, none, some, ◌==◌, if◌then◌else◌, nat_eq, tuple_eq, Option-cases,
}
use mathlib.Core.Option.{some_inj}
use peek.Prelude.Membership.{contains}
use peek.Prelude.Dict.{get, put, delete, add, discard, set_of, set_beq, get-put, get-delete}
use peek.Prelude.Int.{pos}
use mathlib.Core.List.Perm
use peek.Lpm.Data.{Req, tokens_of}
use peek.Hooks.CacheMatch.{Edges, edge, no_edge, cache_match}
use peek.Hooks.Priority.{Sglang, Core, Settings, Ranked, calc_priority}
use peek.Hooks.Ranking.{IsRanking, calc_priority-IsRanking}
use peek.Hooks.MainHits.{map_option}
use peek.Hooks.Longest.{IsSpelled, IsFiledBy, cache_match_longest}
use peek.Hooks.State.{
  PendingTree, Hook, Event, sync_at, rank, new_hook, is_some, intern, insert_anew, track, enter,
  enter_all, forget, leave, leave_all, close, close_all, sync_slow, sync, intern_all, step, run,
  validate_sync,
}
use peek.Hooks.Intern.{IsStore, view}
use peek.Hooks.Synced.{
  IsSynced, queued, pending_after, new_hook-IsSynced, sync-refines, run-refines,
}
use peek.Hooks.Validate.{sync-IsValidated}

abbrev pub list_insert : ℕ → List ℕ → List (ℕ × List ℕ) → Option (List (ℕ × List ℕ))
list_insert i ts t = if is_some (get i t) then none else some (put i ts t)

abbrev pub list_tree : PendingTree
list_tree = record {
  Tree = List (ℕ × List ℕ);
  empty = [];
  insert_rid = list_insert;
  discard_rid = delete;
  tokens = get;
}

list_insert-free :
    (i : ℕ) (ts : List ℕ) (t : List (ℕ × List ℕ))
    → get i t ≡ none
    → list_insert i ts t ≡ some (put i ts t)
list_insert-free i ts t h = rw h refl

get-list_insert :
    (i j : ℕ) (ts : List ℕ) (t t' : List (ℕ × List ℕ))
    → list_insert i ts t ≡ some t'
    → get j t' ≡ (if i == j then some ts else get j t)
get-list_insert i j ts t t' h = elim (Option-cases (get i t)) [
  | inl free ↦
      let e = list_insert-free i ts t free in
      subst (λ o. get j o ≡ (if i == j then some ts else get j t)) (some_inj.0 (sym e ∙ h))
        (get-put j i ts t)
  | inr (us, there) ↦ let h' = rw there at h in cc
]

pub list_tree-IsStore : IsStore list_tree
unfolding get
list_tree-IsStore = record {
  tokens-empty = λ i. refl;
  insert_free = λ i ts t h. (put i ts t, list_insert-free i ts t h);
  tokens-insert = get-list_insert;
  tokens-discard = λ i j t. get-delete j i t;
}

abbrev pub first : Req
first = record {
  rid = 7 ∷ [];
  origin_input_ids = 1 ∷ 2 ∷ [];
  output_ids = [];
  prefix_indices = none;
}

abbrev pub second : Req
second = record {
  rid = 8 ∷ [];
  origin_input_ids = 1 ∷ [];
  output_ids = 2 ∷ [];
  prefix_indices = none;
}

abbrev pub start : Hook list_tree
start = new_hook list_tree

abbrev events : List Event
events =
    sync_at 10 (first ∷ second ∷ []) ∷ rank (second ∷ first ∷ []) ∷ sync_at 20 (second ∷ []) ∷ []

-- The second request is left, under the number 2; the first has its pick time.
run_example :
    run list_tree events start
    ≡ some (record {
      rid_interner = (8 ∷ [], 2) ∷ [];
      rid_unintern = (2, 8 ∷ []) ∷ [];
      counter = 2;
      tree = (2, 1 ∷ 2 ∷ []) ∷ [];
      seen = 2 ∷ [];
      last_rids = (8 ∷ []) ∷ [];
      phase_timings =
          (7 ∷ [], record { arrive_ts = 10; pick_ts = some 20 })
          ∷ (8 ∷ [], record { arrive_ts = 10; pick_ts = none })
          ∷ [];
    })
unfolding run step sync sync_slow enter_all enter intern track insert_anew leave_all leave forget
    close_all close intern_all get put delete add discard set_of set_beq contains
run_example = refl

run-refines_example :
    (st' : Hook list_tree) × (run list_tree events start ≡ some st')
    × IsSynced st'
    × ((rid : List ℕ) → view st' rid ≡ pending_after events (λ r. none) rid)
run-refines_example = run-refines list_tree-IsStore events

sync-refines_example :
    (st' : Hook list_tree) × (sync list_tree 10 (first ∷ second ∷ []) start ≡ some st')
    × IsSynced st'
    × ((rid : List ℕ) → view st' rid ≡ queued (first ∷ second ∷ []) (view start) rid)
sync-refines_example =
    sync-refines list_tree-IsStore 10 (first ∷ second ∷ []) start
      (new_hook-IsSynced list_tree-IsStore)

nothing_before : (rid ts : List ℕ) → view start rid ≡ some ts → ts ≡ 1 ∷ 2 ∷ []
unfolding get
nothing_before rid ts h = cc

sync-IsValidated_example :
    (st' : Hook list_tree) × (sync list_tree 10 (first ∷ second ∷ []) start ≡ some st')
    × (validate_sync list_tree (first ∷ second ∷ []) st' ≡ (0, 0, 0))
sync-IsValidated_example =
    sync-IsValidated list_tree-IsStore 10 (first ∷ second ∷ []) start
      (new_hook-IsSynced list_tree-IsStore) (λ rid. 1 ∷ 2 ∷ []) (refl, (refl, tt)) nothing_before

-- A radix cache whose root has one child, with the tokens 1, 2 and, below, 3.
abbrev cached : Edges
cached = edge 1 (1 ∷ 2 ∷ []) (edge 3 (3 ∷ []) no_edge no_edge) no_edge

abbrev cached_filed : IsFiledBy cached
cached_filed = ((2 ∷ [], refl), tt, (([], refl), tt, tt, tt), tt)

cache_match_longest_example :
    IsSpelled cached (take (cache_match cached (1 ∷ 2 ∷ 4 ∷ [])) (1 ∷ 2 ∷ 4 ∷ []))
    × ((p s : List ℕ)
        → 1 ∷ 2 ∷ 4 ∷ [] ≡ p ++ s
        → IsSpelled cached p
        → length p ≤ cache_match cached (1 ∷ 2 ∷ 4 ∷ []))
cache_match_longest_example = cache_match_longest cached cached_filed (1 ∷ 2 ∷ 4 ∷ [])

-- SGLang with this cache, whose state is not changed, and a core that asks for each request.
abbrev sglang : Sglang Unit
sglang = record {
  orig_calc_priority = λ wq c. (wq, c, false);
  match_prefix = λ r c. (c, take (cache_match cached (tokens_of r)) (tokens_of r));
  edges = λ c. some cached;
}

abbrev core : Core (List (ℕ × List ℕ))
core = record {
  compute_main_hits = λ match tree. some (λ i. map_option match (get i tree));
  all_cluster_info = λ tree i. none;
  compute_req_scores = λ tree i. 0;
  lpm_sort_order = λ keys. range (length keys);
}

abbrev settings : Settings
settings = record {
  policy_is_lpm = true;
  peek_lpm = true;
  lpm_fb_threshold = 128;
  lazy_match_prefix = true;
  lazy_k = 1;
  skip_dualwalk = false;
  peek_clpm = false;
  rank_by_size = false;
  check_threshold = pos 32;
  deprioritize_threshold = pos 32;
  arrival_ns = λ rid. 0;
  age_bonus = λ rid. 0;
  big_lane_share = record { num = 1; den = 2 };
  group_major = false;
}

calc_priority-IsRanking_example :
    (o : Ranked Unit list_tree) × (calc_priority sglang core settings (first ∷ second ∷ []) tt start
      ≡ some o)
    × IsRanking settings (first ∷ second ∷ []) o
calc_priority-IsRanking_example =
    calc_priority-IsRanking sglang core settings (λ keys. Perm.rfl) refl (first ∷ second ∷ []) tt
      start

-- The hooks after the first synchronisation.
abbrev synced_hook : Hook list_tree
synced_hook = record {
  rid_interner = (7 ∷ [], 1) ∷ (8 ∷ [], 2) ∷ [];
  rid_unintern = (1, 7 ∷ []) ∷ (2, 8 ∷ []) ∷ [];
  counter = 2;
  tree = (1, 1 ∷ 2 ∷ []) ∷ (2, 1 ∷ 2 ∷ []) ∷ [];
  seen = 2 ∷ 1 ∷ [];
  last_rids = (7 ∷ []) ∷ (8 ∷ []) ∷ [];
  phase_timings =
      (7 ∷ [], record { arrive_ts = 10; pick_ts = none })
      ∷ (8 ∷ [], record { arrive_ts = 10; pick_ts = none })
      ∷ [];
}

both_hit : cache_match cached (tokens_of second) ≡ 2
unfolding cache_match
both_hit = refl
