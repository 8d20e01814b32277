-- ===== src/VllmHooks/Tests.antt =====
-- The block demand, the choice of victims and the finishing of requests on small inputs.
use mathlib.Core.List.{Perm, mem-cons_self, mem-cons_of_mem}
use mathlib.Core.List.Perm
use mathlib.Core.List
use native.Mathlib.Decide.{ℕ_discrete}
use peek.Prelude.{
  ℕ, ◌≡◌, refl, sym, ◌∙◌, subst, map, List, [], ◌∷◌, Option, none, some, true, false, range, length,
  arith, nat_eq, tuple_eq,
}
use peek.Prelude.Int.{ℤ, pos}
use peek.Prelude.Dict.{get, put, delete, add, set_of, set_beq}
use peek.Prelude.Membership.{contains}
use mathlib.Core.Option.{some_inj}
use peek.Prelude.Sort.{sort_by}
use peek.Lpm.Lex.{lex_leb}
use peek.Lpm.Data.{Req, rid_of}
use peek.VllmHooks.Waiting.{Request, Services, Settings, stays, reorder_waiting}
use peek.VllmHooks.Rearranged.{reorder_waiting-Rearranges}
use peek.Hooks.State.{
  Hook, intern, insert_anew, track, enter, enter_all, leave_all, close_all, sync_slow, sync,
}
use peek.Hooks.Intern.{view}
use peek.Hooks.Synced.{IsSynced, new_hook-IsSynced, sync-refines}
use peek.Hooks.Tests.{list_tree, list_tree-IsStore, first, second, start}
use peek.VllmHooks.Demand.{
  Index, cluster, new_index, count_at, bump_hash, bump_hashes, bump_rid, drop_hash, drop_hashes,
  drop_rid,
}
use peek.VllmHooks.Counts.{IsCounted, bump_rid-IsCounted}
use peek.VllmHooks.Counted.{drop-bump}
use peek.VllmHooks.Victims.{Block, scan, top_up, choose}
use peek.VllmHooks.Chosen.{IsChosen, choose-IsChosen}
use peek.VllmHooks.Finish.{finish_requests, finish_then_sync}

new_index-IsCounted : IsCounted cluster new_index
unfolding get
new_index-IsCounted = record {
  counted = λ h. refl;
  positive = λ h n. cc;
  dict = tt;
  depths = λ cl. tt;
}

-- Two requests with a common first block.
abbrev one : Index
one = bump_rid cluster (5 ∷ 6 ∷ []) 1 new_index

abbrev two : Index
two = bump_rid cluster (5 ∷ 7 ∷ []) 2 one

two_demand : two.demand ≡ (5, 2) ∷ (6, 1) ∷ (7, 1) ∷ []
unfolding bump_rid bump_hashes bump_hash get put
two_demand = refl

two_depth : two.max_depth ≡ (5, 1) ∷ (6, 2) ∷ (7, 2) ∷ []
unfolding bump_rid bump_hashes bump_hash get put
two_depth = refl

dropped_demand : (drop_rid cluster 1 two).demand ≡ (5, 1) ∷ (7, 1) ∷ []
unfolding drop_rid drop_hashes drop_hash bump_rid bump_hashes bump_hash get put delete
dropped_demand = refl

one-IsCounted : IsCounted cluster one
unfolding get
one-IsCounted = bump_rid-IsCounted cluster (5 ∷ 6 ∷ []) 1 new_index refl new_index-IsCounted

second_is_new : get 2 one.rid_to_hashes ≡ none
unfolding bump_rid bump_hashes bump_hash get put
second_is_new = refl

bump_rid-IsCounted_example : IsCounted cluster (bump_rid cluster (5 ∷ 7 ∷ []) 2 one)
bump_rid-IsCounted_example =
    bump_rid-IsCounted cluster (5 ∷ 7 ∷ []) 2 one second_is_new one-IsCounted

drop-bump_example :
    count_at 5 (drop_rid cluster 2 (bump_rid cluster (5 ∷ 7 ∷ []) 2 one)).demand
    ≡ count_at 5 one.demand
drop-bump_example = drop-bump cluster (5 ∷ 7 ∷ []) 2 one second_is_new one-IsCounted 5

abbrev block : ℕ → ℕ → Block
block i h = record { block_id = i; block_hash = some h; ref_cnt = 0 }

-- Blocks of the hashes 5, 6 and 9, of which nobody wants the last.
abbrev free_blocks : List Block
free_blocks = block 1 5 ∷ block 2 6 ∷ block 3 9 ∷ []

abbrev no_age : ℕ → ℕ → ℤ
no_age raw d = pos d

abbrev wanted_twice : Index
wanted_twice = record {
  demand = (5, 2) ∷ (6, 1) ∷ [];
  max_depth = (5, 1) ∷ (6, 2) ∷ [];
  rid_to_hashes = [];
}

chosen_two :
    choose cluster no_age wanted_twice 2 256 free_blocks ≡ some (block 3 9 ∷ block 2 6 ∷ [])
unfolding choose scan top_up sort_by lex_leb get
chosen_two = refl

block-discrete : Discrete Block
block-discrete = hlevel ℕ_discrete

abbrev unlink : Block → List Block → List Block
unlink b free = List.erase block-discrete free b

abbrev no_stock : ℕ → List Block → Option (List Block × List Block)
no_stock n free = none

choose-IsChosen_example :
    (out : List Block) × (choose cluster no_age wanted_twice 2 2 free_blocks ≡ some out)
    × IsChosen cluster no_age wanted_twice 2 2 free_blocks out
choose-IsChosen_example = choose-IsChosen cluster no_age wanted_twice 2 2 free_blocks (omega arith)

abbrev queue : List Req
queue = first ∷ second ∷ []

abbrev synced : Hook list_tree
synced = record {
  rid_interner = (7 ∷ [], 1) ∷ (8 ∷ [], 2) ∷ [];
  rid_unintern = (1, 7 ∷ []) ∷ (2, 8 ∷ []) ∷ [];
  counter = 2;
  tree = (1, 1 ∷ 2 ∷ []) ∷ (2, 1 ∷ 2 ∷ []) ∷ [];
  seen = 2 ∷ 1 ∷ [];
  last_rids = (7 ∷ []) ∷ (8 ∷ []) ∷ [];
  phase_timings =
      (7 ∷ [], record { arrive_ts = 10; pick_ts = none })
      ∷ (8 ∷ [], record { arrive_ts = 10; pick_ts = none })
      ∷ [];
}

synced-sync : sync list_tree 10 queue start ≡ some synced
unfolding sync sync_slow enter_all enter intern track insert_anew leave_all close_all get put add
    set_of set_beq contains
synced-sync = refl

synced-IsSynced : IsSynced synced
synced-IsSynced =
    let (st, e, h, _) =
      sync-refines list_tree-IsStore 10 queue start (new_hook-IsSynced list_tree-IsStore) in
    subst IsSynced (some_inj.0 (sym e ∙ synced-sync)) h

same_rids : set_beq (set_of (map rid_of queue)) synced.last_rids ≡ true
unfolding set_beq set_of add contains
same_rids = refl

finish_then_sync_example :
    (sync list_tree 20 queue (finish_requests list_tree ((7 ∷ []) ∷ []) synced)
      ≡ some (finish_requests list_tree ((7 ∷ []) ∷ []) synced))
    × (view (finish_requests list_tree ((7 ∷ []) ∷ []) synced) (7 ∷ []) ≡ none)
finish_then_sync_example =
    finish_then_sync list_tree-IsStore 20 (7 ∷ []) queue synced synced-IsSynced refl same_rids

-- Two requests, of which the second has a cached prefix of 16 tokens.
abbrev fresh : Request
fresh = record {
  request_id = 7 ∷ [];
  prompt_token_ids = 1 ∷ 2 ∷ [];
  output_token_ids = [];
  block_hashes = [];
  skip_reading_prefix_cache = false;
  num_tokens = 2;
}

abbrev warm : Request
warm = record fresh { request_id = 8 ∷ []; block_hashes = 5 ∷ []; num_tokens = 20 }

abbrev waiting : List Request
waiting = fresh ∷ warm ∷ []

abbrev services : Services (List (ℕ × List ℕ))
services = record {
  enable_caching = true;
  find_longest_cache_hit = λ hs max_len. some 16;
  all_cluster_info = λ tree i. none;
  compute_req_scores = λ tree i. 0;
  lpm_sort_order = λ keys. range (length keys);
}

abbrev settings : Settings
settings = record {
  scheduler = true;
  peek_lpm = false;
  lpm_fb_threshold = 128;
  peek_clpm = false;
  clpm = record {
    check_threshold = pos 32;
    deprioritize_threshold = pos 32;
    arrival_ns = λ rid. 0;
    age_bonus = λ rid. 0;
    big_lane_share = record { num = 1; den = 2 };
    group_major = false;
  };
}

reorder_waiting-Rearranges_example :
    (out : List (List ℕ)) × (st' : Hook list_tree) × (reorder_waiting services settings true waiting
        synced
      ≡ some (out, st'))
    × Perm out (map (λ r. r.request_id) waiting)
    × (stays settings true waiting ≡ true
        → (out ≡ map (λ r. r.request_id) waiting) × (st' ≡ synced))
reorder_waiting-Rearranges_example =
    reorder_waiting-Rearranges services settings (λ keys. Perm.rfl) true waiting synced

warm_interned : get warm.request_id synced.rid_interner ≡ some 2
unfolding get
warm_interned = refl
