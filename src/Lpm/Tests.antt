-- ===== src/Lpm/Tests.antt =====
-- Runs of the schedulers on small queues, and their theorems there.
use mathlib.Core.List.{Perm, Mem}
use mathlib.Core.List.Perm
use mathlib.Core.Option
use peek.Prelude.{
  arith, ℕ, ◌≡◌, ◌↔◌, refl, List, [], ◌∷◌, map, Option, none, some, Bool, true, false, length,
  range, nat_eq, tuple_eq,
}
use peek.Prelude.Int.{pos}
use peek.Prelude.Membership.{contains}
use peek.Trie.Traverse.{ratio}
use peek.Lpm.Data.{Req, Inputs, ClusterInfo, main_hit, prefix_hit}
use peek.Lpm.Deprioritize.{
  claim_if, compute_in_batch_deprioritize, IsPutOff, compute_in_batch_deprioritize_iff,
}
use peek.Lpm.Sort.{SortConfig, peek_sort_inplace, IsSortOrder}
use peek.Lpm.Stride.{interleave, start_lanes}
use peek.Lpm.Interleave.{interleave-perm}
use peek.Lpm.Fair.{IsFair, rounds, interleave-IsFair}
use peek.Lpm.Clusters.{ClpmConfig, Meta, group_major_order, admission_order, peek_clpm_sort_inplace}
use peek.Lpm.Admission.{peek_clpm_sort_inplace-perm}

abbrev req : ℕ → List ℕ → List ℕ → Req
req i tokens hit = record {
  rid = i ∷ [];
  origin_input_ids = tokens;
  output_ids = [];
  prefix_indices = some hit;
}

abbrev queue : List Req
queue =
    req 50 (1 ∷ 2 ∷ 3 ∷ []) []
    ∷ req 51 (1 ∷ 2 ∷ 4 ∷ []) []
    ∷ req 52 (9 ∷ []) []
    ∷ req 53 (8 ∷ 8 ∷ 8 ∷ []) (5 ∷ 6 ∷ 7 ∷ [])
    ∷ req 54 (1 ∷ 2 ∷ 5 ∷ []) []
    ∷ []

abbrev first_code : List ℕ → Option ℕ
first_code [] = none
first_code (c ∷ cs) = some c

abbrev cluster_of : ℕ → Option ClusterInfo
cluster_of i = elim (contains (52 ∷ 53 ∷ []) i) [
  | true ↦ none
  | false ↦ some (record { cluster_node = 4; depth = 2; size = 3 })
]

abbrev inputs : Inputs
inputs = record {
  rid_to_int = first_code;
  main_hits = none;
  all_cluster_info = cluster_of;
  compute_req_scores = λ i. 0;
}

put_off : compute_in_batch_deprioritize (pos 2) (pos 2) queue ≡ (51 ∷ []) ∷ (54 ∷ []) ∷ []
unfolding compute_in_batch_deprioritize
put_off = refl

compute_in_batch_deprioritize_iff_example :
    Mem (54 ∷ []) (compute_in_batch_deprioritize (pos 2) (pos 2) queue)
    ↔ ∥ IsPutOff 2 2 prefix_hit [] queue (54 ∷ []) ∥₁
compute_in_batch_deprioritize_iff_example = compute_in_batch_deprioritize_iff 2 2 queue (54 ∷ [])

abbrev sort_config : SortConfig
sort_config = record {
  check_threshold = pos 2;
  deprioritize_threshold = pos 2;
  rank_by_cluster_size = true;
  peek_lpm_sort = false;
}

-- The order of the positions as it is.
abbrev keep_order : List (ℕ × Bool) → List ℕ
keep_order keys = range (length keys)

sorted :
    Option.map (map (λ (r : Req). r.rid)) (peek_sort_inplace keep_order sort_config inputs queue)
    ≡ some ((53 ∷ []) ∷ (50 ∷ []) ∷ (51 ∷ []) ∷ (54 ∷ []) ∷ (52 ∷ []) ∷ [])
unfolding peek_sort_inplace
sorted = refl

keep_order-IsSortOrder : IsSortOrder keep_order
keep_order-IsSortOrder keys = Perm.rfl

-- Two picks of lane A for each pick of lane B.
interleaved : interleave 1 2 4 (0 ∷ 1 ∷ 2 ∷ 3 ∷ []) (3 ∷ 2 ∷ 1 ∷ 0 ∷ []) ≡ some (0 ∷ 1 ∷ 3 ∷ 2 ∷ [])
unfolding interleave
interleaved = refl

interleave-perm_example :
    (out : List ℕ) × (interleave 1 2 4 (range 4) (range 4) ≡ some out) × Perm out (range 4)
interleave-perm_example = interleave-perm 1 2 4 (range 4) (range 4) Perm.rfl Perm.rfl

interleave-IsFair_example :
    (na : ℕ) × (nb : ℕ) × IsFair 1 2 na nb (rounds 3 1 2 (start_lanes 1 2 (range 4) (range 4)))
interleave-IsFair_example =
    interleave-IsFair 3 4 1 2 (range 4) (range 4) Perm.rfl Perm.rfl (omega arith)

abbrev clpm_config : ClpmConfig
clpm_config = record {
  check_threshold = pos 2;
  deprioritize_threshold = pos 2;
  arrival_ns = λ rid. 0;
  age_bonus = λ rid. 0;
  big_lane_share = ratio 7 10;
  group_major = true;
}

admitted : admission_order clpm_config inputs queue ≡ some (3 ∷ 0 ∷ 2 ∷ 1 ∷ 4 ∷ [])
unfolding admission_order
admitted = refl

peek_clpm_sort_inplace-perm_example :
    (out : List Req) × (peek_clpm_sort_inplace clpm_config inputs queue
      ≡ some (out, claim_if (pos 2) (pos 2) (main_hit inputs) queue))
    × Perm out queue
peek_clpm_sort_inplace-perm_example = peek_clpm_sort_inplace-perm clpm_config inputs queue

abbrev metas : List Meta
metas =
    record { section = 1; gkey = 0 ∷ 4 ∷ []; gscore = 6; mh = 0; arr_ns = 0 }
    ∷ record { section = 1; gkey = 1 ∷ 52 ∷ []; gscore = 0; mh = 0; arr_ns = 0 }
    ∷ record { section = 1; gkey = 0 ∷ 4 ∷ []; gscore = 6; mh = 2; arr_ns = 0 }
    ∷ []

group_major : group_major_order metas ≡ 2 ∷ 0 ∷ 1 ∷ []
unfolding group_major_order
group_major = refl
