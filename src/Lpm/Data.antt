-- ===== src/Lpm/Data.antt =====
-- The waiting requests as lpm_integration.py reads them, and the arguments of its sorts.
use peek.Prelude.{ℕ, List, ◌++◌, Option, none, some, length}

-- `rid` is a string, by the codes of its characters.
pub record Req : Type 0 where
  pub rid : List ℕ
  pub origin_input_ids : List ℕ
  pub output_ids : List ℕ
  pub prefix_indices : Option (List ℕ)

abbrev pub rid_of : Req → List ℕ
rid_of r = r.rid

-- `list(r.origin_input_ids) + list(r.output_ids or [])`
abbrev pub tokens_of : Req → List ℕ
tokens_of r = r.origin_input_ids ++ r.output_ids

-- `0 if pi is None else len(pi)`
abbrev pub prefix_hit : Req → ℕ
prefix_hit r = elim r.prefix_indices [ none ↦ 0 | some pi ↦ length pi ]

-- `(cluster_node, depth, size)`
pub record ClusterInfo : Type 0 where
  pub cluster_node : ℕ
  pub depth : ℕ
  pub size : ℕ

-- What the two sorts are given: the interned rids, the main hits by interned rid if there are any,
-- and what the pending tree, which is not Python, answers for an interned rid.
pub record Inputs : Type 0 where
  pub rid_to_int : List ℕ → Option ℕ
  pub main_hits : Option (ℕ → Option ℕ)
  pub all_cluster_info : ℕ → Option ClusterInfo
  pub compute_req_scores : ℕ → ℕ

abbrev pub get_or_zero : Option ℕ → ℕ
get_or_zero none = 0
get_or_zero (some n) = n

-- `_mh`
abbrev pub hit_with : Option (ℕ → Option ℕ) → Option ℕ → Req → ℕ
hit_with none rid_int r = prefix_hit r
hit_with (some hits) none r = prefix_hit r
hit_with (some hits) (some i) r = get_or_zero (hits i)

abbrev pub main_hit : Inputs → Req → ℕ
main_hit inp r = hit_with inp.main_hits (inp.rid_to_int r.rid) r

-- `all_info.get(rid_int) if rid_int is not None else None`
abbrev pub info_of : Inputs → Req → Option ClusterInfo
info_of inp r = elim (inp.rid_to_int r.rid) [ none ↦ none | some i ↦ inp.all_cluster_info i ]
