-- ===== src/Lpm/Clusters.antt =====
-- `peek_clpm_sort_inplace`: the keys of the two lanes, the group-major order, and the whole sort.

use peek.Prelude.{
  ℕ, ◌+◌, ◌-◌, ◌*◌, List, [], ◌∷◌, map, Option, none, some, Bool, length, get_elem?, range, concat,
  if◌then◌else◌, leb, ◌>>=◌, min, nat_eq, tuple_eq,
}
use peek.Prelude.Int.{ℤ, pos, neg}
use peek.Prelude.Sort.{sort_by}
use peek.Prelude.Group.{group_by, values}
use peek.Prelude.Pick.{pick}
use peek.Trie.Traverse.{Ratio}
use peek.Lpm.Data.{Req, Inputs, main_hit, info_of}
use peek.Lpm.Lex.{lex_leb, le_lex}
use peek.Lpm.Sections.{Mark, assign, siblings, section_of}
use peek.Lpm.Stride.{interleave}

-- The options. Times are numbers: `arrival_ns` is 0 without `arrival_ts`, and `age_bonus`, which is
-- int(age_alpha * wait_sec), is 0 without age weighting. The share of the big lane is the argument
-- or, with `dynamic_lane`, what the controller computed.
pub record ClpmConfig : Type 0 where
  pub check_threshold : ℤ
  pub deprioritize_threshold : ℤ
  pub arrival_ns : List ℕ → ℕ
  pub age_bonus : List ℕ → ℕ
  pub big_lane_share : Ratio
  pub group_major : Bool

abbrev pub score_of : Inputs → Req → ℕ
score_of inp r = elim (inp.rid_to_int r.rid) [ none ↦ 0 | some i ↦ inp.compute_req_scores i ]

abbrev pub cluster_size : Inputs → Req → ℕ
cluster_size inp r = elim (info_of inp r) [ none ↦ 0 | some info ↦ info.size ]

abbrev pub lane_a_key : ClpmConfig → Inputs → List Mark → Req → List ℤ
lane_a_key cfg inp marks r =
    pos (section_of marks r.rid)
    ∷ neg (main_hit inp r + cfg.age_bonus r.rid)
    ∷ neg (score_of inp r)
    ∷ neg (cluster_size inp r)
    ∷ pos (cfg.arrival_ns r.rid)
    ∷ []

abbrev pub lane_b_key : ClpmConfig → Inputs → List Mark → Req → List ℤ
lane_b_key cfg inp marks r =
    pos (section_of marks r.rid) ∷ pos (cfg.arrival_ns r.rid) ∷ neg (main_hit inp r) ∷ []

-- `gm_meta[i]`; the group key is ("G", cluster_node) or ("S", rid).
pub record Meta : Type 0 where
  pub section : ℕ
  pub gkey : List ℕ
  pub gscore : ℕ
  pub mh : ℕ
  pub arr_ns : ℕ

abbrev pub gkey_of : Inputs → Req → List ℕ × ℕ
gkey_of inp r = elim (info_of inp r) [
  | none ↦ (1 ∷ r.rid, 0)
  | some info ↦
      if leb 2 info.size
      then (0 ∷ info.cluster_node ∷ [], info.depth * info.size)
      else (1 ∷ r.rid, 0)
]

unfoldable pub meta_of : ClpmConfig → Inputs → List Mark → Req → Meta
meta_of cfg inp marks r = record {
  section = section_of marks r.rid;
  gkey = (gkey_of inp r).0;
  gscore = (gkey_of inp r).1;
  mh = main_hit inp r;
  arr_ns = cfg.arrival_ns r.rid;
}

-- What is recorded of the request at a position.
abbrev pub at {ℓ} : {A : Type ℓ} → A → List A → ℕ → A
at default xs i = elim (get_elem? xs i) [ none ↦ default | some x ↦ x ]

abbrev no_meta : Meta
no_meta = record { section = 0; gkey = []; gscore = 0; mh = 0; arr_ns = 0 }

abbrev pub meta_at : List Meta → ℕ → Meta
meta_at metas i = at no_meta metas i

-- `(section, gkey)`
abbrev pub bucket_key : List Meta → ℕ → List ℕ
bucket_key metas i = (meta_at metas i).section ∷ (meta_at metas i).gkey

-- `group_score[bk]`, where the last assignment counts, and `group_min_arr[bk]`.
abbrev pub group_score : List Meta → List ℕ → ℕ
group_score metas [] = 0
group_score metas (i ∷ []) = (meta_at metas i).gscore
group_score metas (i ∷ j ∷ is) = group_score metas (j ∷ is)

abbrev pub group_min_arr : List Meta → List ℕ → ℕ
group_min_arr metas [] = 0
group_min_arr metas (i ∷ []) = (meta_at metas i).arr_ns
group_min_arr metas (i ∷ j ∷ is) = min (meta_at metas i).arr_ns (group_min_arr metas (j ∷ is))

-- `bk[0]`, by the first member of the group.
abbrev pub group_section : List Meta → List ℕ → ℕ
group_section metas [] = 0
group_section metas (i ∷ is) = (meta_at metas i).section

abbrev pub group_rank : List Meta → List ℕ → List ℤ
group_rank metas g =
    pos (group_section metas g) ∷ neg (group_score metas g) ∷ pos (group_min_arr metas g) ∷ []

abbrev pub member_key : List Meta → ℕ → List ℤ
member_key metas i = neg (meta_at metas i).mh ∷ pos (meta_at metas i).arr_ns ∷ []

unfoldable pub group_members : List Meta → List ℕ → List ℕ
unfolding sort_by lex_leb
group_members metas g = sort_by (le_lex (member_key metas)) g

unfoldable pub group_major_order : List Meta → List ℕ
unfolding group_by sort_by lex_leb group_members
group_major_order metas = concat (
    map (group_members metas) (
      sort_by (le_lex (group_rank metas))
        (values (group_by (bucket_key metas) (range (length metas))))))

-- `sorted(idx, key=lambda i: lane[i])`
unfoldable pub lane_order : List (List ℤ) → List ℕ
unfolding sort_by lex_leb
lane_order keys = sort_by (le_lex (λ i. at [] keys i)) (range (length keys))

abbrev pub billion : ℕ
billion = 1000000000

-- `share >= 1.0 - 1e-9` and `share <= 1e-9`
abbrev pub only_a : Ratio → Bool
only_a share = leb (share.den * (billion - 1)) (share.num * billion)

abbrev pub only_b : Ratio → Bool
only_b share = leb (share.num * billion) share.den

unfoldable pub lane_a_order : ClpmConfig → Inputs → List Mark → List Req → List ℕ
unfolding group_major_order lane_order meta_of
lane_a_order cfg inp marks q =
    if cfg.group_major
    then group_major_order (map (meta_of cfg inp marks) q)
    else lane_order (map (lane_a_key cfg inp marks) q)

-- The positions in the order of their admission; none where the interleaving ran out of fuel.
unfoldable pub admission_order : ClpmConfig → Inputs → List Req → Option (List ℕ)
unfolding lane_a_order lane_order assign interleave
admission_order cfg inp q =
    let marks = assign cfg.check_threshold cfg.deprioritize_threshold (main_hit inp) [] q in
    let share = cfg.big_lane_share in
    let a = lane_a_order cfg inp marks q in
    let b = lane_order (map (lane_b_key cfg inp marks) q) in
    if only_a share
    then some a
    else if only_b share
    then some b
    else interleave (share.den - share.num) share.num (length q) a b

-- The queue that is left, and the rids that are put off.
unfoldable pub peek_clpm_sort_inplace :
    ClpmConfig → Inputs → List Req → Option (List Req × List (List ℕ))
unfolding admission_order assign pick
peek_clpm_sort_inplace cfg inp q = do
  order ← admission_order cfg inp q
  out ← pick q order
  some (out, siblings (assign cfg.check_threshold cfg.deprioritize_threshold (main_hit inp) [] q))
