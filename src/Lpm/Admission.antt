-- ===== src/Lpm/Admission.antt =====
-- `peek_clpm_sort_inplace` ends, and admits each request once, in every mode.
use mathlib.Core.List.{Perm}
use mathlib.Core.List.Perm
use peek.Prelude.{
  ℕ, ◌≡◌, refl, inl, inr, List, [], map, some, length, length-map, range, concat, nat_eq, tuple_eq,
  Bool-cases,
}
use peek.Prelude.Int.{ℤ}
use peek.Prelude.Sort.{sort_by, sort_by-perm}
use peek.Prelude.Group.{group_by, values}
use peek.Prelude.Partition.{IsPartition, IsPartition-perm, IsPartition-map, group_by-IsPartition}
use peek.Prelude.Pick.{pick-perm}
use peek.Lpm.Data.{Req, Inputs, main_hit}
use peek.Lpm.Lex.{le_lex}
use peek.Lpm.Deprioritize.{claim_if}
use peek.Lpm.Sections.{Mark, assign, assign-claim_if}
use peek.Lpm.Interleave.{interleave-perm}
use peek.Lpm.Clusters.{
  ClpmConfig, Meta, meta_of, bucket_key, group_rank, member_key, group_members, group_major_order,
  lane_order, lane_a_key, lane_b_key, lane_a_order, only_a, only_b, admission_order,
  peek_clpm_sort_inplace,
}

-- The groups of the group-major order: the requests of one section and cluster are consecutive.
pub record IsGrouped (metas : List Meta) (out : List ℕ) : Type 0 where
  pub groups : List (List ℕ)
  pub split : out ≡ concat groups
  pub parts : IsPartition (bucket_key metas) (range (length metas)) groups

-- With `group_major`, lane A orders each position once, and the positions with the same section
-- and cluster, and no others, are consecutive.
pub group_major_order-IsGrouped : (metas : List Meta) → IsGrouped metas (group_major_order metas)
unfolding group_major_order group_members
group_major_order-IsGrouped metas = record {
  groups = map (group_members metas) (
      sort_by (le_lex (group_rank metas))
        (values (group_by (bucket_key metas) (range (length metas)))));
  split = refl;
  parts =
      IsPartition-map (bucket_key metas) (hlevel) (group_members metas)
        (λ g. sort_by-perm (le_lex (member_key metas)) g)
        (IsPartition-perm (bucket_key metas) (Perm.symm (sort_by-perm _ _))
          (group_by-IsPartition (hlevel) (bucket_key metas) (range (length metas))));
}

lane_order-perm : (keys : List (List ℤ)) → Perm (lane_order keys) (range (length keys))
unfolding lane_order
lane_order-perm keys = sort_by-perm _ _

module _ (cfg : ClpmConfig) (inp : Inputs) (marks : List Mark) (q : List Req) where
  lane_a_order-perm : Perm (lane_a_order cfg inp marks q) (range (length q))
  unfolding lane_a_order
  lane_a_order-perm = elim (Bool-cases cfg.group_major) [
    | inl major ↦
        let g = group_major_order-IsGrouped (map (meta_of cfg inp marks) q) in
        rw (major, g.split, ← length-map (meta_of cfg inp marks) q) g.parts.whole
    | inr minor ↦
        rw (minor, ← length-map (lane_a_key cfg inp marks) q)
          (lane_order-perm (map (lane_a_key cfg inp marks) q))
  ]

  lane_b_order-perm : Perm (lane_order (map (lane_b_key cfg inp marks) q)) (range (length q))
  lane_b_order-perm =
      rw (← length-map (lane_b_key cfg inp marks) q)
        (lane_order-perm (map (lane_b_key cfg inp marks) q))

admission_order-perm :
    (cfg : ClpmConfig) (inp : Inputs) (q : List Req)
    → (order : List ℕ) × (admission_order cfg inp q ≡ some order) × Perm order (range (length q))
unfolding admission_order
admission_order-perm cfg inp q =
    let marks = assign cfg.check_threshold cfg.deprioritize_threshold (main_hit inp) [] q in
    elim (Bool-cases (only_a cfg.big_lane_share)) [
      | inl a ↦ rw a (lane_a_order cfg inp marks q, refl, lane_a_order-perm cfg inp marks q)
      | inr not_a ↦ elim (Bool-cases (only_b cfg.big_lane_share)) [
        | inl b ↦
            rw (not_a, b)
              (
                lane_order (map (lane_b_key cfg inp marks) q),
                refl,
                lane_b_order-perm cfg inp marks q,
              )
        | inr both ↦
            rw (not_a, both)
              (interleave-perm _ _ (length q) _ _ (lane_a_order-perm cfg inp marks q)
                (lane_b_order-perm cfg inp marks q))
      ]
    ]

-- In every mode and for every share, `peek_clpm_sort_inplace` ends, leaves a permutation of the
-- queue, and returns the rids whose prefix an earlier cold request has claimed.
pub peek_clpm_sort_inplace-perm :
    (cfg : ClpmConfig) (inp : Inputs) (q : List Req)
    → (out : List Req) × (peek_clpm_sort_inplace cfg inp q
        ≡ some (out, claim_if cfg.check_threshold cfg.deprioritize_threshold (main_hit inp) q))
      × Perm out q
unfolding peek_clpm_sort_inplace
peek_clpm_sort_inplace-perm cfg inp q =
    let (order, e, p) = admission_order-perm cfg inp q in
    let (out, e', p') = pick-perm q p in
    (
      out,
      rw (e, e', assign-claim_if cfg.check_threshold cfg.deprioritize_threshold (main_hit inp) q)
          refl,
      p',
    )
