-- ===== src/Scheduler/Rearranges.antt =====
-- The group-level hooks return a permutation of the queue, and index no request out of range.
use mathlib.Core.List.{Perm, map-append}
use mathlib.Core.List.Perm
use peek.Prelude.{
  ℕ, ◌≡◌, refl, ap, inl, inr, List, [], ◌∷◌, ◌++◌, map, Option, none, some, Bool, true, false, ◌||◌,
  length, length-map, concat-append, range, if◌then◌else◌, ltb, leb, Bool-cases, All, nat_eq,
}
use peek.Prelude.Sort.{sort_by, ge_key, sort_by-perm}
use peek.Prelude.Perms.{concat-perm, concat-map-perm}
use peek.Prelude.Membership.{select_out, select_out-perm, range-Nodup}
use peek.Prelude.Pick.{pick, pick-perm}
use peek.Trie.Traverse.{prefix_groups_with_tokens}
use peek.Trie.Groups.{prefix_groups_with_tokens-perm}
use peek.Reorder.Defs.{ReorderConfig, default_config, build_trie, reorder_for_prefix_sharing}
use peek.Reorder.Permutes.{reorder_for_prefix_sharing-perm, indices-build_trie}
use peek.Scheduler.Data.{VllmRequest, SglangRequest, token_ids}
use peek.Scheduler.Cached.{Radix, sglang_cached_prefix_length, vllm_cached_prefix_length}
use peek.Scheduler.Detect.{detect_sharing, detect_sharing_sglang}
use peek.Scheduler.GroupSchedule.{
  Group, grouped_indices, singleton, all_groups, shorter, group_score, group_order,
  group_and_score_sglang, sglang_group_schedule, first_hashes, hashes_of, vllm_group_schedule,
  is_identity, block_config, vllm_reorder_waiting_queue, sglang_reorder_waiting_queue,
}

concat-singletons :
    (seqs : List (List ℕ)) (is : List ℕ) → grouped_indices (map (singleton seqs) is) ≡ is
concat-singletons seqs [] = refl
concat-singletons seqs (i ∷ is) = ap (◌∷◌ i) (concat-singletons seqs is)

all_groups-perm :
    (m : ℕ) (seqs : List (List ℕ))
    → Perm (grouped_indices (all_groups m seqs)) (range (length seqs))
unfolding all_groups
all_groups-perm m seqs =
    let (left, p) = prefix_groups_with_tokens-perm m (build_trie seqs) in
    let groups = prefix_groups_with_tokens m (build_trie seqs) in
    let q : Perm (grouped_indices groups ++ left) (range (length seqs)) =
      Perm.trans p (indices-build_trie seqs) in
    let out = select_out (grouped_indices groups) (range (length seqs)) in
    rw
      (
        map-append (λ (g : Group). g.1) groups (map (singleton seqs) out),
        concat-append (map (λ (g : Group). g.1) groups)
            (map (λ (g : Group). g.1) (map (singleton seqs) out)),
        concat-singletons seqs out,
      )
      (Perm.trans
        (Perm.append_left (grouped_indices groups) (
          select_out-perm (grouped_indices groups) left (range (length seqs))
            (range-Nodup (length seqs)) q))
        q)

All-true : {A : Type 0} (P : A → Type 0) → ((a : A) → P a) → (xs : List A) → All P xs
All-true P h [] = tt
All-true P h (x ∷ xs) = (h x, All-true P h xs)

pub group_order-perm :
    (cached : List ℕ → ℕ) (m : ℕ) (seqs : List (List ℕ))
    → Perm (group_order cached m seqs) (range (length seqs))
unfolding group_order
group_order-perm cached m seqs =
    Perm.trans
      (concat-map-perm _ (λ g. g.1) (sort_by (ge_key (group_score cached)) (all_groups m seqs))
        (All-true _ (λ g. sort_by-perm (shorter seqs) g.1) _))
      (Perm.trans
        (concat-perm
          (Perm.map (λ g. g.1) (sort_by-perm (ge_key (group_score cached)) (all_groups m seqs))))
        (all_groups-perm m seqs))

-- No index is out of range, and the result is a permutation of the queue.
abbrev pub Rearranges {ℓ} : {A : Type ℓ} → Option (List A) → List A → Type ℓ
Rearranges {A = A} o q = (out : List A) × (o ≡ some out) × Perm out q

kept {ℓ} : {A : Type ℓ} (q : List A) → Rearranges (some q) q
kept q = (q, refl, Perm.rfl)

unless {ℓ} :
    {A : Type ℓ} (b : Bool) (q : List A) (o : Option (List A))
    → Rearranges o q
    → Rearranges (if b then some q else o) q
unless true q o r = kept q
unless false q o r = r

module _ {A : Type 0} (f : A → List ℕ) where
  group_order-Rearranges :
      (cached : List ℕ → ℕ) (m : ℕ) (q : List A)
      → Rearranges (pick q (group_order cached m (map f q))) q
  group_order-Rearranges cached m q =
      pick-perm q (rw (← length-map f q) (group_order-perm cached m (map f q)))

  reorder-Rearranges :
      (cfg : ReorderConfig) (q : List A)
      → Rearranges (pick q (reorder_for_prefix_sharing cfg (map f q))) q
  reorder-Rearranges cfg q =
      pick-perm q (rw (← length-map f q) (reorder_for_prefix_sharing-perm cfg (map f q)))

-- Whichever guard holds, `sglang_group_schedule` leaves a permutation of the waiting queue, and
-- indexes it within its bounds.
pub sglang_group_schedule-Rearranges :
    (threshold : ℕ) (tree : Radix) (q : List SglangRequest)
    → Rearranges (sglang_group_schedule threshold tree q) q
unfolding sglang_group_schedule group_and_score_sglang
sglang_group_schedule-Rearranges threshold tree q = elim (Bool-cases (ltb (length q) threshold)) [
  | inl short ↦ rw short (kept q)
  | inr long ↦ elim (Bool-cases (detect_sharing_sglang 64 q)) [
    | inl shared ↦
        rw (long, shared) (group_order-Rearranges token_ids (sglang_cached_prefix_length tree) 1 q)
    | inr apart ↦ rw (long, apart) (kept q)
  ]
]

-- Whichever guard holds, `vllm_group_schedule` returns a permutation of the new requests, and
-- indexes them within their bounds.
pub vllm_group_schedule-Rearranges :
    (get_cached_block : ℕ → List ℕ) (threshold : ℕ) (q : List VllmRequest)
    → Rearranges (vllm_group_schedule get_cached_block threshold q) q
unfolding vllm_group_schedule
vllm_group_schedule-Rearranges get threshold q =
    elim (Bool-cases (leb (length q) 1 || ltb (length q) threshold)) [
      | inl short ↦ rw short (kept q)
      | inr long ↦ elim (Bool-cases (detect_sharing (first_hashes q))) [
        | inl shared ↦
            rw (long, shared) (group_order-Rearranges hashes_of (vllm_cached_prefix_length get) 1 q)
        | inr apart ↦ rw (long, apart) (kept q)
      ]
    ]

-- Whichever guard holds, `vllm_reorder_waiting_queue` returns a permutation of the new requests.
pub vllm_reorder_waiting_queue-Rearranges :
    (threshold : ℕ) (q : List VllmRequest) → Rearranges (vllm_reorder_waiting_queue threshold q) q
unfolding vllm_reorder_waiting_queue
vllm_reorder_waiting_queue-Rearranges threshold q =
    elim (Bool-cases (leb (length q) 1 || leb threshold (length q))) [
      | inl skip ↦ rw skip (kept q)
      | inr run ↦ rw run (
          unless (is_identity (reorder_for_prefix_sharing block_config (map hashes_of q))) q _
            (reorder-Rearranges hashes_of block_config q))
    ]

-- Whichever guard holds, with a tree or without, `sglang_reorder_waiting_queue` leaves a
-- permutation of the waiting queue.
pub sglang_reorder_waiting_queue-Rearranges :
    (threshold : ℕ) (tree : Option Radix) (q : List SglangRequest)
    → Rearranges (sglang_reorder_waiting_queue threshold tree q) q
unfolding sglang_reorder_waiting_queue
sglang_reorder_waiting_queue-Rearranges threshold none q =
    elim (Bool-cases (ltb (length q) threshold)) [
      | inl short ↦ rw short (kept q)
      | inr long ↦ rw long (
          unless (is_identity (reorder_for_prefix_sharing default_config (map token_ids q))) q _
            (reorder-Rearranges token_ids default_config q))
    ]
sglang_reorder_waiting_queue-Rearranges threshold (some tree) q =
    elim (Bool-cases (ltb (length q) threshold)) [
      | inl short ↦ rw short (kept q)
      | inr long ↦ rw long (sglang_group_schedule-Rearranges threshold tree q)
    ]
