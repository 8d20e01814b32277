-- ===== src/Hooks/Ranking.antt =====
-- online/engines/sglang/patch_hook.py: what `_patched_calc_priority` does to the waiting queue.
use mathlib.Core.List.{Perm}
use mathlib.Core.List.Perm
use peek.Prelude.{
  ℕ, suc, zero, ◌≡◌, refl, ap, inl, inr, List, [], ◌∷◌, map, Option, none, some, Bool, true, false,
  ◌&&◌, if◌then◌else◌, ltb, length, All, take, Bool-cases,
}
use peek.Prelude.Partition.{All-perm}
use peek.Scheduler.Rearranges.{Rearranges}
use peek.Lpm.Data.{Req, Inputs}
use peek.Lpm.Sort.{IsSortOrder, peek_sort_inplace-Rearranges}
use peek.Lpm.Admission.{peek_clpm_sort_inplace-perm}
use peek.Hooks.State.{PendingTree, Hook, intern_all, is_some}
use peek.Hooks.Priority.{
  Settings, sort_config, clpm_config, Sglang, Core, populate, populate_all, populate_lazily,
  populate_first, is_populated, Ranked, inputs, sorted, rank_by_cache, calc_priority,
}

-- A request without what a match writes into it.
abbrev pub bare : Req → Req
bare r = record r { prefix_indices = none }

abbrev pub IsMatched : Req → Type 0
IsMatched r = is_some r.prefix_indices ≡ true

populated_is_some : (p : Option (List ℕ)) → is_populated p ≡ true → is_some p ≡ true
populated_is_some none h = cc
populated_is_some (some is) h = refl

module _ {C : Type 0} (sg : Sglang C) where
  populate_all-bare : (wq : List Req) (c : C) → map bare (populate_all sg wq c).1 ≡ map bare wq
  unfolding populate_all
  populate_all-bare [] c = refl
  populate_all-bare (r ∷ rs) c = ap (λ xs. bare r ∷ xs) (populate_all-bare rs (populate sg r c).0)

  populate_all-IsMatched : (wq : List Req) (c : C) → All IsMatched (populate_all sg wq c).1
  unfolding populate_all
  populate_all-IsMatched [] c = tt
  populate_all-IsMatched (r ∷ rs) c = (refl, populate_all-IsMatched rs (populate sg r c).0)

  lazily-bare : (r : Req) (c : C) → bare (populate_lazily sg r c).1 ≡ bare r
  lazily-bare r c = elim (Bool-cases (is_populated r.prefix_indices)) [
    | inl full ↦ rw full refl
    | inr empty ↦ rw empty refl
  ]

  lazily-IsMatched : (r : Req) (c : C) → IsMatched (populate_lazily sg r c).1
  lazily-IsMatched r c = elim (Bool-cases (is_populated r.prefix_indices)) [
    | inl full ↦ rw full (populated_is_some r.prefix_indices full)
    | inr empty ↦ rw empty refl
  ]

  populate_first-bare :
      (k : ℕ) (wq : List Req) (c : C) → map bare (populate_first sg k wq c).1 ≡ map bare wq
  unfolding populate_first
  populate_first-bare zero wq c = refl
  populate_first-bare (suc k) [] c = refl
  populate_first-bare (suc k) (r ∷ rs) c =
      rw (lazily-bare r c, populate_first-bare k rs (populate_lazily sg r c).0) refl

  populate_first-IsMatched :
      (k : ℕ) (wq : List Req) (c : C) → All IsMatched (take k (populate_first sg k wq c).1)
  unfolding populate_first
  populate_first-IsMatched zero wq c = tt
  populate_first-IsMatched (suc k) [] c = tt
  populate_first-IsMatched (suc k) (r ∷ rs) c =
      (lazily-IsMatched r c, populate_first-IsMatched k rs (populate_lazily sg r c).0)

module _ {Tree : Type 0} (core : Core Tree) (set : Settings) where
  sorted-Rearranges :
      IsSortOrder core.lpm_sort_order
      → (inp : Inputs) (wq : List Req) → Rearranges (sorted core set inp wq) wq
  sorted-Rearranges order inp wq = elim (Bool-cases set.peek_clpm) [
    | inl clpm ↦
        let (out, e, p) = peek_clpm_sort_inplace-perm (clpm_config set) inp wq in
        rw (clpm, e) (out, refl, p)
    | inr other ↦
        rw other (peek_sort_inplace-Rearranges core.lpm_sort_order order (sort_config set) inp wq)
  ]

-- The queue is too long for peek's own LPM order.
abbrev pub falls_back : Settings → List Req → Bool
falls_back set wq = set.peek_lpm && ltb set.lpm_fb_threshold (length wq)

-- The queue `wq` ranked: the same requests, with the answer; the requests whose matches are there,
-- when the answer says so.
pub record IsRanking {C : Type 0} {pt : PendingTree} (set : Settings) (wq : List Req)
    (o : Ranked C pt) : Type 0 where
  pub kept : Perm (map bare o.waiting_queue) (map bare wq)
  pub answered : o.answer ≡ (if falls_back set wq then none else some true)
  pub fcfs : falls_back set wq ≡ true → o.waiting_queue ≡ wq
  pub matched :
      falls_back set wq ≡ false
      → All IsMatched
          (if set.lazy_match_prefix then take set.lazy_k o.waiting_queue else o.waiting_queue)

module _ {C : Type 0} (sg : Sglang C) {pt : PendingTree} (core : Core pt.Tree) (set : Settings)
    (order : IsSortOrder core.lpm_sort_order) where
  ranks_lazily :
      (wq : List Req) (c : C) (st : Hook pt)
      → set.lazy_match_prefix ≡ true
      → (o : Ranked C pt) × (rank_by_cache sg core set wq c st ≡ some o)
        × (o.answer ≡ some true)
        × Perm (map bare o.waiting_queue) (map bare wq)
        × All IsMatched (take set.lazy_k o.waiting_queue)
  ranks_lazily wq c st lazy =
      let (out, e, p) =
        sorted-Rearranges core set order (inputs sg core set c (intern_all pt wq st)) wq in
      rw (lazy, e)
        (
          _,
          refl,
          refl,
          rw (populate_first-bare sg set.lazy_k out c) (Perm.map bare p),
          populate_first-IsMatched sg set.lazy_k out c,
        )

  ranks_eagerly :
      (wq : List Req) (c : C) (st : Hook pt)
      → set.lazy_match_prefix ≡ false
      → (o : Ranked C pt) × (rank_by_cache sg core set wq c st ≡ some o)
        × (o.answer ≡ some true)
        × Perm (map bare o.waiting_queue) (map bare wq)
        × All IsMatched o.waiting_queue
  ranks_eagerly wq c st eager =
      let (c1, wq1) = populate_all sg wq c in
      let (out, e, p) =
        sorted-Rearranges core set order (inputs sg core set c1 (intern_all pt wq1 st)) wq1 in
      rw (eager, e)
        (
          _,
          refl,
          refl,
          rw (← populate_all-bare sg wq c) (Perm.map bare p),
          All-perm IsMatched (hlevel) p (populate_all-IsMatched sg wq c),
        )

  -- Under the policy LPM, and where the Rust core orders the positions it is given, the function
  -- returns in every mode. The queue holds the same requests as before, up to what the matches
  -- write; it is unchanged, and nothing is answered, where peek's LPM mode finds it too long.
  -- Otherwise the answer is True, and every request carries a match, or, with lazy matches, each
  -- of the first `lazy_k`.
  pub calc_priority-IsRanking :
      set.policy_is_lpm ≡ true
      → (wq : List Req) (c : C) (st : Hook pt)
      → (o : Ranked C pt) × (calc_priority sg core set wq c st ≡ some o) × IsRanking set wq o
  unfolding calc_priority
  calc_priority-IsRanking lpm wq c st = elim (Bool-cases (falls_back set wq)) [
    | inl long ↦
        rw (lpm, long)
          (
            _,
            refl,
            record {
              kept = Perm.rfl;
              answered = rw long refl;
              fcfs = λ h. refl;
              matched = λ h. cc;
            },
          )
    | inr fits ↦ elim (Bool-cases set.lazy_match_prefix) [
      | inl lazy ↦
          let (o, e, a, p, m) = ranks_lazily wq c st lazy in
          rw (lpm, fits)
            (
              o,
              e,
              record { kept = p; answered = rw fits a; fcfs = λ h. cc; matched = λ h. rw lazy m },
            )
      | inr eager ↦
          let (o, e, a, p, m) = ranks_eagerly wq c st eager in
          rw (lpm, fits)
            (
              o,
              e,
              record { kept = p; answered = rw fits a; fcfs = λ h. cc; matched = λ h. rw eager m },
            )
    ]
  ]
