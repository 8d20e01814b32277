-- ===== src/Hooks/Validate.antt =====
-- `_validate_sync` after `_sync`.
use peek.Prelude.{
  ℕ, ◌+◌, ◌≡◌, refl, sym, ap, ◌∙◌, inl, inr, List, [], ◌∷◌, map, Option, none, some, Bool, true,
  false, ◌||◌, arith, if◌then◌else◌, length, tuple_beq, tuple_beq_iff, nat_eq, tuple_eq, Bool-cases,
  Option-cases, All,
}
use mathlib.Core.Option.{some_inj}
use peek.Prelude.Membership.{contains, select_out}
use peek.Prelude.Dict.{get, contains-add, select_out-none_left}
use peek.Lpm.Data.{Req, rid_of, tokens_of}
use peek.Hooks.State.{
  PendingTree, Hook, is_some, Report, check_stored, check_req, check_all, sync, validate_sync,
}
use peek.Hooks.Intern.{IsStore, stored_at, view}
use peek.Hooks.Enter.{Waiting, or_else, arrive, arrive_all}
use peek.Hooks.Synced.{IsSynced, queued, in_queue, sync-refines}

ff_tt : false ≡ true → ⊥
ff_tt h = cc

-- What holds of every rid of the queue holds of every request of it.
All-queue {ℓ} :
    (P : List ℕ → Type ℓ) (wq : List Req)
    → ((rid : List ℕ) → contains (map rid_of wq) rid ≡ true → P rid)
    → All (λ r. P r.rid) wq
unfolding contains
All-queue P [] h = tt
All-queue P (r ∷ rs) h = (
  h r.rid (rw (tuple_refl r.rid) refl),
  All-queue P rs (λ rid m. h rid (rw m (or_true (tuple_beq r.rid rid)))),
)
  where
    tuple_refl : (rid : List ℕ) → tuple_beq rid rid ≡ true
    tuple_refl rid = (tuple_beq_iff rid rid).1 refl

    or_true : (b : Bool) → (b || true) ≡ true
    or_true true = refl
    or_true false = refl

-- Where a rid has the same tokens whenever it is in the queue, the pending requests have them.
arrive_all-stable :
    (f : List ℕ → List ℕ) (wq : List Req) (w : Waiting)
    → All (λ r. tokens_of r ≡ f r.rid) wq
    → ((rid ts : List ℕ) → w rid ≡ some ts → ts ≡ f rid)
    → (rid ts : List ℕ) → arrive_all wq w rid ≡ some ts
    → ts ≡ f rid
arrive_all-stable f [] w h k rid ts e = k rid ts e
arrive_all-stable f (r ∷ rs) w h k rid ts e =
    arrive_all-stable f rs (arrive r w) h.1
      (λ x us q. elim (Bool-cases (tuple_beq r.rid x)) [
        | inr other ↦ k x us (rw other at q)
        | inl same ↦ came x us same (w x) (k x) (rw same at q)
      ])
      rid ts e
  where
    came :
        (x us : List ℕ)
        → tuple_beq r.rid x ≡ true
        → (o : Option (List ℕ)) → ((vs : List ℕ) → o ≡ some vs → vs ≡ f x)
        → some (or_else o (tokens_of r)) ≡ some us
        → us ≡ f x
    came x us same none old q = sym (some_inj.0 q) ∙ h.0 ∙ ap f ((tuple_beq_iff r.rid x).0 same)
    came x us same (some vs) old q = sym (some_inj.0 q) ∙ old vs refl

module _ {pt : PendingTree} where
  check_req_known :
      (st : Hook pt) (r : Req) (rep : Report) (i : ℕ)
      → get r.rid st.rid_interner ≡ some i
      → check_req pt st r rep ≡ check_stored r i (pt.tokens i st.tree) rep
  unfolding check_req
  check_req_known st r rep i e = rw (e, check_req) refl

  check_req_unknown :
      (st : Hook pt) (r : Req) (rep : Report)
      → get r.rid st.rid_interner ≡ none
      → check_req pt st r rep ≡ record rep { missing = rep.missing + 1 }
  unfolding check_req
  check_req_unknown st r rep n = rw (n, check_req) refl

  check_req_ints :
      (st : Hook pt) (r : Req) (rep : Report) (i : ℕ)
      → contains rep.wq_ints i ≡ true
      → contains (check_req pt st r rep).wq_ints i ≡ true
  check_req_ints st r rep i m = elim (Option-cases (get r.rid st.rid_interner)) [
    | inl n ↦ rw (check_req_unknown st r rep n) m
    | inr (j, e) ↦ rw (check_req_known st r rep j e) (found j (pt.tokens j st.tree))
  ]
    where
      found : (j : ℕ) (o : Option (List ℕ)) → contains (check_stored r j o rep).wq_ints i ≡ true
      found j none = ground (arith, contains-add j i rep.wq_ints, m)
      found j (some ts) = ground (arith, contains-add j i rep.wq_ints, m)

  check_req_hit :
      (st : Hook pt) (r : Req) (rep : Report) (i : ℕ)
      → get r.rid st.rid_interner ≡ some i
      → contains (check_req pt st r rep).wq_ints i ≡ true
  check_req_hit st r rep i e = rw (check_req_known st r rep i e) (found (pt.tokens i st.tree))
    where
      found : (o : Option (List ℕ)) → contains (check_stored r i o rep).wq_ints i ≡ true
      found none = ground (arith, contains-add i i rep.wq_ints)
      found (some ts) = ground (arith, contains-add i i rep.wq_ints)

  check_all_ints :
      (st : Hook pt) (wq : List Req) (rep : Report) (i : ℕ)
      → contains rep.wq_ints i ≡ true
      → contains (check_all pt st wq rep).wq_ints i ≡ true
  unfolding check_all
  check_all_ints st [] rep i m = m
  check_all_ints st (r ∷ rs) rep i m =
      check_all_ints st rs (check_req pt st r rep) i (check_req_ints st r rep i m)

  check_all_hit :
      (st : Hook pt) (wq : List Req) (rep : Report) (rid : List ℕ) (i : ℕ)
      → get rid st.rid_interner ≡ some i
      → contains (map rid_of wq) rid ≡ true
      → contains (check_all pt st wq rep).wq_ints i ≡ true
  unfolding check_all contains
  check_all_hit st [] rep rid i e m = cc
  check_all_hit st (r ∷ rs) rep rid i e m = elim (Bool-cases (tuple_beq r.rid rid)) [
    | inl same ↦ check_all_ints st rs (check_req pt st r rep) i (
        check_req_hit st r rep i
          (ap (λ x. get x st.rid_interner) ((tuple_beq_iff r.rid rid).0 same) ∙ e))
    | inr other ↦ check_all_hit st rs (check_req pt st r rep) rid i e (rw other at m)
  ]

  check_req-missing :
      (st : Hook pt) (r : Req) (rep : Report)
      → is_some (view st r.rid) ≡ true
      → (check_req pt st r rep).missing ≡ rep.missing
  check_req-missing st r rep h = elim (Option-cases (get r.rid st.rid_interner)) [
    | inl n ↦ let h' = rw n at h in cc
    | inr (i, e) ↦ rw (check_req_known st r rep i e) (found i (pt.tokens i st.tree) (rw e at h))
  ]
    where
      found :
          (i : ℕ) (o : Option (List ℕ))
          → is_some o ≡ true
          → (check_stored r i o rep).missing ≡ rep.missing
      found i none q = cc
      found i (some ts) q = refl

  check_all-missing :
      (st : Hook pt) (wq : List Req) (rep : Report)
      → All (λ r. is_some (view st r.rid) ≡ true) wq
      → (check_all pt st wq rep).missing ≡ rep.missing
  unfolding check_all
  check_all-missing st [] rep h = refl
  check_all-missing st (r ∷ rs) rep h =
      check_all-missing st rs (check_req pt st r rep) h.1 ∙ check_req-missing st r rep h.0

  check_req-mismatches :
      (st : Hook pt) (r : Req) (rep : Report)
      → view st r.rid ≡ some (tokens_of r)
      → (check_req pt st r rep).token_mismatches ≡ rep.token_mismatches
  check_req-mismatches st r rep h = elim (Option-cases (get r.rid st.rid_interner)) [
    | inl n ↦ let h' = rw n at h in cc
    | inr (i, e) ↦
        let h' = rw e at h in
        rw (check_req_known st r rep i e) (rw h' (rw ((tuple_beq_iff _ _).1 refl) refl))
  ]

  check_all-mismatches :
      (st : Hook pt) (wq : List Req) (rep : Report)
      → All (λ r. view st r.rid ≡ some (tokens_of r)) wq
      → (check_all pt st wq rep).token_mismatches ≡ rep.token_mismatches
  unfolding check_all
  check_all-mismatches st [] rep h = refl
  check_all-mismatches st (r ∷ rs) rep h =
      check_all-mismatches st rs (check_req pt st r rep) h.1 ∙ check_req-mismatches st r rep h.0

  module _ (store : IsStore pt) (now : ℕ) (wq : List Req) (st : Hook pt) (h : IsSynced st) where
    -- What a synchronised queue has pending.
    module _ (st' : Hook pt) (synced : IsSynced st')
        (queue : (rid : List ℕ) → view st' rid ≡ queued wq (view st) rid) where
      waits : (rid : List ℕ) → contains (map rid_of wq) rid ≡ is_some (view st' rid)
      waits rid = in_queue store now wq st h rid (queue rid)

      none_missing : (rep : Report) → (check_all pt st' wq rep).missing ≡ rep.missing
      none_missing rep =
          check_all-missing st' wq rep
            (All-queue (λ rid. is_some (view st' rid) ≡ true) wq (λ rid m. sym (waits rid) ∙ m))

      tracked_waits :
          (i : ℕ)
          → contains st'.seen i ≡ true
          → (rid : List ℕ) × (get rid st'.rid_interner ≡ some i)
            × (contains (map rid_of wq) rid ≡ true)
      tracked_waits i m = elim (Option-cases (get i st'.rid_unintern)) [
        | inl n ↦ let named = rw n at (synced.interned.named i m) in absurd (ff_tt named)
        | inr (rid, e) ↦
            let back = synced.interned.back i rid e in
            (
              rid,
              back,
              waits rid
                  ∙ ap (λ o. is_some (stored_at pt st'.tree o)) back
                  ∙ synced.interned.stored i
                  ∙ m,
            )
      ]

      none_extra : (rep : Report) → select_out (check_all pt st' wq rep).wq_ints st'.seen ≡ []
      none_extra rep =
          select_out-none_left (check_all pt st' wq rep).wq_ints st'.seen
            (λ i m. let (rid, e, q) = tracked_waits i m in check_all_hit st' wq rep rid i e q)

    -- After `_sync` the check of `_validate_sync` finds no rid of the queue that the tree lacks,
    -- and none in the tree that the queue lacks.
    pub sync-IsExact :
        (st' : Hook pt) × (sync pt now wq st ≡ some st')
        × ((validate_sync pt wq st').0 ≡ 0)
        × ((validate_sync pt wq st').1 ≡ 0)
    unfolding validate_sync
    sync-IsExact =
        let (st', e, synced, queue) = sync-refines store now wq st h in
        (
          st',
          e,
          none_missing st' synced queue
              (record { missing = 0; token_mismatches = 0; wq_ints = [] }),
          ap length (
              none_extra st' synced queue
                (record { missing = 0; token_mismatches = 0; wq_ints = [] })),
        )

    module _ (f : List ℕ → List ℕ) (same : All (λ r. tokens_of r ≡ f r.rid) wq)
        (before : (rid ts : List ℕ) → view st rid ≡ some ts → ts ≡ f rid) where
      stable_view :
          (st' : Hook pt)
          → ((rid : List ℕ) → view st' rid ≡ queued wq (view st) rid)
          → (rid : List ℕ) → contains (map rid_of wq) rid ≡ true
          → (o : Option (List ℕ)) → view st' rid ≡ o
          → is_some o ≡ true
          → view st' rid ≡ some (f rid)
      stable_view st' queue rid m none v some_it = absurd (ff_tt some_it)
      stable_view st' queue rid m (some us) v some_it =
          let arrives = ap (λ b. if b then arrive_all wq (view st) rid else none) m in
          let arrived = sym arrives ∙ sym (queue rid) ∙ v in
          v ∙ ap some (arrive_all-stable f wq (view st) same before rid us arrived)

      no_mismatch :
          (st' : Hook pt) (synced : IsSynced st')
          (queue : (rid : List ℕ) → view st' rid ≡ queued wq (view st) rid) (rep : Report)
          → (check_all pt st' wq rep).token_mismatches ≡ rep.token_mismatches
      no_mismatch st' synced queue rep = check_all-mismatches st' wq rep (
          together wq same (
            All-queue (λ rid. view st' rid ≡ some (f rid)) wq
              (λ rid m.
                stable_view st' queue rid m (view st' rid) refl
                  (sym (waits st' synced queue rid) ∙ m))))
        where
          together :
              (rs : List Req)
              → All (λ r. tokens_of r ≡ f r.rid) rs
              → All (λ r. view st' r.rid ≡ some (f r.rid)) rs
              → All (λ r. view st' r.rid ≡ some (tokens_of r)) rs
          together [] p q = tt
          together (r ∷ rs) p q = (q.0 ∙ ap some (sym p.0), together rs p.1 q.1)

      -- As long as a rid has the same tokens whenever it is in the queue or in the tree,
      -- `_validate_sync` finds nothing at all after `_sync`: no rid missing, none too many, and no
      -- rid with other tokens.
      pub sync-IsValidated :
          (st' : Hook pt) × (sync pt now wq st ≡ some st') × (validate_sync pt wq st' ≡ (0, 0, 0))
      unfolding validate_sync
      sync-IsValidated =
          let (st', e, synced, queue) = sync-refines store now wq st h in
          let start : Report = record { missing = 0; token_mismatches = 0; wq_ints = [] } in
          (
            st',
            e,
            rw
                (
                  none_missing st' synced queue start,
                  none_extra st' synced queue start,
                  no_mismatch st' synced queue start,
                )
                refl,
          )
