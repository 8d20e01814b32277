-- ===== src/VllmHooks/Finish.antt =====
-- `_patched_finish_requests`: requests that are finished or aborted are dropped at once. The
-- pending tree and the rids are those of the hooks of SGLang, whose `_sync` vLLM's repeats.
use peek.Prelude.{
  ℕ, ◌≡◌, refl, sym, ap, subst, ◌∙◌, inl, inr, List, [], ◌∷◌, map, Option, none, some, Bool, true,
  false, ◌||◌, if◌then◌else◌, length, tuple_beq, tuple_beq_iff, nat_eq, tuple_eq, Bool-cases,
  Option-cases,
}
use peek.Prelude.Membership.{contains}
use peek.Prelude.Dict.{get, set_of, set_beq}
use peek.Lpm.Data.{Req, rid_of}
use peek.Hooks.State.{PendingTree, Hook, leave, sync}
use peek.Hooks.Intern.{IsStore, IsInterned, is_none, view}
use peek.Hooks.Leave.{leave-IsInterned, leave_keeps, view-leave}
use peek.Hooks.Synced.{IsSynced, sync_fast}

module _ (pt : PendingTree) where
  abbrev pub finish_tracked : Option ℕ → Hook pt → Hook pt
  finish_tracked none st = st
  finish_tracked (some i) st = if contains st.seen i then leave pt i st else st

  -- One rid of `request_ids`.
  unfoldable pub finish : List ℕ → Hook pt → Hook pt
  finish rid st = finish_tracked (get rid st.rid_interner) st

  unfoldable pub finish_requests : List (List ℕ) → Hook pt → Hook pt
  finish_requests [] st = st
  finish_requests (rid ∷ rids) st = finish_requests rids (finish rid st)

module _ {pt : PendingTree} (store : IsStore pt) where
  -- What finishing some rids leaves.
  record Finished (rids : List (List ℕ)) (st st' : Hook pt) : Type 0 where
    interned : IsInterned st'
    last : st'.last_rids ≡ st.last_rids
    viewed : (r : List ℕ) → view st' r ≡ (if contains rids r then none else view st r)

  or_false : (b : Bool) → (b || false) ≡ b
  or_false true = refl
  or_false false = refl

  left-Finished :
      (rid : List ℕ) (st : Hook pt) (i : ℕ)
      → IsInterned st
      → get rid st.rid_interner ≡ some i
      → Finished (rid ∷ []) st (leave pt i st)
  unfolding contains
  left-Finished rid st i h known = record {
    interned = leave-IsInterned store i st h;
    last = (leave_keeps store i st h).2;
    viewed = λ r. rw (or_false (tuple_beq rid r)) (view-leave store i st rid h known r);
  }

  kept-Finished :
      (rid : List ℕ) (st : Hook pt) → IsInterned st → view st rid ≡ none → Finished (rid ∷ []) st st
  unfolding contains
  kept-Finished rid st h n = record {
    interned = h;
    last = refl;
    viewed = λ r. rw (or_false (tuple_beq rid r)) (elim (Bool-cases (tuple_beq rid r)) [
      | inr other ↦ rw other refl
      | inl same ↦ rw same (ap (view st) (sym ((tuple_beq_iff rid r).0 same)) ∙ n)
    ]);
  }

  finish-Finished :
      (rid : List ℕ) (st : Hook pt) → IsInterned st → Finished (rid ∷ []) st (finish pt rid st)
  unfolding finish
  finish-Finished rid st h = elim (Option-cases (get rid st.rid_interner)) [
    | inl n ↦
        subst (Finished (rid ∷ []) st) (sym (rw (n, finish) refl))
          (kept-Finished rid st h (rw n refl))
    | inr (i, e) ↦ elim (Bool-cases (contains st.seen i)) [
      | inl tracked ↦
          subst (Finished (rid ∷ []) st) (sym (rw (e, finish) (rw tracked refl)))
            (left-Finished rid st i h e)
      | inr idle ↦
          subst (Finished (rid ∷ []) st) (sym (rw (e, finish) (rw idle refl)))
            (kept-Finished rid st h (rw e (is_none (pt.tokens i st.tree) (h.stored i ∙ idle))))
    ]
  ]

  -- Finishing requests discards exactly theirs from the pending tree, and leaves the rids of the
  -- last queue as they were.
  finish_requests-drops :
      (rids : List (List ℕ)) (st : Hook pt)
      → IsInterned st
      → IsInterned (finish_requests pt rids st)
        × ((finish_requests pt rids st).last_rids ≡ st.last_rids)
        × ((r : List ℕ)
            → view (finish_requests pt rids st) r ≡ (if contains rids r then none else view st r))
  unfolding finish_requests contains
  finish_requests-drops [] st h = (h, refl, λ r. refl)
  finish_requests-drops (rid ∷ rids) st h =
      let f = finish-Finished rid st h in
      let ih = finish_requests-drops rids (finish pt rid st) f.interned in
      (
        ih.0,
        ih.1 ∙ f.last,
        λ r. ih.2 r ∙ both (view st r) (contains rids r) (tuple_beq rid r) (f.viewed r),
      )
    where
      both :
          {v : Option (List ℕ)} (w : Option (List ℕ)) (a b : Bool)
          → v ≡ (if b || false then none else w)
          → (if a then none else v) ≡ (if b || a then none else w)
      both w true true e = refl
      both w true false e = refl
      both w false true e = e
      both w false false e = e

  -- A request of the queue that is finished, and is in the queue again with the same rids when the
  -- queue is synchronised next, is not tracked: the rids of the last queue still name it, and the
  -- fast path of `_sync` changes nothing.
  pub finish_then_sync :
      (now : ℕ) (rid : List ℕ) (wq : List Req) (st : Hook pt)
      → IsSynced st
      → length wq ≡ length st.last_rids
      → set_beq (set_of (map rid_of wq)) st.last_rids ≡ true
      → (sync pt now wq (finish_requests pt (rid ∷ []) st)
          ≡ some (finish_requests pt (rid ∷ []) st))
        × (view (finish_requests pt (rid ∷ []) st) rid ≡ none)
  unfolding contains
  finish_then_sync now rid wq st h size same =
      let (interned, last, viewed) = finish_requests-drops (rid ∷ []) st h.interned in
      (fast (finish_requests pt (rid ∷ []) st) last, viewed rid ∙ rw named refl)
    where
      fast : (st' : Hook pt) → st'.last_rids ≡ st.last_rids → sync pt now wq st' ≡ some st'
      fast st' e =
          sync_fast now wq st' (size ∙ ap length (sym e))
            (ap (λ l. set_beq (set_of (map rid_of wq)) l) e ∙ same)

      named : contains (rid ∷ []) rid ≡ true
      named = rw ((tuple_beq_iff rid rid).1 refl) refl
