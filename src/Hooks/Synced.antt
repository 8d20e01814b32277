-- ===== src/Hooks/Synced.antt =====
-- `_sync` as a step of the pending requests, and runs of the scheduler.
use peek.Prelude.{
  ℕ, ◌≡◌, refl, sym, ap, ◌∙◌, inl, inr, List, [], ◌∷◌, map, Option, none, some, Bool, true, false,
  not, ◌&&◌, ◌||◌, arith, if◌then◌else◌, length, ◌==◌, ==_iff, tuple_beq, nat_eq, tuple_eq,
  Bool-cases, Option-cases,
}
use mathlib.Core.Path.{fun_ext}
use peek.Prelude.Membership.{contains, select_out}
use peek.Prelude.Dict.{get, set_of, set_beq, set_beq-contains, contains-set_of, contains-select_out}
use peek.Lpm.Data.{Req, rid_of, tokens_of}
use peek.Hooks.State.{
  PendingTree, Hook, new_hook, is_some, intern, leave_all, settled, sync_slow, sync, intern_all,
  Event, sync_at, rank, step, run,
}
use peek.Hooks.Intern.{IsStore, IsInterned, view, intern_keeps, intern-IsInterned, view-intern}
use peek.Hooks.Enter.{
  Waiting, or_else, arrive, arrive_all, open_slot, IsTimed, is_open, Enters, enter_all-queue,
}
use peek.Hooks.Leave.{leave_all-Left, leave_all-view, open-close_all}

-- The pending requests after the queue was read: those of the queue, each with the tokens that it
-- had when it came.
abbrev pub queued : List Req → Waiting → Waiting
queued wq w rid = if contains (map rid_of wq) rid then arrive_all wq w rid else none

-- The pending requests after a run: only the queues that were synchronised count.
abbrev pub pending_after : List (Event) → Waiting → Waiting
pending_after [] w = w
pending_after (sync_at now wq ∷ evs) w = pending_after evs (queued wq w)
pending_after (rank wq ∷ evs) w = pending_after evs w

arrive_all_kept :
    (wq : List Req) (w : Waiting) (rid ts : List ℕ)
    → w rid ≡ some ts
    → arrive_all wq w rid ≡ some ts
arrive_all_kept [] w rid ts h = h
arrive_all_kept (r ∷ rs) w rid ts h =
    arrive_all_kept rs (arrive r w) rid ts (elim (Bool-cases (tuple_beq r.rid rid)) [
      | inl same ↦ rw (same, h) refl
      | inr other ↦ rw other h
    ])

is_some-arrive_all :
    (wq : List Req) (w : Waiting) (rid : List ℕ)
    → is_some (arrive_all wq w rid) ≡ (contains (map rid_of wq) rid || is_some (w rid))
unfolding contains
is_some-arrive_all [] w rid = refl
is_some-arrive_all (r ∷ rs) w rid =
    is_some-arrive_all rs (arrive r w) rid ∙ first (tuple_beq r.rid rid)
  where
    first :
        (b : Bool)
        → (contains (map rid_of rs) rid
            || is_some (if b then some (or_else (w rid) (tokens_of r)) else w rid))
          ≡ ((b || contains (map rid_of rs) rid) || is_some (w rid))
    first true = ground arith
    first false = refl

settles : (in_it was : Bool) → (not (was && not in_it) && (in_it || was)) ≡ in_it
settles true true = refl
settles true false = refl
settles false true = refl
settles false false = refl

module _ {pt : PendingTree} where
  -- The dictionaries are inverse, exactly the pending requests have an open slot, and they are
  -- those that the last synchronisation has seen.
  pub record IsSynced (st : Hook pt) : Type 0 where
    pub interned : IsInterned st
    pub timed : IsTimed st
    pub last : (rid : List ℕ) → contains st.last_rids rid ≡ is_some (view st rid)

  -- The fast path: the queue has the rids of the last one.
  pub sync_fast :
      (now : ℕ) (wq : List Req) (st : Hook pt)
      → length wq ≡ length st.last_rids
      → set_beq (set_of (map rid_of wq)) st.last_rids ≡ true
      → sync pt now wq st ≡ some st
  unfolding sync
  sync_fast now wq st size same = rw ((==_iff _ _).1 size, same) refl

  settled-IsInterned :
      (now : ℕ) (current last : List (List ℕ)) (st : Hook pt)
      → IsInterned st
      → IsInterned (settled pt now current last st)
  settled-IsInterned now current last st h = record {
    forth = h.forth;
    back = h.back;
    bound = h.bound;
    named = h.named;
    stored = h.stored;
  }

  module _ (store : IsStore pt) (now : ℕ) (wq : List Req) (st : Hook pt) (h : IsSynced st) where
    unchanged :
        set_beq (set_of (map rid_of wq)) st.last_rids ≡ true
        → (rid : List ℕ) → view st rid ≡ queued wq (view st) rid
    unchanged same rid =
        let there =
          sym (contains-set_of (map rid_of wq) rid)
          ∙ set_beq-contains (set_of (map rid_of wq)) st.last_rids rid same
          ∙ h.last rid in
        elim (Option-cases (view st rid)) [
          | inl n ↦ rw (there, n) refl
          | inr (ts, e) ↦ rw (there, e) (sym (arrive_all_kept wq (view st) rid ts e))
        ]

    pub in_queue :
        (rid : List ℕ) {o : Option (List ℕ)}
        → o ≡ queued wq (view st) rid
        → contains (map rid_of wq) rid ≡ is_some o
    in_queue rid e = ground (arith, e, is_some-arrive_all wq (view st) rid)

    settled_open :
        (rid : List ℕ) (s : Hook pt × List ℕ) (st' : Hook pt)
        → st'.phase_timings ≡ s.0.phase_timings
        → Enters (arrive_all wq (view st)) (contains (map rid_of wq)) s
        → view st' rid ≡ queued wq (view st) rid
        → is_open (settled pt now (set_of (map rid_of wq)) st.last_rids st') rid
          ≡ is_some (view st' rid)
    settled_open rid s st' same en e =
        let rids = set_of (map rid_of wq) in
        let closed = open-close_all now (select_out rids st.last_rids) rid st'.phase_timings in
        let before =
          ap (λ d. open_slot (get rid d)) same
          ∙ en.timed rid
          ∙ ap is_some (en.viewed rid)
          ∙ is_some-arrive_all wq (view st) rid in
        let gone = contains-select_out rids st.last_rids rid in
        let listed = contains-set_of (map rid_of wq) rid in
        let seen = h.last rid in
        let waits = in_queue rid e in
        closed
        ∙ rw (before, gone, listed, seen, ← waits)
            (settles (contains (map rid_of wq) rid) (is_some (view st rid)))

    sync_slow-IsSynced :
        (st' : Hook pt) × (sync_slow pt now wq st ≡ some st')
        × IsSynced st'
        × ((rid : List ℕ) → view st' rid ≡ queued wq (view st) rid)
    unfolding sync_slow
    sync_slow-IsSynced =
        let (s, e, last, en) = enter_all-queue store now wq st h.interned h.timed in
        let left = leave_all-Left store s.1 s.0.seen s.0 en.interned in
        let st' = leave_all pt s.1 s.0.seen s.0 in
        let rids = set_of (map rid_of wq) in
        let queue = λ (rid : List ℕ).
          leave_all-view store s.1 s.0 en.interned rid
          ∙ (rw (en.listed rid)
              (ap (λ o. if contains (map rid_of wq) rid then o else none) (en.viewed rid))) in
        (
          settled pt now rids st.last_rids st',
          rw e refl,
          record {
            interned = settled-IsInterned now rids st.last_rids st' left.interned;
            timed = λ rid. settled_open rid s st' left.timings en (queue rid);
            last = λ rid. contains-set_of (map rid_of wq) rid ∙ in_queue rid (queue rid);
          },
          queue,
        )

    -- In step with the last queue, `_sync` raises no exception and is a step of the pending
    -- requests: those of the queue stay or come, with the tokens that they had when they came, and
    -- all others are gone from the tree. It is in step again, by either path.
    pub sync-refines :
        (st' : Hook pt) × (sync pt now wq st ≡ some st')
        × IsSynced st'
        × ((rid : List ℕ) → view st' rid ≡ queued wq (view st) rid)
    unfolding sync
    sync-refines =
        elim (Bool-cases
          ((length wq == length st.last_rids) && set_beq (set_of (map rid_of wq)) st.last_rids)) [
            | inl fast ↦ (st, rw fast refl, h, unchanged (second _ _ fast))
            | inr slow ↦
                let (st', e, synced, queue) = sync_slow-IsSynced in
                (st', rw (slow, e) refl, synced, queue)
          ]
      where
        second : (a b : Bool) → (a && b) ≡ true → b ≡ true
        second a b e = ground arith

  intern-IsSynced : (rid : List ℕ) (st : Hook pt) → IsSynced st → IsSynced (intern pt rid st).0
  intern-IsSynced rid st h =
      let (timings, last) = intern_keeps rid st h.interned in
      record {
        interned = intern-IsInterned rid st h.interned;
        timed = λ r. rw (timings, view-intern rid st h.interned r) (h.timed r);
        last = λ r. rw (last, view-intern rid st h.interned r) (h.last r);
      }

  pub intern_all-IsSynced :
      (wq : List Req) (st : Hook pt)
      → IsSynced st
      → IsSynced (intern_all pt wq st)
        × ((rid : List ℕ) → view (intern_all pt wq st) rid ≡ view st rid)
  unfolding intern_all
  intern_all-IsSynced [] st h = (h, λ rid. refl)
  intern_all-IsSynced (r ∷ rs) st h =
      let ih = intern_all-IsSynced rs (intern pt r.rid st).0 (intern-IsSynced r.rid st h) in
      (ih.0, λ rid. ih.1 rid ∙ view-intern r.rid st h.interned rid)

  module _ (store : IsStore pt) where
    pub new_hook-IsSynced : IsSynced (new_hook pt)
    unfolding get contains
    new_hook-IsSynced = record {
      interned = record {
        forth = λ r i. cc;
        back = λ i r. cc;
        bound = λ i r. cc;
        named = λ i. cc;
        stored = λ i. rw (store.tokens-empty i) refl;
      };
      timed = λ rid. refl;
      last = λ rid. refl;
    }

    step-IsSynced :
        (ev : Event) (evs : List Event) (st : Hook pt)
        → IsSynced st
        → (st' : Hook pt) × (step pt ev st ≡ some st')
          × IsSynced st'
          × (pending_after evs (view st') ≡ pending_after (ev ∷ evs) (view st))
    unfolding step
    step-IsSynced (sync_at now wq) evs st h =
        let (st', e, synced, queue) = sync-refines store now wq st h in
        (st', e, synced, ap (pending_after evs) (fun_ext queue))
    step-IsSynced (rank wq) evs st h =
        let (synced, same) = intern_all-IsSynced wq st h in
        (intern_all pt wq st, refl, synced, ap (pending_after evs) (fun_ext same))

    run-from :
        (evs : List Event) (st : Hook pt)
        → IsSynced st
        → (st' : Hook pt) × (run pt evs st ≡ some st')
          × IsSynced st'
          × (view st' ≡ pending_after evs (view st))
    unfolding run
    run-from [] st h = (st, refl, h, refl)
    run-from (ev ∷ evs) st h =
        let (st', e, synced, same) = step-IsSynced ev evs st h in
        let (st'', e', synced', same') = run-from evs st' synced in
        (st'', rw e e', synced', same' ∙ same)

    -- However synchronisations and rankings follow one another from the start, no exception is
    -- raised, and at the end the tree holds the requests of the queues as they were synchronised:
    -- `pending_after`, which knows nothing of interned rids, sets and fast paths.
    pub run-refines :
        (evs : List Event)
        → (st' : Hook pt) × (run pt evs (new_hook pt) ≡ some st')
          × IsSynced st'
          × ((rid : List ℕ) → view st' rid ≡ pending_after evs (λ r. none) rid)
    unfolding get
    run-refines evs =
        let (st', e, synced, same) = run-from evs (new_hook pt) new_hook-IsSynced in
        (st', e, synced, λ rid. ap (λ w. w rid) same)
