-- ===== src/Hooks/Leave.antt =====
-- The second loop of `_sync`: what is not in the queue is discarded and forgotten, and the pick
-- times of the requests that have left it.
use peek.Prelude.{
  ℕ, ◌≡◌, refl, ap, ◌∙◌, inl, inr, List, [], ◌∷◌, Option, none, some, Bool, true, false, not, ◌&&◌,
  arith, if◌then◌else◌, ◌==◌, tuple_beq, tuple_beq_iff, nat_eq, tuple_eq, Bool-cases, Option-cases,
}
use peek.Prelude.Membership.{contains}
use peek.Prelude.Dict.{get, get-put, get-delete, discard, contains-discard}
use peek.Hooks.State.{PendingTree, Hook, Slot, forget, leave, leave_all, close, close_all}
use peek.Hooks.Intern.{
  IsStore, IsInterned, in_ints, stored_at, view, is_none, same_name, other_name,
}
use peek.Hooks.Enter.{open_slot}

abbrev drop_int : ℕ → Option ℕ → Option ℕ
drop_int i none = none
drop_int i (some j) = if i == j then none else some j

module _ {pt : PendingTree} (store : IsStore pt) where
  module _ (i : ℕ) (st : Hook pt) (h : IsInterned st) where
    abbrev discarded : Hook pt
    discarded = record st { tree = pt.discard_rid i st.tree; seen = discard i st.seen }

    pub get-leave :
        (r : List ℕ) → get r (leave pt i st).rid_interner ≡ drop_int i (get r st.rid_interner)
    unfolding leave forget
    get-leave r = elim (Option-cases (get i st.rid_unintern)) [
      | inl n ↦ rw (n, forget) (unnamed (get r st.rid_interner) refl n)
      | inr (rid, s) ↦
          rw (s, forget)
            (get-delete r rid st.rid_interner ∙ named (get r st.rid_interner) rid refl s)
    ]
      where
        unnamed :
            (o : Option ℕ)
            → get r st.rid_interner ≡ o
            → get i st.rid_unintern ≡ none
            → o ≡ drop_int i o
        unnamed none e n = refl
        unnamed (some j) e n = ground (arith, h.forth r j e, n)

        named :
            (o : Option ℕ) (rid : List ℕ)
            → get r st.rid_interner ≡ o
            → get i st.rid_unintern ≡ some rid
            → (if tuple_beq rid r then none else o) ≡ drop_int i o
        named none rid e s = ground arith
        named (some j) rid e s =
            ground (arith, h.forth r j e, h.back i rid s, s, e, tuple_beq_iff rid r)

    pub leave-IsInterned : IsInterned (leave pt i st)
    unfolding leave forget
    leave-IsInterned = elim (Option-cases (get i st.rid_unintern)) [
      | inl n ↦
          rw (n, forget)
            (record {
              forth = h.forth;
              back = h.back;
              bound = h.bound;
              named = λ j. ground (arith, contains-discard i j st.seen, h.named j);
              stored = λ j. ground (
                arith,
                store.tokens-discard i j st.tree,
                contains-discard i j st.seen,
                h.stored j,
              );
            })
      | inr (rid, s) ↦
          rw (s, forget)
            (record {
              forth = λ r j. ground (
                arith,
                get-delete r rid st.rid_interner,
                get-delete j i st.rid_unintern,
                h.forth r j,
                h.back i rid s,
                s,
                tuple_beq_iff rid r,
              );
              back = λ j r. ground (
                arith,
                get-delete r rid st.rid_interner,
                get-delete j i st.rid_unintern,
                h.back j r,
                h.back i rid s,
                tuple_beq_iff rid r,
              );
              bound = λ j r. ground (arith, get-delete j i st.rid_unintern, h.bound j r);
              named = λ j.
                  ground (
                    arith,
                    contains-discard i j st.seen,
                    get-delete j i st.rid_unintern,
                    h.named j,
                  );
              stored = λ j. ground (
                arith,
                store.tokens-discard i j st.tree,
                contains-discard i j st.seen,
                h.stored j,
              );
            })
    ]

    pub leave_keeps :
        ((leave pt i st).tree ≡ pt.discard_rid i st.tree)
        × ((leave pt i st).phase_timings ≡ st.phase_timings)
        × ((leave pt i st).last_rids ≡ st.last_rids)
    unfolding leave forget
    leave_keeps = elim (Option-cases (get i st.rid_unintern)) [
      | inl n ↦ rw (n, forget) (refl, refl, refl)
      | inr (rid, s) ↦ rw (s, forget) (refl, refl, refl)
    ]

  -- When the interned form of `rid` leaves, `rid` is no longer pending, and all others are.
  pub view-leave :
      (i : ℕ) (st : Hook pt) (rid : List ℕ)
      → IsInterned st
      → get rid st.rid_interner ≡ some i
      → (r : List ℕ) → view (leave pt i st) r ≡ (if tuple_beq rid r then none else view st r)
  view-leave i st rid h known r = elim (Option-cases (get r st.rid_interner)) [
    | inl n ↦ rw (get-leave i st h r, n, other_name st h rid i known r n) refl
    | inr (j, e) ↦
        rw (get-leave i st h r, e, ← same_name st h rid i known r j e, (leave_keeps i st h).0)
          (out j (i == j) (store.tokens-discard i j st.tree))
  ]
    where
      out :
          (j : ℕ) (b : Bool)
          → pt.tokens j (pt.discard_rid i st.tree) ≡ (if b then none else pt.tokens j st.tree)
          → stored_at pt (pt.discard_rid i st.tree) (if b then none else some j)
            ≡ (if b then none else pt.tokens j st.tree)
      out j true e = refl
      out j false e = e

  -- The tokens of what is among these and not in the queue are gone.
  abbrev pub stored_out : List ℕ → List ℕ → pt.Tree → Option ℕ → Option (List ℕ)
  stored_out current xs tree none = none
  stored_out current xs tree (some j) =
      if contains xs j && not (contains current j) then none else pt.tokens j tree

  -- What the loop over these interned rids leaves.
  pub record Left (current xs : List ℕ) (st st' : Hook pt) : Type 0 where
    pub interned : IsInterned st'
    pub timings : st'.phase_timings ≡ st.phase_timings
    pub viewed : (r : List ℕ) → view st' r ≡ stored_out current xs st.tree (get r st.rid_interner)

  pub leave_all-Left :
      (current xs : List ℕ) (st : Hook pt)
      → IsInterned st
      → Left current xs st (leave_all pt current xs st)
  unfolding leave_all contains
  leave_all-Left current [] st h = record {
    interned = h;
    timings = refl;
    viewed = λ r. nothing (get r st.rid_interner);
  }
    where
      nothing : (o : Option ℕ) → stored_at pt st.tree o ≡ stored_out current [] st.tree o
      nothing none = refl
      nothing (some j) = refl
  leave_all-Left current (x ∷ xs) st h = elim (Bool-cases (contains current x)) [
    | inl stays ↦
        let ih = leave_all-Left current xs st h in
        rw stays (record {
          interned = ih.interned;
          timings = ih.timings;
          viewed = λ r. ih.viewed r ∙ same stays (get r st.rid_interner);
        })
    | inr goes ↦
        let ih = leave_all-Left current xs (leave pt x st) (leave-IsInterned x st h) in
        rw goes (record {
          interned = ih.interned;
          timings = ih.timings ∙ (leave_keeps x st h).1;
          viewed = λ r.
              ih.viewed r
              ∙ ap (stored_out current xs (leave pt x st).tree) (get-leave x st h r)
              ∙ gone goes (get r st.rid_interner);
        })
  ]
    where
      same :
          contains current x ≡ true
          → (o : Option ℕ) → stored_out current xs st.tree o ≡ stored_out current (x ∷ xs) st.tree o
      same stays none = refl
      same stays (some j) = ground (arith, stays)

      gone :
          contains current x ≡ false
          → (o : Option ℕ)
          → stored_out current xs (leave pt x st).tree (drop_int x o)
            ≡ stored_out current (x ∷ xs) st.tree o
      gone goes none = refl
      gone goes (some j) =
          rw ((leave_keeps x st h).0) (ground (arith, goes, store.tokens-discard x j st.tree))

  -- After the loop over all that was tracked, what is left are the rids of the queue.
  pub leave_all-view :
      (current : List ℕ) (st : Hook pt)
      → IsInterned st
      → (r : List ℕ)
      → view (leave_all pt current st.seen st) r
        ≡ (if in_ints (get r st.rid_interner) current then view st r else none)
  leave_all-view current st h r =
      (leave_all-Left current st.seen st h).viewed r ∙ out (get r st.rid_interner)
    where
      out :
          (o : Option ℕ)
          → stored_out current st.seen st.tree o
            ≡ (if in_ints o current then stored_at pt st.tree o else none)
      out none = refl
      out (some j) = elim (Bool-cases (contains st.seen j)) [
        | inl there ↦ ground (arith, there)
        | inr not_there ↦
            let empty = is_none (pt.tokens j st.tree) (h.stored j ∙ not_there) in
            ground (arith, not_there, empty)
      ]

-- `slot["pick_ts"]` is set once, of the rids in this list.
module _ (now : ℕ) where
  open-close :
      (rid r : List ℕ) (timings : List (List ℕ × Slot))
      → open_slot (get r (close now rid timings))
        ≡ (not (tuple_beq rid r) && open_slot (get r timings))
  unfolding close
  open-close rid r timings = elim (Option-cases (get rid timings)) [
    | inl n ↦
        rw (n, close)
          (elim (Bool-cases (tuple_beq rid r)) [
            | inl same ↦ rw (same, ← (tuple_beq_iff rid r).0 same, n) refl
            | inr other ↦ rw other refl
          ])
    | inr (slot, e) ↦
        rw (e, close)
          (elim (Option-cases slot.pick_ts) [
            | inl n ↦ rw n (
                rw
                  (get-put r rid (record { arrive_ts = slot.arrive_ts; pick_ts = some now })
                    timings)
                  (ground arith))
            | inr (t, picked) ↦ rw picked (elim (Bool-cases (tuple_beq rid r)) [
              | inl same ↦ rw (same, ← (tuple_beq_iff rid r).0 same, e, picked) refl
              | inr other ↦ rw other refl
            ])
          ])
  ]

  pub open-close_all :
      (rids : List (List ℕ)) (r : List ℕ) (timings : List (List ℕ × Slot))
      → open_slot (get r (close_all now rids timings))
        ≡ (not (contains rids r) && open_slot (get r timings))
  unfolding close_all contains
  open-close_all [] r timings = refl
  open-close_all (rid ∷ rids) r timings =
      ground (arith, open-close_all rids r (close now rid timings), open-close rid r timings)
