-- ===== src/Hooks/Enter.antt =====
-- The first loop of `_sync`: every request of the queue is interned and tracked.
use peek.Prelude.{
  ℕ, ◌≡◌, refl, sym, ap, ◌∙◌, inl, inr, List, [], ◌∷◌, map, Option, none, some, Bool, true, false,
  not, ◌||◌, arith, if◌then◌else◌, ◌==◌, tuple_beq, tuple_beq_iff, nat_eq, tuple_eq, Bool-cases,
}
use peek.Prelude.Membership.{contains}
use peek.Prelude.Dict.{get, get-put, add, contains-add}
use peek.Lpm.Data.{Req, rid_of, tokens_of}
use peek.Hooks.State.{
  PendingTree, Hook, Slot, is_some, intern, insert_anew, tracked_in, track, enter, enter_all,
}
use peek.Hooks.Intern.{
  IsStore, IsInterned, AreNamed, in_ints, view, is_none, get-intern, intern-IsInterned,
  intern_keeps, view-intern, intern-AreNamed, in_ints-intern, in_ints-add, stored_at_set,
}

-- The pending requests as a function: the tokens of a rid that waits.
abbrev pub Waiting : Type 0
Waiting = List ℕ → Option (List ℕ)

-- A request comes: one that waits already keeps its tokens.
abbrev pub or_else : Option (List ℕ) → List ℕ → List ℕ
or_else none ts = ts
or_else (some old) ts = old

abbrev pub arrive : Req → Waiting → Waiting
arrive r w rid = if tuple_beq r.rid rid then some (or_else (w rid) (tokens_of r)) else w rid

abbrev pub arrive_all : List Req → Waiting → Waiting
arrive_all [] w = w
arrive_all (r ∷ rs) w = arrive_all rs (arrive r w)

-- A rid that has arrived, and has no pick time yet.
abbrev pub open_slot : Option Slot → Bool
open_slot none = false
open_slot (some slot) = not (is_some slot.pick_ts)

module _ {pt : PendingTree} where
  abbrev pub is_open : Hook pt → List ℕ → Bool
  is_open st rid = open_slot (get rid st.phase_timings)

  -- Exactly the pending requests are open.
  abbrev pub IsTimed : Hook pt → Type 0
  IsTimed st = (rid : List ℕ) → is_open st rid ≡ is_some (view st rid)

  -- What one request, or more, change.
  pub record Enters (w : Waiting) (named : List ℕ → Bool) (s : Hook pt × List ℕ) : Type 0 where
    pub interned : IsInterned s.0
    pub viewed : (rid : List ℕ) → view s.0 rid ≡ w rid
    pub names : AreNamed s.0 s.1
    pub listed : (rid : List ℕ) → in_ints (get rid s.0.rid_interner) s.1 ≡ named rid
    pub timed : IsTimed s.0

  module _ (store : IsStore pt) where
    insert_anew-free :
        (i : ℕ) (ts : List ℕ) (t : pt.Tree)
        → pt.tokens i t ≡ none
        → (t' : pt.Tree) × (insert_anew pt i ts t ≡ some t')
          × ((j : ℕ) → pt.tokens j t' ≡ (if i == j then some ts else pt.tokens j t))
    unfolding insert_anew
    insert_anew-free i ts t free =
        let (t', e) = store.insert_free i ts t free in
        (t', rw (e, insert_anew) refl, λ j. store.tokens-insert i j ts t t' e)

    module _ (now : ℕ) (r : Req) (st : Hook pt) (h : IsInterned st) (i : ℕ)
        (known : get r.rid st.rid_interner ≡ some i) where
      unseen : contains st.seen i ≡ false → pt.tokens i st.tree ≡ none
      unseen new = is_none (pt.tokens i st.tree) (h.stored i ∙ new)

      module _ (t : pt.Tree)
          (e : (j : ℕ)
            → pt.tokens j t ≡ (if i == j then some (tokens_of r) else pt.tokens j st.tree)) where
        tracked_in-IsInterned : IsInterned (tracked_in pt t now i r st)
        tracked_in-IsInterned = record {
          forth = h.forth;
          back = h.back;
          bound = h.bound;
          named = λ j. ground (arith, contains-add i j st.seen, h.named j, h.forth r.rid j, known);
          stored = λ j. ground (arith, e j, contains-add i j st.seen, h.stored j);
        }

        view-tracked_in :
            (rid : List ℕ)
            → view (tracked_in pt t now i r st) rid
              ≡ (if tuple_beq r.rid rid then some (tokens_of r) else view st rid)
        view-tracked_in rid = stored_at_set st h r.rid i known rid (some (tokens_of r)) t e

        tracked_in-IsTimed : IsTimed st → IsTimed (tracked_in pt t now i r st)
        tracked_in-IsTimed timed rid = ground (
          arith,
          view-tracked_in rid,
          get-put rid r.rid (record { arrive_ts = now; pick_ts = none }) st.phase_timings,
          timed rid,
        )

      view_known : view st r.rid ≡ pt.tokens i st.tree
      view_known = rw known refl

      -- A request that is tracked already keeps its tokens.
      arrive_seen :
          (w : Waiting)
          → ((rid : List ℕ) → view st rid ≡ w rid)
          → contains st.seen i ≡ true
          → (rid : List ℕ) → view st rid ≡ arrive r w rid
      arrive_seen w viewed old rid = elim (Bool-cases (tuple_beq r.rid rid)) [
        | inr other ↦ rw other (viewed rid)
        | inl same ↦
            let there = h.stored i in
            let here = ap w (sym ((tuple_beq_iff r.rid rid).0 same)) in
            let here' = ap (view st) (sym ((tuple_beq_iff r.rid rid).0 same)) in
            rw same (
              kept (pt.tokens i st.tree) (there ∙ old) (here' ∙ view_known)
                (here ∙ sym (viewed r.rid) ∙ view_known))
      ]
        where
          kept :
              {a b : Option (List ℕ)} (c : Option (List ℕ))
              → is_some c ≡ true
              → a ≡ c
              → b ≡ c
              → a ≡ some (or_else b (tokens_of r))
          kept none t p q = cc
          kept (some old') t p q = rw (p, q) refl

    module _ (now : ℕ) (r : Req) (w : Waiting) (named : List ℕ → Bool) where
      abbrev named_too : List ℕ → Bool
      named_too rid = tuple_beq r.rid rid || named rid

      intern-Enters :
          (st : Hook pt) (cur : List ℕ)
          → Enters w named (st, cur)
          → Enters w named ((intern pt r.rid st).0, cur)
      intern-Enters st cur en = record {
        interned = intern-IsInterned r.rid st en.interned;
        viewed = λ rid. view-intern r.rid st en.interned rid ∙ en.viewed rid;
        names = intern-AreNamed r.rid st en.interned cur en.names;
        listed = λ rid. in_ints-intern r.rid st en.interned cur en.names rid ∙ en.listed rid;
        timed = λ rid.
            rw (view-intern r.rid st en.interned rid, (intern_keeps r.rid st en.interned).0)
              (en.timed rid);
      }

      module _ (st : Hook pt) (cur : List ℕ) (en : Enters w named (st, cur)) (i : ℕ)
          (known : get r.rid st.rid_interner ≡ some i) where
        add-AreNamed : AreNamed st (add i cur)
        add-AreNamed j =
            ground (arith, contains-add i j cur, en.names j, en.interned.forth r.rid j, known)

        listed_too : (rid : List ℕ) → in_ints (get rid st.rid_interner) (add i cur) ≡ named_too rid
        listed_too rid =
            in_ints-add st en.interned r.rid i known rid cur
            ∙ ap (λ b. tuple_beq r.rid rid || b) (en.listed rid)

        seen-Enters : contains st.seen i ≡ true → Enters (arrive r w) named_too (st, add i cur)
        seen-Enters old = record {
          interned = en.interned;
          viewed = arrive_seen now r st en.interned i known w en.viewed old;
          names = add-AreNamed;
          listed = listed_too;
          timed = en.timed;
        }

        came :
            (rid : List ℕ)
            → tuple_beq r.rid rid ≡ true
            → pt.tokens i st.tree ≡ none
            → tokens_of r ≡ or_else (w rid) (tokens_of r)
        came rid same free =
            let here = ap w (sym ((tuple_beq_iff r.rid rid).0 same)) in
            let empty =
              here ∙ sym (en.viewed r.rid) ∙ view_known now r st en.interned i known ∙ free in
            rw empty refl

        track-Enters :
            contains st.seen i ≡ false
            → (st' : Hook pt) × (track pt now i r st ≡ some st')
              × (st'.last_rids ≡ st.last_rids)
              × Enters (arrive r w) named_too (st', add i cur)
        unfolding track
        track-Enters new =
            let free = unseen now r st en.interned i known new in
            let (t, e, law) = insert_anew-free i (tokens_of r) st.tree free in
            let seen_too = view-tracked_in now r st en.interned i known t law in
            (
              tracked_in pt t now i r st,
              rw e refl,
              refl,
              record {
                interned = tracked_in-IsInterned now r st en.interned i known t law;
                viewed = λ rid. elim (Bool-cases (tuple_beq r.rid rid)) [
                  | inr other ↦ seen_too rid ∙ rw other (en.viewed rid)
                  | inl same ↦ seen_too rid ∙ rw same (ap some (came rid same free))
                ];
                names = add-AreNamed;
                listed = listed_too;
                timed = tracked_in-IsTimed now r st en.interned i known t law en.timed;
              },
            )

      enter-Enters :
          (st : Hook pt) (cur : List ℕ)
          → Enters w named (st, cur)
          → (s' : Hook pt × List ℕ) × (enter pt now r (st, cur) ≡ some s')
            × (s'.0.last_rids ≡ st.last_rids)
            × Enters (arrive r w) named_too s'
      unfolding enter
      enter-Enters st cur en =
          let st' = (intern pt r.rid st).0 in
          let i = (intern pt r.rid st).1 in
          let en' = intern-Enters st cur en in
          let known = get-intern r.rid st en.interned in
          let kept = (intern_keeps r.rid st en.interned).1 in
          elim (Bool-cases (contains st'.seen i)) [
            | inl old ↦ ((st', add i cur), rw old refl, kept, seen-Enters st' cur en' i known old)
            | inr new ↦
                let (st'', e, last, tracked) = track-Enters st' cur en' i known new in
                ((st'', add i cur), rw (new, e) refl, last ∙ kept, tracked)
          ]

    named_all : List Req → (List ℕ → Bool) → List ℕ → Bool
    named_all [] named = named
    named_all (r ∷ rs) named = named_all rs (λ rid. tuple_beq r.rid rid || named rid)

    enter_all-Enters :
        (now : ℕ) (wq : List Req) (w : Waiting) (named : List ℕ → Bool) (s : Hook pt × List ℕ)
        → Enters w named s
        → (s' : Hook pt × List ℕ) × (enter_all pt now wq s ≡ some s')
          × (s'.0.last_rids ≡ s.0.last_rids)
          × Enters (arrive_all wq w) (named_all wq named) s'
    unfolding enter_all named_all
    enter_all-Enters now [] w named s en = (s, refl, refl, en)
    enter_all-Enters now (r ∷ rs) w named s en =
        let (s', e, last, en') = enter-Enters now r w named s.0 s.1 en in
        let (s'', e', last', en'') =
          enter_all-Enters now rs (arrive r w) (λ rid. tuple_beq r.rid rid || named rid) s' en' in
        (s'', rw e e', last' ∙ last, en'')

    named_all-contains :
        (wq : List Req) (named : List ℕ → Bool) (rid : List ℕ)
        → named_all wq named rid ≡ (contains (map rid_of wq) rid || named rid)
    unfolding named_all contains
    named_all-contains [] named rid = refl
    named_all-contains (r ∷ rs) named rid =
        let ih = named_all-contains rs (λ x. tuple_beq r.rid x || named x) rid in ground (arith, ih)

    -- After the first loop the set of interned rids is that of the queue, every rid of which is
    -- tracked with its tokens.
    pub enter_all-queue :
        (now : ℕ) (wq : List Req) (st : Hook pt)
        → IsInterned st
        → IsTimed st
        → (s' : Hook pt × List ℕ) × (enter_all pt now wq (st, []) ≡ some s')
          × (s'.0.last_rids ≡ st.last_rids)
          × Enters (arrive_all wq (view st)) (contains (map rid_of wq)) s'
    unfolding contains
    enter_all-queue now wq st h timed =
        let (s', e, last, en) =
          enter_all-Enters now wq (view st) (λ rid. false) (st, [])
            (record {
              interned = h;
              viewed = λ rid. refl;
              names = λ i. cc;
              listed = λ rid. none_listed (get rid st.rid_interner);
              timed = timed;
            }) in
        (
          s',
          e,
          last,
          record {
            interned = en.interned;
            viewed = en.viewed;
            names = en.names;
            listed = λ rid.
                en.listed rid
                ∙ named_all-contains wq (λ x. false) rid
                ∙ or_false (contains (map rid_of wq) rid);
            timed = en.timed;
          },
        )
      where
        none_listed : (o : Option ℕ) → in_ints o [] ≡ false
        none_listed none = refl
        none_listed (some i) = refl

        or_false : (b : Bool) → (b || false) ≡ b
        or_false true = refl
        or_false false = refl
