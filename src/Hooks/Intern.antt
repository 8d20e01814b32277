-- ===== src/Hooks/Intern.antt =====
-- `_intern` keeps the two dictionaries of rids inverse to each other, and what is tracked.
use peek.Prelude.{
  ℕ, ◌+◌, ◌≤◌, ◌≡◌, refl, ◌∙◌, inl, inr, List, Option, none, some, Bool, true, false, ◌||◌, arith,
  if◌then◌else◌, ◌==◌, tuple_beq, tuple_beq_iff, nat_eq, tuple_eq, Bool-cases, Option-cases,
}
use peek.Prelude.Membership.{contains}
use peek.Prelude.Dict.{get, get-put, add, contains-add}
use peek.Hooks.State.{PendingTree, Hook, is_some, named_anew, intern}

-- What is relied on of the pending tree: it stores the tokens of each rid that was inserted and
-- not discarded since, and accepts a rid that it does not have.
pub record IsStore (pt : PendingTree) : Type 0 where
  pub tokens-empty : (i : ℕ) → pt.tokens i pt.empty ≡ none
  pub insert_free :
      (i : ℕ) (ts : List ℕ) (t : pt.Tree)
      → pt.tokens i t ≡ none
      → (t' : pt.Tree) × (pt.insert_rid i ts t ≡ some t')
  pub tokens-insert :
      (i j : ℕ) (ts : List ℕ) (t t' : pt.Tree)
      → pt.insert_rid i ts t ≡ some t'
      → pt.tokens j t' ≡ (if i == j then some ts else pt.tokens j t)
  pub tokens-discard :
      (i j : ℕ) (t : pt.Tree)
      → pt.tokens j (pt.discard_rid i t) ≡ (if i == j then none else pt.tokens j t)

-- The interned form of a rid is among these.
abbrev pub in_ints : Option ℕ → List ℕ → Bool
in_ints none ints = false
in_ints (some i) ints = contains ints i

-- The tokens that the tree stores for an interned rid.
abbrev pub stored_at : (pt : PendingTree) → pt.Tree → Option ℕ → Option (List ℕ)
stored_at pt tree none = none
stored_at pt tree (some i) = pt.tokens i tree

pub is_none : {A : Type 0} (o : Option A) → is_some o ≡ false → o ≡ none
is_none none h = refl
is_none (some a) h = cc

module _ {pt : PendingTree} where
  -- The dictionaries are inverse to each other, the interned rids are at most the counter, and the
  -- tree stores exactly those that are tracked, all of which have a name.
  pub record IsInterned (st : Hook pt) : Type 0 where
    pub forth :
        (r : List ℕ) (i : ℕ) → get r st.rid_interner ≡ some i → get i st.rid_unintern ≡ some r
    pub back :
        (i : ℕ) (r : List ℕ) → get i st.rid_unintern ≡ some r → get r st.rid_interner ≡ some i
    pub bound : (i : ℕ) (r : List ℕ) → get i st.rid_unintern ≡ some r → i ≤ st.counter
    pub named : (i : ℕ) → contains st.seen i ≡ true → is_some (get i st.rid_unintern) ≡ true
    pub stored : (i : ℕ) → is_some (pt.tokens i st.tree) ≡ contains st.seen i

  -- All these interned rids have a name.
  abbrev pub AreNamed : Hook pt → List ℕ → Type 0
  AreNamed st ints = (i : ℕ) → contains ints i ≡ true → is_some (get i st.rid_unintern) ≡ true

  abbrev pub is_tracked : Hook pt → List ℕ → Bool
  is_tracked st r = in_ints (get r st.rid_interner) st.seen

  -- The tokens that the tree stores for a rid.
  abbrev pub view : Hook pt → List ℕ → Option (List ℕ)
  view st r = stored_at pt st.tree (get r st.rid_interner)

  is_some-stored_at :
      (st : Hook pt) (o : Option ℕ)
      → IsInterned st
      → is_some (stored_at pt st.tree o) ≡ in_ints o st.seen
  is_some-stored_at st none h = refl
  is_some-stored_at st (some i) h = h.stored i

  pub is_some-view :
      (st : Hook pt) (r : List ℕ) → IsInterned st → is_some (view st r) ≡ is_tracked st r
  is_some-view st r h = is_some-stored_at st (get r st.rid_interner) h

  -- A number above the counter is nobody's.
  no_name :
      (st : Hook pt) → IsInterned st → (i : ℕ) → i ≡ st.counter + 1 → get i st.rid_unintern ≡ none
  no_name st h i e = elim (Option-cases (get i st.rid_unintern)) [
    | inl n ↦ n
    | inr (r, s) ↦ let b = h.bound i r s in absurd (omega arith)
  ]

  not_among :
      (st : Hook pt) (ints : List ℕ) (i : ℕ)
      → AreNamed st ints
      → get i st.rid_unintern ≡ none
      → contains ints i ≡ false
  not_among st ints i names h = elim (Bool-cases (contains ints i)) [
    | inr out ↦ out
    | inl in_it ↦ let n = names i in_it in ground (arith, h, n)
  ]

  module _ (rid : List ℕ) (st : Hook pt) (h : IsInterned st) where
    intern_known : (i : ℕ) → get rid st.rid_interner ≡ some i → intern pt rid st ≡ (st, i)
    unfolding intern
    intern_known i known = rw (known, intern) refl

    intern_new :
        get rid st.rid_interner ≡ none → intern pt rid st ≡ (named_anew pt rid st, st.counter + 1)
    unfolding intern
    intern_new new = rw (new, intern) refl

    pub intern_keeps :
        ((intern pt rid st).0.phase_timings ≡ st.phase_timings)
        × ((intern pt rid st).0.last_rids ≡ st.last_rids)
    intern_keeps = elim (Option-cases (get rid st.rid_interner)) [
      | inr (i, known) ↦ rw (intern_known i known) (refl, refl)
      | inl new ↦ rw (intern_new new) (refl, refl)
    ]

    pub get-intern : get rid (intern pt rid st).0.rid_interner ≡ some (intern pt rid st).1
    get-intern = elim (Option-cases (get rid st.rid_interner)) [
      | inr (i, known) ↦ rw (intern_known i known) known
      | inl new ↦
          rw (intern_new new) (
            ground (arith, get-put rid rid (st.counter + 1) st.rid_interner, tuple_beq_iff rid rid))
    ]

    pub intern-IsInterned : IsInterned (intern pt rid st).0
    intern-IsInterned = elim (Option-cases (get rid st.rid_interner)) [
      | inr (i, known) ↦ rw (intern_known i known) h
      | inl new ↦
          let i = st.counter + 1 in
          let free = no_name st h i refl in
          rw (intern_new new) (record {
            forth = λ r j. ground (
              arith,
              get-put r rid i st.rid_interner,
              get-put j i rid st.rid_unintern,
              tuple_beq_iff rid r,
              h.forth r j,
              h.bound j r,
            );
            back = λ j r. ground (
              arith,
              get-put r rid i st.rid_interner,
              get-put j i rid st.rid_unintern,
              tuple_beq_iff rid r,
              tuple_beq_iff rid rid,
              h.back j r,
            );
            bound = λ j r. ground (arith, get-put j i rid st.rid_unintern, h.bound j r);
            named = λ j. ground (arith, get-put j i rid st.rid_unintern, h.named j);
            stored = λ j. h.stored j;
          })
    ]

    pub view-intern : (r : List ℕ) → view (intern pt rid st).0 r ≡ view st r
    view-intern r = elim (Option-cases (get rid st.rid_interner)) [
      | inr (i, known) ↦ rw (intern_known i known) refl
      | inl new ↦
          let i = st.counter + 1 in
          let free = not_among st st.seen i h.named (no_name st h i refl) in
          let empty = is_none (pt.tokens i st.tree) (h.stored i ∙ free) in
          rw (intern_new new) (elim (Bool-cases (tuple_beq rid r)) [
            | inl same ↦
                rw (get-put r rid i st.rid_interner, same, empty)
                  (rw (← (tuple_beq_iff rid r).0 same, new) refl)
            | inr other ↦ rw (get-put r rid i st.rid_interner, other) refl
          ])
    ]

    module _ (ints : List ℕ) (names : AreNamed st ints) where
      pub intern-AreNamed : AreNamed (intern pt rid st).0 ints
      intern-AreNamed = elim (Option-cases (get rid st.rid_interner)) [
        | inr (i, known) ↦ rw (intern_known i known) names
        | inl new ↦
            rw (intern_new new)
              (λ j. ground (arith, get-put j (st.counter + 1) rid st.rid_unintern, names j))
      ]

      pub in_ints-intern :
          (r : List ℕ)
          → in_ints (get r (intern pt rid st).0.rid_interner) ints
            ≡ in_ints (get r st.rid_interner) ints
      in_ints-intern r = elim (Option-cases (get rid st.rid_interner)) [
        | inr (i, known) ↦ rw (intern_known i known) refl
        | inl new ↦
            let i = st.counter + 1 in
            let free = not_among st ints i names (no_name st h i refl) in
            rw (intern_new new) (elim (Bool-cases (tuple_beq rid r)) [
              | inl same ↦
                  rw (get-put r rid i st.rid_interner, same, free)
                    (rw (← (tuple_beq_iff rid r).0 same, new) refl)
              | inr other ↦ rw (get-put r rid i st.rid_interner, other) refl
            ])
      ]

  -- The interned form of `rid` is `i`: in a set and in the tree, `i` stands for `rid` alone.
  module _ (st : Hook pt) (h : IsInterned st) (rid : List ℕ) (i : ℕ)
      (known : get rid st.rid_interner ≡ some i) where
    pub same_name :
        (r : List ℕ) (j : ℕ) → get r st.rid_interner ≡ some j → (i == j) ≡ tuple_beq rid r
    same_name r j q =
        ground (arith, h.forth rid i known, h.forth r j q, known, q, tuple_beq_iff rid r)

    pub other_name : (r : List ℕ) → get r st.rid_interner ≡ none → tuple_beq rid r ≡ false
    other_name r q = ground (arith, known, q, tuple_beq_iff rid r)

    pub in_ints-add :
        (r : List ℕ) (ints : List ℕ)
        → in_ints (get r st.rid_interner) (add i ints)
          ≡ (tuple_beq rid r || in_ints (get r st.rid_interner) ints)
    in_ints-add r ints = elim (Option-cases (get r st.rid_interner)) [
      | inl q ↦ rw (q, other_name r q) refl
      | inr (j, q) ↦ rw (q, ← same_name r j q) (contains-add i j ints)
    ]

    pub stored_at_set :
        (r : List ℕ) (ts : Option (List ℕ)) (t : pt.Tree)
        → ((j : ℕ) → pt.tokens j t ≡ (if i == j then ts else pt.tokens j st.tree))
        → stored_at pt t (get r st.rid_interner) ≡ (if tuple_beq rid r then ts else view st r)
    stored_at_set r ts t e = elim (Option-cases (get r st.rid_interner)) [
      | inl q ↦ rw (q, other_name r q) refl
      | inr (j, q) ↦ rw (q, ← same_name r j q) (e j)
    ]
