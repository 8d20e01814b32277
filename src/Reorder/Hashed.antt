-- ===== src/Reorder/Hashed.antt =====
-- `submit` and `remove` of the dispatcher raise no KeyError, and keep its counts right.
use peek.Prelude.{
  ℕ, ◌≡◌, ◌∙◌, refl, sym, subst, inl, inr, List, [], ◌∷◌, ◌++◌, some, Bool, true, false, ◌&&◌,
  arith, take, if◌then◌else◌, leb, tuple_beq, tuple_beq_iff, tuple_eq, Bool-cases, All,
}
use peek.Trie.Update.{remove}
use peek.Reorder.Dispatcher.{
  Counts, Dispatcher, Sent, has_key, count_of, lookup, pop, count_down, pending_counts,
  push_pending, rank_of, enrol, submit, withdraw, remove_prompt,
}
use peek.Reorder.Tracked.{
  NoRepeat, IsTracked, AllKeys, AllKeys-count_up, AllKeys-count_down, same_key, enrol-IsTracked,
  withdraw-IsTracked,
}

-- A key has a hash.
abbrev pub HasHash : Counts → List ℕ → Type 0
HasHash hashes k = (h : ℕ) × (lookup k hashes ≡ some h)

-- Every key that is counted has a hash.
abbrev pub IsHashed : Counts → Counts → Type 0
IsHashed hashes counts = AllKeys (HasHash hashes) counts

pub record IsSound (d : Dispatcher) : Type 0 where
  pub tracked : IsTracked d
  pub hashed : IsHashed d.group_hashes d.group_count

AllKeys-imp :
    (P Q : List ℕ → Type 0)
    → ((k : List ℕ) → P k → Q k)
    → (cs : Counts) → AllKeys P cs
    → AllKeys Q cs
AllKeys-imp P Q f [] h = tt
AllKeys-imp P Q f ((k, n) ∷ cs) h = (f k h.0, AllKeys-imp P Q f cs h.1)

pending_counts-IsHashed :
    (hashes counts : Counts)
    → IsHashed hashes counts
    → (p : List (ℕ × ℕ)) × (pending_counts hashes counts ≡ some p)
unfolding pending_counts
pending_counts-IsHashed hashes [] h = ([], refl)
pending_counts-IsHashed hashes ((k, n) ∷ cs) ((x, e), t) =
    let (p, r) = pending_counts-IsHashed hashes cs t in ((x, n) ∷ p, rw (e, r) refl)

lookup-append : (k : List ℕ) (hs more : Counts) → HasHash hs k → HasHash (hs ++ more) k
lookup-append k [] more (h, e) = cc
lookup-append k ((i, x) ∷ hs) more (h, e) = elim (Bool-cases (tuple_beq i k)) [
  | inl q ↦ rw q (x, refl)
  | inr q ↦ rw q (lookup-append k hs more (h, rw q at e))
]

has_key-HasHash : (k : List ℕ) (hs : Counts) → has_key k hs ≡ true → HasHash hs k
has_key-HasHash k [] h = cc
has_key-HasHash k ((i, x) ∷ hs) h = elim (Bool-cases (tuple_beq i k)) [
  | inl q ↦ rw q (x, refl)
  | inr q ↦ rw q (has_key-HasHash k hs (rw q at h))
]

lookup_last : (k : List ℕ) (x : ℕ) (hs : Counts) → HasHash (hs ++ (k, x) ∷ []) k
lookup_last k x [] = rw ((tuple_beq_iff k k).1 refl) (x, refl)
lookup_last k x ((i, y) ∷ hs) = elim (Bool-cases (tuple_beq i k)) [
  | inl q ↦ rw q (y, refl)
  | inr q ↦ rw q (lookup_last k x hs)
]

-- The hashes with that of one more key.
abbrev with_hash : List ℕ → ℕ → Counts → Counts
with_hash k x hs = if has_key k hs then hs else hs ++ (k, x) ∷ []

with_hash-HasHash : (k : List ℕ) (x : ℕ) (hs : Counts) → HasHash (with_hash k x hs) k
with_hash-HasHash k x hs = elim (Bool-cases (has_key k hs)) [
  | inl q ↦ rw q (has_key-HasHash k hs q)
  | inr q ↦ rw q (lookup_last k x hs)
]

with_hash-keeps : (k j : List ℕ) (x : ℕ) (hs : Counts) → HasHash hs j → HasHash (with_hash k x hs) j
with_hash-keeps k j x hs h = elim (Bool-cases (has_key k hs)) [
  | inl q ↦ rw q h
  | inr q ↦ rw q (lookup-append j hs ((k, x) ∷ []) h)
]

-- The submitted key has a hash.
own_hash :
    (hash : List ℕ → ℕ) (token_ids : List ℕ) (rid : List ℕ) (d : Dispatcher)
    → HasHash (enrol hash token_ids rid d).group_hashes (take d.max_depth token_ids)
unfolding enrol
own_hash hash token_ids rid d =
    with_hash-HasHash (take d.max_depth token_ids) (hash (take d.max_depth token_ids))
      d.group_hashes

pub enrol-IsSound :
    (hash : List ℕ → ℕ) (token_ids : List ℕ) (rid : List ℕ) (d : Dispatcher)
    → IsSound d
    → IsSound (enrol hash token_ids rid d)
unfolding enrol
enrol-IsSound hash token_ids rid d s =
    let key = take d.max_depth token_ids in
    record {
      tracked = enrol-IsTracked hash token_ids rid d s.tracked;
      hashed =
          AllKeys-count_up (HasHash (with_hash key (hash key) d.group_hashes)) key d.group_count
            (with_hash-HasHash key (hash key) d.group_hashes)
            (AllKeys-imp (HasHash d.group_hashes)
              (HasHash (with_hash key (hash key) d.group_hashes))
              (λ j. with_hash-keeps key j (hash key) d.group_hashes) d.group_count s.hashed);
    }

lookup-pop : (k j : List ℕ) (hs : Counts) → ¬ (k ≡ j) → HasHash hs j → HasHash (pop k hs) j
lookup-pop k j [] n h = h
lookup-pop k j ((i, x) ∷ hs) n (h, e) = elim (Bool-cases (tuple_beq i k)) [
  | inl q ↦ rw q (h, rw (differ i k j q n) at e)
  | inr q ↦ elim (Bool-cases (tuple_beq i j)) [
    | inl r ↦ rw (q, r) (x, refl)
    | inr r ↦ rw (q, r) (lookup-pop k j hs n (h, rw r at e))
  ]
]
  where
    differ : (i' k' j' : List ℕ) → tuple_beq i' k' ≡ true → ¬ (k' ≡ j') → tuple_beq i' j' ≡ false
    differ i' k' j' q' n' = elim (Bool-cases (tuple_beq i' j')) [
      | inl y ↦ absurd (n' (sym (same_key i' k' q') ∙ same_key i' j' y))
      | inr y ↦ y
    ]

-- The hash of a key is dropped with the last of its counts, which leaves the others theirs.
gone-IsHashed :
    (k : List ℕ) (hs cs : Counts)
    → NoRepeat cs
    → leb (count_of k cs) 1 ≡ true
    → IsHashed hs cs
    → IsHashed (pop k hs) (count_down k cs)
unfolding count_down
gone-IsHashed k hs [] d l h = tt
gone-IsHashed k hs ((i, n) ∷ cs) d l h = elim (Bool-cases (tuple_beq i k)) [
  | inl q ↦
      rw (q, rw q at l)
        (kept cs (subst (λ c. All (λ (x : List ℕ × ℕ). ¬ (c ≡ x.0)) cs) (same_key i k q) d.0) h.1)
  | inr q ↦ rw q (
    lookup-pop k i hs (λ e. let t = (tuple_beq_iff i k).1 (sym e) in cc) h.0,
    gone-IsHashed k hs cs d.1 (rw q at l) h.1,
  )
]
  where
    kept :
        (es : Counts)
        → All (λ (x : List ℕ × ℕ). ¬ (k ≡ x.0)) es
        → IsHashed hs es
        → IsHashed (pop k hs) es
    kept [] n e = tt
    kept ((j, m) ∷ es) n e = (lookup-pop k j hs n.0 e.0, kept es n.1 e.1)

withdraw-IsSound :
    (token_ids : List ℕ) (i : ℕ) (d : Dispatcher)
    → IsSound d
    → (remove token_ids i d.trie).1 ≡ true
    → IsSound (withdraw token_ids i d)
unfolding withdraw
withdraw-IsSound token_ids i d s found = record {
  tracked = withdraw-IsTracked token_ids i d s.tracked found;
  hashed =
      elim (Bool-cases (
        has_key (take d.max_depth token_ids) d.group_count
        && leb (count_of (take d.max_depth token_ids) d.group_count) 1)) [
          | inl gone ↦ rw gone (
              gone-IsHashed (take d.max_depth token_ids) d.group_hashes d.group_count
                s.tracked.distinct
                (second (has_key (take d.max_depth token_ids) d.group_count) _ gone) s.hashed)
          | inr stays ↦ rw stays (
              AllKeys-count_down (HasHash d.group_hashes) (take d.max_depth token_ids) d.group_count
                s.hashed)
        ];
}
  where
    second : (a b : Bool) → (a && b) ≡ true → b ≡ true
    second a b h = ground arith

-- Pushing the pending counts changes nothing else.
push-IsSound :
    (d : Dispatcher) → IsSound d → (d' : Dispatcher) × (push_pending d ≡ some d') × IsSound d'
unfolding push_pending
push-IsSound d s =
    let (p, e) = pending_counts-IsHashed d.group_hashes d.group_count s.hashed in
    (
      record d { client_pending = p },
      rw e refl,
      record {
        tracked = record {
          valid = s.tracked.valid;
          depth = s.tracked.depth;
          distinct = s.tracked.distinct;
          counts = s.tracked.counts;
        };
        hashed = s.hashed;
      },
    )

-- From a sound state, where each group's count is the number of its prompts in the trie and each
-- counted group has a hash, `submit` raises no KeyError and leaves a sound state.
pub submit-IsSound :
    (hash : List ℕ → ℕ) (token_ids : List ℕ) (rid : List ℕ) (d : Dispatcher)
    → IsSound d
    → (r : Dispatcher × Sent) × (submit hash token_ids rid d ≡ some r) × IsSound r.0
unfolding submit
submit-IsSound hash token_ids rid d s =
    let (h, e) = own_hash hash token_ids rid d in
    let (d', e', s') =
      push-IsSound (enrol hash token_ids rid d) (enrol-IsSound hash token_ids rid d s) in
    (
      (
        d',
        record {
          rank = rank_of (take d.max_depth token_ids) (enrol hash token_ids rid d);
          group_key = h;
          rid = rid;
        },
      ),
      rw (e, e') refl,
      s',
    )

-- From a sound state, `remove` of a prompt that the trie stores raises no KeyError and leaves a
-- sound state.
pub remove_prompt-IsSound :
    (token_ids : List ℕ) (i : ℕ) (d : Dispatcher)
    → IsSound d
    → (remove token_ids i d.trie).1 ≡ true
    → (d' : Dispatcher) × (remove_prompt token_ids i d ≡ some d') × IsSound d'
unfolding remove_prompt
remove_prompt-IsSound token_ids i d s found =
    push-IsSound (withdraw token_ids i d) (withdraw-IsSound token_ids i d s found)
