-- ===== src/Engine/Waiting.antt =====
-- How long `_reorder_by_score` buffers a group, however long the queue is.
use mathlib.Core.List.{Mem, Mem-prop, Perm, mem-cons, not-mem-nil}
use mathlib.Core.List.Perm
use mathlib.Core.Logic.Or
use peek.Prelude.{
  ℕ, ap, select-append-perm, ◌+◌, ◌≤◌, ◌≡◌, refl, ◌∙◌, sym, inl, inr, List, [], ◌∷◌, ◌++◌, Bool,
  true, false, not, if◌then◌else◌, select, All, Bool-cases, arith, tuple_eq,
}
use peek.Prelude.Membership.{contains}
use peek.Prelude.Partition.{All-perm}
use peek.Prelude.Sort.{sort_by, sort_by-perm}
use peek.Trie.Data.{is_nil}
use peek.Engine.Score.{
  Scored, FirstSeen, seen_at, seen_keys, update_seen, is_ready, max_wait, ge_score, emit,
  reorder_by_score, promote,
}
use peek.Engine.Seen.{seen_after, IsActive, seen_after_update, update_seen_new, seen_at_after}

max_wait_bound : (d : ℕ) → max_wait d ≤ 30
max_wait_bound d = ground arith

-- A group that was first seen at least 30 milliseconds ago is ready, however small it is.
ready_in_time :
    (d now t : ℕ) (seen : FirstSeen) (item : Scored)
    → seen_at now seen item.key ≡ t
    → t + 30 ≤ now
    → is_ready d now seen item ≡ true
ready_in_time d now t seen item e late = let b = max_wait_bound d in ground (arith, e)

-- The groups in the order in which they are emitted: `before` the ready ones, then the others.
pub record IsEmitted (d now : ℕ) (seen : FirstSeen) (scored : List Scored) (item : Scored)
    : Type 0 where
  pub before : List Scored
  pub after : List Scored
  pub emitted : reorder_by_score d now seen scored ≡ emit before ++ emit after
  pub whole : Perm (before ++ after) scored
  pub ready : All (λ s. is_ready d now seen s ≡ true) before
  pub buffered : All (λ s. is_ready d now seen s ≡ false) after
  pub among : Mem item before

All-select : (p : Scored → Bool) (xs : List Scored) → All (λ s. p s ≡ true) (select p xs)
All-select p [] = tt
All-select p (x ∷ xs) = elim (Bool-cases (p x)) [
  | inl q ↦ rw q (q, All-select p xs)
  | inr q ↦ rw q (All-select p xs)
]

All-select-not :
    (p : Scored → Bool) (xs : List Scored) → All (λ s. p s ≡ false) (select (λ s. not (p s)) xs)
All-select-not p [] = tt
All-select-not p (x ∷ xs) = elim (Bool-cases (p x)) [
  | inl q ↦ rw q (All-select-not p xs)
  | inr q ↦ rw q (q, All-select-not p xs)
]

Mem-into_select :
    (p : Scored → Bool) (xs : List Scored) (a : Scored)
    → Mem a xs
    → p a ≡ true
    → Mem a (select p xs)
Mem-into_select p [] a m h = m
Mem-into_select p (x ∷ xs) a m h =
    Or.elim (Mem-prop) (mem-cons.0 m)
      (λ q. let e : p x ≡ true = ap p (sym q) ∙ h in rw e (mem-cons.1 (Or.inl q)))
      (λ n. elim (Bool-cases (p x)) [
        | inl e ↦ rw e (mem-cons.1 (Or.inr (Mem-into_select p xs a n h)))
        | inr e ↦ rw e (Mem-into_select p xs a n h)
      ])

-- Nothing is promoted when a group is ready.
promote_none :
    (ready buffering : List Scored) (item : Scored)
    → Mem item ready
    → promote ready (if is_nil ready then sort_by ge_score buffering else buffering)
      ≡ (ready, buffering)
promote_none [] buffering item m = absurd (not-mem-nil m)
promote_none (r ∷ ready) buffering item m = refl

ready_split :
    (d now : ℕ) (seen : FirstSeen) (scored : List Scored) (item : Scored)
    → Mem item scored
    → is_ready d now seen item ≡ true
    → IsEmitted d now seen scored item
unfolding reorder_by_score
ready_split d now seen scored item m h =
    let p = is_ready d now seen in
    let ready = select p scored in
    let buffering = select (λ s. not (p s)) scored in
    let there = Mem-into_select p scored item m h in
    let sorted = sort_by-perm ge_score ready in
    let sorted' = sort_by-perm ge_score buffering in
    record {
      before = sort_by ge_score ready;
      after = sort_by ge_score buffering;
      emitted = rw (promote_none ready buffering item there) refl;
      whole = Perm.trans (Perm.append sorted sorted') (select-append-perm p scored);
      ready = All-perm (λ s. p s ≡ true) (hlevel) sorted (All-select p scored);
      buffered = All-perm (λ s. p s ≡ false) (hlevel) sorted' (All-select-not p scored);
      among = (Perm.mem_iff sorted).1 there;
    }

-- A group that arrives in a cycle and is active in all later ones up to a cycle at least 30
-- milliseconds later is then emitted with the ready groups, before all groups that are buffered,
-- whatever its size and its score and however long the queue is.
pub seen_after-IsEmitted :
    (d now t : ℕ) (key : List ℕ) (first : List (List ℕ)) (cycles : List (ℕ × List (List ℕ)))
    → (seen : FirstSeen) (scored : List Scored) (item : Scored)
    → contains (seen_keys seen) key ≡ false
    → All (IsActive key) ((t, first) ∷ cycles)
    → t + 30 ≤ now
    → Mem item scored
    → item.key ≡ key
    → IsEmitted d now (seen_after ((t, first) ∷ cycles) seen) scored item
unfolding seen_after
seen_after-IsEmitted d now t key first cycles seen scored item fresh (h, a) late m same =
    let seen' = update_seen t first seen in
    let kept = seen_at_after now key cycles seen' a (seen_after_update t key first seen h) in
    let time = kept ∙ update_seen_new t now key first seen h fresh in
    ready_split d now (seen_after cycles seen') scored item m
      (ready_in_time d now t (seen_after cycles seen') item (rw same time) late)
