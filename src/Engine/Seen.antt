-- ===== src/Engine/Seen.antt =====
-- The times of `_group_first_seen` over a series of cycles.

use peek.Prelude.{
  ℕ, ap, ◌≡◌, refl, ◌∙◌, sym, subst, inl, inr, List, [], ◌∷◌, ◌++◌, map, true, false, not, ◌||◌,
  select, All, Bool-cases, arith, tuple_eq, tuple_beq, tuple_beq_iff,
}
use peek.Prelude.Membership.{contains}
use peek.Prelude.Membership.{select_out}
use peek.Prelude.Dict.{contains-select_out}
use peek.Engine.Score.{FirstSeen, seen_at, seen_keys, update_seen}

-- The times, after cycles at these times with these active groups.
unfoldable pub seen_after : List (ℕ × List (List ℕ)) → FirstSeen → FirstSeen
unfolding update_seen
seen_after [] seen = seen
seen_after ((now, active) ∷ cycles) seen = seen_after cycles (update_seen now active seen)

abbrev pub IsActive : List ℕ → ℕ × List (List ℕ) → Type 0
IsActive key cycle = contains cycle.1 key ≡ true

seen_at_new :
    (now t : ℕ) (key : List ℕ) (active : List (List ℕ))
    → contains active key ≡ true
    → seen_at now (map (λ (k : List ℕ). (k, t)) active) key ≡ t
unfolding contains
seen_at_new now t key [] h = cc
seen_at_new now t key (k ∷ active) h = elim (Bool-cases (tuple_beq k key)) [
  | inl same ↦ rw same refl
  | inr other ↦ rw other (seen_at_new now t key active (rw other at h))
]

seen_at_front :
    (now : ℕ) (key : List ℕ) (xs ys : FirstSeen)
    → contains (seen_keys xs) key ≡ true
    → seen_at now (xs ++ ys) key ≡ seen_at now xs key
unfolding contains
seen_at_front now key [] ys h = cc
seen_at_front now key ((k, t) ∷ xs) ys h = elim (Bool-cases (tuple_beq k key)) [
  | inl same ↦ rw same refl
  | inr other ↦ rw other (seen_at_front now key xs ys (rw other at h))
]

seen_at_back :
    (now : ℕ) (key : List ℕ) (xs ys : FirstSeen)
    → contains (seen_keys xs) key ≡ false
    → seen_at now (xs ++ ys) key ≡ seen_at now ys key
unfolding contains
seen_at_back now key [] ys h = refl
seen_at_back now key ((k, t) ∷ xs) ys h = elim (Bool-cases (tuple_beq k key)) [
  | inl same ↦ let h' = rw same at h in cc
  | inr other ↦ rw other (seen_at_back now key xs ys (rw other at h))
]

-- What `update_seen` keeps of the times.
abbrev kept_seen : List (List ℕ) → FirstSeen → FirstSeen
kept_seen active seen = select (λ (e : List ℕ × ℕ). contains active e.0) seen

same_active :
    (k key : List ℕ) (active : List (List ℕ))
    → tuple_beq k key ≡ true
    → contains active key ≡ true
    → contains active k ≡ true
same_active k key active same h =
    subst (λ z. contains active z ≡ true) (sym ((tuple_beq_iff k key).0 same)) h

seen_at_kept :
    (now : ℕ) (key : List ℕ) (active : List (List ℕ)) (seen : FirstSeen)
    → contains active key ≡ true
    → seen_at now (kept_seen active seen) key ≡ seen_at now seen key
seen_at_kept now key active [] h = refl
seen_at_kept now key active ((k, t) ∷ seen) h = elim (Bool-cases (tuple_beq k key)) [
  | inl same ↦ rw (same_active k key active same h, same) refl
  | inr other ↦ elim (Bool-cases (contains active k)) [
    | inl kept ↦ rw (kept, other) (seen_at_kept now key active seen h)
    | inr dropped ↦ rw (dropped, other) (seen_at_kept now key active seen h)
  ]
]

contains_kept :
    (key : List ℕ) (active : List (List ℕ)) (seen : FirstSeen)
    → contains active key ≡ true
    → contains (seen_keys (kept_seen active seen)) key ≡ contains (seen_keys seen) key
unfolding contains
contains_kept key active [] h = refl
contains_kept key active ((k, t) ∷ seen) h = elim (Bool-cases (tuple_beq k key)) [
  | inl same ↦ rw (same_active k key active same h, same) refl
  | inr other ↦ elim (Bool-cases (contains active k)) [
    | inl kept ↦ rw (kept, other) (contains_kept key active seen h)
    | inr dropped ↦ rw (dropped, other) (contains_kept key active seen h)
  ]
]

-- An active group that was seen keeps its time.
update_seen_old :
    (now later : ℕ) (key : List ℕ) (active : List (List ℕ)) (seen : FirstSeen)
    → contains active key ≡ true
    → contains (seen_keys seen) key ≡ true
    → seen_at later (update_seen now active seen) key ≡ seen_at later seen key
unfolding update_seen
update_seen_old now later key active seen h old =
    let there = contains_kept key active seen h ∙ old in
    seen_at_front later key (kept_seen active seen) _ there ∙ seen_at_kept later key active seen h

-- An active group that was not seen is given the time of the cycle.
pub update_seen_new :
    (now later : ℕ) (key : List ℕ) (active : List (List ℕ)) (seen : FirstSeen)
    → contains active key ≡ true
    → contains (seen_keys seen) key ≡ false
    → seen_at later (update_seen now active seen) key ≡ now
unfolding update_seen
update_seen_new now later key active seen h fresh =
    let there = contains_kept key active seen h ∙ fresh in
    seen_at_back later key (kept_seen active seen) _ there
    ∙ seen_at_new later now key (select (λ k. not (contains (seen_keys seen) k)) active)
        (rw (contains-select_out (seen_keys seen) active key, h, fresh) refl)

contains_seen_append :
    (key : List ℕ) (xs ys : FirstSeen)
    → contains (seen_keys (xs ++ ys)) key
      ≡ (contains (seen_keys xs) key || contains (seen_keys ys) key)
unfolding contains
contains_seen_append key [] ys = refl
contains_seen_append key ((k, t) ∷ xs) ys = elim (Bool-cases (tuple_beq k key)) [
  | inl same ↦ rw same refl
  | inr other ↦ rw other (contains_seen_append key xs ys)
]

seen_keys_new : (now : ℕ) (ks : List (List ℕ)) → seen_keys (map (λ (k : List ℕ). (k, now)) ks) ≡ ks
seen_keys_new now [] = refl
seen_keys_new now (k ∷ ks) = ap (◌∷◌ k) (seen_keys_new now ks)

-- After a cycle every active group has a time.
pub seen_after_update :
    (now : ℕ) (key : List ℕ) (active : List (List ℕ)) (seen : FirstSeen)
    → contains active key ≡ true
    → contains (seen_keys (update_seen now active seen)) key ≡ true
unfolding update_seen
seen_after_update now key active seen h =
    rw
      (
        contains_seen_append key (kept_seen active seen),
        contains_kept key active seen h,
        seen_keys_new now (select_out (seen_keys seen) active),
        contains-select_out (seen_keys seen) active key,
        h,
      )
      (ground (arith))

-- A group that is active in every cycle keeps the time of its first.
pub seen_at_after :
    (later : ℕ) (key : List ℕ) (cycles : List (ℕ × List (List ℕ))) (seen : FirstSeen)
    → All (IsActive key) cycles
    → contains (seen_keys seen) key ≡ true
    → seen_at later (seen_after cycles seen) key ≡ seen_at later seen key
unfolding seen_after
seen_at_after later key [] seen a old = refl
seen_at_after later key ((now, active) ∷ cycles) seen (h, a) old =
    seen_at_after later key cycles (update_seen now active seen) a
      (seen_after_update now key active seen h)
    ∙ update_seen_old now later key active seen h old
