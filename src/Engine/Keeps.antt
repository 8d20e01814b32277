-- ===== src/Engine/Keeps.antt =====
-- A cycle of the engine loses no request, and keeps the requests of a group together.
use mathlib.Core.List.{Perm, map-append, map-map}
use mathlib.Core.List.Perm
use peek.Prelude.{
  ℕ, ◌≡◌, ◌⊎◌, refl, ap, inl, inr, List, [], ◌∷◌, ◌++◌, map, Bool, true, false, not, length, concat,
  concat-append, select, select-append-perm, if◌then◌else◌, leb, nat_eq, tuple_eq, Bool-cases,
}
use peek.Prelude.Sort.{sort_by, sort_by-perm}
use peek.Prelude.Group.{values}
use peek.Prelude.Partition.{IsPartition, IsPartition-perm, IsPartition-map, group_by-IsPartition}
use peek.Trie.Data.{is_nil}
use peek.Scheduler.Data.{VllmRequest}
use peek.Scheduler.Detect.{detect_sharing}
use peek.Scheduler.GroupSchedule.{first_hashes}
use peek.Scheduler.ByPrefix.{shortest_first, shortest_first-perm}
use peek.Engine.Score.{
  Scored, FirstSeen, group_key, group_requests, score_group, ge_score, is_ready, promote,
  reorder_by_score,
}
use peek.Engine.Cycle.{Engine, is_new, run}

abbrev members_of : Scored → List VllmRequest
members_of s = s.members

promote-perm :
    (ready buffering : List Scored)
    → Perm ((promote ready buffering).0 ++ (promote ready buffering).1) (ready ++ buffering)
promote-perm [] [] = Perm.rfl
promote-perm [] (b ∷ buffering) = Perm.rfl
promote-perm (r ∷ ready) buffering = Perm.rfl

-- The groups as they are emitted, the ready ones before the buffered ones.
unfoldable emitted : ℕ → ℕ → FirstSeen → List Scored → List Scored
unfolding sort_by
emitted queue_depth now seen scored =
    let ready = select (is_ready queue_depth now seen) scored in
    let buffering = select (λ item. not (is_ready queue_depth now seen item)) scored in
    let split = promote ready (if is_nil ready then sort_by ge_score buffering else buffering) in
    sort_by ge_score split.0 ++ sort_by ge_score split.1

maybe_sorted : (b : Bool) (xs : List Scored) → Perm (if b then sort_by ge_score xs else xs) xs
maybe_sorted true xs = sort_by-perm ge_score xs
maybe_sorted false xs = Perm.rfl

sorted_pair : (xs ys : List Scored) → Perm (sort_by ge_score xs ++ sort_by ge_score ys) (xs ++ ys)
sorted_pair xs ys = Perm.append (sort_by-perm ge_score xs) (sort_by-perm ge_score ys)

emitted-perm :
    (d now : ℕ) (seen : FirstSeen) (scored : List Scored) → Perm (emitted d now seen scored) scored
unfolding emitted
emitted-perm d now seen scored =
    let ready = select (is_ready d now seen) scored in
    let buffering = select (λ item. not (is_ready d now seen item)) scored in
    let split = promote ready (if is_nil ready then sort_by ge_score buffering else buffering) in
    Perm.trans (sorted_pair split.0 split.1) (
      Perm.trans
        (promote-perm ready (if is_nil ready then sort_by ge_score buffering else buffering))
        (Perm.trans (Perm.append_left ready (maybe_sorted (is_nil ready) buffering))
          (select-append-perm (is_ready d now seen) scored)))

reorder-emitted :
    (d now : ℕ) (seen : FirstSeen) (scored : List Scored)
    → reorder_by_score d now seen scored
      ≡ concat (map shortest_first (map members_of (emitted d now seen scored)))
unfolding reorder_by_score emitted
reorder-emitted d now seen scored =
    rw (map-map shortest_first members_of, map-append, concat-append) refl

members-score_group :
    (get : ℕ → List ℕ) (gs : List (List ℕ × List VllmRequest))
    → map members_of (map (score_group get) gs) ≡ values gs
unfolding score_group
members-score_group get [] = refl
members-score_group get ((k, g) ∷ gs) = ap (◌∷◌ g) (members-score_group get gs)

-- What a cycle makes of the queue: the new requests by groups, then the others in their order.
pub record IsCycle (waiting out : List VllmRequest) : Type 0 where
  pub groups : List (List VllmRequest)
  pub split : out ≡ concat groups ++ select (λ r. not (is_new r)) waiting
  pub parts : IsPartition group_key (select is_new waiting) groups

reordered-IsCycle :
    (get : ℕ → List ℕ) (d now : ℕ) (seen : FirstSeen) (waiting : List VllmRequest)
    → IsCycle waiting (
        reorder_by_score d now seen (map (score_group get) (group_requests (select is_new waiting)))
        ++ select (λ r. not (is_new r)) waiting)
unfolding group_requests
reordered-IsCycle get d now seen waiting =
    let scored = map (score_group get) (group_requests (select is_new waiting)) in
    record {
      groups = map shortest_first (map members_of (emitted d now seen scored));
      split =
          ap (λ xs. xs ++ select (λ r. not (is_new r)) waiting) (reorder-emitted d now seen scored);
      parts = IsPartition-map group_key (hlevel) shortest_first shortest_first-perm (
          IsPartition-perm group_key
            (Perm.symm (Perm.map members_of (emitted-perm d now seen scored)))
            (rw (members-score_group get (group_requests (select is_new waiting)))
              (group_by-IsPartition (hlevel) group_key (select is_new waiting))));
    }

-- A cycle of the engine leaves the queue as it is, or puts the new requests first, those with the
-- same first eight block hashes in one group each, and the others after them in their order.
pub run-IsCycle :
    (get : ℕ → List ℕ) (now later : ℕ) (e : Engine) (waiting : List VllmRequest)
    → ((run get now later e waiting).1 ≡ waiting) ⊎ IsCycle waiting (run get now later e waiting).1
unfolding run
run-IsCycle get now later e waiting = elim (Bool-cases (leb (length (select is_new waiting)) 1)) [
  | inl few ↦ inl (rw few refl)
  | inr many ↦ elim (Bool-cases (detect_sharing (first_hashes (select is_new waiting)))) [
    | inr apart ↦ inl (rw (many, apart) refl)
    | inl shared ↦ inr (rw (many, shared) (reordered-IsCycle get (length waiting) now _ waiting))
  ]
]

-- A cycle of the engine leaves a permutation of the waiting queue.
pub run-perm :
    (get : ℕ → List ℕ) (now later : ℕ) (e : Engine) (waiting : List VllmRequest)
    → Perm (run get now later e waiting).1 waiting
run-perm get now later e waiting = elim (run-IsCycle get now later e waiting) [
  | inl same ↦ rw same Perm.rfl
  | inr cycle ↦
      rw cycle.split
        (Perm.trans (Perm.append_right _ cycle.parts.whole) (select-append-perm is_new waiting))
]
