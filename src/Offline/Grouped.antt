-- ===== src/Offline/Grouped.antt =====
-- python/peek/offline/engine.py: which requests `_run_tagged` leaves in the waiting queue, and
-- in which order.
use mathlib.Core.List.{Perm, map-append}
use mathlib.Core.List.Perm
use peek.Prelude.{
  ℕ, suc, ◌<◌, ◌≡◌, refl, ap, inl, inr, List, [], ◌∷◌, ◌++◌, Option, none, some, Bool, false, map,
  if◌then◌else◌, Bool-cases, length, concat, select, not, All, arith,
}
use peek.Prelude.Int.{ℤ, ltb_ℤ, int_eq, ℤ-IsSet}
use peek.Prelude.Group.{add_to, group_into, group_by, values}
use peek.Prelude.Partition.{IsPartition, IsPartition-perm, group_by-IsPartition}
use peek.Prelude.Sort.{sort_by, sort_by-perm, sort_by-IsSorted, IsSorted, IsOrder}
use peek.Prelude.Lex.{leb_fraction, lex-IsOrder, leb_fraction-IsOrder}
use peek.Offline.Requests.{Request, Match, TreeCache, Tagged}
use peek.Offline.Tags.{is_tagged, parse_peek_rid}
use peek.Offline.Tagged.{
  add_tagged, collect_one, collect, Stat, match_groups, score, goes_first, queue_of, Outcome,
  conclude, run_tagged,
}

abbrev pub has_tagged_rid : Option (List ℕ) → Bool
has_tagged_rid none = false
has_tagged_rid (some rid) = is_tagged rid

abbrev pub has_tag : Request → Bool
has_tag r = has_tagged_rid r.rid

-- Every group has a first member.
abbrev Occupied : List (ℤ × List Tagged) → Type 0
Occupied = All (λ g. 0 < length g.1)

add_to-Occupied :
    (k : ℤ) (t : Tagged) (gs : List (ℤ × List Tagged)) → Occupied gs → Occupied (add_to k t gs)
unfolding add_to
add_to-Occupied k t [] h = (omega arith, tt)
add_to-Occupied k t ((j, ts) ∷ gs) h = elim (Bool-cases (int_eq.beq j k)) [
  | inl same ↦ rw same (grown ts, h.1)
  | inr other ↦ rw other (h.0, add_to-Occupied k t gs h.1)
]
  where
    grown : (us : List Tagged) → 0 < length (us ++ t ∷ [])
    grown [] = omega arith
    grown (u ∷ us) = omega arith

group_into-Occupied :
    (key : Tagged → ℤ) (gs : List (ℤ × List Tagged)) (ts : List Tagged)
    → Occupied gs
    → Occupied (group_into key gs ts)
unfolding group_into
group_into-Occupied key gs [] h = h
group_into-Occupied key gs (t ∷ ts) h =
    group_into-Occupied key (add_to (key t) t gs) ts (add_to-Occupied (key t) t gs h)

module _ {C N : Type 0} (tc : TreeCache C N) (monotonic : ℕ → ℕ) where
  match_groups_total :
      (i : ℕ) (gs : List (ℤ × List Tagged)) (c : C)
      → Occupied gs
      → (c' : C) × (stats : List (Stat tc)) × (match_groups tc monotonic i gs c ≡ some (c', stats))
        × (map (λ s. s.members) stats ≡ values gs)
  unfolding match_groups
  match_groups_total i [] c h = (c, [], refl, refl)
  match_groups_total i ((k, []) ∷ gs) c h = absurd (omega arith)
  match_groups_total i ((k, rep ∷ ts) ∷ gs) c h =
      let r = rep.request in
      let (c', m) = tc.match_prefix (r.origin_input_ids ++ r.output_ids) r.extra_key c in
      let (d, stats, e, p) = match_groups_total (suc i) gs c' h.1 in
      rw e (_, _, refl, ap (λ ms. (rep ∷ ts) ∷ ms) p)

module _ {C N : Type 0} {tc : TreeCache C N} (now : ℕ) (pending : List (ℤ × ℕ)) where
  goes_first-IsOrder : IsOrder (goes_first {tc = tc} now pending)
  goes_first-IsOrder =
      lex-IsOrder by_score by_rank
        (record {
          trans = λ a b c p q. leb_fraction-IsOrder.trans _ _ _ q p;
          total = λ a b p. leb_fraction-IsOrder.total _ _ p;
        })
        (record { trans = λ a b c p q. ground (arith, p, q); total = λ a b p. ground (arith, p) })
    where
      by_score : Stat tc → Stat tc → Bool
      by_score a b = leb_fraction (score now pending b) (score now pending a)

      by_rank : Stat tc → Stat tc → Bool
      by_rank a b = not (ltb_ℤ b.dfs_rank a.dfs_rank)

add_tagged-requests :
    (r : Request) (tag : Option (ℤ × ℤ × List ℕ)) (rest : Option (List Tagged))
    (chosen : List Request)
    → ((us : List Tagged) → rest ≡ some us → map (λ t. t.request) us ≡ chosen)
    → (ts : List Tagged) → add_tagged r tag rest ≡ some ts
    → map (λ t. t.request) ts ≡ r ∷ chosen
add_tagged-requests r none rest chosen h ts e = cc
add_tagged-requests r (some tag) none chosen h ts e = cc
add_tagged-requests r (some tag) (some us) chosen h [] e = cc
add_tagged-requests r (some tag) (some us) chosen h (t ∷ ts) e = let q = h us refl in cc

collect_one-select :
    (rid : Option (List ℕ)) (r : Request) (rest : Option (List Tagged)) (chosen : List Request)
    → ((us : List Tagged) → rest ≡ some us → map (λ t. t.request) us ≡ chosen)
    → (ts : List Tagged) → collect_one rid r rest ≡ some ts
    → map (λ t. t.request) ts ≡ (if has_tagged_rid rid then r ∷ chosen else chosen)
collect_one-select none r rest chosen h ts e = h ts e
collect_one-select (some rid) r rest chosen h ts e =
    ground (arith, h ts, add_tagged-requests r (parse_peek_rid rid) rest chosen h ts, e)

-- What is read of the queue is what has a tag.
collect-select :
    (rs : List Request) (ts : List Tagged)
    → collect rs ≡ some ts
    → map (λ t. t.request) ts ≡ select has_tag rs
unfolding collect
collect-select [] ts e = cc
collect-select (r ∷ rs) ts e = collect_one-select r.rid r (collect rs) _ (collect-select rs) ts e

module _ {C N : Type 0} {tc : TreeCache C N} where
  queue_of-requests :
      (stats : List (Stat tc))
      → map (λ x. x.0) (queue_of stats) ≡ map (λ t. t.request) (concat (map (λ s. s.members) stats))
  queue_of-requests [] = refl
  queue_of-requests (s ∷ ss) =
      rw
        (
          map-append (λ x. x.0) (served s.members) (queue_of ss),
          map-append (λ t. t.request) s.members (concat (map (λ s. s.members) ss)),
          queue_of-requests ss,
          first s.members,
        )
        refl
    where
      served : List Tagged → List (Request × Match N)
      served ts = map (λ t. (t.request, s.matched)) ts

      first : (ts : List Tagged) → map (λ x. x.0) (served ts) ≡ map (λ t. t.request) ts
      first [] = refl
      first (t ∷ ts) = ap (λ rs. t.request ∷ rs) (first ts)

-- The tagged requests `ts` of a waiting queue, served: one group for each key, the groups by
-- their scores and their ranks, and in the queue the requests of the groups one after the other.
pub record IsServed {C N : Type 0} {tc : TreeCache C N} (now : ℕ) (pending : List (ℤ × ℕ))
    (ts : List Tagged) (o : Outcome tc) : Type 0 where
  pub parts : IsPartition (λ t. t.key) ts (map (λ s. s.members) o.scored)
  pub order : IsSorted (goes_first now pending) o.scored
  pub queue :
      map (λ x. x.0) o.waiting_queue ≡ map (λ t. t.request) (concat (map (λ s. s.members) o.scored))

module _ {C N : Type 0} (tc : TreeCache C N) (monotonic : ℕ → ℕ) (now : ℕ)
    (pending : List (ℤ × ℕ)) where
  conclude-IsServed :
      (ts : List Tagged) (c : C) (stats : List (Stat tc))
      → map (λ s. s.members) stats ≡ values (group_by (λ t. t.key) ts)
      → IsServed now pending ts (conclude tc monotonic now pending c stats)
  conclude-IsServed ts c stats e = record {
    parts =
        IsPartition-perm (λ t. t.key)
          (Perm.symm (Perm.map (λ s. s.members) (sort_by-perm (goes_first now pending) stats)))
          (rw e (group_by-IsPartition ℤ-IsSet (λ t. t.key) ts));
    order = sort_by-IsSorted _ (goes_first-IsOrder now pending) stats;
    queue = queue_of-requests {tc = tc} (sort_by (goes_first now pending) stats);
  }

  pub run_tagged-IsServed :
      (rs : List Request) (c : C) (ts : List Tagged)
      → collect rs ≡ some ts
      → (o : Outcome tc) × (run_tagged tc monotonic now pending rs c ≡ some o)
        × IsServed now pending ts o
        × Perm (map (λ x. x.0) o.waiting_queue) (select has_tag rs)
  unfolding run_tagged group_by
  run_tagged-IsServed rs c ts e =
      let (c', stats, found, p) =
        match_groups_total tc monotonic 0 (group_by (λ t. t.key) ts) c
          (group_into-Occupied _ [] ts tt) in
      let served = conclude-IsServed ts c' stats p in
      rw (e, found)
        (
          _,
          refl,
          served,
          rw (served.queue, ← collect-select rs ts e)
              (Perm.map (λ t. t.request) served.parts.whole),
        )
