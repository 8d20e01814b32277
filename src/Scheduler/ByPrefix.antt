-- ===== src/Scheduler/ByPrefix.antt =====
-- `reorder_requests_by_prefix`: groups by the first block hash, the largest first.
use mathlib.Core.List.{Perm}
use mathlib.Core.List.Perm
use mathlib.Core.Option.{some_inj}
use peek.Prelude.{
  ℕ, ◌≤◌, ◌≡◌, ◌↔◌, List, ◌++◌, map, Option, none, some, Bool, true, false, not, arith, length, leb,
  inl, inr, if◌then◌else◌, all, nat_eq, option_eq, concat, length-perm, Bool-cases,
}
use peek.Prelude.Sort.{sort_by, le_key, ge_key, sort_by-perm}
use peek.Prelude.Group.{group_by, values}
use peek.Prelude.Partition.{IsRanked, IsRanked-perm, map-IsRanked}
use peek.Trie.Data.{is_nil}
use peek.Scheduler.Data.{VllmRequest, first_of}

abbrev pub first_hash : VllmRequest → Option ℕ
first_hash r = first_of r.block_hashes

abbrev pub has_hash : VllmRequest → Bool
has_hash r = not (is_nil r.block_hashes)

-- The members of a group by the number of their block hashes, the shortest first.
abbrev pub hash_count : VllmRequest → ℕ
hash_count r = length r.block_hashes

unfoldable pub shortest_first : List VllmRequest → List VllmRequest
unfolding sort_by
shortest_first grp = sort_by (le_key hash_count) grp

unfoldable pub order_groups : List VllmRequest → List VllmRequest
unfolding group_by sort_by shortest_first
order_groups new_requests =
    concat
      (map shortest_first (sort_by (ge_key length) (values (group_by first_hash new_requests))))

-- None where an IndexError is raised, for a request without block hashes.
unfoldable pub reorder_requests_by_prefix :
    List VllmRequest → List VllmRequest → Option (List VllmRequest)
unfolding order_groups
reorder_requests_by_prefix new_requests other_requests =
    if leb (length new_requests) 1
    then some (new_requests ++ other_requests)
    else if all has_hash new_requests
    then some (order_groups new_requests ++ other_requests)
    else none

pub shortest_first-perm : (g : List VllmRequest) → Perm (shortest_first g) g
unfolding shortest_first
shortest_first-perm g = sort_by-perm (le_key hash_count) g

order_groups-IsRanked : (rs : List VllmRequest) → IsRanked first_hash length rs (order_groups rs)
unfolding order_groups
order_groups-IsRanked rs =
    map-IsRanked (hlevel) first_hash length shortest_first shortest_first-perm
      (λ g. length-perm (shortest_first-perm g)) rs

-- `reorder_requests_by_prefix` fails exactly when there are two or more new requests and not all
-- of them have a block hash.
pub reorder_requests_by_prefix_fails :
    (new other : List VllmRequest)
    → (reorder_requests_by_prefix new other ≡ none)
      ↔ ((2 ≤ length new) × (all has_hash new ≡ false))
unfolding reorder_requests_by_prefix
reorder_requests_by_prefix_fails new other = ground arith

-- Whatever `reorder_requests_by_prefix` returns is a permutation of the new and the other
-- requests.
pub reorder_requests_by_prefix-perm :
    (new other : List VllmRequest) {out : List VllmRequest}
    → reorder_requests_by_prefix new other ≡ some out
    → Perm out (new ++ other)
unfolding reorder_requests_by_prefix
reorder_requests_by_prefix-perm new other h = elim (Bool-cases (leb (length new) 1)) [
  | inl short ↦ let e = some_inj.0 (rw short at h) in rw (← e) Perm.rfl
  | inr long ↦ elim (Bool-cases (all has_hash new)) [
    | inl hashed ↦
        let e = some_inj.0 (rw (long, hashed) at h) in
        rw (← e) (Perm.append_right other (IsRanked-perm (order_groups-IsRanked new)))
    | inr not_hashed ↦ absurd (let h' = rw (long, not_hashed) at h in cc)
  ]
]

-- Where there are two or more new requests and all have a block hash, the requests with the same
-- first hash form one group each, the larger groups stand first, and the other requests follow in
-- their order.
pub reorder_requests_by_prefix-IsRanked :
    (new other : List VllmRequest)
    → 2 ≤ length new
    → all has_hash new ≡ true
    → (out : List VllmRequest) × (reorder_requests_by_prefix new other ≡ some (out ++ other))
      × IsRanked first_hash length new out
unfolding reorder_requests_by_prefix
reorder_requests_by_prefix-IsRanked new other h a =
    (order_groups new, ground arith, order_groups-IsRanked new)
