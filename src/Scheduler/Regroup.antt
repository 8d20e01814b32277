-- ===== src/Scheduler/Regroup.antt =====
-- `_fast_prefix_group_reorder` and `sglang_post_match_reorder`: the queue by groups, the highest
-- ranked group first.

use peek.Prelude.{
  ℕ, ◌≤◌, ◌≡◌, arith, List, [], map, false, length, take, leb, sum, if◌then◌else◌, select, nat_eq,
  tuple_eq, tuple_beq, concat,
}
use peek.Prelude.Sort.{sort_by, ge_key, sort_by-perm}
use peek.Prelude.Group.{group_by, values}
use peek.Prelude.Partition.{IsRanked, group_by-IsRanked}
use peek.Prelude.Regroup.{select-group_by}
use peek.Trie.Data.{is_nil}
use peek.Scheduler.Data.{SglangRequest, ids_or_empty}

-- `tuple(ids[:key_len])`, the whole if there are fewer, and `()` where there are no token ids.
abbrev pub prefix_key : ℕ → SglangRequest → List ℕ
prefix_key key_len r =
    let ids = ids_or_empty r.origin_input_ids in
    if leb key_len (length ids) then take key_len ids else if is_nil ids then [] else ids

unfoldable pub fast_prefix_group_reorder : ℕ → List SglangRequest → List SglangRequest
unfolding group_by sort_by
fast_prefix_group_reorder key_len waiting_queue =
    concat (sort_by (ge_key length) (values (group_by (prefix_key key_len) waiting_queue)))

abbrev pub node_of : SglangRequest → ℕ
node_of r = r.last_node

-- `sum(cl for cl, _ in members)`
abbrev pub total_cached : List SglangRequest → ℕ
total_cached members = sum (map (λ r. length r.prefix_indices) members)

unfoldable pub sglang_post_match_reorder : List SglangRequest → List SglangRequest
unfolding group_by sort_by
sglang_post_match_reorder waiting_queue =
    if leb (length waiting_queue) 1
    then waiting_queue
    else concat (sort_by (ge_key total_cached) (values (group_by node_of waiting_queue)))

-- `_fast_prefix_group_reorder` puts the requests that share the first `n` tokens into one group
-- each, without loss, and the larger groups first.
pub fast_prefix_group_reorder-IsRanked :
    (n : ℕ) (q : List SglangRequest)
    → IsRanked (prefix_key n) length q (fast_prefix_group_reorder n q)
unfolding fast_prefix_group_reorder
fast_prefix_group_reorder-IsRanked n q = group_by-IsRanked (hlevel) (prefix_key n) length q

-- The requests of one prefix keep their order of arrival in `_fast_prefix_group_reorder`.
pub select-fast_prefix_group_reorder :
    (n : ℕ) (q : List SglangRequest) (prefix : List ℕ)
    → select (λ r. tuple_beq (prefix_key n r) prefix) (fast_prefix_group_reorder n q)
      ≡ select (λ r. tuple_beq (prefix_key n r) prefix) q
unfolding fast_prefix_group_reorder
select-fast_prefix_group_reorder n q prefix =
    select-group_by (prefix_key n) (hlevel) (hlevel) prefix q (sort_by-perm (ge_key length) _)

-- `sglang_post_match_reorder` of two or more requests puts those with one matched node into one
-- group each, without loss, and the groups with the most cached tokens first.
pub sglang_post_match_reorder-IsRanked :
    (q : List SglangRequest)
    → 2 ≤ length q
    → IsRanked node_of total_cached q (sglang_post_match_reorder q)
unfolding sglang_post_match_reorder
sglang_post_match_reorder-IsRanked q h =
    rw (longer q h) (group_by-IsRanked (hlevel) node_of total_cached q)
  where
    longer : (xs : List SglangRequest) → 2 ≤ length xs → leb (length xs) 1 ≡ false
    longer xs h' = ground arith
