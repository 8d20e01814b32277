-- ===== src/Engine/Score.antt =====
-- `_group_requests`, `_match_and_score_groups` and `_reorder_by_score`. Times are milliseconds.
use peek.Prelude.{
  ℕ, ◌+◌, ◌-◌, ◌*◌, List, [], ◌∷◌, ◌++◌, map, Bool, not, ◌||◌, length, take, concat, select,
  if◌then◌else◌, ltb, leb, max, tuple_eq, tuple_beq,
}
use peek.Prelude.Sort.{sort_by}
use peek.Prelude.Group.{group_by}
use peek.Prelude.Membership.{contains}
use peek.Trie.Data.{is_nil}
use peek.Scheduler.Data.{VllmRequest}
use peek.Scheduler.ByPrefix.{shortest_first}
use peek.Scheduler.Cached.{vllm_cached_prefix_length}

-- `_KEY_LEN` and `_BATCH_EST`
abbrev pub key_len : ℕ
key_len = 8

abbrev pub batch_est : ℕ
batch_est = 32

-- `tuple(bh[:kl]) if len(bh) >= kl else tuple(bh)`
abbrev pub group_key : VllmRequest → List ℕ
group_key r =
    if leb key_len (length r.block_hashes) then take key_len r.block_hashes else r.block_hashes

unfoldable pub group_requests : List VllmRequest → List (List ℕ × List VllmRequest)
unfolding group_by
group_requests new_reqs = group_by group_key new_reqs

-- A score, gain / den - loss / den, with what is scored: 1e4 * cached / total - future_refs +
-- 1e-3 * size, over the denominator 1000 * total.
pub record Scored : Type 0 where
  pub gain : ℕ
  pub loss : ℕ
  pub den : ℕ
  pub key : List ℕ
  pub members : List VllmRequest
  pub cached_blocks : ℕ

abbrev pub rep_hashes : List VllmRequest → List ℕ
rep_hashes [] = []
rep_hashes (r ∷ rs) = r.block_hashes

-- vLLM's `get_cached_block` is a parameter.
module _ (get_cached_block : ℕ → List ℕ) where
  unfoldable pub score_group : List ℕ × List VllmRequest → Scored
  unfolding vllm_cached_prefix_length
  score_group (key, members) =
      let cached = vllm_cached_prefix_length get_cached_block (rep_hashes members) in
      let total = max (length (rep_hashes members)) 1 in
      let group_size = length members in
      record {
        gain = cached * 10000000 + group_size * total;
        loss = (group_size - batch_est) * 1000 * total;
        den = 1000 * total;
        key = key;
        members = members;
        cached_blocks = cached;
      }

-- The score of the first is not lower.
abbrev pub ge_score : Scored → Scored → Bool
ge_score a b = leb (b.gain * a.den + a.loss * b.den) (a.gain * b.den + b.loss * a.den)

-- The thresholds on the size and the age of a group.
abbrev pub size_threshold : ℕ → ℕ
size_threshold queue_depth = if ltb queue_depth 8 then 1 else if leb queue_depth 32 then 2 else 4

abbrev pub max_wait : ℕ → ℕ
max_wait queue_depth = if ltb queue_depth 8 then 0 else if leb queue_depth 32 then 10 else 30

-- `_group_first_seen`
abbrev pub FirstSeen : Type 0
FirstSeen = List (List ℕ × ℕ)

abbrev pub seen_at : ℕ → FirstSeen → List ℕ → ℕ
seen_at now [] key = now
seen_at now ((k, t) ∷ seen) key = if tuple_beq k key then t else seen_at now seen key

abbrev pub seen_keys : FirstSeen → List (List ℕ)
seen_keys [] = []
seen_keys ((k, t) ∷ seen) = k ∷ seen_keys seen

-- Groups that are no longer queued are dropped, and new ones are added.
unfoldable pub update_seen : ℕ → List (List ℕ) → FirstSeen → FirstSeen
unfolding contains
update_seen now active seen =
    select (λ (e : List ℕ × ℕ). contains active e.0) seen
    ++ map (λ (k : List ℕ). (k, now)) (select (λ k. not (contains (seen_keys seen) k)) active)

abbrev pub is_ready : ℕ → ℕ → FirstSeen → Scored → Bool
is_ready queue_depth now seen item =
    leb (size_threshold queue_depth) (length item.members)
    || leb (max_wait queue_depth) (now - seen_at now seen item.key)

-- If nothing is ready, the buffered group with the highest score is promoted.
abbrev pub promote : List Scored → List Scored → List Scored × List Scored
promote [] [] = ([], [])
promote [] (b ∷ buffering) = (b ∷ [], buffering)
promote (r ∷ ready) buffering = (r ∷ ready, buffering)

abbrev pub emit : List Scored → List VllmRequest
emit items = concat (map (λ (item : Scored). shortest_first item.members) items)

unfoldable pub reorder_by_score : ℕ → ℕ → FirstSeen → List Scored → List VllmRequest
unfolding sort_by shortest_first
reorder_by_score queue_depth now seen scored =
    let ready = select (is_ready queue_depth now seen) scored in
    let buffering = select (λ item. not (is_ready queue_depth now seen item)) scored in
    let split = promote ready (if is_nil ready then sort_by ge_score buffering else buffering) in
    emit (sort_by ge_score split.0) ++ emit (sort_by ge_score split.1)
