-- ===== src/Reorder/Dispatcher.antt =====
-- `PeekDispatcher`: its `submit` and `remove`.
use peek.Prelude.{
  ℕ, suc, ◌+◌, ◌-◌, List, [], ◌∷◌, ◌++◌, Option, none, some, Bool, true, false, not, ◌&&◌, ◌||◌,
  take, if◌then◌else◌, leb, tuple_beq, tuple_eq, ◌>>=◌,
}
use peek.Prelude.Dict.{put}
use peek.Prelude.Sort.{sort_by, ge_key}
use peek.Trie.Data.{PrefixTrie, new_trie}
use peek.Trie.Update.{insert, remove}
use peek.Trie.Traverse.{dfs_group_keys}
use peek.Reorder.Defs.{count_up}

-- A dictionary from group keys to numbers.
abbrev pub Counts : Type 0
Counts = List (List ℕ × ℕ)

-- `key in counts`, `counts.get(key, 0)` and `counts[key]`
abbrev pub has_key : List ℕ → Counts → Bool
has_key key [] = false
has_key key ((k, n) ∷ cs) = if tuple_beq k key then true else has_key key cs

abbrev pub count_of : List ℕ → Counts → ℕ
count_of key [] = 0
count_of key ((k, n) ∷ cs) = if tuple_beq k key then n else count_of key cs

abbrev pub lookup : List ℕ → Counts → Option ℕ
lookup key [] = none
lookup key ((k, n) ∷ cs) = if tuple_beq k key then some n else lookup key cs

-- `counts[key] -= 1`, and `del counts[key]` where the count is not positive then.
unfoldable pub count_down : List ℕ → Counts → Counts
count_down key [] = []
count_down key ((k, n) ∷ cs) =
    if tuple_beq k key then if leb n 1 then cs else (k, n - 1) ∷ cs else (k, n) ∷ count_down key cs

-- `hashes.pop(key, None)`
abbrev pub pop : List ℕ → Counts → Counts
pop key [] = []
pop key ((k, h) ∷ cs) = if tuple_beq k key then cs else (k, h) ∷ pop key cs

pub record Dispatcher : Type 0 where
  pub max_depth : ℕ
  pub trie : PrefixTrie
  pub next_idx : ℕ
  pub group_count : Counts
  pub group_hashes : Counts
  pub dfs_keys : List (List ℕ)
  pub structure_dirty : Bool
  pub rid_to_remove_info : List (List ℕ × (List ℕ × ℕ))
  pub client_pending : List (ℕ × ℕ)

abbrev pub new_dispatcher : ℕ → Dispatcher
new_dispatcher max_depth = record {
  max_depth = max_depth;
  trie = new_trie max_depth;
  next_idx = 0;
  group_count = [];
  group_hashes = [];
  dfs_keys = [];
  structure_dirty = false;
  rid_to_remove_info = [];
  client_pending = [];
}

-- What is sent: the rank and the hash of the group that the request is tagged with, and its id.
pub record Sent : Type 0 where
  pub rank : ℕ
  pub group_key : ℕ
  pub rid : List ℕ

-- `{gk: i for i, gk in enumerate(ranked)}.get(key, 0)`
abbrev pub rank_from : ℕ → ℕ → List ℕ → List (List ℕ) → ℕ
rank_from found i key [] = found
rank_from found i key (k ∷ ks) = rank_from (if tuple_beq k key then i else found) (suc i) key ks

-- `{group_hashes[key]: count for key, count in group_count.items()}`, later entries counting more;
-- none where a KeyError is raised.
unfoldable pub pending_counts : Counts → Counts → Option (List (ℕ × ℕ))
pending_counts hashes [] = some []
pending_counts hashes ((k, n) ∷ cs) = do
  h ← lookup k hashes
  rest ← pending_counts hashes cs
  some ((h, n) ∷ rest)

unfoldable pub push_pending : Dispatcher → Option Dispatcher
unfolding pending_counts
push_pending d = do
  pending ← pending_counts d.group_hashes d.group_count
  some (record d { client_pending = pending })

-- The place of a key among the groups, those with the most pending prompts first.
unfoldable pub rank_of : List ℕ → Dispatcher → ℕ
unfolding sort_by
rank_of key d = rank_from 0 0 key (sort_by (ge_key (λ gk. count_of gk d.group_count)) d.dfs_keys)

-- The state after the trie, the counts and the order of the groups are up to date. `hash` is
-- Python's hash of a tuple, cut off at 32 bits.
module _ (hash : List ℕ → ℕ) where
  unfoldable pub enrol : List ℕ → List ℕ → Dispatcher → Dispatcher
  unfolding put insert count_up dfs_group_keys
  enrol token_ids rid d =
      let key = take d.max_depth token_ids in
      let trie = insert token_ids d.next_idx d.trie in
      let stale = not (has_key key d.group_count) || d.structure_dirty in
      record {
        max_depth = d.max_depth;
        trie = trie;
        next_idx = d.next_idx + 1;
        group_count = count_up key d.group_count;
        group_hashes =
            if has_key key d.group_hashes
            then d.group_hashes
            else d.group_hashes ++ (key, hash key) ∷ [];
        dfs_keys = if stale then dfs_group_keys true trie else d.dfs_keys;
        structure_dirty = if stale then false else d.structure_dirty;
        rid_to_remove_info = put rid (token_ids, d.next_idx) d.rid_to_remove_info;
        client_pending = d.client_pending;
      }

  unfoldable pub submit : List ℕ → List ℕ → Dispatcher → Option (Dispatcher × Sent)
  unfolding enrol push_pending rank_of
  submit token_ids rid d =
      let key = take d.max_depth token_ids in
      let d' = enrol token_ids rid d in
      do
        h ← lookup key d'.group_hashes
        pushed ← push_pending d'
        some (pushed, record { rank = rank_of key d'; group_key = h; rid = rid })

unfoldable pub withdraw : List ℕ → ℕ → Dispatcher → Dispatcher
unfolding remove count_down
withdraw token_ids prompt_index d =
    let key = take d.max_depth token_ids in
    let counts = count_down key d.group_count in
    let gone = has_key key d.group_count && leb (count_of key d.group_count) 1 in
    record d {
      trie = (remove token_ids prompt_index d.trie).0;
      group_count = counts;
      group_hashes = if gone then pop key d.group_hashes else d.group_hashes;
      structure_dirty = if gone then true else d.structure_dirty;
    }

unfoldable pub remove_prompt : List ℕ → ℕ → Dispatcher → Option Dispatcher
unfolding withdraw push_pending
remove_prompt token_ids prompt_index d = push_pending (withdraw token_ids prompt_index d)
