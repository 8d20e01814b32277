-- ===== src/Trie/Traverse.antt =====
-- The traversals of `PrefixTrie`: each is a loop over an explicit stack. The fuel is the number of
-- nodes, each of which is popped at most once.
use peek.Prelude.{
  ℕ, suc, ◌+◌, ◌*◌, List, [], ◌∷◌, ◌++◌, map, reverse, Bool, ◌&&◌, length, if◌then◌else◌, ltb, leb,
  ◌==◌,
}
use peek.Prelude.Sort.{sort_by, le_key}
use peek.Prelude.Worklist.{traverse}
use peek.Trie.Data.{Children, leaf, entry, TrieNode, PrefixTrie, items, nodes, node_count, is_nil}

abbrev pub node_size : TrieNode → ℕ
node_size node = suc (node_count node.children)

-- `children.sort(key=count)` if it is wanted and there is more than one, else `children.reverse()`.
unfoldable pub to_push {ℓ} : {A : Type ℓ} → (A → ℕ) → Bool → List A → List A
to_push count count_aware children =
    if count_aware && ltb 1 (length children)
    then sort_by (le_key count) children
    else reverse children

-- What is pushed last is popped first.
abbrev pub dfs_expand : Bool → TrieNode → List TrieNode
dfs_expand count_aware node = reverse (to_push (λ c. c.count) count_aware (nodes node.children))

unfoldable pub dfs : Bool → TrieNode → List ℕ
unfolding traverse to_push sort_by
dfs count_aware node =
    traverse (dfs_expand count_aware) (λ order n. order ++ n.prompt_indices) (node_size node)
      (node ∷ []) []

unfoldable pub dfs_order : Bool → PrefixTrie → List ℕ
unfolding dfs
dfs_order count_aware trie = dfs count_aware trie.root

-- A node with the path that leads to it.
abbrev pub Place : Type 0
Place = TrieNode × List ℕ

abbrev pub child_place : List ℕ → ℕ × TrieNode → Place
child_place path (token, child) = (child, path ++ token ∷ [])

abbrev pub keys_expand : Bool → Place → List Place
keys_expand count_aware (node, path) =
    reverse (map (child_place path) (to_push (λ x. x.1.count) count_aware (items node.children)))

abbrev pub key_here : Place → List (List ℕ)
key_here (node, path) = if is_nil node.prompt_indices then [] else path ∷ []

unfoldable pub dfs_group_keys : Bool → PrefixTrie → List (List ℕ)
unfolding traverse to_push sort_by
dfs_group_keys count_aware trie =
    traverse (keys_expand count_aware) (λ keys x. keys ++ key_here x) (node_size trie.root)
      ((trie.root, []) ∷ []) []

-- `_all_indices`
abbrev pub plain_expand : TrieNode → List TrieNode
plain_expand node = reverse (nodes node.children)

unfoldable pub all_indices : TrieNode → List ℕ
unfolding traverse
all_indices node =
    traverse plain_expand (λ result n. result ++ n.prompt_indices) (node_count node.children)
      (reverse (nodes node.children)) node.prompt_indices

-- `prefix_groups_with_tokens`: a node with its depth and prefix is a maximal group if it is deep
-- enough and two or more prompts pass through it, and is not descended into.
abbrev pub GroupPlace : Type 0
GroupPlace = TrieNode × ℕ × List ℕ

unfoldable pub is_group : ℕ → TrieNode → ℕ → Bool
is_group min_prefix_len node depth = leb min_prefix_len depth && leb 2 (length (all_indices node))

abbrev pub group_child : ℕ → List ℕ → ℕ × TrieNode → GroupPlace
group_child depth prefix (token, child) = (child, depth + 1, prefix ++ token ∷ [])

abbrev pub groups_expand : ℕ → GroupPlace → List GroupPlace
groups_expand min_prefix_len (node, depth, prefix) =
    if is_group min_prefix_len node depth
    then []
    else reverse (map (group_child depth prefix) (items node.children))

-- A group is its shared prefix and its prompt indices.
abbrev pub group_here : ℕ → GroupPlace → List (List ℕ × List ℕ)
group_here min_prefix_len (node, depth, prefix) =
    if is_group min_prefix_len node depth then (prefix, all_indices node) ∷ [] else []

unfoldable pub prefix_groups_with_tokens : ℕ → PrefixTrie → List (List ℕ × List ℕ)
unfolding traverse is_group all_indices
prefix_groups_with_tokens min_prefix_len trie =
    traverse (groups_expand min_prefix_len) (λ groups x. groups ++ group_here min_prefix_len x)
      (node_size trie.root) ((trie.root, 0, []) ∷ []) []

-- `prefix_groups`, by `_collect_groups`: the same walk without the prefixes.
abbrev pub deeper : ℕ → TrieNode → TrieNode × ℕ
deeper depth child = (child, depth + 1)

abbrev pub collect_expand : ℕ → TrieNode × ℕ → List (TrieNode × ℕ)
collect_expand min_prefix_len (node, depth) =
    if is_group min_prefix_len node depth
    then []
    else reverse (map (deeper depth) (nodes node.children))

abbrev pub collect_here : ℕ → TrieNode × ℕ → List (List ℕ)
collect_here min_prefix_len (node, depth) =
    if is_group min_prefix_len node depth then all_indices node ∷ [] else []

unfoldable pub prefix_groups : ℕ → PrefixTrie → List (List ℕ)
unfolding traverse is_group all_indices
prefix_groups min_prefix_len trie =
    traverse (collect_expand min_prefix_len) (λ groups x. groups ++ collect_here min_prefix_len x)
      (node_size trie.root) ((trie.root, 0) ∷ []) []

-- `sharing_score`: what the loop sums up.
pub record Score : Type 0 where
  pub grouped : ℕ
  pub max_group : ℕ
  pub depth_sum : ℕ

-- `while len(walk.children) == 1 and not walk.prompt_indices`: the steps down a single-child chain.
unfoldable pub chain_length : Children → List ℕ → ℕ
chain_length (entry token children prompt_indices count leaf) [] =
    suc (chain_length children prompt_indices)
chain_length _ _ = 0

abbrev pub is_shared : ℕ → TrieNode → ℕ → Bool
is_shared min_depth node depth = leb min_depth depth && leb 2 node.count

abbrev pub score_expand : ℕ → TrieNode × ℕ → List (TrieNode × ℕ)
score_expand min_depth (node, depth) =
    if is_shared min_depth node depth
    then []
    else reverse (map (deeper depth) (nodes node.children))

unfoldable pub score_step : ℕ → Score → TrieNode × ℕ → Score
unfolding chain_length
score_step min_depth score (node, depth) =
    let real_depth = depth + chain_length node.children node.prompt_indices in
    if is_shared min_depth node depth
    then record {
      grouped = score.grouped + node.count;
      max_group = if ltb score.max_group node.count then node.count else score.max_group;
      depth_sum = score.depth_sum + real_depth * node.count;
    }
    else score

abbrev pub zero_score : Score
zero_score = record { grouped = 0; max_group = 0; depth_sum = 0 }

-- A quotient of two counts, kept exact.
pub record Ratio : Type 0 where
  pub num : ℕ
  pub den : ℕ

-- `(coverage, max_group_size, avg_sharing_depth)`
pub record SharingScore : Type 0 where
  pub coverage : Ratio
  pub max_group : ℕ
  pub avg_depth : Ratio

abbrev pub ratio : ℕ → ℕ → Ratio
ratio a b = record { num = a; den = b }

unfoldable pub score_walk : ℕ → PrefixTrie → Score
unfolding traverse score_step
score_walk min_depth trie =
    traverse (score_expand min_depth) (score_step min_depth) (node_size trie.root)
      ((trie.root, 0) ∷ []) zero_score

unfoldable pub sharing_score : ℕ → PrefixTrie → SharingScore
sharing_score min_depth trie =
    let s = score_walk min_depth trie in
    if trie.num_prompts == 0
    then record { coverage = ratio 0 1; max_group = 0; avg_depth = ratio 0 1 }
    else record {
      coverage = ratio s.grouped trie.num_prompts;
      max_group = s.max_group;
      avg_depth = if ltb 0 s.grouped then ratio s.depth_sum s.grouped else ratio 0 1;
    }
