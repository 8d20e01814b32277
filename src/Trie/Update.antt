-- ===== src/Trie/Update.antt =====
-- `insert`, `remove`, `clear` and `build` of `PrefixTrie`.
use mathlib.Core.Option
use peek.Prelude.{
  ℕ, suc, ◌+◌, ◌-◌, List, [], ◌∷◌, ◌++◌, Option, none, some, Bool, true, false, take, if◌then◌else◌,
  ◌==◌, ◌&&◌,
}
use peek.Trie.Data.{
  Children, leaf, entry, TrieNode, PrefixTrie, new_node, entry_of, get, put, delete, is_leaf,
  is_nil,
}

-- `if token not in node.children: node.children[token] = TrieNode()`, and then `f` on the child.
abbrev pub step_into : ℕ → (TrieNode → TrieNode) → Children → Children
step_into t f leaf = entry_of t (f new_node) leaf
step_into t f (entry u cs ps k rest) =
    if u == t
    then entry_of u (f (record { children = cs; prompt_indices = ps; count = k })) rest
    else entry u cs ps k (step_into t f rest)

-- `node.count += 1`
abbrev pub bump : TrieNode → TrieNode
bump node = record node { count = node.count + 1 }

-- The loop of `insert` over the tokens that are left.
unfoldable pub insert_path : List ℕ → ℕ → TrieNode → TrieNode
insert_path [] i node = record node { prompt_indices = node.prompt_indices ++ i ∷ [] }
insert_path (t ∷ ts) i node = record node {
  children = step_into t (λ child. insert_path ts i (bump child)) node.children;
}

unfoldable pub insert : List ℕ → ℕ → PrefixTrie → PrefixTrie
unfolding insert_path
insert token_ids prompt_index trie = record trie {
  root = insert_path (take trie.max_depth token_ids) prompt_index trie.root;
  num_prompts = trie.num_prompts + 1;
}

-- `xs.remove(x)`, which takes out the first occurrence; `none` is its `ValueError`.
abbrev pub remove_first : ℕ → List ℕ → Option (List ℕ)
remove_first x [] = none
remove_first x (y ∷ ys) = if y == x then some ys else Option.map (◌∷◌ y) (remove_first x ys)

-- `child.count == 0 and not child.children and not child.prompt_indices`
abbrev pub is_empty : TrieNode → Bool
is_empty node = (node.count == 0) && is_leaf node.children && is_nil node.prompt_indices

-- One step of the way back up: the child's count is decremented, and while `pruning` goes on an
-- empty child is deleted. The first child that is not ends it, as `break` does.
abbrev pub leave : ℕ → TrieNode → TrieNode × Bool → TrieNode × Bool
leave t parent (child, pruning) =
    let child' : TrieNode = record child { count = child.count - 1 } in
    if pruning && is_empty child'
    then (record parent { children = delete t parent.children }, true)
    else (record parent { children = put t child' parent.children }, false)

-- The walk down the tokens that are left, the removal at its end, and the way back up.
-- `none` is `return False`.
unfoldable pub remove_path : List ℕ → ℕ → TrieNode → Option (TrieNode × Bool)
unfolding Option.bind
remove_path [] i node =
    Option.map (λ ps. (record node { prompt_indices = ps }, true))
      (remove_first i node.prompt_indices)
remove_path (t ∷ ts) i node =
    Option.bind (get t node.children) (λ child. Option.map (leave t node) (remove_path ts i child))

-- `return False` with the trie as it was, or `return True`.
abbrev pub outcome : PrefixTrie → Option (TrieNode × Bool) → PrefixTrie × Bool
outcome trie none = (trie, false)
outcome trie (some (root', _)) =
    (record trie { root = root'; num_prompts = trie.num_prompts - 1 }, true)

unfoldable pub remove : List ℕ → ℕ → PrefixTrie → PrefixTrie × Bool
unfolding remove_path
remove token_ids prompt_index trie =
    outcome trie (remove_path (take trie.max_depth token_ids) prompt_index trie.root)

unfoldable pub clear : PrefixTrie → PrefixTrie
clear trie = record trie { root = new_node; num_prompts = 0 }

-- `build`, over the prompts' token lists with their positions from `i` on.
unfoldable pub build_from : ℕ → List (List ℕ) → PrefixTrie → PrefixTrie
build_from i [] trie = trie
build_from i (p ∷ ps) trie = build_from (suc i) ps (insert p i trie)

unfoldable pub build : List (List ℕ) → PrefixTrie → PrefixTrie
unfolding build_from
build prompts trie = build_from 0 prompts trie
