-- ===== src/Trie/Data.antt =====
-- The nodes of the trie, the dictionary of children of a node, and what a trie stores.
use peek.Prelude.{
  ℕ, suc, ◌+◌, ◌<◌, ◌≡◌, ◌≢◌, List, [], ◌∷◌, ◌++◌, map, Option, none, some, Bool, true, false,
  length, if◌then◌else◌, ◌==◌,
}

-- `dict[int, TrieNode]` in insertion order. An entry is its token and the three fields of its node.
pub data Children : Type 0 where
  leaf : Children
  entry :
      (token : ℕ) (children : Children) (prompt_indices : List ℕ) (count : ℕ) (rest : Children)
      → Children

pub record TrieNode : Type 0 where
  pub children : Children
  pub prompt_indices : List ℕ
  pub count : ℕ

pub record PrefixTrie : Type 0 where
  pub root : TrieNode
  pub max_depth : ℕ
  pub num_prompts : ℕ

-- `TrieNode()`
abbrev pub new_node : TrieNode
new_node = record { children = leaf; prompt_indices = []; count = 0 }

-- `PrefixTrie(max_depth)`
abbrev pub new_trie : ℕ → PrefixTrie
new_trie max_depth = record { root = new_node; max_depth = max_depth; num_prompts = 0 }

abbrev pub entry_of : ℕ → TrieNode → Children → Children
entry_of token node rest = entry token node.children node.prompt_indices node.count rest

-- `children.items()` and `children.values()`
abbrev pub items : Children → List (ℕ × TrieNode)
items leaf = []
items (entry t cs ps k rest) =
    (t, record { children = cs; prompt_indices = ps; count = k }) ∷ items rest

abbrev pub nodes : Children → List TrieNode
nodes leaf = []
nodes (entry t cs ps k rest) = record { children = cs; prompt_indices = ps; count = k } ∷ nodes rest

-- `children.get(token)`
abbrev pub get : ℕ → Children → Option TrieNode
get t leaf = none
get t (entry u cs ps k rest) =
    if u == t then some (record { children = cs; prompt_indices = ps; count = k }) else get t rest

-- `children[token] = node` where the token has an entry already.
abbrev pub put : ℕ → TrieNode → Children → Children
put t node leaf = leaf
put t node (entry u cs ps k rest) =
    if u == t then entry_of u node rest else entry u cs ps k (put t node rest)

-- `del children[token]`
abbrev pub delete : ℕ → Children → Children
delete t leaf = leaf
delete t (entry u cs ps k rest) = if u == t then rest else entry u cs ps k (delete t rest)

-- `node.children` is empty, and `not node.prompt_indices`
abbrev pub is_leaf : Children → Bool
is_leaf leaf = true
is_leaf (entry t cs ps k rest) = false

abbrev pub is_nil {ℓ} : {A : Type ℓ} → List A → Bool
is_nil [] = true
is_nil (x ∷ xs) = false

-- What is stored: a prompt's index with the path that leads to it.
abbrev pub Item : Type 0
Item = List ℕ × ℕ

abbrev pub under : ℕ → Item → Item
under t (path, i) = (t ∷ path, i)

abbrev pub here : ℕ → Item
here i = ([], i)

unfoldable pub stored : Children → List Item
stored leaf = []
stored (entry t cs ps k rest) = map (under t) (map here ps ++ stored cs) ++ stored rest

abbrev pub contents : TrieNode → List Item
contents node = map here node.prompt_indices ++ stored node.children

-- The number of prompts below the children, and the number of nodes.
abbrev pub prompts : Children → ℕ
prompts leaf = 0
prompts (entry t cs ps k rest) = length ps + prompts cs + prompts rest

abbrev pub node_count : Children → ℕ
node_count leaf = 0
node_count (entry t cs ps k rest) = suc (node_count cs + node_count rest)

abbrev pub Absent : ℕ → Children → Type 0
Absent t leaf = Unit
Absent t (entry u cs ps k rest) = (u ≢ t) × Absent t rest

-- The tokens of a dictionary are distinct, the count of a node is the number of prompts that pass
-- through it, and every node but the root has one. The root's own count stays 0.
abbrev pub IsCounted : Children → Type 0
IsCounted leaf = Unit
IsCounted (entry t cs ps k rest) =
    (k ≡ length ps + prompts cs) × (0 < k) × IsCounted cs × Absent t rest × IsCounted rest

pub record IsValid (t : PrefixTrie) : Type 0 where
  pub counted : IsCounted t.root.children
  pub uncounted : t.root.count ≡ 0
  pub total : t.num_prompts ≡ length t.root.prompt_indices + prompts t.root.children
