-- ===== src/Trie/Order.antt =====
-- The depth-first traversals visit every node once: each order holds every stored index.
use mathlib.Core.Path.{ap₂}
use mathlib.Core.List.{Perm, map-append, append-nil, reverse_perm}
use mathlib.Core.List.Perm
use peek.Prelude.{
  ℕ, ◌<◌, ◌≡◌, ◌∙◌, refl, ap, inl, inr, List, [], ◌∷◌, ◌++◌, map, reverse, Bool, arith, length, sum,
  concat, All, Bool-cases, ltb, ◌&&◌,
}
use peek.Prelude.Sort.{sort_by-perm, le_key}
use peek.Prelude.Worklist
use peek.Prelude.Perms.{sum-perm, concat-perm, concat-map-perm}
use peek.Prelude.Worklist.{traverse}
use peek.Trie.Data.{
  Children, leaf, entry, TrieNode, PrefixTrie, Item, under, here, stored, contents, nodes,
  node_count,
}
use peek.Trie.Traverse.{node_size, to_push, dfs_expand, dfs, dfs_order, plain_expand, all_indices}

pub to_push-perm {ℓ} :
    {A : Type ℓ} (count : A → ℕ) (aware : Bool) (xs : List A) → Perm (to_push count aware xs) xs
unfolding to_push
to_push-perm count aware xs = elim (Bool-cases (aware && ltb 1 (length xs))) [
  | inl e ↦ rw e (sort_by-perm (le_key count) xs)
  | inr e ↦ rw e (reverse_perm xs)
]

pub popped-perm {ℓ} :
    {A : Type ℓ} (count : A → ℕ) (aware : Bool) (xs : List A)
    → Perm (reverse (to_push count aware xs)) xs
popped-perm count aware xs = Perm.trans (reverse_perm _) (to_push-perm count aware xs)

pub sum-node_size : (cs : Children) → sum (map node_size (nodes cs)) ≡ node_count cs
sum-node_size leaf = refl
sum-node_size (entry t cs ps k rest) = omega (arith, sum-node_size rest)

-- What is pushed for a node is smaller than the node.
pub dfs_shrinks :
    (aware : Bool) (n : TrieNode) → sum (map node_size (dfs_expand aware n)) < node_size n
dfs_shrinks aware n = omega (
  arith,
  sum-perm (Perm.map node_size (popped-perm (λ c. c.count) aware (nodes n.children))),
  sum-node_size n.children,
)

pub plain_shrinks : (n : TrieNode) → sum (map node_size (plain_expand n)) < node_size n
plain_shrinks n = omega (
  arith,
  sum-perm (Perm.map node_size (reverse_perm (nodes n.children))),
  sum-node_size n.children,
)

-- The stored indices of a node, without their paths.
unfoldable pub indices : TrieNode → List ℕ
indices n = map (λ (x : Item). x.1) (contents n)

pub snd-under :
    (t : ℕ) (xs : List Item)
    → map (λ (x : Item). x.1) (map (under t) xs) ≡ map (λ (x : Item). x.1) xs
snd-under t [] = refl
snd-under t (x ∷ xs) = ap (◌∷◌ x.1) (snd-under t xs)

snd-here : (ps : List ℕ) → map (λ (x : Item). x.1) (map here ps) ≡ ps
snd-here [] = refl
snd-here (p ∷ ps) = ap (◌∷◌ p) (snd-here ps)

indices-stored :
    (cs : Children) → map (λ (x : Item). x.1) (stored cs) ≡ concat (map indices (nodes cs))
unfolding indices stored
indices-stored leaf = refl
indices-stored (entry t cs ps k rest) =
    map-append (λ (x : Item). x.1) (map (under t) (map here ps ++ stored cs)) (stored rest)
    ∙ ap₂ ◌++◌ (snd-under t (map here ps ++ stored cs)) (indices-stored rest)

pub indices_lem :
    (n : TrieNode) → indices n ≡ n.prompt_indices ++ concat (map indices (nodes n.children))
unfolding indices
indices_lem n =
    map-append (λ (x : Item). x.1) (map here n.prompt_indices) (stored n.children)
    ∙ ap₂ ◌++◌ (snd-here n.prompt_indices) (indices-stored n.children)

-- A walk that emits the indices of each node it pops, and pushes all children in some order.
module _ (expand : TrieNode → List TrieNode)
    (shrinks : (n : TrieNode) → sum (map node_size (expand n)) < node_size n)
    (all : (n : TrieNode) → Perm (expand n) (nodes n.children)) where
  pub output-perm :
      (n : TrieNode)
      → Perm (Worklist.output expand node_size shrinks (λ c. c.prompt_indices) n) (indices n)
  output-perm =
      Worklist.subtree_ind expand node_size shrinks
        (λ n. Perm (Worklist.output expand node_size shrinks (λ c. c.prompt_indices) n) (indices n))
        λ n ih.
          rw (Worklist.output_lem expand node_size shrinks (λ c. c.prompt_indices) n, indices_lem n)
            (Perm.append_left n.prompt_indices (
              Perm.trans
                (concat-map-perm (Worklist.output expand node_size shrinks (λ c. c.prompt_indices))
                  indices (expand n) ih)
                (concat-perm (Perm.map indices (all n)))))

abbrev pub dfs_output : Bool → TrieNode → List ℕ
dfs_output aware =
    Worklist.output (dfs_expand aware) node_size (dfs_shrinks aware) (λ c. c.prompt_indices)

pub dfs_lem : (aware : Bool) (n : TrieNode) → dfs aware n ≡ dfs_output aware n
unfolding dfs
dfs_lem aware n =
    Worklist.traverse-extend (dfs_expand aware) node_size (dfs_shrinks aware)
      (λ c. c.prompt_indices) (node_size n) (n ∷ []) [] (omega arith)
    ∙ append-nil _

pub dfs-perm : (aware : Bool) (n : TrieNode) → Perm (dfs aware n) (indices n)
dfs-perm aware n = rw (dfs_lem aware n) (
    output-perm (dfs_expand aware) (dfs_shrinks aware)
      (λ c. popped-perm (λ d. d.count) aware (nodes c.children)) n)

-- `dfs_order` returns every stored index, each as often as it is stored.
pub dfs_order-perm :
    (aware : Bool) (trie : PrefixTrie) → Perm (dfs_order aware trie) (indices trie.root)
unfolding dfs_order
dfs_order-perm aware trie = dfs-perm aware trie.root

-- `_all_indices` returns every index that is stored below the node.
pub all_indices-perm : (n : TrieNode) → Perm (all_indices n) (indices n)
unfolding all_indices
all_indices-perm n =
    rw
      (
        Worklist.traverse-extend plain_expand node_size plain_shrinks (λ c. c.prompt_indices)
            (node_count n.children) (reverse (nodes n.children)) n.prompt_indices
            (omega (arith, plain_shrinks n)),
        indices_lem n,
      )
      (Perm.append_left n.prompt_indices (
        Perm.trans (concat-map-perm _ indices (reverse (nodes n.children)) (everywhere _))
          (concat-perm (Perm.map indices (reverse_perm (nodes n.children))))))
  where
    everywhere :
        (ns : List TrieNode)
        → All
            (λ c.
              Perm
                (Worklist.output plain_expand node_size plain_shrinks (λ d. d.prompt_indices) c)
                (indices c))
            ns
    everywhere [] = tt
    everywhere (c ∷ cs) = (
      output-perm plain_expand plain_shrinks (λ d. reverse_perm (nodes d.children)) c,
      everywhere cs,
    )
