-- ===== src/Trie/Groups.antt =====
-- What `prefix_groups_with_tokens` and `prefix_groups` return.
pub mod Members
use mathlib.Core.Path.{ap₂}
use mathlib.Core.List.{Perm, append-nil, append_assoc, map-append, perm_append_comm, reverse_perm}
use mathlib.Core.List.Perm
use peek.Prelude.{
  ℕ, suc, ◌+◌, ◌≤◌, ◌<◌, ◌≡◌, ◌≢◌, ◌∙◌, refl, sym, ap, subst, inl, inr, List, [], ◌∷◌, ◌++◌, map,
  reverse, some, Bool, true, false, arith, length, length-append, sum, concat, concat-append, All,
  All-reverse, All-map, All-imp, All-concat, map-reverse, Bool-cases, ◌==◌, ==_iff, if◌then◌else◌,
}
use peek.Prelude.Worklist
use peek.Prelude.Perms.{sum-perm, concat-perm, perm_interchange, perm_front}
use peek.Prelude.Worklist.{traverse_simulation}
use peek.Trie.Data.{
  Children, leaf, entry, TrieNode, PrefixTrie, items, nodes, get, Absent, IsCounted, IsValid,
}
use peek.Trie.Traverse.{
  node_size, all_indices, GroupPlace, is_group, group_child, groups_expand, group_here,
  prefix_groups_with_tokens, deeper, collect_expand, collect_here, prefix_groups,
}
use peek.Trie.Order.{indices, indices_lem, all_indices-perm, sum-node_size}
use peek.Trie.Contiguous.{indices_under, indices_under-some, select-all}

abbrev place_size : GroupPlace → ℕ
place_size x = node_size x.0

sum-group_child :
    (d : ℕ) (p : List ℕ) (cs : Children)
    → sum (map place_size (map (group_child d p) (items cs))) ≡ sum (map node_size (nodes cs))
sum-group_child d p leaf = refl
sum-group_child d p (entry t cs ps k rest) = omega (arith, sum-group_child d p rest)

module _ (m : ℕ) where
  groups_shrinks : (x : GroupPlace) → sum (map place_size (groups_expand m x)) < place_size x
  groups_shrinks (n, d, p) = elim (Bool-cases (is_group m n d)) [
    | inl e ↦ rw e (omega arith)
    | inr e ↦ rw e (
        omega (
          arith,
          sum-perm (Perm.map place_size (reverse_perm (map (group_child d p) (items n.children)))),
          sum-group_child d p n.children,
          sum-node_size n.children,
        ))
  ]

  abbrev groups_at : GroupPlace → List (List ℕ × List ℕ)
  groups_at = Worklist.output (groups_expand m) place_size groups_shrinks (group_here m)

  groups_lem : (trie : PrefixTrie) → prefix_groups_with_tokens m trie ≡ groups_at (trie.root, 0, [])
  unfolding prefix_groups_with_tokens
  groups_lem trie =
      Worklist.traverse-extend (groups_expand m) place_size groups_shrinks (group_here m)
        (node_size trie.root) ((trie.root, 0, []) ∷ []) [] (omega arith)
      ∙ append-nil _

  -- The prompts of the nodes that belong to no group.
  abbrev left_here : GroupPlace → List ℕ
  left_here (n, d, p) = if is_group m n d then [] else n.prompt_indices

  abbrev left_at : GroupPlace → List ℕ
  left_at = Worklist.output (groups_expand m) place_size groups_shrinks left_here

  abbrev grouped : List (List ℕ × List ℕ) → List ℕ
  grouped groups = concat (map (λ g. g.1) groups)

  abbrev Covers : GroupPlace → Type 0
  Covers x = Perm (grouped (groups_at x) ++ left_at x) (indices x.0)

  grouped-append : (gs hs : List (List ℕ × List ℕ)) → grouped (gs ++ hs) ≡ grouped gs ++ grouped hs
  grouped-append gs hs =
      ap concat (map-append (λ g. g.1) gs hs) ∙ concat-append (map (λ g. g.1) gs) _

  all-Covers :
      (xs : List GroupPlace)
      → All Covers xs
      → Perm
          (grouped (concat (map groups_at xs)) ++ concat (map left_at xs))
          (concat (map (λ x. indices x.0) xs))
  all-Covers [] h = Perm.rfl
  all-Covers (x ∷ xs) h = rw (grouped-append (groups_at x) (concat (map groups_at xs))) (
      Perm.trans
        (perm_interchange (grouped (groups_at x)) (grouped (concat (map groups_at xs))) (left_at x)
          (concat (map left_at xs)))
        (Perm.append h.0 (all-Covers xs h.1)))

  module _ (n : TrieNode) (d : ℕ) (p : List ℕ) where
    abbrev children_of : List GroupPlace
    children_of = reverse (map (group_child d p) (items n.children))

    groups_at-closed : is_group m n d ≡ true → groups_at (n, d, p) ≡ (p, all_indices n) ∷ []
    groups_at-closed e =
        Worklist.output_lem (groups_expand m) place_size groups_shrinks (group_here m) (n, d, p)
        ∙ rw e refl

    groups_at-open :
        is_group m n d ≡ false → groups_at (n, d, p) ≡ concat (map groups_at children_of)
    groups_at-open e =
        Worklist.output_lem (groups_expand m) place_size groups_shrinks (group_here m) (n, d, p)
        ∙ rw e refl

    left_at-closed : is_group m n d ≡ true → left_at (n, d, p) ≡ []
    left_at-closed e =
        Worklist.output_lem (groups_expand m) place_size groups_shrinks left_here (n, d, p)
        ∙ rw e refl

    left_at-open :
        is_group m n d ≡ false
        → left_at (n, d, p) ≡ n.prompt_indices ++ concat (map left_at children_of)
    left_at-open e =
        Worklist.output_lem (groups_expand m) place_size groups_shrinks left_here (n, d, p)
        ∙ rw e refl

    open_expand : is_group m n d ≡ false → groups_expand m (n, d, p) ≡ children_of
    open_expand e = rw e refl

  indices-children :
      (d : ℕ) (p : List ℕ) (cs : Children)
      → map (λ (x : GroupPlace). indices x.0) (map (group_child d p) (items cs))
        ≡ map indices (nodes cs)
  indices-children d p leaf = refl
  indices-children d p (entry t cs ps k rest) =
      let n : TrieNode = record { children = cs; prompt_indices = ps; count = k } in
      ap (◌∷◌ (indices n)) (indices-children d p rest)

  Covers-step : (x : GroupPlace) → All Covers (groups_expand m x) → Covers x
  Covers-step (n, d, p) ih = elim (Bool-cases (is_group m n d)) [
    | inl e ↦
        rw (groups_at-closed n d p e, left_at-closed n d p e)
          (rw (append-nil, append-nil) (all_indices-perm n))
    | inr e ↦
        let below = all-Covers (children_of n d p) (subst (All Covers) (open_expand n d p e) ih) in
        let same =
          concat-perm {xss = map (λ x. indices x.0) (children_of n d p)}
            {yss = map indices (nodes n.children)}
            (rw (← indices-children d p n.children) (
              Perm.map (λ x. indices x.0)
                (reverse_perm (map (group_child d p) (items n.children))))) in
        rw (groups_at-open n d p e, left_at-open n d p e, indices_lem n)
          (Perm.trans (perm_front _ n.prompt_indices _)
            (Perm.append_left n.prompt_indices (Perm.trans below same)))
  ]

-- The groups of `prefix_groups_with_tokens` and the prompts that are in none of them are together
-- exactly the stored prompts: no prompt is in two groups, or twice in one.
pub prefix_groups_with_tokens-perm :
    (m : ℕ) (trie : PrefixTrie)
    → (left : List ℕ) × Perm
        (concat (map (λ g. g.1) (prefix_groups_with_tokens m trie)) ++ left)
        (indices trie.root)
prefix_groups_with_tokens-perm m trie = (
  left_at m (trie.root, 0, []),
  rw (groups_lem m trie) (
      Worklist.subtree_ind (groups_expand m) place_size (groups_shrinks m) (Covers m)
        (Covers-step m) (trie.root, 0, [])),
)

abbrev forget : GroupPlace → TrieNode × ℕ
forget x = (x.0, x.1)

forget-children :
    (d : ℕ) (p : List ℕ) (cs : Children)
    → map (deeper d) (nodes cs) ≡ map forget (map (group_child d p) (items cs))
forget-children d p leaf = refl
forget-children d p (entry t cs ps k rest) =
    let n : TrieNode = record { children = cs; prompt_indices = ps; count = k } in
    ap (◌∷◌ (n, d + 1)) (forget-children d p rest)

forget-expand :
    (m : ℕ) (x : GroupPlace) → collect_expand m (forget x) ≡ map forget (groups_expand m x)
forget-expand m (n, d, p) = elim (Bool-cases (is_group m n d)) [
  | inl e ↦ rw e refl
  | inr e ↦ rw e (
      ap reverse (forget-children d p n.children)
      ∙ sym (map-reverse forget (map (group_child d p) (items n.children))))
]

forget-step :
    (m : ℕ) (out : List (List ℕ × List ℕ)) (x : GroupPlace)
    → map (λ g. g.1) out ++ collect_here m (forget x) ≡ map (λ g. g.1) (out ++ group_here m x)
forget-step m out (n, d, p) = elim (Bool-cases (is_group m n d)) [
  | inl e ↦ rw e (sym (map-append (λ g. g.1) out ((p, all_indices n) ∷ [])))
  | inr e ↦ rw e (sym (map-append (λ g. g.1) out []))
]

-- `prefix_groups` returns the same groups as `prefix_groups_with_tokens`, without their prefixes.
pub prefix_groups_lem :
    (m : ℕ) (trie : PrefixTrie)
    → prefix_groups m trie ≡ map (λ g. g.1) (prefix_groups_with_tokens m trie)
unfolding prefix_groups prefix_groups_with_tokens
prefix_groups_lem m trie =
    traverse_simulation (groups_expand m) (collect_expand m) (λ out x. out ++ group_here m x)
      (λ out x. out ++ collect_here m x) forget (map (λ g. g.1)) (forget-expand m) (forget-step m)
      (node_size trie.root) ((trie.root, 0, []) ∷ []) []
