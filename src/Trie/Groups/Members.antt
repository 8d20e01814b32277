-- ===== src/Trie/Groups/Members.antt =====
-- Who is in a group of `prefix_groups_with_tokens`.
use mathlib.Core.List.{Perm, append-nil, append_assoc}
use peek.Prelude.{
  ℕ, ◌≤◌, ◌≡◌, ◌≢◌, ◌∙◌, refl, sym, ap, subst, inl, inr, List, [], ◌∷◌, ◌++◌, map, some, true,
  arith, length, length-append, All, All-reverse, All-map, All-imp, All-concat, Bool-cases, ◌==◌,
  ==_iff,
}
use peek.Prelude.Worklist
use peek.Trie.Groups.{
  place_size, groups_shrinks, groups_at, groups_lem, children_of, groups_at-closed, groups_at-open,
  open_expand,
}
use peek.Trie.Data.{
  Children, leaf, entry, TrieNode, PrefixTrie, items, get, Absent, IsCounted, IsValid,
}
use peek.Trie.Traverse.{
  all_indices, GroupPlace, is_group, group_child, groups_expand, prefix_groups_with_tokens,
}
use peek.Trie.Order.{indices, all_indices-perm}
use peek.Trie.Contiguous.{indices_under, indices_under-some, select-all}

-- A group of a trie: deep enough, with two or more members, and these are all the prompts whose
-- paths begin with its prefix.
pub record IsGroup (m : ℕ) (root : TrieNode) (g : List ℕ × List ℕ) : Type 0 where
  pub long : m ≤ length g.0
  pub many : 2 ≤ length g.1
  pub same : Perm g.1 (indices_under g.0 root)

module _ (root : TrieNode) where
  -- The place is where its prefix leads to from the root.
  record Reaches (x : GroupPlace) : Type 0 where
    depth : x.1 ≡ length x.2
    counted : IsCounted x.0.children
    under : (q : List ℕ) → indices_under (x.2 ++ q) root ≡ indices_under q x.0

  Absent-ne : (t u : ℕ) (cs : Children) (c : TrieNode) → Absent t cs → get u cs ≡ some c → u ≢ t
  Absent-ne t u leaf c h g = cc
  Absent-ne t u (entry v cs ps k rest) c h g = elim (Bool-cases (v == u)) [
    | inl e ↦ λ q. h.0 ((==_iff v u).0 e ∙ q)
    | inr e ↦ Absent-ne t u rest c h.1 (rw e at g)
  ]

  -- Every item of a dictionary is found under its token.
  Found : Children → ℕ × TrieNode → Type 0
  Found cs x = (get x.0 cs ≡ some x.1) × IsCounted x.1.children

  Found-later :
      (u : ℕ) (cs : Children) (ps : List ℕ) (k : ℕ) (rest : Children) (x : ℕ × TrieNode)
      → Absent u rest
      → Found rest x
      → Found (entry u cs ps k rest) x
  unfolding Found
  Found-later u cs ps k rest (t, c) h f = elim (Bool-cases (u == t)) [
    | inl e ↦ absurd (Absent-ne u t rest c h f.0 (sym ((==_iff u t).0 e)))
    | inr e ↦ rw e f
  ]

  All-Found : (cs : Children) → IsCounted cs → All (Found cs) (items cs)
  unfolding Found
  All-Found leaf v = tt
  All-Found (entry u cs ps k rest) v = (
    (rw ((==_iff u u).1 refl) refl, v.2),
    All-imp (Found rest) (Found (entry u cs ps k rest)) (items rest) (every (items rest))
        (All-Found rest v.4),
  )
    where
      every :
          (xs : List (ℕ × TrieNode)) → All (λ x. Found rest x → Found (entry u cs ps k rest) x) xs
      every [] = tt
      every (x ∷ xs) = (Found-later u cs ps k rest x v.3, every xs)

  Reaches-child :
      (n : TrieNode) (d : ℕ) (p : List ℕ) (x : ℕ × TrieNode)
      → Reaches (n, d, p)
      → Found n.children x
      → Reaches (group_child d p x)
  unfolding Found
  Reaches-child n d p (t, c) r f = record {
    depth = omega (arith, r.depth, length-append p (t ∷ []));
    counted = f.1;
    under = λ q.
        ap (λ l. indices_under l root) (append_assoc p (t ∷ []) q)
        ∙ r.under (t ∷ q)
        ∙ indices_under-some t q n c r.counted f.0;
  }

  module _ (m : ℕ) where
    abbrev Good : GroupPlace → Type 0
    Good x = Reaches x → All (IsGroup m root) (groups_at m x)

    closed-IsGroup :
        (n : TrieNode) (d : ℕ) (p : List ℕ)
        → Reaches (n, d, p)
        → is_group m n d ≡ true
        → IsGroup m root (p, all_indices n)
    unfolding is_group indices
    closed-IsGroup n d p r e = record {
      long = ground (arith, r.depth);
      many = ground arith;
      same =
          rw
            (sym (ap (λ l. indices_under l root) (append-nil p))
              ∙ r.under []
              ∙ ap (map (λ x. x.1)) (select-all _))
            (all_indices-perm n);
    }

    Good-step : (x : GroupPlace) → All Good (groups_expand m x) → Good x
    Good-step (n, d, p) ih r = elim (Bool-cases (is_group m n d)) [
      | inl e ↦ rw (groups_at-closed m n d p e) (closed-IsGroup n d p r e, tt)
      | inr e ↦ rw (groups_at-open m n d p e) (
          All-concat (IsGroup m root) _ (
            All-map (All (IsGroup m root)) (groups_at m) (children_of m n d p) (
              All-imp Reaches (λ x. All (IsGroup m root) (groups_at m x)) (children_of m n d p)
                (subst (All Good) (open_expand m n d p e) ih)
                (All-reverse Reaches _ (
                  All-map Reaches (group_child d p) (items n.children) (
                    All-imp (Found n.children) (λ x. Reaches (group_child d p x)) (items n.children)
                      (every (items n.children)) (All-Found n.children r.counted)))))))
    ]
      where
        every :
            (xs : List (ℕ × TrieNode))
            → All (λ x. Found n.children x → Reaches (group_child d p x)) xs
        every [] = tt
        every (x ∷ xs) = (Reaches-child n d p x r, every xs)

-- Every group that `prefix_groups_with_tokens` returns has two or more members and a prefix of at
-- least the asked length, and its members are all the prompts whose paths begin with that prefix.
pub prefix_groups_with_tokens-IsGroup :
    (m : ℕ) (trie : PrefixTrie)
    → IsValid trie
    → All (IsGroup m trie.root) (prefix_groups_with_tokens m trie)
prefix_groups_with_tokens-IsGroup m trie v = rw (groups_lem m trie) (
    Worklist.subtree_ind (groups_expand m) place_size (groups_shrinks m) (Good trie.root m)
      (Good-step trie.root m) (trie.root, 0, [])
      (record { depth = refl; counted = v.counted; under = λ q. refl }))
