-- ===== src/Trie/Sharing.antt =====
-- The bounds of `sharing_score`.
use mathlib.Core.List.{reverse_perm, map-append}
use mathlib.Core.List.Perm
use peek.Prelude.{
  ℕ, zero, suc, ◌+◌, ◌*◌, ◌≤◌, ◌<◌, ◌≡◌, ◌∙◌, ap, refl, inl, inr, List, [], ◌∷◌, ◌++◌, map, arith,
  sum, All, All-append, All-reverse, Bool-cases,
}
use peek.Prelude.Perms.{sum-perm, sum-append}
use peek.Prelude.Worklist.{traverse}
use peek.Trie.Data.{Children, leaf, entry, TrieNode, PrefixTrie, nodes, prompts, IsCounted, IsValid}
use peek.Trie.Insert.{node_prompts}
use peek.Trie.Traverse.{
  deeper, is_shared, score_expand, Score, score_step, score_walk, zero_score, SharingScore,
  sharing_score, node_size, chain_length,
}

abbrev weight : TrieNode × ℕ → ℕ
weight x = node_prompts x.0

abbrev Fine : TrieNode × ℕ → Type 0
Fine x = IsCounted x.0.children × (x.0.count ≤ node_prompts x.0)

sum-weight : (d : ℕ) (cs : Children) → sum (map weight (map (deeper d) (nodes cs))) ≡ prompts cs
sum-weight d leaf = refl
sum-weight d (entry t cs ps k rest) = omega (arith, sum-weight d rest)

All-Fine : (d : ℕ) (cs : Children) → IsCounted cs → All Fine (map (deeper d) (nodes cs))
All-Fine d leaf v = tt
All-Fine d (entry t cs ps k rest) v = ((v.2, omega (arith, v.0)), All-Fine d rest v.4)

module _ (m : ℕ) where
  expand-Fine : (x : TrieNode × ℕ) → Fine x → All Fine (score_expand m x)
  expand-Fine (n, d) f = elim (Bool-cases (is_shared m n d)) [
    | inl e ↦ rw e tt
    | inr e ↦
        rw e (All-reverse Fine (map (deeper d) (nodes n.children)) (All-Fine d n.children f.0))
  ]

  -- A node that counts as a group takes no more prompts than it has, and its subtree is left out.
  step-weight :
      (acc : Score) (x : TrieNode × ℕ)
      → Fine x
      → (score_step m acc x).grouped + sum (map weight (score_expand m x)) ≤ acc.grouped + weight x
  unfolding score_step
  step-weight acc (n, d) f = elim (Bool-cases (is_shared m n d)) [
    | inl e ↦ rw e (omega (arith, f.1))
    | inr e ↦ rw e (
        omega (
          arith,
          sum-perm (Perm.map weight (reverse_perm (map (deeper d) (nodes n.children)))),
          sum-weight d n.children,
        ))
  ]

  -- What holds of the sums at each round.
  record IsSound (s : Score) : Type 0 where
    group : s.max_group ≤ s.grouped
    deep : m * s.grouped ≤ s.depth_sum

  step-IsSound : (acc : Score) (x : TrieNode × ℕ) → IsSound acc → IsSound (score_step m acc x)
  unfolding score_step
  step-IsSound acc (n, d) s = elim (Bool-cases (is_shared m n d)) [
    | inl e ↦
        let far : m ≤ d = ground arith in
        rw e (record {
          group = ground arith;
          deep = grow (chain_length n.children n.prompt_indices) n.count far s.deep;
        })
    | inr e ↦ rw e s
  ]
    where
      grow :
          (k c : ℕ)
          → m ≤ d
          → m * acc.grouped ≤ acc.depth_sum
          → m * (acc.grouped + c) ≤ acc.depth_sum + (d + k) * c
      grow k c far h = grind arith

  sum-map-append :
      (f : TrieNode × ℕ → ℕ) (xs ys : List (TrieNode × ℕ))
      → sum (map f (xs ++ ys)) ≡ sum (map f xs) + sum (map f ys)
  sum-map-append f xs ys = ap sum (map-append f xs ys) ∙ sum-append (map f xs) (map f ys)

  walk_bound :
      (fuel : ℕ) (stack : List (TrieNode × ℕ)) (acc : Score)
      → All Fine stack
      → (traverse (score_expand m) (score_step m) fuel stack acc).grouped
        ≤ acc.grouped + sum (map weight stack)
  unfolding traverse
  walk_bound fuel [] acc f = omega arith
  walk_bound zero (x ∷ stack) acc f = omega arith
  walk_bound (suc fuel) (x ∷ stack) acc f = omega (
    arith,
    walk_bound fuel (score_expand m x ++ stack) (score_step m acc x)
        (All-append Fine (score_expand m x) stack (expand-Fine x f.0) f.1),
    step-weight acc x f.0,
    sum-map-append weight (score_expand m x) stack,
  )

  walk-IsSound :
      (fuel : ℕ) (stack : List (TrieNode × ℕ)) (acc : Score)
      → IsSound acc
      → IsSound (traverse (score_expand m) (score_step m) fuel stack acc)
  unfolding traverse
  walk-IsSound fuel [] acc s = s
  walk-IsSound zero (x ∷ stack) acc s = s
  walk-IsSound (suc fuel) (x ∷ stack) acc s =
      walk-IsSound fuel (score_expand m x ++ stack) (score_step m acc x) (step-IsSound acc x s)

-- What `sharing_score` returns is within bounds.
pub record IsBounded (m : ℕ) (s : SharingScore) : Type 0 where
  pub coverage : s.coverage.num ≤ s.coverage.den
  pub positive : (0 < s.coverage.den) × (0 < s.avg_depth.den)
  pub group : s.max_group ≤ s.coverage.num
  pub deep : 0 < s.coverage.num → m * s.avg_depth.den ≤ s.avg_depth.num

score_walk_bound :
    (m : ℕ) (trie : PrefixTrie) → IsValid trie → (score_walk m trie).grouped ≤ trie.num_prompts
unfolding score_walk
score_walk_bound m trie v = omega (
  arith,
  walk_bound m (node_size trie.root) ((trie.root, 0) ∷ []) zero_score
      ((v.counted, omega (arith, v.uncounted)), tt),
  v.total,
)

score_walk-IsSound : (m : ℕ) (trie : PrefixTrie) → IsSound m (score_walk m trie)
unfolding score_walk
score_walk-IsSound m trie =
    walk-IsSound m (node_size trie.root) ((trie.root, 0) ∷ []) zero_score
      (record { group = omega arith; deep = omega arith })

-- The coverage of `sharing_score` is at most 1, its denominators are not 0, the largest group is
-- within what is covered, and where a group is found the average depth is at least `min_depth`.
pub sharing_score-IsBounded :
    (m : ℕ) (trie : PrefixTrie) → IsValid trie → IsBounded m (sharing_score m trie)
unfolding sharing_score
sharing_score-IsBounded m trie v =
    let sound = score_walk-IsSound m trie in
    let bound = score_walk_bound m trie v in
    record {
      coverage = ground arith;
      positive = (ground arith, ground arith);
      group = ground (arith, sound.group);
      deep = λ p. ground (arith, sound.deep);
    }
