-- ===== src/Trie/Remove.antt =====
-- What `PrefixTrie.remove` takes out and what it keeps.
use mathlib.Core.Option.{some_inj}
use mathlib.Core.List.{Perm, perm_middle}
use mathlib.Core.List.Perm
use mathlib.Core.Option
use peek.Prelude.{
  ℕ, ◌+◌, ◌-◌, ◌<◌, ◌≡◌, ◌∙◌, refl, subst, inl, inr, List, [], ◌∷◌, ◌++◌, map, Option, none, some,
  Bool, true, false, arith, length, take, ◌==◌, ==_iff, Bool-cases, map-eq-some, bind-eq-some,
  length-perm, ◌&&◌,
}
use peek.Trie.Data.{
  Children, leaf, entry, TrieNode, PrefixTrie, Item, under, here, stored, contents, prompts,
  IsCounted, IsValid, get, put, delete, is_leaf, is_nil,
}
use peek.Trie.Update.{remove_first, is_empty, leave, remove_path, outcome, remove}
use peek.Trie.Insert.{node_prompts}
use peek.Trie.Entries.{
  stored-put, stored-delete, prompts-get, prompts-put, prompts-delete, get-IsCounted, put-IsCounted,
  delete-IsCounted,
}

-- What `remove_path` makes of a node, at the way back up.
record Removal (item : Item) (n : TrieNode) (r : TrieNode × Bool) : Type 0 where
  perm : Perm (contents n) (item ∷ contents r.0)
  counted : IsCounted r.0.children
  fewer : node_prompts n ≡ node_prompts r.0 + 1
  count : r.0.count ≡ n.count
  kept : r.1 ≡ false → 0 < node_prompts r.0

remove_first-perm : (i : ℕ) (ps qs : List ℕ) → remove_first i ps ≡ some qs → Perm ps (i ∷ qs)
remove_first-perm i [] qs h = cc
remove_first-perm i (p ∷ ps) qs h = elim (Bool-cases (p == i)) [
  | inl e ↦ rw ((==_iff p i).0 e, some_inj.0 (rw e at h)) Perm.rfl
  | inr e ↦ go (remove_first i ps) (remove_first-perm i ps) (rw e at h)
]
  where
    go :
        (o : Option (List ℕ))
        → ((rs : List ℕ) → o ≡ some rs → Perm ps (i ∷ rs))
        → Option.map (◌∷◌ p) o ≡ some qs
        → Perm (p ∷ ps) (i ∷ qs)
    go none f k = cc
    go (some rs) f k = rw (← some_inj.0 k) (Perm.trans (Perm.cons p (f rs refl)) (Perm.swap i p rs))

-- An empty node stores nothing.
is_empty-contents : (n : TrieNode) → is_empty n ≡ true → contents n ≡ []
unfolding stored
is_empty-contents n h = go n.children n.prompt_indices (ground arith) (ground arith)
  where
    go :
        (cs : Children) (ps : List ℕ)
        → is_leaf cs ≡ true
        → is_nil ps ≡ true
        → map here ps ++ stored cs ≡ []
    go leaf [] a b = refl
    go leaf (p ∷ ps) a b = cc
    go (entry t cs ps' k rest) ps a b = cc

is_empty-prompts : (n : TrieNode) → is_empty n ≡ true → node_prompts n ≡ 0
is_empty-prompts n h = go n.children n.prompt_indices (ground arith) (ground arith)
  where
    go :
        (cs : Children) (ps : List ℕ)
        → is_leaf cs ≡ true
        → is_nil ps ≡ true
        → length ps + prompts cs ≡ 0
    go leaf [] a b = omega arith
    go leaf (p ∷ ps) a b = cc
    go (entry t cs ps' k rest) ps a b = cc

-- A node that is not empty has prompts.
not_empty-prompts :
    (n : TrieNode)
    → IsCounted n.children
    → n.count ≡ node_prompts n
    → is_empty n ≡ false
    → 0 < node_prompts n
not_empty-prompts n v e h = elim (Bool-cases (is_leaf n.children && is_nil n.prompt_indices)) [
  | inl none_left ↦ ground arith
  | inr some_left ↦ go n.children n.prompt_indices v some_left
]
  where
    go :
        (cs : Children) (ps : List ℕ)
        → IsCounted cs
        → (is_leaf cs && is_nil ps) ≡ false
        → 0 < length ps + prompts cs
    go leaf [] v' b = cc
    go leaf (p ∷ ps) v' b = omega arith
    go (entry t cs ps' k rest) ps v' b = omega arith

-- The way back up from a child `c` to its parent `n`.
module _ (t : ℕ) (item : Item) (n c d : TrieNode) (v : IsCounted n.children)
    (g : get t n.children ≡ some c) (perm : Perm (contents c) (item ∷ contents d))
    (fewer : node_prompts c ≡ node_prompts d + 1) where
  pruned-Removal :
      contents d ≡ []
      → node_prompts d ≡ 0
      → Removal (under t item) n (record n { children = delete t n.children }, true)
  pruned-Removal nothing zeroed = record {
    perm =
        Perm.trans
          (Perm.append_left (map here n.prompt_indices)
            (stored-delete t item n.children g (rw nothing at perm)))
          (perm_middle (map here n.prompt_indices) (stored (delete t n.children)));
    counted = delete-IsCounted t n.children v;
    fewer = omega (arith, prompts-delete t n.children g);
    count = refl;
    kept = λ e. cc;
  }

  kept-Removal :
      d.count ≡ node_prompts d
      → 0 < node_prompts d
      → IsCounted d.children
      → Removal (under t item) n (record n { children = put t d n.children }, false)
  kept-Removal counts pos w = record {
    perm =
        Perm.trans
          (Perm.append_left (map here n.prompt_indices) (stored-put t item d n.children g perm))
          (perm_middle (map here n.prompt_indices) (stored (put t d n.children)));
    counted = put-IsCounted t d n.children counts (omega arith) w v;
    fewer = omega (arith, prompts-put t d n.children g);
    count = refl;
    kept = λ e. omega (arith, prompts-put t d n.children g, prompts-get t n.children g);
  }

some_left :
    (pruning : Bool) (d : TrieNode)
    → (pruning && is_empty d) ≡ false
    → (pruning ≡ false → 0 < node_prompts d)
    → IsCounted d.children
    → d.count ≡ node_prompts d
    → 0 < node_prompts d
some_left true d e kept w counts = not_empty-prompts d w counts e
some_left false d e kept w counts = kept refl

leave-Removal :
    (t : ℕ) (item : Item) (n c d : TrieNode) (pruning : Bool)
    → IsCounted n.children
    → get t n.children ≡ some c
    → Removal item c (d, pruning)
    → Removal (under t item) n (leave t n (d, pruning))
leave-Removal t item n c d pruning v g h =
    let d' : TrieNode = record d { count = d.count - 1 } in
    let (counts, pos, _) = get-IsCounted t n.children v g in
    let d_count : d.count - 1 ≡ node_prompts d = omega (arith, h.count, h.fewer) in
    elim (Bool-cases (pruning && is_empty d')) [
      | inl e ↦ rw e (
          pruned-Removal t item n c d' v g h.perm h.fewer (is_empty-contents d' (ground arith))
            (is_empty-prompts d' (ground arith)))
      | inr e ↦ rw e (
          kept-Removal t item n c d' v g h.perm h.fewer d_count
            (some_left pruning d' e h.kept h.counted d_count) h.counted)
    ]

remove_path-Removal :
    (ts : List ℕ) (i : ℕ) (n : TrieNode) (r : TrieNode × Bool)
    → IsCounted n.children
    → remove_path ts i n ≡ some r
    → Removal (ts, i) n r
unfolding remove_path
remove_path-Removal [] i n r v h =
    let (ps, e, q) = map-eq-some _ (remove_first i n.prompt_indices) h in
    subst (Removal ([], i) n) q (record {
      perm =
          Perm.append_right (stored n.children)
            (Perm.map here (remove_first-perm i n.prompt_indices ps e));
      counted = v;
      fewer = omega (arith, length-perm (remove_first-perm i n.prompt_indices ps e));
      count = refl;
      kept = λ f. cc;
    })
remove_path-Removal (t ∷ ts) i n r v h =
    let (c, found, h') = bind-eq-some (get t n.children) _ h in
    let (s, removed, q) = map-eq-some _ (remove_path ts i c) h' in
    subst (Removal (t ∷ ts, i) n) q (
      leave-Removal t (ts, i) n c s.0 s.1 v found
        (remove_path-Removal ts i c s (get-IsCounted t n.children v found).2 removed))

-- A removal that succeeds takes out exactly the prompt that it names, and the trie that is left is
-- well formed: its counts are right and no empty node stays behind.
pub remove-perm :
    (token_ids : List ℕ) (i : ℕ) (trie : PrefixTrie)
    → IsValid trie
    → (remove token_ids i trie).1 ≡ true
    → Perm
        (contents trie.root)
        ((take trie.max_depth token_ids, i) ∷ contents (remove token_ids i trie).0.root)
      × IsValid (remove token_ids i trie).0
unfolding remove
remove-perm token_ids i trie v h =
    settle (remove_path (take trie.max_depth token_ids) i trie.root)
      (λ r. remove_path-Removal (take trie.max_depth token_ids) i trie.root r v.counted) h
  where
    path : List ℕ
    path = take trie.max_depth token_ids

    settle :
        (o : Option (TrieNode × Bool))
        → ((r : TrieNode × Bool) → o ≡ some r → Removal (path, i) trie.root r)
        → (outcome trie o).1 ≡ true
        → Perm (contents trie.root) ((path, i) ∷ contents (outcome trie o).0.root)
          × IsValid (outcome trie o).0
    settle none f k = cc
    settle (some r) f k =
        let m = f r refl in
        (
          m.perm,
          record {
            counted = m.counted;
            uncounted = m.count ∙ v.uncounted;
            total = omega (arith, v.total, m.fewer);
          },
        )

-- A removal that fails changes nothing.
pub remove_fails :
    (token_ids : List ℕ) (i : ℕ) (trie : PrefixTrie)
    → (remove token_ids i trie).1 ≡ false
    → (remove token_ids i trie).0 ≡ trie
unfolding remove
remove_fails token_ids i trie h = settle (remove_path (take trie.max_depth token_ids) i trie.root) h
  where
    settle : (o : Option (TrieNode × Bool)) → (outcome trie o).1 ≡ false → (outcome trie o).0 ≡ trie
    settle none k = refl
    settle (some r) k = cc
