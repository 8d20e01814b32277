-- ===== src/Trie/Insert.antt =====
-- What `PrefixTrie.insert` keeps and what it adds.
use mathlib.Core.List.{Perm, map-append, append_assoc, perm_middle}
use mathlib.Core.List.Perm
use peek.Prelude.{
  ℕ, ◌+◌, ◌∙◌, ◌≡◌, ◌≢◌, refl, sym, inl, inr, List, [], ◌∷◌, map, arith, length, length-append,
  take, ◌==◌, ==_iff, Bool-cases,
}
use peek.Trie.Data.{
  Children, leaf, entry, TrieNode, PrefixTrie, new_node, Item, under, here, stored, contents,
  prompts, Absent, IsCounted, IsValid,
}
use peek.Trie.Update.{bump, step_into, insert_path, insert}

abbrev pub node_prompts : TrieNode → ℕ
node_prompts node = length node.prompt_indices + prompts node.children

module _ (t : ℕ) (f : TrieNode → TrieNode) where
  prompts-step_into :
      (cs : Children)
      → ((n : TrieNode) → node_prompts (f n) ≡ node_prompts n + 1)
      → prompts (step_into t f cs) ≡ prompts cs + 1
  prompts-step_into leaf h = omega (arith, h new_node)
  prompts-step_into (entry u cs ps k rest) h = elim (Bool-cases (u == t)) [
    | inl e ↦ rw e (omega (arith, h (record { children = cs; prompt_indices = ps; count = k })))
    | inr e ↦ rw e (omega (arith, prompts-step_into rest h))
  ]

  stored-step_into :
      (item : Item) (cs : Children)
      → ((n : TrieNode) → Perm (contents (f n)) (item ∷ contents n))
      → Perm (stored (step_into t f cs)) (under t item ∷ stored cs)
  unfolding stored
  stored-step_into item leaf h = Perm.append_right [] (Perm.map (under t) (h new_node))
  stored-step_into item (entry u cs ps k rest) h = elim (Bool-cases (u == t)) [
    | inl e ↦
        rw (e, (==_iff u t).0 e)
          (Perm.append_right (stored rest)
            (Perm.map (under t) (h (record { children = cs; prompt_indices = ps; count = k }))))
    | inr e ↦ rw e (
        Perm.trans (Perm.append_left _ (stored-step_into item rest h))
          (perm_middle _ (stored rest)))
  ]

  Absent-step_into : (u : ℕ) (cs : Children) → t ≢ u → Absent u cs → Absent u (step_into t f cs)
  Absent-step_into u leaf d h = (d, tt)
  Absent-step_into u (entry v cs ps k rest) d h = elim (Bool-cases (v == t)) [
    | inl e ↦ rw e h
    | inr e ↦ rw e (h.0, Absent-step_into u rest d h.1)
  ]

  -- What stepping into a child must do to keep the counts.
  record Keeps : Type 0 where
    counted : (n : TrieNode) → IsCounted n.children → IsCounted (f n).children
    count : (n : TrieNode) → (f n).count ≡ n.count + 1
    prompts : (n : TrieNode) → node_prompts (f n) ≡ node_prompts n + 1

  step_into-IsCounted : Keeps → (cs : Children) → IsCounted cs → IsCounted (step_into t f cs)
  step_into-IsCounted h leaf v = (
    omega (arith, h.count new_node, h.prompts new_node),
    omega (arith, h.count new_node),
    h.counted new_node tt,
    tt,
    tt,
  )
  step_into-IsCounted h (entry u cs ps k rest) v = elim (Bool-cases (u == t)) [
    | inl e ↦
        let n : TrieNode = record { children = cs; prompt_indices = ps; count = k } in
        rw e (
          omega (arith, h.count n, h.prompts n, v.0),
          omega (arith, h.count n),
          h.counted n v.2,
          v.3,
          v.4,
        )
    | inr e ↦ rw e (
      v.0,
      v.1,
      v.2,
      Absent-step_into u rest (λ q. cc ((==_iff u t).1 (sym q))) v.3,
      step_into-IsCounted h rest v.4,
    )
  ]

abbrev entering : List ℕ → ℕ → TrieNode → TrieNode
entering ts i child = insert_path ts i (bump child)

prompts-insert_path :
    (ts : List ℕ) (i : ℕ) (n : TrieNode) → node_prompts (insert_path ts i n) ≡ node_prompts n + 1
unfolding insert_path
prompts-insert_path [] i n = omega (arith, length-append n.prompt_indices (i ∷ []))
prompts-insert_path (t ∷ ts) i n =
    omega (
      arith,
      prompts-step_into t (entering ts i) n.children (λ c. prompts-insert_path ts i (bump c)),
    )

count-insert_path : (ts : List ℕ) (i : ℕ) (n : TrieNode) → (insert_path ts i n).count ≡ n.count
unfolding insert_path
count-insert_path [] i n = refl
count-insert_path (t ∷ ts) i n = refl

pub contents-insert_path :
    (ts : List ℕ) (i : ℕ) (n : TrieNode)
    → Perm (contents (insert_path ts i n)) ((ts, i) ∷ contents n)
unfolding insert_path
contents-insert_path [] i n =
    rw (map-append)
      (simp append_assoc (perm_middle (map here n.prompt_indices) (stored n.children)))
contents-insert_path (t ∷ ts) i n =
    Perm.trans
      (Perm.append_left (map here n.prompt_indices) (
        stored-step_into t (entering ts i) (ts, i) n.children
          (λ c. contents-insert_path ts i (bump c))))
      (perm_middle _ (stored n.children))

insert_path-IsCounted :
    (ts : List ℕ) (i : ℕ) (n : TrieNode)
    → IsCounted n.children
    → IsCounted (insert_path ts i n).children
unfolding insert_path
insert_path-IsCounted [] i n v = v
insert_path-IsCounted (t ∷ ts) i n v =
    step_into-IsCounted t (entering ts i)
      (record {
        counted = λ c. insert_path-IsCounted ts i (bump c);
        count = λ c. count-insert_path ts i (bump c);
        prompts = λ c. prompts-insert_path ts i (bump c);
      })
      n.children v

-- Inserting a prompt keeps the trie well formed: distinct tokens, and every count the number of
-- prompts that pass through its node.
pub insert-IsValid :
    (token_ids : List ℕ) (i : ℕ) (trie : PrefixTrie)
    → IsValid trie
    → IsValid (insert token_ids i trie)
unfolding insert
insert-IsValid token_ids i trie v = record {
  counted = insert_path-IsCounted (take trie.max_depth token_ids) i trie.root v.counted;
  uncounted = count-insert_path (take trie.max_depth token_ids) i trie.root ∙ v.uncounted;
  total = omega (arith, prompts-insert_path (take trie.max_depth token_ids) i trie.root, v.total);
}

-- Inserting a prompt adds its index under its first `max_depth` tokens, and changes nothing else.
pub contents-insert :
    (token_ids : List ℕ) (i : ℕ) (trie : PrefixTrie)
    → Perm
        (contents (insert token_ids i trie).root)
        ((take trie.max_depth token_ids, i) ∷ contents trie.root)
unfolding insert
contents-insert token_ids i trie = contents-insert_path (take trie.max_depth token_ids) i trie.root
