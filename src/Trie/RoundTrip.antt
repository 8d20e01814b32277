-- ===== src/Trie/RoundTrip.antt =====
-- `remove` undoes `insert`.

use mathlib.Core.Option.{some_inj}
use mathlib.Core.List.{
  Mem, mem-append_left, mem-append_right, mem-map_of_mem, mem-cons_self, mem-cons_of_mem, mem-cast,
  not-mem-nil,
}
use peek.Prelude.{
  ℕ, ◌+◌, ◌-◌, ◌<◌, ◌≡◌, ◌∙◌, refl, sym, ap, subst, inl, inr, List, [], ◌∷◌, ◌++◌, none, some, true,
  false, Bool, arith, take, ◌==◌, ==_iff, Bool-cases, Option-cases, ◌&&◌,
}
use peek.Trie.Data.{
  Children, leaf, entry, entry_of, TrieNode, PrefixTrie, new_node, under, here, stored, contents,
  IsCounted, IsValid, get, put, delete,
}
use peek.Trie.Update.{
  bump, step_into, insert_path, insert, remove_first, is_empty, leave, remove_path, remove,
}
use peek.Trie.Entries.{get-IsCounted}

remove_first-snoc : (i : ℕ) (ps : List ℕ) → ¬ Mem i ps → remove_first i (ps ++ i ∷ []) ≡ some ps
remove_first-snoc i [] h = rw ((==_iff i i).1 refl)
remove_first-snoc i (p ∷ ps) h = elim (Bool-cases (p == i)) [
  | inl e ↦ absurd (h (mem-cast (sym ((==_iff p i).0 e)) mem-cons_self))
  | inr e ↦ rw (e, remove_first-snoc i ps (λ m. h (mem-cons_of_mem p m)))
]

module _ (t : ℕ) (f : TrieNode → TrieNode) where
  -- The entry of `t` after stepping into it, and how it is put back or taken away.
  step_into-some :
      (cs : Children) (c : TrieNode)
      → get t cs ≡ some c
      → (get t (step_into t f cs) ≡ some (f c)) × (put t c (step_into t f cs) ≡ cs)
  step_into-some leaf c g = cc
  step_into-some (entry u cs ps k rest) c g = elim (Bool-cases (u == t)) [
    | inl e ↦
        let q = some_inj.0 (rw e at g) in
        rw e (rw e (ap (λ x. some (f x)) q, ap (λ x. entry_of u x rest) (sym q)))
    | inr e ↦
        let (a, b) = step_into-some rest c (rw e at g) in
        rw e (rw e (a, ap (λ (x : Children). entry u cs ps k x) b))
  ]

  step_into-none :
      (cs : Children)
      → get t cs ≡ none
      → (get t (step_into t f cs) ≡ some (f new_node)) × (delete t (step_into t f cs) ≡ cs)
  step_into-none leaf g = rw ((==_iff t t).1 refl) (refl, refl)
  step_into-none (entry u cs ps k rest) g = elim (Bool-cases (u == t)) [
    | inl e ↦ let g' = rw e at g in cc
    | inr e ↦
        let (a, b) = step_into-none rest (rw e at g) in
        rw e (rw e (a, ap (λ (x : Children). entry u cs ps k x) b))
  ]

unbump : (c : TrieNode) → record (bump c) { count = c.count + 1 - 1 } ≡ c
unbump c = let e : c.count + 1 - 1 ≡ c.count = omega arith in ap (λ k. record c { count = k }) e

-- The way back up where the child was there before: it is put back as it was.
leave-put :
    (t : ℕ) (n c : TrieNode) (f : TrieNode → TrieNode) (pruning : Bool)
    → 0 < c.count
    → get t n.children ≡ some c
    → leave t (record n { children = step_into t f n.children }) (bump c, pruning) ≡ (n, false)
leave-put t n c f pruning pos g =
    let full : (pruning && is_empty (record (bump c) { count = c.count + 1 - 1 })) ≡ false =
      ground arith in
    rw full (
      ap (λ cs. (record n { children = cs }, false))
        (ap (λ d. put t d (step_into t f n.children)) (unbump c)
          ∙ (step_into-some t f n.children c g).1))

-- Where it was not, it is empty again and deleted.
leave-delete :
    (t : ℕ) (n : TrieNode) (f : TrieNode → TrieNode)
    → get t n.children ≡ none
    → leave t (record n { children = step_into t f n.children }) (bump new_node, true) ≡ (n, true)
leave-delete t n f g =
    ap (λ cs. (record n { children = cs }, true)) (step_into-none t f n.children g).1

mem-get_child :
    (t i : ℕ) (ts : List ℕ) (cs : Children) (c : TrieNode)
    → get t cs ≡ some c
    → Mem (ts, i) (contents c)
    → Mem (t ∷ ts, i) (stored cs)
unfolding stored
mem-get_child t i ts leaf c g m = cc
mem-get_child t i ts (entry u cs ps k rest) c g m = elim (Bool-cases (u == t)) [
  | inl e ↦
      let q = some_inj.0 (rw e at g) in
      rw ((==_iff u t).0 e) (
        mem-append_left (stored rest)
          (mem-map_of_mem (under t) (subst (λ x. Mem (ts, i) (contents x)) (sym q) m)))
  | inr e ↦ mem-append_right _ (mem-get_child t i ts rest c (rw e at g) m)
]

-- `pruning` stays true below a node that has no children.
remove-insert_path :
    (ts : List ℕ) (i : ℕ) (n : TrieNode)
    → IsCounted n.children
    → ¬ Mem (ts, i) (contents n)
    → (pruning : Bool) × (remove_path ts i (insert_path ts i n) ≡ some (n, pruning))
      × (n.children ≡ leaf → pruning ≡ true)
unfolding remove_path insert_path stored
remove-insert_path [] i n v h = (
  true,
  rw (
      remove_first-snoc i n.prompt_indices
        (λ m. h (mem-append_left (stored n.children) (mem-map_of_mem here m)))),
  λ e. refl,
)
remove-insert_path (t ∷ ts) i n v h = elim (Option-cases (get t n.children)) [
  | inl g ↦
      let (pr, e, keep) = remove-insert_path ts i (bump new_node) tt not-mem-nil in
      let f = λ (c : TrieNode). insert_path ts i (bump c) in
      (
        true,
        rw ((step_into-none t f n.children g).0, e, keep refl) (ap some (leave-delete t n f g)),
        λ _. refl,
      )
  | inr (c, g) ↦
      let (counts, pos, w) = get-IsCounted t n.children v g in
      let (pr, e, keep) =
        remove-insert_path ts i (bump c) w
          (λ m. h (mem-append_right _ (mem-get_child t i ts n.children c g m))) in
      let f = λ (d : TrieNode). insert_path ts i (bump d) in
      (
        false,
        rw ((step_into-some t f n.children c g).0, e) (ap some (leave-put t n c f pr pos g)),
        λ q. let g' = subst (λ cs. get t cs ≡ some c) q g in cc,
      )
]

-- Removing a prompt that was just inserted gives the trie back as it was, node for node, provided
-- that its index was not stored under the same path before.
pub remove-insert :
    (token_ids : List ℕ) (i : ℕ) (trie : PrefixTrie)
    → IsValid trie
    → ¬ Mem (take trie.max_depth token_ids, i) (contents trie.root)
    → remove token_ids i (insert token_ids i trie) ≡ (trie, true)
unfolding remove insert
remove-insert token_ids i trie v h =
    let (pr, e, _) = remove-insert_path (take trie.max_depth token_ids) i trie.root v.counted h in
    let back : trie.num_prompts + 1 - 1 ≡ trie.num_prompts = omega arith in
    rw e (ap (λ k. (record trie { num_prompts = k }, true)) back)
