-- ===== src/Reorder/Tracked.antt =====
-- The dispatcher's counts are the numbers of the prompts that its trie stores, by group key.
use mathlib.Core.List.{Perm}
use peek.Prelude.{
  ℕ, ◌+◌, ◌-◌, ◌≡◌, ◌∙◌, refl, sym, ap, subst, inl, inr, List, [], ◌∷◌, Option, none, some, Bool,
  true, false, arith, length, length-perm, take, select, if◌then◌else◌, leb, tuple_beq,
  tuple_beq_iff, tuple_eq, Bool-cases, All,
}
use peek.Prelude.Perms.{select-perm}
use peek.Trie.Data.{PrefixTrie, TrieNode, Item, IsValid, contents}
use peek.Trie.Update.{insert, remove, remove_path, outcome}
use peek.Trie.Insert.{insert-IsValid, contents-insert}
use peek.Trie.Remove.{remove-perm}
use peek.Reorder.Build.{max_depth-insert}
use peek.Reorder.Defs.{count_up}
use peek.Reorder.Dispatcher.{Counts, Dispatcher, count_of, count_down, enrol, withdraw}

-- The prompts of a group among the stored ones.
abbrev pub stored_with : List ℕ → List Item → ℕ
stored_with k items = length (select (λ (x : Item). tuple_beq x.0 k) items)

abbrev pub NoRepeat : Counts → Type 0
NoRepeat [] = Unit
NoRepeat ((k, n) ∷ cs) = All (λ (c : List ℕ × ℕ). ¬ (k ≡ c.0)) cs × NoRepeat cs

pub record IsTracked (d : Dispatcher) : Type 0 where
  pub valid : IsValid d.trie
  pub depth : d.trie.max_depth ≡ d.max_depth
  pub distinct : NoRepeat d.group_count
  pub counts : (k : List ℕ) → count_of k d.group_count ≡ stored_with k (contents d.trie.root)

abbrev one_if : Bool → ℕ
one_if true = 1
one_if false = 0

pub same_key : (j k : List ℕ) → tuple_beq j k ≡ true → j ≡ k
same_key j k h = (tuple_beq_iff j k).0 h

-- A key that is equal to one of two different keys is not equal to the other.
other_key : (i j k : List ℕ) → tuple_beq i j ≡ false → tuple_beq i k ≡ true → tuple_beq j k ≡ false
other_key i j k h q = elim (Bool-cases (tuple_beq j k)) [
  | inr n ↦ n
  | inl y ↦ absurd (let t = (tuple_beq_iff i j).1 (same_key i k q ∙ sym (same_key j k y)) in cc)
]

count_of-count_up :
    (j k : List ℕ) (cs : Counts)
    → count_of k (count_up j cs) ≡ count_of k cs + one_if (tuple_beq j k)
unfolding count_up
count_of-count_up j k [] = elim (Bool-cases (tuple_beq j k)) [
  | inl q ↦ rw q refl
  | inr q ↦ rw q refl
]
count_of-count_up j k ((i, n) ∷ cs) = elim (Bool-cases (tuple_beq i j)) [
  | inl same ↦ elim (Bool-cases (tuple_beq i k)) [
    | inl q ↦ rw (same, ← same_key i j same) (rw q (omega arith))
    | inr q ↦ rw (same, ← same_key i j same) (rw q (omega arith))
  ]
  | inr other ↦ elim (Bool-cases (tuple_beq i k)) [
    | inl q ↦ rw (other, q, other_key i j k other q) (omega arith)
    | inr q ↦ rw (other, q) (count_of-count_up j k cs)
  ]
]

count_of-absent :
    (k : List ℕ) (cs : Counts) → All (λ (c : List ℕ × ℕ). ¬ (k ≡ c.0)) cs → count_of k cs ≡ 0
count_of-absent k [] h = refl
count_of-absent k ((i, n) ∷ cs) h = elim (Bool-cases (tuple_beq i k)) [
  | inl q ↦ absurd (h.0 (sym (same_key i k q)))
  | inr q ↦ rw q (count_of-absent k cs h.1)
]

count_of-count_down :
    (j k : List ℕ) (cs : Counts)
    → NoRepeat cs
    → count_of k (count_down j cs) ≡ count_of k cs - one_if (tuple_beq j k)
unfolding count_down
count_of-count_down j k [] h = omega arith
count_of-count_down j k ((i, n) ∷ cs) h = elim (Bool-cases (tuple_beq i j)) [
  | inl same ↦ elim (Bool-cases (tuple_beq i k)) [
    | inl q ↦ elim (Bool-cases (leb n 1)) [
      | inl one ↦
          rw (same, ← same_key i j same)
            (rw (one, q)
              (count_of-absent k cs
                  (subst (λ x. All (λ (c : List ℕ × ℕ). ¬ (x ≡ c.0)) cs) (same_key i k q) h.0)
                ∙ spent n one))
      | inr more ↦ rw (same, ← same_key i j same) (rw (more, q) refl)
    ]
    | inr q ↦ elim (Bool-cases (leb n 1)) [
      | inl one ↦ rw (same, ← same_key i j same) (rw (one, q) (omega arith))
      | inr more ↦ rw (same, ← same_key i j same) (rw (more, q) (omega arith))
    ]
  ]
  | inr other ↦ elim (Bool-cases (tuple_beq i k)) [
    | inl q ↦ rw (other, q, other_key i j k other q) (omega arith)
    | inr q ↦ rw (other, q) (count_of-count_down j k cs h.1)
  ]
]
  where
    spent : (n : ℕ) → leb n 1 ≡ true → 0 ≡ n - 1
    spent n h = ground arith

module _ (Q : List ℕ → Type 0) where
  abbrev pub AllKeys : Counts → Type 0
  AllKeys = All (λ (c : List ℕ × ℕ). Q c.0)

  pub AllKeys-count_up : (j : List ℕ) (cs : Counts) → Q j → AllKeys cs → AllKeys (count_up j cs)
  unfolding count_up
  AllKeys-count_up j [] q h = (q, tt)
  AllKeys-count_up j ((i, n) ∷ cs) q h = elim (Bool-cases (tuple_beq i j)) [
    | inl same ↦ rw same h
    | inr other ↦ rw other (h.0, AllKeys-count_up j cs q h.1)
  ]

  pub AllKeys-count_down : (j : List ℕ) (cs : Counts) → AllKeys cs → AllKeys (count_down j cs)
  unfolding count_down
  AllKeys-count_down j [] h = tt
  AllKeys-count_down j ((i, n) ∷ cs) h = elim (Bool-cases (tuple_beq i j)) [
    | inr other ↦ rw other (h.0, AllKeys-count_down j cs h.1)
    | inl same ↦ elim (Bool-cases (leb n 1)) [
      | inl one ↦ rw (same, one) h.1
      | inr more ↦ rw (same, more) h
    ]
  ]

NoRepeat-count_up : (j : List ℕ) (cs : Counts) → NoRepeat cs → NoRepeat (count_up j cs)
unfolding count_up
NoRepeat-count_up j [] h = (tt, tt)
NoRepeat-count_up j ((i, n) ∷ cs) h = elim (Bool-cases (tuple_beq i j)) [
  | inl same ↦ rw same h
  | inr other ↦ rw other (
    AllKeys-count_up (λ c. ¬ (i ≡ c)) j cs (λ q. let t = (tuple_beq_iff i j).1 q in cc) h.0,
    NoRepeat-count_up j cs h.1,
  )
]

NoRepeat-count_down : (j : List ℕ) (cs : Counts) → NoRepeat cs → NoRepeat (count_down j cs)
unfolding count_down
NoRepeat-count_down j [] h = tt
NoRepeat-count_down j ((i, n) ∷ cs) h = elim (Bool-cases (tuple_beq i j)) [
  | inr other ↦
      rw other (AllKeys-count_down (λ c. ¬ (i ≡ c)) j cs h.0, NoRepeat-count_down j cs h.1)
  | inl same ↦ elim (Bool-cases (leb n 1)) [
    | inl one ↦ rw (same, one) h.1
    | inr more ↦ rw (same, more) h
  ]
]

-- One more stored prompt is one more for its own key.
stored_with-perm :
    (k j : List ℕ) (i : ℕ) {xs ys : List Item}
    → Perm xs ((j, i) ∷ ys)
    → stored_with k xs ≡ stored_with k ys + one_if (tuple_beq j k)
stored_with-perm k j i {ys = ys} p =
    length-perm (select-perm (λ (x : Item). tuple_beq x.0 k) p) ∙ one_more (tuple_beq j k)
  where
    one_more :
        (b : Bool)
        → length (
            if b
            then (j, i) ∷ select (λ (x : Item). tuple_beq x.0 k) ys
            else select (λ (x : Item). tuple_beq x.0 k) ys)
          ≡ stored_with k ys + one_if b
    one_more true = omega arith
    one_more false = omega arith

max_depth-remove :
    (token_ids : List ℕ) (i : ℕ) (trie : PrefixTrie)
    → (remove token_ids i trie).0.max_depth ≡ trie.max_depth
unfolding remove
max_depth-remove token_ids i trie = kept (remove_path (take trie.max_depth token_ids) i trie.root)
  where
    kept : (o : Option (TrieNode × Bool)) → (outcome trie o).0.max_depth ≡ trie.max_depth
    kept none = refl
    kept (some r) = refl

-- After `submit` has updated the trie and the counts, each group's count is again the number of
-- its prompts in the trie, and the trie is well formed.
pub enrol-IsTracked :
    (hash : List ℕ → ℕ) (token_ids : List ℕ) (rid : List ℕ) (d : Dispatcher)
    → IsTracked d
    → IsTracked (enrol hash token_ids rid d)
unfolding enrol
enrol-IsTracked hash token_ids rid d t = record {
  valid = insert-IsValid token_ids d.next_idx d.trie t.valid;
  depth = max_depth-insert token_ids d.next_idx d.trie ∙ t.depth;
  distinct = NoRepeat-count_up (take d.max_depth token_ids) d.group_count t.distinct;
  counts = λ k.
      count_of-count_up (take d.max_depth token_ids) k d.group_count
      ∙ ap (λ n. n + one_if (tuple_beq (take d.max_depth token_ids) k)) (t.counts k)
      ∙ sym (
          stored_with-perm k (take d.max_depth token_ids) d.next_idx (
            subst
              (λ m.
                Perm (contents (insert token_ids d.next_idx d.trie).root)
                  ((take m token_ids, d.next_idx) ∷ contents d.trie.root))
              t.depth (contents-insert token_ids d.next_idx d.trie)));
}

-- After `remove` of a prompt that the trie stores has updated the trie and the counts, each
-- group's count is again the number of its prompts in the trie, and the trie is well formed.
pub withdraw-IsTracked :
    (token_ids : List ℕ) (i : ℕ) (d : Dispatcher)
    → IsTracked d
    → (remove token_ids i d.trie).1 ≡ true
    → IsTracked (withdraw token_ids i d)
unfolding withdraw
withdraw-IsTracked token_ids i d t found =
    let (p, v) = remove-perm token_ids i d.trie t.valid found in
    let p' =
      subst
        (λ m.
          Perm (contents d.trie.root)
            ((take m token_ids, i) ∷ contents (remove token_ids i d.trie).0.root))
        t.depth p in
    record {
      valid = v;
      depth = max_depth-remove token_ids i d.trie ∙ t.depth;
      distinct = NoRepeat-count_down (take d.max_depth token_ids) d.group_count t.distinct;
      counts = λ k.
          count_of-count_down (take d.max_depth token_ids) k d.group_count t.distinct
          ∙ (let s = stored_with-perm k (take d.max_depth token_ids) i p' in
              let c = t.counts k in omega (arith, s, c));
    }
