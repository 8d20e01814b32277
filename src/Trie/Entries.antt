-- ===== src/Trie/Entries.antt =====
-- The dictionary of children when the entry of a token is read, replaced or deleted.
use mathlib.Core.Option.{some_inj}
use mathlib.Core.List.{Perm, perm_middle}
use mathlib.Core.List.Perm
use peek.Prelude.{
  ℕ, ◌+◌, ◌≤◌, ◌<◌, ◌≡◌, sym, ap, subst, inl, inr, [], ◌∷◌, some, arith, ◌==◌, ==_iff, Bool-cases,
}
use peek.Trie.Data.{
  Children, leaf, entry, TrieNode, Item, under, stored, contents, prompts, Absent, IsCounted, get,
  put, delete,
}
use peek.Trie.Insert.{node_prompts}

module _ (t : ℕ) {c : TrieNode} where
  -- The dictionary's entry for `t`, replaced or deleted.
  pub stored-put :
      (item : Item) (c' : TrieNode) (cs : Children)
      → get t cs ≡ some c
      → Perm (contents c) (item ∷ contents c')
      → Perm (stored cs) (under t item ∷ stored (put t c' cs))
  unfolding stored
  stored-put item c' leaf g p = cc
  stored-put item c' (entry u cs ps k rest) g p = elim (Bool-cases (u == t)) [
    | inl e ↦
        let q = some_inj.0 (rw e at g) in
        rw (e, (==_iff u t).0 e)
          (Perm.append_right (stored rest)
            (Perm.map (under t) (subst (λ x. Perm (contents x) (item ∷ contents c')) (sym q) p)))
    | inr e ↦ rw e (
        Perm.trans (Perm.append_left _ (stored-put item c' rest (rw e at g) p))
          (perm_middle _ (stored (put t c' rest))))
  ]

  pub stored-delete :
      (item : Item) (cs : Children)
      → get t cs ≡ some c
      → Perm (contents c) (item ∷ [])
      → Perm (stored cs) (under t item ∷ stored (delete t cs))
  unfolding stored
  stored-delete item leaf g p = cc
  stored-delete item (entry u cs ps k rest) g p = elim (Bool-cases (u == t)) [
    | inl e ↦
        let q = some_inj.0 (rw e at g) in
        rw (e, (==_iff u t).0 e)
          (Perm.append_right (stored rest)
            (Perm.map (under t) (subst (λ x. Perm (contents x) (item ∷ [])) (sym q) p)))
    | inr e ↦ rw e (
        Perm.trans (Perm.append_left _ (stored-delete item rest (rw e at g) p))
          (perm_middle _ (stored (delete t rest))))
  ]

  pub prompts-put :
      (c' : TrieNode) (cs : Children)
      → get t cs ≡ some c
      → prompts (put t c' cs) + node_prompts c ≡ prompts cs + node_prompts c'
  prompts-put c' leaf g = cc
  prompts-put c' (entry u cs ps k rest) g = elim (Bool-cases (u == t)) [
    | inl e ↦ rw e (omega (arith, ap node_prompts (some_inj.0 (rw e at g))))
    | inr e ↦ rw e (omega (arith, prompts-put c' rest (rw e at g)))
  ]

  pub prompts-delete :
      (cs : Children) → get t cs ≡ some c → prompts (delete t cs) + node_prompts c ≡ prompts cs
  prompts-delete leaf g = cc
  prompts-delete (entry u cs ps k rest) g = elim (Bool-cases (u == t)) [
    | inl e ↦ rw e (omega (arith, ap node_prompts (some_inj.0 (rw e at g))))
    | inr e ↦ rw e (omega (arith, prompts-delete rest (rw e at g)))
  ]

  pub prompts-get : (cs : Children) → get t cs ≡ some c → node_prompts c ≤ prompts cs
  prompts-get cs g = omega (arith, prompts-delete cs g)

  -- The invariant at a child.
  pub get-IsCounted :
      (cs : Children)
      → IsCounted cs
      → get t cs ≡ some c
      → (c.count ≡ node_prompts c) × (0 < c.count) × IsCounted c.children
  get-IsCounted leaf v g = cc
  get-IsCounted (entry u cs ps k rest) v g = elim (Bool-cases (u == t)) [
    | inl e ↦
        subst (λ x. (x.count ≡ node_prompts x) × (0 < x.count) × IsCounted x.children)
          (some_inj.0 (rw e at g)) (v.0, v.1, v.2)
    | inr e ↦ get-IsCounted rest v.4 (rw e at g)
  ]

Absent-put : (u t : ℕ) (c : TrieNode) (cs : Children) → Absent u cs → Absent u (put t c cs)
Absent-put u t c leaf h = tt
Absent-put u t c (entry v cs ps k rest) h = elim (Bool-cases (v == t)) [
  | inl e ↦ rw e h
  | inr e ↦ rw e (h.0, Absent-put u t c rest h.1)
]

Absent-delete : (u t : ℕ) (cs : Children) → Absent u cs → Absent u (delete t cs)
Absent-delete u t leaf h = tt
Absent-delete u t (entry v cs ps k rest) h = elim (Bool-cases (v == t)) [
  | inl e ↦ rw e h.1
  | inr e ↦ rw e (h.0, Absent-delete u t rest h.1)
]

pub put-IsCounted :
    (t : ℕ) (c : TrieNode) (cs : Children)
    → c.count ≡ node_prompts c
    → 0 < c.count
    → IsCounted c.children
    → IsCounted cs
    → IsCounted (put t c cs)
put-IsCounted t c leaf e p w v = tt
put-IsCounted t c (entry u cs ps k rest) e p w v = elim (Bool-cases (u == t)) [
  | inl q ↦ rw q (e, p, w, v.3, v.4)
  | inr q ↦ rw q (v.0, v.1, v.2, Absent-put u t c rest v.3, put-IsCounted t c rest e p w v.4)
]

pub delete-IsCounted : (t : ℕ) (cs : Children) → IsCounted cs → IsCounted (delete t cs)
delete-IsCounted t leaf v = tt
delete-IsCounted t (entry u cs ps k rest) v = elim (Bool-cases (u == t)) [
  | inl q ↦ rw q v.4
  | inr q ↦ rw q (v.0, v.1, v.2, Absent-delete u t rest v.3, delete-IsCounted t rest v.4)
]
