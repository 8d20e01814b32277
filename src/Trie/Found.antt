-- ===== src/Trie/Found.antt =====
-- When `PrefixTrie.remove` finds the prompt.

use mathlib.Core.Option.{some_inj}
use mathlib.Core.Logic.Or
use mathlib.Core.Logic.{∥∥₁_elim, ◌∨₁◌}
use mathlib.Core.HLevel.{⊥_prop, ×_prop}
use mathlib.Core.List.{
  Mem, Mem-prop, mem-append, exists_of_mem-map, mem-cast, not-mem-nil, mem-cons_self, mem-cons,
}
use mathlib.Core.List.Perm
use native.Mathlib.Nat.{ℕ_set}
use peek.Prelude.{
  ℕ, ◌≡◌, ◌↔◌, refl, sym, ap, subst, inl, inr, List, [], ◌∷◌, ◌++◌, map, Option, none, some, true,
  false, Bool, arith, take, ◌==◌, ==_iff, Bool-cases, map-eq-none,
}
use peek.Trie.Data.{
  Children, leaf, entry, TrieNode, PrefixTrie, Item, under, here, stored, contents, Absent,
  IsCounted, IsValid, get,
}
use peek.Trie.Update.{remove_first, leave, remove_path, remove, outcome}
use peek.Trie.Entries.{get-IsCounted}
use peek.Trie.Remove.{remove-perm}

mem-map-under :
    (t u i : ℕ) (ts : List ℕ) (xs : List Item)
    → Mem (t ∷ ts, i) (map (under u) xs)
    → (u ≡ t) × Mem (ts, i) xs
mem-map-under t u i ts xs m =
    ∥∥₁_elim (exists_of_mem-map m) (×_prop (ℕ_set _ _) Mem-prop) λ (a, ma, q). (
      ground (arith, ap (λ (x : Item). x.0) q),
      let e : a ≡ (ts, i) = λ j. (cons_tail (q j).0, (q j).1) in mem-cast (sym e) ma,
    )
  where
    cons_tail : List ℕ → List ℕ
    cons_tail [] = []
    cons_tail (x ∷ xs) = xs

not-mem-under_nil : (t i : ℕ) (xs : List Item) → ¬ Mem ([], i) (map (under t) xs)
not-mem-under_nil t i xs m =
    ∥∥₁_elim (exists_of_mem-map m) ⊥_prop λ (x, _, q). ground (arith, ap (λ (y : Item). y.0) q)

-- A stored prompt is below the first entry or below a later one.
mem-entry :
    (x : Item) (t : ℕ) (cs : Children) (ps : List ℕ) (k : ℕ) (rest : Children)
    → Mem x (stored (entry t cs ps k rest))
    → Mem x (map (under t) (map here ps ++ stored cs)) ∨₁ Mem x (stored rest)
unfolding stored
mem-entry x t cs ps k rest m = mem-append.0 m

not-mem-stored_leaf : (x : Item) → ¬ Mem x (stored leaf)
unfolding stored
not-mem-stored_leaf x m = not-mem-nil m

not-mem-stored_nil : (i : ℕ) (cs : Children) → ¬ Mem ([], i) (stored cs)
not-mem-stored_nil i leaf m = not-mem-stored_leaf ([], i) m
not-mem-stored_nil i (entry t cs ps k rest) m =
    Or.elim ⊥_prop (mem-entry ([], i) t cs ps k rest m) (not-mem-under_nil t i _)
      (not-mem-stored_nil i rest)

not-mem-here : (t i : ℕ) (ts ps : List ℕ) → ¬ Mem (t ∷ ts, i) (map here ps)
not-mem-here t i ts ps m =
    ∥∥₁_elim (exists_of_mem-map m) ⊥_prop λ (x, _, q). ground (arith, ap (λ (y : Item). y.0) q)

pub Absent-get : (t : ℕ) (cs : Children) → Absent t cs → get t cs ≡ none
Absent-get t leaf h = refl
Absent-get t (entry u cs ps k rest) h = ground (arith, Absent-get t rest)

apart : (u t : ℕ) → u == t ≡ false → ¬ (u ≡ t)
apart u t e q = cc ((==_iff u t).1 q)

get-none-not-mem :
    (t i : ℕ) (ts : List ℕ) (cs : Children) → get t cs ≡ none → ¬ Mem (t ∷ ts, i) (stored cs)
get-none-not-mem t i ts leaf g m = not-mem-stored_leaf (t ∷ ts, i) m
get-none-not-mem t i ts (entry u cs ps k rest) g m = elim (Bool-cases (u == t)) [
  | inl e ↦ let g' = rw e at g in cc
  | inr e ↦
      Or.elim ⊥_prop (mem-entry (t ∷ ts, i) u cs ps k rest m)
        (λ a. absurd (apart u t e (mem-map-under t u i ts _ a).0))
        (get-none-not-mem t i ts rest (rw e at g))
]

-- A stored prompt whose path begins with `t` is stored below the child for `t`, and only there.
pub mem-get :
    (t i : ℕ) (ts : List ℕ) (cs : Children) (c : TrieNode)
    → IsCounted cs
    → get t cs ≡ some c
    → Mem (t ∷ ts, i) (stored cs)
    → Mem (ts, i) (contents c)
mem-get t i ts leaf c v g m = cc
mem-get t i ts (entry u cs ps k rest) c v g m = elim (Bool-cases (u == t)) [
  | inl e ↦
      Or.elim Mem-prop (mem-entry (t ∷ ts, i) u cs ps k rest m)
        (λ a.
          subst (λ x. Mem (ts, i) (contents x)) (some_inj.0 (rw e at g))
            (mem-map-under t u i ts _ a).1)
        (λ a.
          absurd
            (get-none-not-mem t i ts rest (Absent-get t rest (rw ((==_iff u t).0 e) at v.3)) a))
  | inr e ↦
      Or.elim Mem-prop (mem-entry (t ∷ ts, i) u cs ps k rest m)
        (λ a. absurd (apart u t e (mem-map-under t u i ts _ a).0))
        (mem-get t i ts rest c v.4 (rw e at g))
]

remove_first-none : (i : ℕ) (ps : List ℕ) → remove_first i ps ≡ none → ¬ Mem ([], i) (map here ps)
remove_first-none i [] h m = not-mem-nil m
remove_first-none i (p ∷ ps) h m = elim (Bool-cases (p == i)) [
  | inl e ↦ let h' = rw e at h in cc
  | inr e ↦
      Or.elim ⊥_prop (mem-cons.0 m) (λ q. apart p i e (sym (ap (λ (x : Item). x.1) q)))
        (remove_first-none i ps (map-eq-none (◌∷◌ p) (remove_first i ps) (rw e at h)))
]

remove_path-none :
    (ts : List ℕ) (i : ℕ) (n : TrieNode)
    → IsCounted n.children
    → remove_path ts i n ≡ none
    → ¬ Mem (ts, i) (contents n)
unfolding remove_path
remove_path-none [] i n v h m =
    Or.elim ⊥_prop (mem-append.0 m)
      (remove_first-none i n.prompt_indices (map-eq-none _ (remove_first i n.prompt_indices) h))
      (not-mem-stored_nil i n.children)
remove_path-none (t ∷ ts) i n v h m = below (get t n.children) refl (λ c. remove_path-none ts i c)
  where
    in_child : Mem (t ∷ ts, i) (stored n.children)
    in_child =
        Or.elim Mem-prop (mem-append.0 m) (λ a. absurd (not-mem-here t i ts n.prompt_indices a))
          (λ a. a)

    below :
        (o : Option TrieNode)
        → get t n.children ≡ o
        → ((c : TrieNode)
            → IsCounted c.children
            → remove_path ts i c ≡ none
            → ¬ Mem (ts, i) (contents c))
        → ⊥
    below none g ih = get-none-not-mem t i ts n.children g in_child
    below (some c) g ih =
        ih c (get-IsCounted t n.children v g).2
          (map-eq-none (leave t n) (remove_path ts i c) (rw g at h))
          (mem-get t i ts n.children c v g in_child)

-- In a well-formed trie `remove` returns True exactly when the index is stored under the first
-- `max_depth` tokens.
pub remove_iff :
    (token_ids : List ℕ) (i : ℕ) (trie : PrefixTrie)
    → IsValid trie
    → ((remove token_ids i trie).1 ≡ true)
      ↔ Mem (take trie.max_depth token_ids, i) (contents trie.root)
unfolding remove
remove_iff token_ids i trie v = (
  (λ h. (Perm.mem_iff (remove-perm token_ids i trie v h).0).1 mem-cons_self),
  settle (remove_path (take trie.max_depth token_ids) i trie.root)
      (remove_path-none (take trie.max_depth token_ids) i trie.root v.counted),
)
  where
    settle :
        (o : Option (TrieNode × Bool))
        → (o ≡ none → ¬ Mem (take trie.max_depth token_ids, i) (contents trie.root))
        → Mem (take trie.max_depth token_ids, i) (contents trie.root)
        → (outcome trie o).1 ≡ true
    settle none f m = absurd (f refl m)
    settle (some r) f m = refl
