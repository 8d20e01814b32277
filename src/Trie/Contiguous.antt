-- ===== src/Trie/Contiguous.antt =====
-- Prompts with a common prefix stand next to one another in the depth-first order.
use mathlib.Core.Path.{ap₂}
use mathlib.Core.Option.{some_inj}
use mathlib.Core.Logic.{∥∥₁_map₂}
use mathlib.Core.List.{
  Perm, Mem, append_of_mem, mem-cons_self, mem-cons_of_mem, map-append, append_assoc, append-nil,
}
use mathlib.Core.List.Perm
use peek.Prelude.{
  ℕ, ◌≡◌, ◌∙◌, refl, sym, ap, subst, inl, inr, List, [], ◌∷◌, ◌++◌, map, none, some, Bool, true,
  false, arith, concat, concat-append, select, select-append, Bool-cases, Option-cases, ◌==◌,
  ==_iff, ◌&&◌,
}
use peek.Prelude.Worklist
use peek.Trie.Data.{
  Children, leaf, entry, TrieNode, PrefixTrie, Item, under, here, stored, contents, nodes, get,
  IsCounted, IsValid,
}
use peek.Trie.Traverse.{node_size, dfs_expand, dfs, dfs_order}
use peek.Trie.Entries.{get-IsCounted}
use peek.Trie.Found.{Absent-get}
use peek.Trie.Order.{popped-perm, dfs_shrinks, indices, snd-under, dfs_lem, dfs-perm}

-- The path of an item begins with `p`.
abbrev pub begins : List ℕ → List ℕ → Bool
begins [] path = true
begins (t ∷ p) [] = false
begins (t ∷ p) (u ∷ path) = (u == t) && begins p path

abbrev pub has_prefix : List ℕ → Item → Bool
has_prefix p item = begins p item.0

-- The indices whose paths begin with `p`.
abbrev pub indices_under : List ℕ → TrieNode → List ℕ
indices_under p n = map (λ (x : Item). x.1) (select (has_prefix p) (contents n))

pub select-all : (xs : List Item) → select (has_prefix []) xs ≡ xs
select-all [] = refl
select-all (x ∷ xs) = ap (◌∷◌ x) (select-all xs)

select-here : (t : ℕ) (p ps : List ℕ) → select (has_prefix (t ∷ p)) (map here ps) ≡ []
select-here t p [] = refl
select-here t p (i ∷ ps) = select-here t p ps

select-under :
    (t u : ℕ) (p : List ℕ) (xs : List Item)
    → u ≡ t
    → select (has_prefix (t ∷ p)) (map (under u) xs) ≡ map (under u) (select (has_prefix p) xs)
select-under t u p [] e = refl
select-under t u p (x ∷ xs) e = ground (arith, select-under t u p xs)

select-under_ne :
    (t u : ℕ) (p : List ℕ) (xs : List Item)
    → u == t ≡ false
    → select (has_prefix (t ∷ p)) (map (under u) xs) ≡ []
select-under_ne t u p [] e = refl
select-under_ne t u p (x ∷ xs) e = rw e (select-under_ne t u p xs e)

module _ (t : ℕ) (p : List ℕ) where
  select-stored-none :
      (cs : Children) → get t cs ≡ none → select (has_prefix (t ∷ p)) (stored cs) ≡ []
  unfolding stored
  select-stored-none leaf g = refl
  select-stored-none (entry u cs ps k rest) g = elim (Bool-cases (u == t)) [
    | inl e ↦ let g' = rw e at g in cc
    | inr e ↦
        select-append (has_prefix (t ∷ p)) (map (under u) (map here ps ++ stored cs)) (stored rest)
        ∙ ap₂ ◌++◌ (select-under_ne t u p (map here ps ++ stored cs) e)
            (select-stored-none rest (rw e at g))
  ]

  -- What begins with `t` is below the child for `t`.
  select-stored :
      (cs : Children) (c : TrieNode)
      → IsCounted cs
      → get t cs ≡ some c
      → select (has_prefix (t ∷ p)) (stored cs) ≡ map (under t) (select (has_prefix p) (contents c))
  unfolding stored
  select-stored leaf c v g = cc
  select-stored (entry u cs ps k rest) c v g =
      select-append (has_prefix (t ∷ p)) (map (under u) (map here ps ++ stored cs)) (stored rest)
      ∙ elim (Bool-cases (u == t)) [
        | inl e ↦
            let q = (==_iff u t).0 e in
            ap₂ ◌++◌ (select-under t u p (map here ps ++ stored cs) q)
              (select-stored-none rest (Absent-get t rest (rw q at v.3)))
            ∙ append-nil _
            ∙ ap₂ (λ a x. map (under a) (select (has_prefix p) (contents x))) q
                (some_inj.0 (rw e at g))
        | inr e ↦
            ap₂ ◌++◌ (select-under_ne t u p (map here ps ++ stored cs) e)
              (select-stored rest c v.4 (rw e at g))
      ]

mem-nodes : (t : ℕ) (cs : Children) (c : TrieNode) → get t cs ≡ some c → Mem c (nodes cs)
mem-nodes t leaf c g = cc
mem-nodes t (entry u cs ps k rest) c g = elim (Bool-cases (u == t)) [
  | inl e ↦ rw (← some_inj.0 (rw e at g)) mem-cons_self
  | inr e ↦ mem-cons_of_mem _ (mem-nodes t rest c (rw e at g))
]

pub record IsBlock (order block_of : List ℕ) : Type 0 where
  pub before : List ℕ
  pub block : List ℕ
  pub after : List ℕ
  pub split : order ≡ before ++ (block ++ after)
  pub same : Perm block block_of

dfs_step :
    (aware : Bool) (n : TrieNode)
    → dfs aware n ≡ n.prompt_indices ++ concat (map (dfs aware) (dfs_expand aware n))
dfs_step aware n =
    dfs_lem aware n
    ∙ Worklist.output_lem (dfs_expand aware) node_size (dfs_shrinks aware) (λ c. c.prompt_indices) n
    ∙ ap (λ l. n.prompt_indices ++ concat l) (mapped (dfs_expand aware n))
  where
    mapped :
        (ns : List TrieNode)
        → map
            (Worklist.output
              (dfs_expand aware)
              node_size
              (dfs_shrinks aware)
              (λ c. c.prompt_indices))
            ns
          ≡ map (dfs aware) ns
    mapped [] = refl
    mapped (c ∷ cs) = ap₂ ◌∷◌ (sym (dfs_lem aware c)) (mapped cs)

module _ (t : ℕ) (p : List ℕ) (n : TrieNode) where
  select-contents :
      select (has_prefix (t ∷ p)) (contents n) ≡ select (has_prefix (t ∷ p)) (stored n.children)
  select-contents =
      select-append (has_prefix (t ∷ p)) (map here n.prompt_indices) (stored n.children)
      ∙ ap (λ l. l ++ select (has_prefix (t ∷ p)) (stored n.children))
          (select-here t p n.prompt_indices)

  indices_under-none : get t n.children ≡ none → indices_under (t ∷ p) n ≡ []
  indices_under-none g =
      ap (map (λ (x : Item). x.1)) (select-contents ∙ select-stored-none t p n.children g)

  pub indices_under-some :
      (c : TrieNode)
      → IsCounted n.children
      → get t n.children ≡ some c
      → indices_under (t ∷ p) n ≡ indices_under p c
  indices_under-some c v g =
      ap (map (λ (x : Item). x.1)) (select-contents ∙ select-stored t p n.children c v g)
      ∙ snd-under t (select (has_prefix p) (contents c))

-- A block of a child's order is a block of the order of its parent.
module _ (aware : Bool) (n c : TrieNode) (xs ys : List TrieNode)
    (pushed : dfs_expand aware n ≡ xs ++ c ∷ ys) {block_of : List ℕ} where
  IsBlock-child : IsBlock (dfs aware c) block_of → IsBlock (dfs aware n) block_of
  IsBlock-child b = record {
    before = n.prompt_indices ++ (concat (map (dfs aware) xs) ++ b.before);
    block = b.block;
    after = b.after ++ concat (map (dfs aware) ys);
    split =
        dfs_step aware n
        ∙ ap (λ l. n.prompt_indices ++ concat (map (dfs aware) l)) pushed
        ∙ ap (λ l. n.prompt_indices ++ concat l) (map-append (dfs aware) xs (c ∷ ys))
        ∙ ap (λ l. n.prompt_indices ++ l)
            (concat-append (map (dfs aware) xs) (map (dfs aware) (c ∷ ys)))
        ∙ ap
            (λ l.
              n.prompt_indices
              ++ (concat (map (dfs aware) xs) ++ (l ++ concat (map (dfs aware) ys))))
            b.split
        ∙ simp append_assoc;
    same = b.same;
  }

dfs-IsBlock :
    (aware : Bool) (p : List ℕ) (n : TrieNode)
    → IsCounted n.children
    → ∥ IsBlock (dfs aware n) (indices_under p n) ∥₁
unfolding indices
dfs-IsBlock aware [] n v = ∣ record {
  before = [];
  block = dfs aware n;
  after = [];
  split = sym (append-nil _);
  same = rw (select-all (contents n)) (dfs-perm aware n);
} ∣₁
dfs-IsBlock aware (t ∷ p) n v = elim (Option-cases (get t n.children)) [
  | inl g ↦ ∣ record {
    before = dfs aware n;
    block = [];
    after = [];
    split = sym (append-nil _);
    same = rw (indices_under-none t p n g) Perm.rfl;
  } ∣₁
  | inr (c, g) ↦
      let inner = dfs-IsBlock aware p c (get-IsCounted t n.children v g).2 in
      let pushed = append_of_mem (
        (Perm.mem_iff (popped-perm (λ d. d.count) aware (nodes n.children))).1
          (mem-nodes t n.children c g)) in
      ∥∥₁_map₂ inner pushed λ b (xs, ys, e).
        IsBlock-child aware n c xs ys e
          (subst (IsBlock (dfs aware c)) (sym (indices_under-some t p n c v g)) b)
]

-- For every prefix the prompts that share it are consecutive in the depth-first order: the order
-- is some prompts, then exactly those below the prefix, then the others.
pub dfs_order-IsBlock :
    (aware : Bool) (trie : PrefixTrie) (p : List ℕ)
    → IsValid trie
    → ∥ IsBlock (dfs_order aware trie) (indices_under p trie.root) ∥₁
unfolding dfs_order
dfs_order-IsBlock aware trie p v = dfs-IsBlock aware p trie.root v.counted
