-- ===== src/Reorder/Build.antt =====
-- The trie that is built from a batch of token sequences.
use mathlib.Core.List.{Perm, perm_middle, append-nil}
use mathlib.Core.List.Perm
use peek.Prelude.{ℕ, suc, ◌≡◌, refl, ap, List, [], ◌∷◌, ◌++◌, map, arith, length, take, range_from}
use peek.Trie.Data.{PrefixTrie, Item, new_trie, stored, contents, IsValid}
use peek.Trie.Update.{insert, build_from, build}
use peek.Trie.Insert.{insert-IsValid, contents-insert}

-- Each sequence, cut off at `d` tokens, with its position from `i` on.
abbrev pub positioned : ℕ → ℕ → List (List ℕ) → List Item
positioned d i [] = []
positioned d i (s ∷ ss) = (take d s, i) ∷ positioned d (suc i) ss

max_depth-build_from :
    (i : ℕ) (ss : List (List ℕ)) (trie : PrefixTrie)
    → (build_from i ss trie).max_depth ≡ trie.max_depth
unfolding build_from insert
max_depth-build_from i [] trie = refl
max_depth-build_from i (s ∷ ss) trie = max_depth-build_from (suc i) ss (insert s i trie)

build_from-IsValid :
    (i : ℕ) (ss : List (List ℕ)) (trie : PrefixTrie) → IsValid trie → IsValid (build_from i ss trie)
unfolding build_from
build_from-IsValid i [] trie v = v
build_from-IsValid i (s ∷ ss) trie v =
    build_from-IsValid (suc i) ss (insert s i trie) (insert-IsValid s i trie v)

pub max_depth-insert :
    (s : List ℕ) (i : ℕ) (trie : PrefixTrie) → (insert s i trie).max_depth ≡ trie.max_depth
unfolding insert
max_depth-insert s i trie = refl

contents-build_from :
    (i : ℕ) (ss : List (List ℕ)) (trie : PrefixTrie)
    → Perm
        (contents (build_from i ss trie).root)
        (positioned trie.max_depth i ss ++ contents trie.root)
unfolding build_from
contents-build_from i [] trie = Perm.rfl
contents-build_from i (s ∷ ss) trie =
    Perm.trans (contents-build_from (suc i) ss (insert s i trie)) (
      rw (max_depth-insert s i trie) (
        Perm.trans
          (Perm.append_left (positioned trie.max_depth (suc i) ss) (contents-insert s i trie))
          (perm_middle (positioned trie.max_depth (suc i) ss) (contents trie.root))))

pub new_trie-IsValid : (d : ℕ) → IsValid (new_trie d)
new_trie-IsValid d = record { counted = tt; uncounted = refl; total = omega arith }

-- A built trie is well formed, and holds exactly the sequences' prefixes with their positions.
pub build-IsValid : (d : ℕ) (ss : List (List ℕ)) → IsValid (build ss (new_trie d))
unfolding build
build-IsValid d ss = build_from-IsValid 0 ss (new_trie d) (new_trie-IsValid d)

pub contents-build :
    (d : ℕ) (ss : List (List ℕ)) → Perm (contents (build ss (new_trie d)).root) (positioned d 0 ss)
unfolding build stored
contents-build d ss = rw (append-nil (positioned d 0 ss)) at (contents-build_from 0 ss (new_trie d))

pub map-positioned :
    (d i : ℕ) (ss : List (List ℕ))
    → map (λ (x : Item). x.1) (positioned d i ss) ≡ range_from i (length ss)
map-positioned d i [] = refl
map-positioned d i (s ∷ ss) = ap (◌∷◌ i) (map-positioned d (suc i) ss)
