-- ===== src/Prelude/Pick.antt =====
-- `[xs[i] for i in order]`: a list rearranged by positions.
use mathlib.Core.Path.{◌≡◌, refl, sym, ap}
use mathlib.Core.Logic.Or
use mathlib.Core.Option.{Option, none, some}
use mathlib.Core.List.{
  List, [], ◌∷◌, ◌++◌, map, Perm, Mem, mem-cons, mem-cons_self, mem-cons_of_mem, not-mem-nil,
}
use mathlib.Core.List.Perm
use Prim.Native.Nat.{ℕ, zero, suc, ◌+◌, ◌≤◌, ◌<◌}
use native.Mathlib.Bridge.{le_prop}
use native.Mathlib.Omega.{arith}
use peek.Prelude.Tests.{◌>>=◌}
use peek.Prelude.Lists.{length, get_elem?, range_from, range, concat}
use peek.Prelude.Perms.{concat-perm}

module _ {ℓ} {A : Type ℓ} where
  -- None where a position is out of range.
  unfoldable pub pick : List A → List ℕ → Option (List A)
  pick xs [] = some []
  pick xs (i ∷ is) = do x ← get_elem? xs i; rest ← pick xs is; some (x ∷ rest)

  abbrev here : List A → ℕ → List A
  here xs i = elim (get_elem? xs i) [ none ↦ [] | some x ↦ x ∷ [] ]

  -- The items at the positions that are in range.
  abbrev pub items_at : List A → List ℕ → List A
  items_at xs is = concat (map (here xs) is)

  here-some : (xs : List A) (i : ℕ) (x : A) → get_elem? xs i ≡ some x → here xs i ≡ x ∷ []
  here-some xs i x e = rw (here, e) refl

  get_elem?_lt : (xs : List A) (i : ℕ) → i < length xs → (x : A) × (get_elem? xs i ≡ some x)
  get_elem?_lt [] i h = absurd (omega arith)
  get_elem?_lt (x ∷ xs) zero h = (x, refl)
  get_elem?_lt (x ∷ xs) (suc i) h = get_elem?_lt xs i (omega arith)

  pick-items_at :
      (xs : List A) (is : List ℕ)
      → ((i : ℕ) → Mem i is → i < length xs)
      → pick xs is ≡ some (items_at xs is)
  unfolding pick
  pick-items_at xs [] h = refl
  pick-items_at xs (i ∷ is) h =
      let (x, e) = get_elem?_lt xs i (h i mem-cons_self) in
      rw (e, pick-items_at xs is (λ j m. h j (mem-cons_of_mem i m)))
        (ap (λ l. some (l ++ items_at xs is)) (sym (here-some xs i x e)))

  items_at-skip :
      (x : A) (xs : List A) (s n : ℕ)
      → items_at (x ∷ xs) (range_from (suc s) n) ≡ items_at xs (range_from s n)
  items_at-skip x xs s zero = refl
  items_at-skip x xs s (suc n) = ap (◌++◌ (here xs s)) (items_at-skip x xs (suc s) n)

  items_at-range : (xs : List A) → items_at xs (range (length xs)) ≡ xs
  items_at-range [] = refl
  items_at-range (x ∷ xs) = rw (items_at-skip x xs 0 (length xs), items_at-range xs) refl

range_from-lt : (s n k : ℕ) → Mem k (range_from s n) → suc k ≤ s + n
range_from-lt s zero k m = absurd (not-mem-nil m)
range_from-lt s (suc n) k m =
    Or.elim le_prop (mem-cons.0 m) (λ q. omega (arith, q))
      (λ r. let h = range_from-lt (suc s) n k r in omega arith)

-- A permutation of the positions gives a permutation of the list, and no position is out of range.
pub pick-perm {ℓ} :
    {A : Type ℓ} (xs : List A) {is : List ℕ}
    → Perm is (range (length xs))
    → (out : List A) × (pick xs is ≡ some out) × Perm out xs
pick-perm xs {is} p = (
  items_at xs is,
  pick-items_at xs is
      (λ i m. let h = range_from-lt 0 (length xs) i ((Perm.mem_iff p).0 m) in omega arith),
  Perm.trans (concat-perm (Perm.map (here xs) p)) (rw (items_at-range xs) Perm.rfl),
)
