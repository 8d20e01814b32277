-- ===== src/Prelude/Perms.antt =====
-- Rearrangements: what sums, selections and concatenations make of them.
use Prim.Native.Nat.{ℕ, ◌+◌}
use mathlib.Core.Path.{◌≡◌, refl, ◌∙◌}
use mathlib.Core.Logic.{∥∥₁_elim, inl, inr}
use mathlib.Core.Bool.{Bool}
use mathlib.Core.List.{
  List, [], ◌∷◌, ◌++◌, map, Mem, mem-cons_self, Perm, Perm-prop, Permᴰ, append_assoc,
  perm_append_comm,
}
use mathlib.Core.List.Perm
use native.Mathlib.Nat.{ℕ_set}
use native.Mathlib.Omega.{arith}
use peek.Prelude.Tests.{Bool-cases}
use peek.Prelude.Lists.{sum, concat, select, All}

pub sum-append : (xs ys : List ℕ) → sum (xs ++ ys) ≡ sum xs + sum ys
sum-append [] ys = omega arith
sum-append (x ∷ xs) ys = omega (arith, sum-append xs ys)

sum-permᴰ : {xs ys : List ℕ} → Permᴰ xs ys → sum xs ≡ sum ys
sum-permᴰ Permᴰ.nil = refl
sum-permᴰ (Permᴰ.cons e p) = omega (arith, sum-permᴰ p, e)
sum-permᴰ (Permᴰ.swap e f) = omega (arith, e, f)
sum-permᴰ (Permᴰ.trans p q) = sum-permᴰ p ∙ sum-permᴰ q

pub sum-perm : {xs ys : List ℕ} → Perm xs ys → sum xs ≡ sum ys
sum-perm p = ∥∥₁_elim p (ℕ_set _ _) sum-permᴰ

module _ {ℓ} {A : Type ℓ} where
  concat-permᴰ : {xss yss : List (List A)} → Permᴰ xss yss → Perm (concat xss) (concat yss)
  concat-permᴰ Permᴰ.nil = Perm.rfl
  concat-permᴰ (Permᴰ.cons {a = x} e p) = rw (← e) (Perm.append_left x (concat-permᴰ p))
  concat-permᴰ (Permᴰ.swap {a = x} {b = y} {l = l} e f) =
      rw (← e, ← f, ← append_assoc, ← append_assoc)
        (Perm.append_right (concat l) (perm_append_comm x y))
  concat-permᴰ (Permᴰ.trans p q) = Perm.trans (concat-permᴰ p) (concat-permᴰ q)

  pub concat-perm : {xss yss : List (List A)} → Perm xss yss → Perm (concat xss) (concat yss)
  concat-perm p = ∥∥₁_elim p Perm-prop concat-permᴰ

pub concat-map-perm {ℓ κ} :
    {A : Type ℓ} {B : Type κ} (f g : A → List B) (xs : List A)
    → All (λ x. Perm (f x) (g x)) xs
    → Perm (concat (map f xs)) (concat (map g xs))
concat-map-perm f g [] h = Perm.rfl
concat-map-perm f g (x ∷ xs) h = Perm.append h.0 (concat-map-perm f g xs h.1)

pub perm_interchange {ℓ} :
    {A : Type ℓ} (a b c d : List A) → Perm ((a ++ b) ++ (c ++ d)) ((a ++ c) ++ (b ++ d))
perm_interchange a b c d =
    rw
      (
        append_assoc a b (c ++ d),
        append_assoc a c (b ++ d),
        ← append_assoc b c d,
        ← append_assoc c b d,
      )
      (Perm.append_left a (Perm.append_right d (perm_append_comm b c)))

pub perm_front {ℓ} : {A : Type ℓ} (a b c : List A) → Perm (a ++ (b ++ c)) (b ++ (a ++ c))
perm_front a b c =
    rw (← append_assoc a b c, ← append_assoc b a c) (Perm.append_right c (perm_append_comm a b))

select-permᴰ {ℓ} :
    {A : Type ℓ} (p : A → Bool) {xs ys : List A} → Permᴰ xs ys → Perm (select p xs) (select p ys)
select-permᴰ p Permᴰ.nil = Perm.rfl
select-permᴰ p (Permᴰ.cons {a = a} e h) = rw (← e) (elim (Bool-cases (p a)) [
  | inl q ↦ rw q (Perm.cons a (select-permᴰ p h))
  | inr q ↦ rw q (select-permᴰ p h)
])
select-permᴰ p (Permᴰ.swap {a = a} {b = b} {l = l} e f) =
    rw (← e, ← f)
      (elim (Bool-cases (p a)) [
        | inl q ↦ elim (Bool-cases (p b)) [
          | inl r ↦ rw (q, r) (Perm.swap b a (select p l))
          | inr r ↦ rw (q, r) Perm.rfl
        ]
        | inr q ↦ elim (Bool-cases (p b)) [
          | inl r ↦ rw (q, r) Perm.rfl
          | inr r ↦ rw (q, r) Perm.rfl
        ]
      ])
select-permᴰ p (Permᴰ.trans h k) = Perm.trans (select-permᴰ p h) (select-permᴰ p k)

pub select-perm {ℓ} :
    {A : Type ℓ} (p : A → Bool) {xs ys : List A} → Perm xs ys → Perm (select p xs) (select p ys)
select-perm p h = ∥∥₁_elim h Perm-prop (select-permᴰ p)

-- The items of the first list are removed from the second one by one.
abbrev pub remove_all {ℓ} : {A : Type ℓ} → (A → List A → List A) → List A → List A → List A
remove_all remove [] free = free
remove_all remove (b ∷ bs) free = remove_all remove bs (remove b free)

-- If `remove` takes out what is there, the others are left.
pub remove_all-perm {ℓ} :
    {A : Type ℓ} (remove : A → List A → List A)
    → ((b : A) (free : List A) → Mem b free → Perm free (b ∷ remove b free))
    → (bs l free : List A) → Perm free (bs ++ l)
    → Perm l (remove_all remove bs free)
remove_all-perm remove removes [] l free p = Perm.symm p
remove_all-perm remove removes (b ∷ bs) l free p =
    remove_all-perm remove removes bs l (remove b free)
      (Perm.cons_inv (Perm.trans (Perm.symm (removes b free ((Perm.mem_iff p).1 mem-cons_self))) p))
