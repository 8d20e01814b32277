-- ===== src/Prelude/Sort.antt =====
-- `list.sort` and `sorted`: a stable sort by a test `le`, as an insertion sort.
use mathlib.Core.Path.{◌≡◌, refl}
use mathlib.Core.Bool.{Bool, true, false}
use mathlib.Core.List.{List, [], ◌∷◌, Mem, Perm, Pairwise, Pairwise-singleton, mem-cons}
use mathlib.Core.List.Perm
use mathlib.Core.Logic.Or
use mathlib.Core.Logic.{inl, inr}
use Prim.Native.Nat.{ℕ}
use native.Mathlib.Omega.{arith}
use peek.Prelude.Tests.{leb, if◌then◌else◌, Bool-cases}
use peek.Prelude.Lists.{select}

module _ {ℓ} {A : Type ℓ} (le : A → A → Bool) where
  unfoldable pub insert_by : A → List A → List A
  insert_by x [] = x ∷ []
  insert_by x (y ∷ ys) = if le x y then x ∷ y ∷ ys else y ∷ insert_by x ys

  unfoldable pub sort_by : List A → List A
  unfolding insert_by
  sort_by [] = []
  sort_by (x ∷ xs) = insert_by x (sort_by xs)

  insert_by-perm : (x : A) (ys : List A) → Perm (insert_by x ys) (x ∷ ys)
  unfolding insert_by
  insert_by-perm x [] = Perm.rfl
  insert_by-perm x (y ∷ ys) = elim (Bool-cases (le x y)) [
    | inl e ↦ rw e Perm.rfl
    | inr e ↦ rw e (Perm.trans (Perm.cons y (insert_by-perm x ys)) (Perm.swap x y ys))
  ]

  pub sort_by-perm : (xs : List A) → Perm (sort_by xs) xs
  unfolding sort_by
  sort_by-perm [] = Perm.rfl
  sort_by-perm (x ∷ xs) = Perm.trans (insert_by-perm x (sort_by xs)) (Perm.cons x (sort_by-perm xs))

  -- Items that compare as equal keep their order.
  module _ (p : A → Bool) (tied : (x y : A) → p x ≡ true → p y ≡ true → le x y ≡ true) where
    select-insert_by : (x : A) (ys : List A) → select p (insert_by x ys) ≡ select p (x ∷ ys)
    unfolding insert_by
    select-insert_by x [] = refl
    select-insert_by x (y ∷ ys) = ground (arith, select-insert_by x ys, tied x y)

    pub select-sort_by : (xs : List A) → select p (sort_by xs) ≡ select p xs
    unfolding sort_by
    select-sort_by [] = refl
    select-sort_by (x ∷ xs) = ground (arith, select-insert_by x (sort_by xs), select-sort_by xs)

-- What the test must satisfy for the result to be sorted.
pub record IsOrder {ℓ} {A : Type ℓ} (le : A → A → Bool) : Type ℓ where
  pub trans : (a b c : A) → le a b ≡ true → le b c ≡ true → le a c ≡ true
  pub total : (a b : A) → le a b ≡ false → le b a ≡ true

abbrev pub IsSorted {ℓ} : {A : Type ℓ} → (A → A → Bool) → List A → Type ℓ
IsSorted le = Pairwise (λ a b. le a b ≡ true)

module _ {ℓ} {A : Type ℓ} (le : A → A → Bool) (o : IsOrder le) where
  below_head :
      (x y : A) (ys : List A)
      → le x y ≡ true
      → ((a : A) → Mem a ys → le y a ≡ true)
      → (a : A) → Mem a (y ∷ ys)
      → le x a ≡ true
  below_head x y ys h below a m =
      Or.elim (hlevel) (mem-cons.0 m) (λ q. rw q h) (λ n. o.trans x y a h (below a n))

  insert_by-IsSorted : (x : A) {ys : List A} → IsSorted le ys → IsSorted le (insert_by le x ys)
  unfolding insert_by
  insert_by-IsSorted x Pairwise.nil = Pairwise-singleton _ x
  insert_by-IsSorted x (Pairwise.cons {a = y} {l = ys} below s) = elim (Bool-cases (le x y)) [
    | inl e ↦ rw e (Pairwise.cons (below_head x y ys e below) (Pairwise.cons below s))
    | inr e ↦ rw e (
        Pairwise.cons
          (λ a m.
            Or.elim (hlevel) (mem-cons.0 ((Perm.mem_iff (insert_by-perm le x ys)).0 m))
              (λ q. rw q (o.total x y e)) (below a))
          (insert_by-IsSorted x s))
  ]

  pub sort_by-IsSorted : (xs : List A) → IsSorted le (sort_by le xs)
  unfolding sort_by
  sort_by-IsSorted [] = Pairwise.nil
  sort_by-IsSorted (x ∷ xs) = insert_by-IsSorted x (sort_by-IsSorted xs)

-- `key=f`, and `key=f, reverse=True`, which keeps the order of ties as well.
module _ {ℓ} {A : Type ℓ} (key : A → ℕ) where
  abbrev pub le_key : A → A → Bool
  le_key a b = leb (key a) (key b)

  abbrev pub ge_key : A → A → Bool
  ge_key a b = leb (key b) (key a)

  pub le_key-IsOrder : IsOrder le_key
  le_key-IsOrder = record { trans = λ a b c p q. ground arith; total = λ a b p. ground arith }

  pub ge_key-IsOrder : IsOrder ge_key
  ge_key-IsOrder = record { trans = λ a b c p q. ground arith; total = λ a b p. ground arith }
