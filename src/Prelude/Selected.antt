-- ===== src/Prelude/Selected.antt =====
-- The groups of a list with only the items left that pass a test.
use mathlib.Core.Path.{◌≡◌, refl, subst}
use mathlib.Core.Bool.{Bool}
use mathlib.Core.Logic.{∥∥₁_elim, inl, inr, ◌∨₁◌}
use mathlib.Core.Logic.Or
use mathlib.Core.List.{List, [], ◌∷◌, ◌++◌, Mem, Pairwise, mem-cons, not-mem-nil}
use peek.Prelude.Tests.{if◌then◌else◌, Bool-cases}
use peek.Prelude.Lists.{select, select-append, concat}
use peek.Prelude.Perms.{select-perm}
use peek.Prelude.Partition.{IsPartition, Apart}

-- `g` in front, when it is not empty.
abbrev pub in_front {ℓ} : {A : Type ℓ} → List A → List (List A) → List (List A)
in_front [] gs = gs
in_front (x ∷ xs) gs = (x ∷ xs) ∷ gs

module _ {ℓ} {A : Type ℓ} (p : A → Bool) where
  abbrev pub selected : List (List A) → List (List A)
  selected [] = []
  selected (g ∷ gs) = in_front (select p g) (selected gs)

  concat-in_front : (g : List A) (gs : List (List A)) → concat (in_front g gs) ≡ g ++ concat gs
  concat-in_front [] gs = refl
  concat-in_front (x ∷ g) gs = refl

  concat-selected : (gs : List (List A)) → concat (selected gs) ≡ select p (concat gs)
  concat-selected [] = refl
  concat-selected (g ∷ gs) =
      rw
        (
          concat-in_front (select p g) (selected gs),
          concat-selected gs,
          select-append p g (concat gs),
        )
        refl

  Mem-select_left : (xs : List A) (a : A) → Mem a (select p xs) → Mem a xs
  Mem-select_left [] a m = m
  Mem-select_left (x ∷ xs) a m = elim (Bool-cases (p x)) [
    | inl passes ↦
        Or.elim (hlevel)
          (mem-cons.0 (subst (λ b. Mem a (if b then x ∷ select p xs else select p xs)) passes m))
          (λ q. mem-cons.1 (Or.inl q)) (λ n. mem-cons.1 (Or.inr (Mem-select_left xs a n)))
    | inr fails ↦ mem-cons.1 (
        Or.inr (
          Mem-select_left xs a
            (subst (λ b. Mem a (if b then x ∷ select p xs else select p xs)) fails m)))
  ]

  Mem-in_front : (g h : List A) (gs : List (List A)) → Mem h (in_front g gs) → (h ≡ g) ∨₁ Mem h gs
  Mem-in_front [] h gs m = Or.inr m
  Mem-in_front (x ∷ g) h gs m = mem-cons.0 m

  -- Each of these groups is a part of one of the given groups.
  Mem-selected :
      (gs : List (List A)) (h : List A)
      → Mem h (selected gs)
      → ∥ ((g : List A) × Mem g gs × ((a : A) → Mem a h → Mem a g)) ∥₁
  Mem-selected [] h m = absurd (not-mem-nil m)
  Mem-selected (g ∷ gs) h m =
      Or.elim (hlevel) (Mem-in_front (select p g) h (selected gs) m)
        (λ q. ∣ (g, mem-cons.1 (Or.inl refl), λ a n. Mem-select_left g a (subst (Mem a) q n)) ∣₁)
        (λ n.
          ∥∥₁_elim (Mem-selected gs h n) (hlevel) λ (k, mk, f). ∣ (k, mem-cons.1 (Or.inr mk), f) ∣₁)

  module _ {κ} {K : Type κ} (key : A → K) where
    Pairwise-in_front :
        (g : List A) (gs : List (List A))
        → ((h : List A) → Mem h gs → Apart key g h)
        → Pairwise (Apart key) gs
        → Pairwise (Apart key) (in_front g gs)
    Pairwise-in_front [] gs below s = s
    Pairwise-in_front (x ∷ g) gs below s = Pairwise.cons below s

    selected-Apart :
        (gs : List (List A)) → Pairwise (Apart key) gs → Pairwise (Apart key) (selected gs)
    selected-Apart [] Pairwise.nil = Pairwise.nil
    selected-Apart (g ∷ gs) (Pairwise.cons below s) =
        Pairwise-in_front (select p g) (selected gs)
          (λ h m.
            ∥∥₁_elim (Mem-selected gs h m) (hlevel)
              λ (k, mk, f) x y mx my. below k mk x y (Mem-select_left g x mx) (f y my))
          (selected-Apart gs s)

    pub IsPartition-selected :
        ((a b : K) → IsProp (a ≡ b))
        → {xs : List A} {gs : List (List A)} → IsPartition key xs gs
        → IsPartition key (select p xs) (selected gs)
    IsPartition-selected set {xs} {gs} i = record {
      whole = rw (concat-selected gs) (select-perm p i.whole);
      alike = λ h m x y mx my.
          ∥∥₁_elim (Mem-selected gs h m) (set _ _) λ (k, mk, f). i.alike k mk x y (f x mx) (f y my);
      apart = selected-Apart gs i.apart;
    }
