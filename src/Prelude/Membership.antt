-- ===== src/Prelude/Membership.antt =====
-- `x in seen` as a test, and lists without repetition.
use Prim.Native.Nat.{ℕ, zero, suc, ◌≤◌}
use mathlib.Core.Path.{◌≡◌, refl, sym}
use mathlib.Core.Bool.{Bool, true, false, ◌||◌, not}
use mathlib.Core.Logic.{◌↔◌, inl, inr}
use mathlib.Core.Logic.Or
use mathlib.Core.List.{
  List, [], ◌∷◌, ◌++◌, Mem, Mem-prop, Perm, Pairwise, Nodup, Nodup-cons, Nodup-append, mem-cons,
  mem-cons_self, mem-cons_of_mem, mem-cast, not-mem-nil,
}
use mathlib.Core.List.Perm
use native.Mathlib.Bridge.{le_prop}
use native.Mathlib.Omega.{arith}
use peek.Prelude.Tests.{Eq, Bool-cases}
use peek.Prelude.Lists.{select, select-append, range_from, range}
use peek.Prelude.Perms.{select-perm}

module _ {ℓ} {K : Type ℓ} ⦃e : Eq K⦄ where
  unfoldable pub contains : List K → K → Bool
  contains [] k = false
  contains (x ∷ xs) k = e.beq x k || contains xs k

  contains→Mem : (xs : List K) (k : K) → contains xs k ≡ true → Mem k xs
  unfolding contains
  contains→Mem [] k h = cc
  contains→Mem (x ∷ xs) k h = elim (Bool-cases (e.beq x k)) [
    | inl same ↦ mem-cast (sym ((e.beq_iff x k).0 same)) mem-cons_self
    | inr other ↦ mem-cons_of_mem x (contains→Mem xs k (rw other at h))
  ]

  Mem→contains : (xs : List K) (k : K) → Mem k xs → contains xs k ≡ true
  unfolding contains
  Mem→contains [] k m = absurd (not-mem-nil m)
  Mem→contains (x ∷ xs) k m = elim (Bool-cases (e.beq x k)) [
    | inl same ↦ rw same refl
    | inr other ↦ rw other (
        Mem→contains xs k
          (Or.elim Mem-prop (mem-cons.0 m) (λ q. absurd (differ x k other (sym q))) (λ n. n)))
  ]
    where
      differ : (x' k' : K) → e.beq x' k' ≡ false → ¬ (x' ≡ k')
      differ x' k' h q = let h' = (e.beq_iff x' k').1 q in cc

  pub contains_iff : (xs : List K) (k : K) → (contains xs k ≡ true) ↔ Mem k xs
  contains_iff xs k = (contains→Mem xs k, Mem→contains xs k)

  -- `[x for x in xs if x not in gs]`
  abbrev pub select_out : List K → List K → List K
  select_out gs xs = select (λ x. not (contains gs x)) xs

  select_out-all : (gs xs : List K) → ((k : K) → Mem k xs → Mem k gs) → select_out gs xs ≡ []
  select_out-all gs [] h = refl
  select_out-all gs (x ∷ xs) h =
      rw (Mem→contains gs x (h x mem-cons_self))
        (select_out-all gs xs (λ k m. h k (mem-cons_of_mem x m)))

  pub select_out-none : (gs xs : List K) → ((k : K) → Mem k xs → ¬ Mem k gs) → select_out gs xs ≡ xs
  select_out-none gs [] h = refl
  select_out-none gs (x ∷ xs) h = elim (Bool-cases (contains gs x)) [
    | inl q ↦ absurd (h x mem-cons_self (contains→Mem gs x q))
    | inr q ↦ rw q (rw (select_out-none gs xs (λ k m. h k (mem-cons_of_mem x m))))
  ]

  -- What is left of a list without repetition when some of its items are taken out.
  pub select_out-perm :
      (gs left all : List K) → Nodup all → Perm (gs ++ left) all → Perm (select_out gs all) left
  select_out-perm gs left all d p =
      let (_, _, apart) = (Nodup-append {l₁ = gs} {l₂ = left}).0 (Perm.nodup (Perm.symm p) d) in
      Perm.trans (select-perm (λ x. not (contains gs x)) (Perm.symm p)) (
        rw (select-append (λ x. not (contains gs x)) gs left, select_out-all gs gs (λ k m. m))
          (rw (select_out-none gs left (λ k m n. apart k n m)) Perm.rfl))

range_from-Mem : (s n k : ℕ) → Mem k (range_from s n) → s ≤ k
range_from-Mem s zero k m = absurd (not-mem-nil m)
range_from-Mem s (suc n) k m =
    Or.elim le_prop (mem-cons.0 m) (λ q. omega (arith, q))
      (λ r. let h = range_from-Mem (suc s) n k r in omega arith)

range_from-Nodup : (s n : ℕ) → Nodup (range_from s n)
range_from-Nodup s zero = Pairwise.nil
range_from-Nodup s (suc n) =
    Nodup-cons.1
      (λ m. let h = range_from-Mem (suc s) n s m in omega arith, range_from-Nodup (suc s) n)

pub range-Nodup : (n : ℕ) → Nodup (range n)
range-Nodup n = range_from-Nodup 0 n
