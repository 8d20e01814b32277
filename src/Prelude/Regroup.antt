-- ===== src/Prelude/Regroup.antt =====
-- What a test for one key selects from a list of groups does not depend on their order.
use mathlib.Core.Path.{◌≡◌, refl, sym, subst, ap, ◌∙◌}
use mathlib.Core.Bool.{Bool, true}
use mathlib.Core.Logic.{◌⊎◌, inl, inr, ∥∥₁_elim}
use mathlib.Core.List.{
  List, [], ◌∷◌, ◌++◌, Mem, Perm, Permᴰ, Pairwise, Pairwise-cons, mem-cons_self, mem-cons_of_mem,
  append-nil, append_assoc,
}
use mathlib.Core.List.Perm
use peek.Prelude.Group.{Keyed, group_by-Keyed, values, members, group_by, members-group_by}
use peek.Prelude.Tests.{Eq, Bool-cases}
use peek.Prelude.Lists.{All, concat, select, select-append}
use peek.Prelude.Partition.{Apart, Distinct, group_into-Distinct, group_by-IsPartition}

-- Where the groups are apart, what a test selects for one key does not depend on their order.
module _ {ℓ κ} {A : Type ℓ} {K : Type κ} (key : A → K) (set : (xs ys : List A) → IsProp (xs ≡ ys))
    (k : K) (p : A → Bool) (of : (x : A) → p x ≡ true → key x ≡ k) where
  select-nil : (g : List A) → ((x : A) → Mem x g → ¬ (key x ≡ k)) → select p g ≡ []
  select-nil [] h = refl
  select-nil (x ∷ g) h = elim (Bool-cases (p x)) [
    | inl q ↦ absurd (h x mem-cons_self (of x q))
    | inr q ↦ rw q (select-nil g (λ y m. h y (mem-cons_of_mem x m)))
  ]

  -- A group that holds an item of the key, or holds none.
  select-find : (g : List A) → (select p g ≡ []) ⊎ ((x : A) × Mem x g × (key x ≡ k))
  select-find [] = inl refl
  select-find (x ∷ g) = elim (Bool-cases (p x)) [
    | inl q ↦ inr (x, mem-cons_self, of x q)
    | inr q ↦ elim (select-find g) [
      | inl e ↦ inl (rw q e)
      | inr (y, m, e) ↦ inr (y, mem-cons_of_mem x m, e)
    ]
  ]

  select_swap : (g h : List A) → Apart key g h → select p g ++ select p h ≡ select p h ++ select p g
  select_swap g h a = elim (select-find g) [
    | inl e ↦ rw (e, append-nil) refl
    | inr (x, m, e) ↦ rw (select-nil h (λ y n q. a x y m n (e ∙ sym q)), append-nil) refl
  ]

  select-concat-permᴰ :
      {gs hs : List (List A)}
      → Permᴰ gs hs
      → Pairwise (Apart key) gs
      → select p (concat gs) ≡ select p (concat hs)
  select-concat-permᴰ Permᴰ.nil a = refl
  select-concat-permᴰ (Permᴰ.cons {a = g} {l₁ = gs} {l₂ = hs} e d) a =
      rw (← e, select-append, select-append, select-concat-permᴰ d (Pairwise-cons.0 a).1) refl
  select-concat-permᴰ (Permᴰ.swap {a = g} {b = h} {l = l} e f) a =
      rw (← e, ← f, select-append, select-append, select-append, select-append)
        (let s = select_swap g h ((Pairwise-cons.0 a).0 h mem-cons_self) in
          sym (append_assoc (select p g) (select p h) _)
          ∙ ap (λ xs. xs ++ select p (concat l)) s
          ∙ append_assoc (select p h) (select p g) _)
  select-concat-permᴰ (Permᴰ.trans d f) a =
      select-concat-permᴰ d a
      ∙ select-concat-permᴰ f
          (Perm.pairwise (hlevel) (λ g h r x y mx my q. r y x my mx (sym q)) (∣ d ∣₁) a)

  pub select-regrouped :
      {gs hs : List (List A)}
      → Perm gs hs
      → Pairwise (Apart key) gs
      → select p (concat gs) ≡ select p (concat hs)
  select-regrouped d a = ∥∥₁_elim d (set _ _) (λ d'. select-concat-permᴰ d' a)

module _ {ℓ κ} {A : Type ℓ} {K : Type κ} ⦃e : Eq K⦄ (key : A → K) where
  select-keyed :
      (k : K) (xs : List A) → All (λ x. key x ≡ k) xs → select (λ x. e.beq (key x) k) xs ≡ xs
  select-keyed k [] h = refl
  select-keyed k (x ∷ xs) h = rw ((e.beq_iff (key x) k).1 h.0, select-keyed k xs h.1) refl

  select-other :
      (j k : K) (xs : List A)
      → ¬ (j ≡ k)
      → All (λ x. key x ≡ j) xs
      → select (λ x. e.beq (key x) k) xs ≡ []
  select-other j k [] n h = refl
  select-other j k (x ∷ xs) n h = elim (Bool-cases (e.beq (key x) k)) [
    | inl q ↦ absurd (n (sym h.0 ∙ (e.beq_iff (key x) k).0 q))
    | inr q ↦ rw q (select-other j k xs n h.1)
  ]

  select-others :
      (k : K) (gs : List (K × List A))
      → Keyed key gs
      → All (λ (g : K × List A). ¬ (k ≡ g.0)) gs
      → select (λ x. e.beq (key x) k) (concat (values gs)) ≡ []
  select-others k [] h d = refl
  select-others k ((j, xs) ∷ gs) h d =
      rw
        (
          select-append (λ x. e.beq (key x) k) xs (concat (values gs)),
          select-other j k xs (λ q. d.0 (sym q)) h.0,
          select-others k gs h.1 d.1,
        )
        refl

  select-members :
      (k : K) (gs : List (K × List A))
      → Keyed key gs
      → Distinct gs
      → select (λ x. e.beq (key x) k) (concat (values gs)) ≡ members k gs
  select-members k [] h d = refl
  select-members k ((j, xs) ∷ gs) h d = elim (Bool-cases (e.beq j k)) [
    | inl same ↦
        let q = (e.beq_iff j k).0 same in
        rw (same, select-append (λ x. e.beq (key x) k) xs (concat (values gs)))
          (rw
            (
              select-keyed k xs (subst (λ c. All (λ x. key x ≡ c) xs) q h.0),
              select-others k gs h.1 (subst (λ c. All (λ (g : K × List A). ¬ (c ≡ g.0)) gs) q d.0),
            )
            (append-nil xs))
    | inr other ↦
        rw (other, select-append (λ x. e.beq (key x) k) xs (concat (values gs)))
          (rw
            (
              select-other j k xs (λ q. let t = (e.beq_iff j k).1 q in cc) h.0,
              select-members k gs h.1 d.1,
            )
            refl)
  ]

  -- Grouping, in whatever order the groups are put, keeps the order of the items of each key.
  pub select-group_by :
      ((xs ys : List A) → IsProp (xs ≡ ys))
      → ((a b : K) → IsProp (a ≡ b))
      → (k : K) (xs : List A) {gs : List (List A)} → Perm gs (values (group_by key xs))
      → select (λ x. e.beq (key x) k) (concat gs) ≡ select (λ x. e.beq (key x) k) xs
  unfolding group_by
  select-group_by lists keys k xs p =
      sym (
        select-regrouped key lists k (λ x. e.beq (key x) k) (λ x. (e.beq_iff (key x) k).0)
          (Perm.symm p) (group_by-IsPartition keys key xs).apart)
      ∙ select-members k (group_by key xs) (group_by-Keyed key xs)
          (group_into-Distinct key [] xs tt)
      ∙ members-group_by key k xs
