-- ===== src/Prelude/Group.antt =====
-- `groups = defaultdict(list)`, then `groups[key(r)].append(r)` for each `r`: a dictionary in
-- the order in which its keys were first seen.
use mathlib.Core.Path.{◌≡◌, refl, sym}
use mathlib.Core.List.{List, [], ◌∷◌, ◌++◌, Perm, append_assoc, append-nil, perm_append_singleton}
use mathlib.Core.List.Perm
use mathlib.Core.Logic.{inl, inr}
use native.Mathlib.Omega.{arith}
use peek.Prelude.Tests.{Eq, if◌then◌else◌, Bool-cases}
use peek.Prelude.Lists.{All, All-append, concat, select}

module _ {ℓ κ} {K : Type κ} {A : Type ℓ} ⦃e : Eq K⦄ where
  -- `groups[k].append(x)`
  unfoldable pub add_to : K → A → List (K × List A) → List (K × List A)
  add_to k x [] = (k, x ∷ []) ∷ []
  add_to k x ((j, xs) ∷ gs) = if e.beq j k then (j, xs ++ x ∷ []) ∷ gs else (j, xs) ∷ add_to k x gs

  unfoldable pub group_into : (A → K) → List (K × List A) → List A → List (K × List A)
  unfolding add_to
  group_into key gs [] = gs
  group_into key gs (x ∷ xs) = group_into key (add_to (key x) x gs) xs

  unfoldable pub group_by : (A → K) → List A → List (K × List A)
  unfolding group_into
  group_by key xs = group_into key [] xs

-- `groups.values()`
abbrev pub values {ℓ κ} : {K : Type κ} {A : Type ℓ} → List (K × A) → List A
values [] = []
values ((k, v) ∷ gs) = v ∷ values gs

module _ {ℓ κ} {K : Type κ} {A : Type ℓ} ⦃e : Eq K⦄ where
  add_to-perm :
      (k : K) (x : A) (gs : List (K × List A))
      → Perm (concat (values (add_to k x gs))) (concat (values gs) ++ x ∷ [])
  unfolding add_to
  add_to-perm k x [] = Perm.rfl
  add_to-perm k x ((j, xs) ∷ gs) = elim (Bool-cases (e.beq j k)) [
    | inl same ↦
        rw same (simp append_assoc (Perm.append_left xs (Perm.symm (perm_append_singleton x _))))
    | inr other ↦ rw (other, append_assoc) (Perm.append_left xs (add_to-perm k x gs))
  ]

  group_into-perm :
      (key : A → K) (gs : List (K × List A)) (xs : List A)
      → Perm (concat (values (group_into key gs xs))) (concat (values gs) ++ xs)
  unfolding group_into
  group_into-perm key gs [] = rw append-nil Perm.rfl
  group_into-perm key gs (x ∷ xs) =
      Perm.trans (group_into-perm key (add_to (key x) x gs) xs)
        (Perm.trans (Perm.append_right xs (add_to-perm (key x) x gs)) (rw append_assoc Perm.rfl))

  -- Grouping loses and invents nothing.
  pub group_by-perm : (key : A → K) (xs : List A) → Perm (concat (values (group_by key xs))) xs
  unfolding group_by
  group_by-perm key xs = group_into-perm key [] xs

  -- `groups.get(k, [])`
  abbrev pub members : K → List (K × List A) → List A
  members k [] = []
  members k ((j, xs) ∷ gs) = if e.beq j k then xs else members k gs

  members-add_to :
      (k j : K) (x : A) (gs : List (K × List A))
      → members k (add_to j x gs) ≡ members k gs ++ (if e.beq j k then x ∷ [] else [])
  unfolding add_to
  members-add_to k j x [] = refl
  members-add_to k j x ((i, xs) ∷ gs) = ground (
    arith,
    e.beq_iff i j,
    e.beq_iff i k,
    e.beq_iff j k,
    members-add_to k j x gs,
    append-nil xs,
    append-nil (members k gs),
  )

  members-group_into :
      (key : A → K) (k : K) (gs : List (K × List A)) (xs : List A)
      → members k (group_into key gs xs) ≡ members k gs ++ select (λ x. e.beq (key x) k) xs
  unfolding group_into
  members-group_into key k gs [] = sym (append-nil (members k gs))
  members-group_into key k gs (x ∷ xs) = elim (Bool-cases (e.beq (key x) k)) [
    | inl same ↦
        rw (members-group_into key k (add_to (key x) x gs) xs, members-add_to k (key x) x gs, same)
          (append_assoc (members k gs) (x ∷ []) _)
    | inr other ↦
        rw (members-group_into key k (add_to (key x) x gs) xs, members-add_to k (key x) x gs, other)
          (rw append-nil refl)
  ]

  -- A group holds the items of its key, in their order.
  pub members-group_by :
      (key : A → K) (k : K) (xs : List A)
      → members k (group_by key xs) ≡ select (λ x. e.beq (key x) k) xs
  unfolding group_by
  members-group_by key k xs = members-group_into key k [] xs

  -- All members of a group have its key.
  abbrev pub Keyed : (A → K) → List (K × List A) → Type κ
  Keyed key = All (λ g. All (λ x. key x ≡ g.0) g.1)

  add_to-Keyed :
      (key : A → K) (x : A) (gs : List (K × List A))
      → Keyed key gs
      → Keyed key (add_to (key x) x gs)
  unfolding add_to
  add_to-Keyed key x [] h = ((refl, tt), tt)
  add_to-Keyed key x ((j, xs) ∷ gs) h = elim (Bool-cases (e.beq j (key x))) [
    | inl same ↦
        rw same (
          All-append (λ y. key y ≡ j) xs (x ∷ []) h.0 (sym ((e.beq_iff j (key x)).0 same), tt),
          h.1,
        )
    | inr other ↦ rw other (h.0, add_to-Keyed key x gs h.1)
  ]

  group_into-Keyed :
      (key : A → K) (gs : List (K × List A)) (xs : List A)
      → Keyed key gs
      → Keyed key (group_into key gs xs)
  unfolding group_into
  group_into-Keyed key gs [] h = h
  group_into-Keyed key gs (x ∷ xs) h =
      group_into-Keyed key (add_to (key x) x gs) xs (add_to-Keyed key x gs h)

  pub group_by-Keyed : (key : A → K) (xs : List A) → Keyed key (group_by key xs)
  unfolding group_by
  group_by-Keyed key xs = group_into-Keyed key [] xs tt
