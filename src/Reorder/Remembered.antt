-- ===== src/Reorder/Remembered.antt =====
-- What the dispatcher remembers for removal, as items of its trie.
use mathlib.Core.List.{Perm, append-nil, perm_middle}
use mathlib.Core.List.Perm
use mathlib.Core.Option.{some-injective}
use peek.Prelude.{
  ℕ, ◌≡◌, inl, inr, List, [], ◌∷◌, ◌++◌, map, some, take, tuple_beq, tuple_eq, Bool-cases,
}
use peek.Prelude.Dict.{get, put, delete}
use peek.Trie.Data.{Item}

abbrev pub Infos : Type 0
Infos = List (List ℕ × (List ℕ × ℕ))

-- What the trie stores of a remembered prompt.
abbrev pub item_of : ℕ → List ℕ × (List ℕ × ℕ) → Item
item_of depth (rid, (token_ids, i)) = (take depth token_ids, i)

-- What is left of these items when some are taken out.
abbrev pub Leaves : List Item → List Item → Type 0
Leaves left all = (more : List Item) × Perm all (left ++ more)

Leaves-refl : (all : List Item) → Leaves all all
Leaves-refl all = ([], rw (append-nil all) Perm.rfl)

Leaves-cons : (x : Item) (left all : List Item) → Leaves left all → Leaves (x ∷ left) (x ∷ all)
Leaves-cons x left all (more, p) = (more, Perm.cons x p)

Leaves-drop : (x : Item) (left all : List Item) → Leaves left all → Leaves left (x ∷ all)
Leaves-drop x left all (more, p) =
    (x ∷ more, Perm.trans (Perm.cons x p) (Perm.symm (perm_middle left more)))

-- The first item of those left may stand after another.
Leaves-swap :
    (x y : Item) (left all : List Item) → Leaves (y ∷ left) all → Leaves (y ∷ x ∷ left) (x ∷ all)
Leaves-swap x y left all (more, p) =
    (more, Perm.trans (Perm.cons x p) (Perm.swap y x (left ++ more)))

module _ (depth : ℕ) (rid : List ℕ) where
  delete-Leaves :
      (infos : Infos) → Leaves (map (item_of depth) (delete rid infos)) (map (item_of depth) infos)
  unfolding delete
  delete-Leaves [] = ([], Perm.rfl)
  delete-Leaves ((k, v) ∷ infos) = elim (Bool-cases (tuple_beq k rid)) [
    | inl same ↦ rw same (Leaves-drop (item_of depth (k, v)) _ _ (delete-Leaves infos))
    | inr other ↦ rw other (Leaves-cons (item_of depth (k, v)) _ _ (delete-Leaves infos))
  ]

  -- A remembered prompt stands before what is remembered without it.
  pub get-Leaves :
      (v : List ℕ × ℕ) (infos : Infos)
      → get rid infos ≡ some v
      → Leaves
          (item_of depth (rid, v) ∷ map (item_of depth) (delete rid infos))
          (map (item_of depth) infos)
  unfolding get delete
  get-Leaves v [] h = cc
  get-Leaves v ((k, w) ∷ infos) h = elim (Bool-cases (tuple_beq k rid)) [
    | inl same ↦
        let e : w ≡ v = some-injective _ _ (rw same at h) in
        rw (same, e) (Leaves-cons (item_of depth (rid, v)) _ _ (delete-Leaves infos))
    | inr other ↦ rw other (
        Leaves-swap (item_of depth (k, w)) (item_of depth (rid, v)) _ _
          (get-Leaves v infos (rw other at h)))
  ]

  pub put-Leaves :
      (v : List ℕ × ℕ) (infos : Infos)
      → Leaves
          (map (item_of depth) (put rid v infos))
          (item_of depth (rid, v) ∷ map (item_of depth) infos)
  unfolding put
  put-Leaves v [] = ([], Perm.rfl)
  put-Leaves v ((k, w) ∷ infos) = elim (Bool-cases (tuple_beq k rid)) [
    | inl same ↦ rw same (
        Leaves-cons (item_of depth (rid, v)) _ _
          (Leaves-drop (item_of depth (k, w)) _ _ (Leaves-refl (map (item_of depth) infos))))
    | inr other ↦ rw other (
        let (more, p) = put-Leaves v infos in
        (more, Perm.trans (Perm.swap _ _ _) (Perm.cons (item_of depth (k, w)) p)))
  ]
