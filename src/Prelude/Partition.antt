-- ===== src/Prelude/Partition.antt =====
-- Lists cut into groups by a key: what every grouping of a waiting queue satisfies.
use mathlib.Core.Path.{◌≡◌, refl, sym, ◌∙◌}
use mathlib.Core.Logic.{inl, inr, ∥∥₁_elim}
use mathlib.Core.Logic.Or
use mathlib.Core.List.{List, [], ◌∷◌, Mem, Perm, Pairwise, mem-cons, not-mem-nil, map, mem-map}
use mathlib.Core.List.Pairwise
use mathlib.Core.List.Perm
use peek.Prelude.Tests.{Eq, Bool-cases}
use peek.Prelude.Lists.{All, concat}
use peek.Prelude.Group.{add_to, group_into, group_by, values, group_by-perm, Keyed, group_by-Keyed}
use Prim.Native.Nat.{ℕ}
use peek.Prelude.Sort.{sort_by, IsSorted, ge_key, ge_key-IsOrder, sort_by-perm, sort_by-IsSorted}
use peek.Prelude.Perms.{concat-perm}

module _ {ℓ κ} {A : Type ℓ} {K : Type κ} (key : A → K) where
  -- Every item of one group has another key than every item of the other.
  abbrev pub Apart : List A → List A → Type (ℓ ⊔ κ)
  Apart g h = (x y : A) → Mem x g → Mem y h → ¬ (key x ≡ key y)

  abbrev pub Alike : List A → Type (ℓ ⊔ κ)
  Alike g = (x y : A) → Mem x g → Mem y g → key x ≡ key y

  -- The groups hold the items of the list, those with one key in one group.
  pub record IsPartition (xs : List A) (groups : List (List A)) : Type (ℓ ⊔ κ) where
    pub whole : Perm (concat groups) xs
    pub alike : (g : List A) → Mem g groups → Alike g
    pub apart : Pairwise Apart groups

-- What holds of all holds of each.
pub All-Mem {ℓ κ} :
    {A : Type ℓ} (P : A → Type κ)
    → ((a : A) → IsProp (P a))
    → (xs : List A) → All P xs
    → (a : A) → Mem a xs
    → P a
All-Mem P p [] h a m = absurd (not-mem-nil m)
All-Mem P p (x ∷ xs) h a m =
    Or.elim (p a) (mem-cons.0 m) (λ q. rw q h.0) (λ n. All-Mem P p xs h.1 a n)

All-from_Mem {ℓ κ} :
    {A : Type ℓ} (P : A → Type κ) (xs : List A) → ((a : A) → Mem a xs → P a) → All P xs
All-from_Mem P [] f = tt
All-from_Mem P (x ∷ xs) f =
    (f x (mem-cons.1 (Or.inl refl)), All-from_Mem P xs (λ a m. f a (mem-cons.1 (Or.inr m))))

pub All-perm {ℓ κ} :
    {A : Type ℓ} (P : A → Type κ)
    → ((a : A) → IsProp (P a))
    → {xs ys : List A} → Perm xs ys
    → All P ys
    → All P xs
All-perm P p {xs} {ys} h all =
    All-from_Mem P xs (λ a m. All-Mem P p ys all a ((Perm.mem_iff h).0 m))

module _ {ℓ κ} {A : Type ℓ} {K : Type κ} (key : A → K) {xs : List A} where
  -- The order of the groups does not matter.
  pub IsPartition-perm :
      {gs hs : List (List A)} → Perm gs hs → IsPartition key xs gs → IsPartition key xs hs
  IsPartition-perm p i = record {
    whole = Perm.trans (concat-perm (Perm.symm p)) i.whole;
    alike = λ g m. i.alike g ((Perm.mem_iff p).1 m);
    apart = Perm.pairwise (hlevel) (λ g h f x y mx my q. f y x my mx (sym q)) p i.apart;
  }

module _ {ℓ κ} {A : Type ℓ} {K : Type κ} (key : A → K) (set : (a b : K) → IsProp (a ≡ b))
    {xs : List A} where
  -- Nor does the order within each.
  pub IsPartition-map :
      (f : List A → List A)
      → ((g : List A) → Perm (f g) g)
      → {gs : List (List A)} → IsPartition key xs gs
      → IsPartition key xs (map f gs)
  IsPartition-map f p {gs} i = record {
    whole = Perm.trans (permuted gs) i.whole;
    alike = λ g m x y mx my. ∥∥₁_elim (mem-map.0 m) (set _ _) λ (h, mh, e).
        i.alike h mh x y ((Perm.mem_iff (p h)).0 (rw e mx)) ((Perm.mem_iff (p h)).0 (rw e my));
    apart =
        Pairwise.map (hlevel) f
          (λ g h a x y mx my. a x y ((Perm.mem_iff (p g)).0 mx) ((Perm.mem_iff (p h)).0 my))
          i.apart;
  }
    where
      permuted : (hs : List (List A)) → Perm (concat (map f hs)) (concat hs)
      permuted [] = Perm.rfl
      permuted (h ∷ hs) = Perm.append (p h) (permuted hs)

module _ {ℓ κ} {A : Type ℓ} {K : Type κ} ⦃e : Eq K⦄ where
  -- The keys of a dictionary are distinct.
  abbrev pub Distinct : List (K × List A) → Type κ
  Distinct [] = Unit
  Distinct ((j, xs) ∷ gs) = All (λ (g : K × List A). ¬ (j ≡ g.0)) gs × Distinct gs

  All-add_to :
      (Q : K → Type κ) (k : K) (x : A) (gs : List (K × List A))
      → Q k
      → All (λ (g : K × List A). Q g.0) gs
      → All (λ (g : K × List A). Q g.0) (add_to k x gs)
  unfolding add_to
  All-add_to Q k x [] q h = (q, tt)
  All-add_to Q k x ((j, xs) ∷ gs) q h = elim (Bool-cases (e.beq j k)) [
    | inl same ↦ rw same h
    | inr other ↦ rw other (h.0, All-add_to Q k x gs q h.1)
  ]

  add_to-Distinct :
      (k : K) (x : A) (gs : List (K × List A)) → Distinct gs → Distinct (add_to k x gs)
  unfolding add_to
  add_to-Distinct k x [] h = (tt, tt)
  add_to-Distinct k x ((j, xs) ∷ gs) h = elim (Bool-cases (e.beq j k)) [
    | inl same ↦ rw same h
    | inr other ↦ rw other (
      All-add_to (λ c. ¬ (j ≡ c)) k x gs (λ q. let t = (e.beq_iff j k).1 q in cc) h.0,
      add_to-Distinct k x gs h.1,
    )
  ]

  pub group_into-Distinct :
      (key : A → K) (gs : List (K × List A)) (xs : List A)
      → Distinct gs
      → Distinct (group_into key gs xs)
  unfolding group_into
  group_into-Distinct key gs [] h = h
  group_into-Distinct key gs (x ∷ xs) h =
      group_into-Distinct key (add_to (key x) x gs) xs (add_to-Distinct (key x) x gs h)

module _ {ℓ κ} {A : Type ℓ} {K : Type κ} ⦃e : Eq K⦄ (set : (a b : K) → IsProp (a ≡ b))
    (key : A → K) where
  values-Alike : (gs : List (K × List A)) → Keyed key gs → All (Alike key) (values gs)
  values-Alike [] h = tt
  values-Alike ((k, xs) ∷ gs) h = (λ x y mx my. all x mx ∙ sym (all y my), values-Alike gs h.1)
    where
      all : (x : A) → Mem x xs → key x ≡ k
      all = All-Mem (λ x. key x ≡ k) (λ x. set (key x) k) xs h.0

  values-below :
      (k : K) (xs : List A) (gs : List (K × List A))
      → All (λ x. key x ≡ k) xs
      → All (λ (g : K × List A). ¬ (k ≡ g.0)) gs
      → Keyed key gs
      → All (Apart key xs) (values gs)
  values-below k xs [] hx hd h = tt
  values-below k xs ((j, ys) ∷ gs) hx hd h = (
    λ x y mx my q. hd.0 (
        sym (All-Mem (λ z. key z ≡ k) (λ z. set (key z) k) xs hx x mx)
        ∙ q
        ∙ All-Mem (λ z. key z ≡ j) (λ z. set (key z) j) ys h.0 y my),
    values-below k xs gs hx hd.1 h.1,
  )

  values-Apart :
      (gs : List (K × List A)) → Keyed key gs → Distinct gs → Pairwise (Apart key) (values gs)
  values-Apart [] h d = Pairwise.nil
  values-Apart ((k, xs) ∷ gs) h d =
      Pairwise.cons (All-Mem (Apart key xs) (hlevel) (values gs) (values-below k xs gs h.0 d.0 h.1))
        (values-Apart gs h.1 d.1)

  -- Grouping by a dictionary of lists.
  pub group_by-IsPartition : (xs : List A) → IsPartition key xs (values (group_by key xs))
  unfolding group_by
  group_by-IsPartition xs = record {
    whole = group_by-perm key xs;
    alike =
        All-Mem (Alike key) (λ g f h i x y mx my. set (key x) (key y) (f x y mx my) (h x y mx my) i)
          _ (values-Alike _ (group_by-Keyed key xs));
    apart = values-Apart _ (group_by-Keyed key xs) (group_into-Distinct key [] xs tt);
  }

-- The list `out` consists of the groups of `xs`, those of the highest rank first.
pub record IsRanked {ℓ κ} {A : Type ℓ} {K : Type κ} (key : A → K) (rank : List A → ℕ)
    (xs out : List A) : Type (ℓ ⊔ κ) where
  pub groups : List (List A)
  pub split : out ≡ concat groups
  pub parts : IsPartition key xs groups
  pub ranks : IsSorted (ge_key rank) groups

module _ {ℓ κ} {A : Type ℓ} {K : Type κ} ⦃e : Eq K⦄ (set : (a b : K) → IsProp (a ≡ b)) (key : A → K)
    (rank : List A → ℕ) where
  -- Grouping, then sorting the groups.
  pub group_by-IsRanked :
      (xs : List A)
      → IsRanked key rank xs (concat (sort_by (ge_key rank) (values (group_by key xs))))
  group_by-IsRanked xs = record {
    groups = sort_by (ge_key rank) (values (group_by key xs));
    split = refl;
    parts = IsPartition-perm key (Perm.symm (sort_by-perm _ _)) (group_by-IsPartition set key xs);
    ranks = sort_by-IsSorted _ (ge_key-IsOrder rank) _;
  }

module _ {ℓ κ} {A : Type ℓ} {K : Type κ} ⦃e : Eq K⦄ (set : (a b : K) → IsProp (a ≡ b)) (key : A → K)
    (rank : List A → ℕ) (f : List A → List A) (p : (g : List A) → Perm (f g) g)
    (same : (g : List A) → rank (f g) ≡ rank g) where
  -- The same with the members of each group rearranged, where that does not change the ranks.
  pub map-IsRanked :
      (xs : List A)
      → IsRanked key rank xs (concat (map f (sort_by (ge_key rank) (values (group_by key xs)))))
  map-IsRanked xs = record {
    groups = map f (sort_by (ge_key rank) (values (group_by key xs)));
    split = refl;
    parts =
        IsPartition-map key set f p
          (IsPartition-perm key (Perm.symm (sort_by-perm _ _)) (group_by-IsPartition set key xs));
    ranks =
        Pairwise.map (hlevel) f (λ g h q. rw (same g, same h) q)
          (sort_by-IsSorted _ (ge_key-IsOrder rank) _);
  }

pub IsRanked-perm {ℓ κ} :
    {A : Type ℓ} {K : Type κ} {key : A → K} {rank : List A → ℕ} {xs out : List A}
    → IsRanked key rank xs out
    → Perm out xs
IsRanked-perm r = rw r.split r.parts.whole
