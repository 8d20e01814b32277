-- ===== src/Prelude/Dict.antt =====
-- Python's dictionaries and sets with keys that can be compared: association lists in insertion
-- order, and lists without repetition.
use mathlib.Core.Path.{◌≡◌, refl, sym, ap, ◌∙◌, subst}
use mathlib.Core.Logic.{inl, inr}
use mathlib.Core.Bool.{Bool, true, false, ◌&&◌, ◌||◌, not}
use mathlib.Core.List.{List, [], ◌∷◌}
use mathlib.Core.Option.{Option, none, some}
use native.Mathlib.Omega.{arith}
use peek.Prelude.Tests.{Eq, if◌then◌else◌, all, Bool-cases}
use peek.Prelude.Membership.{contains, select_out}

module _ {ℓ} {K : Type ℓ} ⦃e : Eq K⦄ where
  beq_trans : (i k j : K) → e.beq i k ≡ true → e.beq i j ≡ e.beq k j
  beq_trans i k j h = ap (λ (x : K). e.beq x j) ((e.beq_iff i k).0 h)

  pub beq_refl : (k : K) → e.beq k k ≡ true
  beq_refl k = (e.beq_iff k k).1 refl

  beq_clash : (i k j : K) → e.beq i k ≡ false → e.beq i j ≡ true → e.beq k j ≡ false
  beq_clash i k j h p = elim (Bool-cases (e.beq k j)) [
    | inr q ↦ q
    | inl q ↦
        let i_is = (e.beq_iff i j).0 p ∙ sym ((e.beq_iff k j).0 q) in
        let both = (e.beq_iff i k).1 i_is in cc
  ]

  module _ {κ} {V : Type κ} where
    -- `d.get(k)`
    unfoldable pub get : K → List (K × V) → Option V
    get k [] = none
    get k ((j, v) ∷ d) = if e.beq j k then some v else get k d

    -- `d[k] = v`
    unfoldable pub put : K → V → List (K × V) → List (K × V)
    put k v [] = (k, v) ∷ []
    put k v ((j, w) ∷ d) = if e.beq j k then (j, v) ∷ d else (j, w) ∷ put k v d

    -- `d.pop(k, None)`
    unfoldable pub delete : K → List (K × V) → List (K × V)
    delete k [] = []
    delete k ((j, v) ∷ d) = if e.beq j k then delete k d else (j, v) ∷ delete k d

    pub get-put :
        (j k : K) (v : V) (d : List (K × V))
        → get j (put k v d) ≡ (if e.beq k j then some v else get j d)
    unfolding get put
    get-put j k v [] = refl
    get-put j k v ((i, w) ∷ d) = elim (Bool-cases (e.beq i k)) [
      | inl same ↦ ground (arith, same, beq_trans i k j same)
      | inr other ↦ ground (arith, other, get-put j k v d, beq_clash i k j other)
    ]

    pub get-delete :
        (j k : K) (d : List (K × V)) → get j (delete k d) ≡ (if e.beq k j then none else get j d)
    unfolding get delete
    get-delete j k [] = ground arith
    get-delete j k ((i, w) ∷ d) = elim (Bool-cases (e.beq i k)) [
      | inl same ↦ ground (arith, same, beq_trans i k j same, get-delete j k d)
      | inr other ↦ ground (arith, other, get-delete j k d, beq_clash i k j other)
    ]

  -- `s.add(x)`, `s.discard(x)` and `set(xs)`
  unfoldable pub add : K → List K → List K
  unfolding contains
  add x s = if contains s x then s else x ∷ s

  unfoldable pub discard : K → List K → List K
  discard x [] = []
  discard x (y ∷ s) = if e.beq y x then discard x s else y ∷ discard x s

  unfoldable pub set_of : List K → List K
  unfolding add
  set_of [] = []
  set_of (x ∷ xs) = add x (set_of xs)

  pub contains-add : (x k : K) (s : List K) → contains (add x s) k ≡ (e.beq x k || contains s k)
  unfolding add contains
  contains-add x k s = elim (Bool-cases (contains s x)) [
    | inl old ↦ elim (Bool-cases (e.beq x k)) [
      | inl same ↦ rw (old, same) (subst (λ z. contains s z ≡ true) ((e.beq_iff x k).0 same) old)
      | inr other ↦ rw (old, other)
    ]
    | inr new ↦ rw new
  ]

  pub contains-discard :
      (x k : K) (s : List K) → contains (discard x s) k ≡ (not (e.beq x k) && contains s k)
  unfolding discard contains
  contains-discard x k [] = ground arith
  contains-discard x k (y ∷ s) = elim (Bool-cases (e.beq y x)) [
    | inl same ↦ ground (arith, same, beq_trans y x k same, contains-discard x k s)
    | inr other ↦ ground (arith, other, contains-discard x k s, beq_clash y x k other)
  ]

  pub contains-set_of : (xs : List K) (k : K) → contains (set_of xs) k ≡ contains xs k
  unfolding set_of contains
  contains-set_of [] k = refl
  contains-set_of (x ∷ xs) k = rw (contains-add x k (set_of xs), contains-set_of xs k)

  -- `a == b` of two sets.
  unfoldable pub set_beq : List K → List K → Bool
  unfolding contains
  set_beq a b = all (contains b) a && all (contains a) b

  all_contained :
      (a b : List K) (k : K) → all (contains b) a ≡ true → contains a k ≡ true → contains b k ≡ true
  unfolding contains
  all_contained [] b k h m = cc
  all_contained (x ∷ a) b k h m = elim (Bool-cases (e.beq x k)) [
    | inl same ↦ subst (λ z. contains b z ≡ true) ((e.beq_iff x k).0 same) (ground (arith, h))
    | inr other ↦ all_contained a b k (ground (arith, h)) (ground (arith, m, other))
  ]

  pub set_beq-contains : (a b : List K) (k : K) → set_beq a b ≡ true → contains a k ≡ contains b k
  unfolding set_beq
  set_beq-contains a b k h = ground (arith, h, all_contained a b k, all_contained b a k)

  pub contains-select_out :
      (gs xs : List K) (k : K)
      → contains (select_out gs xs) k ≡ (contains xs k && not (contains gs k))
  unfolding contains
  contains-select_out gs [] k = refl
  contains-select_out gs (x ∷ xs) k = elim (Bool-cases (e.beq x k)) [
    | inl same ↦
        let there = ap (contains gs) ((e.beq_iff x k).0 same) in
        ground (arith, same, there, contains-select_out gs xs k)
    | inr other ↦ ground (arith, other, contains-select_out gs xs k)
  ]

  pub select_out-none_left :
      (gs xs : List K)
      → ((k : K) → contains xs k ≡ true → contains gs k ≡ true)
      → select_out gs xs ≡ []
  unfolding contains
  select_out-none_left gs [] h = refl
  select_out-none_left gs (x ∷ xs) h =
      let here = h x (rw (beq_refl x) refl) in
      rw here (select_out-none_left gs xs (λ k m. h k (rw m (or_true (e.beq x k)))))
    where
      or_true : (b : Bool) → (b || true) ≡ true
      or_true true = refl
      or_true false = refl
