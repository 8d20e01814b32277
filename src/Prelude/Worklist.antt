-- ===== src/Prelude/Worklist.antt =====
-- Loops of the form `while stack: x = stack.pop(); ...; stack.extend(...)`. A stack is a list with
-- its top in front, and `expand x` is what is pushed for `x`, in the order in which it is popped.
use Prim.Native.Nat.{ℕ, zero, suc, ◌+◌, ◌≤◌, ◌<◌}
use mathlib.Core.Path.{◌≡◌, refl, ap, ap₂, sym, ◌∙◌}
use mathlib.Core.List.{List, [], ◌∷◌, ◌++◌, map, append-nil, append_assoc, map-append}
use native.Mathlib.Omega.{arith}
use peek.Prelude.Perms.{sum-append}
use peek.Prelude.Lists.{sum, concat, concat-append, All}

module _ {ℓ} {S : Type ℓ} (expand : S → List S) where
  -- The loop, with what it accumulates.
  unfoldable pub traverse {κ} : {B : Type κ} → (B → S → B) → ℕ → List S → B → B
  traverse step fuel [] acc = acc
  traverse step zero (x ∷ stack) acc = acc
  traverse step (suc fuel) (x ∷ stack) acc = traverse step fuel (expand x ++ stack) (step acc x)

  -- What it pops, in order.
  pub visited : ℕ → List S → List S
  visited fuel [] = []
  visited zero (x ∷ stack) = []
  visited (suc fuel) (x ∷ stack) = x ∷ visited fuel (expand x ++ stack)

  -- `for x in xs: acc = step(acc, x)`
  abbrev pub fold {κ} : {B : Type κ} → (B → S → B) → B → List S → B
  fold step acc [] = acc
  fold step acc (x ∷ xs) = fold step (step acc x) xs

  pub traverse-fold {κ} :
      {B : Type κ} (step : B → S → B) (fuel : ℕ) (stack : List S) (acc : B)
      → traverse step fuel stack acc ≡ fold step acc (visited fuel stack)
  unfolding traverse visited
  traverse-fold step fuel [] acc = refl
  traverse-fold step zero (x ∷ stack) acc = refl
  traverse-fold step (suc fuel) (x ∷ stack) acc =
      traverse-fold step fuel (expand x ++ stack) (step acc x)

  -- A size that bounds the number of rounds: what `x` pushes is smaller than `x`.
  module _ (size : S → ℕ) (shrinks : (x : S) → sum (map size (expand x)) < size x) where
    abbrev total : List S → ℕ
    total stack = sum (map size stack)

    total-append : (xs ys : List S) → total (xs ++ ys) ≡ total xs + total ys
    total-append xs ys = rw (map-append) (sum-append (map size xs) (map size ys))

    -- All that is popped on the way to emptying a stack of `x` alone.
    pub subtree : S → List S
    subtree x = visited (size x) (x ∷ [])

    visited-fuel :
        (f g : ℕ) (stack : List S)
        → total stack ≤ f
        → total stack ≤ g
        → visited f stack ≡ visited g stack
    unfolding visited
    visited-fuel f g [] h k = refl
    visited-fuel zero g (x ∷ stack) h k = absurd (omega (arith, shrinks x))
    visited-fuel (suc f) zero (x ∷ stack) h k = absurd (omega (arith, shrinks x))
    visited-fuel (suc f) (suc g) (x ∷ stack) h k =
        let e = total-append (expand x) stack in
        ap (◌∷◌ x) (
          visited-fuel f g (expand x ++ stack) (omega (arith, shrinks x, e))
            (omega (arith, shrinks x, e)))

    visited-append :
        (f : ℕ) (xs ys : List S)
        → total (xs ++ ys) ≤ f
        → visited f (xs ++ ys) ≡ visited f xs ++ visited f ys
    unfolding visited
    visited-append f [] ys h = refl
    visited-append zero (x ∷ xs) ys h = absurd (omega (arith, shrinks x, total-append xs ys))
    visited-append (suc f) (x ∷ xs) ys h =
        let split = total-append xs ys in
        let pushed = total-append (expand x) xs in
        let all = total-append (expand x ++ xs) ys in
        let s = shrinks x in
        ap (◌∷◌ x) (
          ap (visited f) (sym (append_assoc (expand x) xs ys))
          ∙ visited-append f (expand x ++ xs) ys (omega arith)
          ∙ ap (λ l. visited f (expand x ++ xs) ++ l)
              (visited-fuel f (suc f) ys (omega arith) (omega arith)))

    -- With enough fuel the stack is emptied, item by item.
    pub visited_lem :
        (f : ℕ) (stack : List S) → total stack ≤ f → visited f stack ≡ concat (map subtree stack)
    unfolding subtree visited
    visited_lem f [] h = refl
    visited_lem f (x ∷ stack) h =
        visited-append f (x ∷ []) stack h
        ∙ ap₂ ◌++◌ (visited-fuel f (size x) (x ∷ []) (omega arith) (omega arith))
            (visited_lem f stack (omega arith))

    -- An item comes first, and then what it pushed.
    pub subtree_lem : (x : S) → subtree x ≡ x ∷ concat (map subtree (expand x))
    unfolding subtree visited
    subtree_lem x = step (size x) (shrinks x)
      where
        step :
            (n : ℕ)
            → total (expand x) < n
            → visited n (x ∷ []) ≡ x ∷ concat (map subtree (expand x))
        step zero h = absurd (omega arith)
        step (suc n) h =
            ap (◌∷◌ x)
              (ap (visited n) (append-nil (expand x)) ∙ visited_lem n (expand x) (omega arith))

    -- The loop over one item, run to its end.
    pub traverse-subtree {κ} :
        {B : Type κ} (step : B → S → B) (x : S) (acc : B)
        → traverse step (size x) (x ∷ []) acc ≡ fold step acc (subtree x)
    unfolding subtree
    traverse-subtree step x acc = traverse-fold step (size x) (x ∷ []) acc

    -- What the items of a subtree emit, in order.
    pub output {κ} : {B : Type κ} → (S → List B) → S → List B
    output emit x = concat (map emit (subtree x))

    output-subtrees {κ} :
        {B : Type κ} (emit : S → List B) (xs : List S)
        → concat (map emit (concat (map subtree xs))) ≡ concat (map (output emit) xs)
    unfolding output
    output-subtrees emit [] = refl
    output-subtrees emit (y ∷ ys) =
        ap concat (map-append emit (subtree y) (concat (map subtree ys)))
        ∙ concat-append (map emit (subtree y)) _
        ∙ ap (λ l. concat (map emit (subtree y)) ++ l) (output-subtrees emit ys)

    pub output_lem {κ} :
        {B : Type κ} (emit : S → List B) (x : S)
        → output emit x ≡ emit x ++ concat (map (output emit) (expand x))
    unfolding output
    output_lem emit x =
        ap (λ l. concat (map emit l)) (subtree_lem x)
        ∙ ap (λ l. emit x ++ l) (output-subtrees emit (expand x))

    fold-extend {κ} :
        {B : Type κ} (emit : S → List B) (xs : List S) (out : List B)
        → fold (λ o y. o ++ emit y) out xs ≡ out ++ concat (map emit xs)
    fold-extend emit [] out = sym (append-nil out)
    fold-extend emit (y ∷ ys) out =
        fold-extend emit ys (out ++ emit y) ∙ append_assoc out (emit y) _

    -- The loop that accumulates a list, `out.extend(emit(x))`, run to its end.
    pub traverse-extend {κ} :
        {B : Type κ} (emit : S → List B) (fuel : ℕ) (stack : List S) (out : List B)
        → total stack ≤ fuel
        → traverse (λ o y. o ++ emit y) fuel stack out ≡ out ++ concat (map (output emit) stack)
    traverse-extend emit fuel stack out h =
        traverse-fold (λ o y. o ++ emit y) fuel stack out
        ∙ fold-extend emit (visited fuel stack) out
        ∙ ap (λ l. out ++ concat (map emit l)) (visited_lem fuel stack h)
        ∙ ap (λ l. out ++ l) (output-subtrees emit stack)

    -- Induction over the subtrees: what holds of all that `x` pushes holds of `x`.
    pub subtree_ind {κ} : (P : S → Type κ) (step : (x : S) → All P (expand x) → P x) (x : S) → P x
    subtree_ind P step x = go (size x) x (omega arith)
      where
        all : (n : ℕ) (f : (y : S) → size y ≤ n → P y) (ys : List S) → total ys ≤ n → All P ys
        all n f [] h = tt
        all n f (y ∷ ys) h = (f y (omega arith), all n f ys (omega arith))

        go : (n : ℕ) (y : S) → size y ≤ n → P y
        go zero y h = absurd (omega (arith, shrinks y))
        go (suc n) y h = step y (all n (go n) (expand y) (omega (arith, shrinks y)))

-- Two loops in step: where `f` takes what one pops to what the other pops, and `g` what one has
-- accumulated to what the other has, they end alike.
pub traverse_simulation {ℓ κ μ ν} :
    {S : Type ℓ} {T : Type κ} {B : Type μ} {C : Type ν} (expand : S → List S) (expand' : T → List T)
    (step : B → S → B) (step' : C → T → C) (f : S → T) (g : B → C)
    → ((x : S) → expand' (f x) ≡ map f (expand x))
    → ((b : B) (x : S) → step' (g b) (f x) ≡ g (step b x))
    → (fuel : ℕ) (stack : List S) (acc : B)
    → traverse expand' step' fuel (map f stack) (g acc) ≡ g (traverse expand step fuel stack acc)
unfolding traverse
traverse_simulation expand expand' step step' f g pushes steps fuel [] acc = refl
traverse_simulation expand expand' step step' f g pushes steps zero (x ∷ stack) acc = refl
traverse_simulation expand expand' step step' f g pushes steps (suc fuel) (x ∷ stack) acc =
    ap₂ (traverse expand' step' fuel)
      (ap (λ l. l ++ map f stack) (pushes x) ∙ sym (map-append f (expand x) stack)) (steps acc x)
    ∙ traverse_simulation expand expand' step step' f g pushes steps fuel (expand x ++ stack)
        (step acc x)
