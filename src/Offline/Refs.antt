-- ===== src/Offline/Refs.antt =====
-- The reference counts of cache nodes: `inc_queue_ref` of
-- python/peek/offline/sglang_patches/install.py, a method that the installer adds to SGLang's
-- tree, and the protection and `_reset_protection` of python/peek/offline/engine.py.
-- The tree is its parents; a loop up to the root is on fuel, and none when that runs out.
use peek.Prelude.{
  ℕ, zero, suc, ◌+◌, ◌<◌, ◌≤◌, ◌≡◌, refl, inl, inr, List, [], ◌∷◌, Option, none, some, ◌>>=◌, Bool,
  false, ◌||◌, if◌then◌else◌, ◌==◌, ==_iff, ltb, Bool-cases, arith, All,
}

-- The counts, by node.
abbrev pub Refs : Type 0
Refs = ℕ → ℕ

abbrev pub set_ref : ℕ → ℕ → Refs → Refs
set_ref node n refs x = if node == x then n else refs x

module _ (root : ℕ) (parent : ℕ → ℕ) where
  unfoldable pub inc_queue_ref : ℕ → ℕ → Refs → Option Refs
  inc_queue_ref zero node refs = none
  inc_queue_ref (suc fuel) node refs =
      let rest = inc_queue_ref fuel (parent node) (set_ref node (suc (refs node)) refs) in
      if node == root then some refs else rest

  -- The walk of `_reset_protection` from one node.
  unfoldable pub reset_path : ℕ → ℕ → Refs → Option Refs
  reset_path zero node refs = none
  reset_path (suc fuel) node refs =
      let rest = reset_path fuel (parent node) (set_ref node 0 refs) in
      if node == root then some refs else rest

  -- The protection of the nodes of a cycle, one after the other.
  unfoldable pub protect_all : ℕ → List ℕ → Refs → Option Refs
  unfolding inc_queue_ref
  protect_all fuel [] refs = some refs
  protect_all fuel (n ∷ ns) refs = inc_queue_ref fuel n refs >>= λ refs'. protect_all fuel ns refs'

  unfoldable pub reset_paths : ℕ → List ℕ → Refs → Option Refs
  unfolding reset_path
  reset_paths fuel [] refs = some refs
  reset_paths fuel (n ∷ ns) refs = reset_path fuel n refs >>= λ refs'. reset_paths fuel ns refs'

  -- `_reset_protection`: the nodes of the last cycle, or the whole tree where there was none.
  abbrev pub reset_protection : ℕ → Option (List ℕ) → Refs → Option Refs
  reset_protection fuel none refs = some (λ x. 0)
  reset_protection fuel (some prev) refs = reset_paths fuel prev refs

  -- Parents are nearer to the root, by some measure.
  abbrev pub IsRooted : (ℕ → ℕ) → Type 0
  IsRooted depth = (n : ℕ) → (n == root) ≡ false → depth (parent n) < depth n

  -- The node is on the way to the root.
  unfoldable pub visits : ℕ → ℕ → ℕ → Bool
  visits zero node x = false
  visits (suc fuel) node x =
      let rest = visits fuel (parent node) x in if node == root then false else (node == x) || rest

  -- Some of the nodes lies below this one, or is it.
  abbrev pub is_protected : ℕ → List ℕ → ℕ → Bool
  is_protected fuel [] x = false
  is_protected fuel (n ∷ ns) x = visits fuel n x || is_protected fuel ns x

  module _ (depth : ℕ → ℕ) (rooted : IsRooted depth) where
    reset_path-visits :
        (fuel node : ℕ) (refs : Refs)
        → depth node < fuel
        → (refs' : Refs) × (reset_path fuel node refs ≡ some refs')
          × ((x : ℕ) → refs' x ≡ (if visits fuel node x then 0 else refs x))
    unfolding reset_path visits
    reset_path-visits zero node refs h = absurd (omega arith)
    reset_path-visits (suc fuel) node refs h = elim (Bool-cases (node == root)) [
      | inl top ↦ rw top (refs, refl, λ x. refl)
      | inr below ↦
          let nearer = rooted node below in
          let (refs', e, f) =
            reset_path-visits fuel (parent node) (set_ref node 0 refs) (omega arith) in
          rw below (refs', e, λ x. ground (arith, f x))
    ]

    -- The counts on the way are raised, and those of other nodes stay.
    inc_queue_ref-visits :
        (fuel node : ℕ) (refs : Refs)
        → depth node < fuel
        → (refs' : Refs) × (inc_queue_ref fuel node refs ≡ some refs')
          × ((x : ℕ) → visits fuel node x ≡ false → refs' x ≡ refs x)
          × ((x : ℕ) → refs x + (if visits fuel node x then 1 else 0) ≤ refs' x)
    unfolding inc_queue_ref visits
    inc_queue_ref-visits zero node refs h = absurd (omega arith)
    inc_queue_ref-visits (suc fuel) node refs h = elim (Bool-cases (node == root)) [
      | inl top ↦ rw top (refs, refl, λ x q. refl, λ x. omega arith)
      | inr below ↦
          let nearer = rooted node below in
          let (refs', e, f, g) =
            inc_queue_ref-visits fuel (parent node) (set_ref node (suc (refs node)) refs)
              (omega arith) in
          rw below
            (refs', e, λ x q. ground (arith, f x, q), λ x. ground (arith, g x, (==_iff node x).0))
    ]

    reset_paths-is_protected :
        (fuel : ℕ) (ns : List ℕ) (refs : Refs)
        → All (λ n. depth n < fuel) ns
        → (refs' : Refs) × (reset_paths fuel ns refs ≡ some refs')
          × ((x : ℕ) → refs' x ≡ (if is_protected fuel ns x then 0 else refs x))
    unfolding reset_paths
    reset_paths-is_protected fuel [] refs h = (refs, refl, λ x. refl)
    reset_paths-is_protected fuel (n ∷ ns) refs h =
        let (refs', e, f) = reset_path-visits fuel n refs h.0 in
        let (refs'', e', f') = reset_paths-is_protected fuel ns refs' h.1 in
        rw (e, e') (refs'', refl, λ x. ground (arith, f x, f' x))

    protect_all-is_protected :
        (fuel : ℕ) (ns : List ℕ) (refs : Refs)
        → All (λ n. depth n < fuel) ns
        → (refs' : Refs) × (protect_all fuel ns refs ≡ some refs')
          × ((x : ℕ) → is_protected fuel ns x ≡ false → refs' x ≡ refs x)
          × ((x : ℕ) → refs x + (if is_protected fuel ns x then 1 else 0) ≤ refs' x)
    unfolding protect_all
    protect_all-is_protected fuel [] refs h = (refs, refl, λ x q. refl, λ x. omega arith)
    protect_all-is_protected fuel (n ∷ ns) refs h =
        let (refs', e, f, g) = inc_queue_ref-visits fuel n refs h.0 in
        let (refs'', e', f', g') = protect_all-is_protected fuel ns refs' h.1 in
        rw (e, e')
          (refs'', refl, λ x q. ground (arith, f x, f' x, q), λ x. ground (arith, g x, g' x))

    -- Protection from counts of 0, where the tree is no deeper than the fuel: the loops end, the
    -- nodes on the ways from the protected ones to the root, and no others, get a count, and the
    -- reset in the next cycle makes every count 0 again, without a walk over the whole tree.
    pub protect_all-reset_protection :
        (fuel : ℕ) (ns : List ℕ) (refs : Refs)
        → All (λ n. depth n < fuel) ns
        → ((x : ℕ) → refs x ≡ 0)
        → (refs' : Refs) × (refs'' : Refs) × (protect_all fuel ns refs ≡ some refs')
          × (reset_protection fuel (some ns) refs' ≡ some refs'')
          × ((x : ℕ) → ltb 0 (refs' x) ≡ is_protected fuel ns x)
          × ((x : ℕ) → refs'' x ≡ 0)
    protect_all-reset_protection fuel ns refs h clear =
        let (refs', e, f, g) = protect_all-is_protected fuel ns refs h in
        let (refs'', e', f') = reset_paths-is_protected fuel ns refs' h in
        (
          refs',
          refs'',
          e,
          e',
          λ x. ground (arith, f x, g x, clear x),
          λ x. ground (arith, f x, f' x, clear x),
        )
