-- ===== src/Eviction/Demand.antt =====
-- `_max_ancestor_demand` and `get_priority` in the modes plain and cluster.
use peek.Prelude.{
  ℕ, ◌+◌, ◌*◌, ◌≤◌, ◌≡◌, refl, inl, inr, List, [], ◌∷◌, ◌++◌, Option, none, some, Bool, true, ◌&&◌,
  arith, length, reverse, max, if◌then◌else◌, ltb, ◌==◌, Bool-cases,
}

-- A node of the radix cache up to the root: the token ids of its key, if it has any, and its
-- parent. The root has no parent.
pub data Node : Type 0 where
  root : Node
  child : (token_ids : Option (List ℕ)) (parent : Node) → Node

-- The segments from the node up; a node without token ids ends the walk.
unfoldable pub segments : Node → List (List ℕ)
segments root = []
segments (child none parent) = []
segments (child (some tokens) parent) = tokens ∷ segments parent

-- `(max_value, max_len, levels)`
pub record Demand : Type 0 where
  pub max_value : ℕ
  pub max_len : ℕ
  pub levels : ℕ

abbrev pub no_demand : Demand
no_demand = record { max_value = 0; max_len = 0; levels = 0 }

first_test : (n : ℕ) (b : Bool) → ((n == 0) && b) ≡ true → n ≡ 0
first_test n b h = ground arith

-- `tree.pending_demand`, of the pending tree, is a parameter: the number of waiting requests that
-- start with a path.
module _ (pending_demand : List ℕ → ℕ) where
  abbrev pub raised : Demand → List ℕ → Demand
  raised acc ancestor =
      let value = pending_demand ancestor * length ancestor in
      if ltb acc.max_value value
      then record { max_value = value; max_len = length ancestor; levels = acc.levels + 1 }
      else record acc { levels = acc.levels + 1 }

  -- The loop over the segments from the root down, which ends when no request is left.
  unfoldable pub demand_loop : Demand → List ℕ → List (List ℕ) → Demand
  demand_loop acc ancestor [] = acc
  demand_loop acc ancestor (seg ∷ segs) =
      let acc' = raised acc (ancestor ++ seg) in
      let rest = demand_loop acc' (ancestor ++ seg) segs in
      if (pending_demand (ancestor ++ seg) == 0) && ltb 0 acc'.max_value then acc' else rest

  unfoldable pub max_ancestor_demand : Node → Demand
  unfolding demand_loop segments
  max_ancestor_demand node = demand_loop no_demand [] (reverse (segments node))

  -- The first component of `get_priority`, in the modes plain and cluster.
  unfoldable pub plain_priority : Node → ℕ
  unfolding max_ancestor_demand
  plain_priority node = (max_ancestor_demand node).max_value

  unfoldable pub cluster_priority : Node → ℕ
  unfolding max_ancestor_demand
  cluster_priority node =
      (max_ancestor_demand node).max_value * (1 + (max_ancestor_demand node).levels)

  -- The tokens at risk of the paths below `ancestor`, at their largest.
  unfoldable pub most_at_risk : List ℕ → List (List ℕ) → ℕ
  most_at_risk ancestor [] = 0
  most_at_risk ancestor (seg ∷ segs) =
      max (pending_demand (ancestor ++ seg) * length (ancestor ++ seg))
        (most_at_risk (ancestor ++ seg) segs)

  -- A longer path is a prefix of no more requests.
  abbrev pub IsAntitone : Type 0
  IsAntitone = (path more : List ℕ) → pending_demand (path ++ more) ≤ pending_demand path

  module _ (antitone : IsAntitone) where
    none_at_risk :
        (ancestor : List ℕ) (segs : List (List ℕ))
        → pending_demand ancestor ≡ 0
        → most_at_risk ancestor segs ≡ 0
    unfolding most_at_risk
    none_at_risk ancestor [] h = refl
    none_at_risk ancestor (seg ∷ segs) h =
        let here : pending_demand (ancestor ++ seg) ≡ 0 = omega (arith, antitone ancestor seg, h) in
        rw (here, none_at_risk (ancestor ++ seg) segs here) (omega arith)

    max_value-raised :
        (acc : Demand) (path : List ℕ)
        → (raised acc path).max_value ≡ max acc.max_value (pending_demand path * length path)
    max_value-raised acc path = ground arith

    demand_loop-max :
        (acc : Demand) (ancestor : List ℕ) (segs : List (List ℕ))
        → (demand_loop acc ancestor segs).max_value ≡ max acc.max_value (most_at_risk ancestor segs)
    unfolding demand_loop most_at_risk
    demand_loop-max acc ancestor [] = omega arith
    demand_loop-max acc ancestor (seg ∷ segs) =
        let value = max_value-raised acc (ancestor ++ seg) in
        let below = demand_loop-max (raised acc (ancestor ++ seg)) (ancestor ++ seg) segs in
        elim (Bool-cases (
          (pending_demand (ancestor ++ seg) == 0)
          && ltb 0 (raised acc (ancestor ++ seg)).max_value)) [
            | inr on ↦ rw on (omega (arith, value, below))
            | inl stop ↦
                let nothing = none_at_risk (ancestor ++ seg) segs (first_test _ _ stop) in
                rw (stop, nothing) (omega (arith, value))
          ]

    -- `_max_ancestor_demand` finds the largest number of tokens at risk over all ancestors: that
    -- the walk ends where no request is left does not change it, if longer paths have no more
    -- requests.
    pub max_ancestor_demand-most_at_risk :
        (node : Node)
        → (max_ancestor_demand node).max_value ≡ most_at_risk [] (reverse (segments node))
    unfolding max_ancestor_demand
    max_ancestor_demand-most_at_risk node =
        let m = demand_loop-max no_demand [] (reverse (segments node)) in omega (arith, m)
