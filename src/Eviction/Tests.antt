-- ===== src/Eviction/Tests.antt =====
-- Runs of the eviction priorities, and their theorems there.
use peek.Prelude.{
  true, ℕ, ◌-◌, ◌≡◌, refl, List, [], ◌∷◌, some, arith, length, length-append, reverse,
}
use peek.Prelude.Int.{pos, neg}
use peek.Eviction.Modes.{recency, get_priority, leb_priority, IsDecay, get_priority-IsLeastRecent}
use peek.Eviction.Demand.{
  Node, root, child, segments, max_ancestor_demand, plain_priority, cluster_priority, most_at_risk,
  IsAntitone, max_ancestor_demand-most_at_risk,
}

-- Five requests start with the empty path, one less with each token more.
abbrev demand : List ℕ → ℕ
demand path = 5 - length path

demand-IsAntitone : IsAntitone demand
demand-IsAntitone path more = omega (arith, length-append path more)

abbrev node : Node
node = child (some (4 ∷ 5 ∷ 6 ∷ [])) (child (some (3 ∷ [])) (child (some (1 ∷ 2 ∷ [])) root))

priorities : (plain_priority demand node ≡ 6) × (cluster_priority demand node ≡ 24)
unfolding plain_priority cluster_priority
priorities = (refl, refl)

max_ancestor_demand-most_at_risk_example :
    (max_ancestor_demand demand node).max_value ≡ most_at_risk demand [] (reverse (segments node))
max_ancestor_demand-most_at_risk_example =
    max_ancestor_demand-most_at_risk demand demand-IsAntitone node

-- With 100 tokens per second, 30 milliseconds cost 3 of the demand of 6, and half a second more than all of it.
penalised :
    (get_priority demand 100 (λ age d. d - age) recency 1500 node 1470 ≡ (pos 3, 1470))
    × (get_priority demand 100 (λ age d. d - age) recency 1500 node 1000 ≡ (neg 44, 1000))
unfolding get_priority
penalised = (refl, refl)

less-IsDecay : IsDecay demand 100 (λ age d. d - age)
less-IsDecay d a b h = omega (arith, h)

get_priority-IsLeastRecent_example :
    leb_priority
      (get_priority demand 100 (λ age d. d - age) recency 1500 node 1000)
      (get_priority demand 100 (λ age d. d - age) recency 1500 node 1470)
    ≡ true
get_priority-IsLeastRecent_example =
    get_priority-IsLeastRecent demand 100 (λ age d. d - age) less-IsDecay recency 1500 node node
      1000 1470 refl (omega arith) (omega arith)
