-- ===== src/Offline/Budget.antt =====
-- python/peek/offline/engine.py: how much the targets take of the cache, and what their bonus
-- in the score is worth.
use peek.Prelude.{ℕ, ◌+◌, ◌≤◌, ◌<◌, ◌≡◌, ◌⊎◌, List, [], ◌∷◌, ◌++◌, map, length, sum, tuple_eq}
use peek.Offline.Full.{GroupStat}

module _ {N : Type 0} where
  abbrev pub prefix_sum : List (GroupStat N) → ℕ
  prefix_sum ss = sum (map (λ s. s.prefix_len) ss)

  -- The next group does not fit, with so much in use.
  abbrev pub Overflows : ℕ → ℕ → List (GroupStat N) → Type 0
  Overflows budget used [] = Unit
  Overflows budget used (s ∷ ss) = budget < used + s.prefix_len

-- The groups `taken` are the first ones of `stats`; they fit into the budget, or there is one
-- only; and the next one does not fit.
pub record IsBudgeted {N : Type 0} (budget : ℕ) (stats taken : List (GroupStat N)) : Type 0 where
  pub left : List (GroupStat N)
  pub split : stats ≡ taken ++ left
  pub within : (prefix_sum taken ≤ budget) ⊎ (length taken ≡ 1)
  pub full : Overflows budget (prefix_sum taken) left
