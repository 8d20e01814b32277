-- ===== src/Hooks/MainHits.antt =====
-- online/engines/sglang/patch_hook.py: the hits that `_patched_calc_priority` sorts by, of the
-- dual walk over the pending tree and the radix cache.
use peek.Prelude.{ℕ, ◌≡◌, List, Option, none, some, tuple_eq}
use peek.Hooks.State.{PendingTree}
use peek.Hooks.Priority.{Core}

-- `f` of what is there.
abbrev pub map_option : (List ℕ → ℕ) → Option (List ℕ) → Option ℕ
map_option f none = none
map_option f (some ts) = some (f ts)

-- What the comment says of `compute_main_hits` with min_pending_count=1: each request's length is
-- computed as if it were queried individually.
abbrev pub IsDualwalk : (pt : PendingTree) → Core pt.Tree → Type 0
IsDualwalk pt core =
    (match : List ℕ → ℕ) (tree : pt.Tree)
    → (hits : ℕ → Option ℕ) × (core.compute_main_hits match tree ≡ some hits)
      × ((i : ℕ) → hits i ≡ map_option match (pt.tokens i tree))
