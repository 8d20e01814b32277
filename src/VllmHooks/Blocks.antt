-- ===== src/VllmHooks/Blocks.antt =====
-- `_peek_get_new_blocks` as a whole.
use mathlib.Core.List.{Perm, Mem}
use mathlib.Core.List.Perm
use peek.Prelude.{ℕ, ◌≡◌, List, ◌∷◌, ◌++◌, map, Option}
use peek.Prelude.Int.{ℤ}
use peek.VllmHooks.Demand.{Mode, Index}
use peek.VllmHooks.Victims.{Block, counted_up}
use peek.VllmHooks.Chosen.{IsChosen}

-- What vLLM's own methods are relied on for: `remove` takes a block out of the free ones, and the
-- eviction of a block's contents leaves its reference count alone.
pub record IsPool (remove : Block → List Block → List Block) (maybe_evict : Block → Block)
    : Type 0 where
  pub removes : (b : Block) (free : List Block) → Mem b free → Perm free (b ∷ remove b free)
  pub keeps_count : (b : Block) → (maybe_evict b).ref_cnt ≡ b.ref_cnt

abbrev pub IsUnused : Block → Type 0
IsUnused b = b.ref_cnt ≡ 0

module _ (stock : ℕ → List Block → Option (List Block × List Block))
    (remove : Block → List Block → List Block) (maybe_evict : Block → Block)
    (pool : IsPool remove maybe_evict) where
  -- The blocks as they are handed out: evicted, and with one reference.
  abbrev pub handed_out : List Block → List Block
  handed_out picked = map (λ b. counted_up stock remove maybe_evict (maybe_evict b)) picked

  -- What is handed out for `n` blocks: chosen among the scanned ones by their demand, each evicted
  -- and with one reference; no other free block is lost.
  pub record IsEviction (mode : Mode) (aged : ℕ → ℕ → ℤ) (ix : Index) (n cap : ℕ)
      (free blocks left : List Block) : Type 0 where
    pub picked : List Block
    pub chosen : IsChosen mode aged ix n cap free picked
    pub handed : blocks ≡ handed_out picked
    pub others : Perm (picked ++ left) free
