-- ===== src/VllmHooks/Demand.antt =====
-- `_bump_rid` and `_drop_rid`: how many pending requests pass through a cached block, and at which
-- depth.
use peek.Prelude.{
  ℕ, suc, ◌+◌, ◌-◌, List, [], ◌∷◌, Option, none, some, Bool, true, false, ◌&&◌, if◌then◌else◌, leb,
  ltb, nat_eq,
}
use peek.Prelude.Dict.{get, put, delete}

-- `PEEK_ONLINE_EVICTION_MODE`
pub data Mode : Type 0 where
  plain : Mode
  cluster : Mode
  recency : Mode
  decay : Mode

abbrev pub is_cluster : Mode → Bool
is_cluster cluster = true
is_cluster m = false

-- `_block_hash_demand`, `_block_hash_max_depth` and `_rid_to_hashes`. Hashes of blocks are numbers.
pub record Index : Type 0 where
  pub demand : List (ℕ × ℕ)
  pub max_depth : List (ℕ × ℕ)
  pub rid_to_hashes : List (ℕ × List ℕ)

abbrev pub new_index : Index
new_index = record { demand = []; max_depth = []; rid_to_hashes = [] }

-- `d.get(h, 0)`
abbrev pub or_zero : Option ℕ → ℕ
or_zero none = 0
or_zero (some n) = n

abbrev pub count_at : ℕ → List (ℕ × ℕ) → ℕ
count_at h d = or_zero (get h d)

module _ (mode : Mode) where
  -- One hash, at the depth `d`.
  unfoldable pub bump_hash : ℕ → ℕ → Index → Index
  bump_hash d h ix = record ix {
    demand = put h (count_at h ix.demand + 1) ix.demand;
    max_depth =
        if is_cluster mode && ltb (count_at h ix.max_depth) d
        then put h d ix.max_depth
        else ix.max_depth;
  }

  unfoldable pub bump_hashes : ℕ → List ℕ → Index → Index
  bump_hashes d [] ix = ix
  bump_hashes d (h ∷ hs) ix = bump_hashes (suc d) hs (bump_hash d h ix)

  -- `_bump_rid`; a request without hashes is kept with none.
  unfoldable pub bump_rid : List ℕ → ℕ → Index → Index
  bump_rid hashes i ix =
      let ix' = bump_hashes 1 hashes ix in
      record ix' { rid_to_hashes = put i hashes ix'.rid_to_hashes }

  unfoldable pub drop_hash : ℕ → Index → Index
  drop_hash h ix =
      if leb (count_at h ix.demand) 1
      then record ix {
        demand = delete h ix.demand;
        max_depth = if is_cluster mode then delete h ix.max_depth else ix.max_depth;
      }
      else record ix { demand = put h (count_at h ix.demand - 1) ix.demand }

  unfoldable pub drop_hashes : List ℕ → Index → Index
  drop_hashes [] ix = ix
  drop_hashes (h ∷ hs) ix = drop_hashes hs (drop_hash h ix)

  -- `_drop_rid`
  unfoldable pub drop_rid : ℕ → Index → Index
  drop_rid i ix = elim (get i ix.rid_to_hashes) [
    | none ↦ ix
    | some snap ↦ drop_hashes snap (record ix { rid_to_hashes = delete i ix.rid_to_hashes })
  ]
