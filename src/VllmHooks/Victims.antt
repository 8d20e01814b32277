-- ===== src/VllmHooks/Victims.antt =====
-- `_peek_get_new_blocks`: the free blocks that are evicted for new ones.
use peek.Prelude.{
  ℕ, ◌+◌, ◌-◌, ◌*◌, List, [], ◌∷◌, ◌++◌, map, Option, none, some, Bool, not, ◌&&◌, ◌||◌, length,
  take, max, if◌then◌else◌, ltb, ◌==◌, nat_eq, ◌>>=◌,
}
use peek.Prelude.Int.{ℤ, pos}
use peek.Prelude.Perms.{remove_all}
use peek.Prelude.Sort.{sort_by}
use peek.Prelude.Dict.{get}
use peek.Trie.Data.{is_nil}
use peek.Lpm.Lex.{le_lex}
use peek.VllmHooks.Demand.{Mode, plain, cluster, recency, decay, Index, count_at}

-- A block of vLLM's free queue. The hash is the raw one, without the group.
pub record Block : Type 0 where
  pub block_id : ℕ
  pub block_hash : Option ℕ
  pub ref_cnt : ℕ

-- A block whose eviction is put off: its priority, its position in the scan, and itself.
abbrev pub Deferred : Type 0
Deferred = ℤ × ℕ × Block

pub record Scan : Type 0 where
  pub picked : List Block
  pub low_demand : List Deferred
  pub scanned : ℕ

abbrev pub start_scan : Scan
start_scan = record { picked = []; low_demand = []; scanned = 0 }

-- `_block_hash_max_depth.get(raw, 1)`
abbrev pub or_one : Option ℕ → ℕ
or_one none = 1
or_one (some d) = d

-- The demand of a block: none without a hash.
abbrev pub demand_of : Index → Block → ℕ
demand_of ix b = elim b.block_hash [ none ↦ 0 | some raw ↦ count_at raw ix.demand ]

abbrev pub is_wanted : Index → Block → Bool
is_wanted ix b = not (demand_of ix b == 0)

abbrev pub deferred_key : Deferred → List ℤ
deferred_key (p, i, b) = p ∷ pos i ∷ []

abbrev pub block_of : Deferred → Block
block_of (p, i, b) = b

-- The priority in the modes recency and decay, which use floating point numbers and the clock, is
-- a parameter: a number from the hash and its demand.
module _ (mode : Mode) (aged : ℕ → ℕ → ℤ) (ix : Index) where
  abbrev pub mode_priority : Mode → ℕ → ℕ → ℤ
  mode_priority plain raw d = pos d
  mode_priority cluster raw d = pos (d * (1 + or_one (get raw ix.max_depth)))
  mode_priority recency raw d = aged raw d
  mode_priority decay raw d = aged raw d

  abbrev pub priority : Block → ℤ
  priority b = elim b.block_hash [
    | none ↦ pos 0
    | some raw ↦ mode_priority mode raw (count_at raw ix.demand)
  ]

  -- One block of the scan.
  abbrev pub look : Block → Scan → Scan
  look b s =
      if is_wanted ix b
      then record s {
        low_demand = s.low_demand ++ (priority b, s.scanned, b) ∷ [];
        scanned = s.scanned + 1;
      }
      else record s { picked = s.picked ++ b ∷ []; scanned = s.scanned + 1 }

  unfoldable pub scan : ℕ → ℕ → List Block → Scan → Scan
  scan n cap [] s = s
  scan n cap (b ∷ bs) s =
      if ltb (length s.picked) n && ltb s.scanned cap then scan n cap bs (look b s) else s

  -- Those without demand, topped up from the deferred ones of the lowest priority.
  unfoldable pub top_up : ℕ → Scan → List Block
  top_up n s =
      if ltb (length s.picked) n
      then s.picked
        ++ map block_of (take (n - length s.picked) (sort_by (le_lex deferred_key) s.low_demand))
      else s.picked

  -- None where too few blocks were scanned.
  unfoldable pub choose : ℕ → ℕ → List Block → Option (List Block)
  choose n cap free =
      let picked = top_up n (scan n cap free start_scan) in
      if ltb (length picked) n then none else some picked

-- `_EVICTION_SCAN_CAP` if it is positive, else a default.
abbrev pub scan_cap : ℕ → ℕ → ℕ
scan_cap eviction_scan_cap n =
    if ltb 0 eviction_scan_cap then eviction_scan_cap else max (n * 4) 256

-- The stock `get_new_blocks`, `free_block_queue.remove` and `_maybe_evict_cached_block`, of vLLM,
-- are parameters. A result is the new blocks and the free ones; none where an assertion fails.
module _ (stock : ℕ → List Block → Option (List Block × List Block))
    (remove : Block → List Block → List Block) (maybe_evict : Block → Block) where
  abbrev pub counted_up : Block → Block
  counted_up b = record b { ref_cnt = b.ref_cnt + 1 }

  unfoldable pub allocate : List Block → Option (List Block)
  allocate [] = some []
  allocate (b ∷ bs) =
      let evicted = maybe_evict b in
      if evicted.ref_cnt == 0
      then (allocate bs >>= λ rest. some (counted_up evicted ∷ rest))
      else none

  unfoldable pub evict_chosen :
      ℕ → List Block → Option (List Block) → Option (List Block × List Block)
  evict_chosen n free none = stock n free
  evict_chosen n free (some picked) =
      allocate picked >>= λ blocks. some (blocks, remove_all remove picked free)

  unfoldable pub get_new_blocks :
      Mode
      → (ℕ → ℕ → ℤ)
      → Index
      → (eviction_scan_cap : ℕ) → (enable_caching : Bool) → ℕ
      → List Block
      → Option (List Block × List Block)
  get_new_blocks mode aged ix eviction_scan_cap enable_caching n free =
      if (n == 0) || not enable_caching || ltb (length free) n || is_nil ix.demand
      then stock n free
      else evict_chosen n free (choose mode aged ix n (scan_cap eviction_scan_cap n) free)
