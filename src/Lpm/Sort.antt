-- ===== src/Lpm/Sort.antt =====
-- `peek_sort_inplace`.
use mathlib.Core.List.{Perm}
use peek.Prelude.{
  ℕ, ◌≡◌, refl, inl, inr, List, ◌∷◌, map, Option, none, some, Bool, true, false, length, length-map,
  range, if◌then◌else◌, tuple_eq, Bool-cases,
}
use peek.Prelude.Int.{ℤ, pos, neg}
use peek.Prelude.Sort.{sort_by, sort_by-perm, sort_by-IsSorted, IsSorted}
use peek.Prelude.Membership.{contains}
use peek.Prelude.Pick.{pick, pick-perm}
use peek.Scheduler.Rearranges.{Rearranges}
use peek.Lpm.Data.{Req, Inputs, main_hit, info_of}
use peek.Lpm.Deprioritize.{claim_if, compute_in_batch_deprioritize}
use peek.Lpm.Lex.{lex_leb, le_lex, le_lex-IsOrder}

-- `_SINGLETON_NODE_ID`
abbrev pub singleton_node_id : ℕ
singleton_node_id = 2147483648

-- The options of the sort.
pub record SortConfig : Type 0 where
  pub check_threshold : ℤ
  pub deprioritize_threshold : ℤ
  pub rank_by_cluster_size : Bool
  pub peek_lpm_sort : Bool

abbrev pub bit : Bool → ℕ
bit true = 1
bit false = 0

abbrev pub node_id : Inputs → Req → ℕ
node_id inp r = elim (info_of inp r) [ none ↦ singleton_node_id | some info ↦ info.cluster_node ]

-- The set that is returned.
unfoldable pub deprioritized : SortConfig → Inputs → List Req → List (List ℕ)
unfolding claim_if
deprioritized cfg inp waiting_queue =
    claim_if cfg.check_threshold cfg.deprioritize_threshold (main_hit inp) waiting_queue

-- `_key`, with the characters of the rid at its end.
unfoldable pub sort_key : SortConfig → Inputs → List (List ℕ) → Req → List ℤ
unfolding contains
sort_key cfg inp depr r =
    let is_depr = pos (bit (contains depr r.rid)) in
    let rid = map pos r.rid in
    if cfg.rank_by_cluster_size
    then neg (main_hit inp r) ∷ pos (node_id inp r) ∷ is_depr ∷ rid
    else neg (main_hit inp r) ∷ is_depr ∷ rid

abbrev pub lpm_key : Inputs → List (List ℕ) → Req → ℕ × Bool
lpm_key inp depr r = (main_hit inp r, contains depr r.rid)

-- `lpm_sort_order`, of the Rust core, is a parameter: the order of the keys' positions. None where
-- one of them were out of range.
module _ (lpm_sort_order : List (ℕ × Bool) → List ℕ) where
  unfoldable pub peek_sort_inplace : SortConfig → Inputs → List Req → Option (List Req)
  unfolding deprioritized sort_key lex_leb sort_by pick
  peek_sort_inplace cfg inp waiting_queue =
      let depr = deprioritized cfg inp waiting_queue in
      if cfg.peek_lpm_sort
      then pick waiting_queue (lpm_sort_order (map (lpm_key inp depr) waiting_queue))
      else some (sort_by (le_lex (sort_key cfg inp depr)) waiting_queue)

  -- What the Rust core is relied on for: it orders the positions.
  abbrev pub IsSortOrder : Type 0
  IsSortOrder = (keys : List (ℕ × Bool)) → Perm (lpm_sort_order keys) (range (length keys))

  -- In either mode `peek_sort_inplace` leaves a permutation of the queue.
  pub peek_sort_inplace-Rearranges :
      IsSortOrder
      → (cfg : SortConfig) (inp : Inputs) (q : List Req)
      → Rearranges (peek_sort_inplace cfg inp q) q
  unfolding peek_sort_inplace
  peek_sort_inplace-Rearranges order cfg inp q = elim (Bool-cases cfg.peek_lpm_sort) [
    | inl lpm ↦ rw lpm (
        pick-perm q (
          rw (← length-map (lpm_key inp (deprioritized cfg inp q)) q)
            (order (map (lpm_key inp (deprioritized cfg inp q)) q))))
    | inr own ↦
        rw own
          (sort_by (le_lex (sort_key cfg inp (deprioritized cfg inp q))) q, refl, sort_by-perm _ q)
  ]

  -- Unless the sort is left to the Rust core, the queue that `peek_sort_inplace` leaves is in the
  -- lexicographic order of its keys.
  pub peek_sort_inplace-IsSorted :
      (cfg : SortConfig) (inp : Inputs) (q : List Req)
      → cfg.peek_lpm_sort ≡ false
      → (out : List Req) × (peek_sort_inplace cfg inp q ≡ some out)
        × IsSorted (le_lex (sort_key cfg inp (deprioritized cfg inp q))) out
  unfolding peek_sort_inplace
  peek_sort_inplace-IsSorted cfg inp q own = rw own (
    sort_by (le_lex (sort_key cfg inp (deprioritized cfg inp q))) q,
    refl,
    sort_by-IsSorted _ (le_lex-IsOrder (sort_key cfg inp (deprioritized cfg inp q))) q,
  )

-- Without main hits from the caller, `peek_sort_inplace` puts off the same requests as
-- `compute_in_batch_deprioritize`.
pub deprioritized_lem :
    (cfg : SortConfig) (inp : Inputs) (q : List Req)
    → inp.main_hits ≡ none
    → deprioritized cfg inp q
      ≡ compute_in_batch_deprioritize cfg.check_threshold cfg.deprioritize_threshold q
unfolding deprioritized compute_in_batch_deprioritize
deprioritized_lem cfg inp q h = rw h refl
