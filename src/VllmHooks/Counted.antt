-- ===== src/VllmHooks/Counted.antt =====
-- `_drop_rid` keeps the index of block demand, and undoes `_bump_rid`.
use peek.Prelude.{
  ℕ, ◌+◌, ◌-◌, ◌≡◌, refl, ap, ◌∙◌, inl, inr, List, [], ◌∷◌, none, some, Bool, true, false,
  if◌then◌else◌, leb, ◌==◌, nat_eq, arith, Bool-cases, Option-cases, All,
}
use peek.Prelude.Dict.{get, put, delete, get-put, get-delete}
use peek.VllmHooks.Demand.{
  Mode, is_cluster, Index, count_at, bump_rid, drop_hash, drop_hashes, drop_rid,
}
use peek.VllmHooks.Totals.{count, total, delete-IsDict, total-delete}
use peek.VllmHooks.Depths.{Bounded, All-Bounded-delete, delete-Bounded}
use peek.VllmHooks.Counts.{Counts, IsCounted, bump_rid-IsCounted, bump_rid-get, bump_rid-total}

module _ (mode : Mode) where
  drop_hash-Counts :
      (extra : ℕ → ℕ) (h : ℕ) (ix : Index)
      → Counts mode (λ k. (if h == k then 1 else 0) + extra k) ix
      → Counts mode extra (drop_hash mode h ix)
  unfolding drop_hash
  drop_hash-Counts extra h ix c = elim (Bool-cases (leb (count_at h ix.demand) 1)) [
    | inl few ↦
        let here = c.counted h in
        let none_left : total h ix.rid_to_hashes ≡ 0 = ground (arith, few, here) in
        rw few (record {
          counted = λ k. ground (arith, get-delete k h ix.demand, c.counted k, few, here);
          positive = λ k n. ground (arith, get-delete k h ix.demand, c.positive k n);
          dict = c.dict;
          depths = λ cl. lowered none_left cl (c.depths cl);
        })
    | inr many ↦ rw many (record {
      counted =
          λ k. ground (arith, get-put k h (count_at h ix.demand - 1) ix.demand, c.counted k, many);
      positive = λ k n.
          ground (arith, get-put k h (count_at h ix.demand - 1) ix.demand, c.positive k n, many);
      dict = c.dict;
      depths = c.depths;
    })
  ]
    where
      lowered :
          total h ix.rid_to_hashes ≡ 0
          → is_cluster mode ≡ true
          → All (λ e. Bounded ix.max_depth 1 e.1) ix.rid_to_hashes
          → All
              (λ e. Bounded (if is_cluster mode then delete h ix.max_depth else ix.max_depth) 1 e.1)
              ix.rid_to_hashes
      lowered z cl b = rw cl (All-Bounded-delete h ix.max_depth ix.rid_to_hashes z b)

  drop_hashes-Counts :
      (hs : List ℕ) (ix : Index)
      → Counts mode (λ k. count k hs) ix
      → IsCounted mode (drop_hashes mode hs ix)
  unfolding drop_hashes
  drop_hashes-Counts [] ix c = c
  drop_hashes-Counts (h ∷ hs) ix c =
      drop_hashes-Counts hs (drop_hash mode h ix) (drop_hash-Counts (λ k. count k hs) h ix c)

  drop_rid_absent : (i : ℕ) (ix : Index) → get i ix.rid_to_hashes ≡ none → drop_rid mode i ix ≡ ix
  unfolding drop_rid
  drop_rid_absent i ix n = rw (n, drop_rid) refl

  abbrev untracked : ℕ → Index → Index
  untracked i ix = record ix { rid_to_hashes = delete i ix.rid_to_hashes }

  drop_rid_known :
      (i : ℕ) (ix : Index) (snap : List ℕ)
      → get i ix.rid_to_hashes ≡ some snap
      → drop_rid mode i ix ≡ drop_hashes mode snap (untracked i ix)
  unfolding drop_rid
  drop_rid_known i ix snap e = rw (e, drop_rid) refl

  drop_hashes-rids :
      (hs : List ℕ) (ix : Index) → (drop_hashes mode hs ix).rid_to_hashes ≡ ix.rid_to_hashes
  unfolding drop_hashes drop_hash
  drop_hashes-rids [] ix = refl
  drop_hashes-rids (h ∷ hs) ix =
      drop_hashes-rids hs (drop_hash mode h ix) ∙ kept (leb (count_at h ix.demand) 1)
    where
      kept :
          (b : Bool)
          → (if b
              then record ix {
                demand = delete h ix.demand;
                max_depth = if is_cluster mode then delete h ix.max_depth else ix.max_depth;
              }
              else record ix { demand = put h (count_at h ix.demand - 1) ix.demand }).rid_to_hashes
            ≡ ix.rid_to_hashes
      kept true = refl
      kept false = refl

  pub drop_rid-IsCounted :
      (i : ℕ) (ix : Index) → IsCounted mode ix → IsCounted mode (drop_rid mode i ix)
  drop_rid-IsCounted i ix c = elim (Option-cases (get i ix.rid_to_hashes)) [
    | inl n ↦ rw (drop_rid_absent i ix n) c
    | inr (snap, e) ↦ rw (drop_rid_known i ix snap e) (
        drop_hashes-Counts snap (untracked i ix) (record {
          counted = λ k.
              let t = total-delete i snap ix.rid_to_hashes c.dict e k in omega (arith, c.counted k);
          positive = c.positive;
          dict = delete-IsDict i ix.rid_to_hashes c.dict;
          depths = λ cl. delete-Bounded i ix.rid_to_hashes ix.max_depth (c.depths cl);
        }))
  ]

  -- When a request comes and goes, the demand of every hash is what it was before.
  pub drop-bump :
      (hashes : List ℕ) (i : ℕ) (ix : Index)
      → get i ix.rid_to_hashes ≡ none
      → IsCounted mode ix
      → (h : ℕ)
      → count_at h (drop_rid mode i (bump_rid mode hashes i ix)).demand ≡ count_at h ix.demand
  drop-bump hashes i ix new c h =
      let bumped = bump_rid mode hashes i ix in
      let b = bump_rid-IsCounted mode hashes i ix new c in
      let d = drop_rid-IsCounted i bumped b in
      let known = bump_rid-get mode hashes i ix in
      let left = ap (total h) (dropped known) in
      let back = total-delete i hashes bumped.rid_to_hashes b.dict known h in
      let came = bump_rid-total mode hashes i ix new h in omega (arith, d.counted h, c.counted h)
    where
      dropped :
          get i (bump_rid mode hashes i ix).rid_to_hashes ≡ some hashes
          → (drop_rid mode i (bump_rid mode hashes i ix)).rid_to_hashes
            ≡ delete i (bump_rid mode hashes i ix).rid_to_hashes
      dropped known =
          ap (λ x. x.rid_to_hashes) (drop_rid_known i (bump_rid mode hashes i ix) hashes known)
          ∙ drop_hashes-rids hashes (untracked i (bump_rid mode hashes i ix))
