-- ===== src/VllmHooks/Counts.antt =====
-- The invariant of the index of block demand, and `_bump_rid`.
use peek.Prelude.{
  ℕ, suc, ◌+◌, ◌<◌, ◌≤◌, ◌≡◌, refl, ap, ◌∙◌, List, [], ◌∷◌, none, some, true, if◌then◌else◌, ◌==◌,
  nat_eq, arith, All,
}
use peek.Prelude.Dict.{get, get-put}
use peek.VllmHooks.Demand.{Mode, is_cluster, Index, count_at, bump_hash, bump_hashes, bump_rid}
use peek.VllmHooks.Totals.{count, total, IsDict, put_new, put-IsDict}
use peek.VllmHooks.Depths.{Bounded, All-Bounded-mono, put-Bounded}

-- The invariant, while `extra` more occurrences are counted: a hash counts how often it occurs,
-- is kept only where it does, and where depths are kept each is at least that of every occurrence.
pub record Counts (mode : Mode) (extra : ℕ → ℕ) (ix : Index) : Type 0 where
  pub counted : (h : ℕ) → count_at h ix.demand ≡ extra h + total h ix.rid_to_hashes
  pub positive : (h n : ℕ) → get h ix.demand ≡ some n → 0 < n
  pub dict : IsDict ix.rid_to_hashes
  pub depths : is_cluster mode ≡ true → All (λ e. Bounded ix.max_depth 1 e.1) ix.rid_to_hashes

abbrev pub IsCounted : Mode → Index → Type 0
IsCounted mode ix = Counts mode (λ h. 0) ix

module _ (mode : Mode) where
  bump_hash_mono :
      (d h : ℕ) (ix : Index) (k : ℕ)
      → count_at k ix.max_depth ≤ count_at k (bump_hash mode d h ix).max_depth
  unfolding bump_hash
  bump_hash_mono d h ix k = ground (arith, get-put k h d ix.max_depth)

  bump_hash-deep :
      (d h : ℕ) (ix : Index)
      → is_cluster mode ≡ true
      → d ≤ count_at h (bump_hash mode d h ix).max_depth
  unfolding bump_hash
  bump_hash-deep d h ix c = ground (arith, get-put h h d ix.max_depth, c)

  bump_hash-Counts :
      (extra : ℕ → ℕ) (d h : ℕ) (ix : Index)
      → Counts mode extra ix
      → Counts mode (λ k. (if h == k then 1 else 0) + extra k) (bump_hash mode d h ix)
  unfolding bump_hash
  bump_hash-Counts extra d h ix c = record {
    counted = λ k. ground (arith, get-put k h (count_at h ix.demand + 1) ix.demand, c.counted k);
    positive =
        λ k n. ground (arith, get-put k h (count_at h ix.demand + 1) ix.demand, c.positive k n);
    dict = c.dict;
    depths = λ cl.
        All-Bounded-mono ix.max_depth (bump_hash mode d h ix).max_depth ix.rid_to_hashes
          (bump_hash_mono d h ix) (c.depths cl);
  }

  bump_hashes-rids :
      (d : ℕ) (hs : List ℕ) (ix : Index)
      → (bump_hashes mode d hs ix).rid_to_hashes ≡ ix.rid_to_hashes
  unfolding bump_hashes bump_hash
  bump_hashes-rids d [] ix = refl
  bump_hashes-rids d (h ∷ hs) ix = bump_hashes-rids (suc d) hs (bump_hash mode d h ix)

  bump_hashes_mono :
      (d : ℕ) (hs : List ℕ) (ix : Index) (k : ℕ)
      → count_at k ix.max_depth ≤ count_at k (bump_hashes mode d hs ix).max_depth
  unfolding bump_hashes
  bump_hashes_mono d [] ix k = omega arith
  bump_hashes_mono d (h ∷ hs) ix k =
      let first = bump_hash_mono d h ix k in
      let later = bump_hashes_mono (suc d) hs (bump_hash mode d h ix) k in omega arith

  bump_hashes-deep :
      (d : ℕ) (hs : List ℕ) (ix : Index)
      → is_cluster mode ≡ true
      → Bounded (bump_hashes mode d hs ix).max_depth d hs
  unfolding bump_hashes
  bump_hashes-deep d [] ix cl = tt
  bump_hashes-deep d (h ∷ hs) ix cl =
      let here = bump_hash-deep d h ix cl in
      let later = bump_hashes_mono (suc d) hs (bump_hash mode d h ix) h in
      (omega arith, bump_hashes-deep (suc d) hs (bump_hash mode d h ix) cl)

  Counts-same :
      (f g : ℕ → ℕ) (ix : Index) → ((k : ℕ) → f k ≡ g k) → Counts mode f ix → Counts mode g ix
  Counts-same f g ix e c = record {
    counted = λ k. let e' = e k in omega (arith, c.counted k);
    positive = c.positive;
    dict = c.dict;
    depths = c.depths;
  }

  bump_hashes-Counts :
      (extra : ℕ → ℕ) (d : ℕ) (hs : List ℕ) (ix : Index)
      → Counts mode extra ix
      → Counts mode (λ k. count k hs + extra k) (bump_hashes mode d hs ix)
  unfolding bump_hashes
  bump_hashes-Counts extra d [] ix c = Counts-same extra _ ix (λ k. omega arith) c
  bump_hashes-Counts extra d (h ∷ hs) ix c =
      Counts-same _ (λ k. count k (h ∷ hs) + extra k) _ (λ k. omega arith)
        (bump_hashes-Counts (λ k. (if h == k then 1 else 0) + extra k) (suc d) hs
          (bump_hash mode d h ix) (bump_hash-Counts extra d h ix c))

  -- After `_bump_rid` of a request that is not tracked, the demand of each hash is again the number
  -- of its occurrences in all that is tracked, and each kept depth at least that of them.
  pub bump_rid-IsCounted :
      (hashes : List ℕ) (i : ℕ) (ix : Index)
      → get i ix.rid_to_hashes ≡ none
      → IsCounted mode ix
      → IsCounted mode (bump_rid mode hashes i ix)
  unfolding bump_rid
  bump_rid-IsCounted hashes i ix new c =
      let b = bump_hashes-Counts (λ k. 0) 1 hashes ix c in
      let same = bump_hashes-rids 1 hashes ix in
      let free = ap (λ d. get i d) same ∙ new in
      record {
        counted = λ k.
            let p = put_new i hashes (bump_hashes mode 1 hashes ix).rid_to_hashes free k in
            omega (arith, b.counted k);
        positive = b.positive;
        dict = put-IsDict i hashes (bump_hashes mode 1 hashes ix).rid_to_hashes b.dict;
        depths = λ cl.
            put-Bounded i hashes (bump_hashes mode 1 hashes ix).rid_to_hashes
              (bump_hashes mode 1 hashes ix).max_depth (b.depths cl)
              (bump_hashes-deep 1 hashes ix cl);
      }

  pub bump_rid-get :
      (hashes : List ℕ) (i : ℕ) (ix : Index)
      → get i (bump_rid mode hashes i ix).rid_to_hashes ≡ some hashes
  unfolding bump_rid
  bump_rid-get hashes i ix =
      ground (arith, get-put i i hashes (bump_hashes mode 1 hashes ix).rid_to_hashes)

  pub bump_rid-total :
      (hashes : List ℕ) (i : ℕ) (ix : Index)
      → get i ix.rid_to_hashes ≡ none
      → (h : ℕ)
      → total h (bump_rid mode hashes i ix).rid_to_hashes
        ≡ count h hashes + total h ix.rid_to_hashes
  unfolding bump_rid
  bump_rid-total hashes i ix new h =
      rw (bump_hashes-rids 1 hashes ix) (put_new i hashes ix.rid_to_hashes new h)
