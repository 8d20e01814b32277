-- ===== src/Eviction/Modes.antt =====
-- `get_priority` in all its modes. Times are whole milliseconds, and the recency penalty is in
-- tokens per second, computed exactly.
use peek.Prelude.{
  ℕ, zero, suc, refl, ◌+◌, ◌-◌, ◌*◌, ◌/◌, ◌<◌, ◌≤◌, ◌≡◌, inl, inr, List, Bool, true, false, ◌&&◌,
  ◌||◌, not, arith, if◌then◌else◌, leb, ◌==◌, Bool-cases,
}
use native.Mathlib.Nat.{mul-le-mul_left}
use peek.Prelude.Int.{ℤ, pos, neg, pos_part, neg_part, ltb_ℤ}
use peek.Eviction.Demand.{Node, Demand, max_ancestor_demand}

-- `_EVICTION_MODE`
pub data Mode : Type 0 where
  plain : Mode
  cluster : Mode
  recency : Mode
  decay : Mode

-- For how long a node was not used; a last access of 0 is none.
abbrev pub age_at : ℕ → ℕ → ℕ
age_at now last_access = if last_access == 0 then 0 else now - last_access

-- A difference of thousandths, cut off towards 0.
abbrev pub truncated : ℕ → ℕ → ℤ
truncated gain loss =
    if leb loss gain then pos ((gain - loss) / 1000) else neg ((loss - gain) / 1000)

-- `int(demand - weight * age)`
unfoldable pub recency_priority : ℕ → ℕ → ℕ → ℤ
recency_priority weight demand age = truncated (1000 * demand) (weight * age)

pos_part-neg : (n : ℕ) → pos_part (neg n) ≡ 0
pos_part-neg zero = refl
pos_part-neg (suc n) = refl

neg_part-neg : (n : ℕ) → neg_part (neg n) ≡ n
neg_part-neg zero = refl
neg_part-neg (suc n) = refl

neg_order : (x y : ℕ) → x ≤ y → ltb_ℤ (neg x) (neg y) ≡ false
neg_order x y h =
    rw (pos_part-neg x, pos_part-neg y, neg_part-neg x, neg_part-neg y) (ground (arith, h))

pos_order : (x y : ℕ) → ltb_ℤ (pos x) (neg y) ≡ false
pos_order x y = rw (pos_part-neg y, neg_part-neg y) (ground arith)

-- A larger loss gives no larger difference.
truncated_mono : (gain l m : ℕ) → l ≤ m → ltb_ℤ (truncated gain l) (truncated gain m) ≡ false
truncated_mono gain l m h = elim (Bool-cases (leb l gain)) [
  | inl few ↦ elim (Bool-cases (leb m gain)) [
    | inl both ↦
        rw (few, both)
          (let q : (gain - m) / 1000 ≤ (gain - l) / 1000 = omega (arith, h) in ground (arith, q))
    | inr more ↦ rw (few, more) (pos_order ((gain - l) / 1000) ((m - gain) / 1000))
  ]
  | inr many ↦
      let larger : leb m gain ≡ false = ground (arith, many, h) in
      rw (many, larger) (neg_order ((l - gain) / 1000) ((m - gain) / 1000) (omega (arith, h)))
]

-- The order of SGLang's heap, which evicts the lowest first.
abbrev pub leb_priority : ℤ × ℕ → ℤ × ℕ → Bool
leb_priority (p, t) (q, u) = ltb_ℤ p q || (not (ltb_ℤ q p) && leb t u)

tie_by_access : (p q : ℤ) (t u : ℕ) → ltb_ℤ q p ≡ false → t ≤ u → leb_priority (p, t) (q, u) ≡ true
tie_by_access p q t u e h = ground (arith, e, h)

-- `int(demand * math.exp(-age / tau))` is a parameter, of the age and the demand, as is the
-- pending tree.
module _ (pending_demand : List ℕ → ℕ) (weight : ℕ) (decayed : ℕ → ℕ → ℕ) where
  abbrev pub mode_priority : Mode → ℕ → Demand → ℤ
  mode_priority plain age d = pos d.max_value
  mode_priority cluster age d = pos (d.max_value * (1 + d.levels))
  mode_priority recency age d = recency_priority weight d.max_value age
  mode_priority decay age d = pos (decayed age d.max_value)

  unfoldable pub get_priority : Mode → ℕ → Node → ℕ → ℤ × ℕ
  unfolding max_ancestor_demand recency_priority
  get_priority mode now node last_access = (
    mode_priority mode (age_at now last_access) (max_ancestor_demand pending_demand node),
    last_access,
  )

  -- A demand decays with the age.
  abbrev pub IsDecay : Type 0
  IsDecay = (demand a b : ℕ) → a ≤ b → decayed b demand ≤ decayed a demand

  recency_mono :
      (demand a b : ℕ)
      → a ≤ b
      → ltb_ℤ (recency_priority weight demand a) (recency_priority weight demand b) ≡ false
  unfolding recency_priority
  recency_mono demand a b h =
      truncated_mono (1000 * demand) (weight * a) (weight * b) (mul-le-mul_left weight h)

  mode_priority_mono :
      IsDecay
      → (mode : Mode) (d : Demand) (a b : ℕ) → a ≤ b
      → ltb_ℤ (mode_priority mode a d) (mode_priority mode b d) ≡ false
  mode_priority_mono ok plain d a b h = ground arith
  mode_priority_mono ok cluster d a b h = ground arith
  mode_priority_mono ok recency d a b h = recency_mono d.max_value a b h
  mode_priority_mono ok decay d a b h = let k = ok d.max_value a b h in ground (arith, k)

  age_mono : (now t u : ℕ) → 0 < t → t ≤ u → age_at now u ≤ age_at now t
  age_mono now t u known h = ground (arith, known, h)

  -- In every mode, of two nodes with one demand and levels the one that was used less recently
  -- is not evicted after the other, where both were used at a known time: its priority is lower
  -- or the same.
  pub get_priority-IsLeastRecent :
      IsDecay
      → (mode : Mode) (now : ℕ) (node other : Node) (last_access later : ℕ)
      → max_ancestor_demand pending_demand node ≡ max_ancestor_demand pending_demand other
      → 0 < last_access
      → last_access ≤ later
      → leb_priority (get_priority mode now node last_access) (get_priority mode now other later)
        ≡ true
  unfolding get_priority
  get_priority-IsLeastRecent ok mode now node other t u same known h =
      let d = max_ancestor_demand pending_demand other in
      let e =
        mode_priority_mono ok mode d (age_at now u) (age_at now t) (age_mono now t u known h) in
      rw same (
        tie_by_access (mode_priority mode (age_at now t) d) (mode_priority mode (age_at now u) d) t
          u e h)
