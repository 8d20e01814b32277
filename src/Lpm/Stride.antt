-- ===== src/Lpm/Stride.antt =====
-- The two-lane stride scheduler of `peek_clpm_sort_inplace`. A share is p / q; the strides 1 / share
-- and 1 / (1 - share) are scaled by p * (q - p) / q, to q - p and p, so that they are exact.
use peek.Prelude.{
  ℕ, zero, suc, ◌+◌, List, [], ◌∷◌, ◌++◌, Option, none, some, Bool, true, false, length,
  if◌then◌else◌, leb, nat_eq,
}
use peek.Prelude.Membership.{contains}

-- The positions that each lane has not passed, their virtual clocks (none is infinity), and the
-- positions picked, in the order of the picks.
pub record Lanes : Type 0 where
  pub a_rest : List ℕ
  pub b_rest : List ℕ
  pub a_vclock : Option ℕ
  pub b_vclock : Option ℕ
  pub order : List ℕ

abbrev pub clock_leb : Option ℕ → Option ℕ → Bool
clock_leb (some a) (some b) = leb a b
clock_leb (some a) none = true
clock_leb none (some b) = false
clock_leb none none = true

abbrev pub advance : ℕ → Option ℕ → Option ℕ
advance stride none = none
advance stride (some c) = some (c + stride)

-- `while a_ptr < n and a_sorted[a_ptr] in picked: a_ptr += 1`
unfoldable pub skip_picked : List ℕ → List ℕ → List ℕ
unfolding contains
skip_picked picked [] = []
skip_picked picked (x ∷ xs) = if contains picked x then skip_picked picked xs else x ∷ xs

-- The pick of a lane whose next position, after skipping, is the head of the list.
abbrev pub pick_a : ℕ → Lanes → List ℕ → Lanes
pick_a stride st [] = record st { a_rest = []; a_vclock = none }
pick_a stride st (x ∷ xs) = record st {
  a_rest = xs;
  a_vclock = advance stride st.a_vclock;
  order = st.order ++ x ∷ [];
}

abbrev pub pick_b : ℕ → Lanes → List ℕ → Lanes
pick_b stride st [] = record st { b_rest = []; b_vclock = none }
pick_b stride st (x ∷ xs) = record st {
  b_rest = xs;
  b_vclock = advance stride st.b_vclock;
  order = st.order ++ x ∷ [];
}

-- One round of the loop.
unfoldable pub stride_step : ℕ → ℕ → Lanes → Lanes
unfolding skip_picked
stride_step a_stride b_stride st =
    if clock_leb st.a_vclock st.b_vclock
    then pick_a a_stride st (skip_picked st.order st.a_rest)
    else pick_b b_stride st (skip_picked st.order st.b_rest)

-- `while len(order) < n`; none where the fuel runs out.
unfoldable pub stride_loop : ℕ → ℕ → ℕ → ℕ → Lanes → Option (List ℕ)
unfolding stride_step
stride_loop zero a_stride b_stride n st = if leb n (length st.order) then some st.order else none
stride_loop (suc fuel) a_stride b_stride n st =
    let rest = stride_loop fuel a_stride b_stride n (stride_step a_stride b_stride st) in
    if leb n (length st.order) then some st.order else rest

abbrev pub start_lanes : ℕ → ℕ → List ℕ → List ℕ → Lanes
start_lanes a_stride b_stride a_sorted b_sorted = record {
  a_rest = a_sorted;
  b_rest = b_sorted;
  a_vclock = some a_stride;
  b_vclock = some b_stride;
  order = [];
}

-- Each round picks one position, so that n rounds are enough.
unfoldable pub interleave : ℕ → ℕ → ℕ → List ℕ → List ℕ → Option (List ℕ)
unfolding stride_loop
interleave a_stride b_stride n a_sorted b_sorted =
    stride_loop n a_stride b_stride n (start_lanes a_stride b_stride a_sorted b_sorted)
