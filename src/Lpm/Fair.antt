-- ===== src/Lpm/Fair.antt =====
-- The two lanes of the interleaving are served in the proportion of their shares.
use peek.Prelude.{
  ℕ, zero, suc, ◌+◌, ◌*◌, ◌≤◌, ◌≡◌, ◌≢◌, ap, inl, inr, List, [], ◌∷◌, some, true, false, arith,
  length, length-append, range, leb, nat_eq, Bool-cases,
}
use mathlib.Core.List.{Perm}
use peek.Prelude.Membership.{select_out}
use peek.Lpm.Stride.{Lanes, clock_leb, skip_picked, pick_a, pick_b, stride_step, start_lanes}
use peek.Lpm.Interleave.{
  IsOpen, Skipped, skip_picked_lem, skip_picked-left, none_left, swap_lanes, stride_step-Advances,
  start-IsOpen, length-range_from,
}

-- Lane A has made `na` picks and lane B `nb`, as their clocks say, and neither is ahead of the
-- other by more than one pick, weighed by the strides.
pub record IsFair (sa sb na nb : ℕ) (st : Lanes) : Type 0 where
  pub a_clock : st.a_vclock ≡ some (na * sa + sa)
  pub b_clock : st.b_vclock ≡ some (nb * sb + sb)
  pub picks : na + nb ≡ length st.order
  pub a_bound : na * sa ≤ nb * sb + sb
  pub b_bound : nb * sb ≤ na * sa + sa

abbrev Fairly : ℕ → ℕ → Lanes → Type 0
Fairly sa sb st = (na : ℕ) × (nb : ℕ) × IsFair sa sb na nb st

suc-mul : (n s : ℕ) → suc n * s ≡ n * s + s
suc-mul n s = ground arith

pick_a-Fairly :
    (n sa sb na nb : ℕ) (st : Lanes) (left ys : List ℕ)
    → Skipped st.order ys
    → select_out st.order ys ≡ select_out st.order st.a_rest
    → IsOpen n st.order st.a_rest st.b_rest left
    → left ≢ []
    → na * sa + sa ≤ nb * sb + sb
    → IsFair sa sb na nb st
    → Fairly sa sb (pick_a sa st ys)
pick_a-Fairly n sa sb na nb st left [] s e o some_left turn f =
    absurd (some_left (none_left n st.order st.a_rest st.b_rest left e o))
pick_a-Fairly n sa sb na nb st left (y ∷ ys) s e o some_left turn f = (
  suc na,
  nb,
  record {
    a_clock = rw f.a_clock (ap some (omega (arith, suc-mul na sa)));
    b_clock = f.b_clock;
    picks = omega (arith, f.picks, length-append st.order (y ∷ []));
    a_bound = omega (arith, suc-mul na sa, turn);
    b_bound = omega (arith, suc-mul na sa, f.b_bound);
  },
)

pick_b-Fairly :
    (n sa sb na nb : ℕ) (st : Lanes) (left ys : List ℕ)
    → Skipped st.order ys
    → select_out st.order ys ≡ select_out st.order st.b_rest
    → IsOpen n st.order st.a_rest st.b_rest left
    → left ≢ []
    → nb * sb + sb ≤ na * sa + sa
    → IsFair sa sb na nb st
    → Fairly sa sb (pick_b sb st ys)
pick_b-Fairly n sa sb na nb st left [] s e o some_left turn f = absurd (
    some_left (
      none_left n st.order st.b_rest st.a_rest left e
        (swap_lanes n st.order st.a_rest st.b_rest left o)))
pick_b-Fairly n sa sb na nb st left (y ∷ ys) s e o some_left turn f = (
  na,
  suc nb,
  record {
    a_clock = f.a_clock;
    b_clock = rw f.b_clock (ap some (omega (arith, suc-mul nb sb)));
    picks = omega (arith, f.picks, length-append st.order (y ∷ []));
    a_bound = omega (arith, suc-mul nb sb, f.a_bound);
    b_bound = omega (arith, suc-mul nb sb, turn);
  },
)

leb-turn : (a b : ℕ) → leb a b ≡ true → a ≤ b
leb-turn a b h = ground arith

leb-other : (a b : ℕ) → leb a b ≡ false → b ≤ a
leb-other a b h = ground arith

stride_step-Fairly :
    (n sa sb : ℕ) (st : Lanes) (left : List ℕ)
    → IsOpen n st.order st.a_rest st.b_rest left
    → left ≢ []
    → Fairly sa sb st
    → Fairly sa sb (stride_step sa sb st)
unfolding stride_step
stride_step-Fairly n sa sb st left o some_left (na, nb, f) =
    elim (Bool-cases (clock_leb st.a_vclock st.b_vclock)) [
      | inl a ↦ rw a (
          pick_a-Fairly n sa sb na nb st left (skip_picked st.order st.a_rest)
            (skip_picked_lem st.order st.a_rest) (skip_picked-left st.order st.a_rest) o some_left
            (leb-turn _ _ (rw (f.a_clock, f.b_clock) at a)) f)
      | inr b ↦ rw b (
          pick_b-Fairly n sa sb na nb st left (skip_picked st.order st.b_rest)
            (skip_picked_lem st.order st.b_rest) (skip_picked-left st.order st.b_rest) o some_left
            (leb-other _ _ (rw (f.a_clock, f.b_clock) at b)) f)
    ]

-- The state after some rounds of the loop.
abbrev pub rounds : ℕ → ℕ → ℕ → Lanes → Lanes
rounds zero sa sb st = st
rounds (suc k) sa sb st = rounds k sa sb (stride_step sa sb st)

rounds-Fairly :
    (k n sa sb : ℕ) (st : Lanes) (left : List ℕ)
    → IsOpen n st.order st.a_rest st.b_rest left
    → k ≤ length left
    → Fairly sa sb st
    → Fairly sa sb (rounds k sa sb st)
rounds-Fairly zero n sa sb st left o h f = f
rounds-Fairly (suc k) n sa sb st [] o h f = absurd (omega arith)
rounds-Fairly (suc k) n sa sb st (x ∷ left) o h f =
    let (left', o', l) = stride_step-Advances n sa sb st (x ∷ left) o (λ q. cc) in
    rounds-Fairly k n sa sb (stride_step sa sb st) left' o' (omega (arith, l, h))
      (stride_step-Fairly n sa sb st (x ∷ left) o (λ q. cc) f)

-- After any number of rounds, as long as positions are left, the picks of the two lanes, weighed by
-- their strides, differ by at most one pick: the lanes are served in the proportion of their shares.
pub interleave-IsFair :
    (k n sa sb : ℕ) (a_sorted b_sorted : List ℕ)
    → Perm a_sorted (range n)
    → Perm b_sorted (range n)
    → k ≤ n
    → (na : ℕ) × (nb : ℕ) × IsFair sa sb na nb
        (rounds k sa sb (start_lanes sa sb a_sorted b_sorted))
interleave-IsFair k n sa sb xs ys p q h =
    rounds-Fairly k n sa sb (start_lanes sa sb xs ys) (range n) (start-IsOpen n sa sb xs ys p q)
      (omega (arith, h, length-range_from 0 n))
      (
        0,
        0,
        record {
          a_clock = ap some (omega arith);
          b_clock = ap some (omega arith);
          picks = omega arith;
          a_bound = omega arith;
          b_bound = omega arith;
        },
      )
