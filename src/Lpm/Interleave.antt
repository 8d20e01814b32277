-- ===== src/Lpm/Interleave.antt =====
-- The two-lane interleaving ends within n rounds and picks each position once.
use mathlib.Core.List.{
  Perm, Nodup-cons, Nodup-append, Mem, mem-cons, mem-cast, not-mem-nil, append-nil, append_assoc,
}
use mathlib.Core.List.Perm
use mathlib.Core.Logic.{◌∨₁◌}
use mathlib.Core.Logic.Or
use native.Mathlib.Nat.{ℕ_set}
use peek.Prelude.{
  ℕ, zero, suc, ◌+◌, ◌≤◌, ◌≡◌, ◌≢◌, ◌∙◌, refl, sym, ap, inl, inr, List, [], ◌∷◌, ◌++◌, some, true,
  false, ◌||◌, not, arith, length, length-append, length-perm, range_from, range, leb, ◌==◌, nat_eq,
  Bool-cases, ==_iff,
}
use peek.Prelude.Perms.{select-perm}
use peek.Prelude.Membership.{contains, select_out, select_out-none, range-Nodup}
use peek.Lpm.Stride.{
  Lanes, clock_leb, skip_picked, pick_a, pick_b, stride_step, stride_loop, start_lanes, interleave,
}

-- Passing over picked positions passes over nothing that is left.
pub skip_picked-left :
    (picked xs : List ℕ) → select_out picked (skip_picked picked xs) ≡ select_out picked xs
unfolding skip_picked
skip_picked-left picked [] = refl
skip_picked-left picked (x ∷ xs) = elim (Bool-cases (contains picked x)) [
  | inl q ↦ rw q (skip_picked-left picked xs)
  | inr q ↦ rw q (rw q refl)
]

-- What `skip_picked` returns starts with a position that is not picked.
pub data Skipped (picked : List ℕ) : List ℕ → Type 0 where
  all_picked : Skipped picked []
  next : {x : ℕ} {xs : List ℕ} → contains picked x ≡ false → Skipped picked (x ∷ xs)

pub skip_picked_lem : (picked xs : List ℕ) → Skipped picked (skip_picked picked xs)
unfolding skip_picked
skip_picked_lem picked [] = all_picked
skip_picked_lem picked (x ∷ xs) = elim (Bool-cases (contains picked x)) [
  | inl q ↦ rw q (skip_picked_lem picked xs)
  | inr q ↦ rw q (next q)
]

contains-append :
    (xs : List ℕ) (x k : ℕ) → contains (xs ++ x ∷ []) k ≡ (contains xs k || contains (x ∷ []) k)
unfolding contains
contains-append [] x k = refl
contains-append (y ∷ ys) x k = elim (Bool-cases (y == k)) [
  | inl q ↦ rw q refl
  | inr q ↦ rw q (contains-append ys x k)
]

-- One more pick takes one more position out.
select_out-append :
    (picked : List ℕ) (x : ℕ) (xs : List ℕ)
    → select_out (picked ++ x ∷ []) xs ≡ select_out (x ∷ []) (select_out picked xs)
select_out-append picked x [] = refl
select_out-append picked x (y ∷ ys) = elim (Bool-cases (contains picked y)) [
  | inl q ↦ rw (contains-append picked x y, q) (select_out-append picked x ys)
  | inr q ↦ elim (Bool-cases (contains (x ∷ []) y)) [
    | inl r ↦ rw (contains-append picked x y, q) (rw r (select_out-append picked x ys))
    | inr r ↦ rw (contains-append picked x y, q) (rw r (ap (◌∷◌ y) (select_out-append picked x ys)))
  ]
]

-- What is left for one lane and the other, and what they pick in the end.
pub record IsOpen (n : ℕ) (order lane other left : List ℕ) : Type 0 where
  pub mine : Perm (select_out order lane) left
  pub theirs : Perm (select_out order other) left
  pub whole : Perm (order ++ left) (range n)

select_out_one : (x : ℕ) (xs : List ℕ) → ¬ Mem x xs → select_out (x ∷ []) xs ≡ xs
select_out_one x xs n = select_out-none (x ∷ []) xs (λ k m h. n (mem-cast (only (mem-cons.0 h)) m))
  where
    only : {k : ℕ} → ((k ≡ x) ∨₁ Mem k []) → x ≡ k
    only h = Or.elim (ℕ_set _ _) h sym (λ m. absurd (not-mem-nil m))

drop_one : (x : ℕ) (xs : List ℕ) → select_out (x ∷ []) (x ∷ xs) ≡ select_out (x ∷ []) xs
unfolding contains
drop_one x xs = rw ((==_iff x x).1 refl) refl

pick-IsOpen :
    (n : ℕ) (order lane other left : List ℕ) (x : ℕ) (xs : List ℕ)
    → contains order x ≡ false
    → select_out order (x ∷ xs) ≡ select_out order lane
    → IsOpen n order lane other left
    → (left' : List ℕ) × IsOpen n (order ++ x ∷ []) xs other left'
      × (length left ≡ suc (length left'))
pick-IsOpen n order lane other left x xs new same o =
    let p : Perm (x ∷ select_out order xs) left = rw (← same, new) at o.mine in
    let d = Perm.nodup (Perm.symm o.whole) (range-Nodup n) in
    let fresh =
      (Nodup-cons.0 (Perm.nodup (Perm.symm p) ((Nodup-append {l₁ = order} {l₂ = left}).0 d).1)).0 in
    let kept = select_out_one x (select_out order xs) fresh in
    (
      select_out order xs,
      record {
        mine = rw (select_out-append order x xs, kept) Perm.rfl;
        theirs = rw (select_out-append order x other) (
            Perm.trans
              (select-perm (λ k. not (contains (x ∷ []) k)) (Perm.trans o.theirs (Perm.symm p)))
              (rw (drop_one x (select_out order xs), kept) Perm.rfl));
        whole =
            rw (append_assoc order (x ∷ []) (select_out order xs))
              (Perm.trans (Perm.append_left order p) o.whole);
      },
      sym (length-perm p),
    )

pub length-range_from : (s n : ℕ) → length (range_from s n) ≡ n
length-range_from s zero = refl
length-range_from s (suc n) = ap suc (length-range_from (suc s) n)

pub swap_lanes :
    (n : ℕ) (order lane other left : List ℕ)
    → IsOpen n order lane other left
    → IsOpen n order other lane left
swap_lanes n order lane other left o = record { mine = o.theirs; theirs = o.mine; whole = o.whole }

-- A lane that has passed all its positions leaves none.
pub none_left :
    (n : ℕ) (order lane other left : List ℕ)
    → [] ≡ select_out order lane
    → IsOpen n order lane other left
    → left ≡ []
none_left n order lane other left e o = sym (Perm.nil-eq (rw (← e) at o.mine))

-- A round of the loop picks one of the positions that are left.
abbrev pub Advances : ℕ → List ℕ → Lanes → Type 0
Advances n left st =
    (left' : List ℕ) × IsOpen n st.order st.a_rest st.b_rest left'
    × (length left ≡ suc (length left'))

pick_a-Advances :
    (n stride : ℕ) (st : Lanes) (left ys : List ℕ)
    → Skipped st.order ys
    → select_out st.order ys ≡ select_out st.order st.a_rest
    → IsOpen n st.order st.a_rest st.b_rest left
    → left ≢ []
    → Advances n left (pick_a stride st ys)
pick_a-Advances n stride st left [] s e o some_left =
    absurd (some_left (none_left n st.order st.a_rest st.b_rest left e o))
pick_a-Advances n stride st left (y ∷ ys) (next new) e o some_left =
    pick-IsOpen n st.order st.a_rest st.b_rest left y ys new e o

pick_b-Advances :
    (n stride : ℕ) (st : Lanes) (left ys : List ℕ)
    → Skipped st.order ys
    → select_out st.order ys ≡ select_out st.order st.b_rest
    → IsOpen n st.order st.a_rest st.b_rest left
    → left ≢ []
    → Advances n left (pick_b stride st ys)
pick_b-Advances n stride st left [] s e o some_left = absurd (
    some_left (
      none_left n st.order st.b_rest st.a_rest left e
        (swap_lanes n st.order st.a_rest st.b_rest left o)))
pick_b-Advances n stride st left (y ∷ ys) (next new) e o some_left =
    let (left', o', l) =
      pick-IsOpen n st.order st.b_rest st.a_rest left y ys new e
        (swap_lanes n st.order st.a_rest st.b_rest left o) in
    (left', swap_lanes n (st.order ++ y ∷ []) ys st.a_rest left' o', l)

pub stride_step-Advances :
    (n sa sb : ℕ) (st : Lanes) (left : List ℕ)
    → IsOpen n st.order st.a_rest st.b_rest left
    → left ≢ []
    → Advances n left (stride_step sa sb st)
unfolding stride_step
stride_step-Advances n sa sb st left o some_left =
    elim (Bool-cases (clock_leb st.a_vclock st.b_vclock)) [
      | inl a ↦ rw a (
          pick_a-Advances n sa st left (skip_picked st.order st.a_rest)
            (skip_picked_lem st.order st.a_rest) (skip_picked-left st.order st.a_rest) o some_left)
      | inr b ↦ rw b (
          pick_b-Advances n sb st left (skip_picked st.order st.b_rest)
            (skip_picked_lem st.order st.b_rest) (skip_picked-left st.order st.b_rest) o some_left)
    ]

-- The loop stops when nothing is left, and not before.
measured :
    (n : ℕ) (order lane other left : List ℕ)
    → IsOpen n order lane other left
    → length order + length left ≡ n
measured n order lane other left o =
    sym (length-append order left) ∙ length-perm o.whole ∙ length-range_from 0 n

finished : (k a : ℕ) → a + 0 ≡ k → leb k a ≡ true
finished k a e = ground arith

stride_loop-perm :
    (fuel n sa sb : ℕ) (st : Lanes) (left : List ℕ)
    → IsOpen n st.order st.a_rest st.b_rest left
    → length left ≤ fuel
    → (out : List ℕ) × (stride_loop fuel sa sb n st ≡ some out) × Perm out (range n)
unfolding stride_loop
stride_loop-perm zero n sa sb st [] o h =
    let m = measured n st.order st.a_rest st.b_rest [] o in
    (st.order, rw (finished n (length st.order) m) refl, rw (append-nil st.order) at o.whole)
stride_loop-perm zero n sa sb st (x ∷ left) o h = absurd (omega arith)
stride_loop-perm (suc fuel) n sa sb st [] o h =
    let m = measured n st.order st.a_rest st.b_rest [] o in
    (st.order, rw (finished n (length st.order) m) refl, rw (append-nil st.order) at o.whole)
stride_loop-perm (suc fuel) n sa sb st (x ∷ left) o h =
    let (left', o', l) = stride_step-Advances n sa sb st (x ∷ left) o (λ q. cc) in
    let m = measured n st.order st.a_rest st.b_rest (x ∷ left) o in
    rw (running n (length st.order) (length left) m)
      (stride_loop-perm fuel n sa sb (stride_step sa sb st) left' o' (omega (arith, l)))
  where
    running : (k a b : ℕ) → a + suc b ≡ k → leb k a ≡ false
    running k a b e = ground arith

pub start-IsOpen :
    (n sa sb : ℕ) (xs ys : List ℕ)
    → Perm xs (range n)
    → Perm ys (range n)
    → IsOpen n [] xs ys (range n)
start-IsOpen n sa sb xs ys p q = record {
  mine = rw (select_out-none [] xs (λ k m h. not-mem-nil h)) p;
  theirs = rw (select_out-none [] ys (λ k m h. not-mem-nil h)) q;
  whole = Perm.rfl;
}

-- Whatever the shares, the interleaving of two orders of 0, ..., n - 1 ends within n rounds, and
-- picks each of these positions once.
pub interleave-perm :
    (sa sb n : ℕ) (a_sorted b_sorted : List ℕ)
    → Perm a_sorted (range n)
    → Perm b_sorted (range n)
    → (out : List ℕ) × (interleave sa sb n a_sorted b_sorted ≡ some out) × Perm out (range n)
unfolding interleave
interleave-perm sa sb n xs ys p q =
    stride_loop-perm n n sa sb (start_lanes sa sb xs ys) (range n) (start-IsOpen n sa sb xs ys p q)
      (omega (arith, length-range_from 0 n))
