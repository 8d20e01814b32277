-- ===== src/Lpm/Deprioritize.antt =====
-- `compute_in_batch_deprioritize`: the first request of a prefix claims it, later ones are put off.
use mathlib.Core.List.{Mem, mem-cons, mem-cons_self, mem-cons_of_mem, mem-cast, not-mem-nil}
use mathlib.Core.Logic.Or
use mathlib.Core.Logic.{◌∨₁◌, ∥∥₁_map, ∥∥₁_elim}
use peek.Prelude.{
  ℕ, ◌≡◌, ◌↔◌, refl, sym, ap, inl, inr, List, [], ◌∷◌, ◌++◌, map, Bool, true, false, arith, length,
  take, select, not, ◌&&◌, ltb, if◌then◌else◌, tuple_eq, Bool-cases,
}
use peek.Prelude.Int.{ℤ, pos, negsuc}
use peek.Prelude.Membership.{contains, contains_iff}
use peek.Lpm.Data.{Req, tokens_of, prefix_hit}

-- The loop's tests: a request that is cold and long enough is a candidate.
abbrev pub is_cold : ℕ → (Req → ℕ) → Req → Bool
is_cold check hit r = not (ltb check (hit r))

abbrev pub is_long : ℕ → Req → Bool
is_long threshold r = not (ltb (length (tokens_of r)) threshold)

abbrev pub prefix_key : ℕ → Req → List ℕ
prefix_key threshold r = take threshold (tokens_of r)

-- The rids that are deprioritized, given the prefixes seen so far.
unfoldable pub claim : ℕ → ℕ → (Req → ℕ) → List (List ℕ) → List Req → List (List ℕ)
unfolding contains
claim check threshold hit seen [] = []
claim check threshold hit seen (r ∷ rs) =
    if not (is_cold check hit r)
    then claim check threshold hit seen rs
    else if not (is_long threshold r)
    then claim check threshold hit seen rs
    else if contains seen (prefix_key threshold r)
    then r.rid ∷ claim check threshold hit seen rs
    else claim check threshold hit (prefix_key threshold r ∷ seen) rs

-- Negative thresholds disable the check.
unfoldable pub claim_if : ℤ → ℤ → (Req → ℕ) → List Req → List (List ℕ)
unfolding claim
claim_if (negsuc c) threshold hit q = []
claim_if (pos check) (negsuc d) hit q = []
claim_if (pos check) (pos threshold) hit q = claim check threshold hit [] q

unfoldable pub compute_in_batch_deprioritize : ℤ → ℤ → List Req → List (List ℕ)
unfolding claim_if
compute_in_batch_deprioritize check_threshold deprioritize_threshold waiting_queue =
    claim_if check_threshold deprioritize_threshold prefix_hit waiting_queue

module _ (check threshold : ℕ) (hit : Req → ℕ) where
  abbrev pub is_candidate : Req → Bool
  is_candidate r = is_cold check hit r && is_long threshold r

  -- The prefixes that the candidates among some requests claim.
  abbrev pub claimed : List Req → List (List ℕ)
  claimed rs = map (prefix_key threshold) (select is_candidate rs)

  -- A request with this rid is a candidate, and its prefix is among `seen` or has been claimed by
  -- an earlier request of the queue.
  pub record IsPutOff (seen : List (List ℕ)) (q : List Req) (rid : List ℕ) : Type 0 where
    pub before : List Req
    pub req : Req
    pub after : List Req
    pub split : q ≡ before ++ (req ∷ after)
    pub named : req.rid ≡ rid
    pub candidate : is_candidate req ≡ true
    pub taken :
        Mem (prefix_key threshold req) (claimed before) ∨₁ Mem (prefix_key threshold req) seen

  claim_step :
      (seen : List (List ℕ)) (r : Req) (rs : List Req)
      → claim check threshold hit seen (r ∷ rs) ≡ (
          if is_candidate r
          then if contains seen (prefix_key threshold r)
            then r.rid ∷ claim check threshold hit seen rs
            else claim check threshold hit (prefix_key threshold r ∷ seen) rs
          else claim check threshold hit seen rs)
  unfolding claim
  claim_step seen r rs = ground arith

  claimed-candidate :
      (r : Req) (rs : List Req)
      → is_candidate r ≡ true
      → claimed (r ∷ rs) ≡ prefix_key threshold r ∷ claimed rs
  claimed-candidate r rs c = rw c refl

  claimed-other : (r : Req) (rs : List Req) → is_candidate r ≡ false → claimed (r ∷ rs) ≡ claimed rs
  claimed-other r rs c = rw c refl

  -- What a later request is put off by, with one more request before it.
  later :
      (seen seen' : List (List ℕ)) (r : Req) (rs : List Req) (rid : List ℕ)
      → ((k : List ℕ) (b : List Req)
          → Mem k (claimed b) ∨₁ Mem k seen'
          → Mem k (claimed (r ∷ b)) ∨₁ Mem k seen)
      → IsPutOff seen' rs rid
      → IsPutOff seen (r ∷ rs) rid
  later seen seen' r rs rid h p = record {
    before = r ∷ p.before;
    req = p.req;
    after = p.after;
    split = ap (◌∷◌ r) p.split;
    named = p.named;
    candidate = p.candidate;
    taken = h (prefix_key threshold p.req) p.before p.taken;
  }

  after_other :
      (seen : List (List ℕ)) (r : Req) (k : List ℕ) (b : List Req)
      → is_candidate r ≡ false
      → Mem k (claimed b) ∨₁ Mem k seen
      → Mem k (claimed (r ∷ b)) ∨₁ Mem k seen
  after_other seen r k b c m = rw (claimed-other r b c) m

  after_candidate :
      (seen : List (List ℕ)) (r : Req) (k : List ℕ) (b : List Req)
      → is_candidate r ≡ true
      → Mem k (claimed b) ∨₁ Mem k seen
      → Mem k (claimed (r ∷ b)) ∨₁ Mem k seen
  after_candidate seen r k b c m =
      rw (claimed-candidate r b c)
        (Or.elim (hlevel) m (λ n. Or.inl (mem-cons_of_mem (prefix_key threshold r) n)) Or.inr)

  after_claim :
      (seen : List (List ℕ)) (r : Req) (k : List ℕ) (b : List Req)
      → is_candidate r ≡ true
      → Mem k (claimed b) ∨₁ Mem k (prefix_key threshold r ∷ seen)
      → Mem k (claimed (r ∷ b)) ∨₁ Mem k seen
  after_claim seen r k b c m = rw (claimed-candidate r b c) (
      Or.elim (hlevel) m (λ n. Or.inl (mem-cons_of_mem (prefix_key threshold r) n))
        (λ n. Or.elim (hlevel) (mem-cons.0 n) (λ q. Or.inl (mem-cast q mem-cons_self)) Or.inr))

  claim_sound :
      (seen : List (List ℕ)) (q : List Req) (rid : List ℕ)
      → Mem rid (claim check threshold hit seen q)
      → ∥ IsPutOff seen q rid ∥₁
  unfolding claim
  claim_sound seen [] rid m = absurd (not-mem-nil m)
  claim_sound seen (r ∷ rs) rid m = elim (Bool-cases (is_candidate r)) [
    | inr other ↦
        ∥∥₁_map (claim_sound seen rs rid (rw (claim_step seen r rs, other) at m))
          (later seen seen r rs rid (λ k b. after_other seen r k b other))
    | inl candidate ↦ elim (Bool-cases (contains seen (prefix_key threshold r))) [
      | inr new ↦
          ∥∥₁_map
            (claim_sound (prefix_key threshold r ∷ seen) rs rid
              (rw (claim_step seen r rs, candidate, new) at m))
            (later seen (prefix_key threshold r ∷ seen) r rs rid
              (λ k b. after_claim seen r k b candidate))
      | inl old ↦
          Or.elim (hlevel) (mem-cons.0 (rw (claim_step seen r rs, candidate, old) at m))
            (λ e. ∣ record {
              before = [];
              req = r;
              after = rs;
              split = refl;
              named = sym e;
              candidate = candidate;
              taken = Or.inr ((contains_iff seen (prefix_key threshold r)).0 old);
            } ∣₁)
            (λ n.
              ∥∥₁_map (claim_sound seen rs rid n)
                (later seen seen r rs rid (λ k b. after_candidate seen r k b candidate)))
    ]
  ]

  claim_complete :
      (seen : List (List ℕ)) (before : List Req) (req : Req) (after : List Req)
      → is_candidate req ≡ true
      → Mem (prefix_key threshold req) (claimed before) ∨₁ Mem (prefix_key threshold req) seen
      → Mem req.rid (claim check threshold hit seen (before ++ (req ∷ after)))
  claim_complete seen [] req after c t =
      let m = Or.elim (hlevel) t (λ n. absurd (not-mem-nil n)) (λ n. n) in
      rw (claim_step seen req after, c, (contains_iff seen (prefix_key threshold req)).1 m)
        mem-cons_self
  claim_complete seen (r ∷ before) req after c t = elim (Bool-cases (is_candidate r)) [
    | inr other ↦
        rw (claim_step seen r (before ++ (req ∷ after)), other)
          (claim_complete seen before req after c (rw (claimed-other r before other) at t))
    | inl candidate ↦ elim (Bool-cases (contains seen (prefix_key threshold r))) [
      | inr new ↦
          rw (claim_step seen r (before ++ (req ∷ after)), candidate, new)
            (claim_complete (prefix_key threshold r ∷ seen) before req after c (
              Or.elim (hlevel) (rw (claimed-candidate r before candidate) at t)
                (λ n.
                  Or.elim (hlevel) (mem-cons.0 n) (λ q. Or.inr (mem-cast q mem-cons_self)) Or.inl)
                (λ n. Or.inr (mem-cons_of_mem (prefix_key threshold r) n))))
      | inl old ↦
          rw (claim_step seen r (before ++ (req ∷ after)), candidate, old)
            (mem-cons_of_mem r.rid (
              claim_complete seen before req after c (
                Or.elim (hlevel) (rw (claimed-candidate r before candidate) at t)
                  (λ n.
                    Or.elim (hlevel) (mem-cons.0 n)
                      (λ q.
                        Or.inr (mem-cast q ((contains_iff seen (prefix_key threshold r)).0 old)))
                      Or.inl)
                  Or.inr)))
    ]
  ]

-- With thresholds that are not negative, `compute_in_batch_deprioritize` puts a rid off exactly
-- when a request of this rid is cold and long enough, and an earlier one that is cold and long
-- enough starts with the same tokens, as many as the threshold says.
pub compute_in_batch_deprioritize_iff :
    (check threshold : ℕ) (q : List Req) (rid : List ℕ)
    → Mem rid (compute_in_batch_deprioritize (pos check) (pos threshold) q)
      ↔ ∥ IsPutOff check threshold prefix_hit [] q rid ∥₁
unfolding compute_in_batch_deprioritize claim_if
compute_in_batch_deprioritize_iff check threshold q rid = (
  claim_sound check threshold prefix_hit [] q rid,
  λ p. ∥∥₁_elim p (hlevel) (λ o. rw o.split (
      mem-cast (sym o.named)
        (claim_complete check threshold prefix_hit [] o.before o.req o.after o.candidate o.taken))),
)
