-- ===== src/Scheduler/Victims.antt =====
-- `popleft_queue_aware`, which vllm_patches/install.py adds to vLLM's queue of free blocks.
use mathlib.Core.Logic.Or
use mathlib.Core.List.{Perm, Mem, mem-cons, not-mem-nil, Pairwise, Pairwise-append, append-nil}
use mathlib.Core.List.Perm
use peek.Prelude.{
  ℕ, zero, suc, ◌-◌, ◌≤◌, ◌≡◌, ◌∙◌, refl, sym, ap, subst, inl, inr, List, [], ◌∷◌, ◌++◌, Option,
  none, some, Bool, true, false, not, arith, length, take, drop, take-drop, length-take,
  length-perm, leb→le, select, select-append-perm, if◌then◌else◌, ltb, ◌==◌, Bool-cases,
}
use peek.Prelude.Perms.{remove_all, remove_all-perm}
use peek.Prelude.Sort.{sort_by, le_key, le_key-IsOrder, IsSorted, sort_by-perm, sort_by-IsSorted}
use peek.Trie.Data.{is_nil}
use peek.Scheduler.RefCounts.{Block}

abbrev pub ref_count : Block → ℕ
ref_count b = b.queue_ref_count

abbrev pub is_unprotected : Block → Bool
is_unprotected b = b.queue_ref_count == 0

abbrev pub unprotected : List Block → List Block
unprotected free = select is_unprotected free

abbrev pub protected : List Block → List Block
protected free = select (λ b. not (is_unprotected b)) free

-- `unprotected[:n]`, and as many of the cheapest protected blocks as are missing.
unfoldable pub victims : ℕ → List Block → List Block
unfolding sort_by
victims n free =
    let chosen = take n (unprotected free) in
    if ltb (length chosen) n
    then chosen ++ take (n - length chosen) (sort_by (le_key ref_count) (protected free))
    else chosen

-- The queue's own `popleft_n` and `remove`, of vLLM, are parameters.
module _ (popleft_n : ℕ → List Block → List Block × List Block)
    (remove : Block → List Block → List Block) where
  -- The victims and the blocks that stay free; none where a ValueError is raised.
  unfoldable pub popleft_queue_aware : ℕ → List Block → Option (List Block × List Block)
  unfolding victims
  popleft_queue_aware n free =
      if ltb (length free) n
      then none
      else if is_nil (protected free)
      then some (popleft_n n free)
      else some (victims n free, remove_all remove (victims n free) free)

module _ {ℓ} {A : Type ℓ} where
  pub take-append :
      (n k : ℕ) (xs ys : List A) → k ≡ n - length xs → take n (xs ++ ys) ≡ take n xs ++ take k ys
  take-append zero zero xs ys h = refl
  take-append zero (suc k) xs ys h = absurd (omega arith)
  take-append (suc n) k [] ys h = ap (λ j. take j ys) {x = suc n} (omega arith)
  take-append (suc n) k (x ∷ xs) ys h = ap (◌∷◌ x) (take-append n k xs ys (omega arith))

  pub length-take_lem : (n : ℕ) (xs : List A) → n ≤ length xs → length (take n xs) ≡ n
  length-take_lem zero xs h = refl
  length-take_lem (suc n) [] h = absurd (omega arith)
  length-take_lem (suc n) (x ∷ xs) h = ap suc (length-take_lem n xs (omega arith))

-- The free blocks in the order in which they are evicted.
abbrev ranked : List Block → List Block
ranked free = unprotected free ++ sort_by (le_key ref_count) (protected free)

ranked-perm : (free : List Block) → Perm (ranked free) free
ranked-perm free =
    Perm.trans
      (Perm.append_left (unprotected free) (sort_by-perm (le_key ref_count) (protected free)))
      (select-append-perm is_unprotected free)

abbrev chosen : ℕ → List Block → List Block
chosen n free = take n (unprotected free)

victims-take : (n : ℕ) (free : List Block) → victims n free ≡ take n (ranked free)
unfolding victims
victims-take n free = elim (Bool-cases (ltb (length (chosen n free)) n)) [
  | inl few ↦ rw few (
      sym (
        take-append n _ (unprotected free) (sort_by (le_key ref_count) (protected free))
          (short n (unprotected free) few)))
  | inr enough ↦ rw enough (
      sym (
        take-append n 0 (unprotected free) (sort_by (le_key ref_count) (protected free))
          (long n (unprotected free) enough)
        ∙ append-nil (chosen n free)))
]
  where
    short :
        (k : ℕ) (xs : List Block)
        → ltb (length (take k xs)) k ≡ true
        → k - length (take k xs) ≡ k - length xs
    short k xs h = let e = length-take k xs in ground arith

    long : (k : ℕ) (xs : List Block) → ltb (length (take k xs)) k ≡ false → 0 ≡ k - length xs
    long k xs h = let e = length-take k xs in ground arith

pub Mem-select :
    {A : Type 0} (p : A → Bool) (xs : List A) (b : A) → Mem b (select p xs) → p b ≡ true
Mem-select p [] b m = absurd (not-mem-nil m)
Mem-select p (x ∷ xs) b m = elim (Bool-cases (p x)) [
  | inl q ↦ Or.elim (hlevel) (mem-cons.0 (rw q at m)) (λ e. rw e q) (λ m'. Mem-select p xs b m')
  | inr q ↦ Mem-select p xs b (rw q at m)
]

zero_first : (b w : Block) → is_unprotected b ≡ true → le_key ref_count b w ≡ true
zero_first b w h = ground arith

unprotected-IsSorted : (bs : List Block) → IsSorted (le_key ref_count) (unprotected bs)
unprotected-IsSorted [] = Pairwise.nil
unprotected-IsSorted (b ∷ bs) = elim (Bool-cases (is_unprotected b)) [
  | inl q ↦ rw q (Pairwise.cons (λ w m. zero_first b w q) (unprotected-IsSorted bs))
  | inr q ↦ rw q (unprotected-IsSorted bs)
]

ranked-IsSorted : (free : List Block) → IsSorted (le_key ref_count) (ranked free)
ranked-IsSorted free = (Pairwise-append (hlevel)).1 (
  unprotected-IsSorted free,
  sort_by-IsSorted (le_key ref_count) (le_key-IsOrder ref_count) (protected free),
  λ v m w k. zero_first v w (Mem-select is_unprotected free v m),
)

-- What the eviction of `n` blocks must satisfy: nothing is lost, and no evicted block is
-- referenced by more waiting requests than one that stays.
pub record IsCheapest (n : ℕ) (free out rest : List Block) : Type 0 where
  pub enough : length out ≡ n
  pub whole : Perm (out ++ rest) free
  pub cheapest : (v w : Block) → Mem v out → Mem w rest → v.queue_ref_count ≤ w.queue_ref_count

take-IsCheapest :
    (n : ℕ) (free : List Block)
    → n ≤ length free
    → IsCheapest n free (take n (ranked free)) (drop n (ranked free))
take-IsCheapest n free h = record {
  enough = length-take_lem n (ranked free) (rw (length-perm (ranked-perm free)) h);
  whole = rw (take-drop n (ranked free)) (ranked-perm free);
  cheapest = λ v w m k. leb→le v.queue_ref_count w.queue_ref_count (
      ((Pairwise-append {R = λ a b. le_key ref_count a b ≡ true} (hlevel)
            {l₁ = take n (ranked free)} {l₂ = drop n (ranked free)}).0
          (rw (take-drop n (ranked free)) (ranked-IsSorted free))).2
        v m w k);
}

with_rest :
    (n : ℕ) (free : List Block) {out left rest : List Block}
    → IsCheapest n free out left
    → Perm left rest
    → IsCheapest n free out rest
with_rest n free {out} c p = record {
  enough = c.enough;
  whole = Perm.trans (Perm.append_left out (Perm.symm p)) c.whole;
  cheapest = λ v w m k. c.cheapest v w m ((Perm.mem_iff p).1 k);
}

all_unprotected : (free : List Block) → protected free ≡ [] → ranked free ≡ free
unfolding sort_by
all_unprotected free h = rw h (append-nil (unprotected free) ∙ keep free h)
  where
    keep : (bs : List Block) → protected bs ≡ [] → unprotected bs ≡ bs
    keep [] h' = refl
    keep (b ∷ bs) h' = elim (Bool-cases (is_unprotected b)) [
      | inl q ↦ rw q (ap (◌∷◌ b) (keep bs (rw q at h')))
      | inr q ↦ absurd (let k = rw q at h' in cc)
    ]

-- What vLLM's own methods are relied on for.
pub record IsQueue (popleft_n : ℕ → List Block → List Block × List Block)
    (remove : Block → List Block → List Block) : Type 0 where
  pub popleft :
      (n : ℕ) (free : List Block) → n ≤ length free → popleft_n n free ≡ (take n free, drop n free)
  pub removes : (b : Block) (free : List Block) → Mem b free → Perm free (b ∷ remove b free)

module _ (popleft_n : ℕ → List Block → List Block × List Block)
    (remove : Block → List Block → List Block) (q : IsQueue popleft_n remove) where
  -- `popleft_queue_aware` fails only if fewer than `n` blocks are free; else it evicts `n` blocks,
  -- loses none of the others, and no evicted block is referenced by more waiting requests than one
  -- that stays free.
  pub popleft_queue_aware-IsCheapest :
      (n : ℕ) (free : List Block)
      → n ≤ length free
      → (r : List Block × List Block) × (popleft_queue_aware popleft_n remove n free ≡ some r)
        × IsCheapest n free r.0 r.1
  unfolding popleft_queue_aware
  popleft_queue_aware-IsCheapest n free h = elim (Bool-cases (is_nil (protected free))) [
    | inl none_protected ↦
        rw (enough_free h, none_protected)
          (
            (take n free, drop n free),
            ap some (q.popleft n free h),
            subst (λ bs. IsCheapest n free (take n bs) (drop n bs))
                (all_unprotected free (is_nil-eq none_protected)) (take-IsCheapest n free h),
          )
    | inr some_protected ↦
        rw (enough_free h, some_protected)
          (
            (victims n free, remove_all remove (victims n free) free),
            refl,
            rw (victims-take n free) (
                with_rest n free (take-IsCheapest n free h) (
                  remove_all-perm remove (q.removes) (take n (ranked free)) (drop n (ranked free))
                    free (Perm.symm (take-IsCheapest n free h).whole))),
          )
  ]
    where
      enough_free : n ≤ length free → ltb (length free) n ≡ false
      enough_free h' = ground arith

      is_nil-eq : {xs : List Block} → is_nil xs ≡ true → xs ≡ []
      is_nil-eq {xs = []} e = refl
      is_nil-eq {xs = x ∷ xs} e = cc
