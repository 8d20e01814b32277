-- ===== src/VllmHooks/Chosen.antt =====
-- The blocks that `_peek_get_new_blocks` takes are those that pending requests want least.

use mathlib.Core.List.{
  Perm, Mem, mem-cons_self, mem-cons_of_mem, Pairwise, Pairwise-append, append-nil,
  perm_append_comm, Pairwise-map,
}
use mathlib.Core.List.Perm
use peek.Prelude.{
  ℕ, zero, suc, ◌-◌, ◌≤◌, ◌≡◌, ◌∙◌, refl, sym, ap, inl, inr, List, [], ◌∷◌, ◌++◌, map, none, some,
  Bool, true, false, not, arith, length, take, drop, take-drop, length-take, length-append,
  length-perm, select-append-perm, if◌then◌else◌, ltb, Bool-cases,
}
use peek.Prelude.Int.{ℤ}
use peek.Prelude.Sort.{sort_by, IsSorted, sort_by-perm, sort_by-IsSorted}
use peek.Prelude.Partition.{All-Mem}
use peek.Lpm.Lex.{lex_leb, le_lex, le_lex-IsOrder}
use peek.Scheduler.Victims.{take-append, length-take_lem, Mem-select}
use peek.VllmHooks.Demand.{Mode, Index}
use peek.VllmHooks.Victims.{
  Block, Deferred, Scan, start_scan, is_wanted, deferred_key, block_of, scan, top_up, choose,
}
use peek.VllmHooks.Scanning.{weight, wanted, unwanted, IsDeferred, Scanned, scan-Scanned}

module _ (mode : Mode) (aged : ℕ → ℕ → ℤ) (ix : Index) where
  -- The blocks of a scan in the order in which they are evicted.
  abbrev tail_of : Scan → List Block
  tail_of s = map block_of (sort_by (le_lex deferred_key) s.low_demand)

  abbrev ranked : Scan → List Block
  ranked s = s.picked ++ tail_of s

  map-take : {A B : Type 0} (f : A → B) (k : ℕ) (l : List A) → map f (take k l) ≡ take k (map f l)
  map-take f zero l = refl
  map-take f (suc k) [] = refl
  map-take f (suc k) (x ∷ l) = ap (λ r. f x ∷ r) (map-take f k l)

  take_all : (k : ℕ) (l : List Block) → length l ≤ k → take k l ≡ l
  take_all zero [] h = refl
  take_all zero (x ∷ l) h = absurd (omega arith)
  take_all (suc k) [] h = refl
  take_all (suc k) (x ∷ l) h = ap (λ r. x ∷ r) (take_all k l (omega arith))

  top_up-take :
      (n : ℕ) (s : Scan) → length s.picked ≤ n → top_up mode aged ix n s ≡ take n (ranked s)
  unfolding top_up
  top_up-take n s h = elim (Bool-cases (ltb (length s.picked) n)) [
    | inl few ↦ rw few (
        ap (λ l. s.picked ++ l)
          (map-take block_of (n - length s.picked) (sort_by (le_lex deferred_key) s.low_demand))
        ∙ sym (
            take-append n (n - length s.picked) s.picked (tail_of s) refl
            ∙ ap (λ l. l ++ take (n - length s.picked) (tail_of s)) (take_all n s.picked h)))
    | inr full ↦ rw full (
        sym (
          take-append n 0 s.picked (tail_of s) (filled (length s.picked) full)
          ∙ append-nil (take n s.picked)
          ∙ take_all n s.picked h))
  ]
    where
      filled : (k : ℕ) → ltb k n ≡ false → 0 ≡ n - k
      filled k e = ground (arith, e)

  deferred-le :
      (a b : Deferred)
      → IsDeferred mode aged ix a
      → IsDeferred mode aged ix b
      → le_lex deferred_key a b ≡ true
      → le_lex (weight mode aged ix) (block_of a) (block_of b) ≡ true
  unfolding lex_leb
  deferred-le (p, i, a) (q, j, b) (wa, ea) (wb, eb) h = rw (wa, wb, ← ea, ← eb) (ground (arith, h))

  deferred-IsSorted :
      {l : List Deferred}
      → IsSorted (le_lex deferred_key) l
      → ((d : Deferred) → Mem d l → IsDeferred mode aged ix d)
      → Pairwise (λ a b. le_lex (weight mode aged ix) (block_of a) (block_of b) ≡ true) l
  deferred-IsSorted Pairwise.nil all_deferred = Pairwise.nil
  deferred-IsSorted (Pairwise.cons {a = x} {l = l} below s) all_deferred =
      Pairwise.cons
        (λ b m.
          deferred-le x b (all_deferred x mem-cons_self) (all_deferred b (mem-cons_of_mem x m))
            (below b m))
        (deferred-IsSorted s (λ d m. all_deferred d (mem-cons_of_mem x m)))

  unwanted_first : (b w : Block) → is_wanted ix b ≡ false → le_lex (weight mode aged ix) b w ≡ true
  unfolding lex_leb
  unwanted_first b w h = elim (Bool-cases (is_wanted ix w)) [
    | inl e ↦ rw (h, e) refl
    | inr e ↦ rw (h, e) refl
  ]

  deferred_prop : (d : Deferred) → IsProp (IsDeferred mode aged ix d)
  deferred_prop (p, i, b) = hlevel

  not-true : {b : Bool} → not b ≡ true → b ≡ false
  not-true {b = true} h = cc
  not-true {b = false} h = refl

  unwanted-IsSorted :
      (bs : List Block) → IsSorted (le_lex (weight mode aged ix)) (unwanted mode aged ix bs)
  unwanted-IsSorted [] = Pairwise.nil
  unwanted-IsSorted (b ∷ bs) = elim (Bool-cases (is_wanted ix b)) [
    | inl q ↦ rw q (unwanted-IsSorted bs)
    | inr q ↦ rw q (Pairwise.cons (λ w m. unwanted_first b w q) (unwanted-IsSorted bs))
  ]

  -- What the choice of `n` blocks must satisfy: they are among the first free blocks, at most `cap`
  -- of them, and none is wanted more than one of these that is left.
  pub record IsChosen (n cap : ℕ) (free out : List Block) : Type 0 where
    pub window : ℕ
    pub rest : List Block
    pub enough : length out ≡ n
    pub within : length (take window free) ≤ cap
    pub whole : Perm (out ++ rest) (take window free)
    pub cheapest : (v w : Block) → Mem v out → Mem w rest → le_lex (weight mode aged ix) v w ≡ true

  module _ (n cap : ℕ) (free : List Block) where
    abbrev found : Scan
    found = scan mode aged ix n cap free start_scan

    found-Scanned : Scanned mode aged ix n cap free start_scan found
    found-Scanned = scan-Scanned mode aged ix n cap free start_scan

    ranked-perm : Perm (ranked found) (take found-Scanned.window free)
    ranked-perm =
        let sc = found-Scanned in
        Perm.trans
          (Perm.append_left found.picked
            (Perm.map block_of (sort_by-perm (le_lex deferred_key) found.low_demand)))
          (rw (sc.picks, sc.defers)
            (Perm.trans
              (perm_append_comm (unwanted mode aged ix (take sc.window free))
                (wanted mode aged ix (take sc.window free)))
              (select-append-perm (is_wanted ix) (take sc.window free))))

    ranked-IsSorted : IsSorted (le_lex (weight mode aged ix)) (ranked found)
    ranked-IsSorted =
        (Pairwise-append {R = λ a b. le_lex (weight mode aged ix) a b ≡ true} (hlevel)
            {l₁ = found.picked} {l₂ = tail_of found}).1
          (
            rw found-Scanned.picks (unwanted-IsSorted (take found-Scanned.window free)),
            (Pairwise-map (hlevel) block_of).1 (
                deferred-IsSorted
                  (sort_by-IsSorted (le_lex deferred_key) (le_lex-IsOrder deferred_key)
                    found.low_demand)
                  (λ d m.
                    All-Mem (IsDeferred mode aged ix) (λ e. deferred_prop e) found.low_demand
                      (found-Scanned.deferred tt) d
                      ((Perm.mem_iff (sort_by-perm (le_lex deferred_key) found.low_demand)).0 m))),
            λ v m w k. unwanted_first v w (
                not-true (
                  Mem-select (λ b. not (is_wanted ix b)) (take found-Scanned.window free) v
                    (rw found-Scanned.picks at m))),
          )

    long_enough : n ≤ length (take cap free) → n ≤ length (ranked found)
    long_enough h =
        let sc = found-Scanned in
        let size = length-perm ranked-perm in
        let split = length-append found.picked (tail_of found) in
        rw size (elim sc.ended [
          | inl all_seen ↦
              let e = length-take sc.window free in let e' = length-take cap free in omega arith
          | inr (inl full) ↦ rw (← size) (omega (arith, split))
          | inr (inr capped) ↦ let e = length-take cap free in let seen = sc.seen in omega arith
        ])

    choose-take :
        choose mode aged ix n cap free
        ≡ (if ltb (length (take n (ranked found))) n then none else some (take n (ranked found)))
    unfolding choose
    choose-take = rw (top_up-take n found (found-Scanned.no_more (omega arith))) refl

    take-IsChosen : n ≤ length (ranked found) → IsChosen n cap free (take n (ranked found))
    take-IsChosen h = record {
      window = found-Scanned.window;
      rest = drop n (ranked found);
      enough = length-take_lem n (ranked found) h;
      within =
          let seen = found-Scanned.seen in
          let within = found-Scanned.within (omega arith) in omega arith;
      whole = rw (take-drop n (ranked found)) ranked-perm;
      cheapest = λ v w m k.
          ((Pairwise-append {R = λ a b. le_lex (weight mode aged ix) a b ≡ true} (hlevel)
                {l₁ = take n (ranked found)} {l₂ = drop n (ranked found)}).0
              (rw (take-drop n (ranked found)) ranked-IsSorted)).2
            v m w k;
    }

    -- Where `n` blocks are free within the cap of the scan, `n` are chosen; among those scanned
    -- none that is left is wanted less: blocks that no pending request passes through go first,
    -- then those of the lowest priority.
    pub choose-IsChosen :
        n ≤ length (take cap free)
        → (out : List Block) × (choose mode aged ix n cap free ≡ some out) × IsChosen n cap free out
    choose-IsChosen h =
        let long = long_enough h in
        (
          take n (ranked found),
          choose-take ∙ rw (enough (length-take_lem n (ranked found) long)) refl,
          take-IsChosen long,
        )
      where
        enough : {k : ℕ} → k ≡ n → ltb k n ≡ false
        enough e = ground (arith, e)
