-- ===== src/VllmHooks/Scanning.antt =====
-- What the scan of `_peek_get_new_blocks` finds among the first free blocks.

use mathlib.Core.List.{append-nil, append_assoc, map-append}
use peek.Prelude.{
  ℕ, suc, ◌+◌, ◌≤◌, ◌<◌, ◌≡◌, ◌∙◌, refl, sym, ap, subst, inl, inr, ◌⊎◌, List, [], ◌∷◌, ◌++◌, map,
  true, false, not, ◌&&◌, arith, length, take, length-append, select, if◌then◌else◌, ltb,
  Bool-cases, All, All-append,
}
use peek.Prelude.Int.{ℤ, pos}
use peek.VllmHooks.Demand.{Mode, Index}
use peek.VllmHooks.Victims.{Block, Deferred, Scan, is_wanted, block_of, priority, look, scan}

module _ (mode : Mode) (aged : ℕ → ℕ → ℤ) (ix : Index) where
  -- How much a block is wanted: not at all, or by its priority.
  abbrev pub weight : Block → List ℤ
  weight b = if is_wanted ix b then pos 1 ∷ priority mode aged ix b ∷ [] else pos 0 ∷ []

  abbrev pub wanted : List Block → List Block
  wanted bs = select (is_wanted ix) bs

  abbrev pub unwanted : List Block → List Block
  unwanted bs = select (λ b. not (is_wanted ix b)) bs

  -- A deferred block is wanted, and stands with its priority.
  abbrev pub IsDeferred : Deferred → Type 0
  IsDeferred (p, i, b) = (is_wanted ix b ≡ true) × (p ≡ priority mode aged ix b)

  -- What a scan of some first blocks has found.
  pub record Scanned (n cap : ℕ) (bs : List Block) (s s' : Scan) : Type 0 where
    pub window : ℕ
    pub picks : s'.picked ≡ s.picked ++ unwanted (take window bs)
    pub defers : map block_of s'.low_demand ≡ map block_of s.low_demand ++ wanted (take window bs)
    pub deferred : All IsDeferred s.low_demand → All IsDeferred s'.low_demand
    pub seen : s'.scanned ≡ s.scanned + length (take window bs)
    pub within : s.scanned ≤ cap → s'.scanned ≤ cap
    pub no_more : length s.picked ≤ n → length s'.picked ≤ n
    pub ended : (length bs ≤ window) ⊎ ((n ≤ length s'.picked) ⊎ (cap ≤ s'.scanned))

  -- What the scan does with one block.
  abbrev deferring : Block → Scan → Scan
  deferring b s = record s {
    low_demand = s.low_demand ++ (priority mode aged ix b, s.scanned, b) ∷ [];
    scanned = s.scanned + 1;
  }

  abbrev picking : Block → Scan → Scan
  picking b s = record s { picked = s.picked ++ b ∷ []; scanned = s.scanned + 1 }

  look_wanted :
      (b : Block) (s : Scan) → is_wanted ix b ≡ true → look mode aged ix b s ≡ deferring b s
  look_wanted b s w = rw w refl

  look_unwanted :
      (b : Block) (s : Scan) → is_wanted ix b ≡ false → look mode aged ix b s ≡ picking b s
  look_unwanted b s u = rw u refl

  module _ (n cap : ℕ) (b : Block) (bs : List Block) (s s' : Scan)
      (on : (ltb (length s.picked) n && ltb s.scanned cap) ≡ true) where
    below : (length s.picked < n) × (s.scanned < cap)
    below = under (length s.picked) s.scanned on
      where
        under : (p k : ℕ) → (ltb p n && ltb k cap) ≡ true → (p < n) × (k < cap)
        under p k h = ground (arith, h)

    after_wanted :
        is_wanted ix b ≡ true → Scanned n cap bs (deferring b s) s' → Scanned n cap (b ∷ bs) s s'
    after_wanted w ih = record {
      window = suc ih.window;
      picks = rw w ih.picks;
      defers = rw w (
          ih.defers
          ∙ ap (λ l. l ++ wanted (take ih.window bs))
              (map-append block_of s.low_demand ((priority mode aged ix b, s.scanned, b) ∷ []))
          ∙ append_assoc (map block_of s.low_demand) (b ∷ []) (wanted (take ih.window bs)));
      deferred = λ d. ih.deferred (All-append IsDeferred s.low_demand _ d ((w, refl), tt));
      seen = omega (arith, ih.seen);
      within = λ h. ih.within (let l = below.1 in omega arith);
      no_more = λ h. ih.no_more h;
      ended = further ih.ended;
    }
      where
        further :
            (length bs ≤ ih.window) ⊎ ((n ≤ length s'.picked) ⊎ (cap ≤ s'.scanned))
            → (suc (length bs) ≤ suc ih.window) ⊎ ((n ≤ length s'.picked) ⊎ (cap ≤ s'.scanned))
        further (inl h) = inl (omega arith)
        further (inr h) = inr h

    after_unwanted :
        is_wanted ix b ≡ false → Scanned n cap bs (picking b s) s' → Scanned n cap (b ∷ bs) s s'
    after_unwanted u ih = record {
      window = suc ih.window;
      picks = rw u (ih.picks ∙ append_assoc s.picked (b ∷ []) (unwanted (take ih.window bs)));
      defers = rw u ih.defers;
      deferred = λ d. ih.deferred d;
      seen = omega (arith, ih.seen);
      within = λ h. ih.within (let l = below.1 in omega arith);
      no_more = λ h.
          ih.no_more (let e = length-append s.picked (b ∷ []) in let l = below.0 in omega arith);
      ended = further ih.ended;
    }
      where
        further :
            (length bs ≤ ih.window) ⊎ ((n ≤ length s'.picked) ⊎ (cap ≤ s'.scanned))
            → (suc (length bs) ≤ suc ih.window) ⊎ ((n ≤ length s'.picked) ⊎ (cap ≤ s'.scanned))
        further (inl h) = inl (omega arith)
        further (inr h) = inr h

  pub scan-Scanned :
      (n cap : ℕ) (bs : List Block) (s : Scan) → Scanned n cap bs s (scan mode aged ix n cap bs s)
  unfolding scan
  scan-Scanned n cap [] s = record {
    window = 0;
    picks = sym (append-nil s.picked);
    defers = sym (append-nil (map block_of s.low_demand));
    deferred = λ d. d;
    seen = omega arith;
    within = λ h. h;
    no_more = λ h. h;
    ended = inl (omega arith);
  }
  scan-Scanned n cap (b ∷ bs) s = elim (Bool-cases (ltb (length s.picked) n && ltb s.scanned cap)) [
    | inr stop ↦ rw stop (record {
      window = 0;
      picks = sym (append-nil s.picked);
      defers = sym (append-nil (map block_of s.low_demand));
      deferred = λ d. d;
      seen = omega arith;
      within = λ h. h;
      no_more = λ h. h;
      ended = inr (stopped (length s.picked) s.scanned stop);
    })
    | inl on ↦
        let ih = scan-Scanned n cap bs (look mode aged ix b s) in
        rw on (elim (Bool-cases (is_wanted ix b)) [
          | inl w ↦ after_wanted n cap b bs s _ on w (
              subst (λ t. Scanned n cap bs t (scan mode aged ix n cap bs (look mode aged ix b s)))
                (look_wanted b s w) ih)
          | inr u ↦ after_unwanted n cap b bs s _ on u (
              subst (λ t. Scanned n cap bs t (scan mode aged ix n cap bs (look mode aged ix b s)))
                (look_unwanted b s u) ih)
        ])
  ]
    where
      stopped : (p k : ℕ) → (ltb p n && ltb k cap) ≡ false → (n ≤ p) ⊎ (cap ≤ k)
      stopped p k h = ground (arith, h)
