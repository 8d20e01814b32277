-- ===== src/Scheduler/Paths.antt =====
-- What `sglang_cached_prefix_length` counts: the longest path of cached edges.
use mathlib.Core.List.{append_assoc}
use mathlib.Core.Option.{some_inj}
use peek.Prelude.{
  ℕ, zero, suc, ◌+◌, ◌≤◌, ◌≡◌, ◌≢◌, ◌⊎◌, ◌∙◌, refl, sym, ap, subst, inl, inr, List, [], ◌∷◌, ◌++◌,
  Option, none, some, Bool, true, false, ◌&&◌, arith, length, take, length-append, take-drop, drop,
  ltb, ◌==◌, tuple_beq, tuple_beq_iff, ==_iff, Bool-cases,
}
use peek.Scheduler.Cached.{Radix, no_edge, edge, edge_differs, sglang_cached_prefix_length}

abbrev pub NoToken : ℕ → Radix → Type 0
NoToken t no_edge = Unit
NoToken t (edge u key evicted children rest) = (u ≢ t) × NoToken t rest

-- Each child is filed under the first token of its key, and no token occurs twice.
abbrev pub IsFiled : Radix → Type 0
IsFiled no_edge = Unit
IsFiled (edge t key evicted children rest) =
    ((ks : List ℕ) × (key ≡ some (t ∷ ks))) × NoToken t rest × IsFiled children × IsFiled rest

-- `p` is spelled by a path of edges that are not evicted.
abbrev pub IsCachedPath : Radix → List ℕ → Type 0
IsCachedPath no_edge p = p ≡ []
IsCachedPath (edge t key evicted children rest) p =
    ((ks s : List ℕ) × (key ≡ some ks)
      × (evicted ≡ false)
      × (p ≡ ks ++ s)
      × IsCachedPath children s)
    ⊎ IsCachedPath rest p

take-length-append :
    (xs ys : List ℕ) (n k : ℕ) → k ≡ length xs + n → take k (xs ++ ys) ≡ xs ++ take n ys
take-length-append [] ys n k e = ap (λ j. take j ys) {x = k} (omega arith)
take-length-append (x ∷ xs) ys n zero e = absurd (omega arith)
take-length-append (x ∷ xs) ys n (suc k) e = ap (◌∷◌ x) (take-length-append xs ys n k (omega arith))

-- A key that is not found to differ, and starts with the right token, is what the tokens start with.
key_matches :
    (key ts : List ℕ) (t u : ℕ) (us ks : List ℕ)
    → key ≡ t ∷ ks
    → ts ≡ u ∷ us
    → t ≡ u
    → edge_differs (some key) ts ≡ false
    → key ++ drop (length key) ts ≡ ts
key_matches [] ts t u us ks e d q h = cc
key_matches (x ∷ []) [] t u us ks e d q h = cc
key_matches (x ∷ []) (y ∷ ys) t u us ks e d q h = cc
key_matches (x ∷ y ∷ key) ts t u us ks e d q h =
    let same = (tuple_beq_iff (x ∷ y ∷ key) (take (length (x ∷ y ∷ key)) ts)).0 (many h) in
    ap (λ k. k ++ drop (length (x ∷ y ∷ key)) ts) same ∙ take-drop (length (x ∷ y ∷ key)) ts
  where
    many :
        edge_differs (some (x ∷ y ∷ key)) ts ≡ false
        → tuple_beq (x ∷ y ∷ key) (take (length (x ∷ y ∷ key)) ts) ≡ true
    many h' = ground arith

empty_path : (r : Radix) → IsCachedPath r []
empty_path no_edge = refl
empty_path (edge t key evicted children rest) = inr (empty_path rest)

-- The tokens that `sglang_cached_prefix_length` counts spell a path of cached edges.
cached_prefix_sound :
    (r : Radix) (ts : List ℕ)
    → IsFiled r
    → IsCachedPath r (take (sglang_cached_prefix_length r ts) ts)
unfolding sglang_cached_prefix_length
cached_prefix_sound no_edge ts f = refl
cached_prefix_sound (edge t key evicted children rest) [] f =
    empty_path (edge t key evicted children rest)
cached_prefix_sound (edge t none evicted children rest) (u ∷ us) f = absurd (let e = f.0.1 in cc)
cached_prefix_sound (edge t (some key) evicted children rest) (u ∷ us) f =
    elim (Bool-cases (t == u)) [
      | inr other ↦ rw other (inr (cached_prefix_sound rest (u ∷ us) f.3))
      | inl same ↦ elim (Bool-cases (ltb (length (u ∷ us)) (length key))) [
        | inl long ↦ rw (same, long) (empty_path (edge t (some key) evicted children rest))
        | inr fits ↦ elim (Bool-cases (edge_differs (some key) (u ∷ us))) [
          | inl differs ↦
              rw (same, fits, differs) (empty_path (edge t (some key) evicted children rest))
          | inr matches ↦ elim (Bool-cases evicted) [
            | inl gone ↦
                rw (same, fits, matches, gone) (empty_path (edge t (some key) true children rest))
            | inr cached ↦
                rw (same, fits, matches, cached)
                  (inl (
                    key,
                    take (sglang_cached_prefix_length children (drop (length key) (u ∷ us)))
                        (drop (length key) (u ∷ us)),
                    refl,
                    refl,
                    subst
                        (λ xs.
                          take
                            (length key
                              + sglang_cached_prefix_length children (drop (length key) (u ∷ us)))
                            xs
                          ≡ key
                            ++ take
                                (sglang_cached_prefix_length children (drop (length key) (u ∷ us)))
                                (drop (length key) (u ∷ us)))
                        (key_matches key (u ∷ us) t u us f.0.0 (some_inj.0 f.0.1) refl
                          ((==_iff t u).0 same) matches)
                        (take-length-append key (drop (length key) (u ∷ us)) _ _ refl),
                    cached_prefix_sound children (drop (length key) (u ∷ us)) f.2,
                  ))
          ]
        ]
      ]
    ]

drop-length-append : (xs ys : List ℕ) → drop (length xs) (xs ++ ys) ≡ ys
drop-length-append [] ys = refl
drop-length-append (x ∷ xs) ys = drop-length-append xs ys

take_key : (xs ys : List ℕ) → take (length xs) (xs ++ ys) ≡ xs
take_key [] ys = refl
take_key (x ∷ xs) ys = ap (◌∷◌ x) (take_key xs ys)

key_fits : (xs ys : List ℕ) → ltb (length (xs ++ ys)) (length xs) ≡ false
key_fits xs ys = let e = length-append xs ys in ground arith

same_tail : (xs ys : List ℕ) → tuple_beq xs (take (length xs) (xs ++ ys)) ≡ true
same_tail xs ys = rw (take_key xs ys) ((tuple_beq_iff xs xs).1 refl)

and-false : (b : Bool) → (b && false) ≡ false
and-false true = refl
and-false false = refl

-- The first edge of a path of cached edges is taken.
walk_step :
    (t : ℕ) (ks ts : List ℕ) (children rest : Radix)
    → sglang_cached_prefix_length (edge t (some (t ∷ ks)) false children rest) ((t ∷ ks) ++ ts)
      ≡ length (t ∷ ks) + sglang_cached_prefix_length children ts
unfolding sglang_cached_prefix_length
walk_step t ks ts children rest =
    rw ((==_iff t t).1 refl, key_fits (t ∷ ks) ts, same_tail ks ts)
      (rw (and-false (ltb 1 (length (t ∷ ks))), drop-length-append ks ts) refl)

walk_skip :
    (t v : ℕ) (key : Option (List ℕ)) (evicted : Bool) (children rest : Radix) (ts : List ℕ)
    → (t == v) ≡ false
    → sglang_cached_prefix_length (edge t key evicted children rest) (v ∷ ts)
      ≡ sglang_cached_prefix_length rest (v ∷ ts)
unfolding sglang_cached_prefix_length
walk_skip t v key evicted children rest ts h = rw h refl

-- A path of another token does not start with this one.
first_differs :
    (t v : ℕ) (p : List ℕ) (r : Radix) → IsFiled r → NoToken t r → IsCachedPath r (v ∷ p) → t ≢ v
first_differs t v p no_edge f n c q = cc
first_differs t v p (edge u key evicted children rest) f n (inl (ks, s, e, _, split, _)) q =
    n.0 (heads u v ks (f.0.0) s p (some_inj.0 (sym e ∙ f.0.1)) split ∙ sym q)
  where
    heads : (a b : ℕ) (xs ys zs ws : List ℕ) → xs ≡ a ∷ ys → b ∷ ws ≡ xs ++ zs → a ≡ b
    heads a b [] ys zs ws h k = cc
    heads a b (x ∷ xs) ys zs ws h k = cc
first_differs t v p (edge u key evicted children rest) f n (inr c) q =
    first_differs t v p rest f.3 n.1 c q

-- No path of cached edges that the tokens start with is longer than what
-- `sglang_cached_prefix_length` counts.
cached_prefix_complete :
    (r : Radix) (p s : List ℕ)
    → IsFiled r
    → IsCachedPath r p
    → length p ≤ sglang_cached_prefix_length r (p ++ s)
cached_prefix_complete no_edge p s f c = rw c (omega arith)
cached_prefix_complete (edge t key evicted children rest) p s f
      (inl (ks, p', e, cached, split, c)) =
    let head = f.0.1 in
    let same = some_inj.0 (sym e ∙ head) in
    rw (cached, head, split, same)
      (rw (append_assoc (t ∷ f.0.0) p' s, walk_step t f.0.0 (p' ++ s) children rest)
        (let below = cached_prefix_complete children p' s f.2 c in
          omega (arith, length-append (t ∷ f.0.0) p', below)))
cached_prefix_complete (edge t key evicted children rest) [] s f (inr c) = omega arith
cached_prefix_complete (edge t key evicted children rest) (v ∷ p) s f (inr c) =
    let other = first_differs t v p rest f.3 f.1 c in
    rw (walk_skip t v key evicted children rest (p ++ s) (differ t v other))
      (cached_prefix_complete rest (v ∷ p) s f.3 c)
  where
    differ : (a b : ℕ) → a ≢ b → (a == b) ≡ false
    differ a b n = ground arith

-- The first `n` tokens spell a path of cached edges, and no such path that the tokens start with
-- is longer.
pub record IsLongestPath (r : Radix) (ts : List ℕ) (n : ℕ) : Type 0 where
  pub cached : IsCachedPath r (take n ts)
  pub longest : (p s : List ℕ) → p ++ s ≡ ts → IsCachedPath r p → length p ≤ n

-- In a tree whose edges are filed under the first tokens of their keys,
-- `sglang_cached_prefix_length` counts the tokens of the longest path of cached edges that the
-- given tokens start with.
sglang_cached_prefix_length-IsLongestPath :
    (r : Radix) (ts : List ℕ) → IsFiled r → IsLongestPath r ts (sglang_cached_prefix_length r ts)
sglang_cached_prefix_length-IsLongestPath r ts f = record {
  cached = cached_prefix_sound r ts f;
  longest = λ p s e c.
      subst (λ t. length p ≤ sglang_cached_prefix_length r t) e (cached_prefix_complete r p s f c);
}
