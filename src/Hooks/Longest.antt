-- ===== src/Hooks/Longest.antt =====
-- online/engines/sglang/patch_hook.py: `_cache_match` against the paths of the radix cache.
use mathlib.Core.List.{append_assoc}
use peek.Prelude.{
  ℕ, zero, suc, ◌+◌, ◌≤◌, ◌≡◌, ◌≢◌, ◌⊎◌, refl, sym, ap, subst, inl, inr, List, [], ◌∷◌, ◌++◌, true,
  false, arith, length, take, drop, take-drop, length-append, ltb, ◌==◌, ==_iff, Bool-cases,
}
use peek.Hooks.CacheMatch.{Edges, no_edge, edge, common, cache_match}

abbrev pub NoFirst : ℕ → Edges → Type 0
NoFirst t no_edge = Unit
NoFirst t (edge u key children rest) = (u ≢ t) × NoFirst t rest

-- Each child is filed under the first token of its key, and no token occurs twice.
abbrev pub IsFiledBy : Edges → Type 0
IsFiledBy no_edge = Unit
IsFiledBy (edge t key children rest) =
    ((ks : List ℕ) × (key ≡ t ∷ ks)) × NoFirst t rest × IsFiledBy children × IsFiledBy rest

-- A path down from the root, which may end within an edge, spells these tokens.
abbrev pub IsSpelled : Edges → List ℕ → Type 0
IsSpelled no_edge p = p ≡ []
IsSpelled (edge t key children rest) p =
    ((s : List ℕ) × (key ≡ p ++ s))
    ⊎ ((s : List ℕ) × (p ≡ key ++ s) × IsSpelled children s)
    ⊎ IsSpelled rest p

common_same :
    (a b : ℕ) (key ts : List ℕ) → (a == b) ≡ true → common (a ∷ key) (b ∷ ts) ≡ suc (common key ts)
unfolding common
common_same a b key ts h = rw h refl

common_other : (a b : ℕ) (key ts : List ℕ) → (a == b) ≡ false → common (a ∷ key) (b ∷ ts) ≡ 0
unfolding common
common_other a b key ts h = rw h refl

take-common : (key ts : List ℕ) → take (common key ts) ts ≡ take (common key ts) key
unfolding common
take-common [] ts = refl
take-common (a ∷ key) [] = refl
take-common (a ∷ key) (b ∷ ts) = elim (Bool-cases (a == b)) [
  | inr other ↦ rw other refl
  | inl same ↦ rw (same, take-common key ts, (==_iff a b).0 same) refl
]

common_full :
    (key ts : List ℕ)
    → ltb (common key ts) (length key) ≡ false
    → key ++ drop (common key ts) ts ≡ ts
unfolding common
common_full [] ts h = refl
common_full (a ∷ key) [] h = absurd (ground (arith, h))
common_full (a ∷ key) (b ∷ ts) h = elim (Bool-cases (a == b)) [
  | inr other ↦ let e = common_other a b key ts other in absurd (ground (arith, h, e))
  | inl same ↦
      let e = common_same a b key ts same in
      rw (e, common_full key ts (ground (arith, h, e)), (==_iff a b).0 same) refl
]

common-append : (p s u : List ℕ) → length p ≤ common (p ++ s) (p ++ u)
common-append [] s u = omega arith
common-append (x ∷ p) s u =
    rw (common_same x x (p ++ s) (p ++ u) ((==_iff x x).1 refl))
      (let h = common-append p s u in omega arith)

common_key : (key u : List ℕ) → common key (key ++ u) ≡ length key
unfolding common
common_key [] u = refl
common_key (x ∷ key) u = rw ((==_iff x x).1 refl, common_key key u) refl

take_add : (m n k : ℕ) (xs : List ℕ) → k ≡ m + n → take k xs ≡ take m xs ++ take n (drop m xs)
take_add zero n k xs e = ap (λ j. take j xs) {x = k} (omega arith)
take_add (suc m) n zero xs e = absurd (omega arith)
take_add (suc m) zero (suc k) [] e = refl
take_add (suc m) (suc n) (suc k) [] e = refl
take_add (suc m) n (suc k) (x ∷ xs) e = ap (◌∷◌ x) (take_add m n k xs (omega arith))

take_whole : (m : ℕ) (key : List ℕ) → ltb m (length key) ≡ false → take m key ≡ key
take_whole zero [] h = refl
take_whole (suc m) [] h = refl
take_whole zero (x ∷ key) h = absurd (ground (arith, h))
take_whole (suc m) (x ∷ key) h = ap (◌∷◌ x) (take_whole m key (ground (arith, h)))

through_key :
    (key ts : List ℕ) (n : ℕ)
    → ltb (common key ts) (length key) ≡ false
    → take (common key ts + n) ts ≡ key ++ take n (drop (common key ts) ts)
through_key key ts n h =
    rw
      (
        take_add (common key ts) n (common key ts + n) ts refl,
        take-common key ts,
        take_whole (common key ts) key h,
      )
      refl

-- What is counted is spelled by a path.
match_sound : (e : Edges) (ts : List ℕ) → IsSpelled e (take (cache_match e ts) ts)
unfolding cache_match
match_sound no_edge ts = refl
match_sound (edge t key children rest) [] = inl (key, refl)
match_sound (edge t key children rest) (u ∷ us) = elim (Bool-cases (t == u)) [
  | inr other ↦ rw other (inr (inr (match_sound rest (u ∷ us))))
  | inl same ↦ elim (Bool-cases (ltb (common key (u ∷ us)) (length key))) [
    | inl part ↦
        rw (same, part)
          (inl (
            drop (common key (u ∷ us)) key,
            rw (take-common key (u ∷ us)) (sym (take-drop (common key (u ∷ us)) key)),
          ))
    | inr whole ↦
        rw (same, whole)
          (inr (
            inl (
              take (cache_match children (drop (common key (u ∷ us)) (u ∷ us)))
                  (drop (common key (u ∷ us)) (u ∷ us)),
              through_key key (u ∷ us) (cache_match children (drop (common key (u ∷ us)) (u ∷ us)))
                  whole,
              match_sound children (drop (common key (u ∷ us)) (u ∷ us)),
            )))
  ]
]

same_head : (key ks zs : List ℕ) (t v : ℕ) → key ≡ t ∷ ks → key ≡ v ∷ zs → t ≡ v
same_head key ks zs t v e h = cc

-- A path that starts with a token goes through an edge that is filed under it.
first_token :
    (e : Edges) (t v : ℕ) (p : List ℕ)
    → IsFiledBy e
    → NoFirst t e
    → IsSpelled e (v ∷ p)
    → (t == v) ≡ false
first_token no_edge t v p f n sp = cc
first_token (edge u key children rest) t v p f n (inl (s, e)) =
    let h = same_head key f.0.0 (p ++ s) u v f.0.1 e in ground (arith, n.0, h)
first_token (edge u key children rest) t v p f n (inr (inl (s, e, sp))) =
    let h = same_head (key ++ s) (f.0.0 ++ s) p u v (ap (λ k. k ++ s) f.0.1) (sym e) in
    ground (arith, n.0, h)
first_token (edge u key children rest) t v p f n (inr (inr sp)) = first_token rest t v p f.3 n.1 sp

-- Along a whole edge.
drop_append : (xs ys : List ℕ) → drop (length xs) (xs ++ ys) ≡ ys
drop_append [] ys = refl
drop_append (x ∷ xs) ys = drop_append xs ys

not_less : (n : ℕ) → ltb n n ≡ false
not_less n = ground arith

walk_edge :
    (t : ℕ) (ks us : List ℕ) (children rest : Edges)
    → cache_match (edge t (t ∷ ks) children rest) (t ∷ (ks ++ us))
      ≡ length (t ∷ ks) + cache_match children us
unfolding cache_match
walk_edge t ks us children rest =
    rw ((==_iff t t).1 refl, common_key ks us, not_less (suc (length ks)))
      (rw (drop_append ks us) refl)

-- At least what an edge has in common with the tokens.
part_of_edge :
    (t u : ℕ) (key us : List ℕ) (children rest : Edges)
    → (t == u) ≡ true
    → common key (u ∷ us) ≤ cache_match (edge t key children rest) (u ∷ us)
unfolding cache_match
part_of_edge t u key us children rest same =
    elim (Bool-cases (ltb (common key (u ∷ us)) (length key))) [
      | inl part ↦ rw (same, part) (omega arith)
      | inr whole ↦ rw (same, whole) (omega arith)
    ]

beside :
    (t u : ℕ) (key us : List ℕ) (children rest : Edges)
    → (t == u) ≡ false
    → cache_match (edge t key children rest) (u ∷ us) ≡ cache_match rest (u ∷ us)
unfolding cache_match
beside t u key us children rest other = rw other refl

-- No more is spelled by any path.
match_complete :
    (e : Edges) → IsFiledBy e → (p s : List ℕ) → IsSpelled e p → length p ≤ cache_match e (p ++ s)
match_complete e f [] s sp = omega arith
match_complete no_edge f (v ∷ p) s sp = cc
match_complete (edge t key children rest) f (v ∷ p) s (inl (s', e)) =
    let same = (==_iff t v).1 (same_head key f.0.0 (p ++ s') t v f.0.1 e) in
    let agreed =
      subst (λ k. length (v ∷ p) ≤ common k ((v ∷ p) ++ s)) (sym e) (common-append (v ∷ p) s' s) in
    let counted = part_of_edge t v key (p ++ s) children rest same in omega arith
match_complete (edge t key children rest) f (v ∷ p) s (inr (inl (q, e, sp))) =
    subst (λ x. length x ≤ cache_match (edge t key children rest) (x ++ s)) (sym e)
      (subst (λ k. length (k ++ q) ≤ cache_match (edge t k children rest) ((k ++ q) ++ s))
        (sym f.0.1) (below (match_complete children f.2 q s sp)))
  where
    below :
        length q ≤ cache_match children (q ++ s)
        → length ((t ∷ f.0.0) ++ q)
          ≤ cache_match (edge t (t ∷ f.0.0) children rest) (((t ∷ f.0.0) ++ q) ++ s)
    below ih =
        let sum = length-append (t ∷ f.0.0) q in
        rw (append_assoc f.0.0 q s, walk_edge t f.0.0 (q ++ s) children rest) (omega arith)
match_complete (edge t key children rest) f (v ∷ p) s (inr (inr sp)) =
    rw (beside t v key (p ++ s) children rest (first_token rest t v p f.3 f.1 sp))
      (match_complete rest f.3 (v ∷ p) s sp)

-- The walk counts the longest part of the tokens, from their first on, that a path down from the
-- root spells, also where it ends within an edge.
pub cache_match_longest :
    (e : Edges)
    → IsFiledBy e
    → (ts : List ℕ)
    → IsSpelled e (take (cache_match e ts) ts)
      × ((p s : List ℕ) → ts ≡ p ++ s → IsSpelled e p → length p ≤ cache_match e ts)
cache_match_longest e f ts = (
  match_sound e ts,
  λ p s q sp. subst (λ x. length p ≤ cache_match e x) (sym q) (match_complete e f p s sp),
)
