-- ===== src/Lpm/Lex.antt =====
-- Tuples of integers as sort keys, compared lexicographically.
use peek.Prelude.{◌≡◌, refl, List, [], ◌∷◌, Bool, true, false, arith, if◌then◌else◌}
use peek.Prelude.Int.{ℤ, ltb_ℤ}
use peek.Prelude.Sort.{IsOrder}

unfoldable pub lex_leb : List ℤ → List ℤ → Bool
lex_leb [] ys = true
lex_leb (x ∷ xs) [] = false
lex_leb (x ∷ xs) (y ∷ ys) = if ltb_ℤ x y then true else if ltb_ℤ y x then false else lex_leb xs ys

lex_trans : (a b c : List ℤ) → lex_leb a b ≡ true → lex_leb b c ≡ true → lex_leb a c ≡ true
unfolding lex_leb
lex_trans [] b c p q = refl
lex_trans (x ∷ xs) [] c p q = cc
lex_trans (x ∷ xs) (y ∷ ys) [] p q = cc
lex_trans (x ∷ xs) (y ∷ ys) (z ∷ zs) p q = ground (arith, lex_trans xs ys zs)

lex_total : (a b : List ℤ) → lex_leb a b ≡ false → lex_leb b a ≡ true
unfolding lex_leb
lex_total [] b p = cc
lex_total (x ∷ xs) [] p = refl
lex_total (x ∷ xs) (y ∷ ys) p = ground (arith, lex_total xs ys)

module _ {ℓ} {A : Type ℓ} (key : A → List ℤ) where
  -- `key=key`
  abbrev pub le_lex : A → A → Bool
  le_lex a b = lex_leb (key a) (key b)

  pub le_lex-IsOrder : IsOrder le_lex
  le_lex-IsOrder = record {
    trans = λ a b c p q. lex_trans (key a) (key b) (key c) p q;
    total = λ a b p. lex_total (key a) (key b) p;
  }
