-- ===== src/Prelude/Lex.antt =====
-- Sorting by a tuple, and by a fraction with a sign.
use Prim.Native.Nat.{ℕ, zero, suc, ◌+◌, ◌*◌, ◌≤◌, ◌<◌}
use mathlib.Core.Bool.{Bool, true, false}
use native.Mathlib.Nat.{le_of_mul-le-mul_right, mul-le-mul_right}
use native.Mathlib.Omega.{arith}
use peek.Prelude.Tests.{leb, leb→le, if◌then◌else◌}
use peek.Prelude.Sort.{IsOrder}

module _ {ℓ} {A : Type ℓ} (first second : A → A → Bool) where
  -- Less or equal at the first place, and at the second where the first ones tie.
  abbrev pub lex : A → A → Bool
  lex a b = if first a b then (if first b a then second a b else true) else false

  pub lex-IsOrder : IsOrder first → IsOrder second → IsOrder lex
  lex-IsOrder f s = record {
    trans = λ a b c p q.
        ground (arith, f.trans a b c, f.trans b c a, f.trans c a b, s.trans a b c, p, q);
    total = λ a b p. ground (arith, f.total a b, f.total b a, s.total a b, p);
  }

-- `(gain - loss) / den`, with a denominator that is not 0.
pub record Fraction : Type 0 where
  pub gain : ℕ
  pub loss : ℕ
  pub den_pred : ℕ

module _ (x : Fraction) where
  abbrev pub den : ℕ
  den = suc x.den_pred

abbrev pub leb_fraction : Fraction → Fraction → Bool
leb_fraction x y = leb (x.gain * den y + y.loss * den x) (y.gain * den x + x.loss * den y)

leb_trans :
    (ga la a gb lb b gc lc c : ℕ)
    → zero < b
    → ga * b + lb * a ≤ gb * a + la * b
    → gb * c + lc * b ≤ gc * b + lb * c
    → ga * c + lc * a ≤ gc * a + la * c
leb_trans ga la a gb lb b gc lc c p h i = le_of_mul-le-mul_right sum p
  where
    left : (ga * b + lb * a) * c ≤ (gb * a + la * b) * c
    left = mul-le-mul_right c h

    right : (gb * c + lc * b) * a ≤ (gc * b + lb * c) * a
    right = mul-le-mul_right a i

    sum : (ga * c + lc * a) * b ≤ (gc * a + la * c) * b
    sum = grind (arith, left, right)

pub leb_fraction-IsOrder : IsOrder leb_fraction
leb_fraction-IsOrder = record {
  trans = λ x y z p q. ground (
    arith,
    leb_trans x.gain x.loss (den x) y.gain y.loss (den y) z.gain z.loss (den z) (omega arith)
        (leb→le _ _ p) (leb→le _ _ q),
  );
  total = λ x y p. ground (arith, p);
}
