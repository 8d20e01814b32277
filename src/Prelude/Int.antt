-- ===== src/Prelude/Int.antt =====
-- Python's int: signed integers over the native numbers, with their order.
use Prim.Native.Nat.{ℕ, zero, suc, ◌+◌}
use native.Mathlib.Decide.{ℕ_discrete}
use std.HLevel.{hedberg}
use mathlib.Core.Bool.{Bool, true, false}
use mathlib.Core.Path.{◌≡◌, ap}
use mathlib.Core.Logic.{◌↔◌}
use native.Mathlib.Omega.{arith}
use peek.Prelude.Tests.{ltb, ◌==◌, Eq, ==_iff}

-- `negsuc n` is -(n + 1).
pub data ℤ : Type 0 where
  pos : ℕ → ℤ
  negsuc : ℕ → ℤ

abbrev pub pos_part : ℤ → ℕ
pos_part (pos n) = n
pos_part (negsuc n) = 0

abbrev pub neg_part : ℤ → ℕ
neg_part (pos n) = 0
neg_part (negsuc n) = suc n

-- `-n` of a number.
abbrev pub neg : ℕ → ℤ
neg zero = pos 0
neg (suc n) = negsuc n

abbrev pub ltb_ℤ : ℤ → ℤ → Bool
ltb_ℤ a b = ltb (pos_part a + neg_part b) (pos_part b + neg_part a)

abbrev pub int_beq : ℤ → ℤ → Bool
int_beq (pos a) (pos b) = a == b
int_beq (pos a) (negsuc b) = false
int_beq (negsuc a) (pos b) = false
int_beq (negsuc a) (negsuc b) = a == b

pub int_beq_iff : (a b : ℤ) → (int_beq a b ≡ true) ↔ (a ≡ b)
int_beq_iff (pos a) (pos b) = let (f, g) = ==_iff a b in (λ h. ap pos (f h), λ h. g (ap pos_part h))
int_beq_iff (pos a) (negsuc b) = (λ h. cc, λ h. cc)
int_beq_iff (negsuc a) (pos b) = (λ h. cc, λ h. cc)
int_beq_iff (negsuc a) (negsuc b) =
    let (f, g) = ==_iff a b in (λ h. ap negsuc (f h), λ h. let q = ap neg_part h in g (omega arith))

instance abbrev pub int_eq : Eq ℤ
int_eq = record { beq = int_beq; beq_iff = int_beq_iff }

ℤ-Discrete : Discrete ℤ
ℤ-Discrete = hlevel (ℕ_discrete)

pub ℤ-IsSet : IsSet ℤ
ℤ-IsSet = hedberg ℤ-Discrete
