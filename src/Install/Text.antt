-- ===== src/Install/Text.antt =====
-- The operations on str that the installers use. A text is a list of ASCII codes.
use Prim.Native.Char.{code}
use Prim.Native.String.{String}
use peek.Prelude.{
  ℕ, List, [], ◌∷◌, ◌++◌, Bool, ◌||◌, reverse, length, ◌==◌, if◌then◌else◌, zero, suc, Option, none,
  some,
}
use peek.Offline.Decimal.{strip_left}
use peek.Offline.Tags.{starts_with}

abbrev pub Text : Type 0
Text = List ℕ

abbrev pub codes : String → Text
codes String.[] = []
codes (String.◌∷◌ c s) = code c ∷ codes s

-- `"\n".join(lines) + "\n"`
abbrev pub lines : List String → Text
lines [] = []
lines (l ∷ ls) = codes l ++ b'\n' ∷ lines ls

-- What follows `m` in a text that starts with it.
unfoldable pub after : Text → Text → Option Text
after [] s = some s
after (c ∷ m) [] = none
after (c ∷ m) (d ∷ s) = if c == d then after m s else none

-- `m in s`
unfoldable pub occurs : Text → Text → Bool
unfolding starts_with
occurs m [] = starts_with m []
occurs m (c ∷ s) = starts_with m (c ∷ s) || occurs m s

-- `s.replace(m, t, 1)` of a text m that is not empty
unfoldable pub replace_once : Text → Text → Text → Text
unfolding after
replace_once m t [] = []
replace_once m t (c ∷ s) =
    let below = replace_once m t s in
    elim (after m (c ∷ s)) [ none ↦ c ∷ below | some rest ↦ t ++ rest ]

-- `s.replace(m, t)` of a text m that is not empty, with fuel for the length of s.
unfoldable pub replace_fuel : ℕ → Text → Text → Text → Text
unfolding after
replace_fuel zero m t s = s
replace_fuel (suc n) m t [] = []
replace_fuel (suc n) m t (c ∷ s) = elim (after m (c ∷ s)) [
  | none ↦ c ∷ replace_fuel n m t s
  | some rest ↦ t ++ replace_fuel n m t rest
]

unfoldable pub replace_all : Text → Text → Text → Text
unfolding replace_fuel
replace_all m t s = replace_fuel (length s) m t s

-- `s.rstrip()`
unfoldable pub rstrip : Text → Text
unfolding strip_left
rstrip s = reverse (strip_left (reverse s))
