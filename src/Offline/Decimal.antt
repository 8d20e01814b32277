-- ===== src/Offline/Decimal.antt =====
-- Decimal numbers in texts, which are lists of ASCII codes: `str` of a number that is not
-- negative, and `int` of a text, with its blanks, its sign and its underscores.
use mathlib.Core.List.{reverse-reverse}
use peek.Prelude.{
  ℕ, zero, suc, ◌+◌, ◌-◌, ◌*◌, ◌/◌, ◌%◌, ◌≤◌, ◌<◌, ◌≡◌, refl, sym, subst, inl, inr, List, [], ◌∷◌,
  ◌++◌, reverse, Option, none, some, Bool, true, false, ◌&&◌, ◌||◌, arith, if◌then◌else◌, ltb, leb,
  ◌==◌, Bool-cases, All, All-append, All-reverse,
}
use peek.Prelude.Int.{ℤ, pos, neg}

-- The digits of a number, the last one apart from the others.
unfoldable pub digits_fuel : ℕ → ℕ → List ℕ
digits_fuel zero n = []
digits_fuel (suc f) n =
    let front = digits_fuel f (n / 10) in
    if ltb n 10 then (b'0' + n) ∷ [] else front ++ (b'0' + n % 10) ∷ []

-- `str(n)`
unfoldable pub digits : ℕ → List ℕ
unfolding digits_fuel
digits n = digits_fuel (suc n) n

abbrev pub is_space : ℕ → Bool
is_space c = c == 32 || (leb 9 c && leb c 13) || (leb 28 c && leb c 31)

abbrev pub is_digit : ℕ → Bool
is_digit c = leb b'0' c && leb c b'9'

unfoldable pub strip_left : List ℕ → List ℕ
strip_left [] = []
strip_left (c ∷ cs) = if is_space c then strip_left cs else c ∷ cs

unfoldable pub strip : List ℕ → List ℕ
unfolding strip_left
strip s = reverse (strip_left (reverse (strip_left s)))

-- Digits, with single underscores between them; `after` a digit the text may end.
unfoldable pub read_digits : Bool → ℕ → List ℕ → Option ℕ
read_digits after acc [] = if after then some acc else none
read_digits after acc (c ∷ cs) =
    let next = read_digits true (acc * 10 + (c - b'0')) cs in
    let skipped = read_digits false acc cs in
    if is_digit c then next else if c == b'_' && after then skipped else none

abbrev pub signed : (ℕ → ℤ) → Option ℕ → Option ℤ
signed sign none = none
signed sign (some n) = some (sign n)

unfoldable pub read_signed : List ℕ → Option ℤ
unfolding read_digits
read_signed [] = none
read_signed (c ∷ cs) =
    if c == b'-'
    then signed neg (read_digits false 0 cs)
    else if c == b'+'
    then signed pos (read_digits false 0 cs)
    else signed pos (read_digits false 0 (c ∷ cs))

-- `int(s)`; none where a ValueError is raised.
unfoldable pub parse_int : List ℕ → Option ℤ
unfolding strip read_signed
parse_int s = read_signed (strip s)

abbrev pub IsDigit : ℕ → Type 0
IsDigit c = (b'0' ≤ c) × (c ≤ b'9')

digits_fuel-IsDigit : (f n : ℕ) → All IsDigit (digits_fuel f n)
unfolding digits_fuel
digits_fuel-IsDigit zero n = tt
digits_fuel-IsDigit (suc f) n = elim (Bool-cases (ltb n 10)) [
  | inl small ↦ rw small (ground (arith, small), tt)
  | inr large ↦ rw large (
      All-append IsDigit (digits_fuel f (n / 10)) _ (digits_fuel-IsDigit f (n / 10))
        (omega arith, tt))
]

pub digits-IsDigit : (n : ℕ) → All IsDigit (digits n)
unfolding digits
digits-IsDigit n = digits_fuel-IsDigit (suc n) n

-- The number that some digits stand for.
value : ℕ → List ℕ → ℕ
value acc [] = acc
value acc (c ∷ cs) = value (acc * 10 + (c - b'0')) cs

value-append :
    (acc : ℕ) (cs : List ℕ) (d : ℕ) → value acc (cs ++ d ∷ []) ≡ value acc cs * 10 + (d - b'0')
unfolding value
value-append acc [] d = refl
value-append acc (c ∷ cs) d = value-append (acc * 10 + (c - b'0')) cs d

value-digits_fuel : (f n : ℕ) → n < f → value 0 (digits_fuel f n) ≡ n
unfolding value digits_fuel
value-digits_fuel zero n h = absurd (omega arith)
value-digits_fuel (suc f) n h = elim (Bool-cases (ltb n 10)) [
  | inl small ↦ rw small (omega arith)
  | inr large ↦
      let ih = value-digits_fuel f (n / 10) (ground (arith, large)) in
      rw (large, value-append 0 (digits_fuel f (n / 10)) (b'0' + n % 10), ih) (omega arith)
]

read_digits-value :
    (after : Bool) (acc : ℕ) (c : ℕ) (cs : List ℕ)
    → All IsDigit (c ∷ cs)
    → read_digits after acc (c ∷ cs) ≡ some (value acc (c ∷ cs))
unfolding read_digits value
read_digits-value after acc c [] h = ground (arith, h.0)
read_digits-value after acc c (d ∷ cs) h =
    rw (digit c h.0) (read_digits-value true (acc * 10 + (c - b'0')) d cs h.1)
  where
    digit : (k : ℕ) → IsDigit k → is_digit k ≡ true
    digit k q = ground (arith, q.0, q.1)

strip_left-digits : (cs : List ℕ) → All IsDigit cs → strip_left cs ≡ cs
unfolding strip_left
strip_left-digits [] h = refl
strip_left-digits (c ∷ cs) h = ground (arith, h.0.0, h.0.1)

strip-digits : (cs : List ℕ) → All IsDigit cs → strip cs ≡ cs
unfolding strip
strip-digits cs h =
    rw (strip_left-digits cs h, strip_left-digits (reverse cs) (All-reverse IsDigit cs h))
      (reverse-reverse cs)

parse_int-value :
    (c : ℕ) (cs : List ℕ)
    → All IsDigit (c ∷ cs)
    → parse_int (c ∷ cs) ≡ some (pos (value 0 (c ∷ cs)))
unfolding parse_int read_signed
parse_int-value c cs h =
    rw (strip-digits (c ∷ cs) h, minus c h.0, plus c h.0, read_digits-value false 0 c cs h) refl
  where
    minus : (k : ℕ) → IsDigit k → (k == b'-') ≡ false
    minus k q = ground (arith, q.0, q.1)

    plus : (k : ℕ) → IsDigit k → (k == b'+') ≡ false
    plus k q = ground (arith, q.0, q.1)

-- The text of a number is not empty.
digits_cons : (n : ℕ) → (c : ℕ) × (cs : List ℕ) × (digits n ≡ c ∷ cs)
unfolding digits digits_fuel
digits_cons n = elim (Bool-cases (ltb n 10)) [
  | inl small ↦ rw small (b'0' + n, [], refl)
  | inr large ↦ rw large (head (digits_fuel n (n / 10)) _)
]
  where
    head : (front : List ℕ) (d : ℕ) → (c : ℕ) × (cs : List ℕ) × (front ++ d ∷ [] ≡ c ∷ cs)
    head [] d = (d, [], refl)
    head (c ∷ cs) d = (c, cs ++ d ∷ [], refl)

-- `int(str(n)) == n`
pub parse_int-digits : (n : ℕ) → parse_int (digits n) ≡ some (pos n)
unfolding digits
parse_int-digits n = via (digits_cons n).0 (digits_cons n).1 (digits_cons n).2
  where
    via : (c : ℕ) (cs : List ℕ) → digits n ≡ c ∷ cs → parse_int (digits n) ≡ some (pos n)
    via c cs e =
        rw
          (
            e,
            parse_int-value c cs (subst (All IsDigit) e (digits_fuel-IsDigit (suc n) n)),
            sym e,
            value-digits_fuel (suc n) n (omega arith),
          )
          refl
