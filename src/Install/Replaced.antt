-- ===== src/Install/Replaced.antt =====
-- What `sub_once` does to a text, and what its patterns match.
use peek.Prelude.{
  ℕ, ◌≡◌, refl, ◌∙◌, sym, ap, subst, ◌⊎◌, inl, inr, List, [], ◌∷◌, ◌++◌, Option, none, some, Bool,
  Bool-cases, ◌==◌, ==_iff,
}
use mathlib.Core.List.{append_assoc}
use mathlib.Core.Option.{some-injective}
use peek.Install.Text.{Text, after}
use peek.Install.Regex.{
  literal, one, many, lazy, choice, ahead, word_end, Pattern, Parts, Found, in_part, or_else,
  longer, greedy, reluctant, first_of, single, starts_any, ends_word, in_literal, with_match,
  match_at, sub_once,
}

-- The text that the pieces matched.
abbrev pub matched : Parts → Text
matched [] = []
matched ((g, t) ∷ parts) = t ++ matched parts

-- A match at the beginning of a text: what is matched and what is left make it up.
abbrev IsFound : Text → Found → Type 0
IsFound s none = Unit
IsFound s (some (parts, rest)) = matched parts ++ rest ≡ s

abbrev Finds : (Text → Found) → Type 0
Finds next = (s : Text) → IsFound s (next s)

after-append : (t s rest : Text) → after t s ≡ some rest → t ++ rest ≡ s
unfolding after
after-append [] s rest h = some-injective _ _ (sym h)
after-append (c ∷ t) [] rest h = cc
after-append (c ∷ t) (d ∷ s) rest h = elim (Bool-cases (c == d)) [
  | inl same ↦ rw ((==_iff c d).0 same) (ap (◌∷◌ d) (after-append t s rest (rw same at h)))
  | inr other ↦ let h' = rw other at h in cc
]

in_part-IsFound : (g : ℕ) (t s : Text) (r : Found) → IsFound s r → IsFound (t ++ s) (in_part g t r)
in_part-IsFound g t s none h = tt
in_part-IsFound g t s (some (parts, rest)) h =
    append_assoc t (matched parts) rest ∙ ap (λ x. t ++ x) h

or_else-IsFound : (s : Text) (a b : Found) → IsFound s a → IsFound s b → IsFound s (or_else a b)
or_else-IsFound s none b ha hb = hb
or_else-IsFound s (some r) b ha hb = ha

longer-IsFound : (c : ℕ) (s : Text) (r : Found) → IsFound s r → IsFound (c ∷ s) (longer c r)
longer-IsFound c s none h = tt
longer-IsFound c s (some ([], rest)) h = tt
longer-IsFound c s (some ((g, t) ∷ parts, rest)) h = ap (◌∷◌ c) h

module _ (g : ℕ) (next : Text → Found) (finds : Finds next) where
  nothing-IsFound : (s : Text) → IsFound s (in_part g [] (next s))
  nothing-IsFound s = in_part-IsFound g [] s (next s) (finds s)

  greedy-IsFound : (p : ℕ → Bool) → Finds (greedy g next p)
  unfolding greedy
  greedy-IsFound p [] = nothing-IsFound []
  greedy-IsFound p (c ∷ s) =
      let more = longer-IsFound c s (greedy g next p s) (greedy-IsFound p s) in
      elim (Bool-cases (p c)) [
        | inl q ↦ rw q (or_else-IsFound (c ∷ s) _ _ more (nothing-IsFound (c ∷ s)))
        | inr q ↦ rw q (nothing-IsFound (c ∷ s))
      ]

  reluctant-IsFound : (p : ℕ → Bool) → Finds (reluctant g next p)
  unfolding reluctant
  reluctant-IsFound p [] = nothing-IsFound []
  reluctant-IsFound p (c ∷ s) =
      let more = longer-IsFound c s (reluctant g next p s) (reluctant-IsFound p s) in
      elim (Bool-cases (p c)) [
        | inl q ↦ rw q (or_else-IsFound (c ∷ s) _ _ (nothing-IsFound (c ∷ s)) more)
        | inr q ↦ rw q (nothing-IsFound (c ∷ s))
      ]

  single-IsFound : (p : ℕ → Bool) → Finds (single g next p)
  single-IsFound p [] = tt
  single-IsFound p (c ∷ s) = elim (Bool-cases (p c)) [
    | inl q ↦ rw q (in_part-IsFound g (c ∷ []) s (next s) (finds s))
    | inr q ↦ rw q tt
  ]

  in_literal-IsFound :
      (t s : Text) (o : Option Text) → after t s ≡ o → IsFound s (in_literal g t next o)
  in_literal-IsFound t s none e = tt
  in_literal-IsFound t s (some rest) e =
      subst (λ z. IsFound z (in_part g t (next rest))) (after-append t s rest e)
        (in_part-IsFound g t rest (next rest) (finds rest))

  first_of-IsFound : (ts : List Text) → Finds (first_of g next ts)
  first_of-IsFound [] s = tt
  first_of-IsFound (t ∷ ts) s =
      or_else-IsFound s _ _ (in_literal-IsFound t s (after t s) refl) (first_of-IsFound ts s)

match_at-IsFound : (pattern : Pattern) → Finds (match_at pattern)
unfolding match_at
match_at-IsFound [] s = refl
match_at-IsFound ((g, literal t) ∷ ps) s =
    in_literal-IsFound g (match_at ps) (match_at-IsFound ps) t s (after t s) refl
match_at-IsFound ((g, one p) ∷ ps) s = single-IsFound g (match_at ps) (match_at-IsFound ps) p s
match_at-IsFound ((g, many p) ∷ ps) s = greedy-IsFound g (match_at ps) (match_at-IsFound ps) p s
match_at-IsFound ((g, lazy p) ∷ ps) s = reluctant-IsFound g (match_at ps) (match_at-IsFound ps) p s
match_at-IsFound ((g, choice ts) ∷ ps) s =
    first_of-IsFound g (match_at ps) (match_at-IsFound ps) ts s
match_at-IsFound ((g, ahead ts) ∷ ps) s = elim (Bool-cases (starts_any ts s)) [
  | inl q ↦ rw q (match_at-IsFound ps s)
  | inr q ↦ rw q tt
]
match_at-IsFound ((g, word_end) ∷ ps) s = elim (Bool-cases (ends_word s)) [
  | inl q ↦ rw q (match_at-IsFound ps s)
  | inr q ↦ rw q tt
]

-- A text in which one match is replaced.
pub record IsReplaced (pattern : Pattern) (new : Parts → Text) (s out : Text) : Type 0 where
  pub front : Text
  pub parts : Parts
  pub rest : Text
  pub match : match_at pattern (matched parts ++ rest) ≡ some (parts, rest)
  pub old : s ≡ front ++ (matched parts ++ rest)
  pub now : out ≡ front ++ (new parts ++ rest)

abbrev Outcome : Pattern → (Parts → Text) → Text → Text → Type 0
Outcome pattern new s out = (out ≡ s) ⊎ IsReplaced pattern new s out

one_more :
    (pattern : Pattern) (new : Parts → Text) (c : ℕ) (s out : Text)
    → Outcome pattern new s out
    → Outcome pattern new (c ∷ s) (c ∷ out)
one_more pattern new c s out (inl same) = inl (ap (◌∷◌ c) same)
one_more pattern new c s out (inr r) = inr (record {
  front = c ∷ r.front;
  parts = r.parts;
  rest = r.rest;
  match = r.match;
  old = ap (◌∷◌ c) r.old;
  now = ap (◌∷◌ c) r.now;
})

with_match-Outcome :
    (pattern : Pattern) (new : Parts → Text) (s unchanged : Text)
    → Outcome pattern new s unchanged
    → (r : Found) → match_at pattern s ≡ r
    → IsFound s r
    → Outcome pattern new s (with_match new r unchanged)
with_match-Outcome pattern new s unchanged h none e f = h
with_match-Outcome pattern new s unchanged h (some (parts, rest)) e f = inr (record {
  front = [];
  parts = parts;
  rest = rest;
  match = ap (match_at pattern) f ∙ e;
  old = sym f;
  now = refl;
})

-- Replacing at most one match leaves the text as it is or replaces the text of one match of the
-- pattern by what `new` makes of its groups, and keeps what stands before and after it.
pub sub_once-IsReplaced :
    (pattern : Pattern) (new : Parts → Text) (s : Text)
    → (sub_once pattern new s ≡ s) ⊎ IsReplaced pattern new s (sub_once pattern new s)
unfolding sub_once
sub_once-IsReplaced pattern new [] =
    with_match-Outcome pattern new [] [] (inl refl) (match_at pattern []) refl
      (match_at-IsFound pattern [])
sub_once-IsReplaced pattern new (c ∷ s) =
    let below =
      one_more pattern new c s (sub_once pattern new s) (sub_once-IsReplaced pattern new s) in
    with_match-Outcome pattern new (c ∷ s) _ below (match_at pattern (c ∷ s)) refl
      (match_at-IsFound pattern (c ∷ s))
