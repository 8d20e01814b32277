-- ===== src/Lpm/Sections.antt =====
-- The first pass of `peek_clpm_sort_inplace`: warm requests, cold pioneers and cold siblings.
use peek.Prelude.{
  ℕ, ◌≡◌, refl, ap, inl, inr, List, [], ◌∷◌, map, reverse, Bool, true, false, ◌||◌, length, select,
  if◌then◌else◌, ltb, ◌==◌, Eq, tuple_eq, Bool-cases,
}
use peek.Prelude.Int.{ℤ, pos, negsuc}
use peek.Prelude.Membership.{contains}
use peek.Lpm.Data.{Req, tokens_of}
use peek.Lpm.Deprioritize.{claim, claim_if, prefix_key}

-- A rid with its section: 0 = warm, 1 = pioneer, 2 = sibling.
abbrev pub Mark : Type 0
Mark = List ℕ × ℕ

-- `mh > threshold`
abbrev pub exceeds : ℤ → ℕ → Bool
exceeds (pos c) mh = ltb c mh
exceeds (negsuc c) mh = true

abbrev pub is_negative : ℤ → Bool
is_negative (pos n) = false
is_negative (negsuc n) = true

-- A length below the threshold.
abbrev pub falls_short : ℤ → ℕ → Bool
falls_short (pos d) n = ltb n d
falls_short (negsuc d) n = false

abbrev pub key_at : ℤ → Req → List ℕ
key_at (pos d) r = prefix_key d r
key_at (negsuc d) r = []

-- The sections in the order in which they are assigned.
unfoldable pub assign : ℤ → ℤ → (Req → ℕ) → List (List ℕ) → List Req → List Mark
unfolding contains
assign check threshold hit seen [] = []
assign check threshold hit seen (r ∷ rs) =
    let rest = assign check threshold hit seen rs in
    if exceeds check (hit r)
    then (r.rid, 0) ∷ rest
    else if is_negative check || is_negative threshold
    then (r.rid, 1) ∷ rest
    else if falls_short threshold (length (tokens_of r))
    then (r.rid, 1) ∷ rest
    else if contains seen (key_at threshold r)
    then (r.rid, 2) ∷ rest
    else (r.rid, 1) ∷ assign check threshold hit (key_at threshold r ∷ seen) rs

-- `deprioritized`: the rids that are marked as siblings.
abbrev pub siblings : List Mark → List (List ℕ)
siblings marks = map (λ (m : Mark). m.0) (select (λ (m : Mark). m.1 == 2) marks)

-- `section_of.get(rid, 1)`: the last assignment counts.
abbrev pub section_at : List Mark → List ℕ → ℕ
section_at [] rid = 1
section_at ((k, s) ∷ marks) rid = if Eq.beq tuple_eq k rid then s else section_at marks rid

abbrev pub section_of : List Mark → List ℕ → ℕ
section_of marks rid = section_at (reverse marks) rid

siblings-assign :
    (check threshold : ℕ) (hit : Req → ℕ) (seen : List (List ℕ)) (q : List Req)
    → siblings (assign (pos check) (pos threshold) hit seen q) ≡ claim check threshold hit seen q
unfolding assign claim
siblings-assign check threshold hit seen [] = refl
siblings-assign check threshold hit seen (r ∷ rs) = elim (Bool-cases (ltb check (hit r))) [
  | inl warm ↦ rw warm (siblings-assign check threshold hit seen rs)
  | inr cold ↦ elim (Bool-cases (ltb (length (tokens_of r)) threshold)) [
    | inl short ↦ rw (cold, short) (siblings-assign check threshold hit seen rs)
    | inr long ↦ elim (Bool-cases (contains seen (prefix_key threshold r))) [
      | inl old ↦
          rw (cold, long, old) (ap (◌∷◌ r.rid) (siblings-assign check threshold hit seen rs))
      | inr new ↦
          rw (cold, long, new)
            (siblings-assign check threshold hit (prefix_key threshold r ∷ seen) rs)
    ]
  ]
]

no_siblings :
    (check threshold : ℤ) (hit : Req → ℕ) (seen : List (List ℕ)) (q : List Req)
    → (is_negative check || is_negative threshold) ≡ true
    → siblings (assign check threshold hit seen q) ≡ []
unfolding assign
no_siblings check threshold hit seen [] h = refl
no_siblings check threshold hit seen (r ∷ rs) h = elim (Bool-cases (exceeds check (hit r))) [
  | inl warm ↦ rw warm (no_siblings check threshold hit seen rs h)
  | inr cold ↦ rw (cold, h) (no_siblings check threshold hit seen rs h)
]

-- Whatever the thresholds, `peek_clpm_sort_inplace` puts the same requests off as the other sorts:
-- its siblings are the requests whose prefix an earlier cold request has claimed.
pub assign-claim_if :
    (check threshold : ℤ) (hit : Req → ℕ) (q : List Req)
    → siblings (assign check threshold hit [] q) ≡ claim_if check threshold hit q
unfolding claim_if
assign-claim_if (pos c) (pos d) hit q = siblings-assign c d hit [] q
assign-claim_if (pos c) (negsuc d) hit q = no_siblings (pos c) (negsuc d) hit [] q refl
assign-claim_if (negsuc c) threshold hit q = no_siblings (negsuc c) threshold hit [] q refl
