-- ===== src/VllmHooks/Totals.antt =====
-- How often a block hash occurs among the pending requests.
use peek.Prelude.{
  ℕ, ◌+◌, ◌≡◌, refl, sym, ap, ◌∙◌, inl, inr, List, [], ◌∷◌, Option, none, some, true, if◌then◌else◌,
  ◌==◌, nat_eq, arith, Bool-cases,
}
use peek.Prelude.Dict.{get, put, delete, get-put, get-delete}
use peek.VllmHooks.Demand.{or_zero}

-- How often a hash occurs in a list, and in the lists of all tracked requests.
abbrev pub count : ℕ → List ℕ → ℕ
count h [] = 0
count h (k ∷ ks) = (if k == h then 1 else 0) + count h ks

abbrev pub total : ℕ → List (ℕ × List ℕ) → ℕ
total h [] = 0
total h ((i, hs) ∷ d) = count h hs + total h d

-- No key twice.
abbrev pub IsDict : List (ℕ × List ℕ) → Type 0
IsDict [] = Unit
IsDict ((i, hs) ∷ d) = (get i d ≡ none) × IsDict d

pub put_new :
    (i : ℕ) (hs : List ℕ) (d : List (ℕ × List ℕ))
    → get i d ≡ none
    → (h : ℕ) → total h (put i hs d) ≡ count h hs + total h d
unfolding get put
put_new i hs [] e h = omega arith
put_new i hs ((j, ks) ∷ d) e h = elim (Bool-cases (j == i)) [
  | inl same ↦ let e' = rw same at e in cc
  | inr other ↦ rw other (let ih = put_new i hs d (rw other at e) h in omega arith)
]

pub put-IsDict : (i : ℕ) (hs : List ℕ) (d : List (ℕ × List ℕ)) → IsDict d → IsDict (put i hs d)
unfolding get put
put-IsDict i hs [] k = (refl, tt)
put-IsDict i hs ((j, ks) ∷ d) k = elim (Bool-cases (j == i)) [
  | inl same ↦ rw same k
  | inr other ↦ rw other (ground (arith, get-put j i hs d, other, k.0), put-IsDict i hs d k.1)
]

delete_absent : (i : ℕ) (d : List (ℕ × List ℕ)) → get i d ≡ none → delete i d ≡ d
unfolding get delete
delete_absent i [] e = refl
delete_absent i ((j, ks) ∷ d) e = elim (Bool-cases (j == i)) [
  | inl same ↦ let e' = rw same at e in cc
  | inr other ↦ rw other (ap (λ r. (j, ks) ∷ r) (delete_absent i d (rw other at e)))
]

pub delete-IsDict : (i : ℕ) (d : List (ℕ × List ℕ)) → IsDict d → IsDict (delete i d)
unfolding get delete
delete-IsDict i [] k = tt
delete-IsDict i ((j, ks) ∷ d) k = elim (Bool-cases (j == i)) [
  | inl same ↦ rw same (delete-IsDict i d k.1)
  | inr other ↦ rw other (ground (arith, get-delete j i d, k.0), delete-IsDict i d k.1)
]

pub total-delete :
    (i : ℕ) (hs : List ℕ) (d : List (ℕ × List ℕ))
    → IsDict d
    → get i d ≡ some hs
    → (h : ℕ) → count h hs + total h (delete i d) ≡ total h d
unfolding get delete
total-delete i hs [] k e h = cc
total-delete i hs ((j, ks) ∷ d) k e h = elim (Bool-cases (j == i)) [
  | inl same ↦
      let gone : get i d ≡ none = ap (λ x. get x d) (sym (is_same same)) ∙ k.0 in
      rw (same, delete_absent i d gone) (taken (rw same at e))
  | inr other ↦ rw other (let ih = total-delete i hs d k.1 (rw other at e) h in omega arith)
]
  where
    is_same : (j == i) ≡ true → j ≡ i
    is_same s = ground arith

    taken : some ks ≡ some hs → count h hs + total h d ≡ count h ks + total h d
    taken q = ap (λ o. or_zero (count_in o) + total h d) (sym q)
      where
        count_in : Option (List ℕ) → Option ℕ
        count_in none = none
        count_in (some l) = some (count h l)
