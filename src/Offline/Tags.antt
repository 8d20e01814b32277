-- ===== src/Offline/Tags.antt =====
-- python/peek/offline/engine.py: `_parse_peek_rid`, against what the dispatcher of
-- python/peek/offline/reorder.py writes. A rid is a list of ASCII codes; `none` stands for the
-- ValueError of a field that is no number.
use peek.Prelude.{
  ℕ, zero, suc, ◌≡◌, refl, List, [], ◌∷◌, ◌++◌, Option, none, some, ◌>>=◌, Bool, true, false, arith,
  if◌then◌else◌, ◌==◌, All, tuple_beq,
}
use peek.Prelude.Int.{ℤ, pos}
use peek.Offline.Decimal.{digits, parse_int, parse_int-digits, IsDigit, digits-IsDigit}

-- The text before the first colon, and the one after it.
unfoldable pub cut : List ℕ → Option (List ℕ × List ℕ)
cut [] = none
cut (c ∷ cs) = if c == b':' then some ([], cs) else cut cs >>= λ (a, b). some (c ∷ a, b)

-- `s.split(":", n)`
unfoldable pub split : ℕ → List ℕ → List (List ℕ)
unfolding cut
split zero s = s ∷ []
split (suc n) s = elim (cut s) [ none ↦ s ∷ [] | some (a, b) ↦ a ∷ split n b ]

abbrev pub peek_tag : List ℕ
peek_tag = b'p' ∷ b'e' ∷ b'e' ∷ b'k' ∷ []

-- `rid.startswith("peek:")`
unfoldable pub starts_with : List ℕ → List ℕ → Bool
starts_with [] s = true
starts_with (c ∷ cs) [] = false
starts_with (c ∷ cs) (d ∷ ds) = if c == d then starts_with cs ds else false

abbrev pub is_tagged : List ℕ → Bool
is_tagged rid = starts_with (peek_tag ++ b':' ∷ []) rid

abbrev pub from_parts : List ℕ → List (List ℕ) → Option (ℤ × ℤ × List ℕ)
from_parts rid (p ∷ rank ∷ key ∷ orig ∷ []) =
    if tuple_beq p peek_tag
    then (parse_int rank >>= λ r. parse_int key >>= λ k. some (r, k, orig))
    else some (pos 0, pos 0, rid)
from_parts rid _ = some (pos 0, pos 0, rid)

unfoldable pub parse_peek_rid : List ℕ → Option (ℤ × ℤ × List ℕ)
unfolding split parse_int
parse_peek_rid rid = from_parts rid (split 3 rid)

-- `f"peek:{rank}:{group_key_hash}:{orig_rid}"`
unfoldable pub tag : ℕ → ℕ → List ℕ → List ℕ
unfolding digits
tag rank key rid = peek_tag ++ b':' ∷ (digits rank ++ b':' ∷ (digits key ++ b':' ∷ rid))

cut-append : (a b : List ℕ) → All (λ c. (c == b':') ≡ false) a → cut (a ++ b':' ∷ b) ≡ some (a, b)
unfolding cut
cut-append [] b h = refl
cut-append (c ∷ a) b h = rw (h.0, cut-append a b h.1) refl

no_colon : (cs : List ℕ) → All IsDigit cs → All (λ c. (c == b':') ≡ false) cs
no_colon [] h = tt
no_colon (c ∷ cs) h = (digit c h.0, no_colon cs h.1)
  where
    digit : (k : ℕ) → IsDigit k → (k == b':') ≡ false
    digit k q = ground (arith, q.0, q.1)

split_suc : (n : ℕ) (s a b : List ℕ) → cut s ≡ some (a, b) → split (suc n) s ≡ a ∷ split n b
unfolding split
split_suc n s a b h = rw (h, split) refl

split-tag :
    (rank key : ℕ) (rid : List ℕ)
    → split 3 (tag rank key rid) ≡ peek_tag ∷ digits rank ∷ digits key ∷ rid ∷ []
unfolding tag split
split-tag rank key rid =
    rw
      (
        split_suc 2 _ _ _ (cut-append peek_tag _ (refl, (refl, (refl, (refl, tt))))),
        split_suc 1 _ _ _ (cut-append (digits rank) _ (no_colon _ (digits-IsDigit rank))),
        split_suc 0 _ _ _ (cut-append (digits key) _ (no_colon _ (digits-IsDigit key))),
      )
      refl

-- The server reads back what the client's dispatcher writes into a rid, colons in the original
-- rid included: the rank, the hash of the group and the original rid.
pub parse_peek_rid-tag :
    (rank key : ℕ) (rid : List ℕ)
    → parse_peek_rid (tag rank key rid) ≡ some (pos rank, pos key, rid)
unfolding parse_peek_rid
parse_peek_rid-tag rank key rid =
    rw (split-tag rank key rid, parse_int-digits rank, parse_int-digits key) refl
