-- ===== src/VllmHooks/Depths.antt =====
-- The depths that are kept of block hashes bound the positions of their occurrences.
use peek.Prelude.{ℕ, suc, ◌≤◌, ◌≡◌, inl, inr, List, [], ◌∷◌, ◌==◌, nat_eq, arith, Bool-cases, All}
use peek.Prelude.Dict.{put, delete, get-delete}
use peek.VllmHooks.Demand.{count_at}
use peek.VllmHooks.Totals.{count, total}

-- Each hash of a list, from the position `d` on, has at least that depth.
abbrev pub Bounded : List (ℕ × ℕ) → ℕ → List ℕ → Type 0
Bounded depth d [] = Unit
Bounded depth d (h ∷ hs) = (d ≤ count_at h depth) × Bounded depth (suc d) hs

Bounded-mono :
    (old new : List (ℕ × ℕ)) (d : ℕ) (hs : List ℕ)
    → ((h : ℕ) → count_at h old ≤ count_at h new)
    → Bounded old d hs
    → Bounded new d hs
Bounded-mono old new d [] le b = tt
Bounded-mono old new d (h ∷ hs) le b =
    (let l = le h in let l' = b.0 in omega arith, Bounded-mono old new (suc d) hs le b.1)

pub All-Bounded-mono :
    (old new : List (ℕ × ℕ)) (d : List (ℕ × List ℕ))
    → ((h : ℕ) → count_at h old ≤ count_at h new)
    → All (λ e. Bounded old 1 e.1) d
    → All (λ e. Bounded new 1 e.1) d
All-Bounded-mono old new [] le b = tt
All-Bounded-mono old new (e ∷ d) le b =
    (Bounded-mono old new 1 e.1 le b.0, All-Bounded-mono old new d le b.1)

-- A depth may go where its hash does not occur.
Bounded-delete :
    (h : ℕ) (depth : List (ℕ × ℕ)) (d : ℕ) (hs : List ℕ)
    → count h hs ≡ 0
    → Bounded depth d hs
    → Bounded (delete h depth) d hs
Bounded-delete h depth d [] z b = tt
Bounded-delete h depth d (k ∷ hs) z b = (
  ground (arith, get-delete k h depth, b.0, z),
  Bounded-delete h depth (suc d) hs (ground (arith, z)) b.1,
)

pub All-Bounded-delete :
    (h : ℕ) (depth : List (ℕ × ℕ)) (d : List (ℕ × List ℕ))
    → total h d ≡ 0
    → All (λ e. Bounded depth 1 e.1) d
    → All (λ e. Bounded (delete h depth) 1 e.1) d
All-Bounded-delete h depth [] z b = tt
All-Bounded-delete h depth ((i, hs) ∷ d) z b =
    (Bounded-delete h depth 1 hs (omega arith) b.0, All-Bounded-delete h depth d (omega arith) b.1)

pub put-Bounded :
    (i : ℕ) (hs : List ℕ) (d : List (ℕ × List ℕ)) (depth : List (ℕ × ℕ))
    → All (λ e. Bounded depth 1 e.1) d
    → Bounded depth 1 hs
    → All (λ e. Bounded depth 1 e.1) (put i hs d)
unfolding put
put-Bounded i hs [] depth b k = (k, tt)
put-Bounded i hs ((j, ks) ∷ d) depth b k = elim (Bool-cases (j == i)) [
  | inl same ↦ rw same (k, b.1)
  | inr other ↦ rw other (b.0, put-Bounded i hs d depth b.1 k)
]

pub delete-Bounded :
    (i : ℕ) (d : List (ℕ × List ℕ)) (depth : List (ℕ × ℕ))
    → All (λ e. Bounded depth 1 e.1) d
    → All (λ e. Bounded depth 1 e.1) (delete i d)
unfolding delete
delete-Bounded i [] depth b = tt
delete-Bounded i ((j, ks) ∷ d) depth b = elim (Bool-cases (j == i)) [
  | inl same ↦ rw same (delete-Bounded i d depth b.1)
  | inr other ↦ rw other (b.0, delete-Bounded i d depth b.1)
]
