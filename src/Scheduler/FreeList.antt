-- ===== src/Scheduler/FreeList.antt =====
-- A queue of free blocks as a list, which satisfies what `popleft_queue_aware` relies on.
use mathlib.Core.List.{Perm, Mem, mem-cons, not-mem-nil}
use mathlib.Core.List.Perm
use mathlib.Core.Logic.Or
use peek.Prelude.{
  inl, inr, sym, ap, subst, Bool-cases, tuple_beq_iff, ℕ, ◌≡◌, refl, List, [], ◌∷◌, Bool, true,
  false, arith, take, drop, tuple_beq, if◌then◌else◌,
}
use peek.Scheduler.RefCounts.{Block, block}
use peek.Scheduler.Victims.{IsQueue}

abbrev pub take_first : ℕ → List Block → List Block × List Block
take_first n free = (take n free, drop n free)

abbrev bit : Bool → ℕ
bit true = 1
bit false = 0

abbrev code : Block → List ℕ
code b = b.block_id ∷ bit b.is_null ∷ b.queue_ref_count ∷ []

decode :
    (i n j m : ℕ) (x y : Bool) → code (block i x n) ≡ code (block j y m) → block i x n ≡ block j y m
decode i n j m true true h = let (p, q) = fields h in rw (p, q) refl
  where
    fields : i ∷ 1 ∷ n ∷ [] ≡ j ∷ 1 ∷ m ∷ [] → (i ≡ j) × (n ≡ m)
    fields k = (cc, cc)
decode i n j m false false h = let (p, q) = fields h in rw (p, q) refl
  where
    fields : i ∷ 0 ∷ n ∷ [] ≡ j ∷ 0 ∷ m ∷ [] → (i ≡ j) × (n ≡ m)
    fields k = (cc, cc)
decode i n j m true false h = absurd (let e : bit true ≡ bit false = second h in omega (arith, e))
  where
    second : i ∷ 1 ∷ n ∷ [] ≡ j ∷ 0 ∷ m ∷ [] → bit true ≡ bit false
    second k = cc
decode i n j m false true h = absurd (let e : bit false ≡ bit true = second h in omega (arith, e))
  where
    second : i ∷ 0 ∷ n ∷ [] ≡ j ∷ 1 ∷ m ∷ [] → bit false ≡ bit true
    second k = cc

abbrev pub unlink : Block → List Block → List Block
unlink b [] = []
unlink b (x ∷ xs) = if tuple_beq (code b) (code x) then xs else x ∷ unlink b xs

unlink-perm : (b : Block) (free : List Block) → Mem b free → Perm free (b ∷ unlink b free)
unlink-perm b [] m = absurd (not-mem-nil m)
unlink-perm b (x ∷ xs) m = elim (Bool-cases (tuple_beq (code b) (code x))) [
  | inl same ↦
      let e =
        decode b.block_id b.queue_ref_count x.block_id x.queue_ref_count b.is_null x.is_null
          ((tuple_beq_iff (code b) (code x)).0 same) in
      rw same (subst (λ y. Perm (x ∷ xs) (y ∷ xs)) (sym e) Perm.rfl)
  | inr other ↦
      let n =
        Or.elim (hlevel) (mem-cons.0 m)
          (λ q. absurd (let t = (tuple_beq_iff (code b) (code x)).1 (ap code q) in cc)) (λ k. k) in
      rw other (Perm.trans (Perm.cons x (unlink-perm b xs n)) (Perm.swap b x (unlink b xs)))
]

pub list-IsQueue : IsQueue take_first unlink
list-IsQueue = record { popleft = λ n free h. refl; removes = unlink-perm }
