-- ===== src/VllmHooks/Rearranged.antt =====
-- `_reorder_waiting`: what it leaves of the queue, and the hits that it sorts by.
use mathlib.Core.List.{Perm}
use mathlib.Core.List.Perm
use peek.Prelude.{
  ℕ, ◌≡◌, refl, ap, inl, inr, List, [], ◌∷◌, map, some, Bool, true, Bool-cases, tuple_eq, nat_eq,
}
use peek.Scheduler.Rearranges.{Rearranges}
use peek.Lpm.Data.{Req, Inputs, rid_of}
use peek.Lpm.Sort.{IsSortOrder, peek_sort_inplace-Rearranges}
use peek.Lpm.Admission.{peek_clpm_sort_inplace-perm}
use peek.Hooks.State.{PendingTree, Hook, intern_all}
use peek.VllmHooks.Waiting.{
  Request, Settings, Services, compute_main_hits, adapter, inputs, sorted, stays, reorder_waiting,
}

module _ {Tree : Type 0} (sv : Services Tree) (set : Settings) where
  sorted-Rearranges :
      IsSortOrder sv.lpm_sort_order
      → (inp : Inputs) (adapters : List Req) → Rearranges (sorted sv set inp adapters) adapters
  sorted-Rearranges order inp adapters = elim (Bool-cases set.peek_clpm) [
    | inl clpm ↦
        let (out, e, p) = peek_clpm_sort_inplace-perm set.clpm inp adapters in
        rw (clpm, e) (out, refl, p)
    | inr other ↦ rw other (peek_sort_inplace-Rearranges sv.lpm_sort_order order _ inp adapters)
  ]

rids_of_adapters :
    (hits : List (List ℕ × ℕ)) (wq : List Request)
    → map rid_of (map (adapter hits) wq) ≡ map (λ r. r.request_id) wq
unfolding adapter
rids_of_adapters hits [] = refl
rids_of_adapters hits (r ∷ rs) = ap (λ xs. r.request_id ∷ xs) (rids_of_adapters hits rs)

module _ {pt : PendingTree} (sv : Services pt.Tree) (set : Settings) where
  -- Where the Rust core orders the positions it is given, the function returns, and the queue
  -- holds the same requests. A queue with priorities, one of at most one request, and, in peek's
  -- LPM mode, one that is too long, stay as they are, as does every queue without the scheduler.
  pub reorder_waiting-Rearranges :
      IsSortOrder sv.lpm_sort_order
      → (is_fcfs : Bool) (wq : List Request) (st : Hook pt)
      → (out : List (List ℕ)) × (st' : Hook pt) × (reorder_waiting sv set is_fcfs wq st
          ≡ some (out, st'))
        × Perm out (map (λ r. r.request_id) wq)
        × (stays set is_fcfs wq ≡ true → (out ≡ map (λ r. r.request_id) wq) × (st' ≡ st))
  unfolding reorder_waiting
  reorder_waiting-Rearranges order is_fcfs wq st = elim (Bool-cases (stays set is_fcfs wq)) [
    | inl kept ↦ rw kept (_, _, refl, Perm.rfl, λ h. (refl, refl))
    | inr moved ↦
        let hits = compute_main_hits sv wq in
        let st' = intern_all pt (map (adapter hits) wq) st in
        let (out, e, p) =
          sorted-Rearranges sv set order (inputs {pt = pt} sv hits st') (map (adapter hits) wq) in
        rw (moved, e) (_, _, refl, rw (← rids_of_adapters hits wq) (Perm.map rid_of p), λ h. cc)
  ]
