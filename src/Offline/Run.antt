-- ===== src/Offline/Run.antt =====
-- python/peek/offline/engine.py: `run`, `_has_peek_tags` and `_run_full`, from its second step on.
use mathlib.Core.List.{Perm}
use mathlib.Core.List.Perm
use peek.Prelude.{
  ℕ, subst, ◌≡◌, refl, inl, inr, List, [], ◌∷◌, map, Option, none, some, ◌>>=◌, Bool, false, ◌&&◌,
  max, length, select, ltb, if◌then◌else◌, Bool-cases, tuple_eq,
}
use peek.Prelude.Int.{ℤ, int_eq}
use peek.Prelude.Dict.{get, put}
use peek.Scheduler.Detect.{detect_sharing}
use peek.Offline.Requests.{Request, TreeCache, Tagged}
use peek.Offline.Tagged.{collect, run_tagged, inc_all}
use peek.Offline.Grouped.{has_tag, run_tagged-IsServed}
use peek.Offline.Full.{Matched, prefix_key, Reordered, queue_depth_reorder}
use peek.Offline.Ordered.{queue_depth_reorder-IsByDepth}

-- `_has_peek_tags`: the first request tells.
abbrev pub has_peek_tags : List Request → Bool
has_peek_tags [] = false
has_peek_tags (r ∷ rs) = has_tag r

-- What SGLang's `_compute_prefix_matches` and `_sort_by_longest_prefix` do with a tree cache.
pub record Policy (C N : Type 0) : Type 0 where
  pub compute_prefix_matches : List Request → C → C × (List (Matched N) × List (List ℕ))
  pub sort_by_longest_prefix : List (List ℕ) → List (Matched N) → List (Matched N)

-- The one writes into the requests, the other rearranges them.
pub record IsPolicy {C N : Type 0} (policy : Policy C N) : Type 0 where
  pub matched :
      (rs : List Request) (c : C)
      → map (λ m. m.request) (policy.compute_prefix_matches rs c).1.0 ≡ rs
  pub sorted :
      (late : List (List ℕ)) (ms : List (Matched N))
      → Perm (policy.sort_by_longest_prefix late ms) ms

-- What a run leaves: the cache, the queue, the protected nodes and the cached fractions, as the
-- cached and the whole length, by the hash of the group.
pub record Cycle (C N : Type 0) : Type 0 where
  pub cache : C
  pub waiting_queue : List Request
  pub protected_nodes : List N
  pub fracs : List (ℤ × (ℕ × ℕ))

module _ {N : Type 0} where
  -- `detect_sharing_sglang`, which skips requests without tokens.
  abbrev pub shares : List (Matched N) → Bool
  shares ms =
      detect_sharing (map prefix_key (select (λ m. ltb 0 (length m.request.origin_input_ids)) ms))

  -- Step 5: the first request of a group tells. `hash` is Python's, cut off at 32 bits.
  unfoldable pub full_fracs :
      (List ℕ → ℤ) → List (ℤ × (ℕ × ℕ)) → List (Matched N) → List (ℤ × (ℕ × ℕ))
  unfolding get put
  full_fracs hash d [] = d
  full_fracs hash d (m ∷ ms) =
      let key = hash (prefix_key m) in
      let frac : ℕ × ℕ = (length m.prefix_indices, max (length m.request.origin_input_ids) 1) in
      full_fracs hash (elim (get key d) [ none ↦ put key frac d | some old ↦ d ]) ms

module _ {C N : Type 0} (tc : TreeCache C N) (policy : Policy C N) (hash : List ℕ → ℤ) where
  -- Step 3.
  unfoldable pub reorder_full : Option ℕ → List (Matched N) → List (List ℕ) → Reordered N
  unfolding detect_sharing queue_depth_reorder
  reorder_full total ms late =
      if ltb 1 (length ms) && shares ms then queue_depth_reorder total late ms else record {
        waiting_queue = policy.sort_by_longest_prefix late ms;
        nodes = [];
        group_count = length ms;
      }

  unfoldable pub run_full : List Request → C → Cycle C N
  unfolding reorder_full full_fracs
  run_full waiting_queue c =
      let (c', (ms, late)) = policy.compute_prefix_matches waiting_queue c in
      let r = reorder_full (tc.total_size c') ms late in
      record {
        cache = inc_all tc r.nodes c';
        waiting_queue = map (λ m. m.request) r.waiting_queue;
        protected_nodes = r.nodes;
        fracs = full_fracs hash [] r.waiting_queue;
      }

  -- `run`, with the clock's readings of `_run_tagged`. none stands for a ValueError.
  unfoldable pub run_cycle : (ℕ → ℕ) → ℕ → List (ℤ × ℕ) → List Request → C → Option (Cycle C N)
  unfolding run_tagged run_full
  run_cycle monotonic now pending waiting_queue c =
      if has_peek_tags waiting_queue
      then (run_tagged tc monotonic now pending waiting_queue c >>= λ o. some (record {
        cache = o.cache;
        waiting_queue = map (λ x. x.0) o.waiting_queue;
        protected_nodes = o.protected_nodes;
        fracs = o.fracs;
      }))
      else some (run_full waiting_queue c)

  reorder_full-perm :
      IsPolicy policy
      → (total : Option ℕ) (ms : List (Matched N)) (late : List (List ℕ))
      → Perm (reorder_full total ms late).waiting_queue ms
  unfolding reorder_full
  reorder_full-perm ok total ms late = elim (Bool-cases (ltb 1 (length ms) && shares ms)) [
    | inl shared ↦ rw shared (queue_depth_reorder-IsByDepth total late ms).1
    | inr apart ↦ rw apart (ok.sorted late ms)
  ]

  run_full-perm :
      IsPolicy policy → (rs : List Request) (c : C) → Perm (run_full rs c).waiting_queue rs
  unfolding run_full
  run_full-perm ok rs c =
      let (c', (ms, late)) = policy.compute_prefix_matches rs c in
      subst (Perm (run_full rs c).waiting_queue) (ok.matched rs c)
        (Perm.map (λ m. m.request) (reorder_full-perm ok (tc.total_size c') ms late))

  -- Where SGLang's matching keeps the requests and its sort permutes them, and every tag can be
  -- read, a run of the engine raises no error and rearranges the queue; it loses no request when
  -- the first of the queue has no tag, and otherwise exactly those without one.
  pub run_cycle-perm :
      (monotonic : ℕ → ℕ) (now : ℕ) (pending : List (ℤ × ℕ)) (rs : List Request) (c : C)
      → (ts : List Tagged) → IsPolicy policy
      → collect rs ≡ some ts
      → (o : Cycle C N) × (run_cycle monotonic now pending rs c ≡ some o)
        × Perm o.waiting_queue (if has_peek_tags rs then select has_tag rs else rs)
  unfolding run_cycle
  run_cycle-perm monotonic now pending rs c ts ok h = elim (Bool-cases (has_peek_tags rs)) [
    | inl tagged ↦
        let (o, ran, served, perm) = run_tagged-IsServed tc monotonic now pending rs c ts h in
        rw (tagged, ran) (_, refl, perm)
    | inr bare ↦ rw bare (run_full rs c, refl, run_full-perm ok rs c)
  ]
