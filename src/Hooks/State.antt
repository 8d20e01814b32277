-- ===== src/Hooks/State.antt =====
-- The state that `_install` keeps in its closure, `_intern`, `_sync` and `_validate_sync`. The
-- flag `_PHASE_TRACKING` is on wherever the hooks are installed, and the profiling counters are
-- left out. A time is only copied.
use peek.Prelude.{
  ℕ, ◌+◌, List, [], ◌∷◌, map, Option, none, some, Bool, true, false, ◌&&◌, length, if◌then◌else◌,
  ◌==◌, tuple_beq, nat_eq, tuple_eq, ◌>>=◌,
}
use peek.Prelude.Membership.{contains, select_out}
use peek.Prelude.Dict.{get, put, delete, add, discard, set_of, set_beq}
use peek.Lpm.Data.{Req, rid_of, tokens_of}

-- What the hooks use of the `PendingTree` of the Rust core: `insert` fails, by a ValueError, where
-- the rid is in the tree already.
pub record PendingTree : Type 1 where
  pub Tree : Type 0
  pub empty : Tree
  pub insert_rid : ℕ → List ℕ → Tree → Option Tree
  pub discard_rid : ℕ → Tree → Tree
  pub tokens : ℕ → Tree → Option (List ℕ)

abbrev pub is_some {ℓ} : {A : Type ℓ} → Option A → Bool
is_some none = false
is_some (some a) = true

-- `{"arrive_ts": ..., "pick_ts": ...}`, of which the second may be missing.
pub record Slot : Type 0 where
  pub arrive_ts : ℕ
  pub pick_ts : Option ℕ

-- The pick time of a request that has left the queue.
unfoldable pub close : ℕ → List ℕ → List (List ℕ × Slot) → List (List ℕ × Slot)
close now rid timings = elim (get rid timings) [
  | none ↦ timings
  | some slot ↦
      if is_some slot.pick_ts then timings else put rid (record slot { pick_ts = some now }) timings
]

unfoldable pub close_all : ℕ → List (List ℕ) → List (List ℕ × Slot) → List (List ℕ × Slot)
close_all now [] timings = timings
close_all now (rid ∷ rids) timings = close_all now rids (close now rid timings)

-- The counts of `_validate_sync`, and `wq_ints`.
pub record Report : Type 0 where
  pub missing : ℕ
  pub token_mismatches : ℕ
  pub wq_ints : List ℕ

abbrev pub check_stored : Req → ℕ → Option (List ℕ) → Report → Report
check_stored r i none rep = record rep { missing = rep.missing + 1; wq_ints = add i rep.wq_ints }
check_stored r i (some stored) rep = record rep {
  token_mismatches =
      if tuple_beq stored (tokens_of r) then rep.token_mismatches else rep.token_mismatches + 1;
  wq_ints = add i rep.wq_ints;
}

-- What the scheduler does: it synchronises the queue at a time, or ranks it.
pub data Event : Type 0 where
  sync_at : ℕ → List Req → Event
  rank : List Req → Event

module _ (pt : PendingTree) where
  pub record Hook : Type 0 where
    pub rid_interner : List (List ℕ × ℕ)
    pub rid_unintern : List (ℕ × List ℕ)
    pub counter : ℕ
    pub tree : pt.Tree
    pub seen : List ℕ
    pub last_rids : List (List ℕ)
    pub phase_timings : List (List ℕ × Slot)

  abbrev pub new_hook : Hook
  new_hook = record {
    rid_interner = [];
    rid_unintern = [];
    counter = 0;
    tree = pt.empty;
    seen = [];
    last_rids = [];
    phase_timings = [];
  }

  -- The state after `rid` was given the next number.
  abbrev pub named_anew : List ℕ → Hook → Hook
  named_anew rid st = record st {
    counter = st.counter + 1;
    rid_interner = put rid (st.counter + 1) st.rid_interner;
    rid_unintern = put (st.counter + 1) rid st.rid_unintern;
  }

  -- `_intern`
  unfoldable pub intern : List ℕ → Hook → Hook × ℕ
  intern rid st = elim (get rid st.rid_interner) [
    | some i ↦ (st, i)
    | none ↦ (named_anew rid st, st.counter + 1)
  ]

  -- Inserted anew where the tree has the rid; none where even that fails.
  unfoldable pub insert_anew : ℕ → List ℕ → pt.Tree → Option pt.Tree
  insert_anew i ts t = elim (pt.insert_rid i ts t) [
    | some t' ↦ some t'
    | none ↦ pt.insert_rid i ts (pt.discard_rid i t)
  ]

  abbrev pub tracked_in : pt.Tree → ℕ → ℕ → Req → Hook → Hook
  tracked_in t now i r st = record st {
    tree = t;
    seen = add i st.seen;
    phase_timings = put r.rid (record { arrive_ts = now; pick_ts = none }) st.phase_timings;
  }

  -- A rid that is not tracked yet, at the time `now`.
  unfoldable pub track : ℕ → ℕ → Req → Hook → Option Hook
  track now i r st = insert_anew i (tokens_of r) st.tree >>= λ t. some (tracked_in t now i r st)

  -- A request of the queue, and the interned rids of those before it.
  unfoldable pub enter : ℕ → Req → Hook × List ℕ → Option (Hook × List ℕ)
  enter now r (st, current) =
      let (st', i) = intern r.rid st in
      if contains st'.seen i
      then some (st', add i current)
      else track now i r st' >>= λ st''. some (st'', add i current)

  unfoldable pub enter_all : ℕ → List Req → Hook × List ℕ → Option (Hook × List ℕ)
  enter_all now [] s = some s
  enter_all now (r ∷ rs) s = enter now r s >>= λ s'. enter_all now rs s'

  -- `rid_interner.pop(_departed, None)`, where there is a rid.
  unfoldable pub forget : ℕ → Hook → Hook
  forget i st = elim (get i st.rid_unintern) [
    | none ↦ st
    | some rid ↦ record st {
      rid_unintern = delete i st.rid_unintern;
      rid_interner = delete rid st.rid_interner;
    }
  ]

  unfoldable pub leave : ℕ → Hook → Hook
  leave i st = forget i (record st { tree = pt.discard_rid i st.tree; seen = discard i st.seen })

  -- The loop over a copy of the tracked rids.
  unfoldable pub leave_all : List ℕ → List ℕ → Hook → Hook
  leave_all current [] st = st
  leave_all current (i ∷ is) st =
      leave_all current is (if contains current i then st else leave i st)

  abbrev pub settled : ℕ → List (List ℕ) → List (List ℕ) → Hook → Hook
  settled now current_strs last_rids st = record st {
    phase_timings = close_all now (select_out current_strs last_rids) st.phase_timings;
    last_rids = current_strs;
  }

  unfoldable pub sync_slow : ℕ → List Req → Hook → Option Hook
  sync_slow now wq st = enter_all now wq (st, []) >>= λ entered. some (
      settled now (set_of (map rid_of wq)) st.last_rids
        (leave_all entered.1 entered.0.seen entered.0))

  -- `_sync`; none where an exception is raised.
  unfoldable pub sync : ℕ → List Req → Hook → Option Hook
  sync now wq st =
      if (length wq == length st.last_rids) && set_beq (set_of (map rid_of wq)) st.last_rids
      then some st
      else sync_slow now wq st

  unfoldable pub check_req : Hook → Req → Report → Report
  check_req st r rep = elim (get r.rid st.rid_interner) [
    | none ↦ record rep { missing = rep.missing + 1 }
    | some i ↦ check_stored r i (pt.tokens i st.tree) rep
  ]

  unfoldable pub check_all : Hook → List Req → Report → Report
  check_all st [] rep = rep
  check_all st (r ∷ rs) rep = check_all st rs (check_req st r rep)

  -- `(missing, extra, token_mismatches)`
  unfoldable pub validate_sync : List Req → Hook → ℕ × ℕ × ℕ
  validate_sync wq st =
      let rep = check_all st wq (record { missing = 0; token_mismatches = 0; wq_ints = [] }) in
      (rep.missing, length (select_out rep.wq_ints st.seen), rep.token_mismatches)

  -- `{r.rid: _intern(r.rid) for r in waiting_queue}`, of `_patched_calc_priority`, as the state.
  unfoldable pub intern_all : List Req → Hook → Hook
  intern_all [] st = st
  intern_all (r ∷ rs) st = intern_all rs (intern r.rid st).0

  unfoldable pub step : Event → Hook → Option Hook
  step (sync_at now wq) st = sync now wq st
  step (rank wq) st = some (intern_all wq st)

  unfoldable pub run : List Event → Hook → Option Hook
  run [] st = some st
  run (ev ∷ evs) st = step ev st >>= λ st'. run evs st'
