-- ===== src/Offline/Removal.antt =====
-- The last step of `_run_tagged` of python/peek/offline/engine.py, which removes the requests that
-- are scheduled next from the client's dispatcher, and `_has_peek_tags`.
use peek.Prelude.{
  ℕ, not, ◌||◌, ◌≡◌, refl, inl, inr, List, [], ◌∷◌, Option, none, some, ◌>>=◌, Bool, true, false,
  take, if◌then◌else◌, Bool-cases, All, tuple_eq,
}
use peek.Prelude.Dict.{get, delete}
use peek.Reorder.Dispatcher.{Dispatcher, remove_prompt}
use peek.Reorder.Linked.{IsLinked, unlink-IsLinked}
use peek.Offline.Tags.{is_tagged, starts_with, parse_peek_rid}
use peek.Offline.Requests.{Request, Tagged}

-- `_BATCH_EST`
abbrev pub batch_est : ℕ
batch_est = 32

-- The prompt that was remembered under this rid, by `pop(orig_rid, None)` and `remove`.
abbrev pub remove_info : List ℕ → Dispatcher → Option (List ℕ × ℕ) → Option Dispatcher
remove_info orig d none = some d
remove_info orig d (some (token_ids, i)) =
    remove_prompt token_ids i (record d { rid_to_remove_info = delete orig d.rid_to_remove_info })

abbrev pub remove_rid : List ℕ → Dispatcher → Option Dispatcher
remove_rid rid d =
    if is_tagged rid
    then (parse_peek_rid rid >>= λ (rank, key, orig).
        remove_info orig d (get orig d.rid_to_remove_info))
    else some d

abbrev pub remove_request : Option (List ℕ) → Dispatcher → Option Dispatcher
remove_request none d = some d
remove_request (some rid) d = remove_rid rid d

unfoldable pub remove_each : List Request → Dispatcher → Option Dispatcher
unfolding parse_peek_rid starts_with get delete remove_prompt
remove_each [] d = some d
remove_each (r ∷ rs) d = remove_request r.rid d >>= λ d'. remove_each rs d'

-- `for r in waiting_queue[:_BATCH_EST]`, where there is a dispatcher.
unfoldable pub remove_scheduled : List Request → Option Dispatcher → Option (Option Dispatcher)
unfolding remove_each
remove_scheduled waiting_queue none = some none
remove_scheduled waiting_queue (some d) =
    remove_each (take batch_est waiting_queue) d >>= λ d'. some (some d')

abbrev pub is_some {ℓ} : {A : Type ℓ} → Option A → Bool
is_some none = false
is_some (some a) = true

-- The rid has no tag, or one whose numbers can be read.
abbrev pub can_read : Option (List ℕ) → Bool
can_read none = true
can_read (some rid) = not (is_tagged rid) || is_some (parse_peek_rid rid)

some_value {ℓ} : {A : Type ℓ} (o : Option A) → is_some o ≡ true → (a : A) × (o ≡ some a)
some_value none h = cc
some_value (some a) h = (a, refl)

remove_info-IsLinked :
    (orig : List ℕ) (d : Dispatcher) (o : Option (List ℕ × ℕ))
    → get orig d.rid_to_remove_info ≡ o
    → IsLinked d
    → (d' : Dispatcher) × (remove_info orig d o ≡ some d') × IsLinked d'
remove_info-IsLinked orig d none h l = (d, refl, l)
remove_info-IsLinked orig d (some (token_ids, i)) h l = unlink-IsLinked orig token_ids i d h l

remove_request-IsLinked :
    (o : Option (List ℕ)) (d : Dispatcher)
    → can_read o ≡ true
    → IsLinked d
    → (d' : Dispatcher) × (remove_request o d ≡ some d') × IsLinked d'
remove_request-IsLinked none d h l = (d, refl, l)
remove_request-IsLinked (some rid) d h l = elim (Bool-cases (is_tagged rid)) [
  | inl tagged ↦
      let ((rank, key, orig), e) = some_value (parse_peek_rid rid) (rw tagged at h) in
      rw (tagged, e) (remove_info-IsLinked orig d (get orig d.rid_to_remove_info) refl l)
  | inr bare ↦ rw bare (d, refl, l)
]

pub remove_each-IsLinked :
    (rs : List Request) (d : Dispatcher)
    → All (λ r. can_read r.rid ≡ true) rs
    → IsLinked d
    → (d' : Dispatcher) × (remove_each rs d ≡ some d') × IsLinked d'
unfolding remove_each
remove_each-IsLinked [] d h l = (d, refl, l)
remove_each-IsLinked (r ∷ rs) d h l =
    let (d', e, l') = remove_request-IsLinked r.rid d h.0 l in
    let (d'', e', l'') = remove_each-IsLinked rs d' h.1 l' in (d'', rw e e', l'')
