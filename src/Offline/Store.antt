-- ===== src/Offline/Store.antt =====
-- python/peek/offline/engine.py: CacheStateStore, which the server and the client share. A method
-- holds the lock for its whole body, so that a history is a sequence of calls.
use peek.Prelude.{ℕ, ◌≡◌, refl, List, [], ◌∷◌, Option, none, some, if◌then◌else◌}
use peek.Prelude.Int.{ℤ, int_eq}
use peek.Prelude.Dict.{get, put, get-put}

-- `Frac` is the type of the cached fractions.
pub record Store (Frac : Type 0) : Type 0 where
  pub group_cache_frac : List (ℤ × Frac)
  pub client_pending : List (ℤ × ℕ)
  pub scheduled_rids : List (List ℕ)

module _ {Frac : Type 0} where
  abbrev pub new_store : Store Frac
  new_store = record { group_cache_frac = []; client_pending = []; scheduled_rids = [] }

  -- `d.update(items)`
  unfoldable pub update_dict : List (ℤ × Frac) → List (ℤ × Frac) → List (ℤ × Frac)
  unfolding put
  update_dict d [] = d
  update_dict d ((k, v) ∷ items) = update_dict (put k v d) items

  unfoldable pub update : List (ℤ × Frac) → Store Frac → Store Frac
  unfolding update_dict
  update group_fracs st = record st {
    group_cache_frac = update_dict st.group_cache_frac group_fracs;
  }

  -- none where the source answers -1.
  unfoldable pub get_cache_frac : ℤ → Store Frac → Option Frac
  unfolding get
  get_cache_frac k st = get k st.group_cache_frac

  abbrev pub update_client_pending : List (ℤ × ℕ) → Store Frac → Store Frac
  update_client_pending pending st = record st { client_pending = pending }

  abbrev pub get_client_pending : Store Frac → List (ℤ × ℕ)
  get_client_pending st = st.client_pending

  abbrev pub push_scheduled : List (List ℕ) → Store Frac → Store Frac
  push_scheduled rids st = record st { scheduled_rids = rids }

  abbrev pub pop_scheduled : Store Frac → List (List ℕ) × Store Frac
  pop_scheduled st = (st.scheduled_rids, record st { scheduled_rids = [] })

-- A call that changes the store.
pub data Call (Frac : Type 0) : Type 0 where
  server_updates : List (ℤ × Frac) → Call Frac
  client_updates : List (ℤ × ℕ) → Call Frac
  server_pushes : List (List ℕ) → Call Frac
  client_pops : Call Frac

module _ {Frac : Type 0} where
  abbrev pub call : Call Frac → Store Frac → Store Frac
  call (server_updates fracs) st = update fracs st
  call (client_updates pending) st = update_client_pending pending st
  call (server_pushes rids) st = push_scheduled rids st
  call client_pops st = (pop_scheduled st).1

  -- The store after some calls, the latest call first.
  unfoldable pub after : List (Call Frac) → Store Frac
  unfolding update
  after [] = new_store
  after (c ∷ earlier) = call c (after earlier)

  -- What an item list says of a key, in its last place, or else what was known.
  abbrev pub last_of : ℤ → List (ℤ × Frac) → Option Frac → Option Frac
  last_of k [] known = known
  last_of k ((j, v) ∷ items) known = last_of k items (if int_eq.beq j k then some v else known)

  -- The specification reads the answers off the history.
  abbrev pub latest_frac : ℤ → List (Call Frac) → Option Frac
  latest_frac k [] = none
  latest_frac k (server_updates fracs ∷ earlier) = last_of k fracs (latest_frac k earlier)
  latest_frac k (client_updates pending ∷ earlier) = latest_frac k earlier
  latest_frac k (server_pushes rids ∷ earlier) = latest_frac k earlier
  latest_frac k (client_pops ∷ earlier) = latest_frac k earlier

  abbrev pub latest_pending : List (Call Frac) → List (ℤ × ℕ)
  latest_pending [] = []
  latest_pending (client_updates pending ∷ earlier) = pending
  latest_pending (server_updates fracs ∷ earlier) = latest_pending earlier
  latest_pending (server_pushes rids ∷ earlier) = latest_pending earlier
  latest_pending (client_pops ∷ earlier) = latest_pending earlier

  abbrev pub unread_rids : List (Call Frac) → List (List ℕ)
  unread_rids [] = []
  unread_rids (server_pushes rids ∷ earlier) = rids
  unread_rids (client_pops ∷ earlier) = []
  unread_rids (server_updates fracs ∷ earlier) = unread_rids earlier
  unread_rids (client_updates pending ∷ earlier) = unread_rids earlier

  get-update_dict :
      (k : ℤ) (items d : List (ℤ × Frac)) → get k (update_dict d items) ≡ last_of k items (get k d)
  unfolding update_dict
  get-update_dict k [] d = refl
  get-update_dict k ((j, v) ∷ items) d =
      rw (get-update_dict k items (put j v d), get-put k j v d) refl

  fracs_after : (k : ℤ) (h : List (Call Frac)) → get_cache_frac k (after h) ≡ latest_frac k h
  unfolding get_cache_frac after update get
  fracs_after k [] = refl
  fracs_after k (server_updates fracs ∷ earlier) =
      rw (get-update_dict k fracs (after earlier).group_cache_frac, fracs_after k earlier) refl
  fracs_after k (client_updates pending ∷ earlier) = fracs_after k earlier
  fracs_after k (server_pushes rids ∷ earlier) = fracs_after k earlier
  fracs_after k (client_pops ∷ earlier) = fracs_after k earlier

  pending_after : (h : List (Call Frac)) → get_client_pending (after h) ≡ latest_pending h
  unfolding after update
  pending_after [] = refl
  pending_after (server_updates fracs ∷ earlier) = pending_after earlier
  pending_after (client_updates pending ∷ earlier) = refl
  pending_after (server_pushes rids ∷ earlier) = pending_after earlier
  pending_after (client_pops ∷ earlier) = pending_after earlier

  rids_after : (h : List (Call Frac)) → (pop_scheduled (after h)).0 ≡ unread_rids h
  unfolding after update
  rids_after [] = refl
  rids_after (server_updates fracs ∷ earlier) = rids_after earlier
  rids_after (client_updates pending ∷ earlier) = rids_after earlier
  rids_after (server_pushes rids ∷ earlier) = refl
  rids_after (client_pops ∷ earlier) = refl

  -- After any sequence of calls, the store answers what the history says: a group's fraction is
  -- the last one that the server pushed for it, the pending counts are the client's last ones,
  -- and the scheduled rids are those of the server's last push, unless they were read since.
  pub history-refines :
      (h : List (Call Frac))
      → ((k : ℤ) → get_cache_frac k (after h) ≡ latest_frac k h)
        × (get_client_pending (after h) ≡ latest_pending h)
        × ((pop_scheduled (after h)).0 ≡ unread_rids h)
  history-refines h = (λ k. fracs_after k h, pending_after h, rids_after h)
