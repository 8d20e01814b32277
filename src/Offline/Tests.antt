-- ===== src/Offline/Tests.antt =====
-- The engine's theorems at small inputs.
use mathlib.Core.List.{Perm}
use peek.Prelude.{
  ap, ℕ, ◌+◌, ◌/◌, ◌<◌, ◌≡◌, refl, List, [], ◌∷◌, Option, none, some, ◌>>=◌, map, select, arith,
  ltb, ◌==◌, true, false, tuple_eq, tuple_beq, take, if◌then◌else◌,
}
use peek.Prelude.Int.{ℤ, pos}
use peek.Prelude.Membership.{contains}
use peek.Offline.Requests.{Request, Match, TreeCache, Tagged}
use peek.Offline.Tags.{parse_peek_rid, tag, parse_peek_rid-tag}
use peek.Offline.Tagged.{collect, run_tagged, Stat}
use peek.Reorder.Dispatcher.{Dispatcher, new_dispatcher, enrol}
use peek.Offline.Removal.{remove_scheduled}
use peek.Offline.Grouped.{has_tag}
use peek.Offline.Full.{Matched, GroupStat}
use mathlib.Core.List.Perm
use peek.Offline.Run.{Cycle, Policy, IsPolicy, has_peek_tags, run_cycle, run_cycle-perm}
use peek.Offline.Store.{
  Call, server_updates, client_updates, server_pushes, client_pops, after, get_cache_frac,
  get_client_pending, pop_scheduled, latest_frac, latest_pending, unread_rids, history-refines,
}
use peek.Offline.Refs.{
  Refs, protect_all, reset_protection, is_protected, protect_all-reset_protection,
}

-- A rid with colons of its own.
abbrev rid : List ℕ
rid = b'a' ∷ b':' ∷ b'1' ∷ []

parse_peek_rid-tag_example : parse_peek_rid (tag 12 345 rid) ≡ some (pos 12, pos 345, rid)
parse_peek_rid-tag_example = parse_peek_rid-tag 12 345 rid

-- A tree cache that holds the prefix 1, 2 at the node 7. The state counts the matches.
abbrev hit : List ℕ → Match ℕ
hit ids =
    let found = tuple_beq (take 2 ids) (1 ∷ 2 ∷ []) in
    record {
      device_indices = if found then 10 ∷ 11 ∷ [] else [];
      last_device_node = if found then some 7 else none;
      last_host_node = none;
      host_hit_length = 0;
    }

abbrev cache : TreeCache ℕ ℕ
cache = record {
  match_prefix = λ ids extra c. (c + 1, hit ids);
  last_access_time = λ node c. 5;
  inc_queue_ref = λ node c. c;
  total_size = λ c. some 100;
}

abbrev request : Option (List ℕ) → List ℕ → Request
request name ids = record {
  rid = name;
  origin_input_ids = ids;
  output_ids = [];
  extra_key = none;
  entry_time = 3;
}

-- Two groups, the hash 9 twice and the hash 8, whose prefix is cached, and one without a tag.
abbrev cold : Request
cold = request (some (tag 0 9 rid)) (4 ∷ 5 ∷ [])

abbrev warm : Request
warm = request (some (tag 1 8 rid)) (1 ∷ 2 ∷ 3 ∷ [])

abbrev plain : Request
plain = request (some rid) (1 ∷ [])

abbrev queue : List Request
queue = cold ∷ plain ∷ warm ∷ cold ∷ []

abbrev tagged : ℕ → ℕ → Request → Tagged
tagged r k req = record { rank = pos r; key = pos k; request = req }

abbrev tags : List Tagged
tags = tagged 0 9 cold ∷ tagged 1 8 warm ∷ tagged 0 9 cold ∷ []

warm_first :
    (run_tagged cache (λ i. 20 + i) 30 [] queue 0 >>= λ o. some (map (λ x. x.0) o.waiting_queue))
    ≡ some (warm ∷ cold ∷ cold ∷ [])
unfolding run_tagged tag
warm_first = refl

-- A client's dispatcher that has submitted the request of these tests.
abbrev client : Dispatcher
client = enrol (λ key. 9) (4 ∷ 5 ∷ []) rid (new_dispatcher 8)

-- It is withdrawn when it is scheduled.
withdrawn :
    (remove_scheduled (cold ∷ []) (some client) >>= λ o. o >>= λ d. some d.trie.num_prompts)
    ≡ some 0
unfolding remove_scheduled tag enrol
withdrawn = refl

abbrev stat : Stat cache
stat = record {
  group_key = pos 8;
  dfs_rank = pos 1;
  members = tagged 1 8 warm ∷ [];
  prefix_len = 3;
  matched = hit (1 ∷ 2 ∷ 3 ∷ []);
  eviction_risk = 15;
}

abbrev matched : Request → List ℕ → Matched ℕ
matched r cached = record { request = r; prefix_indices = cached; last_node = some 7 }

abbrev full_queue : List (Matched ℕ)
full_queue = matched cold [] ∷ matched warm (10 ∷ []) ∷ matched plain [] ∷ matched cold [] ∷ []

-- A policy that matches nothing, and leaves the queue as it is.
abbrev policy : Policy ℕ ℕ
policy = record {
  compute_prefix_matches = λ rs c. (c + 1, (map (λ r. matched r []) rs, []));
  sort_by_longest_prefix = λ late ms. ms;
}

requests-matched : (rs : List Request) → map (λ m. m.request) (map (λ r. matched r []) rs) ≡ rs
requests-matched [] = refl
requests-matched (r ∷ rs) = ap (◌∷◌ r) (requests-matched rs)

policy-IsPolicy : IsPolicy policy
policy-IsPolicy = record { matched = λ rs c. requests-matched rs; sorted = λ late ms. Perm.rfl }

abbrev mixed : List Request
mixed = plain ∷ cold ∷ warm ∷ cold ∷ []

-- The two requests with one prefix come first.
grouped :
    (run_cycle cache policy (λ key. pos 9) (λ i. i) 30 [] mixed 0 >>= λ o. some o.waiting_queue)
    ≡ some (cold ∷ cold ∷ warm ∷ plain ∷ [])
unfolding run_cycle tag
grouped = refl

mixed-collected : collect mixed ≡ some tags
unfolding collect tag
mixed-collected = refl

run_cycle-perm_example :
    (o : Cycle ℕ ℕ) × (run_cycle cache policy (λ key. pos 9) (λ i. i) 30 [] mixed 0 ≡ some o)
    × Perm o.waiting_queue (if has_peek_tags mixed then select has_tag mixed else mixed)
run_cycle-perm_example =
    run_cycle-perm cache policy (λ key. pos 9) (λ i. i) 30 [] mixed 0 tags policy-IsPolicy
      mixed-collected

abbrev group : List ℕ → ℕ → GroupStat ℕ
group key len = record {
  key = key;
  normal = matched cold [] ∷ [];
  queue_count = 1;
  prefix_len = len;
  total_cached = 0;
  rep_node = none;
  rep_cached = 0;
}

abbrev groups : List (GroupStat ℕ)
groups = group (1 ∷ []) 4 ∷ group (2 ∷ []) 3 ∷ group (3 ∷ []) 1 ∷ []

abbrev keys : List (List ℕ)
keys = (1 ∷ []) ∷ []

one_in : contains keys (1 ∷ []) ≡ true
unfolding contains
one_in = refl

two_out : contains keys (2 ∷ []) ≡ false
unfolding contains
two_out = refl

abbrev history : List (Call ℕ)
history =
    client_pops
    ∷ server_updates ((pos 8, 3) ∷ [])
    ∷ server_pushes (rid ∷ [])
    ∷ client_updates ((pos 9, 2) ∷ [])
    ∷ server_updates ((pos 8, 1) ∷ (pos 9, 4) ∷ [])
    ∷ []

history-refines_example :
    ((k : ℤ) → get_cache_frac k (after history) ≡ latest_frac k history)
    × (get_client_pending (after history) ≡ latest_pending history)
    × ((pop_scheduled (after history)).0 ≡ unread_rids history)
history-refines_example = history-refines history

-- The nodes 1 to 3 under the root 0, the last two under 1, which have the protection.
half : (n : ℕ) → (n == 0) ≡ false → n / 2 < n
half n h = ground (arith, h)

protect_all-reset_protection_example :
    (refs' : Refs) × (refs'' : Refs) × (protect_all 0 (λ n. n / 2) 4 (3 ∷ 2 ∷ []) (λ x. 0)
      ≡ some refs')
    × (reset_protection 0 (λ n. n / 2) 4 (some (3 ∷ 2 ∷ [])) refs' ≡ some refs'')
    × ((x : ℕ) → ltb 0 (refs' x) ≡ is_protected 0 (λ n. n / 2) 4 (3 ∷ 2 ∷ []) x)
    × ((x : ℕ) → refs'' x ≡ 0)
protect_all-reset_protection_example =
    protect_all-reset_protection 0 (λ n. n / 2) (λ n. n) half 4 (3 ∷ 2 ∷ []) (λ x. 0)
      (omega arith, (omega arith, tt)) (λ x. refl)
