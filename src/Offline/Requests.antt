-- ===== src/Offline/Requests.antt =====
-- python/peek/offline/engine.py: what the engine reads of SGLang's requests and its tree cache.
-- Times are whole milliseconds.
use peek.Prelude.{ℕ, List, Option}
use peek.Prelude.Int.{ℤ}

-- `rid` is none where it is no str, and `entry_time` is 0 where there are no time statistics.
pub record Request : Type 0 where
  pub rid : Option (List ℕ)
  pub origin_input_ids : List ℕ
  pub output_ids : List ℕ
  pub extra_key : Option ℕ
  pub entry_time : ℕ

-- What a match in the tree cache tells, whose nodes are `N`.
pub record Match (N : Type 0) : Type 0 where
  pub device_indices : List ℕ
  pub last_device_node : Option N
  pub last_host_node : Option N
  pub host_hit_length : ℕ

-- SGLang's tree cache, a state `C`. A match may change it. `total_size` is none where the call
-- raises an exception.
pub record TreeCache (C N : Type 0) : Type 0 where
  pub match_prefix : List ℕ → Option ℕ → C → C × Match N
  pub last_access_time : N → C → ℕ
  pub inc_queue_ref : N → C → C
  pub total_size : C → Option ℕ

-- A request with a tag: the rank and the hash of its group.
pub record Tagged : Type 0 where
  pub rank : ℤ
  pub key : ℤ
  pub request : Request
