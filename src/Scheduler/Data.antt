-- ===== src/Scheduler/Data.antt =====
-- The requests in the waiting queues, with the attributes that the hooks read.
use peek.Prelude.{ℕ, List, [], ◌∷◌, Option, none, some}

-- A vLLM request.
pub record VllmRequest : Type 0 where
  pub request_id : ℕ
  pub block_hashes : List ℕ
  pub num_computed_tokens : ℕ

-- An SGLang request. `last_node` stands for the identity of the node, 0 for that of `None`.
pub record SglangRequest : Type 0 where
  pub rid : ℕ
  pub origin_input_ids : Option (List ℕ)
  pub last_node : ℕ
  pub prefix_indices : List ℕ

-- `ids if ids is not None else []`
abbrev pub ids_or_empty : Option (List ℕ) → List ℕ
ids_or_empty none = []
ids_or_empty (some ids) = ids

abbrev pub token_ids : SglangRequest → List ℕ
token_ids r = ids_or_empty r.origin_input_ids

-- `r.block_hashes[0]`, which raises an IndexError where there is none.
abbrev pub first_of : List ℕ → Option ℕ
first_of [] = none
first_of (h ∷ hs) = some h
