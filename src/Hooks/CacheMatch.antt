-- ===== src/Hooks/CacheMatch.antt =====
-- online/engines/sglang/patch_hook.py: `_cache_match`, the walk down SGLang's radix cache.
use peek.Prelude.{ℕ, suc, ◌+◌, List, [], ◌∷◌, if◌then◌else◌, ltb, ◌==◌, length, drop}

-- The children of a node, by the first token; each with its key and its own children.
pub data Edges : Type 0 where
  no_edge : Edges
  edge : (first : ℕ) (key : List ℕ) (children rest : Edges) → Edges

-- `common`
unfoldable pub common : List ℕ → List ℕ → ℕ
common [] rem = 0
common (a ∷ key) [] = 0
common (a ∷ key) (b ∷ bs) = let rest = common key bs in if a == b then suc rest else 0

-- What `_cache_match` adds to `consumed`.
unfoldable pub cache_match : Edges → List ℕ → ℕ
unfolding common
cache_match no_edge tokens = 0
cache_match (edge first key children rest) [] = 0
cache_match (edge first key children rest) (t ∷ ts) =
    let matched = common key (t ∷ ts) in
    let below = cache_match children (drop matched (t ∷ ts)) in
    let beside = cache_match rest (t ∷ ts) in
    if first == t then (if ltb matched (length key) then matched else matched + below) else beside
