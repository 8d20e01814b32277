-- ===== src/Scheduler/Cached.antt =====
-- `vllm_cached_prefix_length` and `sglang_cached_prefix_length`: how much of a prefix is cached.
use mathlib.Core.Option.{some_inj}
use peek.Prelude.{
  sym, subst, ℕ, suc, ◌+◌, ◌≤◌, ◌≡◌, inl, inr, List, [], ◌∷◌, Option, none, some, Bool, false, ◌&&◌,
  not, arith, length, take, drop, get_elem?, All, if◌then◌else◌, ltb, ◌==◌, tuple_beq, Bool-cases,
}
use peek.Trie.Data.{is_nil}

-- `block_pool.get_cached_block`, of vLLM, is the parameter: the blocks of a hash, none where it is
-- not cached.
module _ (get_cached_block : ℕ → List ℕ) where
  unfoldable pub vllm_cached_prefix_length : List ℕ → ℕ
  vllm_cached_prefix_length [] = 0
  vllm_cached_prefix_length (bh ∷ bhs) =
      if is_nil (get_cached_block bh) then 0 else suc (vllm_cached_prefix_length bhs)

  abbrev pub IsHit : ℕ → Type 0
  IsHit bh = is_nil (get_cached_block bh) ≡ false

  -- The number of hits before the first miss.
  pub record IsLongest (bhs : List ℕ) (n : ℕ) : Type 0 where
    pub bounded : n ≤ length bhs
    pub hits : All IsHit (take n bhs)
    pub miss : (bh : ℕ) → get_elem? bhs n ≡ some bh → ¬ IsHit bh

  -- `vllm_cached_prefix_length` is the length of the longest prefix whose blocks are all cached.
  pub vllm_cached_prefix_length-IsLongest :
      (bhs : List ℕ) → IsLongest bhs (vllm_cached_prefix_length bhs)
  unfolding vllm_cached_prefix_length
  vllm_cached_prefix_length-IsLongest [] = record {
    bounded = omega arith;
    hits = tt;
    miss = λ bh e. cc;
  }
  vllm_cached_prefix_length-IsLongest (b ∷ bhs) = elim (Bool-cases (is_nil (get_cached_block b))) [
    | inl e ↦ rw e (record {
      bounded = omega arith;
      hits = tt;
      miss = λ bh q h. let q' = some_inj.0 q in let h' = subst IsHit (sym q') h in cc;
    })
    | inr e ↦
        let i = vllm_cached_prefix_length-IsLongest bhs in
        rw e (record { bounded = omega (arith, i.bounded); hits = (e, i.hits); miss = i.miss })
  ]

-- The children of a node of SGLang's radix cache by their first tokens: a child's key, the token
-- sequence of its edge, if it has one, and whether its value is None, that is, evicted.
pub data Radix : Type 0 where
  no_edge : Radix
  edge : (token : ℕ) (key : Option (List ℕ)) (evicted : Bool) (children rest : Radix) → Radix

abbrev pub key_length : Option (List ℕ) → ℕ
key_length none = 1
key_length (some key) = length key

-- A key of more than one token is compared with the tokens.
abbrev pub edge_differs : Option (List ℕ) → List ℕ → Bool
edge_differs none tokens = false
edge_differs (some key) tokens =
    ltb 1 (length key) && not (tuple_beq key (take (length key) tokens))

unfoldable pub sglang_cached_prefix_length : Radix → List ℕ → ℕ
sglang_cached_prefix_length no_edge token_ids = 0
sglang_cached_prefix_length (edge token key evicted children rest) [] = 0
sglang_cached_prefix_length (edge token key evicted children rest) (t ∷ ts) =
    if token == t
    then if ltb (length (t ∷ ts)) (key_length key)
      then 0
      else if edge_differs key (t ∷ ts)
      then 0
      else if evicted
      then 0
      else key_length key + sglang_cached_prefix_length children (drop (key_length key) (t ∷ ts))
    else sglang_cached_prefix_length rest (t ∷ ts)
