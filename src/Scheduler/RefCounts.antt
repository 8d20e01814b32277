-- ===== src/Scheduler/RefCounts.antt =====
-- `update_queue_ref_counts`, with the methods of the block pool in vllm_patches/install.py.
use mathlib.Core.List.{map-map, map-id}
use peek.Prelude.{
  ℕ, ◌+◌, ◌≡◌, ◌∙◌, refl, sym, ap, List, [], ◌∷◌, ◌++◌, map, Bool, true, false, ◌&&◌, not, arith,
  length, take, concat, select, length-append, select-append, if◌then◌else◌, ◌==◌, inl, inr,
  Bool-cases,
}
use peek.Trie.Data.{is_nil}
use peek.Scheduler.Data.{VllmRequest}
use peek.Scheduler.Cached.{vllm_cached_prefix_length}

pub record Block : Type 0 where
  pub block_id : ℕ
  pub is_null : Bool
  pub queue_ref_count : ℕ

abbrev pub reset_block : Block → Block
reset_block b = record b { queue_ref_count = 0 }

abbrev pub reset_queue_ref_counts : List Block → List Block
reset_queue_ref_counts blocks = map reset_block blocks

-- One block of the argument, found in the pool by its id.
abbrev pub inc_block : ℕ → Block → Block
inc_block i b =
    if not b.is_null && b.block_id == i
    then record b { queue_ref_count = b.queue_ref_count + 1 }
    else b

unfoldable pub inc_queue_ref_count : List ℕ → List Block → List Block
inc_queue_ref_count [] blocks = blocks
inc_queue_ref_count (i ∷ is) blocks = inc_queue_ref_count is (map (inc_block i) blocks)

-- `get_cached_fn` is the parameter: the ids of the blocks of a hash, none where it is not cached.
module _ (get_cached_fn : ℕ → List ℕ) where
  -- The loop over the block hashes of a request, up to the first miss.
  unfoldable pub count_request : List ℕ → List Block → List Block
  unfolding inc_queue_ref_count
  count_request [] blocks = blocks
  count_request (bh ∷ bhs) blocks =
      if is_nil (get_cached_fn bh)
      then blocks
      else count_request bhs (inc_queue_ref_count (get_cached_fn bh) blocks)

  unfoldable pub count_requests : List VllmRequest → List Block → List Block
  unfolding count_request
  count_requests [] blocks = blocks
  count_requests (req ∷ reqs) blocks = count_requests reqs (count_request req.block_hashes blocks)

  unfoldable pub update_queue_ref_counts : List VllmRequest → List Block → List Block
  unfolding count_requests
  update_queue_ref_counts new_requests blocks =
      count_requests new_requests (reset_queue_ref_counts blocks)

-- How often an id occurs.
abbrev pub occurrences : ℕ → List ℕ → ℕ
occurrences i is = length (select (λ j. i == j) is)

-- A block that is not null counts the occurrences of its id.
abbrev pub bumped : List ℕ → Block → Block
bumped is b = record b {
  queue_ref_count = b.queue_ref_count + (if b.is_null then 0 else occurrences b.block_id is);
}

map-ext {ℓ κ} :
    {A : Type ℓ} {B : Type κ} (f g : A → B)
    → ((a : A) → f a ≡ g a)
    → (xs : List A) → map f xs ≡ map g xs
map-ext f g h [] = refl
map-ext f g h (x ∷ xs) = rw (h x, map-ext f g h xs) refl

abbrev pub block : ℕ → Bool → ℕ → Block
block i null n = record { block_id = i; is_null = null; queue_ref_count = n }

same_block : (i : ℕ) (null : Bool) {n m : ℕ} → n ≡ m → block i null n ≡ block i null m
same_block i null e = ap (block i null) e

bumped-nil : (i : ℕ) (null : Bool) (n : ℕ) → bumped [] (block i null n) ≡ block i null n
bumped-nil i true n = same_block i true (omega arith)
bumped-nil i false n = same_block i false (omega arith)

bumped-cons :
    (j : ℕ) (is : List ℕ) (i : ℕ) (null : Bool) (n : ℕ)
    → bumped is (inc_block j (block i null n)) ≡ bumped (j ∷ is) (block i null n)
bumped-cons j is i true n = refl
bumped-cons j is i false n = elim (Bool-cases (i == j)) [
  | inl same ↦ rw same (same_block i false (omega arith))
  | inr other ↦ rw other refl
]

bumped-append :
    (is js : List ℕ) (i : ℕ) (null : Bool) (n : ℕ)
    → bumped js (bumped is (block i null n)) ≡ bumped (is ++ js) (block i null n)
bumped-append is js i true n = same_block i true (omega arith)
bumped-append is js i false n = same_block i false (
    omega (
      arith,
      length-append (select (λ j. i == j) is) (select (λ j. i == j) js),
      ap length (select-append (λ j. i == j) is js),
    ))

inc_queue_ref_count-bumped :
    (is : List ℕ) (blocks : List Block) → inc_queue_ref_count is blocks ≡ map (bumped is) blocks
unfolding inc_queue_ref_count
inc_queue_ref_count-bumped [] blocks = sym (
    map-ext (bumped []) (λ b. b) (λ b. bumped-nil b.block_id b.is_null b.queue_ref_count) blocks
    ∙ map-id blocks)
inc_queue_ref_count-bumped (i ∷ is) blocks =
    inc_queue_ref_count-bumped is (map (inc_block i) blocks)
    ∙ map-map (bumped is) (inc_block i) blocks
    ∙ map-ext (λ b. bumped is (inc_block i b)) (bumped (i ∷ is))
        (λ b. bumped-cons i is b.block_id b.is_null b.queue_ref_count) blocks

map-bumped :
    (is js : List ℕ) (blocks : List Block)
    → map (bumped js) (map (bumped is) blocks) ≡ map (bumped (is ++ js)) blocks
map-bumped is js blocks =
    map-map (bumped js) (bumped is) blocks
    ∙ map-ext (λ b. bumped js (bumped is b)) (bumped (is ++ js))
        (λ b. bumped-append is js b.block_id b.is_null b.queue_ref_count) blocks

module _ (get_cached_fn : ℕ → List ℕ) where
  -- The blocks of a request's hashes before the first miss, and those of all requests.
  abbrev pub hit_blocks : VllmRequest → List ℕ
  hit_blocks r = concat (
      map get_cached_fn
        (take (vllm_cached_prefix_length get_cached_fn r.block_hashes) r.block_hashes))

  abbrev pub referenced : List VllmRequest → List ℕ
  referenced reqs = concat (map hit_blocks reqs)

  count_request-bumped :
      (bhs : List ℕ) (blocks : List Block)
      → count_request get_cached_fn bhs blocks
        ≡ map
            (bumped
              (concat (map get_cached_fn (take (vllm_cached_prefix_length get_cached_fn bhs) bhs))))
            blocks
  unfolding count_request vllm_cached_prefix_length inc_queue_ref_count
  count_request-bumped [] blocks = inc_queue_ref_count-bumped [] blocks
  count_request-bumped (h ∷ bhs) blocks = elim (Bool-cases (is_nil (get_cached_fn h))) [
    | inl miss ↦ rw miss (inc_queue_ref_count-bumped [] blocks)
    | inr hit ↦ rw hit (
        count_request-bumped bhs (inc_queue_ref_count (get_cached_fn h) blocks)
        ∙ ap (map (bumped _)) (inc_queue_ref_count-bumped (get_cached_fn h) blocks)
        ∙ map-bumped (get_cached_fn h) _ blocks)
  ]

  count_requests-bumped :
      (reqs : List VllmRequest) (blocks : List Block)
      → count_requests get_cached_fn reqs blocks ≡ map (bumped (referenced reqs)) blocks
  unfolding count_requests inc_queue_ref_count
  count_requests-bumped [] blocks = inc_queue_ref_count-bumped [] blocks
  count_requests-bumped (r ∷ reqs) blocks =
      count_requests-bumped reqs (count_request get_cached_fn r.block_hashes blocks)
      ∙ ap (map (bumped (referenced reqs))) (count_request-bumped r.block_hashes blocks)
      ∙ map-bumped (hit_blocks r) (referenced reqs) blocks

  -- After `update_queue_ref_counts` a block counts how often it occurs among the cached blocks
  -- before the first miss of each request, 0 if it is a null block, whatever it counted before.
  update_queue_ref_counts_lem :
      (reqs : List VllmRequest) (blocks : List Block)
      → update_queue_ref_counts get_cached_fn reqs blocks
        ≡ map
            (λ b.
              block b.block_id b.is_null
                (if b.is_null then 0 else occurrences b.block_id (referenced reqs)))
            blocks
  unfolding update_queue_ref_counts
  update_queue_ref_counts_lem reqs blocks =
      count_requests-bumped reqs (reset_queue_ref_counts blocks)
      ∙ map-map (bumped (referenced reqs)) reset_block blocks
      ∙ map-ext _ _ (λ b. same_block b.block_id b.is_null (omega arith)) blocks
