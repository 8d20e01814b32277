-- ===== src/Lib.antt =====
-- Verification library for peek, a scheduler that reorders prompts and waiting queues so that
-- requests with a common prefix are served together and their key/value cache is kept.
--
-- The program. A client reorders a batch (python/peek/offline/reorder.py) by a prefix trie
-- (offline/trie.py). Hooks in the server's scheduler (offline/scheduler.py) detect sharing, group
-- the waiting queue by the same trie or by a key, score the groups by what is cached, and count
-- references to cached blocks, which the patched block queue of vLLM (offline/vllm_patches) reads
-- when it evicts. The online policy sorts the waiting queue (online/lpm_integration.py) and
-- weighs cache nodes for eviction.
--
-- The model. Data are records and data types with the source's fields, functions are functions by
-- clauses, methods that mutate return the new state, and exceptions are none.
--   Prelude    shared names; dictionaries of lists, stable sorts, lists by positions, loops over an
--              explicit stack, partitions of a queue into groups
--   Trie       offline/trie.py: Data has the nodes, Update insert, remove, clear and build,
--              Traverse the walks; the other modules prove properties of these
--   Reorder    offline/reorder.py: reorder_for_prefix_sharing, _full_duplication_ratio, and in
--              Dispatcher the state, submit and remove of PeekDispatcher; the others have the proofs
--   Scheduler  offline/scheduler.py, and the methods that offline/vllm_patches/install.py adds to
--              vLLM's block pool and free block queue
--   Lpm        online/lpm_integration.py: Deprioritize, Sort, Sections, Stride and Clusters have
--              the definitions, the others the proofs
--   Hooks      online/engines/sglang/patch_hook.py: State has the state of the closure, _intern,
--              _sync and _validate_sync; Priority has _patched_calc_priority, which uses the sorts
--              of Lpm, CacheMatch its _cache_match; the others prove properties of these
--   VllmHooks  online/engines/vllm/patch_hook.py: Demand has _bump_rid and _drop_rid, Victims the
--              choice of blocks of _peek_get_new_blocks, Finish the path of finished requests,
--              Waiting has _compute_main_hits and _reorder_waiting
--   Offline    offline/engine.py: Tags has _parse_peek_rid and what the dispatcher writes, Tagged
--              _run_tagged from its second step on, Full _queue_depth_reorder, Store the class
--              CacheStateStore, Refs the reference counts, with inc_queue_ref that the
--              installer adds to SGLang's tree, Removal the step that removes scheduled
--              requests from the client's dispatcher, Run the choice between the two ways and _run_full;
--              Decimal has str and int; the others have the proofs
--   Engine     offline/engine_vllm.py: a scheduling cycle of VllmPeekEngine, at two given
--              times; Hook has vllm_on_schedule of offline/scheduler.py, which starts it
--   Eviction   online/eviction.py: _max_ancestor_demand in Demand, get_priority in Modes
--   Install    offline/vllm_patches/install.py and offline/sglang_patches/install.py: Files has the
--              backups, revert and the frame of a patch, Vllm, SglangRadix and Sglang the patches,
--              VllmTexts and SglangTexts the inserted code, Text and Regex the operations of str
--              and re that they use; the others prove properties of these. A text is a list of
--              ASCII codes, and the files are a dictionary by their paths in the package
--
-- Conventions. A dictionary of children is a list of entries in insertion order; other
-- dictionaries are association lists in that order, or functions where they are only read.
-- `list.sort` is a stable insertion sort. Scores that the source divides are kept as exact
-- quotients, compared by cross-multiplication, and times are whole milliseconds or the like; a
-- share of a lane is such a quotient, and the two strides are scaled by a common factor. Tokens,
-- hashes and identities of nodes are numbers.
--
-- Bounds and fuel. A loop over a stack of nodes has as fuel the number of nodes under its start,
-- and each is popped at most once. The two-lane interleaving has as fuel the length of the queue,
-- and each round picks one position. A walk up to the root of SGLang's tree has as fuel any bound
-- on the depth, and `str.replace` the length of its text, which each round shortens. All other
-- loops are structural.
--
-- Parameters. The pending tree of the Rust core, as insert, discard and tokens (PendingTree, with
-- its laws IsStore), and what else the core answers, with the order of LPM's keys (IsSortOrder)
-- and the dual walk (IsDualwalk) as hypotheses; SGLang's tree cache (TreeCache, Sglang), its
-- matching and its sort (Policy, with IsPolicy as hypothesis) and what its matches wrote into
-- requests; vLLM's cache lookup, popleft_n and remove; the exponential of the eviction mode decay,
-- as the demand that is left after a time (IsDecay). What is relied on of them is a named
-- hypothesis.
--
-- Not modelled: sglang_pre_schedule, which computes with floating point numbers; the dynamic lane
-- share of online/lpm_integration.py, which is an argument here; the installation of the online
-- hooks and their dumps; what the installers print, and failures of reading and writing files;
-- the Rust core; benchmarks and scripts.
pub mod Prelude
pub mod Trie
pub mod Reorder
pub mod Scheduler
pub mod Engine
pub mod Lpm
pub mod Eviction
pub mod Hooks
pub mod VllmHooks
pub mod Offline
pub mod Install
