-- ===== src/Install/Vllm.antt =====
-- python/peek/offline/vllm_patches/install.py: the four patches of vLLM, and `main`.
use Prim.Native.String.{String}
use peek.Prelude.{
  List, [], ◌∷◌, ◌++◌, Option, none, some, Bool, true, false, ◌||◌, ◌&&◌, if◌then◌else◌, tuple_eq,
}
use peek.Prelude.Dict.{get, put}
use peek.Install.Text.{Text, codes, lines, occurs, replace_once, rstrip}
use peek.Install.Regex.{
  Pattern, literal, lazy, choice, ahead, word_end, dot_all, group, sub_once, insert_after,
  insert_before,
}
use peek.Install.Files.{Files, backup, Edit, unless_in, patch_file, run_main}
use peek.Install.VllmTexts.{queue_aware_method, vllm_queue_ref_methods, peek_scheduler_code}

abbrev pub kv_cache_utils_path : Text
kv_cache_utils_path = codes "v1/core/kv_cache_utils.py"

abbrev pub block_pool_path : Text
block_pool_path = codes "v1/core/block_pool.py"

abbrev pub scheduler_path : Text
scheduler_path = codes "v1/core/sched/scheduler.py"

abbrev pub cache_path : Text
cache_path = codes "config/cache.py"

-- `PATCHED_FILES`
abbrev pub vllm_files : List Text
vllm_files = kv_cache_utils_path ∷ block_pool_path ∷ scheduler_path ∷ cache_path ∷ []

abbrev pub add_queue_ref_count : Text → Text
add_queue_ref_count = insert_after (lines ("    is_null: bool = False" ∷ [])) (
    lines (
      "" ∷ "    # Queue-aware eviction: number of waiting-queue requests"
      ∷ "    # whose prefix includes this block." ∷ "    queue_ref_count: int = 0" ∷ []))

abbrev pub before_get_all : Pattern
before_get_all = (1, literal (b'\n' ∷ codes "    def get_all_free_blocks")) ∷ (1, word_end) ∷ []

abbrev pub popleft_marker : Text
popleft_marker = codes "popleft_queue_aware"

-- The method before `get_all_free_blocks`, or at the end of the file.
abbrev pub add_popleft : Text → Text
add_popleft text =
    let found = sub_once before_get_all (λ ps. queue_aware_method ++ group 1 ps) text in
    if occurs popleft_marker found then found else rstrip found ++ b'\n' ∷ queue_aware_method

abbrev pub kv_cache_utils_edits : List Edit
kv_cache_utils_edits =
    unless_in (codes "queue_ref_count") add_queue_ref_count
    ∷ unless_in popleft_marker add_popleft
    ∷ []

unfoldable pub patch_kv_cache_utils : Files → Files × Bool
unfolding patch_file insert_after sub_once rstrip
patch_kv_cache_utils fs = patch_file kv_cache_utils_path kv_cache_utils_edits fs

abbrev pub add_queue_ref_methods : Text → Text
add_queue_ref_methods =
    insert_before (b'\n' ∷ codes "    def get_num_free_blocks(self)") vllm_queue_ref_methods

abbrev pub add_flag_parameter : Text → Text
add_flag_parameter =
    sub_once
      ((
        1,
        literal (
            lines ("        metrics_collector: KVCacheMetricsCollector | None = None," ∷ [])
            ++ codes "    ):"),
      )
        ∷ [])
      (λ ps.
        lines (
          "        metrics_collector: KVCacheMetricsCollector | None = None,"
          ∷ "        enable_queue_aware_eviction: bool = False," ∷ [])
        ++ codes "    ):")

abbrev pub add_flag_attribute : Text → Text
add_flag_attribute =
    insert_after (lines ("        self.metrics_collector = metrics_collector" ∷ [])) (
      lines (
        "        import os as _os" ∷ "        self.enable_queue_aware_eviction = ("
        ∷ "            enable_queue_aware_eviction"
        ∷ "            or _os.environ.get(\"PEEK_QUEUE_AWARE\") == \"1\"" ∷ "        )" ∷ []))

abbrev pub use_popleft : Text → Text
use_popleft =
    replace_once
      (codes "        ret: list[KVCacheBlock] = self.free_block_queue.popleft_n(num_blocks)")
      (lines (
          "        if self.enable_queue_aware_eviction:"
          ∷ "            ret: list[KVCacheBlock] = self.free_block_queue.popleft_queue_aware(num_blocks)"
          ∷ "        else:" ∷ [])
        ++ codes
            "            ret: list[KVCacheBlock] = self.free_block_queue.popleft_n(num_blocks)")

abbrev pub block_pool_edits : List Edit
block_pool_edits =
    unless_in (codes "reset_queue_ref_counts") add_queue_ref_methods
    ∷ unless_in (codes "enable_queue_aware_eviction")
        (λ text. add_flag_attribute (add_flag_parameter text))
    ∷ unless_in popleft_marker use_popleft
    ∷ []

unfoldable pub patch_block_pool : Files → Files × Bool
unfolding patch_file insert_after insert_before sub_once replace_once
patch_block_pool fs = patch_file block_pool_path block_pool_edits fs

abbrev pub hook_marker : Text
hook_marker = codes "_peek_hook"

-- From a comment of a prior version's patch up to the comment after it.
abbrev pub old_patch : Pattern
old_patch =
    (0, literal (codes "        # "))
    ∷ (0, choice (codes "Peek" ∷ codes "Queue-aware" ∷ []))
    ∷ (0, lazy dot_all)
    ∷ (0, ahead (codes "        # NOTE" ∷ codes "        # There's no" ∷ []))
    ∷ []

abbrev pub remove_old_patch : Text → Text
remove_old_patch text =
    if occurs (codes "_peek_enabled") text || occurs (codes "reset_queue_ref_counts") text
    then sub_once old_patch (λ ps. []) text
    else text

abbrev pub schedule_line : String
schedule_line = "    def schedule(self) -> SchedulerOutput:"

-- The hook before the first comment of `schedule`, or at its beginning.
unfoldable pub add_hook : Text → Text
unfolding insert_after sub_once occurs
add_hook text =
    let narrow =
      insert_after
        (lines (schedule_line ∷ "        # NOTE(woosuk) on the scheduling algorithm:" ∷ []))
        peek_scheduler_code (remove_old_patch text) in
    if occurs hook_marker narrow
    then narrow
    else insert_after (lines (schedule_line ∷ [])) peek_scheduler_code narrow

unfoldable pub add_cache_field : Text → Text
unfolding insert_after
add_cache_field =
    insert_after (lines ("    enable_prefix_caching: bool = True" ∷ []))
      (lines ("    enable_queue_aware_eviction: bool = False" ∷ []))

-- A patch that is written only if its marker is in the text then.
abbrev pub checked_text : Text → Text → (Text → Text) → Files → Option Text → Files × Bool
checked_text path marker change fs none = (fs, false)
checked_text path marker change fs (some text) =
    if occurs marker text
    then (fs, true)
    else if occurs marker (change text)
    then (put path (change text) (backup path fs), true)
    else (backup path fs, false)

unfoldable pub patch_checked : Text → Text → (Text → Text) → Files → Files × Bool
unfolding backup get put occurs
patch_checked path marker change fs = checked_text path marker change fs (get path fs)

unfoldable pub patch_scheduler : Files → Files × Bool
unfolding patch_checked add_hook
patch_scheduler fs = patch_checked scheduler_path hook_marker add_hook fs

abbrev pub cache_marker : Text
cache_marker = codes "enable_queue_aware_eviction"

unfoldable pub patch_cache_config : Files → Files × Bool
unfolding patch_checked add_cache_field
patch_cache_config fs = patch_checked cache_path cache_marker add_cache_field fs

-- The patches in turn; the second component is `all_ok`.
unfoldable pub install_vllm : Files → Files × Bool
unfolding patch_kv_cache_utils patch_block_pool patch_scheduler patch_cache_config
install_vllm fs =
    let utils = patch_kv_cache_utils fs in
    let pool = patch_block_pool utils.0 in
    let scheduler = patch_scheduler pool.0 in
    let cache = patch_cache_config scheduler.0 in
    (cache.0, utils.1 && (pool.1 && (scheduler.1 && cache.1)))

-- `main`
unfoldable pub main_vllm : (Text → Bool) → Option Text → List Text → Files → Files × Bool
unfolding run_main install_vllm
main_vllm is_dir spec args fs = run_main is_dir spec install_vllm vllm_files args fs
