-- ===== src/Install/Tests.antt =====
-- The installers on small files, and their theorems there.
use peek.Prelude.{◌≡◌, refl, [], ◌∷◌, true, false, tuple_eq}
use peek.Prelude.Dict.{get}
use peek.Install.Text.{Text, codes, lines, rstrip}
use peek.Install.Regex.{sub_once}
use peek.Install.Files.{Files, revert}
use peek.Install.Checked.{IsChecked, patch_checked-IsChecked, has_text}
use peek.Install.RoundTrip.{
  repeat, unsaved_check, unsaved_check-IsUnsaved, revert-install_vllm, revert-install_sglang,
}
use peek.Install.Vllm.{
  vllm_files, install_vllm, patch_checked, kv_cache_utils_path, scheduler_path, cache_path,
  hook_marker, add_hook,
}
use peek.Install.SglangRadix.{radix_cache_path}
use peek.Install.Sglang.{
  sglang_files, install_sglang, schedule_policy_path, server_args_path, evict_policy_path,
  add_choice,
}

abbrev utils_text : Text
utils_text = lines (
    "class KVCacheBlock:" ∷ "    is_null: bool = False" ∷ "" ∷ "    def get_all_free_blocks(self):"
    ∷ [])

abbrev scheduler_text : Text
scheduler_text = lines ("    def schedule(self) -> SchedulerOutput:" ∷ "        pass" ∷ [])

abbrev vllm : Files
vllm =
    (kv_cache_utils_path, utils_text)
    ∷ (scheduler_path, scheduler_text)
    ∷ (cache_path, lines ("    enable_prefix_caching: bool = True" ∷ []))
    ∷ []

-- One file is missing.
incomplete : (install_vllm vllm).1 ≡ false
unfolding install_vllm
incomplete = refl

hooked : has_text hook_marker (get scheduler_path (install_vllm vllm).0) ≡ true
unfolding install_vllm
hooked = refl

counted :
    has_text (codes "queue_ref_count: int = 0") (get kv_cache_utils_path (install_vllm vllm).0)
    ≡ true
unfolding install_vllm
counted = refl

-- The one choice of this text, with a space before the bracket.
abbrev choices : Text
choices = codes "RADIX_EVICTION_POLICY_CHOICES  = [\"lru\" ]"

chosen : add_choice choices ≡ codes "RADIX_EVICTION_POLICY_CHOICES = [\"lru\", \"queue-aware\"]"
unfolding sub_once rstrip
chosen = refl

abbrev policy_text : Text
policy_text = lines (
    "    def calc_priority(" ∷ "        self, waiting_queue: List[Req], running_batch=None"
    ∷ "    ) -> bool:" ∷ "        pass" ∷ [])

abbrev sglang : Files
sglang =
    (schedule_policy_path, policy_text)
    ∷ (radix_cache_path, lines ("from sglang.srt.mem_cache.evict_policy import LRUStrategy" ∷ []))
    ∷ (evict_policy_path, codes "class EvictionStrategy: pass  # superkv")
    ∷ (server_args_path, choices)
    ∷ []

abbrev patched : Files
patched = (install_sglang sglang).0

all_found : (install_sglang sglang).1 ≡ true
unfolding install_sglang
all_found = refl

delegates : has_text (codes "self._peek_engine.run") (get schedule_policy_path patched) ≡ true
unfolding install_sglang
delegates = refl

renamed : has_text (codes "superkv") (get evict_policy_path patched) ≡ false
unfolding install_sglang
renamed = refl

-- radix_cache.py has no place for the counter: nothing is added, and the answer is True all the
-- same.
uncounted : has_text (codes "self.queue_ref_count = 0") (get radix_cache_path patched) ≡ false
unfolding install_sglang
uncounted = refl

abbrev null_line : Text
null_line = lines ("    is_null: bool = False" ∷ [])

abbrev count_line : Text
count_line = lines ("    queue_ref_count: int = 0" ∷ [])

patch_checked-IsChecked_example :
    IsChecked scheduler_path hook_marker (patch_checked scheduler_path hook_marker add_hook) vllm
patch_checked-IsChecked_example = patch_checked-IsChecked scheduler_path hook_marker add_hook vllm

revert-install_vllm_example :
    get scheduler_path (revert vllm_files (repeat 2 install_vllm vllm, 0)).0
    ≡ get scheduler_path vllm
unfolding unsaved_check
revert-install_vllm_example =
    revert-install_vllm 2 vllm (unsaved_check-IsUnsaved vllm_files vllm refl) scheduler_path

revert-install_sglang_example :
    get schedule_policy_path (revert sglang_files (repeat 2 install_sglang sglang, 0)).0
    ≡ get schedule_policy_path sglang
unfolding unsaved_check
revert-install_sglang_example =
    revert-install_sglang 2 sglang (unsaved_check-IsUnsaved sglang_files sglang refl)
      schedule_policy_path
