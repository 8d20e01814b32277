-- ===== src/Install/SglangRadix.antt =====
-- python/peek/offline/sglang_patches/install.py: the patch of radix_cache.py, with the steps that
-- other patches of SGLang have too.
use peek.Prelude.{List, [], ◌∷◌, ◌++◌, Bool, if◌then◌else◌, tuple_eq}
use peek.Install.Text.{Text, codes, lines, occurs, replace_once, replace_all}
use peek.Install.Regex.{
  Pattern, literal, one, many, lazy, space, dot, group, sub_once, insert_after, insert_before,
}
use peek.Install.Files.{Files, Edit, unless_in, fix_stale, patch_file}
use peek.Install.SglangTexts.{match_prefix_readonly_method, queue_ref_methods}

abbrev pub radix_cache_path : Text
radix_cache_path = codes "srt/mem_cache/radix_cache.py"

abbrev pub strategy_marker : Text
strategy_marker = codes "QueueAwareStrategy"

-- The import, in the style of several lines or of one.
abbrev pub add_import : Text → Text
add_import text =
    let several =
      replace_once (codes "from sglang.srt.mem_cache.evict_policy import (")
        (lines ("from sglang.srt.mem_cache.evict_policy import (" ∷ [])
          ++ codes "    QueueAwareStrategy,")
        text in
    if occurs strategy_marker several
    then several
    else sub_once
        ((1, literal (codes "from sglang.srt.mem_cache.evict_policy import "))
          ∷ (1, one dot)
          ∷ (1, many dot)
          ∷ [])
        (λ ps.
          group 1 ps
          ++ b'\n' ∷ codes "from sglang.srt.mem_cache.evict_policy import QueueAwareStrategy")
        several

abbrev pub add_ref_count : Text → Text
add_ref_count = insert_after (lines ("self.priority = priority" ∷ [])) (
    lines (
      "        # queue-aware eviction: number of waiting-queue requests referencing"
      ∷ "        # this node (or an ancestor/descendant sharing its prefix blocks)"
      ∷ "        self.queue_ref_count = 0" ∷ []))

abbrev pub priority_case : Pattern
priority_case =
    (1, literal (codes "elif self.eviction_policy == \"priority\":"))
    ∷ (1, many space)
    ∷ (1, literal (b'\n' ∷ []))
    ∷ (1, many space)
    ∷ (1, literal (codes "self.eviction_strategy"))
    ∷ (1, lazy dot)
    ∷ (1, literal (lines ("PriorityStrategy()" ∷ [])))
    ∷ []

abbrev pub supported_policies : Pattern
supported_policies =
    (0, literal (codes "Supported policies: '")) ∷ (0, lazy dot) ∷ (0, literal (codes "'.")) ∷ []

-- The case of the strategy, and the message of the error.
abbrev pub add_case : Text → Text
add_case text =
    sub_once supported_policies
      (λ ps.
        codes "Supported policies: 'lru', 'lfu', 'fifo', 'mru', 'filo', 'priority', 'queue-aware'.")
      (sub_once priority_case
        (λ ps.
          group 1 ps
          ++ lines (
              "        elif self.eviction_policy == \"queue-aware\":"
              ∷ "            self.eviction_strategy: EvictionStrategy = QueueAwareStrategy()" ∷ []))
        text)

abbrev pub inherit_ref_count : Text → Text
inherit_ref_count =
    sub_once
      ((1, literal (lines ("new_node.lock_ref = child.lock_ref" ∷ [])))
        ∷ (2, many space)
        ∷ (2, literal (codes "new_node.key = child.key[:split_len]"))
        ∷ [])
      (λ ps.
        group 1 ps
        ++ (lines ("        new_node.queue_ref_count = child.queue_ref_count" ∷ []) ++ group 2 ps))

abbrev pub add_ref_methods : Text → Text
add_ref_methods = insert_before (b'\n' ∷ codes "    def evictable_size(self):") queue_ref_methods

abbrev pub helper_head : Pattern
helper_head =
    (0, literal (lines ("def _match_prefix_helper(self, node: TreeNode, key: RadixKey):" ∷ [])))
    ∷ (1, one space)
    ∷ (1, many space)
    ∷ (0, literal (lines ("access_time = time.monotonic()" ∷ [])))
    ∷ (0, one space)
    ∷ (0, many space)
    ∷ (0, literal (lines ("node.last_access_time = access_time" ∷ [])))
    ∷ []

abbrev pub child_access : Pattern
child_access =
    (1, one space)
    ∷ (1, many space)
    ∷ (2, literal (lines ("child = node.children[child_key]" ∷ [])))
    ∷ (0, one space)
    ∷ (0, many space)
    ∷ (0, literal (lines ("child.last_access_time = access_time" ∷ [])))
    ∷ []

abbrev pub add_update_lru : Text → Text
add_update_lru text =
    sub_once child_access
      (λ ps.
        group 1 ps
        ++ (group 2 ps
            ++ (group 1 ps
                ++ (lines ("if update_lru:" ∷ [])
                    ++ (group 1 ps ++ lines ("    child.last_access_time = access_time" ∷ []))))))
      (sub_once helper_head
        (λ ps.
          lines (
            "def _match_prefix_helper(self, node: TreeNode, key: RadixKey, update_lru: bool = True):"
            ∷ [])
          ++ (group 1 ps
              ++ (lines ("if update_lru:" ∷ [])
                  ++ (group 1 ps
                      ++ (lines ("    access_time = time.monotonic()" ∷ [])
                          ++ (group 1 ps
                              ++ (lines ("    node.last_access_time = access_time" ∷ [])
                                  ++ (group 1 ps
                                      ++ (lines ("else:" ∷ [])
                                          ++ (group 1 ps
                                              ++ lines ("    access_time = None" ∷ [])))))))))))
        text)

abbrev pub add_readonly : Text → Text
add_readonly =
    insert_before (b'\n' ∷ codes "    def insert(self, params: InsertParams)")
      match_prefix_readonly_method

abbrev pub radix_cache_edits : List Edit
radix_cache_edits =
    unless_in strategy_marker add_import
    ∷ unless_in (codes "queue_ref_count") add_ref_count
    ∷ unless_in (codes "\"queue-aware\"") add_case
    ∷ unless_in (codes "queue_ref_count = child.queue_ref_count") inherit_ref_count
    ∷ unless_in (codes "inc_queue_ref") add_ref_methods
    ∷ unless_in (codes "update_lru") add_update_lru
    ∷ unless_in (codes "match_prefix_readonly") add_readonly
    ∷ fix_stale
    ∷ []

unfoldable pub patch_radix_cache : Files → Files × Bool
unfolding patch_file occurs replace_once replace_all sub_once insert_after insert_before
patch_radix_cache fs = patch_file radix_cache_path radix_cache_edits fs
