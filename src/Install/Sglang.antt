-- ===== src/Install/Sglang.antt =====
-- python/peek/offline/sglang_patches/install.py: the four patches of SGLang, and `main`.
use peek.Prelude.{List, [], ◌∷◌, ◌++◌, Option, Bool, not, ◌&&◌, ◌==◌, tuple_eq}
use peek.Install.Text.{Text, codes, lines, occurs, replace_all, rstrip}
use peek.Install.Regex.{Pattern, literal, one, many, lazy, space, dot_all, group, sub_once}
use peek.Install.Files.{Files, Edit, unless_in, unless_in_checked, fix_stale, patch_file, run_main}
use peek.Install.SglangRadix.{radix_cache_path, strategy_marker, patch_radix_cache}
use peek.Install.SglangTexts.{queue_aware_strategy_code, peek_engine_hook, peek_matched_skip}

abbrev pub evict_policy_path : Text
evict_policy_path = codes "srt/mem_cache/evict_policy.py"

abbrev pub schedule_policy_path : Text
schedule_policy_path = codes "srt/managers/schedule_policy.py"

abbrev pub server_args_path : Text
server_args_path = codes "srt/server_args.py"

-- `PATCHED_FILES`
abbrev pub sglang_files : List Text
sglang_files = evict_policy_path ∷ radix_cache_path ∷ schedule_policy_path ∷ server_args_path ∷ []

abbrev pub evict_policy_edits : List Edit
evict_policy_edits =
    unless_in strategy_marker (λ text. rstrip text ++ b'\n' ∷ queue_aware_strategy_code)
    ∷ fix_stale
    ∷ []

unfoldable pub patch_evict_policy : Files → Files × Bool
unfolding patch_file rstrip occurs replace_all
patch_evict_policy fs = patch_file evict_policy_path evict_policy_edits fs

abbrev pub calc_priority_head : Pattern
calc_priority_head =
    (1, literal (codes "def calc_priority("))
    ∷ (1, many space)
    ∷ (1, literal (codes "self, waiting_queue"))
    ∷ (1, lazy dot_all)
    ∷ (1, literal (codes "running_batch"))
    ∷ (1, lazy dot_all)
    ∷ (1, literal (codes ")"))
    ∷ (1, many space)
    ∷ (1, literal (codes "->"))
    ∷ (1, many space)
    ∷ (1, literal (lines ("bool:" ∷ [])))
    ∷ []

abbrev pub add_engine_hook : Text → Text
add_engine_hook = sub_once calc_priority_head (λ ps. group 1 ps ++ peek_engine_hook)

abbrev pub add_matched_skip : Text → Text
add_matched_skip =
    sub_once
      ((1, literal (lines ("for r in waiting_queue:" ∷ [])))
        ∷ (2, one space)
        ∷ (2, many space)
        ∷ (3, literal (codes "prefix_ids = r.origin_input_ids"))
        ∷ [])
      (λ ps. group 1 ps ++ (peek_matched_skip ++ (group 2 ps ++ group 3 ps)))

abbrev pub schedule_policy_edits : List Edit
schedule_policy_edits =
    unless_in_checked (codes "PeekEngine") add_engine_hook
    ∷ unless_in_checked (codes "_peek_matched") add_matched_skip
    ∷ fix_stale
    ∷ []

unfoldable pub patch_schedule_policy : Files → Files × Bool
unfolding patch_file occurs replace_all sub_once
patch_schedule_policy fs = patch_file schedule_policy_path schedule_policy_edits fs

abbrev pub policy_choices : Pattern
policy_choices =
    (0, literal (codes "RADIX_EVICTION_POLICY_CHOICES"))
    ∷ (0, many space)
    ∷ (0, literal (codes "="))
    ∷ (0, many space)
    ∷ (0, literal (codes "["))
    ∷ (1, many (λ c. not (c == b']')))
    ∷ (0, literal (codes "]"))
    ∷ []

abbrev pub add_choice : Text → Text
add_choice = sub_once policy_choices (λ ps.
    codes "RADIX_EVICTION_POLICY_CHOICES = ["
    ++ (rstrip (group 1 ps) ++ codes ", \"queue-aware\"]"))

abbrev pub server_args_edits : List Edit
server_args_edits = unless_in (codes "\"queue-aware\"") add_choice ∷ []

unfoldable pub patch_server_args : Files → Files × Bool
unfolding patch_file sub_once rstrip
patch_server_args fs = patch_file server_args_path server_args_edits fs

-- The patches in turn; the second component is `all_ok`.
unfoldable pub install_sglang : Files → Files × Bool
unfolding patch_evict_policy patch_radix_cache patch_schedule_policy patch_server_args
install_sglang fs =
    let evict = patch_evict_policy fs in
    let radix = patch_radix_cache evict.0 in
    let policy = patch_schedule_policy radix.0 in
    let args = patch_server_args policy.0 in (args.0, evict.1 && (radix.1 && (policy.1 && args.1)))

-- `main`
unfoldable pub main_sglang : (Text → Bool) → Option Text → List Text → Files → Files × Bool
unfolding run_main install_sglang
main_sglang is_dir spec args fs = run_main is_dir spec install_sglang sglang_files args fs
