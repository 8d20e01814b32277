-- ===== src/Install/RoundTrip.antt =====
-- Both installers: `--revert` undoes any number of installations.
use peek.Prelude.{
  ℕ, Option, none, some, zero, suc, ◌≡◌, refl, ap, inl, inr, List, [], ◌∷◌, Bool, true, false, not,
  Bool-cases, tuple_eq, tuple_beq, tuple_beq_iff, all, arith,
}
use peek.Prelude.Membership.{contains}
use peek.Prelude.Dict.{get}
use peek.Install.Text.{Text}
use peek.Install.Files.{Files, Edit, bak, patch_file, revert}
use peek.Install.Careful.{patch_file-IsPatched}
use peek.Install.Checked.{patch_checked-IsPatched}
use peek.Install.Restored.{IsInstalled, HasNoBackup, patched-IsInstalled}
use peek.Install.Reverted.{IsUnsaved, revert-restores}
use peek.Install.Vllm.{
  vllm_files, install_vllm, patch_kv_cache_utils, patch_block_pool, patch_scheduler,
  patch_cache_config, patch_checked, kv_cache_utils_path, block_pool_path, scheduler_path,
  cache_path, kv_cache_utils_edits, block_pool_edits, cache_marker, hook_marker, add_hook,
  add_cache_field,
}
use peek.Install.SglangRadix.{radix_cache_path, radix_cache_edits, patch_radix_cache}
use peek.Install.Sglang.{
  sglang_files, install_sglang, patch_evict_policy, patch_schedule_policy, patch_server_args,
  evict_policy_path, schedule_policy_path, server_args_path, evict_policy_edits,
  schedule_policy_edits, server_args_edits,
}

all-contains :
    (f : Text → Bool) (ks : List Text) (k : Text)
    → all f ks ≡ true
    → contains ks k ≡ true
    → f k ≡ true
unfolding contains
all-contains f [] k h m = cc
all-contains f (j ∷ ks) k h m = elim (Bool-cases (tuple_beq j k)) [
  | inl same ↦ let e = ap f ((tuple_beq_iff j k).0 same) in ground (arith, h, e)
  | inr other ↦ all-contains f ks k (ground (arith, h)) (ground (arith, m, other))
]

-- That no path is one of a backup, as a test.
apart_check : List Text → Bool
apart_check paths = all (λ p. all (λ q. not (tuple_beq (bak p) q)) paths) paths

apart_check-HasNoBackup : (paths : List Text) → apart_check paths ≡ true → HasNoBackup paths
unfolding apart_check
apart_check-HasNoBackup paths h p q mp mq =
    let row = all-contains (λ p. all (λ q. not (tuple_beq (bak p) q)) paths) paths p h mp in
    let cell = all-contains (λ q. not (tuple_beq (bak p) q)) paths q row mq in ground (arith, cell)

-- That these files have no backups, as a test.
abbrev pub is_missing : Option Text → Bool
is_missing none = true
is_missing (some t) = false

unfoldable pub unsaved_check : List Text → Files → Bool
unfolding get
unsaved_check paths fs = all (λ p. is_missing (get (bak p) fs)) paths

missing_none : (o : Option Text) → is_missing o ≡ true → o ≡ none
missing_none none h = refl
missing_none (some t) h = cc

pub unsaved_check-IsUnsaved :
    (paths : List Text) (fs : Files) → unsaved_check paths fs ≡ true → IsUnsaved paths fs
unfolding unsaved_check
unsaved_check-IsUnsaved paths fs h p m =
    missing_none (get (bak p) fs) (all-contains (λ p. is_missing (get (bak p) fs)) paths p h m)

vllm_files-HasNoBackup : HasNoBackup vllm_files
unfolding apart_check
vllm_files-HasNoBackup = apart_check-HasNoBackup vllm_files refl

sglang_files-HasNoBackup : HasNoBackup sglang_files
unfolding apart_check
sglang_files-HasNoBackup = apart_check-HasNoBackup sglang_files refl

-- A series of installations.
unfoldable pub repeat : ℕ → (Files → Files × Bool) → Files → Files
repeat zero install fs = fs
repeat (suc n) install fs = repeat n install (install fs).0

unpatched-IsInstalled :
    (paths : List Text) (fs : Files) → IsUnsaved paths fs → IsInstalled paths fs fs
unpatched-IsInstalled paths fs unsaved = record {
  safe = λ p m. inl (unsaved p m, refl);
  frame = λ k out out_bak. refl;
}

repeat-IsInstalled :
    (paths : List Text) (install : Files → Files × Bool) (fs0 : Files)
    → ((fs : Files) → IsInstalled paths fs0 fs → IsInstalled paths fs0 (install fs).0)
    → (n : ℕ) (fs : Files) → IsInstalled paths fs0 fs
    → IsInstalled paths fs0 (repeat n install fs)
unfolding repeat
repeat-IsInstalled paths install fs0 keeps zero fs i = i
repeat-IsInstalled paths install fs0 keeps (suc n) fs i =
    repeat-IsInstalled paths install fs0 keeps n (install fs).0 (keeps fs i)

module _ (paths : List Text) (apart : HasNoBackup paths) (fs0 : Files) where
  edited-IsInstalled :
      (path : Text) (edits : List Edit) (fs : Files)
      → contains paths path ≡ true
      → IsInstalled paths fs0 fs
      → IsInstalled paths fs0 (patch_file path edits fs).0
  edited-IsInstalled path edits fs m i =
      patched-IsInstalled paths fs0 fs (patch_file path edits fs).0 path apart m
        (patch_file-IsPatched path edits fs) i

  checked-IsInstalled :
      (path marker : Text) (change : Text → Text) (fs : Files)
      → contains paths path ≡ true
      → IsInstalled paths fs0 fs
      → IsInstalled paths fs0 (patch_checked path marker change fs).0
  checked-IsInstalled path marker change fs m i =
      patched-IsInstalled paths fs0 fs (patch_checked path marker change fs).0 path apart m
        (patch_checked-IsPatched path marker change fs) i

install_vllm-IsInstalled :
    (fs0 fs : Files)
    → IsInstalled vllm_files fs0 fs
    → IsInstalled vllm_files fs0 (install_vllm fs).0
unfolding install_vllm contains patch_kv_cache_utils patch_block_pool patch_scheduler
    patch_cache_config
install_vllm-IsInstalled fs0 fs i =
    let edited = edited-IsInstalled vllm_files vllm_files-HasNoBackup fs0 in
    let checked = checked-IsInstalled vllm_files vllm_files-HasNoBackup fs0 in
    checked cache_path cache_marker add_cache_field _ refl (
      checked scheduler_path hook_marker add_hook _ refl (
        edited block_pool_path block_pool_edits _ refl
          (edited kv_cache_utils_path kv_cache_utils_edits fs refl i)))

install_sglang-IsInstalled :
    (fs0 fs : Files)
    → IsInstalled sglang_files fs0 fs
    → IsInstalled sglang_files fs0 (install_sglang fs).0
unfolding install_sglang contains patch_evict_policy patch_radix_cache patch_schedule_policy
    patch_server_args
install_sglang-IsInstalled fs0 fs i =
    let edited = edited-IsInstalled sglang_files sglang_files-HasNoBackup fs0 in
    edited server_args_path server_args_edits _ refl (
      edited schedule_policy_path schedule_policy_edits _ refl (
        edited radix_cache_path radix_cache_edits _ refl
          (edited evict_policy_path evict_policy_edits fs refl i)))

-- If vLLM has no backups, reverting after any number of installations leaves every file as it was
-- before the first, and no backup.
pub revert-install_vllm :
    (n : ℕ) (fs : Files)
    → IsUnsaved vllm_files fs
    → (k : Text) → get k (revert vllm_files (repeat n install_vllm fs, 0)).0 ≡ get k fs
revert-install_vllm n fs unsaved =
    revert-restores vllm_files fs (repeat n install_vllm fs) 0 vllm_files-HasNoBackup unsaved (
      repeat-IsInstalled vllm_files install_vllm fs (install_vllm-IsInstalled fs) n fs
        (unpatched-IsInstalled vllm_files fs unsaved))

-- If SGLang has no backups, reverting after any number of installations leaves every file as it
-- was before the first, and no backup.
pub revert-install_sglang :
    (n : ℕ) (fs : Files)
    → IsUnsaved sglang_files fs
    → (k : Text) → get k (revert sglang_files (repeat n install_sglang fs, 0)).0 ≡ get k fs
revert-install_sglang n fs unsaved =
    revert-restores sglang_files fs (repeat n install_sglang fs) 0 sglang_files-HasNoBackup unsaved
      (repeat-IsInstalled sglang_files install_sglang fs (install_sglang-IsInstalled fs) n fs
        (unpatched-IsInstalled sglang_files fs unsaved))
