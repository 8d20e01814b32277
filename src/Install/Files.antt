-- ===== src/Install/Files.antt =====
-- The files of a package, by their paths in it, and `backup` and `revert`, which both installers
-- have. The messages are left out.
use peek.Prelude.{
  ℕ, select, not, Option, tuple_beq, ◌+◌, List, [], ◌∷◌, ◌++◌, none, some, Bool, true, false,
  if◌then◌else◌, tuple_eq,
}
use peek.Prelude.Membership.{contains}
use peek.Prelude.Dict.{get, put, delete}
use peek.Install.Text.{Text, codes, occurs, replace_all}

abbrev pub Files : Type 0
Files = List (Text × Text)

-- `path.with_suffix(path.suffix + ".peek_bak")`
abbrev pub bak : Text → Text
bak path = path ++ codes ".peek_bak"

-- `shutil.copy2(source, target)`, of a file that may not be there
unfoldable pub copy : Text → Text → Files → Files
unfolding get put
copy source target fs = elim (get source fs) [ none ↦ fs | some text ↦ put target text fs ]

unfoldable pub backup : Text → Files → Files
unfolding copy
backup path fs = elim (get (bak path) fs) [ none ↦ copy path (bak path) fs | some old ↦ fs ]

-- The files after a backup was restored and removed where there is one, and their number.
abbrev pub restore_old : Text → Files → ℕ → Option Text → Files × ℕ
restore_old path fs restored none = (fs, restored)
restore_old path fs restored (some old) =
    (delete (bak path) (copy (bak path) path fs), restored + 1)

abbrev pub restore : Text → Files × ℕ → Files × ℕ
restore path (fs, restored) = restore_old path fs restored (get (bak path) fs)

unfoldable pub revert : List Text → Files × ℕ → Files × ℕ
unfolding get delete copy
revert [] st = st
revert (path ∷ paths) st = revert paths (restore path st)

-- A patch of a file in the making: the files, its text, and whether the text was changed.
pub record Patch : Type 0 where
  pub files : Files
  pub text : Text
  pub changed : Bool

-- `if not changed: backup(path)`
unfoldable pub backup_first : Text → Patch → Patch
unfolding backup
backup_first path p = if p.changed then p else record p { files = backup path p.files }

-- The kinds of edits: a change that is made when a marker is missing, whether or not it finds its
-- place; one that counts only if it does; and the renaming of the project's old name.
pub data Edit : Type 0 where
  unless_in : Text → (Text → Text) → Edit
  unless_in_checked : Text → (Text → Text) → Edit
  fix_stale : Edit

unfoldable pub apply_edit : Text → Edit → Patch → Patch
unfolding backup_first occurs replace_all
apply_edit path (unless_in marker change) p =
    if occurs marker p.text
    then p
    else record (backup_first path p) { text = change p.text; changed = true }
apply_edit path (unless_in_checked marker change) p =
    if occurs marker p.text
    then p
    else if tuple_beq (change p.text) p.text
    then backup_first path p
    else record (backup_first path p) { text = change p.text; changed = true }
apply_edit path fix_stale p =
    if occurs (codes "superkv") p.text
    then record (backup_first path p) {
      text = replace_all (codes "superkv") (codes "peek") p.text;
      changed = true;
    }
    else p

-- At the end a changed text is written.
unfoldable pub finish : Text → Patch → Files
unfolding put
finish path p = if p.changed then put path p.text p.files else p.files

abbrev pub apply_edits : Text → List Edit → Patch → Patch
apply_edits path [] p = p
apply_edits path (e ∷ es) p = apply_edits path es (apply_edit path e p)

-- `if not path.exists(): return False`, or the edits in turn.
abbrev pub patch_text : Text → List Edit → Files → Option Text → Files × Bool
patch_text path edits fs none = (fs, false)
patch_text path edits fs (some text) = (
  finish path (apply_edits path edits (record { files = fs; text = text; changed = false })),
  true,
)

unfoldable pub patch_file : Text → List Edit → Files → Files × Bool
unfolding finish get apply_edit
patch_file path edits fs = patch_text path edits fs (get path fs)

-- `find_vllm_dir` and `find_sglang_dir`: the directory that is given, or that of the package
-- which importlib finds; none stands for an exception.
abbrev pub find_dir : (Text → Bool) → Option Text → Option Text → Option Text
find_dir is_dir spec none = spec
find_dir is_dir spec (some []) = spec
find_dir is_dir spec (some (c ∷ p)) = if is_dir (c ∷ p) then some (c ∷ p) else none

abbrev pub explicit_path : List Text → Option Text
explicit_path [] = none
explicit_path (a ∷ args) = some a

-- `main`, with the files of the package that is found; false stands for an exit with status 1.
unfoldable pub run_main :
    (Text → Bool)
    → Option Text
    → (Files → Files × Bool)
    → List Text
    → List Text
    → Files
    → Files × Bool
unfolding revert contains
run_main is_dir spec install patched args fs =
    let do_revert = contains args (codes "--revert") in
    let rest = select (λ a. not (tuple_beq a (codes "--revert"))) args in
    elim (find_dir is_dir spec (explicit_path (if do_revert then rest else args))) [
      | none ↦ (fs, false)
      | some dir ↦ if do_revert then ((revert patched (fs, 0)).0, true) else install fs
    ]
