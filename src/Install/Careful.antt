-- ===== src/Install/Careful.antt =====
-- What a patch does to the files: a backup is made before the first change, and never replaced.
use peek.Prelude.{
  List, [], ◌∷◌, ◌≡◌, refl, ◌∙◌, sym, ap, ◌⊎◌, inl, inr, [], ◌∷◌, Option, none, some, false,
  if◌then◌else◌, Bool-cases, tuple_eq, tuple_beq, tuple_beq_iff, arith,
}
use peek.Prelude.Dict.{get, put, get-put, beq_refl}
use peek.Install.Text.{Text, codes, occurs}
use peek.Install.Files.{
  Files, bak, copy, backup, Patch, backup_first, Edit, unless_in, unless_in_checked, fix_stale,
  apply_edit, apply_edits, finish, patch_text, patch_file,
}

abbrev pub or_old : Text → Option Text → Text
or_old t none = t
or_old t (some old) = old

-- What the files have at a key when the text t of a file has been backed up.
abbrev pub backed_at : Text → Text → Files → Text → Option Text
backed_at path t fs k =
    if tuple_beq (bak path) k then some (or_old t (get (bak path) fs)) else get k fs

abbrev pub IsBacked : Text → Text → Files → Files → Type 0
IsBacked path t fs fs' = (k : Text) → get k fs' ≡ backed_at path t fs k

-- A patch in the making has changed nothing, or has made the backup.
abbrev pub IsDraft : Text → Text → Files → Patch → Type 0
IsDraft path t fs p =
    ((p.changed ≡ false) × ((k : Text) → get k p.files ≡ get k fs)) ⊎ IsBacked path t fs p.files

-- The files after a patch of this path: nothing has changed but this file and its backup.
abbrev pub IsPatched : Text → Files → Files → Type 0
IsPatched path fs fs' =
    ((k : Text) → get k fs' ≡ get k fs)
    ⊎ (t : Text) × (get path fs ≡ some t)
      × ((k : Text) → tuple_beq path k ≡ false → get k fs' ≡ backed_at path t fs k)

pub bak_apart : (path : Text) → tuple_beq (bak path) path ≡ false
bak_apart [] = refl
bak_apart (c ∷ path) = ground (arith, bak_apart path)

backup-none :
    (path t : Text) (fs : Files)
    → get (bak path) fs ≡ none
    → get path fs ≡ some t
    → backup path fs ≡ put (bak path) t fs
unfolding backup copy
backup-none path t fs new there = rw (new, there, backup, copy) refl

backup-some : (path o : Text) (fs : Files) → get (bak path) fs ≡ some o → backup path fs ≡ fs
unfolding backup
backup-some path o fs old = rw (old, backup) refl

-- A backup of a file that is backed up is the old one.
pub backup-IsBacked :
    (path t : Text) (fs : Files) → get path fs ≡ some t → IsBacked path t fs (backup path fs)
backup-IsBacked path t fs there k = by_old (get (bak path) fs) refl
  where
    by_old :
        (o : Option Text) → get (bak path) fs ≡ o → get k (backup path fs) ≡ backed_at path t fs k
    by_old none new = rw (backup-none path t fs new there, get-put k (bak path) t fs, new) refl
    by_old (some o) old = elim (Bool-cases (tuple_beq (bak path) k)) [
      | inl same ↦
          rw (backup-some path o fs old, same, old)
            (ap (λ j. get j fs) (sym ((tuple_beq_iff (bak path) k).0 same)) ∙ old)
      | inr other ↦ rw (backup-some path o fs old, other) refl
    ]

pub bak_itself :
    (path t : Text) (fs : Files)
    → backed_at path t fs (bak path) ≡ some (or_old t (get (bak path) fs))
bak_itself path t fs = rw (beq_refl (bak path)) refl

pub backup_again : (path t : Text) (fs fs' : Files) → IsBacked path t fs fs' → backup path fs' ≡ fs'
backup_again path t fs fs' backed =
    backup-some path _ fs' (backed (bak path) ∙ bak_itself path t fs)

pub backup_first-IsBacked :
    (path t : Text) (fs : Files) (p : Patch)
    → get path fs ≡ some t
    → IsDraft path t fs p
    → IsBacked path t fs (backup_first path p).files
unfolding backup_first
backup_first-IsBacked path t fs p there (inl (fresh, same)) k =
    rw fresh
      (backup-IsBacked path t p.files (same path ∙ there) k ∙ rw (same (bak path), same k) refl)
backup_first-IsBacked path t fs p there (inr backed) k = elim (Bool-cases p.changed) [
  | inl old ↦ rw old (backed k)
  | inr new ↦ rw (new, backup_again path t fs p.files backed) (backed k)
]

finish-IsPatched :
    (path t : Text) (fs : Files) (p : Patch)
    → get path fs ≡ some t
    → IsDraft path t fs p
    → IsPatched path fs (finish path p)
unfolding finish
finish-IsPatched path t fs p there (inl (fresh, same)) = rw fresh (inl same)
finish-IsPatched path t fs p there (inr backed) = elim (Bool-cases p.changed) [
  | inl changed ↦
      rw changed (inr (t, there, λ k apart. get-put k path p.text p.files ∙ rw apart (backed k)))
  | inr same ↦ rw same (inr (t, there, λ k apart. backed k))
]

-- An edit keeps a draft a draft.
apply_edit-IsDraft :
    (path t : Text) (fs : Files) (e : Edit) (p : Patch)
    → get path fs ≡ some t
    → IsDraft path t fs p
    → IsDraft path t fs (apply_edit path e p)
unfolding apply_edit
apply_edit-IsDraft path t fs (unless_in marker change) p there d =
    elim (Bool-cases (occurs marker p.text)) [
      | inl found ↦ rw found d
      | inr missing ↦ rw missing (inr (backup_first-IsBacked path t fs p there d))
    ]
apply_edit-IsDraft path t fs (unless_in_checked marker change) p there d =
    let backed = backup_first-IsBacked path t fs p there d in
    elim (Bool-cases (occurs marker p.text)) [
      | inl found ↦ rw found d
      | inr missing ↦ elim (Bool-cases (tuple_beq (change p.text) p.text)) [
        | inl same ↦ rw (missing, same) (inr backed)
        | inr new ↦ rw (missing, new) (inr backed)
      ]
    ]
apply_edit-IsDraft path t fs fix_stale p there d =
    elim (Bool-cases (occurs (codes "superkv") p.text)) [
      | inl found ↦ rw found (inr (backup_first-IsBacked path t fs p there d))
      | inr missing ↦ rw missing d
    ]

apply_edits-IsDraft :
    (path t : Text) (fs : Files) (es : List Edit) (p : Patch)
    → get path fs ≡ some t
    → IsDraft path t fs p
    → IsDraft path t fs (apply_edits path es p)
apply_edits-IsDraft path t fs [] p there d = d
apply_edits-IsDraft path t fs (e ∷ es) p there d =
    apply_edits-IsDraft path t fs es (apply_edit path e p) there
      (apply_edit-IsDraft path t fs e p there d)

pub patch_file-IsPatched :
    (path : Text) (edits : List Edit) (fs : Files) → IsPatched path fs (patch_file path edits fs).0
unfolding patch_file finish
patch_file-IsPatched path edits fs = by_text (get path fs) refl
  where
    by_text : (o : Option Text) → get path fs ≡ o → IsPatched path fs (patch_text path edits fs o).0
    by_text none missing = inl (λ k. refl)
    by_text (some t) there =
        finish-IsPatched path t fs _ there
          (apply_edits-IsDraft path t fs edits _ there (inl (refl, λ k. refl)))

-- A backup leaves the file as it is.
pub get-backup :
    (path t : Text) (fs : Files) → get path fs ≡ some t → get path (backup path fs) ≡ some t
get-backup path t fs there = backup-IsBacked path t fs there path ∙ rw (bak_apart path) there
