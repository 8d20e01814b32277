-- ===== src/Install/Checked.antt =====
-- The patches that check that their marker is there: what they answer, and that they can be
-- repeated.
use peek.Prelude.{
  ◌≡◌, refl, ◌∙◌, sym, inl, inr, Option, none, some, Bool, false, Bool-cases, tuple_eq,
}
use peek.Prelude.Dict.{get, get-put, beq_refl}
use peek.Install.Text.{Text, occurs}
use peek.Install.Files.{Files, backup}
use peek.Install.Careful.{IsPatched, backup-IsBacked, backup_again, get-backup}
use peek.Install.Vllm.{checked_text, patch_checked}

-- `m in path.read_text()`
abbrev pub has_text : Text → Option Text → Bool
has_text m none = false
has_text m (some t) = occurs m t

pub patch_checked-IsPatched :
    (path marker : Text) (change : Text → Text) (fs : Files)
    → IsPatched path fs (patch_checked path marker change fs).0
unfolding patch_checked
patch_checked-IsPatched path marker change fs = by_text (get path fs) refl
  where
    by_text :
        (o : Option Text)
        → get path fs ≡ o
        → IsPatched path fs (checked_text path marker change fs o).0
    by_text none missing = inl (λ k. refl)
    by_text (some t) there = elim (Bool-cases (occurs marker t)) [
      | inl old ↦ rw old (inl (λ k. refl))
      | inr new ↦ elim (Bool-cases (occurs marker (change t))) [
        | inl found ↦
            rw (new, found)
              (inr (
                t,
                there,
                λ k apart.
                    get-put k path (change t) (backup path fs)
                    ∙ rw apart (backup-IsBacked path t fs there k),
              ))
        | inr lost ↦ rw (new, lost) (inr (t, there, λ k apart. backup-IsBacked path t fs there k))
      ]
    ]

-- What such a patch does to its file, and to the files if it is repeated.
pub record IsChecked (path marker : Text) (patch : Files → Files × Bool) (fs : Files) : Type 0 where
  pub answer : (patch fs).1 ≡ has_text marker (get path (patch fs).0)
  pub unchanged : (patch fs).1 ≡ false → get path (patch fs).0 ≡ get path fs
  pub again : patch (patch fs).0 ≡ patch fs

-- A patch of vLLM that checks its result answers whether its marker is in the file then, leaves
-- the file as it is when it answers False, and does nothing more when it is made again, and gives
-- the same answer, whatever its change does to the text.
pub patch_checked-IsChecked :
    (path marker : Text) (change : Text → Text) (fs : Files)
    → IsChecked path marker (patch_checked path marker change) fs
unfolding patch_checked
patch_checked-IsChecked path marker change fs =
    let (answer, unchanged, again) = by_text (get path fs) refl in
    record { answer = answer; unchanged = unchanged; again = again }
  where
    Out : Option Text → Type 0
    Out o =
        let out = checked_text path marker change fs o in
        (out.1 ≡ has_text marker (get path out.0))
        × (out.1 ≡ false → get path out.0 ≡ o)
        × (checked_text path marker change out.0 (get path out.0) ≡ out)

    by_text : (o : Option Text) → get path fs ≡ o → Out o
    by_text none missing = rw missing (refl, λ h. refl, refl)
    by_text (some t) there = elim (Bool-cases (occurs marker t)) [
      | inl old ↦ rw (old, there) (sym old, λ h. refl, rw old refl)
      | inr new ↦ elim (Bool-cases (occurs marker (change t))) [
        | inl found ↦
            rw (new, found, get-put path path (change t) (backup path fs), beq_refl path)
              (sym found, λ h. cc, rw found refl)
        | inr lost ↦
            rw (new, lost, get-backup path t fs there)
              (
                sym new,
                λ h. refl,
                rw (new, lost, backup_again path t fs _ (backup-IsBacked path t fs there)) refl,
              )
      ]
    ]
