-- ===== src/Install/Reverted.antt =====
-- `revert` restores the files that were there before the first installation.
use peek.Prelude.{
  ℕ, ◌≡◌, refl, ◌∙◌, sym, subst, inl, inr, List, [], ◌∷◌, Option, none, some, true, false,
  if◌then◌else◌, Bool-cases, tuple_eq, tuple_beq, tuple_beq_iff, arith,
}
use peek.Prelude.Membership.{contains}
use peek.Prelude.Dict.{get, put, get-put, get-delete, beq_refl}
use peek.Install.Text.{Text}
use peek.Install.Files.{Files, bak, copy, restore, restore_old, revert}
use peek.Install.Restored.{IsSafe, IsInstalled, HasNoBackup, bak_differs, differs_sym, IsSafe-agree}

-- There is no backup of these files.
abbrev pub IsUnsaved : List Text → Files → Type 0
IsUnsaved paths fs = (p : Text) → contains paths p ≡ true → get (bak p) fs ≡ none

-- What the files have after a restored backup.
get-restore_old :
    (p old : Text) (fs : Files) (n : ℕ) (k : Text)
    → get (bak p) fs ≡ some old
    → get k (restore_old p fs n (some old)).0
      ≡ (if tuple_beq (bak p) k then none else if tuple_beq p k then some old else get k fs)
unfolding copy
get-restore_old p old fs n k h =
    rw (h, copy, get-delete k (bak p) (put p old fs), get-put k p old fs) refl

head_in : (p : Text) (ps : List Text) → contains (p ∷ ps) p ≡ true
unfolding contains
head_in p ps = rw (beq_refl p) refl

tail_in : (p q : Text) (ps : List Text) → contains ps q ≡ true → contains (p ∷ ps) q ≡ true
unfolding contains
tail_in p q ps h = ground (arith, h)

record IsRestored (p : Text) (fs0 fs fs' : Files) : Type 0 where
  pub file : get p fs' ≡ get p fs0
  pub removed : get (bak p) fs' ≡ none
  pub rest : (k : Text) → tuple_beq p k ≡ false → tuple_beq (bak p) k ≡ false → get k fs' ≡ get k fs

restore_old-IsRestored :
    (p : Text) (fs0 fs : Files) (n : ℕ) (o : Option Text)
    → tuple_beq (bak p) p ≡ false
    → get (bak p) fs ≡ o
    → IsSafe fs0 fs p
    → IsRestored p fs0 fs (restore_old p fs n o).0
restore_old-IsRestored p fs0 fs n none apart h (inl (new, same)) = record {
  file = same;
  removed = new;
  rest = λ k a b. refl;
}
restore_old-IsRestored p fs0 fs n none apart h (inr (t, orig, old)) = let e = sym h ∙ old in cc
restore_old-IsRestored p fs0 fs n (some o) apart h (inl (new, same)) = let e = sym new ∙ h in cc
restore_old-IsRestored p fs0 fs n (some o) apart h (inr (t, orig, old)) = record {
  file = get-restore_old p o fs n p h ∙ (rw (apart, beq_refl p) refl ∙ (sym h ∙ (old ∙ sym orig)));
  removed = get-restore_old p o fs n (bak p) h ∙ rw (beq_refl (bak p)) refl;
  rest = λ k a b. get-restore_old p o fs n k h ∙ rw (b, a) refl;
}

module _ (p : Text) (ps : List Text) (fs0 fs fs' : Files) (apart : HasNoBackup (p ∷ ps))
    (unsaved : get (bak p) fs0 ≡ none) (r : IsRestored p fs0 fs fs') where
  restored-IsSafe :
      IsInstalled (p ∷ ps) fs0 fs → (q : Text) → contains ps q ≡ true → IsSafe fs0 fs' q
  restored-IsSafe i q m = elim (Bool-cases (tuple_beq p q)) [
    | inl here ↦ subst (IsSafe fs0 fs') ((tuple_beq_iff p q).0 here) (inl (r.removed, r.file))
    | inr other ↦
        let m' = tail_in p q ps m in
        IsSafe-agree fs0 fs fs' q (r.rest q other (apart p q (head_in p ps) m'))
          (r.rest (bak q) (differs_sym (bak q) p (apart q p m' (head_in p ps)))
            (bak_differs p q other))
          (i.safe q m')
  ]

  -- What is left to revert.
  restored-IsInstalled : IsInstalled (p ∷ ps) fs0 fs → IsInstalled ps fs0 fs'
  unfolding contains
  restored-IsInstalled i = record {
    safe = restored-IsSafe i;
    frame = λ k out out_bak. elim (Bool-cases (tuple_beq p k)) [
      | inl here ↦ subst (λ j. get j fs' ≡ get j fs0) ((tuple_beq_iff p k).0 here) r.file
      | inr other ↦ elim (Bool-cases (tuple_beq (bak p) k)) [
        | inl there ↦
            subst (λ j. get j fs' ≡ get j fs0) ((tuple_beq_iff (bak p) k).0 there)
              (r.removed ∙ sym unsaved)
        | inr apart' ↦ r.rest k other apart' ∙ i.frame k (rw other out) (rw apart' out_bak)
      ]
    ];
  }

pub revert-restores :
    (ps : List Text) (fs0 fs : Files) (n : ℕ)
    → HasNoBackup ps
    → IsUnsaved ps fs0
    → IsInstalled ps fs0 fs
    → (k : Text) → get k (revert ps (fs, n)).0 ≡ get k fs0
unfolding revert contains
revert-restores [] fs0 fs n apart unsaved i k = i.frame k refl refl
revert-restores (p ∷ ps) fs0 fs n apart unsaved i k =
    let there = head_in p ps in
    let st = restore p (fs, n) in
    let r =
      restore_old-IsRestored p fs0 fs n (get (bak p) fs) (apart p p there there) refl
        (i.safe p there) in
    revert-restores ps fs0 st.0 st.1
      (λ a b ma mb. apart a b (tail_in p a ps ma) (tail_in p b ps mb))
      (λ q m. unsaved q (tail_in p q ps m))
      (restored-IsInstalled p ps fs0 fs st.0 apart (unsaved p there) r i) k
