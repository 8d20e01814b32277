-- ===== src/Install/Restored.antt =====
-- `revert` after any number of installations.
use peek.Prelude.{
  ◌≡◌, refl, ◌∙◌, sym, ap, subst, ◌⊎◌, inl, inr, List, [], ◌∷◌, map, none, some, true, false,
  Bool-cases, tuple_eq, tuple_beq, tuple_beq_iff,
}
use mathlib.Core.List.{append_cancel_right}
use peek.Prelude.Membership.{contains}
use peek.Prelude.Dict.{get, beq_refl}
use peek.Install.Text.{Text, codes}
use peek.Install.Files.{Files, bak}
use peek.Install.Careful.{or_old, IsPatched, bak_itself}

-- A file that is as it was, or has a backup of what it was.
abbrev pub IsSafe : Files → Files → Text → Type 0
IsSafe fs0 fs p =
    ((get (bak p) fs ≡ none) × (get p fs ≡ get p fs0))
    ⊎ (t : Text) × (get p fs0 ≡ some t) × (get (bak p) fs ≡ some t)

-- Files with installed patches of these paths.
pub record IsInstalled (paths : List Text) (fs0 fs : Files) : Type 0 where
  pub safe : (p : Text) → contains paths p ≡ true → IsSafe fs0 fs p
  pub frame :
      (k : Text)
      → contains paths k ≡ false
      → contains (map bak paths) k ≡ false
      → get k fs ≡ get k fs0

-- No path is that of a backup.
abbrev pub HasNoBackup : List Text → Type 0
HasNoBackup paths =
    (p q : Text) → contains paths p ≡ true → contains paths q ≡ true → tuple_beq (bak p) q ≡ false

pub bak_differs : (q p : Text) → tuple_beq q p ≡ false → tuple_beq (bak q) (bak p) ≡ false
bak_differs q p other = elim (Bool-cases (tuple_beq (bak q) (bak p))) [
  | inl same ↦
      let e =
        append_cancel_right q p (codes ".peek_bak") ((tuple_beq_iff (bak q) (bak p)).0 same) in
      let h = (tuple_beq_iff q p).1 e in cc
  | inr differ ↦ differ
]

pub differs_sym : (q p : Text) → tuple_beq q p ≡ false → tuple_beq p q ≡ false
differs_sym q p other = elim (Bool-cases (tuple_beq p q)) [
  | inl same ↦ let h = (tuple_beq_iff q p).1 (sym ((tuple_beq_iff p q).0 same)) in cc
  | inr differ ↦ differ
]

pub not_in :
    (ks : List Text) (q k : Text)
    → contains ks q ≡ true
    → contains ks k ≡ false
    → tuple_beq q k ≡ false
not_in ks q k there missing = elim (Bool-cases (tuple_beq q k)) [
  | inl same ↦ let h = ap (contains ks) ((tuple_beq_iff q k).0 same) in cc
  | inr differ ↦ differ
]

pub contains-map-bak :
    (ks : List Text) (q : Text) → contains ks q ≡ true → contains (map bak ks) (bak q) ≡ true
unfolding contains
contains-map-bak [] q h = cc
contains-map-bak (k ∷ ks) q h = elim (Bool-cases (tuple_beq k q)) [
  | inl same ↦ rw ((tuple_beq_iff k q).0 same, beq_refl (bak q)) refl
  | inr other ↦ rw (bak_differs k q other) (contains-map-bak ks q (rw other at h))
]

-- Where the files agree, a file stays safe.
pub IsSafe-agree :
    (fs0 fs fs' : Files) (p : Text)
    → get p fs' ≡ get p fs
    → get (bak p) fs' ≡ get (bak p) fs
    → IsSafe fs0 fs p
    → IsSafe fs0 fs' p
IsSafe-agree fs0 fs fs' p here there (inl (new, same)) = inl (there ∙ new, here ∙ same)
IsSafe-agree fs0 fs fs' p here there (inr (t, orig, old)) = inr (t, orig, there ∙ old)

patched-IsSafe :
    (paths : List Text) (fs0 fs fs' : Files) (q : Text)
    → HasNoBackup paths
    → contains paths q ≡ true
    → IsPatched q fs fs'
    → (p : Text) → contains paths p ≡ true
    → IsSafe fs0 fs p
    → IsSafe fs0 fs' p
patched-IsSafe paths fs0 fs fs' q apart mq (inl same) p mp s =
    IsSafe-agree fs0 fs fs' p (same p) (same (bak p)) s
patched-IsSafe paths fs0 fs fs' q apart mq (inr (t, there, only)) p mp s =
    elim (Bool-cases (tuple_beq q p)) [
      | inl here ↦
          let e = (tuple_beq_iff q p).0 here in
          subst (IsSafe fs0 fs') e (own (subst (IsSafe fs0 fs) (sym e) s))
      | inr other ↦
          IsSafe-agree fs0 fs fs' p (only p other ∙ rw (apart q p mq mp) refl)
            (only (bak p) (differs_sym (bak p) q (apart p q mp mq))
              ∙ rw (bak_differs q p other) refl)
            s
    ]
  where
    own_bak : get (bak q) fs' ≡ some (or_old t (get (bak q) fs))
    own_bak = only (bak q) (differs_sym (bak q) q (apart q q mq mq)) ∙ bak_itself q t fs

    own : IsSafe fs0 fs q → IsSafe fs0 fs' q
    own (inl (new, same)) = inr (t, sym same ∙ there, own_bak ∙ rw new refl)
    own (inr (o, orig, old)) = inr (o, orig, own_bak ∙ rw old refl)

-- A patch of one of the paths keeps the files installed.
pub patched-IsInstalled :
    (paths : List Text) (fs0 fs fs' : Files) (q : Text)
    → HasNoBackup paths
    → contains paths q ≡ true
    → IsPatched q fs fs'
    → IsInstalled paths fs0 fs
    → IsInstalled paths fs0 fs'
patched-IsInstalled paths fs0 fs fs' q apart mq patched i = record {
  safe = λ p mp. patched-IsSafe paths fs0 fs fs' q apart mq patched p mp (i.safe p mp);
  frame = λ k out out_bak. outside patched k out out_bak ∙ i.frame k out out_bak;
}
  where
    outside :
        IsPatched q fs fs'
        → (k : Text) → contains paths k ≡ false
        → contains (map bak paths) k ≡ false
        → get k fs' ≡ get k fs
    outside (inl same) k out out_bak = same k
    outside (inr (t, there, only)) k out out_bak =
        only k (not_in paths q k mq out)
        ∙ rw (not_in (map bak paths) (bak q) k (contains-map-bak paths q mq) out_bak) refl
