-- ===== src/Scheduler/Detect.antt =====
-- `detect_sharing` and `detect_sharing_sglang`.
use mathlib.Core.Bool.{not}
use mathlib.Core.List.{
  Nodup, Nodup-cons, Mem, mem-cons, mem-cons_self, mem-cons_of_mem, not-mem-nil, mem-cast,
}
use mathlib.Core.List.Pairwise
use mathlib.Core.Logic.Or
use peek.Prelude.{
  ℕ, suc, ◌≤◌, ◌≡◌, ◌↔◌, refl, sym, ap, List, [], ◌∷◌, map, Bool, true, false, arith, length, inl,
  inr, take, select, leb, if◌then◌else◌, Eq, tuple_eq, Bool-cases,
}
use peek.Prelude.Membership.{contains, contains_iff}
use peek.Trie.Data.{is_nil}
use peek.Scheduler.Data.{SglangRequest, ids_or_empty}

module _ {ℓ} {K : Type ℓ} ⦃e : Eq K⦄ where
  -- The loop, with the keys seen so far.
  unfoldable pub detect_from : List K → List K → Bool
  unfolding contains
  detect_from seen [] = false
  detect_from seen (key ∷ keys) = if contains seen key then true else detect_from (key ∷ seen) keys

  unfoldable pub detect_sharing : List K → Bool
  unfolding detect_from
  detect_sharing prefix_keys = detect_from [] prefix_keys

-- The key of a request: `tuple(ids[:key_len]) if len(ids) >= key_len else tuple(ids)`.
abbrev pub key_of : ℕ → List ℕ → List ℕ
key_of key_len ids = if leb key_len (length ids) then take key_len ids else ids

-- Requests without token ids are skipped.
unfoldable pub detect_sglang_from : ℕ → List (List ℕ) → List SglangRequest → Bool
unfolding contains
detect_sglang_from key_len seen [] = false
detect_sglang_from key_len seen (r ∷ rs) =
    let ids = ids_or_empty r.origin_input_ids in
    if is_nil ids
    then detect_sglang_from key_len seen rs
    else if contains seen (key_of key_len ids)
    then true
    else detect_sglang_from key_len (key_of key_len ids ∷ seen) rs

unfoldable pub detect_sharing_sglang : ℕ → List SglangRequest → Bool
unfolding detect_sglang_from
detect_sharing_sglang key_len waiting_queue = detect_sglang_from key_len [] waiting_queue

module _ {ℓ} {K : Type ℓ} ⦃e : Eq K⦄ where
  -- What `seen` and the rest of the keys must satisfy for the loop to find nothing.
  record IsFresh (seen keys : List K) : Type ℓ where
    distinct : Nodup keys
    unseen : (k : K) → Mem k keys → ¬ Mem k seen

  IsFresh-tail :
      (seen : List K) (k : K) (ks : List K)
      → ¬ Mem k seen
      → IsFresh (k ∷ seen) ks
      → IsFresh seen (k ∷ ks)
  IsFresh-tail seen k ks n f = record {
    distinct = Nodup-cons.1 (λ m. f.unseen k m mem-cons_self, f.distinct);
    unseen = λ j m s.
        Or.elim (hlevel) (mem-cons.0 m) (λ q. n (mem-cast (sym q) s))
          (λ m'. f.unseen j m' (mem-cons_of_mem k s));
  }

  IsFresh-cons :
      (seen : List K) (k : K) (ks : List K) → IsFresh seen (k ∷ ks) → IsFresh (k ∷ seen) ks
  IsFresh-cons seen k ks f = record {
    distinct = (Nodup-cons.0 f.distinct).1;
    unseen = λ j m s.
        Or.elim (hlevel) (mem-cons.0 s) (λ q. (Nodup-cons.0 f.distinct).0 (mem-cast (sym q) m))
          (λ s'. f.unseen j (mem-cons_of_mem k m) s');
  }

  detect_from→IsFresh : (seen keys : List K) → detect_from seen keys ≡ false → IsFresh seen keys
  unfolding detect_from
  detect_from→IsFresh seen [] h = record {
    distinct = Pairwise.nil;
    unseen = λ k m s. not-mem-nil m;
  }
  detect_from→IsFresh seen (k ∷ ks) h = elim (Bool-cases (contains seen k)) [
    | inl q ↦ absurd (let h' = rw q at h in cc)
    | inr q ↦
        IsFresh-tail seen k ks (λ m. let t = (contains_iff seen k).1 m in cc)
          (detect_from→IsFresh (k ∷ seen) ks (rw q at h))
  ]

  IsFresh→detect_from : (seen keys : List K) → IsFresh seen keys → detect_from seen keys ≡ false
  unfolding detect_from
  IsFresh→detect_from seen [] f = refl
  IsFresh→detect_from seen (k ∷ ks) f = elim (Bool-cases (contains seen k)) [
    | inl q ↦ absurd (f.unseen k mem-cons_self ((contains_iff seen k).0 q))
    | inr q ↦ rw q (IsFresh→detect_from (k ∷ seen) ks (IsFresh-cons seen k ks f))
  ]

  -- `detect_sharing` returns False exactly when no key occurs twice.
  pub detect_sharing_iff : (keys : List K) → (detect_sharing keys ≡ false) ↔ Nodup keys
  unfolding detect_sharing
  detect_sharing_iff keys = (
    λ h. (detect_from→IsFresh [] keys h).distinct,
    λ d. IsFresh→detect_from [] keys (record { distinct = d; unseen = λ k m s. not-mem-nil s }),
  )

-- The token sequences of the requests that have one.
abbrev pub token_sequences : List SglangRequest → List (List ℕ)
token_sequences rs = select (λ s. not (is_nil s)) (map (λ r. ids_or_empty r.origin_input_ids) rs)

pub key_of-take : (n : ℕ) (ids : List ℕ) → key_of n ids ≡ take n ids
key_of-take n ids = elim (Bool-cases (leb n (length ids))) [
  | inl q ↦ rw q refl
  | inr q ↦ rw q (sym (take_all n ids (ground arith)))
]
  where
    take_all : (k : ℕ) (xs : List ℕ) → length xs ≤ k → take k xs ≡ xs
    take_all Prim.Native.Nat.zero [] h = refl
    take_all Prim.Native.Nat.zero (x ∷ xs) h = absurd (omega arith)
    take_all (suc k) [] h = refl
    take_all (suc k) (x ∷ xs) h = ap (◌∷◌ x) (take_all k xs (omega arith))

detect_sglang_from-keys :
    (n : ℕ) (seen : List (List ℕ)) (rs : List SglangRequest)
    → detect_sglang_from n seen rs ≡ detect_from seen (map (take n) (token_sequences rs))
unfolding detect_sglang_from detect_from
detect_sglang_from-keys n seen [] = refl
detect_sglang_from-keys n seen (r ∷ rs) =
    elim (Bool-cases (is_nil (ids_or_empty r.origin_input_ids))) [
      | inl q ↦ rw q (detect_sglang_from-keys n seen rs)
      | inr q ↦
          rw (q, key_of-take n (ids_or_empty r.origin_input_ids))
            (ap (if◌then◌else◌ (contains seen (take n (ids_or_empty r.origin_input_ids))) true)
              (detect_sglang_from-keys n (take n (ids_or_empty r.origin_input_ids) ∷ seen) rs))
    ]

-- `detect_sharing_sglang` returns False exactly when no two requests with token ids have the same
-- first `n` tokens, n being the key length.
pub detect_sharing_sglang_iff :
    (n : ℕ) (rs : List SglangRequest)
    → (detect_sharing_sglang n rs ≡ false) ↔ Nodup (map (take n) (token_sequences rs))
unfolding detect_sharing_sglang detect_sharing
detect_sharing_sglang_iff n rs =
    rw (detect_sglang_from-keys n [] rs) (detect_sharing_iff (map (take n) (token_sequences rs)))
