-- ===== src/Reorder/Linked.antt =====
-- Every prompt that the dispatcher remembers for removal is in its trie.
use mathlib.Core.List.{Perm, mem-cons_self, append_assoc}
use mathlib.Core.List.Perm
use mathlib.Core.Option.{some-injective, bind}
use peek.Prelude.{
  refl, ℕ, ◌≡◌, ◌∙◌, sym, ap, subst, List, [], ◌∷◌, ◌++◌, map, some, take, tuple_eq, bind-eq-some,
}
use peek.Prelude.Dict.{get, put, delete}
use peek.Trie.Data.{new_trie, stored, Item, contents}
use peek.Trie.Update.{insert}
use peek.Trie.Insert.{contents-insert}
use peek.Trie.Remove.{remove-perm}
use peek.Trie.Found.{remove_iff}
use peek.Reorder.Dispatcher.{
  count_of, new_dispatcher, enrol, Dispatcher, Sent, submit, withdraw, remove_prompt, push_pending,
  pending_counts, rank_of, lookup,
}
use peek.Reorder.Build.{new_trie-IsValid}
use peek.Reorder.Tracked.{stored_with}
use peek.Reorder.Hashed.{enrol-IsSound, IsSound, submit-IsSound, remove_prompt-IsSound}
use peek.Reorder.Remembered.{item_of, get-Leaves, put-Leaves}

-- A sound state whose trie has a prompt for each one that is remembered.
pub record IsLinked (d : Dispatcher) : Type 0 where
  pub sound : IsSound d
  pub others : List Item
  pub held : Perm (contents d.trie.root) (map (item_of d.max_depth) d.rid_to_remove_info ++ others)

-- What `_push_pending_to_server` keeps.
pushed_keeps :
    (d d' : Dispatcher)
    → push_pending d ≡ some d'
    → (pending : List (ℕ × ℕ)) × (d' ≡ record d { client_pending = pending })
unfolding push_pending bind
pushed_keeps d d' h =
    let (pending, e, q) =
      bind-eq-some (pending_counts d.group_hashes d.group_count)
        (λ p. some (record d { client_pending = p })) h in
    (pending, sym (some-injective _ _ q))

abbrev forgetting : List ℕ → Dispatcher → Dispatcher
forgetting rid d = record d { rid_to_remove_info = delete rid d.rid_to_remove_info }

forgetting-IsSound : (rid : List ℕ) (d : Dispatcher) → IsSound d → IsSound (forgetting rid d)
forgetting-IsSound rid d s = record {
  tracked = record {
    valid = s.tracked.valid;
    depth = s.tracked.depth;
    distinct = s.tracked.distinct;
    counts = s.tracked.counts;
  };
  hashed = s.hashed;
}

-- The prompt of a request that is remembered and forgotten now is removed without an error.
pub unlink-IsLinked :
    (rid token_ids : List ℕ) (i : ℕ) (d : Dispatcher)
    → get rid d.rid_to_remove_info ≡ some (token_ids, i)
    → IsLinked d
    → (d' : Dispatcher) × (remove_prompt token_ids i (forgetting rid d) ≡ some d') × IsLinked d'
unfolding remove_prompt withdraw
unlink-IsLinked rid token_ids i d h l =
    let (more, p) = get-Leaves d.max_depth rid (token_ids, i) d.rid_to_remove_info h in
    let held = Perm.trans l.held (Perm.append_right l.others p) in
    let held' =
      subst
        (λ m. Perm (contents d.trie.root) (
          (take m token_ids, i)
            ∷ (map (item_of d.max_depth) (delete rid d.rid_to_remove_info) ++ more)
          ++ l.others))
        (sym l.sound.tracked.depth) held in
    let found =
      (remove_iff token_ids i d.trie l.sound.tracked.valid).1
        ((Perm.mem_iff held').1 mem-cons_self) in
    let (d', e, s) =
      remove_prompt-IsSound token_ids i (forgetting rid d) (forgetting-IsSound rid d l.sound)
        found in
    let (pending, q) = pushed_keeps (withdraw token_ids i (forgetting rid d)) d' e in
    let removed = (remove-perm token_ids i d.trie l.sound.tracked.valid found).0 in
    (
      d',
      e,
      record {
        sound = s;
        others = more ++ l.others;
        held =
            rw
              (
                q,
                sym (
                    append_assoc (map (item_of d.max_depth) (delete rid d.rid_to_remove_info)) more
                      l.others),
              )
              (Perm.cons_inv (Perm.trans (Perm.symm removed) held'));
      },
    )

-- The new state is that of `enrol` with new pending counts.
submitted_keeps :
    (hash : List ℕ → ℕ) (token_ids rid : List ℕ) (d : Dispatcher) (r : Dispatcher × Sent)
    → submit hash token_ids rid d ≡ some r
    → (pending : List (ℕ × ℕ)) × (r.0
        ≡ record (enrol hash token_ids rid d) { client_pending = pending })
unfolding submit bind
submitted_keeps hash token_ids rid d r h =
    let d' = enrol hash token_ids rid d in
    let key = take d.max_depth token_ids in
    let send : ℕ → Dispatcher → Dispatcher × Sent =
      λ x p. (p, record { rank = rank_of key d'; group_key = x; rid = rid }) in
    let (x, e, next) =
      bind-eq-some (lookup key d'.group_hashes) (λ x. bind (push_pending d') (λ p. some (send x p)))
        h in
    let (p, pushed, q) = bind-eq-some (push_pending d') (λ p. some (send x p)) next in
    let (pending, same) = pushed_keeps d' p pushed in
    (pending, sym (ap (λ (r : Dispatcher × Sent). r.0) (some-injective _ _ q)) ∙ same)

-- A prompt that is stored is remembered.
pub enrol-IsLinked :
    (hash : List ℕ → ℕ) (token_ids rid : List ℕ) (d : Dispatcher)
    → IsLinked d
    → IsLinked (enrol hash token_ids rid d)
unfolding enrol
enrol-IsLinked hash token_ids rid d l =
    let stored =
      subst
        (λ m.
          Perm (contents (insert token_ids d.next_idx d.trie).root)
            ((take m token_ids, d.next_idx) ∷ contents d.trie.root))
        l.sound.tracked.depth (contents-insert token_ids d.next_idx d.trie) in
    let infos = d.rid_to_remove_info in
    let (more, p) = put-Leaves d.max_depth rid (token_ids, d.next_idx) infos in
    record {
      sound = enrol-IsSound hash token_ids rid d l.sound;
      others = more ++ l.others;
      held =
          rw
            (sym (
              append_assoc (map (item_of d.max_depth) (put rid (token_ids, d.next_idx) infos)) more
                l.others))
            (Perm.trans stored (Perm.trans (Perm.cons _ l.held) (Perm.append_right l.others p)));
    }

-- From a state where each group's count is the number of its prompts in the trie, each counted
-- group has a hash, and the trie has each prompt that is remembered for removal, `submit` raises
-- no KeyError and leaves such a state.
pub submit-IsLinked :
    (hash : List ℕ → ℕ) (token_ids rid : List ℕ) (d : Dispatcher)
    → IsLinked d
    → (r : Dispatcher × Sent) × (submit hash token_ids rid d ≡ some r) × IsLinked r.0
submit-IsLinked hash token_ids rid d l =
    let (r, e, s) = submit-IsSound hash token_ids rid d l.sound in
    let (pending, q) = submitted_keeps hash token_ids rid d r e in
    let l' = enrol-IsLinked hash token_ids rid d l in
    (r, e, record { sound = s; others = l'.others; held = rw q l'.held })

empty_count :
    (depth : ℕ) (k : List ℕ) → count_of k [] ≡ stored_with k (contents (new_trie depth).root)
unfolding stored
empty_count depth k = refl

-- A new dispatcher has nothing in its trie, and remembers nothing.
pub new_dispatcher-IsLinked : (depth : ℕ) → IsLinked (new_dispatcher depth)
unfolding stored
new_dispatcher-IsLinked depth = record {
  sound = record {
    tracked = record {
      valid = new_trie-IsValid depth;
      depth = refl;
      distinct = tt;
      counts = empty_count depth;
    };
    hashed = tt;
  };
  others = [];
  held = Perm.rfl;
}
