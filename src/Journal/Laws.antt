-- ===== src/Journal/Laws.antt =====
-- What the entries of the journal are after each operation (crates/vrift-vdird/src/journal.rs).
use velo_rift.Journal.{
  JournalEntry, Entries, Codec, FlushAnswers, ReingestJournal, is_hashed, hashed_values,
  recoverable_entries, remove_all, stale_keys, threshold_at, flushing, record_intent, put_cas_hash,
  complete, cleanup_stale,
}
use velo_rift.Journal.Durable.{Operation, recorded, hashed, completed, cleaned, step}
use velo_rift.Prelude.Assoc.{
  lookup, remove, IsMap, lookup-insert, lookup-remove, insert-IsMap, remove-IsMap, lookup_congr,
}
use velo_rift.Prelude.Loop.{map_option}
use velo_rift.Prelude.Text.{Text, text_eq, text_beq, text_beq_refl}
use velo_rift.Prelude.{
  ℕ, ◌≡◌, ◌↔◌, refl, sym, ap, ◌∙◌, Any, List, [], ◌∷◌, Option, none, some, Bool, true, false, ◌||◌,
  ltb, ◌==◌, if◌then◌else◌, length, arith, Bool-cases, Option-cases, inl, inr,
}

-- what an operation makes of the entry under the path `q`
abbrev pub is_older : ℕ → Option JournalEntry → Bool
is_older threshold none = false
is_older threshold (some entry) = ltb entry.started_at threshold

abbrev pub with_hash : List ℕ → JournalEntry → JournalEntry
with_hash hash entry = record entry { cas_hash = some hash }

abbrev pub entry_after : Operation → Text → Option JournalEntry → Option JournalEntry
entry_after (recorded now vpath temp_path) q before =
    if text_beq vpath q
    then some (record { vpath = vpath; temp_path = temp_path; cas_hash = none; started_at = now })
    else before
entry_after (hashed vpath hash) q before =
    if text_beq vpath q then map_option (with_hash hash) before else before
entry_after (completed vpath) q before = if text_beq vpath q then none else before
entry_after (cleaned now max_age) q before =
    if is_older (threshold_at now max_age) before then none else before

among : Text → List Text → Bool
among q [] = false
among q (key ∷ keys) = let rest = among q keys in text_beq key q || rest

remove_all-lookup :
    (q : Text) (keys : List Text) (m : Entries)
    → lookup q (remove_all keys m) ≡ (if among q keys then none else lookup q m)
unfolding among remove_all
remove_all-lookup q [] m = refl
remove_all-lookup q (key ∷ keys) m =
    let rest = remove_all-lookup q keys (remove key m) in
    let one = lookup-remove key q m in ground (arith, rest, one)

remove_all-IsMap : (keys : List Text) (m : Entries) → IsMap m → IsMap (remove_all keys m)
unfolding remove_all
remove_all-IsMap [] m u = u
remove_all-IsMap (key ∷ keys) m u = remove_all-IsMap keys (remove key m) (remove-IsMap key m u)

stale_keys-among :
    (threshold : ℕ) (q : Text) (m : Entries)
    → IsMap m
    → among q (stale_keys threshold m) ≡ is_older threshold (lookup q m)
unfolding among stale_keys lookup
stale_keys-among threshold q [] u = refl
stale_keys-among threshold q ((key, entry) ∷ m) u =
    let rest = stale_keys-among threshold q m u.1 in
    elim (Bool-cases (text_beq key q)) [
      | inl t ↦
          let gone : lookup q m ≡ none = sym (lookup_congr key q m t) ∙ u.0 in
          let none_older : among q (stale_keys threshold m) ≡ false =
            rest ∙ ap (is_older threshold) gone in
          rw t (ground (arith, none_older))
      | inr f ↦ rw f (ground (arith, rest))
    ]

module _ (c : Codec) where
  -- Each operation, whether its flush fails or not, keeps one entry for a path at most, and makes
  -- of the entry of every path in memory what `entry_after` says: a record sets the path's entry,
  -- a hash is added to it if there is one, completion removes it, and a cleanup removes exactly the
  -- entries that began before the threshold.
  pub step-lookup :
      (a : FlushAnswers) (op : Operation) (q : Text) (j : ReingestJournal)
      → IsMap j.entries
      → IsMap (step c a op j).0.entries
        × (lookup q (step c a op j).0.entries ≡ entry_after op q (lookup q j.entries))
  unfolding step record_intent put_cas_hash complete cleanup_stale flushing
  step-lookup a (recorded now vpath temp_path) q j u =
      let entry : JournalEntry = record {
        vpath = vpath;
        temp_path = temp_path;
        cas_hash = none;
        started_at = now;
      } in
      (insert-IsMap vpath entry j.entries u, lookup-insert vpath q entry j.entries)
  step-lookup a (hashed vpath hash) q j u = elim (Option-cases (lookup vpath j.entries)) [
    | inl n ↦
        rw (n, step, put_cas_hash)
          (
            u,
            elim (Bool-cases (text_beq vpath q)) [
              | inl t ↦
                  let gone : lookup q j.entries ≡ none =
                    sym (lookup_congr vpath q j.entries t) ∙ n in
                  rw (t, gone) refl
              | inr f ↦ rw f refl
            ],
          )
    | inr (entry, s) ↦
        let entry' = with_hash hash entry in
        rw (s, step, put_cas_hash)
          (
            insert-IsMap vpath entry' j.entries u,
            lookup-insert vpath q entry' j.entries ∙ elim (Bool-cases (text_beq vpath q)) [
              | inl t ↦
                  let same : lookup q j.entries ≡ some entry =
                    sym (lookup_congr vpath q j.entries t) ∙ s in
                  rw (t, same) refl
              | inr f ↦ rw f refl
            ],
          )
  ]
  step-lookup a (completed vpath) q j u = elim (Option-cases (lookup vpath j.entries)) [
    | inl n ↦
        rw (n, step, complete)
          (
            u,
            elim (Bool-cases (text_beq vpath q)) [
              | inl t ↦
                  let gone : lookup q j.entries ≡ none =
                    sym (lookup_congr vpath q j.entries t) ∙ n in
                  rw (t, gone) refl
              | inr f ↦ rw f refl
            ],
          )
    | inr (entry, s) ↦
        rw (s, step, complete) (remove-IsMap vpath j.entries u, lookup-remove vpath q j.entries)
  ]
  step-lookup a (cleaned now max_age) q j u =
      let threshold = threshold_at now max_age in
      let keys = stale_keys threshold j.entries in
      let kept = remove_all-IsMap keys j.entries u in
      let seen : lookup q (remove_all keys j.entries)
          ≡ (if is_older threshold (lookup q j.entries) then none else lookup q j.entries) =
        remove_all-lookup q keys j.entries
        ∙ ap (λ b. if b then none else lookup q j.entries)
            (stale_keys-among threshold q j.entries u) in
      elim (Bool-cases (length keys == 0)) [
        | inl t ↦ rw (t, step, cleanup_stale) (kept, seen)
        | inr f ↦ rw (f, step, cleanup_stale) (kept, seen)
      ]

listed→found :
    (entry : JournalEntry) (m : Entries)
    → IsMap m
    → Any (λ x. x ≡ entry) (hashed_values m)
    → ((p : Text) × (lookup p m ≡ some entry)) × (is_hashed entry ≡ true)
unfolding hashed_values lookup
listed→found entry [] u h = absurd h
listed→found entry ((key, first) ∷ m) u h = elim (Bool-cases (is_hashed first)) [
  | inl t ↦
      let h' : Any (λ x. x ≡ entry) (first ∷ hashed_values m) = rw t at h in
      elim h' [
        | inl same ↦ ((key, rw (text_beq_refl key) (ap some same)), sym (ap is_hashed same) ∙ t)
        | inr more ↦ later (listed→found entry m u.1 more)
      ]
  | inr f ↦
      let h' : Any (λ x. x ≡ entry) (hashed_values m) = rw f at h in
      later (listed→found entry m u.1 h')
]
  where
    later :
        ((p : Text) × (lookup p m ≡ some entry)) × (is_hashed entry ≡ true)
        → ((p : Text) × (lookup p ((key, first) ∷ m) ≡ some entry)) × (is_hashed entry ≡ true)
    later ((p, s), t) = elim (Bool-cases (text_beq key p)) [
      | inl same ↦
          let bad : none ≡ some entry = sym u.0 ∙ (lookup_congr key p m same ∙ s) in absurd (cc)
      | inr other ↦ ((p, rw other s), t)
    ]

found→listed :
    (entry : JournalEntry) (p : Text) (m : Entries)
    → lookup p m ≡ some entry
    → is_hashed entry ≡ true
    → Any (λ x. x ≡ entry) (hashed_values m)
unfolding hashed_values lookup
found→listed entry p [] s t = absurd (cc)
found→listed entry p ((key, first) ∷ m) s t = elim (Bool-cases (text_beq key p)) [
  | inl same ↦
      let it : some first ≡ some entry = rw same at s in
      let first_e : first ≡ entry = cc in
      let hashed_first : is_hashed first ≡ true = ap is_hashed first_e ∙ t in
      rw hashed_first (inl first_e)
  | inr other ↦
      let rest = found→listed entry p m (rw other at s) t in
      elim (Bool-cases (is_hashed first)) [ inl h ↦ rw h (inr rest) | inr f ↦ rw f rest ]
]

-- Recovery returns exactly the entries that are in memory and have a hash.
pub recoverable_entries_iff :
    (entry : JournalEntry) (j : ReingestJournal)
    → IsMap j.entries
    → Any (λ x. x ≡ entry) (recoverable_entries j)
      ↔ (((p : Text) × (lookup p j.entries ≡ some entry)) × (is_hashed entry ≡ true))
unfolding recoverable_entries
recoverable_entries_iff entry j u =
    (listed→found entry j.entries u, λ f. let ((p, s), t) = f in found→listed entry p j.entries s t)
