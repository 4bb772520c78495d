-- ===== src/Sync/FdTable/Laws.antt =====
-- The two tiers are one map from file descriptors below the limit.
use native.Mathlib.Decide.{ℕ_discrete}
use velo_rift.Prelude.{
  ℕ, ◌/◌, ◌%◌, ◌<◌, ◌≡◌, ◌≢◌, refl, sym, ap, ◌∙◌, subst, Option, none, some, true, false, ◌&&◌,
  ◌==◌, ==_iff, if◌then◌else◌, ltb, leb, get_or, set, length, length-set, length-replicate,
  get_or-set_self, get_or-set_ne, get_or-replicate, arith, Bool-cases, inl, inr,
}
use velo_rift.Sync.FdTable.{
  FdTable, Tier2, tier1_size, tier2_size, max_fds, new, tier2_or_new, set_entry, entry_in,
  get_entry,
}

pub record IsTable {FdEntry : Type 0} (table : FdTable FdEntry) : Type 0 where
  pub width : length table ≡ tier1_size
  pub tier_width :
      (i : ℕ) (tier2 : Tier2 FdEntry) → get_or table i none ≡ some tier2 → length tier2 ≡ tier2_size

pub new-IsTable : {FdEntry : Type 0} → IsTable {FdEntry = FdEntry} new
unfolding new
new-IsTable {FdEntry} = record {
  width = length-replicate {A = Option (Tier2 FdEntry)} tier1_size none;
  tier_width = λ i tier2 e.
      let n = get_or-replicate {A = Option (Tier2 FdEntry)} tier1_size i none in
      absurd (ground arith);
}

module _ {FdEntry : Type 0} where
  length-tier2_or_new :
      (o : Option (Tier2 FdEntry))
      → ((tier2 : Tier2 FdEntry) → o ≡ some tier2 → length tier2 ≡ tier2_size)
      → length (tier2_or_new o) ≡ tier2_size
  length-tier2_or_new none w = length-replicate {A = Option FdEntry} tier2_size none
  length-tier2_or_new (some tier2) w = w tier2 refl

  tier2_or_new-entry :
      (o : Option (Tier2 FdEntry)) (i : ℕ) → get_or (tier2_or_new o) i none ≡ entry_in o i
  tier2_or_new-entry none i = get_or-replicate {A = Option FdEntry} tier2_size i none
  tier2_or_new-entry (some tier2) i = refl

  module _ (fd : ℕ) (e : Option FdEntry) (table : FdTable FdEntry) (is_table : IsTable table)
      (lt : fd < max_fds) where
    abbrev i1 : ℕ
    i1 = fd / tier2_size

    abbrev i2 : ℕ
    i2 = fd % tier2_size

    abbrev written : Tier2 FdEntry
    written = set (tier2_or_new (get_or table i1 none)) i2 e

    abbrev after : FdTable FdEntry
    after = set table i1 (some written)

    in_tier1 : i1 < length table
    in_tier1 = let w = is_table.width in omega arith

    length-tier2 : length (tier2_or_new (get_or table i1 none)) ≡ tier2_size
    length-tier2 = length-tier2_or_new (get_or table i1 none) (is_table.tier_width i1)

    in_tier2 : i2 < length (tier2_or_new (get_or table i1 none))
    in_tier2 = let w = length-tier2 in omega arith

    after-IsTable : IsTable after
    after-IsTable = record {
      width = length-set table i1 (some written) ∙ is_table.width;
      tier_width = λ i tier2 s. elim (ℕ_discrete i1 i) [
        | yes eq ↦
            let self = get_or-set_self table i1 (some written) none in_tier1 in
            let s' : some written ≡ some tier2 = sym self ∙ ap (λ k. get_or after k none) eq ∙ s in
            let same : written ≡ tier2 = ground arith in
            ap length (sym same) ∙ length-set _ i2 e ∙ length-tier2
        | no ne ↦
            is_table.tier_width i tier2 (sym (get_or-set_ne table i1 i (some written) none ne) ∙ s)
      ];
    }

    after-entry_self : entry_in (get_or after i1 none) i2 ≡ e
    after-entry_self =
        rw (get_or-set_self table i1 (some written) none in_tier1)
          (get_or-set_self (tier2_or_new (get_or table i1 none)) i2 e none in_tier2)

    after-entry_other :
        (g : ℕ)
        → fd ≢ g
        → entry_in (get_or after (g / tier2_size) none) (g % tier2_size)
          ≡ entry_in (get_or table (g / tier2_size) none) (g % tier2_size)
    after-entry_other g ne = elim (ℕ_discrete i1 (g / tier2_size)) [
      | no apart ↦ rw (get_or-set_ne table i1 (g / tier2_size) (some written) none apart) refl
      | yes eq ↦
          let apart : i2 ≢ g % tier2_size = λ p. ne (omega arith) in
          subst
            (λ k.
              entry_in (get_or after k none) (g % tier2_size)
              ≡ entry_in (get_or table k none) (g % tier2_size))
            eq
            (rw (get_or-set_self table i1 (some written) none in_tier1) (
              get_or-set_ne (tier2_or_new (get_or table i1 none)) i2 (g % tier2_size) e none apart
              ∙ tier2_or_new-entry (get_or table i1 none) (g % tier2_size)))
    ]

  -- In a table whose tiers have their sizes, `set` returns what `get` of the descriptor returned
  -- before, and after it the descriptor reads as the new entry if it is below the limit. Every
  -- other descriptor reads as before, and the tiers keep their sizes.
  pub set_entry-get :
      (fd g : ℕ) (e : Option FdEntry) (table : FdTable FdEntry)
      → IsTable table
      → IsTable ((set_entry fd e table).0)
        × ((set_entry fd e table).1 ≡ get_entry fd table)
        × (get_entry g ((set_entry fd e table).0)
            ≡ (if ltb fd max_fds && fd == g then e else get_entry g table))
  unfolding set_entry get_entry
  set_entry-get fd g e table is_table = elim (Bool-cases (leb max_fds fd)) [
    | inl t ↦
        let beyond : ltb fd max_fds ≡ false = ground arith in rw (t, beyond) (is_table, refl, refl)
    | inr f ↦
        let lt : fd < max_fds = ground arith in
        let below : ltb fd max_fds ≡ true = ground arith in
        rw (f, below)
          (
            after-IsTable fd e table is_table lt,
            tier2_or_new-entry (get_or table (fd / tier2_size) none) (fd % tier2_size),
            elim (Bool-cases (fd == g)) [
              | inl eq ↦
                  let p : fd ≡ g = (==_iff fd g).0 eq in
                  let within : leb max_fds g ≡ false = ground arith in
                  rw (eq, within)
                    (subst
                      (λ k.
                        entry_in (get_or (after fd e table is_table lt) (k / tier2_size) none)
                          (k % tier2_size)
                        ≡ e)
                      p (after-entry_self fd e table is_table lt))
              | inr apart ↦ rw apart (elim (Bool-cases (leb max_fds g)) [
                | inl t ↦ rw t refl
                | inr w ↦
                    rw w (after-entry_other fd e table is_table lt g (λ p. absurd (ground arith)))
              ])
            ],
          )
  ]
