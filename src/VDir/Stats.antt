-- ===== src/VDir/Stats.antt =====
-- `get_stats` of crates/vrift-vdird/src/vdir.rs. The two quotients, of floating point, are given by
-- their numerator and denominator.
use velo_rift.Prelude.{
  ℕ, ◌+◌, ◌-◌, ◌%◌, ◌≤◌, ◌<◌, max, ◌≡◌, refl, sym, ap, ◌∙◌, List, [], ◌∷◌, leb, if◌then◌else◌, take,
  length, count_if, arith, Bool-cases, inl, inr, take-length,
}
use velo_rift.VDir.Placed.{is_occupied}
use velo_rift.VDir.Store.{VDir}
use velo_rift.VDir.Types.{VDirEntry, is_empty}
use velo_rift.VDir.Write.{IsTable}
use native.Mathlib.Nat.{mod-lt}

-- what the loop counts
pub record ChainCounts : Type 0 where
  pub occupied : ℕ
  pub max_chain : ℕ
  pub total_chain : ℕ

pub record VDirStats : Type 0 where
  pub capacity : ℕ
  pub entry_count : ℕ
  pub max_collision_chain : ℕ
  -- `avg_collision_chain` is `total_chain / entry_count`, and `load_factor` is
  -- `entry_count / capacity`; each is 0 where it would divide by 0
  pub total_chain : ℕ
  pub generation : ℕ

abbrev pub chain_len : ℕ → ℕ → VDirEntry → ℕ
chain_len capacity i entry =
    let ideal_slot = entry.path_hash % capacity in
    if leb ideal_slot i then i - ideal_slot + 1 else capacity - ideal_slot + i + 1

-- the loop over the entries from the slot `i` on
unfoldable pub chain_counts : ℕ → ℕ → List VDirEntry → ChainCounts
chain_counts capacity i [] = record { occupied = 0; max_chain = 0; total_chain = 0 }
chain_counts capacity i (entry ∷ entries) =
    let rest = chain_counts capacity (i + 1) entries in
    let len = chain_len capacity i entry in
    if is_empty entry then rest else record {
      occupied = rest.occupied + 1;
      max_chain = max rest.max_chain len;
      total_chain = rest.total_chain + len;
    }

unfoldable pub get_stats : VDir → VDirStats
get_stats v =
    let c = chain_counts v.capacity 0 (take v.capacity v.slots) in
    record {
      capacity = v.capacity;
      entry_count = c.occupied;
      max_collision_chain = c.max_chain;
      total_chain = c.total_chain;
      generation = v.header.generation;
    }

chain_counts-bounds :
    (capacity i : ℕ) (entries : List VDirEntry)
    → 0 < capacity
    → i + length entries ≤ capacity
    → ((chain_counts capacity i entries).occupied ≡ count_if is_occupied entries)
      × ((chain_counts capacity i entries).max_chain ≤ capacity)
      × ((chain_counts capacity i entries).max_chain
          ≤ (chain_counts capacity i entries).total_chain)
unfolding chain_counts count_if
chain_counts-bounds capacity i [] pos le = (refl, omega arith, omega arith)
chain_counts-bounds capacity i (entry ∷ entries) pos le =
    let rest = chain_counts-bounds capacity (i + 1) entries pos (omega arith) in
    let ideal : entry.path_hash % capacity < capacity = mod-lt entry.path_hash pos in
    let len : chain_len capacity i entry ≤ capacity = ground arith in
    elim (Bool-cases (is_empty entry)) [
      | inl t ↦ rw t (omega (arith, rest.0), rest.1, rest.2)
      | inr f ↦ rw f (omega (arith, rest.0), omega (arith, rest.1, len), omega (arith, rest.2))
    ]

-- The statistics of a table count the entries that the header counts. No chain is longer than the
-- table, and the longest is at most as long as all together.
pub get_stats-counts :
    (v : VDir)
    → IsTable v
    → ((get_stats v).entry_count ≡ v.header.entry_count)
      × ((get_stats v).max_collision_chain ≤ v.capacity)
      × ((get_stats v).max_collision_chain ≤ (get_stats v).total_chain)
unfolding get_stats
get_stats-counts v t =
    let all : take v.capacity v.slots ≡ v.slots =
      ap (λ n. take n v.slots) (sym t.width) ∙ take-length v.slots in
    let b = chain_counts-bounds v.capacity 0 v.slots t.pos (let w = t.width in omega arith) in
    rw all (b.0 ∙ sym t.counted, b.1, b.2)
