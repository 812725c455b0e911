-- ===== src/Sync/Lww/Dominance.antt =====
-- What order `_crdt_meta_dominates` is: total and reflexive, but not transitive within the
-- tolerance. On potentials that are equal or far apart it is a linear order.
use atlas_memory.Prelude.Text.{Str, str_leb_refl, str_leb_total, str_leb_antisym, str_leb_trans}
use atlas_memory.Prelude.{ℕ, ◌+◌, ◌*◌, ◌<◌, true, false, ◌≡◌, ◌⊎◌, arith}
use atlas_memory.Sync.Lww.{Meta, crdt_meta_dominates, tolerance}

pub dominates_refl : (a : Meta) → crdt_meta_dominates a a ≡ true
unfolding crdt_meta_dominates
dominates_refl a = ground (arith, str_leb_refl a.node_id)

-- Of two records one dominates the other.
pub dominates_total :
    (a b : Meta) → crdt_meta_dominates a b ≡ false → crdt_meta_dominates b a ≡ true
unfolding crdt_meta_dominates
dominates_total a b h = ground (arith, str_leb_total b.node_id a.node_id)

-- The potentials are equal, or further apart than the tolerance.
abbrev pub IsApart : Meta → Meta → Type 0
IsApart a b =
    (a.potential ≡ b.potential)
    ⊎ (a.potential + tolerance < b.potential)
    ⊎ (b.potential + tolerance < a.potential)

Meta-ext :
    (a b : Meta)
    → a.potential ≡ b.potential
    → a.rank ≡ b.rank
    → a.timestamp ≡ b.timestamp
    → a.node_id ≡ b.node_id
    → a ≡ b
Meta-ext a b p q r s = cc

pub dominates_antisym :
    (a b : Meta)
    → IsApart a b
    → crdt_meta_dominates a b ≡ true
    → crdt_meta_dominates b a ≡ true
    → a ≡ b
unfolding crdt_meta_dominates
dominates_antisym a b s h k = ground (arith, str_leb_antisym a.node_id b.node_id, Meta-ext a b)

pub dominates_trans :
    (a b c : Meta)
    → IsApart a b
    → IsApart b c
    → IsApart a c
    → crdt_meta_dominates a b ≡ true
    → crdt_meta_dominates b c ≡ true
    → crdt_meta_dominates a c ≡ true
unfolding crdt_meta_dominates
dominates_trans a b c s t u h k = ground (arith, str_leb_trans c.node_id b.node_id a.node_id)

-- A record at a multiple of the tolerance above a potential, with a falling rank.
abbrev pub rung : ℕ → ℕ → Str → ℕ → ℕ → Meta
rung base ts node steps rank = record {
  potential = base + steps * tolerance;
  rank = rank;
  timestamp = ts;
  node_id = node;
}

-- Around every potential, time and node there is a cycle: three records of which each dominates
-- the next, and the last dominates the first, which does not dominate it.
pub dominates_cycle :
    (base ts : ℕ) (node : Str)
    → (crdt_meta_dominates (rung base ts node 0 2) (rung base ts node 1 1) ≡ true)
      × (crdt_meta_dominates (rung base ts node 1 1) (rung base ts node 2 0) ≡ true)
      × (crdt_meta_dominates (rung base ts node 2 0) (rung base ts node 0 2) ≡ true)
      × (crdt_meta_dominates (rung base ts node 0 2) (rung base ts node 2 0) ≡ false)
unfolding crdt_meta_dominates
dominates_cycle base ts node = ground arith

-- No later record of the ladder dominates the one just before it.
pub later_rungs :
    (base ts : ℕ) (node : Str)
    → (crdt_meta_dominates (rung base ts node 1 1) (rung base ts node 0 2) ≡ false)
      × (crdt_meta_dominates (rung base ts node 2 0) (rung base ts node 1 1) ≡ false)
unfolding crdt_meta_dominates
later_rungs base ts node = ground arith
