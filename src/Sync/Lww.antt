-- ===== src/Sync/Lww.antt =====
-- `CompactLWWSet` of src/atlas_memory/sync/crdt.py, with the metadata order behind it. A float of
-- the source (potential, precision, confidence, timestamp) is a natural number of billionths, and
-- none of them is negative; metadata is kept normalised, as `add`, `remove` and `model_validate`
-- write it. The time is an argument where the source reads the clock.
pub mod Dominance
pub mod Lookup
pub mod Merge
pub mod Collect
use atlas_memory.Prelude.{
  ℕ, suc, ◌+◌, ◌*◌, ◌/◌, Bool, true, false, List, [], ◌∷◌, Option, none, some, ltb, if◌then◌else◌,
  length,
}
use atlas_memory.Prelude.Dict.{Dict, lookup, insert, delete, has_key}
use atlas_memory.Prelude.Text.{Str, str_leb}
use atlas_memory.Sync.Clock.{VectorClock}

-- The tuple (lambda_potential, clock_rank, timestamp, node_id).
pub record Meta : Type 0 where
  pub potential : ℕ
  pub rank : ℕ
  pub timestamp : ℕ
  pub node_id : Str

-- 1.0, and the tolerance 1e-6, in billionths.
abbrev pub unit : ℕ
unit = 1_000_000_000

abbrev pub tolerance : ℕ
tolerance = 1000

-- The shapes in which metadata arrives, by the length of the tuple.
pub data RawMeta : Type 0 where
  full : ℕ → ℕ → ℕ → Str → RawMeta
  pair : ℕ → Str → RawMeta
  triple : ℕ → ℕ → Str → RawMeta
  other : RawMeta

-- `_normalize_crdt_meta`
unfoldable pub normalize_crdt_meta : RawMeta → Meta
normalize_crdt_meta (full lam rank ts node) = record {
  potential = lam;
  rank = rank;
  timestamp = ts;
  node_id = node;
}
normalize_crdt_meta (pair ts node) = record {
  potential = unit;
  rank = 0;
  timestamp = ts;
  node_id = node;
}
normalize_crdt_meta (triple lam ts node) = record {
  potential = lam;
  rank = 0;
  timestamp = ts;
  node_id = node;
}
normalize_crdt_meta other = record { potential = unit; rank = 0; timestamp = 0; node_id = [] }

-- `_crdt_meta_dominates` on two tuples.
unfoldable pub crdt_meta_dominates : Meta → Meta → Bool
crdt_meta_dominates a b =
    if ltb (b.potential + tolerance) a.potential
    then true
    else if ltb (a.potential + tolerance) b.potential
    then false
    else if ltb b.rank a.rank
    then true
    else if ltb a.rank b.rank
    then false
    else if ltb b.timestamp a.timestamp
    then true
    else if ltb a.timestamp b.timestamp
    then false
    else str_leb b.node_id a.node_id

pub record LwwSet : Type 0 where
  pub adds : Dict Meta
  pub removes : Dict Meta
  pub tombstone_ttl_seconds : Option ℕ

abbrev pub empty : LwwSet
empty = record { adds = []; removes = []; tombstone_ttl_seconds = none }

-- The optional `vector_clock` argument: a clock, or its rank.
pub data RankSource : Type 0 where
  no_clock : RankSource
  clock : VectorClock → RankSource
  given : ℕ → RankSource

unfoldable pub sum_counters : VectorClock → ℕ
sum_counters [] = 0
sum_counters ((_, n) ∷ c) = n + sum_counters c

unfoldable pub clock_rank : RankSource → ℕ
clock_rank no_clock = 0
clock_rank (clock c) = sum_counters c
clock_rank (given n) = n

-- The metadata that `add` and `remove` build; the product of two fractions, rounded down.
unfoldable pub meta_of : ℕ → Str → ℕ → ℕ → RankSource → Meta
meta_of ts node precision confidence source = record {
  potential = precision * confidence / unit;
  rank = clock_rank source;
  timestamp = ts;
  node_id = node;
}

-- The guarded write that `add`, `remove` and `merge` share: `if element not in d or dominates`.
unfoldable pub offer : Str → Meta → Dict Meta → Dict Meta
offer x m d = elim (lookup x d) [
  | none ↦ insert x m d
  | some old ↦ if crdt_meta_dominates m old then insert x m d else d
]

unfoldable pub add : LwwSet → Str → ℕ → Str → ℕ → ℕ → RankSource → LwwSet
add s x ts node precision confidence source = record s {
  adds = offer x (meta_of ts node precision confidence source) s.adds;
}

unfoldable pub remove : LwwSet → Str → ℕ → Str → ℕ → ℕ → RankSource → LwwSet
remove s x ts node precision confidence source = record s {
  removes = offer x (meta_of ts node precision confidence source) s.removes;
}

-- The answer of `lookup` from the two entries of the element.
unfoldable pub present : Option Meta → Option Meta → Bool
present none r = false
present (some a) none = true
present (some a) (some r) = crdt_meta_dominates a r

-- `lookup`
unfoldable pub contains : LwwSet → Str → Bool
contains s x = present (lookup x s.adds) (lookup x s.removes)

-- `for elem, meta in other.items(): …` of `merge`
unfoldable pub merge_entries : Dict Meta → Dict Meta → Dict Meta
merge_entries [] d = d
merge_entries ((x, m) ∷ entries) d = merge_entries entries (offer x m d)

unfoldable pub merge : LwwSet → LwwSet → LwwSet
merge s t = record s {
  adds = merge_entries t.adds s.adds;
  removes = merge_entries t.removes s.removes;
}

-- The keys of the tombstones older than the cutoff `now - ttl`, written without a difference.
unfoldable pub expired_keys : ℕ → ℕ → Dict Meta → List Str
expired_keys now ttl [] = []
expired_keys now ttl ((x, m) ∷ d) =
    let rest = expired_keys now ttl d in if ltb (m.timestamp + ttl) now then x ∷ rest else rest

-- `if elem in self.adds` and its timestamp lies before the cutoff, `del self.adds[elem]`.
unfoldable pub drop_expired : ℕ → ℕ → Str → Dict Meta → Dict Meta
drop_expired now ttl x d = elim (lookup x d) [
  | none ↦ d
  | some m ↦ if ltb (m.timestamp + ttl) now then delete x d else d
]

-- The loop over the expired keys.
unfoldable pub collect : ℕ → ℕ → List Str → LwwSet → LwwSet
collect now ttl [] s = s
collect now ttl (x ∷ xs) s =
    collect now ttl xs
      (record s { removes = delete x s.removes; adds = drop_expired now ttl x s.adds })

-- `gc`, and its alias `auto_gc`
unfoldable pub gc : ℕ → LwwSet → LwwSet × ℕ
gc now s = elim s.tombstone_ttl_seconds [
  | none ↦ (s, 0)
  | some ttl ↦
      let expired = expired_keys now ttl s.removes in (collect now ttl expired s, length expired)
]
