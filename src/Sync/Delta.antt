-- ===== src/Sync/Delta.antt =====
-- `DeltaCRDT` of src/atlas_memory/sync/crdt.py: the sets of a node by key, and its clock. A delta
-- carries its payload in the normalised form that `model_validate` reads.
pub mod Replica
use atlas_memory.Prelude.{ℕ, ◌+◌, List, [], ◌∷◌, Option, none, some}
use atlas_memory.Prelude.Dict.{Dict, lookup, insert}
use atlas_memory.Prelude.Text.{Str}
use atlas_memory.Sync.Clock.{VectorClock}
use atlas_memory.Sync.Clock
use atlas_memory.Sync.Lww.{LwwSet, gc}
use atlas_memory.Sync.Lww

pub record SyncDelta : Type 0 where
  pub source_node : Str
  pub vector_clock : VectorClock
  pub payload : Dict LwwSet

pub record DeltaCrdt : Type 0 where
  pub node_id : Str
  pub clock : VectorClock
  pub state : Dict LwwSet

-- `__init__`
unfoldable pub init : Str → DeltaCrdt
init node = record { node_id = node; clock = (node, 0) ∷ []; state = [] }

-- `get_set` returns the set and creates it on a missing key.
unfoldable pub get_set : DeltaCrdt → Str → DeltaCrdt × LwwSet
get_set c key = elim (lookup key c.state) [
  | none ↦ (record c { state = insert key Lww.empty c.state }, Lww.empty)
  | some s ↦ (c, s)
]

-- The sweep of `auto_gc`, and the number of tombstones that went.
unfoldable pub sweep : ℕ → Dict LwwSet → Dict LwwSet × ℕ
sweep now [] = ([], 0)
sweep now ((key, s) ∷ d) = let (d', n) = sweep now d in ((key, (gc now s).0) ∷ d', (gc now s).1 + n)

unfoldable pub auto_gc : ℕ → DeltaCrdt → DeltaCrdt × ℕ
auto_gc now c = (record c { state = (sweep now c.state).0 }, (sweep now c.state).1)

-- `export_delta` sends the whole state; its `since_vector` is not read.
unfoldable pub export_delta : DeltaCrdt → Option VectorClock → SyncDelta
export_delta c since = record { source_node = c.node_id; vector_clock = c.clock; payload = c.state }

-- One round of the loop over the payload.
unfoldable pub absorb : Str → LwwSet → Dict LwwSet → Dict LwwSet
absorb key incoming d = elim (lookup key d) [
  | none ↦ insert key incoming d
  | some s ↦ insert key (Lww.merge s incoming) d
]

unfoldable pub absorb_all : Dict LwwSet → Dict LwwSet → Dict LwwSet
absorb_all [] d = d
absorb_all ((key, incoming) ∷ payload) d = absorb_all payload (absorb key incoming d)

-- `apply_delta`: sets, then the clock, then the sweep.
unfoldable pub apply_delta : ℕ → SyncDelta → DeltaCrdt → DeltaCrdt
apply_delta now delta c =
    (auto_gc now (record c {
      state = absorb_all delta.payload c.state;
      clock = Clock.merge c.clock delta.vector_clock;
    })).0
