-- ===== src/Sync/Tests.antt =====
-- The clocks, sets and deltas at small inputs.
use atlas_memory.Prelude.{ℕ, max, [], ◌∷◌, none, some, ◌≡◌, refl, arith, inl, inr}
use atlas_memory.Prelude.Dict.{lookup, insert, delete}
use atlas_memory.Prelude.Text.{Str, codes, str_eq, str_leb}
use atlas_memory.Sync.Clock.{
  VectorClock, clock_get, increment, merge_over, all_keys, merge, receive, happens_loop,
  happens_before, same_clocks, concurrent,
}
use atlas_memory.Sync.Lww.{
  Meta, LwwSet, crdt_meta_dominates, offer, add, remove, contains, present, merge_entries, gc,
  collect, expired_keys, drop_expired, meta_of, clock_rank, no_clock, unit,
}
use atlas_memory.Sync.Lww
use atlas_memory.Sync.Lww.Merge.{merge_comm, merge_assoc}
use atlas_memory.Sync.Delta.{
  SyncDelta, DeltaCrdt, init, sweep, auto_gc, export_delta, absorb, absorb_all, apply_delta,
}
use atlas_memory.Sync.Delta.Replica.{combined, swept, lookup-apply_delta}

program : Unit {0}
unfolding lookup insert delete str_eq str_leb clock_get increment merge_over all_keys merge receive
    happens_loop happens_before same_clocks concurrent crdt_meta_dominates offer add remove contains
    present merge_entries Lww.merge gc collect expired_keys drop_expired meta_of clock_rank init
    sweep auto_gc export_delta absorb absorb_all apply_delta
program = tt

abbrev a : Str
a = codes "a"

abbrev b : Str
b = codes "b"

abbrev ahead : VectorClock
ahead = (a, 2) ∷ (b, 1) ∷ []

abbrev aside : VectorClock
aside = (b, 3) ∷ []

-- An entry with 0 stays.
test_zero : merge ((a, 0) ∷ []) [] ≡ (a, 0) ∷ []
unfolding program
test_zero = refl

-- A record of potential 1.0.
abbrev at_time : ℕ → Meta
at_time t = record { potential = unit; rank = 0; timestamp = t; node_id = a }

-- A record of potential 0.5.
abbrev weak_at : ℕ → Meta
weak_at t = record { potential = 500_000_000; rank = 0; timestamp = t; node_id = b }

abbrev kept : LwwSet
kept = record {
  adds = (a, at_time 9) ∷ [];
  removes = (a, at_time 8) ∷ [];
  tombstone_ttl_seconds = some 5;
}

abbrev hidden : LwwSet
hidden = record {
  adds = (a, weak_at 30) ∷ [];
  removes = (a, at_time 8) ∷ [];
  tombstone_ttl_seconds = some 5;
}

merge_comm_example : contains (Lww.merge kept hidden) a ≡ contains (Lww.merge hidden kept) a
unfolding program
merge_comm_example =
    (merge_comm kept hidden a ((refl, tt), (refl, tt)) ((refl, tt), (refl, tt))
      (inr (inr (omega arith)), inl refl)).2

merge_assoc_example :
    contains (Lww.merge (Lww.merge kept hidden) kept) a
    ≡ contains (Lww.merge kept (Lww.merge hidden kept)) a
unfolding program
merge_assoc_example =
    (merge_assoc kept hidden kept a ((refl, tt), (refl, tt)) ((refl, tt), (refl, tt))
      (inr (inr (omega arith)), inl refl) (inr (inl (omega arith)), inl refl)
      (inl refl, inl refl)).2

abbrev lasting : LwwSet
lasting = record kept { tombstone_ttl_seconds = none }

abbrev sent : SyncDelta
sent = record { source_node = b; vector_clock = aside; payload = (a, lasting) ∷ [] }

abbrev replica : DeltaCrdt
replica = record {
  node_id = a;
  clock = ahead;
  state = (a, record hidden { tombstone_ttl_seconds = none }) ∷ [];
}

lookup-apply_delta_example :
    (lookup a (apply_delta 50 sent replica).state
      ≡ swept 50 (combined (lookup a replica.state) (lookup a sent.payload)))
    × (clock_get (apply_delta 50 sent replica).clock b
        ≡ max (clock_get replica.clock b) (clock_get sent.vector_clock b))
lookup-apply_delta_example = lookup-apply_delta 50 sent replica a b (refl, tt)
