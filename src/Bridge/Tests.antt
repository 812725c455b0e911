-- ===== src/Bridge/Tests.antt =====
-- The bridge over a store that is a dictionary.
use atlas_memory.Prelude.{
  ℕ, true, Option, if◌then◌else◌, List, [], ◌∷◌, map, none, some, ◌≡◌, refl, arith, length,
}
use atlas_memory.Prelude.Dict.{Dict, lookup, insert, delete}
use atlas_memory.Prelude.Text.{Str, codes, str_eq, strip_space}
use atlas_memory.Sync.Clock.{
  VectorClock, clock_get, increment, merge_over, all_keys, merge, receive,
}
use atlas_memory.Bridge.Export.{
  AuditRow, exported, query_audit_rows, highest_seq, safe_limit, export_delta_from_audit,
}
use atlas_memory.Bridge.Apply.{
  Wiring, Existing, Write, Mutation, RemoteDelta, Bridge, missing, number, Effect, returned, raised,
  Delivery, delivered, interrupted, apply_mutation, apply_mutations, apply_remote_delta, received,
  mutation_of, is_stale, all_noted, is_deleted, is_too_imprecise, incoming_lambda, local_lambda,
  local_precision, stored, delete_key, write_key, write_of, decoded, wire, note_receipt,
}
use atlas_memory.Bridge.Cursor.{above, drain, exporter, drain-above}
use atlas_memory.Bridge.Stale.{Replayed, apply-replay}
use atlas_memory.Bridge.Guard.{IsBeaten, low_precision_ignored}

program : Unit {0}
unfolding lookup insert delete str_eq strip_space clock_get increment merge_over all_keys merge
    receive exported query_audit_rows highest_seq safe_limit export_delta_from_audit apply_mutation
    apply_mutations apply_remote_delta received mutation_of is_stale all_noted is_deleted
    is_too_imprecise incoming_lambda local_lambda local_precision stored delete_key write_key
    write_of decoded wire note_receipt
program = tt

abbrev held : Str → ℕ → Existing Str
held value confidence = record {
  value = value;
  confidence = number confidence;
  meta_precision = missing;
  precision = missing;
  timestamp = number 5;
}

-- The value "bad" is one that the write path raises on.
abbrev written : Write Str → Dict (Existing Str) → Effect (Dict (Existing Str))
written x s =
    if str_eq x.value (codes "bad")
    then raised s
    else returned (insert x.key (held x.value x.confidence) s)

abbrev store : Wiring (Dict (Existing Str)) Str
store = record {
  has_kv_store = true;
  has_write_path = true;
  get_sync = λ k s. some (lookup k s);
  delete_sync = λ k s. returned (delete k s);
  set_sync = written;
  write_async = written;
  delete_by_upsert_key = λ k s. returned s;
  loads = λ s. none;
  text_value = λ s. s;
  null_value = codes "None";
  str_of = λ s. s;
}

abbrev row : ℕ → Str → AuditRow
row seq key = record {
  seq = seq;
  timestamp = 5;
  key = key;
  new_value = some (codes "v");
  confidence = none;
  reason = none;
}

abbrev log : List AuditRow
log = row 1 (codes "x:y") ∷ row 2 (codes "z") ∷ row 5 (codes "x:y") ∷ []

abbrev sender_clock : VectorClock
sender_clock = (codes "p", 0) ∷ []

abbrev empty_bridge : Bridge (Dict (Existing Str))
empty_bridge = record { node_id = codes "q"; clock = (codes "q", 0) ∷ []; store = [] }

abbrev delta : RemoteDelta
delta = received (export_delta_from_audit 0 1 (exporter (codes "p") sender_clock log)).1

test_pages : length (drain 2 1 0 (exporter (codes "p") sender_clock log)) ≡ 2
unfolding program
test_pages = refl

abbrev applied_of : {S : Type 0} → Delivery S → Option ℕ
applied_of (delivered b n) = some n
applied_of (interrupted b) = none

test_applied : applied_of (apply_remote_delta store delta empty_bridge) ≡ some 1
unfolding program
test_applied = refl

drain-above_example :
    drain 3 1 0 (exporter (codes "p") sender_clock log) ≡ map exported (above 0 log)
drain-above_example =
    drain-above 3 1 0 0 (codes "p") sender_clock log (omega arith, (omega arith, (omega arith, tt)))
      (omega arith)

abbrev mutation : Str → Str → ℕ → Mutation
mutation key value confidence = record {
  key = key;
  value = some value;
  confidence = number confidence;
  precision = missing;
  meta_precision = missing;
  timestamp = number 99;
  reason = none;
}

abbrev sent : RemoteDelta
sent = record {
  source_node = codes "p";
  peer_vc = some ((codes "p", 1) ∷ []);
  mutations = mutation (codes " x:y ") (codes "v") 800_000_000 ∷ [];
}

apply-replay_example : Replayed store sent empty_bridge (apply_remote_delta store sent empty_bridge)
apply-replay_example = apply-replay store sent (codes "p", 1) [] empty_bridge refl (refl, tt)

-- The write path raises on the second mutation: the first one stays written, and the delta is
-- applied again when it is delivered again.
abbrev half : RemoteDelta
half = record sent {
  mutations =
      mutation (codes "a") (codes "v") 800_000_000
      ∷ mutation (codes "b") (codes "bad") 800_000_000
      ∷ [];
}

half_applied :
    apply_remote_delta store half empty_bridge
    ≡ interrupted (record empty_bridge { store = (codes "a", held (codes "v") 800_000_000) ∷ [] })
unfolding program
half_applied = refl

abbrev full_bridge : Bridge (Dict (Existing Str))
full_bridge = record empty_bridge { store = (codes "x:y", held (codes "old") 900_000_000) ∷ [] }

abbrev first_mutation : Mutation
first_mutation = mutation (codes "a") (codes "v") 800_000_000

reached :
    (apply_mutations store (codes "p") (first_mutation ∷ []) full_bridge.store).0
    ≡ returned (
        (codes "x:y", held (codes "old") 900_000_000)
        ∷ (codes "a", held (codes "v") 800_000_000)
        ∷ [])
unfolding program
reached = refl

beaten :
    IsBeaten (held (codes "old") 900_000_000) (mutation (codes " x:y ") (codes "v") 800_000_000)
unfolding program
beaten = (800_000_000_000_000_000, 900_000_000_000_000_000, 5, refl, refl, refl, omega arith)

low_precision_ignored_example :
    apply_remote_delta store
      (record sent {
        mutations = first_mutation ∷ mutation (codes " x:y ") (codes "v") 800_000_000 ∷ [];
      })
      full_bridge
    ≡ apply_remote_delta store (record sent { mutations = first_mutation ∷ [] }) full_bridge
unfolding lookup str_eq strip_space
low_precision_ignored_example =
    low_precision_ignored store sent full_bridge (first_mutation ∷ []) []
      (mutation (codes " x:y ") (codes "v") 800_000_000)
      ((codes "x:y", held (codes "old") 900_000_000)
        ∷ (codes "a", held (codes "v") 800_000_000)
        ∷ [])
      (held (codes "old") 900_000_000) refl reached refl beaten
