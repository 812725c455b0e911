-- ===== src/Bridge/Apply.antt =====
-- `apply_remote_delta`. The key-value store and the write path are an interface; either may be
-- absent, and each call of them may raise. Confidences and precisions are not negative, in
-- billionths, and their product is exact. The record for the vector index, made from the same
-- fields, is part of the write.
use atlas_memory.Prelude.{
  ℕ, ◌+◌, ◌*◌, Bool, true, false, ◌&&◌, ◌||◌, List, [], ◌∷◌, ◌++◌, map, Option, none, some, ltb,
  leb, if◌then◌else◌, ◌>>=◌,
}
use mathlib.Core.Option
use atlas_memory.Prelude.Text.{Str, codes, str_eq, strip_space, before, behind, is_empty}
use atlas_memory.Sync.Clock.{VectorClock, clock_get, receive}
use atlas_memory.Bridge.Export.{one, Exported, AuditDelta}

-- An entry of a dictionary that should be a float.
pub data Reading : Type 0 where
  missing : Reading
  unreadable : Reading
  number : ℕ → Reading

pub record Mutation : Type 0 where
  pub key : Str
  pub value : Option Str
  pub confidence : Reading
  pub precision : Reading
  pub meta_precision : Reading
  pub timestamp : Reading
  pub reason : Option Str

-- What `get_sync` returns of a stored key.
pub record Existing (J : Type 0) : Type 0 where
  pub value : J
  pub confidence : Reading
  pub meta_precision : Reading
  pub precision : Reading
  pub timestamp : Reading

-- The arguments of a write.
pub record Write (J : Type 0) : Type 0 where
  pub key : Str
  pub value : J
  pub confidence : ℕ
  pub reason : Str
  pub origin : Str
  pub subject : Str
  pub predicate : Str
  pub object : Str
  pub precision : ℕ

-- A call that changes the store: the store behind it, or as an exception left it.
pub data Effect (S : Type 0) : Type 0 where
  returned : S → Effect S
  raised : S → Effect S

abbrev pub and_then : {S : Type 0} → Effect S → (S → Effect S) → Effect S
and_then (returned s) f = f s
and_then (raised s) f = raised s

-- The store with its write path, and the JSON library. `get_sync`, `delete_sync` and `set_sync` are
-- the key-value store's, `write_async` and `delete_by_upsert_key` the write path's. `get_sync` has
-- no answer where it raises, and answers `none` where there is no entry.
pub record Wiring (S J : Type 0) : Type 0 where
  pub has_kv_store : Bool
  pub has_write_path : Bool
  pub get_sync : Str → S → Option (Option (Existing J))
  pub delete_sync : Str → S → Effect S
  pub set_sync : Write J → S → Effect S
  pub write_async : Write J → S → Effect S
  pub delete_by_upsert_key : Str → S → Effect S
  pub loads : Str → Option J
  pub text_value : Str → J
  pub null_value : J
  pub str_of : J → Str

-- `peer_vc` is `none` where the source finds it false: missing or an empty dictionary.
pub record RemoteDelta : Type 0 where
  pub source_node : Str
  pub peer_vc : Option VectorClock
  pub mutations : List Mutation

pub record Bridge (S : Type 0) : Type 0 where
  pub node_id : Str
  pub clock : VectorClock
  pub store : S

-- An exported delta as it is read from a dictionary.
abbrev pub truthy : VectorClock → Option VectorClock
truthy [] = none
truthy (e ∷ c) = some (e ∷ c)

unfoldable pub mutation_of : Exported → Mutation
mutation_of e = record {
  key = e.key;
  value = e.value;
  confidence = number e.confidence;
  precision = missing;
  meta_precision = missing;
  timestamp = number e.timestamp;
  reason = some e.reason;
}

unfoldable pub received : AuditDelta → RemoteDelta
received d = record {
  source_node = d.source_node;
  peer_vc = truthy d.vector_clock;
  mutations = map mutation_of d.mutations;
}

-- `float(d.get(name, default))`, with no answer where that raises.
abbrev pub float_of : ℕ → Reading → Option ℕ
float_of d missing = some d
float_of d unreadable = none
float_of d (number n) = some n

-- The same where an exception is caught.
abbrev pub reading_or : ℕ → Reading → ℕ
reading_or d missing = d
reading_or d unreadable = d
reading_or d (number n) = n

abbrev incoming_precision : Mutation → ℕ
incoming_precision m = reading_or (reading_or one m.precision) m.meta_precision

-- Friston's potential, precision times confidence; no answer where a number cannot be read.
unfoldable pub incoming_lambda : Mutation → Option ℕ
incoming_lambda m = do
  conf ← float_of 900_000_000 m.confidence
  prec ← float_of one m.precision
  ts ← float_of 0 m.timestamp
  some (incoming_precision m * conf)

-- `precision` of the entry counts only where its metadata have none.
unfoldable pub local_precision : {J : Type 0} → Existing J → ℕ
local_precision e = elim e.meta_precision [
  | missing ↦ reading_or one e.precision
  | unreadable ↦ one
  | number n ↦ n
]

unfoldable pub local_lambda : {J : Type 0} → Existing J → Option ℕ
unfolding local_precision
local_lambda e = Option.map (λ conf. local_precision e * conf) (float_of one e.confidence)

-- `1e-6` as a product of two values in billionths.
abbrev pub tolerance : ℕ
tolerance = 1_000_000_000_000

-- `incoming_lambda < local_lambda - 1e-6`; the warning reads the timestamp of the entry.
unfoldable pub outweighs : {J : Type 0} → Existing J → ℕ → Option Bool
unfolding local_lambda
outweighs e incoming = do
  local ← local_lambda e
  if ltb (incoming + tolerance) local
      then Option.map (λ t. true) (float_of 0 e.timestamp)
      else some false

-- Whether the entry found, if any, is worth more; no answer where the comparison raises.
unfoldable pub is_too_imprecise :
    {J : Type 0} → Mutation → Option (Option (Existing J)) → Option Bool
unfolding incoming_lambda outweighs
is_too_imprecise m found = do
  incoming ← incoming_lambda m
  existing ← found
  elim existing [ none ↦ some false | some e ↦ outweighs e incoming ]

is_value : Str → Option Str → Bool
is_value s none = false
is_value s (some v) = str_eq v s

unfoldable pub is_deleted : Mutation → Bool
unfolding is_value
is_deleted m =
    is_value (codes "\"__DELETED__\"") m.value
    || is_value (codes "__DELETED__") m.value
    || is_value (codes "delete") m.reason
    || is_value (codes "agent_delete") m.reason

-- `bool(peer_clocks) and all(own.get(k, 0) >= v for k, v in peer_clocks.items())`
unfoldable pub all_noted : VectorClock → VectorClock → Bool
all_noted own [] = true
all_noted own ((k, v) ∷ peer) = leb v (clock_get own k) && all_noted own peer

unfoldable pub is_stale : VectorClock → Option VectorClock → Bool
unfolding all_noted
is_stale own none = false
is_stale own (some []) = false
is_stale own (some (e ∷ peer)) = all_noted own (e ∷ peer)

unfoldable pub note_receipt : VectorClock → Option VectorClock → Str → VectorClock
note_receipt own none node = own
note_receipt own (some peer) node = receive own peer node

-- Subject, predicate and object by `key.split(":", 2)`.
unfoldable pub wire : Str → Str → Str × Str × Str
wire key text = elim (behind b':' key) [
  | none ↦ (key, codes "has_state", text)
  | some rest ↦ elim (behind b':' rest) [
    | none ↦ (before b':' key, rest, text)
    | some last ↦ (before b':' key, before b':' rest, if is_empty text then last else text)
  ]
]

-- What the delivery of a delta came to. An exception leaves the clock as it was.
pub data Delivery (S : Type 0) : Type 0 where
  delivered : Bridge S → ℕ → Delivery S
  interrupted : Bridge S → Delivery S

module _ {S J : Type 0} (w : Wiring S J) where
  -- The value that is written: parsed if it parses, else as it is.
  unfoldable pub decoded : Option Str → J
  decoded none = w.null_value
  decoded (some v) = elim (w.loads v) [ none ↦ w.text_value v | some j ↦ j ]

  unfoldable pub delete_key : Str → S → Effect S
  delete_key key s = and_then (if w.has_kv_store then w.delete_sync key s else returned s) (λ s'.
      if w.has_write_path
      then and_then (w.delete_by_upsert_key (codes "kv:" ++ key) s') (w.delete_by_upsert_key key)
      else returned s')

  -- The confidence and the precision have been read before.
  unfoldable pub write_of : Str → Str → Mutation → Write J
  write_of source key m =
      let value = decoded m.value in
      let (subject, predicate, object) = wire key (w.str_of value) in
      record {
        key = key;
        value = value;
        confidence = reading_or 900_000_000 m.confidence;
        reason = codes "sync_from_" ++ source;
        origin = codes "sync_" ++ source;
        subject = subject;
        predicate = predicate;
        object = object;
        precision = incoming_precision m;
      }

  unfoldable pub write_key : Str → Str → Mutation → S → Effect S
  write_key source key m s =
      if w.has_write_path
      then w.write_async (write_of source key m) s
      else if w.has_kv_store
      then w.set_sync (write_of source key m) s
      else returned s

  -- `existing`, if there is a store to ask.
  unfoldable pub stored : Str → S → Option (Option (Existing J))
  stored key s = if w.has_kv_store then w.get_sync key s else some none

  -- One round of the loop, with what it adds to `applied_count`; the potentials are compared after
  -- the numbers are read.
  unfoldable pub apply_mutation : Str → Mutation → S → Effect S × ℕ
  unfolding is_too_imprecise
  apply_mutation source m s =
      let key = strip_space m.key in
      if is_empty key then (returned s, 0) else elim (is_too_imprecise m (stored key s)) [
        | none ↦ (raised s, 0)
        | some refused ↦
            if refused
            then (returned s, 0)
            else if is_deleted m
            then (delete_key key s, 1)
            else (write_key source key m s, 1)
      ]

  -- What follows a round: the next ones, or the exception.
  abbrev pub onward : Effect S → ℕ → (S → Effect S × ℕ) → Effect S × ℕ
  onward (returned s) n rest = ((rest s).0, n + (rest s).1)
  onward (raised s) n rest = (raised s, 0)

  unfoldable pub apply_mutations : Str → List Mutation → S → Effect S × ℕ
  unfolding apply_mutation
  apply_mutations source [] s = (returned s, 0)
  apply_mutations source (m ∷ ms) s =
      let (effect, n) = apply_mutation source m s in onward effect n (apply_mutations source ms)

  -- The bridge and the number applied, or the bridge as an exception left it.
  abbrev pub settled : RemoteDelta → Bridge S → Effect S × ℕ → Delivery S
  settled delta b (returned s, applied) =
      delivered (record b { clock = note_receipt b.clock delta.peer_vc b.node_id; store = s })
        applied
  settled delta b (raised s, applied) = interrupted (record b { store = s })

  unfoldable pub apply_remote_delta : RemoteDelta → Bridge S → Delivery S
  apply_remote_delta delta b =
      if is_stale b.clock delta.peer_vc
      then delivered b 0
      else settled delta b (apply_mutations delta.source_node delta.mutations b.store)
