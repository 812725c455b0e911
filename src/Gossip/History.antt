-- ===== src/Gossip/History.antt =====
-- The history of validations stays bounded, and its counts in order.
use native.Mathlib.Nat.{le_trans}
use atlas_memory.Prelude.{◌+◌, ◌≤◌, Bool, [], ◌∷◌, arith, if◌then◌else◌, length, All}
use atlas_memory.Prelude.Dict.{
  Dict, lookup, insert, insert-IsDict, delete, delete-IsDict, has_key, IsDict,
}
use atlas_memory.Prelude.Text.{Str}
use atlas_memory.Gossip.Peers.{
  max_peers, drop_oldest, make_room, Counts, EpistemicReputation, counts_of, counted, note_result,
}

abbrev IsSound : Counts → Type 0
IsSound c = (c.validated ≤ c.total) × (1 ≤ c.total)

-- A history is a dictionary of at most a hundred peers, each with at least one operation and no
-- more validated than all.
abbrev pub IsHistory : EpistemicReputation → Type 0
IsHistory r = IsDict r.history × (length r.history ≤ max_peers) × All (λ e. IsSound e.1) r.history

module _ {ℓ} {V : Type ℓ} where
  length-delete : (k : Str) (d : Dict V) → length (delete k d) ≤ length d
  unfolding delete
  length-delete k [] = omega arith
  length-delete k ((j, v) ∷ d) = ground (arith, length-delete k d)

  -- A write adds at most one entry, and none where the key stands.
  length-insert :
      (k : Str) (v : V) (d : Dict V)
      → length (insert k v d) ≤ length d + (if has_key k d then 0 else 1)
  unfolding insert lookup
  length-insert k v [] = omega arith
  length-insert k v ((j, w) ∷ d) = ground (arith, length-insert k v d)

  make_room-IsDict : (k : Str) (d : Dict V) → IsDict d → IsDict (make_room k d)
  unfolding make_room drop_oldest
  make_room-IsDict k [] h = ground arith
  make_room-IsDict k ((j, v) ∷ d) h = ground (arith, delete-IsDict j d h.1)

  -- After the eviction there is room for the key, unless it stands already.
  length-make_room :
      (k : Str) (d : Dict V)
      → length d ≤ max_peers
      → length (make_room k d) + (if has_key k (make_room k d) then 0 else 1) ≤ max_peers
  unfolding make_room drop_oldest
  length-make_room k [] h = ground (arith)
  length-make_room k ((j, v) ∷ d) h = ground (arith, length-delete j d)

All-delete :
    (k : Str) (d : Dict Counts) → All (λ e. IsSound e.1) d → All (λ e. IsSound e.1) (delete k d)
unfolding delete
All-delete k [] h = tt
All-delete k ((j, c) ∷ d) h = ground (arith, All-delete k d h.1)

All-insert :
    (k : Str) (c : Counts) (d : Dict Counts)
    → IsSound c
    → All (λ e. IsSound e.1) d
    → All (λ e. IsSound e.1) (insert k c d)
unfolding insert
All-insert k c [] s h = (s, tt)
All-insert k c ((j, b) ∷ d) s h = ground (arith, All-insert k c d s h.1)

All-make_room :
    (k : Str) (d : Dict Counts) → All (λ e. IsSound e.1) d → All (λ e. IsSound e.1) (make_room k d)
unfolding make_room drop_oldest
All-make_room k [] h = ground arith
All-make_room k ((j, c) ∷ d) h = ground (arith, All-delete j d h.1)

-- One more operation keeps the counts of a peer in order, also of a new one.
counted-IsSound :
    (peer : Str) (validated : Bool) (d : Dict Counts)
    → All (λ e. IsSound e.1) d
    → IsSound (counted validated (counts_of (lookup peer d)))
unfolding counted lookup
counted-IsSound peer validated [] h = ground arith
counted-IsSound peer validated ((j, c) ∷ d) h = ground (arith, counted-IsSound peer validated d h.1)

-- Recording a result keeps the history valid, with at most a hundred peers, whatever was recorded.
note_result-IsHistory :
    (peer : Str) (validated : Bool) (r : EpistemicReputation)
    → IsHistory r
    → IsHistory (note_result peer validated r)
unfolding note_result
note_result-IsHistory peer validated r h =
    let kept = make_room peer r.history in
    let c = counted validated (counts_of (lookup peer kept)) in
    let sound : All (λ e. IsSound e.1) kept = All-make_room peer r.history h.2 in
    (
      insert-IsDict peer c kept (make_room-IsDict peer r.history h.0),
      le_trans (length-insert peer c kept) (length-make_room peer r.history h.1),
      All-insert peer c kept (counted-IsSound peer validated kept sound) sound,
    )
