-- ===== src/Sync/Clock.antt =====
-- `CompactVectorClock` of src/atlas_memory/sync/crdt.py. A clock is the dictionary of its counters;
-- the lock around each method is left out, since a method runs whole under it. The iteration
-- order of the set of all keys is not specified, and no result here depends on it.
pub mod Order
pub mod Join
use atlas_memory.Prelude.{
  ℕ, suc, ◌+◌, max, Bool, true, false, not, ◌&&◌, ◌||◌, List, [], ◌∷◌, ◌++◌, Option, none, some,
  ltb, ◌==◌, if◌then◌else◌,
}
use atlas_memory.Prelude.Dict.{Dict, lookup, insert, keys}
use atlas_memory.Prelude.Text.{Str}

abbrev pub VectorClock : Type 0
VectorClock = Dict ℕ

-- `d.get(k, 0)`
abbrev pub counter : Option ℕ → ℕ
counter none = 0
counter (some n) = n

unfoldable pub clock_get : VectorClock → Str → ℕ
clock_get c k = counter (lookup k c)

unfoldable pub increment : VectorClock → Str → VectorClock
increment c node_id = insert node_id (clock_get c node_id + 1) c

-- The comprehension `{k: max(self.get(k, 0), other.get(k, 0)) for k in all_keys}`.
unfoldable pub merge_over : List Str → VectorClock → VectorClock → VectorClock
merge_over [] a b = []
merge_over (k ∷ ks) a b = insert k (max (clock_get a k) (clock_get b k)) (merge_over ks a b)

unfoldable pub all_keys : VectorClock → VectorClock → List Str
all_keys a b = keys a ++ keys b

unfoldable pub merge : VectorClock → VectorClock → VectorClock
merge a b = merge_over (all_keys a b) a b

unfoldable pub receive : VectorClock → VectorClock → Str → VectorClock
receive a other node_id = increment (merge a other) node_id

-- The loop of `happens_before`, with its flag and its early return.
unfoldable pub happens_loop : List Str → VectorClock → VectorClock → Bool → Bool
happens_loop [] a b has_strictly_less = has_strictly_less
happens_loop (k ∷ ks) a b has_strictly_less =
    let rest =
      happens_loop ks a b
        (if ltb (clock_get a k) (clock_get b k) then true else has_strictly_less) in
    if ltb (clock_get b k) (clock_get a k) then false else rest

unfoldable pub happens_before : VectorClock → VectorClock → Bool
happens_before a b = happens_loop (all_keys a b) a b false

same_entry : Option ℕ → Option ℕ → Bool
same_entry none none = true
same_entry none (some n) = false
same_entry (some m) none = false
same_entry (some m) (some n) = m == n

same_over : List Str → VectorClock → VectorClock → Bool
same_over [] a b = true
same_over (k ∷ ks) a b = same_entry (lookup k a) (lookup k b) && same_over ks a b

-- `self.clocks == other.clocks`: the same keys with the same counters, in any order.
unfoldable pub same_clocks : VectorClock → VectorClock → Bool
unfolding same_entry same_over
same_clocks a b = same_over (all_keys a b) a b

unfoldable pub concurrent : VectorClock → VectorClock → Bool
concurrent a b =
    if same_clocks a b then false else not (happens_before a b) && not (happens_before b a)
