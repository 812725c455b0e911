-- ===== src/Sync/Delta/Replica.antt =====
-- Applying deltas: the state of each key, repeated delivery, and a copy to a new node.
use atlas_memory.Prelude.Dict.{Dict, lookup, lookup-insert, lookup-unlisted, IsDict}
use atlas_memory.Prelude.Text.{Str, str_eq, str_eq_iff, str_eq_ne}
use atlas_memory.Prelude.{
  ℕ, max, true, false, [], ◌∷◌, Option, none, some, ◌≡◌, ◌≢◌, refl, arith, if◌then◌else◌,
  Option-cases, inl, inr, ap, sym, ◌∙◌,
}
use atlas_memory.Sync.Clock.{VectorClock, clock_get, concurrent, same_clocks, all_keys}
use atlas_memory.Sync.Clock.Order.{get-merge}
use atlas_memory.Sync.Clock.Join.{concurrent-SameCounters}
use atlas_memory.Sync.Lww.{LwwSet, gc, contains}
use atlas_memory.Sync.Lww
use atlas_memory.Sync.Lww.Merge.{IsValid, merge_twice}
use atlas_memory.Sync.Delta.{
  SyncDelta, DeltaCrdt, init, sweep, auto_gc, export_delta, absorb, absorb_all, apply_delta,
}

-- The set of a key after a payload entry was taken in.
abbrev pub combined : Option LwwSet → Option LwwSet → Option LwwSet
combined o none = o
combined none (some t) = some t
combined (some s) (some t) = some (Lww.merge s t)

abbrev pub swept : ℕ → Option LwwSet → Option LwwSet
swept now none = none
swept now (some s) = some (gc now s).0

lookup-absorb :
    (k j : Str) (t : LwwSet) (d : Dict LwwSet)
    → lookup j (absorb k t d) ≡ (if str_eq k j then combined (lookup k d) (some t) else lookup j d)
unfolding absorb
lookup-absorb k j t d = elim (Option-cases (lookup k d)) [
  | inl absent ↦ ground (arith, str_eq_iff k j, lookup-insert k j t d)
  | inr (s, held) ↦ ground (arith, str_eq_iff k j, lookup-insert k j (Lww.merge s t) d)
]

lookup-absorb_all :
    (p d : Dict LwwSet) (k : Str)
    → IsDict p
    → lookup k (absorb_all p d) ≡ combined (lookup k d) (lookup k p)
unfolding absorb_all lookup
lookup-absorb_all [] d k h = refl
lookup-absorb_all ((j, t) ∷ p) d k h = ground (
  arith,
  str_eq_iff j k,
  lookup-absorb j k t d,
  lookup-unlisted k p,
  lookup-absorb_all p (absorb j t d) k h.1,
)

lookup-sweep :
    (now : ℕ) (d : Dict LwwSet) (k : Str) → lookup k (sweep now d).0 ≡ swept now (lookup k d)
unfolding sweep lookup
lookup-sweep now [] k = refl
lookup-sweep now ((j, s) ∷ d) k = ground (arith, lookup-sweep now d k)

-- After a delta each key holds its set merged with the delta's, or the delta's where the node had
-- none, after collection; and each counter of the clock is the larger of the two.
pub lookup-apply_delta :
    (now : ℕ) (delta : SyncDelta) (c : DeltaCrdt) (k node : Str)
    → IsDict delta.payload
    → (lookup k (apply_delta now delta c).state
        ≡ swept now (combined (lookup k c.state) (lookup k delta.payload)))
      × (clock_get (apply_delta now delta c).clock node
          ≡ max (clock_get c.clock node) (clock_get delta.vector_clock node))
unfolding apply_delta auto_gc
lookup-apply_delta now delta c k node h = (
  lookup-sweep now (absorb_all delta.payload c.state) k
      ∙ ap (swept now) (lookup-absorb_all delta.payload c.state k h),
  get-merge c.clock delta.vector_clock node,
)

-- A full export applied to a new node gives it the set of every key, after collection.
apply-export_delta :
    (now : ℕ) (c : DeltaCrdt) (since : Option VectorClock) (node k : Str)
    → IsDict c.state
    → lookup k (apply_delta now (export_delta c since) (init node)).state
      ≡ swept now (lookup k c.state)
unfolding export_delta init lookup
apply-export_delta now c since node k h =
    (lookup-apply_delta now (export_delta c since) (init node) k node h).0
    ∙ ap (swept now) (fresh (lookup k c.state))
  where
    fresh : (o : Option LwwSet) → combined none o ≡ o
    fresh none = refl
    fresh (some s) = refl

merge_ttl : (s t : LwwSet) → (Lww.merge s t).tombstone_ttl_seconds ≡ s.tombstone_ttl_seconds
unfolding Lww.merge
merge_ttl s t = refl

gc_off : (now : ℕ) (s : LwwSet) → s.tombstone_ttl_seconds ≡ none → (gc now s).0 ≡ s
unfolding gc
gc_off now s h = ground arith

-- Delivered a second time, at any later moment, a delta whose sets and whose receiver's sets have
-- no tombstone lifetime changes no answer for any element of any key that the node holds.
apply_delta_twice :
    (now later : ℕ) (delta : SyncDelta) (c : DeltaCrdt) (k x : Str) (s t : LwwSet)
    → IsDict delta.payload
    → lookup k c.state ≡ some s
    → lookup k delta.payload ≡ some t
    → IsValid t
    → s.tombstone_ttl_seconds ≡ none
    → (u v : LwwSet) × (lookup k (apply_delta now delta c).state ≡ some u)
      × (lookup k (apply_delta later delta (apply_delta now delta c)).state ≡ some v)
      × (contains v x ≡ contains u x)
apply_delta_twice now later delta c k x s t h held sent valid off =
    let u = Lww.merge s t in
    let v = Lww.merge (Lww.merge s t) t in
    let first : lookup k (apply_delta now delta c).state ≡ some u =
      ground (arith, lookup-apply_delta now delta c k k h, gc_off now u, merge_ttl s t) in
    (
      u,
      v,
      first,
      ground (
        arith,
        first,
        lookup-apply_delta later delta (apply_delta now delta c) k k h,
        gc_off later v,
        merge_ttl s t,
        merge_ttl u t,
      ),
      (merge_twice s t x valid).2,
    )

get-init : (node k : Str) → clock_get (init node).clock k ≡ 0
unfolding init clock_get lookup
get-init node k = ground arith

names_differ : (m n : Str) → m ≢ n → same_clocks (init m).clock (init n).clock ≡ false
unfolding init same_clocks all_keys lookup
names_differ m n h = ground (arith, str_eq_ne m n h, str_eq_ne n m (λ e. h (sym e)), str_eq_iff m m)

-- Two new nodes with different names, neither of which has seen an event, count as concurrent.
init-concurrent : (m n : Str) → m ≢ n → concurrent (init m).clock (init n).clock ≡ true
init-concurrent m n h =
    concurrent-SameCounters (init m).clock (init n).clock (λ k. get-init m k ∙ sym (get-init n k))
      (names_differ m n h)
