-- ===== src/Bridge/Stale.antt =====
-- The rejection of stale deltas: replays, and pages that another has overtaken.
use atlas_memory.Prelude.{
  ℕ, ◌+◌, ◌≤◌, true, false, List, [], ◌∷◌, Option, none, some, ◌≡◌, ◌≢◌, refl, sym, ap, arith,
  subst, Bool-cases, inl, inr,
}
use atlas_memory.Prelude.Dict.{insert, insert-IsDict, lookup, keys, listed, IsDict}
use atlas_memory.Prelude.Text.{Str, str_eq, str_eq_iff, str_eq_refl}
use atlas_memory.Sync.Clock.{VectorClock, clock_get, increment, receive}
use atlas_memory.Sync.Clock.Order.{
  IsBelow, get-unlisted, get-increment, happens_before_iff, receive_dominates,
}
use atlas_memory.Bridge.Export.{AuditRow, export_delta_from_audit}
use atlas_memory.Bridge.Cursor.{exporter}
use atlas_memory.Bridge.Apply.{
  Wiring, RemoteDelta, Bridge, Effect, returned, raised, Delivery, delivered, interrupted, settled,
  apply_remote_delta, received, truthy, is_stale, all_noted, note_receipt,
}

all_noted-IsBelow :
    (own peer : VectorClock) → IsDict peer → IsBelow peer own → all_noted own peer ≡ true
unfolding all_noted clock_get lookup
all_noted-IsBelow own [] d h = refl
all_noted-IsBelow own ((k, v) ∷ peer) d h =
    ground (arith, str_eq_refl k, h k, all_noted-IsBelow own peer d.1 rest)
  where
    rest : IsBelow peer own
    rest j = elim (Bool-cases (str_eq k j)) [
      | inl same ↦
          let equal : k ≡ j = (str_eq_iff k j).0 same in
          let absent : clock_get peer j ≡ 0 =
            get-unlisted j peer (subst (λ z. listed z (keys peer) ≡ false) equal d.0) in
          ground (arith, absent)
      | inr other ↦ ground (arith, h j)
    ]

IsBelow-all_noted : (own peer : VectorClock) → all_noted own peer ≡ true → IsBelow peer own
unfolding all_noted clock_get lookup
IsBelow-all_noted own [] h j = omega arith
IsBelow-all_noted own ((k, v) ∷ peer) h j =
    ground (arith, str_eq_iff k j, IsBelow-all_noted own peer (ground arith) j)

-- Every counter of `peer` that stands in it is noted.
abbrev IsNoted : VectorClock → Option VectorClock → Type 0
IsNoted own none = Unit
IsNoted own (some peer) = IsBelow peer own

IsNoted-is_stale :
    (own : VectorClock) (peer : Option VectorClock) → is_stale own peer ≡ true → IsNoted own peer
unfolding is_stale
IsNoted-is_stale own none h = tt
IsNoted-is_stale own (some []) h = λ k. unfold clock_get lookup in omega arith
IsNoted-is_stale own (some (e ∷ peer)) h = IsBelow-all_noted own (e ∷ peer) h

IsNoted-note_receipt :
    (own : VectorClock) (peer : Option VectorClock) (node : Str)
    → IsNoted (note_receipt own peer node) peer
unfolding note_receipt
IsNoted-note_receipt own none node = tt
IsNoted-note_receipt own (some peer) node =
    ((happens_before_iff peer (receive own peer node)).0 (receive_dominates own peer node)).0

-- A delivery that returned has noted the clock of the delta.
abbrev Noted : {S : Type 0} → RemoteDelta → Delivery S → Type 0
Noted delta (delivered b n) = IsNoted b.clock delta.peer_vc
Noted delta (interrupted b) = Unit

module _ {S J : Type 0} (w : Wiring S J) where
  -- A delta whose delivery returned leaves a clock that its own clock does not exceed.
  settled-IsNoted :
      (delta : RemoteDelta) (b : Bridge S) (r : Effect S × ℕ) → Noted delta (settled w delta b r)
  settled-IsNoted delta b (returned s, n) = IsNoted-note_receipt b.clock delta.peer_vc b.node_id
  settled-IsNoted delta b (raised s, n) = tt

  apply-IsNoted : (delta : RemoteDelta) (b : Bridge S) → Noted delta (apply_remote_delta w delta b)
  unfolding apply_remote_delta
  apply-IsNoted delta b = elim (Bool-cases (is_stale b.clock delta.peer_vc)) [
    | inl stale ↦ rw stale (IsNoted-is_stale b.clock delta.peer_vc stale)
    | inr fresh ↦ rw fresh (settled-IsNoted delta b _)
  ]

  -- A delta whose counters are all noted is rejected: nothing is counted and nothing changes.
  apply-noted :
      (delta : RemoteDelta) (e : Str × ℕ) (peer : VectorClock) (b : Bridge S)
      → delta.peer_vc ≡ some (e ∷ peer)
      → IsDict (e ∷ peer)
      → IsBelow (e ∷ peer) b.clock
      → apply_remote_delta w delta b ≡ delivered b 0
  unfolding apply_remote_delta is_stale
  apply-noted delta e peer b has d below = rw (has, all_noted-IsBelow b.clock (e ∷ peer) d below)

  -- A delta is rejected behind one whose clock is nowhere smaller.
  apply-overtaken :
      (delta later : RemoteDelta) (e : Str × ℕ) (peer latest : VectorClock) (b b' : Bridge S)
      (n : ℕ)
      → delta.peer_vc ≡ some (e ∷ peer)
      → IsDict (e ∷ peer)
      → later.peer_vc ≡ some latest
      → IsBelow (e ∷ peer) latest
      → apply_remote_delta w later b ≡ delivered b' n
      → apply_remote_delta w delta b' ≡ delivered b' 0
  apply-overtaken delta later e peer latest b b' n has d has_later below done =
      let noted : IsBelow latest b'.clock =
        subst (IsNoted b'.clock) has_later (subst (Noted later) done (apply-IsNoted later b)) in
      apply-noted delta e peer b' has d (λ k. omega (arith, below k, noted k))

  -- What a second delivery of the delta meets.
  abbrev pub Replayed : RemoteDelta → Bridge S → Delivery S → Type 0
  Replayed delta b (delivered b' n) = apply_remote_delta w delta b' ≡ delivered b' 0
  Replayed delta b (interrupted b') =
      (b'.clock ≡ b.clock) × (is_stale b'.clock delta.peer_vc ≡ false)

  interrupted-clock :
      (delta : RemoteDelta) (b b' : Bridge S)
      → apply_remote_delta w delta b ≡ interrupted b'
      → (b'.clock ≡ b.clock) × (is_stale b'.clock delta.peer_vc ≡ false)
  unfolding apply_remote_delta
  interrupted-clock delta b b' e = elim (Bool-cases (is_stale b.clock delta.peer_vc)) [
    | inl stale ↦ absurd (delivered_not b 0 b' (rw stale at e))
    | inr fresh ↦ let same : b'.clock ≡ b.clock = kept _ (rw fresh at e) in (same, rw same fresh)
  ]
    where
      delivered_not : (c : Bridge S) (n : ℕ) (d : Bridge S) → delivered c n ≢ interrupted d
      delivered_not c n d h = cc

      kept : (r : Effect S × ℕ) → settled w delta b r ≡ interrupted b' → b'.clock ≡ b.clock
      kept (returned s, n) h = cc
      kept (raised s, n) h = sym (ap clock_of h)
        where
          clock_of : Delivery S → VectorClock
          clock_of (delivered c n) = c.clock
          clock_of (interrupted c) = c.clock

  -- A delta that carries a clock with an entry is rejected when it is delivered again after a
  -- delivery that returned, whether that applied or rejected it: the store and the clock stay as
  -- they are, and nothing counts as applied. A delivery that an exception ended has left the clock
  -- as it was, by which the delta is not stale when it comes again.
  pub apply-replay :
      (delta : RemoteDelta) (e : Str × ℕ) (peer : VectorClock) (b : Bridge S)
      → delta.peer_vc ≡ some (e ∷ peer)
      → IsDict (e ∷ peer)
      → Replayed delta b (apply_remote_delta w delta b)
  apply-replay delta e peer b has d = each (apply_remote_delta w delta b) refl
    where
      each : (r : Delivery S) → apply_remote_delta w delta b ≡ r → Replayed delta b r
      each (delivered b' n) done =
          apply-overtaken delta delta e peer (e ∷ peer) b b' n has d has (λ k. omega arith) done
      each (interrupted b') done = interrupted-clock delta b b' done

truthy-increment :
    (c : VectorClock) (node : Str)
    → (e : Str × ℕ) × (rest : VectorClock) × (increment c node ≡ e ∷ rest)
      × (truthy (increment c node) ≡ some (e ∷ rest))
unfolding increment insert
truthy-increment [] node = ((node, clock_get [] node + 1), [], refl, refl)
truthy-increment ((k, v) ∷ c) node = elim (Bool-cases (str_eq k node)) [
  | inl same ↦ rw same ((k, clock_get ((k, v) ∷ c) node + 1), c, refl, refl)
  | inr other ↦ rw other ((k, v), insert node (clock_get ((k, v) ∷ c) node + 1) c, refl, refl)
]

increment-IsDict : (c : VectorClock) (node : Str) → IsDict c → IsDict (increment c node)
unfolding increment
increment-IsDict c node d = insert-IsDict node (clock_get c node + 1) c d

-- Of two pages that one node exports in succession, the first is rejected as stale if it arrives
-- behind the second, whose delivery returned: the store and the clock stay as they are, and nothing counts as applied.
overtaken_page :
    {S J : Type 0} (w : Wiring S J) (since limit : ℕ) (node : Str) (clock : VectorClock)
    (log : List AuditRow) (b b' : Bridge S) (n : ℕ)
    → IsDict clock
    → let (sender, page) = export_delta_from_audit since limit (exporter node clock log) in
      let (_, next_page) = export_delta_from_audit page.max_seq limit sender in
      apply_remote_delta w (received next_page) b ≡ delivered b' n
      → apply_remote_delta w (received page) b' ≡ delivered b' 0
unfolding export_delta_from_audit received
overtaken_page w since limit node clock log b b' n d done =
    let (sender, page) = export_delta_from_audit since limit (exporter node clock log) in
    let (_, next_page) = export_delta_from_audit page.max_seq limit sender in
    let earlier = increment clock node in
    let (e, rest, shape, has) = truthy-increment clock node in
    let (e', rest', shape', has') = truthy-increment earlier node in
    apply-overtaken w (received page) (received next_page) e rest (e' ∷ rest') b b' n has
      (subst IsDict shape (increment-IsDict clock node d)) has'
      (λ k.
        subst (λ c. clock_get c k ≤ clock_get (e' ∷ rest') k) shape
          (subst (λ c. clock_get earlier k ≤ clock_get c k) shape' (grows earlier k)))
      done
  where
    grows : (c : VectorClock) (k : Str) → clock_get c k ≤ clock_get (increment c node) k
    grows c k = ground (arith, get-increment c node k)
