-- ===== src/Sync/Clock/Order.antt =====
-- `happens_before` is the strict order of the counters, and `concurrent` its incomparability.
use atlas_memory.Prelude.Dict.{insert, keys, listed, listed-append, lookup-unlisted, lookup-insert}
use atlas_memory.Prelude.Text.{Str, str_eq, str_eq_iff}
use atlas_memory.Prelude.{
  ℕ, ◌+◌, ◌≤◌, ◌<◌, max, Bool, true, false, List, [], ◌∷◌, arith, ltb, ◌↔◌, ◌≡◌, refl, inl, inr,
  Bool-cases, if◌then◌else◌,
}
use atlas_memory.Sync.Clock.{
  VectorClock, clock_get, increment, merge_over, all_keys, merge, receive, happens_loop,
  happens_before,
}

pub get-insert :
    (k j : Str) (n : ℕ) (c : VectorClock)
    → clock_get (insert k n c) j ≡ (if str_eq k j then n else clock_get c j)
unfolding clock_get
get-insert k j n c = ground (arith, lookup-insert k j n c)

pub get-unlisted : (k : Str) (c : VectorClock) → listed k (keys c) ≡ false → clock_get c k ≡ 0
unfolding clock_get
get-unlisted k c h = rw (lookup-unlisted k c h)

pub unlisted_both :
    (k : Str) (a b : VectorClock)
    → listed k (all_keys a b) ≡ false
    → (clock_get a k ≡ 0) × (clock_get b k ≡ 0)
unfolding all_keys
unlisted_both k a b h =
    ground (arith, listed-append k (keys a) (keys b), get-unlisted k a, get-unlisted k b)

get-merge_over :
    (k : Str) (ks : List Str) (a b : VectorClock)
    → clock_get (merge_over ks a b) k
      ≡ (if listed k ks then max (clock_get a k) (clock_get b k) else 0)
unfolding merge_over
get-merge_over k [] a b = get-unlisted k [] refl
get-merge_over k (j ∷ ks) a b = ground (
  arith,
  str_eq_iff j k,
  get-insert j k (max (clock_get a j) (clock_get b j)) (merge_over ks a b),
  get-merge_over k ks a b,
)

-- Every counter of the merged clock is the larger of the two, also where a key is missing.
pub get-merge :
    (a b : VectorClock) (k : Str) → clock_get (merge a b) k ≡ max (clock_get a k) (clock_get b k)
unfolding merge
get-merge a b k = ground (arith, get-merge_over k (all_keys a b) a b, unlisted_both k a b)

pub get-increment :
    (c : VectorClock) (node k : Str)
    → clock_get (increment c node) k ≡ (if str_eq node k then clock_get c k + 1 else clock_get c k)
unfolding increment
get-increment c node k =
    ground (arith, str_eq_iff node k, get-insert node k (clock_get c node + 1) c)

-- No counter of `a` exceeds that of `b`.
abbrev pub IsBelow : VectorClock → VectorClock → Type 0
IsBelow a b = (k : Str) → clock_get a k ≤ clock_get b k

-- Some counter of `a` is smaller.
abbrev pub IsBehind : VectorClock → VectorClock → Type 0
IsBehind a b = (k : Str) × (clock_get a k < clock_get b k)

loop-below :
    (ks : List Str) (a b : VectorClock) (s : Bool)
    → happens_loop ks a b s ≡ true
    → (k : Str) → listed k ks ≡ true
    → clock_get a k ≤ clock_get b k
unfolding happens_loop
loop-below [] a b s h k m = cc
loop-below (j ∷ ks) a b s h k m = ground (
  arith,
  str_eq_iff j k,
  loop-below ks a b (if ltb (clock_get a j) (clock_get b j) then true else s) (ground arith) k,
)

loop-IsBehind :
    (ks : List Str) (a b : VectorClock) → happens_loop ks a b false ≡ true → IsBehind a b
unfolding happens_loop
loop-IsBehind [] a b h = cc
loop-IsBehind (j ∷ ks) a b h = elim (Bool-cases (ltb (clock_get a j) (clock_get b j))) [
  | inl lt ↦ (j, ground arith)
  | inr ge ↦ loop-IsBehind ks a b (ground arith)
]

loop-true : (ks : List Str) (a b : VectorClock) → IsBelow a b → happens_loop ks a b true ≡ true
unfolding happens_loop
loop-true [] a b h = refl
loop-true (j ∷ ks) a b h = ground (arith, h j, loop-true ks a b h)

loop-found :
    (ks : List Str) (a b : VectorClock) (s : Bool)
    → IsBelow a b
    → (k : Str) → listed k ks ≡ true
    → clock_get a k < clock_get b k
    → happens_loop ks a b s ≡ true
unfolding happens_loop
loop-found [] a b s h k m lt = cc
loop-found (j ∷ ks) a b s h k m lt = ground (
  arith,
  h j,
  str_eq_iff j k,
  loop-true ks a b h,
  loop-found ks a b (if ltb (clock_get a j) (clock_get b j) then true else s) h k,
)

below_of_happens :
    (a b : VectorClock) → happens_before a b ≡ true → (k : Str) → clock_get a k ≤ clock_get b k
unfolding happens_before
below_of_happens a b h k =
    ground (arith, loop-below (all_keys a b) a b false h k, unlisted_both k a b)

-- `a.happens_before(b)` answers true exactly when no counter of `a` is larger and one is smaller,
-- missing counters read as 0.
pub happens_before_iff :
    (a b : VectorClock) → (happens_before a b ≡ true) ↔ (IsBelow a b × IsBehind a b)
unfolding happens_before
happens_before_iff a b = (
  λ h. (below_of_happens a b h, loop-IsBehind (all_keys a b) a b h),
  λ h.
      loop-found (all_keys a b) a b false h.0 h.1.0 (ground (arith, unlisted_both h.1.0 a b, h.1.1))
        h.1.1,
)

-- A received delta lies strictly before the receiver's new clock: `receive` makes a delivery an
-- event of its own, also when the same delta is delivered again.
pub receive_dominates :
    (a other : VectorClock) (node : Str) → happens_before other (receive a other node) ≡ true
unfolding receive
receive_dominates a other node = (happens_before_iff other (increment (merge a other) node)).1 (
  λ k. ground (arith, get-increment (merge a other) node k, get-merge a other k),
  (
    node,
    ground (
      arith,
      str_eq_iff node node,
      get-increment (merge a other) node node,
      get-merge a other node,
    ),
  ),
)

-- The relation is a strict order: no clock is before itself, and it is transitive.
pub happens_before_strict :
    (a b c : VectorClock)
    → (happens_before a a ≡ false)
      × (happens_before a b ≡ true → happens_before b c ≡ true → happens_before a c ≡ true)
happens_before_strict a b c = (
  elim (Bool-cases (happens_before a a)) [
    | inl before ↦
        let late : IsBehind a a = ((happens_before_iff a a).0 before).1 in
        absurd (omega (arith, late.1))
    | inr not_before ↦ not_before
  ],
  λ p q.
      let first : IsBelow a b × IsBehind a b = (happens_before_iff a b).0 p in
      let second : IsBelow b c × IsBehind b c = (happens_before_iff b c).0 q in
      (happens_before_iff a c).1 (
        λ k. omega (arith, first.0 k, second.0 k),
        (first.1.0, omega (arith, first.1.1, second.0 first.1.0)),
      ),
)
