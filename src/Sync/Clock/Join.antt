-- ===== src/Sync/Clock/Join.antt =====
-- Clocks as dictionaries, whose order does not matter: the merge is a join; and the concurrency test.
use mathlib.Core.Quot
use mathlib.Core.Quot.{Quot, Quot-set}
use atlas_memory.Prelude.Text.{Str, str_eq_iff}
use atlas_memory.Prelude.Dict.{lookup, keys, listed, listed-append, lookup-insert, lookup-unlisted}
use atlas_memory.Prelude.{
  ℕ, max, Bool, true, false, ◌||◌, List, [], ◌∷◌, Option, none, some, if◌then◌else◌, ◌≡◌, refl, sym,
  ap, ap₂, ◌∙◌, ◌⊎◌, arith, inl, inr, Bool-cases,
}
use atlas_memory.Sync.Clock.Order.{happens_before_iff, IsBelow, IsBehind}
use atlas_memory.Sync.Clock.{
  VectorClock, clock_get, merge_over, all_keys, merge, happens_before, concurrent, same_clocks,
}

-- Two dictionaries are equal as Python compares them, by their keys and their counters; an entry
-- with 0 is not a missing one.
abbrev pub SameEntries : VectorClock → VectorClock → Type 0
SameEntries a b = (k : Str) → lookup k a ≡ lookup k b

abbrev pub ClockView : Type 0
ClockView = Quot SameEntries

abbrev pub view : VectorClock → ClockView
view = Quot.mk

-- The larger of two counters, of which either may be missing.
abbrev pub larger : Option ℕ → Option ℕ → Option ℕ
larger none none = none
larger none (some n) = some n
larger (some m) none = some m
larger (some m) (some n) = some (max m n)

is_there : Option ℕ → Bool
is_there none = false
is_there (some n) = true

counter_of : Option ℕ → ℕ
counter_of none = 0
counter_of (some n) = n

listed-is_there : (k : Str) (c : VectorClock) → listed k (keys c) ≡ is_there (lookup k c)
unfolding lookup is_there
listed-is_there k [] = refl
listed-is_there k ((j, n) ∷ c) = ground (arith, listed-is_there k c)

get-counter_of : (k : Str) (c : VectorClock) → clock_get c k ≡ counter_of (lookup k c)
unfolding clock_get counter_of
get-counter_of k c = refl

lookup-merge_over :
    (k : Str) (ks : List Str) (a b : VectorClock)
    → lookup k (merge_over ks a b)
      ≡ (if listed k ks then some (max (clock_get a k) (clock_get b k)) else none)
unfolding merge_over
lookup-merge_over k [] a b = lookup-unlisted k [] refl
lookup-merge_over k (j ∷ ks) a b = ground (
  arith,
  str_eq_iff j k,
  lookup-insert j k (max (clock_get a j) (clock_get b j)) (merge_over ks a b),
  lookup-merge_over k ks a b,
)

larger_lem :
    (x y : Option ℕ)
    → (if is_there x || is_there y then some (max (counter_of x) (counter_of y)) else none)
      ≡ larger x y
unfolding is_there counter_of
larger_lem none none = refl
larger_lem none (some n) = ap some (omega arith)
larger_lem (some m) none = ap some (omega arith)
larger_lem (some m) (some n) = refl

-- An entry of the merged clock: it stands where it stands in one of the two.
lookup-merge :
    (a b : VectorClock) (k : Str) → lookup k (merge a b) ≡ larger (lookup k a) (lookup k b)
unfolding merge all_keys
lookup-merge a b k =
    lookup-merge_over k (all_keys a b) a b
    ∙ rw
        (
          listed-append k (keys a) (keys b),
          listed-is_there k a,
          listed-is_there k b,
          get-counter_of k a,
          get-counter_of k b,
        )
        (either (is_there (lookup k a)) (is_there (lookup k b)) _)
    ∙ larger_lem (lookup k a) (lookup k b)
  where
    either :
        (x y : Bool) (o : Option ℕ)
        → (if (if x then true else y) then o else none) ≡ (if x || y then o else none)
    either true y o = refl
    either false y o = refl

larger_idem : (x : Option ℕ) → larger x x ≡ x
larger_idem none = refl
larger_idem (some n) = ap some (omega arith)

larger_comm : (x y : Option ℕ) → larger x y ≡ larger y x
larger_comm none none = refl
larger_comm none (some n) = refl
larger_comm (some m) none = refl
larger_comm (some m) (some n) = ap some (omega arith)

larger_assoc : (x y z : Option ℕ) → larger (larger x y) z ≡ larger x (larger y z)
larger_assoc none none none = refl
larger_assoc none none (some k) = refl
larger_assoc none (some n) none = refl
larger_assoc none (some n) (some k) = refl
larger_assoc (some m) none none = refl
larger_assoc (some m) none (some k) = refl
larger_assoc (some m) (some n) none = refl
larger_assoc (some m) (some n) (some k) = ap some (omega arith)

SameEntries-merge :
    (a a' b b' : VectorClock)
    → SameEntries a a'
    → SameEntries b b'
    → SameEntries (merge a b) (merge a' b')
SameEntries-merge a a' b b' h k j =
    lookup-merge a b j ∙ ap₂ larger (h j) (k j) ∙ sym (lookup-merge a' b' j)

join_with : VectorClock → ClockView → ClockView
join_with a =
    Quot.lift Quot-set (λ b. view (merge a b))
      (λ b c h. Quot.sound (SameEntries-merge a a b c (λ k. refl) h))

join_with-same :
    (a a' : VectorClock) → SameEntries a a' → (v : ClockView) → join_with a v ≡ join_with a' v
unfolding join_with
join_with-same a a' h =
    Quot.ind (λ v. Quot-set _ _) (λ b. Quot.sound (SameEntries-merge a a' b b h (λ k. refl)))

-- `merge` on views.
pub join : ClockView → ClockView → ClockView
unfolding join_with
join v w = Quot.lift Quot-set (λ a. join_with a w) (λ a a' h. join_with-same a a' h w) v

join_idem : (u : ClockView) → join u u ≡ u
unfolding join
join_idem =
    Quot.ind (λ u. Quot-set _ _)
      (λ a. Quot.sound (λ k. lookup-merge a a k ∙ larger_idem (lookup k a)))

merged_comm : (a b : VectorClock) → SameEntries (merge a b) (merge b a)
merged_comm a b k =
    lookup-merge a b k ∙ larger_comm (lookup k a) (lookup k b) ∙ sym (lookup-merge b a k)

join_comm : (u v : ClockView) → join u v ≡ join v u
unfolding join
join_comm u v =
    Quot.ind (λ u. Quot-set (join u v) (join v u))
      (λ a.
        Quot.ind (λ v. Quot-set (join (view a) v) (join v (view a)))
          (λ b. Quot.sound (merged_comm a b)) v)
      u

merged_assoc : (a b c : VectorClock) → SameEntries (merge (merge a b) c) (merge a (merge b c))
merged_assoc a b c k =
    lookup-merge (merge a b) c k
    ∙ ap (λ x. larger x (lookup k c)) (lookup-merge a b k)
    ∙ larger_assoc (lookup k a) (lookup k b) (lookup k c)
    ∙ ap (larger (lookup k a)) (sym (lookup-merge b c k))
    ∙ sym (lookup-merge a (merge b c) k)

join_assoc : (u v w : ClockView) → join (join u v) w ≡ join u (join v w)
unfolding join
join_assoc u v w =
    Quot.ind (λ u. Quot-set (join (join u v) w) (join u (join v w)))
      (λ a.
        Quot.ind (λ v. Quot-set (join (join (view a) v) w) (join (view a) (join v w)))
          (λ b.
            Quot.ind
              (λ w. Quot-set (join (join (view a) (view b)) w) (join (view a) (join (view b) w)))
              (λ c. Quot.sound (merged_assoc a b c)) w)
          v)
      u

-- On clocks as the program compares them, as dictionaries whose order does not matter but in which
-- an entry with 0 is not a missing one, `merge` is a semilattice: idempotent, commutative and
-- associative, as equations of the quotient by that comparison; and an entry of the merged clock is
-- the larger of the two, there exactly where one of them is.
pub join_semilattice :
    ((u v w : ClockView)
      → (join u u ≡ u) × (join u v ≡ join v u) × (join (join u v) w ≡ join u (join v w)))
    × ((a b : VectorClock) → join (view a) (view b) ≡ view (merge a b))
    × ((a b : VectorClock) (k : Str) → lookup k (merge a b) ≡ larger (lookup k a) (lookup k b))
unfolding join join_with
join_semilattice =
    (λ u v w. (join_idem u, join_comm u v, join_assoc u v w), λ a b. refl, lookup-merge)

-- Two dictionaries show the same counters: a missing one is read as 0.
abbrev pub SameCounters : VectorClock → VectorClock → Type 0
SameCounters a b = (k : Str) → clock_get a k ≡ clock_get b k

not_before_same : (a b : VectorClock) → SameCounters a b → happens_before a b ≡ false
not_before_same a b h = elim (Bool-cases (happens_before a b)) [
  | inl before ↦
      let late : IsBehind a b = ((happens_before_iff a b).0 before).1 in
      absurd (omega (arith, h late.0, late.1))
  | inr not_before ↦ not_before
]

-- Two clocks that show the same counters but are different dictionaries, such as the clock
-- `{a: 0}` of a new node and the clock `{b: 0}` of another, are reported as concurrent.
pub concurrent-SameCounters :
    (a b : VectorClock) → SameCounters a b → same_clocks a b ≡ false → concurrent a b ≡ true
unfolding concurrent
concurrent-SameCounters a b h d =
    rw (d, not_before_same a b h, not_before_same b a (λ k. sym (h k)))

not_both : (a b : VectorClock) → happens_before a b ≡ true → happens_before b a ≡ true → ⊥
not_both a b p q =
    let first : IsBelow a b × IsBehind a b = (happens_before_iff a b).0 p in
    let second : IsBelow b a × IsBehind b a = (happens_before_iff b a).0 q in
    absurd (omega (arith, first.1.1, second.0 first.1.0))

-- Of two different dictionaries exactly one of three things is answered: the first is before the
-- second, the second before the first, or they are concurrent.
trichotomy :
    (a b : VectorClock)
    → same_clocks a b ≡ false
    → ((happens_before a b ≡ true) × (happens_before b a ≡ false) × (concurrent a b ≡ false))
      ⊎ ((happens_before a b ≡ false) × (happens_before b a ≡ true) × (concurrent a b ≡ false))
      ⊎ ((happens_before a b ≡ false) × (happens_before b a ≡ false) × (concurrent a b ≡ true))
unfolding concurrent
trichotomy a b d = ground (arith, not_both a b)
