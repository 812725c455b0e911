-- ===== src/Sync/Lww/Merge.antt =====
-- Merging two sets: what each entry becomes, and when the order of merges does not matter.
use atlas_memory.Prelude.Dict.{Dict, lookup, IsDict, lookup-unlisted}
use atlas_memory.Prelude.Text.{Str, str_eq_iff}
use atlas_memory.Prelude.{ℕ, true, false, [], ◌∷◌, Option, none, some, ◌≡◌, refl, arith}
use atlas_memory.Sync.Lww.Dominance.{
  IsApart, dominates_refl, dominates_total, dominates_antisym, dominates_trans, rung,
  dominates_cycle, later_rungs,
}
use atlas_memory.Sync.Lww.Lookup.{winner, lookup-offer, offer-IsDict}
use atlas_memory.Sync.Lww.{Meta, LwwSet, crdt_meta_dominates, offer, merge_entries, merge, contains}

-- The entry after a merge: the incoming one, unless the present one strictly beats it.
abbrev pub best : Option Meta → Option Meta → Option Meta
best old none = old
best old (some m) = some (winner old m)

pub lookup-merge_entries :
    (es d : Dict Meta) (x : Str)
    → IsDict es
    → lookup x (merge_entries es d) ≡ best (lookup x d) (lookup x es)
unfolding merge_entries lookup
lookup-merge_entries [] d x h = refl
lookup-merge_entries ((y, m) ∷ es) d x h = ground (
  arith,
  str_eq_iff y x,
  lookup-offer y x m d,
  lookup-unlisted x es,
  lookup-merge_entries es (offer y m d) x h.1,
)

pub merge_entries-IsDict : (es d : Dict Meta) → IsDict d → IsDict (merge_entries es d)
unfolding merge_entries
merge_entries-IsDict [] d h = h
merge_entries-IsDict ((x, m) ∷ es) d h =
    merge_entries-IsDict es (offer x m d) (offer-IsDict x m d h)

abbrev pub IsValid : LwwSet → Type 0
IsValid s = IsDict s.adds × IsDict s.removes

-- Entry by entry a merge keeps the metadata that is not beaten, for additions and removals.
pub lookup-merge :
    (s t : LwwSet) (x : Str)
    → IsValid t
    → (lookup x (merge s t).adds ≡ best (lookup x s.adds) (lookup x t.adds))
      × (lookup x (merge s t).removes ≡ best (lookup x s.removes) (lookup x t.removes))
unfolding merge
lookup-merge s t x v =
    (lookup-merge_entries t.adds s.adds x v.0, lookup-merge_entries t.removes s.removes x v.1)

best_again : (o n : Option Meta) → best (best o n) n ≡ best o n
best_again o none = refl
best_again none (some m) = ground (arith, dominates_refl m)
best_again (some a) (some m) = ground (arith, dominates_refl m)

-- To merge the same set a second time changes no entry, and so no answer.
pub merge_twice :
    (s t : LwwSet) (x : Str)
    → IsValid t
    → (lookup x (merge (merge s t) t).adds ≡ lookup x (merge s t).adds)
      × (lookup x (merge (merge s t) t).removes ≡ lookup x (merge s t).removes)
      × (contains (merge (merge s t) t) x ≡ contains (merge s t) x)
unfolding contains
merge_twice s t x v = ground (
  arith,
  lookup-merge (merge s t) t x v,
  lookup-merge s t x v,
  best_again (lookup x s.adds) (lookup x t.adds),
  best_again (lookup x s.removes) (lookup x t.removes),
)

abbrev pub AreApart : Option Meta → Option Meta → Type 0
AreApart none n = Unit
AreApart (some a) none = Unit
AreApart (some a) (some b) = IsApart a b

best_comm : (o n : Option Meta) → AreApart o n → best o n ≡ best n o
best_comm none none h = refl
best_comm none (some b) h = refl
best_comm (some a) none h = refl
best_comm (some a) (some b) h =
    ground (arith, dominates_total a b, dominates_total b a, dominates_antisym a b h)

keep_both :
    (a b c : Meta)
    → IsApart a b
    → IsApart b c
    → IsApart a c
    → crdt_meta_dominates c b ≡ false
    → crdt_meta_dominates b a ≡ false
    → crdt_meta_dominates c a ≡ false
keep_both a b c h k l cb ba = ground (
  arith,
  dominates_total c b cb,
  dominates_total b a ba,
  dominates_trans a b c h k l,
  dominates_antisym a c l,
)

take_last :
    (a b c : Meta)
    → IsApart a b
    → IsApart b c
    → IsApart a c
    → crdt_meta_dominates c b ≡ true
    → crdt_meta_dominates b a ≡ true
    → crdt_meta_dominates c a ≡ true
take_last a b c h k l cb ba = dominates_trans c b a (omega arith) (omega arith) (omega arith) cb ba

best_assoc :
    (o n p : Option Meta)
    → AreApart o n
    → AreApart n p
    → AreApart o p
    → best (best o n) p ≡ best o (best n p)
best_assoc o n none h k l = refl
best_assoc o none (some c) h k l = refl
best_assoc none (some b) (some c) h k l = refl
best_assoc (some a) (some b) (some c) h k l =
    ground (arith, keep_both a b c h k l, take_last a b c h k l)

-- The additions, and the tombstones, that two sets hold of an element have potentials that are
-- equal or further apart than the tolerance.
abbrev pub AreApartAt : LwwSet → LwwSet → Str → Type 0
AreApartAt s t x =
    AreApart (lookup x s.adds) (lookup x t.adds)
    × AreApart (lookup x s.removes) (lookup x t.removes)

-- Away from the tolerance the direction of a merge does not matter: both replicas hold the same
-- metadata of the element and give the same answer.
pub merge_comm :
    (s t : LwwSet) (x : Str)
    → IsValid s
    → IsValid t
    → AreApartAt s t x
    → (lookup x (merge s t).adds ≡ lookup x (merge t s).adds)
      × (lookup x (merge s t).removes ≡ lookup x (merge t s).removes)
      × (contains (merge s t) x ≡ contains (merge t s) x)
unfolding contains
merge_comm s t x v w h = ground (
  arith,
  lookup-merge s t x w,
  lookup-merge t s x v,
  best_comm (lookup x s.adds) (lookup x t.adds) h.0,
  best_comm (lookup x s.removes) (lookup x t.removes) h.1,
)

pub merge-IsValid : (s t : LwwSet) → IsValid s → IsValid (merge s t)
unfolding merge
merge-IsValid s t v =
    (merge_entries-IsDict t.adds s.adds v.0, merge_entries-IsDict t.removes s.removes v.1)

-- Away from the tolerance the grouping of merges does not matter either.
pub merge_assoc :
    (s t u : LwwSet) (x : Str)
    → IsValid t
    → IsValid u
    → AreApartAt s t x
    → AreApartAt t u x
    → AreApartAt s u x
    → (lookup x (merge (merge s t) u).adds ≡ lookup x (merge s (merge t u)).adds)
      × (lookup x (merge (merge s t) u).removes ≡ lookup x (merge s (merge t u)).removes)
      × (contains (merge (merge s t) u) x ≡ contains (merge s (merge t u)) x)
unfolding contains
merge_assoc s t u x v w h k l = ground (
  arith,
  lookup-merge s t x v,
  lookup-merge (merge s t) u x w,
  lookup-merge t u x w,
  lookup-merge s (merge t u) x (merge-IsValid t u v),
  best_assoc (lookup x s.adds) (lookup x t.adds) (lookup x u.adds) h.0 k.0 l.0,
  best_assoc (lookup x s.removes) (lookup x t.removes) (lookup x u.removes) h.1 k.1 l.1,
)

abbrev pub holding : Str → Meta → LwwSet
holding x m = record { adds = (x, m) ∷ []; removes = []; tombstone_ttl_seconds = none }

-- Within the tolerance the grouping decides: of three sets that each hold the element at a
-- potential one tolerance above the one before, with a falling rank, one grouping keeps the third
-- record and the other keeps the first.
merge_order_matters :
    (x : Str) (base ts : ℕ) (node : Str)
    → let m = rung base ts node in
      let s = holding x (m 0 2) in
      let t = holding x (m 1 1) in
      let u = holding x (m 2 0) in
      (lookup x (merge (merge s t) u).adds ≡ some (m 2 0))
      × (lookup x (merge s (merge t u)).adds ≡ some (m 0 2))
unfolding lookup
merge_order_matters x base ts node =
    let s = holding x (rung base ts node 0 2) in
    let t = holding x (rung base ts node 1 1) in
    let u = holding x (rung base ts node 2 0) in
    ground (
      arith,
      str_eq_iff x x,
      lookup-merge s t x ((refl, tt), tt),
      lookup-merge (merge s t) u x ((refl, tt), tt),
      lookup-merge t u x ((refl, tt), tt),
      lookup-merge s (merge t u) x (merge-IsValid t u ((refl, tt), tt)),
      dominates_cycle base ts node,
      later_rungs base ts node,
    )
