-- ===== src/Sync/Lww/Collect.antt =====
-- `gc`: which entries go, and what that does to membership.
use atlas_memory.Prelude.Dict.{
  Dict, lookup, delete, listed, keys, IsDict, lookup-delete, delete-IsDict,
}
use atlas_memory.Prelude.Text.{Str, str_eq, str_eq_iff}
use atlas_memory.Prelude.{
  ℕ, ◌+◌, ◌<◌, ◌≤◌, Bool, true, false, List, [], ◌∷◌, Option, none, some, ◌≡◌, refl, arith,
  if◌then◌else◌, ltb,
}
use atlas_memory.Sync.Lww.Merge.{IsValid}
use atlas_memory.Sync.Lww.{
  Meta, LwwSet, crdt_meta_dominates, expired_keys, drop_expired, collect, gc, contains, present,
}

-- The entry is older than the cutoff.
abbrev pub is_expired : ℕ → ℕ → Option Meta → Bool
is_expired now ttl none = false
is_expired now ttl (some m) = ltb (m.timestamp + ttl) now

expired_unlisted :
    (now ttl : ℕ) (d : Dict Meta) (y : Str)
    → listed y (keys d) ≡ false
    → listed y (expired_keys now ttl d) ≡ false
unfolding expired_keys
expired_unlisted now ttl [] y h = refl
expired_unlisted now ttl ((x, m) ∷ d) y h = ground (arith, expired_unlisted now ttl d y)

listed-expired_keys :
    (now ttl : ℕ) (d : Dict Meta) (y : Str)
    → IsDict d
    → listed y (expired_keys now ttl d) ≡ is_expired now ttl (lookup y d)
unfolding expired_keys lookup
listed-expired_keys now ttl [] y h = refl
listed-expired_keys now ttl ((x, m) ∷ d) y h =
    ground
      (arith, str_eq_iff x y, expired_unlisted now ttl d y, listed-expired_keys now ttl d y h.1)

abbrev pub unless_expired : ℕ → ℕ → Option Meta → Option Meta
unless_expired now ttl o = if is_expired now ttl o then none else o

lookup-drop_expired :
    (now ttl : ℕ) (x y : Str) (d : Dict Meta)
    → lookup y (drop_expired now ttl x d)
      ≡ (if str_eq x y then unless_expired now ttl (lookup y d) else lookup y d)
unfolding drop_expired
lookup-drop_expired now ttl x y d = ground (arith, str_eq_iff x y, lookup-delete x y d)

lookup-collect :
    (now ttl : ℕ) (xs : List Str) (s : LwwSet) (y : Str)
    → (lookup y (collect now ttl xs s).removes ≡ (if listed y xs then none else lookup y s.removes))
      × (lookup y (collect now ttl xs s).adds
          ≡ (if listed y xs then unless_expired now ttl (lookup y s.adds) else lookup y s.adds))
unfolding collect
lookup-collect now ttl [] s y = (refl, refl)
lookup-collect now ttl (x ∷ xs) s y = ground (
  arith,
  str_eq_iff x y,
  lookup-delete x y s.removes,
  lookup-drop_expired now ttl x y s.adds,
  lookup-collect now ttl xs
      (record s { removes = delete x s.removes; adds = drop_expired now ttl x s.adds }) y,
)

-- Whether a lookup misses.
abbrev pub holds_at : Option ℕ → ℕ → Option Meta → Bool
holds_at none now o = false
holds_at (some ttl) now o = is_expired now ttl o

abbrev pub after : Option ℕ → ℕ → Option Meta → Option Meta
after none now o = o
after (some ttl) now o = unless_expired now ttl o

-- With a tombstone lifetime, collection drops exactly the tombstones older than it, and of their
-- elements the additions that are older too; all other entries stay. Without one it does nothing.
lookup-gc :
    (now : ℕ) (s : LwwSet) (y : Str)
    → IsDict s.removes
    → (lookup y (gc now s).0.removes ≡ after s.tombstone_ttl_seconds now (lookup y s.removes))
      × (lookup y (gc now s).0.adds ≡ (
          if holds_at s.tombstone_ttl_seconds now (lookup y s.removes)
          then after s.tombstone_ttl_seconds now (lookup y s.adds)
          else lookup y s.adds))
unfolding gc
lookup-gc now s y h = gc_cases s.tombstone_ttl_seconds refl
  where
    gc_cases :
        (o : Option ℕ)
        → s.tombstone_ttl_seconds ≡ o
        → (lookup y (gc now s).0.removes ≡ after o now (lookup y s.removes))
          × (lookup y (gc now s).0.adds ≡ (
              if holds_at o now (lookup y s.removes)
              then after o now (lookup y s.adds)
              else lookup y s.adds))
    gc_cases none e = ground arith
    gc_cases (some ttl) e = ground (
      arith,
      lookup-collect now ttl (expired_keys now ttl s.removes) s y,
      listed-expired_keys now ttl s.removes y h,
    )

-- An element whose tombstone is not old enough to be dropped, or that has none, answers as before.
pub contains-gc_kept :
    (now ttl : ℕ) (s : LwwSet) (y : Str)
    → IsDict s.removes
    → s.tombstone_ttl_seconds ≡ some ttl
    → is_expired now ttl (lookup y s.removes) ≡ false
    → contains (gc now s).0 y ≡ contains s y
unfolding contains
contains-gc_kept now ttl s y h e k = ground (arith, lookup-gc now s y h)

-- Whatever the two entries say of each other: if both are older than the cutoff the element is
-- absent after collection, also where its addition had beaten the tombstone and it was present.
gc_forgets :
    (now ttl : ℕ) (s : LwwSet) (y : Str) (a r : Meta)
    → IsDict s.removes
    → s.tombstone_ttl_seconds ≡ some ttl
    → lookup y s.adds ≡ some a
    → lookup y s.removes ≡ some r
    → a.timestamp + ttl < now
    → r.timestamp + ttl < now
    → crdt_meta_dominates a r ≡ true
    → (contains s y ≡ true) × (contains (gc now s).0 y ≡ false)
unfolding contains present
gc_forgets now ttl s y a r h e p q old_add old_remove k = ground (arith, lookup-gc now s y h)

-- And if only the tombstone is older, the element is present after collection, also where the
-- tombstone had beaten the addition by its potential and the element was absent.
gc_revives :
    (now ttl : ℕ) (s : LwwSet) (y : Str) (a r : Meta)
    → IsDict s.removes
    → s.tombstone_ttl_seconds ≡ some ttl
    → lookup y s.adds ≡ some a
    → lookup y s.removes ≡ some r
    → now ≤ a.timestamp + ttl
    → r.timestamp + ttl < now
    → crdt_meta_dominates a r ≡ false
    → (contains s y ≡ false) × (contains (gc now s).0 y ≡ true)
unfolding contains present
gc_revives now ttl s y a r h e p q young_add old_remove k = ground (arith, lookup-gc now s y h)

collect-IsValid :
    (now ttl : ℕ) (xs : List Str) (s : LwwSet) → IsValid s → IsValid (collect now ttl xs s)
unfolding collect drop_expired
collect-IsValid now ttl [] s v = v
collect-IsValid now ttl (x ∷ xs) s v =
    collect-IsValid now ttl xs
      (record s { removes = delete x s.removes; adds = drop_expired now ttl x s.adds })
      (ground (arith, delete-IsDict x s.adds v.0), delete-IsDict x s.removes v.1)

pub gc-IsValid : (now : ℕ) (s : LwwSet) → IsValid s → IsValid (gc now s).0
unfolding gc
gc-IsValid now s v = gc_valid s.tombstone_ttl_seconds refl
  where
    gc_valid : (o : Option ℕ) → s.tombstone_ttl_seconds ≡ o → IsValid (gc now s).0
    gc_valid none e = ground arith
    gc_valid (some ttl) e =
        ground (arith, collect-IsValid now ttl (expired_keys now ttl s.removes) s v)
