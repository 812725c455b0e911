-- ===== src/Sync/Lww/Lookup.antt =====
-- What `add` and `remove` change: the entry of their element, and no other.
use atlas_memory.Prelude.Dict.{Dict, lookup, lookup-insert, insert-IsDict, IsDict}
use atlas_memory.Prelude.Text.{Str, str_eq, str_eq_iff}
use atlas_memory.Prelude.{ℕ, true, false, Option, none, some, ◌≡◌, ◌⊎◌, arith, if◌then◌else◌}
use atlas_memory.Sync.Lww.{
  Meta, LwwSet, RankSource, meta_of, crdt_meta_dominates, offer, add, remove, contains, present,
}

-- The metadata that stays when new metadata is offered to an entry.
abbrev pub winner : Option Meta → Meta → Meta
winner none m = m
winner (some old) m = if crdt_meta_dominates m old then m else old

pub lookup-offer :
    (x y : Str) (m : Meta) (d : Dict Meta)
    → lookup y (offer x m d) ≡ (if str_eq x y then some (winner (lookup x d) m) else lookup y d)
unfolding offer
lookup-offer x y m d = ground (arith, str_eq_iff x y, lookup-insert x y m d)

pub offer-IsDict : (x : Str) (m : Meta) (d : Dict Meta) → IsDict d → IsDict (offer x m d)
unfolding offer
offer-IsDict x m d h = ground (arith, insert-IsDict x m d h)

module _ (s : LwwSet) (x : Str) (ts : ℕ) (node : Str) (precision confidence : ℕ)
    (source : RankSource) where
  abbrev written : Meta
  written = meta_of ts node precision confidence source

  -- After `add` the element is present unless a tombstone beats what its entry holds, which is the
  -- stronger of the old and the new metadata; every other element is as before.
  contains-add :
      (y : Str)
      → contains (add s x ts node precision confidence source) y ≡ (
          if str_eq x y
          then present (some (winner (lookup x s.adds) written)) (lookup x s.removes)
          else contains s y)
  unfolding contains add
  contains-add y = ground (arith, str_eq_iff x y, lookup-offer x y written s.adds)

  -- The same of `remove`: the element is absent unless its entry beats the tombstone that stays.
  contains-remove :
      (y : Str)
      → contains (remove s x ts node precision confidence source) y ≡ (
          if str_eq x y
          then present (lookup x s.adds) (some (winner (lookup x s.removes) written))
          else contains s y)
  unfolding contains remove
  contains-remove y = ground (arith, str_eq_iff x y, lookup-offer x y written s.removes)

  -- An element with no tombstone is present after it was added, whatever its entry held.
  pub add-then-present :
      lookup x s.removes ≡ none → contains (add s x ts node precision confidence source) x ≡ true
  unfolding present
  add-then-present h = ground (arith, contains-add x, str_eq_iff x x)

  -- A removal that the element's entry does not dominate, and that no older tombstone outweighs,
  -- hides the element.
  pub remove-then-absent :
      (a : Meta)
      → lookup x s.adds ≡ some a
      → crdt_meta_dominates a written ≡ false
      → (lookup x s.removes ≡ none)
        ⊎ ((r : Meta) × (lookup x s.removes ≡ some r) × (crdt_meta_dominates written r ≡ true))
      → contains (remove s x ts node precision confidence source) x ≡ false
  unfolding present
  remove-then-absent a h k old = ground (arith, contains-remove x, str_eq_iff x x)
