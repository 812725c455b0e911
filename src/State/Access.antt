-- ===== src/State/Access.antt =====
-- A value that was written is read back, and a change of it from outside shows.
use atlas_memory.Prelude.{
  true, false, List, [], ◌∷◌, Option, some, ◌≡◌, ◌≢◌, refl, sym, ◌∙◌, ◌↔◌, arith, if◌then◌else◌,
}
use atlas_memory.Prelude.Text.{Str, str_eq, str_eq_iff, str_eq_refl, str_eq_ne, is_empty}
use atlas_memory.State.Table.{Sql, Row, Database, upsert, set_state}
use atlas_memory.State.Reading.{
  Json, StateDict, is_tampered, row_to_state_dict, first_row, get_state,
}

abbrev pub exact_row : Str → List Row → Option Row
exact_row k = first_row (λ r. str_eq r.key k)

first_row-upsert :
    (k : Str) (r : Row) (rows : List Row)
    → exact_row k (upsert r rows) ≡ (if str_eq r.key k then some r else exact_row k rows)
unfolding first_row upsert
first_row-upsert k r [] = refl
first_row-upsert k r (q ∷ rows) = ground (
  arith,
  str_eq_iff r.key k,
  str_eq_iff q.key r.key,
  str_eq_iff q.key k,
  first_row-upsert k r rows,
)

module _ {V : Type 0} (s : Sql) (j : Json V) where
  get_state_exact :
      (db : Database) (k : Str) (r : Row)
      → exact_row k db.rows ≡ some r
      → get_state s j db k ≡ some (row_to_state_dict s j r)
  unfolding get_state
  get_state_exact db k r h = rw (h, get_state) refl

  get_state_itself :
      (r : Row) (db : Database)
      → get_state s j (set_state r db) r.key ≡ some (row_to_state_dict s j r)
  unfolding set_state
  get_state_itself r db =
      get_state_exact (set_state r db) r.key r
        (first_row-upsert r.key r db.rows ∙ rw (str_eq_refl r.key) refl)

  get_state_other :
      (r : Row) (db : Database) (k : Str) (q : Row)
      → r.key ≢ k
      → exact_row k db.rows ≡ some q
      → get_state s j (set_state r db) k ≡ get_state s j db k
  unfolding set_state
  get_state_other r db k q apart stands =
      get_state_exact (set_state r db) k q
        (first_row-upsert k r db.rows ∙ rw (str_eq_ne r.key k apart) stands)
      ∙ sym (get_state_exact db k q stands)

  -- After a row was set its key is answered with that row, whatever was there, and any other key
  -- that stands in the table is answered as it was.
  pub get_state-set_state :
      (r : Row) (db : Database)
      → (get_state s j (set_state r db) r.key ≡ some (row_to_state_dict s j r))
        × ((k : Str) (q : Row)
            → r.key ≢ k
            → exact_row k db.rows ≡ some q
            → get_state s j (set_state r db) k ≡ get_state s j db k)
  get_state-set_state r db = (get_state_itself r db, get_state_other r db)

  -- Let a row be set with the hash of its value, and that value be overwritten in the table with any
  -- value, the hash staying. The row that is read then is marked exactly if the two values have
  -- different hashes, for hashes that are not empty.
  pub get_state-tampered :
      (r : Row) (w : Str) (db : Database)
      → is_empty (s.sha256 r.value) ≡ false
      → r.value_hash ≡ some (s.sha256 r.value)
      → (d : StateDict V) × (get_state s j
            (set_state (record r { value = w }) (set_state r db))
            r.key
          ≡ some d)
        × ((d.tampered ≡ true) ↔ (s.sha256 w ≢ s.sha256 r.value))
  unfolding row_to_state_dict is_tampered
  get_state-tampered r w db full hash =
      let changed = record r { value = w } in
      (
        row_to_state_dict s j changed,
        get_state_itself changed (set_state r db),
        rw hash (ground (arith, full, str_eq_iff (s.sha256 w) (s.sha256 r.value))),
      )
