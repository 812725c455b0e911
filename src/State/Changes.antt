-- ===== src/State/Changes.antt =====
-- Histories of writes: every one leaves the full-text table a mirror of the table.
use mathlib.Core.List.{cons≢nil}
use atlas_memory.Prelude.{
  true, List, [], ◌∷◌, map, none, some, ◌≡◌, refl, ap, ◌⊎◌, arith, Option-cases, inl, inr,
}
use atlas_memory.Prelude.Dict.{Dict, listed, Distinct}
use atlas_memory.Prelude.Text.{Str, str_eq, str_eq_iff}
use atlas_memory.State.Table.{
  Sql, Row, Database, entry, after_update, set_state, delete_where, delete_state, is_purged,
  purge_each, purge_stale_probe_keys, refilled, hashed, reindex, init_schema,
}
use atlas_memory.State.Mirror.{
  keys_of, found, IsMirrored, found-unlisted, found-after_update, set_state-IsMirrored,
  delete_where-IsMirrored,
}

hashed-entry : (s : Sql) (rows : List Row) → map entry (map (hashed s) rows) ≡ map entry rows
unfolding hashed
hashed-entry s [] = refl
hashed-entry s (r ∷ rows) = elim (Option-cases r.value_hash) [
  | inl missing ↦ rw (missing, hashed) (ap (λ z. entry r ∷ z) (hashed-entry s rows))
  | inr (h, present) ↦ rw (present, hashed) (ap (λ z. entry r ∷ z) (hashed-entry s rows))
]

hashed-keys : (s : Sql) (rows : List Row) → keys_of (map (hashed s) rows) ≡ keys_of rows
unfolding hashed
hashed-keys s [] = refl
hashed-keys s (r ∷ rows) = elim (Option-cases r.value_hash) [
  | inl missing ↦ rw (missing, hashed) (ap (λ z. r.key ∷ z) (hashed-keys s rows))
  | inr (h, present) ↦ rw (present, hashed) (ap (λ z. r.key ∷ z) (hashed-keys s rows))
]

-- To index a row again changes nothing where the index held that row.
reindex-found :
    (k : Str) (held : Dict Str) (rows : List Row) (fts : Dict Str)
    → Distinct (keys_of rows)
    → found k fts ≡ held
    → (listed k (keys_of rows) ≡ true → held ≡ found k (map entry rows))
    → found k (reindex rows fts) ≡ held
unfolding reindex
reindex-found k held [] fts d e h = e
reindex-found k held (r ∷ rows) fts d e h = elim (Option-cases r.value_hash) [
  | inl missing ↦
      rw (missing, reindex)
        (reindex-found k held rows (after_update r fts) d.1
          (ground
            (arith, e, h, found-after_update k r fts, found-unlisted k rows, str_eq_iff r.key k))
          later)
  | inr (hash, present) ↦ rw (present, reindex) (reindex-found k held rows fts d.1 e later)
]
  where
    later : listed k (keys_of rows) ≡ true → held ≡ found k (map entry rows)
    later l = ground (arith, h, str_eq_iff r.key k, d.0)

refilled-found :
    (k : Str) (rows : List Row) (fts : Dict Str)
    → (fts ≡ []) ⊎ (found k fts ≡ found k (map entry rows))
    → found k (refilled rows fts) ≡ found k (map entry rows)
unfolding refilled
refilled-found k rows [] h = refl
refilled-found k rows (e ∷ fts) (inl empty) = absurd (cons≢nil empty)
refilled-found k rows (e ∷ fts) (inr same) = same

-- Opening tables whose index is empty, or mirrors the table already.
init_schema-IsMirrored :
    (s : Sql) (db : Database)
    → Distinct (keys_of db.rows)
    → ((k : Str) → (db.fts ≡ []) ⊎ (found k db.fts ≡ found k (map entry db.rows)))
    → IsMirrored (init_schema s db)
unfolding init_schema
init_schema-IsMirrored s db d h = record {
  distinct = rw (hashed-keys s db.rows) d;
  same = λ k. rw (hashed-entry s db.rows) (
      reindex-found k (found k (map entry db.rows)) db.rows (refilled db.rows db.fts) d
        (refilled-found k db.rows db.fts (h k)) (λ l. refl));
}

purge_each-IsMirrored :
    (s : Sql) (prefixes : List Str) (db : Database)
    → IsMirrored db
    → IsMirrored (purge_each s prefixes db).0
unfolding purge_each
purge_each-IsMirrored s [] db m = m
purge_each-IsMirrored s (prefix ∷ prefixes) db m =
    purge_each-IsMirrored s prefixes (delete_where (is_purged s prefix) db).0
      (delete_where-IsMirrored (is_purged s prefix) db m)

-- A call that changes the tables; `reopen` runs `init_schema` on them again, `lose_index` stands
-- for a full-text table that was dropped from outside, and is opened again.
pub data Change : Type 0 where
  set : Row → Change
  forget : Str → Change
  purge : List Str → Change
  reopen : Change
  lose_index : Change

unfoldable pub apply : Sql → Change → Database → Database
unfolding set_state delete_state purge_stale_probe_keys init_schema
apply s (set r) db = set_state r db
apply s (forget k) db = (delete_state k db).0
apply s (purge prefixes) db = elim (purge_stale_probe_keys s prefixes db) [
  | none ↦ db
  | some (after, n) ↦ after
]
apply s reopen db = init_schema s db
apply s lose_index db = init_schema s (record db { fts = [] })

unfoldable pub run : Sql → List Change → Database → Database
unfolding apply
run s [] db = db
run s (c ∷ cs) db = run s cs (apply s c db)

apply-IsMirrored :
    (s : Sql) (c : Change) (db : Database) → IsMirrored db → IsMirrored (apply s c db)
unfolding apply delete_state purge_stale_probe_keys
apply-IsMirrored s (set r) db m = set_state-IsMirrored r db m
apply-IsMirrored s (forget k) db m = delete_where-IsMirrored (λ r. str_eq r.key k) db m
apply-IsMirrored s (purge []) db m = m
apply-IsMirrored s (purge (prefix ∷ prefixes)) db m =
    purge_each-IsMirrored s (prefix ∷ prefixes) db m
apply-IsMirrored s reopen db m = init_schema-IsMirrored s db m.distinct (λ k. inr (m.same k))
apply-IsMirrored s lose_index db m =
    init_schema-IsMirrored s (record db { fts = [] }) m.distinct (λ k. inl refl)

-- After any history of writes, deletions, purges and openings of a database that was empty, no key
-- stands twice in the table, and for each key the full-text table has exactly the table's entry.
pub run-IsMirrored :
    (s : Sql) (cs : List Change) → IsMirrored (run s cs (record { rows = []; fts = [] }))
unfolding run
run-IsMirrored s cs =
    go cs (record { rows = []; fts = [] }) (record { distinct = tt; same = λ k. refl })
  where
    go : (cs : List Change) (db : Database) → IsMirrored db → IsMirrored (run s cs db)
    go [] db m = m
    go (c ∷ cs) db m = go cs (apply s c db) (apply-IsMirrored s c db m)
