-- ===== src/State/Table.antt =====
-- The table, the full-text table that triggers keep, and the operations that write.
use atlas_memory.Prelude.{
  ℕ, ◌+◌, Bool, not, List, [], ◌∷◌, ◌++◌, map, Option, none, some, ltb, ◌==◌, if◌then◌else◌, length,
  keep_if, any_of,
}
use atlas_memory.Prelude.Dict.{Dict, delete}
use atlas_memory.Prelude.Text.{Str, str_eq}

-- `LOWER` and `LIKE` of SQLite (the pattern first), and `sha256(…).hexdigest()`.
pub record Sql : Type 0 where
  pub lower : Str → Str
  pub like : Str → Str → Bool
  pub sha256 : Str → Str

pub record Row : Type 0 where
  pub key : Str
  pub value : Str
  pub confidence : ℕ
  pub timestamp : ℕ
  pub metadata : Option Str
  pub value_hash : Option Str

-- `state_variables` and `state_variables_fts`.
pub record Database : Type 0 where
  pub rows : List Row
  pub fts : Dict Str

abbrev pub entry : Row → Str × Str
entry r = (r.key, r.value)

-- The triggers after an insert, a deletion and an update of a row.
abbrev pub after_insert : Row → Dict Str → Dict Str
after_insert r fts = fts ++ ((r.key, r.value) ∷ [])

abbrev pub after_delete : Row → Dict Str → Dict Str
after_delete r fts = delete r.key fts

abbrev pub after_update : Row → Dict Str → Dict Str
after_update r fts = delete r.key fts ++ ((r.key, r.value) ∷ [])

-- `INSERT … ON CONFLICT(key) DO UPDATE`: the row that is there is overwritten in its place.
unfoldable pub upsert : Row → List Row → List Row
upsert r [] = r ∷ []
upsert r (q ∷ rows) = if str_eq q.key r.key then r ∷ rows else q ∷ upsert r rows

abbrev pub has_row : Str → List Row → Bool
has_row k = any_of (λ r. str_eq r.key k)

unfoldable pub set_state : Row → Database → Database
unfolding upsert
set_state r db = record {
  rows = upsert r db.rows;
  fts = if has_row r.key db.rows then after_update r db.fts else after_insert r db.fts;
}

-- The deletion trigger for each of the rows that a test picks.
unfoldable pub unindex : (Row → Bool) → List Row → Dict Str → Dict Str
unindex p [] fts = fts
unindex p (r ∷ rows) fts = unindex p rows (if p r then after_delete r fts else fts)

-- `DELETE FROM state_variables WHERE …`, with its `rowcount`.
unfoldable pub delete_where : (Row → Bool) → Database → Database × ℕ
unfolding unindex
delete_where p db = (
  record { rows = keep_if (λ r. not (p r)) db.rows; fts = unindex p db.rows db.fts },
  length (keep_if p db.rows),
)

unfoldable pub delete_state : Str → Database → Database × Bool
unfolding delete_where
delete_state k db = let (after, n) = delete_where (λ r. str_eq r.key k) db in (after, ltb 0 n)

-- The rows that one pattern of the purge picks: `%` is the code point 37.
unfoldable pub is_purged : Sql → Str → Row → Bool
is_purged s prefix r =
    if any_of (λ c. c == 37) prefix then s.like prefix r.key else str_eq r.key prefix

unfoldable pub purge_each : Sql → List Str → Database → Database × ℕ
unfolding delete_where is_purged
purge_each s [] db = (db, 0)
purge_each s (prefix ∷ prefixes) db =
    let (deleted, n) = delete_where (is_purged s prefix) db in
    let (after, m) = purge_each s prefixes deleted in (after, n + m)

-- `none` is the ValueError of an empty list.
unfoldable pub purge_stale_probe_keys : Sql → List Str → Database → Option (Database × ℕ)
unfolding purge_each
purge_stale_probe_keys s [] db = none
purge_stale_probe_keys s (prefix ∷ prefixes) db = some (purge_each s (prefix ∷ prefixes) db)

-- `init_schema` on tables that are there: a full-text table that is empty is filled again.
unfoldable pub refilled : List Row → Dict Str → Dict Str
refilled rows [] = map entry rows
refilled rows (e ∷ fts) = e ∷ fts

unfoldable pub hashed : Sql → Row → Row
hashed s r = elim r.value_hash [
  | none ↦ record r { value_hash = some (s.sha256 r.value) }
  | some h ↦ r
]

-- The update trigger for each of the rows that had no hash.
unfoldable pub reindex : List Row → Dict Str → Dict Str
reindex [] fts = fts
reindex (r ∷ rows) fts =
    reindex rows (elim r.value_hash [ none ↦ after_update r fts | some h ↦ fts ])

unfoldable pub init_schema : Sql → Database → Database
unfolding refilled hashed reindex
init_schema s db = record {
  rows = map (hashed s) db.rows;
  fts = reindex db.rows (refilled db.rows db.fts);
}
