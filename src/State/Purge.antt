-- ===== src/State/Purge.antt =====
-- What a purge deletes.
use atlas_memory.Prelude.{
  ℕ, ◌+◌, Bool, true, not, List, [], ◌∷◌, none, some, ◌≡◌, refl, sym, ◌∙◌, ap, ◌⊎◌, inl, inr, arith,
  if◌then◌else◌, length, keep_if, any_of,
}
use atlas_memory.Prelude.Text.{Str}
use atlas_memory.State.Table.{
  Sql, Row, Database, delete_where, is_purged, purge_each, purge_stale_probe_keys,
}

length-keep_if-split :
    (p : Row → Bool) (rows : List Row)
    → length (keep_if p rows) + length (keep_if (λ r. not (p r)) rows) ≡ length rows
length-keep_if-split p [] = omega arith
length-keep_if-split p (r ∷ rows) = ground (arith, length-keep_if-split p rows)

keep_if-twice :
    (p q : Row → Bool) (rows : List Row)
    → keep_if (λ r. not (q r)) (keep_if (λ r. not (p r)) rows)
      ≡ keep_if (λ r. not (if p r then true else q r)) rows
keep_if-twice p q [] = refl
keep_if-twice p q (r ∷ rows) = ground (arith, keep_if-twice p q rows)

keep_if-all : (rows : List Row) → keep_if (λ r. true) rows ≡ rows
keep_if-all [] = refl
keep_if-all (r ∷ rows) = ap (λ z. r ∷ z) (keep_if-all rows)

purge_each_lem :
    (s : Sql) (prefixes : List Str) (db : Database)
    → ((purge_each s prefixes db).0.rows
        ≡ keep_if (λ r. not (any_of (λ prefix. is_purged s prefix r) prefixes)) db.rows)
      × ((purge_each s prefixes db).1 + length (purge_each s prefixes db).0.rows ≡ length db.rows)
unfolding purge_each delete_where
purge_each_lem s [] db = (sym (keep_if-all db.rows), omega arith)
purge_each_lem s (prefix ∷ prefixes) db =
    let later = purge_each_lem s prefixes (delete_where (is_purged s prefix) db).0 in
    (
      later.0
          ∙ keep_if-twice (is_purged s prefix) (λ r. any_of (λ t. is_purged s t r) prefixes)
              db.rows,
      omega (arith, later.1, length-keep_if-split (is_purged s prefix) db.rows),
    )

-- A purge without prefixes fails. With prefixes it returns the number of the rows that it deleted,
-- and the rows that are left are, in their order, those that no prefix picks.
purge_stale_probe_keys_lem :
    (s : Sql) (prefixes : List Str) (db : Database)
    → ((prefixes ≡ []) × (purge_stale_probe_keys s prefixes db ≡ none))
      ⊎ ((after : Database) × (n : ℕ) × (purge_stale_probe_keys s prefixes db ≡ some (after, n))
          × (after.rows
              ≡ keep_if (λ r. not (any_of (λ prefix. is_purged s prefix r) prefixes)) db.rows)
          × (n + length after.rows ≡ length db.rows))
unfolding purge_stale_probe_keys
purge_stale_probe_keys_lem s [] db = inl (refl, refl)
purge_stale_probe_keys_lem s (prefix ∷ prefixes) db =
    let (left, counted) = purge_each_lem s (prefix ∷ prefixes) db in
    let (after, n) = purge_each s (prefix ∷ prefixes) db in inr (after, n, refl, left, counted)
