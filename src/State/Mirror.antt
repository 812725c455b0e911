-- ===== src/State/Mirror.antt =====
-- The full-text table mirrors the table.
use mathlib.Core.List.{append-nil}
use atlas_memory.Prelude.{
  Bool, true, false, not, ◌&&◌, List, [], ◌∷◌, ◌++◌, map, ◌≡◌, refl, sym, ◌∙◌, ap, arith,
  if◌then◌else◌, keep_if, any_of, keep_if-append,
}
use atlas_memory.Prelude.Dict.{Dict, delete, listed, Distinct}
use atlas_memory.Prelude.Text.{Str, str_eq, str_eq_iff}
use atlas_memory.State.Table.{
  Row, Database, entry, after_insert, after_delete, after_update, upsert, has_row, set_state,
  unindex, delete_where,
}

abbrev pub keys_of : List Row → List Str
keys_of = map (λ r. r.key)

-- The entries of one key.
abbrev pub found : Str → Dict Str → Dict Str
found k = keep_if (λ e. str_eq e.0 k)

-- Every key stands once, and for each key the index holds exactly what the table holds.
pub record IsMirrored (db : Database) : Type 0 where
  pub distinct : Distinct (keys_of db.rows)
  pub same : (k : Str) → found k db.fts ≡ found k (map entry db.rows)

found-delete :
    (k j : Str) (fts : Dict Str) → found k (delete j fts) ≡ (if str_eq j k then [] else found k fts)
unfolding delete
found-delete k j [] = ground arith
found-delete k j (e ∷ fts) =
    ground (arith, str_eq_iff j k, str_eq_iff e.0 j, str_eq_iff e.0 k, found-delete k j fts)

pub found-after_update :
    (k : Str) (r : Row) (fts : Dict Str)
    → found k (after_update r fts) ≡ (if str_eq r.key k then entry r ∷ [] else found k fts)
found-after_update k r fts = ground (
  arith,
  keep_if-append (λ (e : Str × Str). str_eq e.0 k) (delete r.key fts) ((r.key, r.value) ∷ []),
  found-delete k r.key fts,
  append-nil (found k fts),
)

found-after_insert :
    (k : Str) (r : Row) (fts : Dict Str)
    → found k (after_insert r fts)
      ≡ (if str_eq r.key k then found k fts ++ (entry r ∷ []) else found k fts)
found-after_insert k r fts = ground (
  arith,
  keep_if-append (λ (e : Str × Str). str_eq e.0 k) fts ((r.key, r.value) ∷ []),
  append-nil (found k fts),
)

pub found-unlisted :
    (k : Str) (rows : List Row) → listed k (keys_of rows) ≡ false → found k (map entry rows) ≡ []
found-unlisted k [] h = refl
found-unlisted k (r ∷ rows) h = ground (arith, found-unlisted k rows)

has_row-listed : (k : Str) (rows : List Row) → has_row k rows ≡ listed k (keys_of rows)
has_row-listed k [] = refl
has_row-listed k (r ∷ rows) = ground (arith, has_row-listed k rows)

listed-upsert :
    (r : Row) (k : Str) (rows : List Row)
    → listed k (keys_of (upsert r rows))
      ≡ (if str_eq r.key k then true else listed k (keys_of rows))
unfolding upsert
listed-upsert r k [] = refl
listed-upsert r k (q ∷ rows) =
    ground (
      arith,
      str_eq_iff r.key k,
      str_eq_iff q.key r.key,
      str_eq_iff q.key k,
      listed-upsert r k rows,
    )

pub upsert-Distinct :
    (r : Row) (rows : List Row) → Distinct (keys_of rows) → Distinct (keys_of (upsert r rows))
unfolding upsert
upsert-Distinct r [] d = (refl, tt)
upsert-Distinct r (q ∷ rows) d = ground (
  arith,
  str_eq_iff q.key r.key,
  str_eq_iff r.key q.key,
  listed-upsert r q.key rows,
  upsert-Distinct r rows d.1,
)

found-upsert :
    (k : Str) (r : Row) (rows : List Row)
    → Distinct (keys_of rows)
    → found k (map entry (upsert r rows))
      ≡ (if str_eq r.key k then entry r ∷ [] else found k (map entry rows))
unfolding upsert
found-upsert k r [] d = refl
found-upsert k r (q ∷ rows) d = ground (
  arith,
  str_eq_iff r.key k,
  str_eq_iff q.key r.key,
  str_eq_iff q.key k,
  found-unlisted k rows,
  found-upsert k r rows d.1,
)

pub set_state-IsMirrored : (r : Row) (db : Database) → IsMirrored db → IsMirrored (set_state r db)
unfolding set_state
set_state-IsMirrored r db m = record {
  distinct = upsert-Distinct r db.rows m.distinct;
  same = λ k. ground (
    arith,
    m.same k,
    found-upsert k r db.rows m.distinct,
    found-after_update k r db.fts,
    found-after_insert k r db.fts,
    found-unlisted k db.rows,
    has_row-listed r.key db.rows,
    str_eq_iff r.key k,
  );
}

found-unindex :
    (k : Str) (p : Row → Bool) (rows : List Row) (fts : Dict Str)
    → found k (unindex p rows fts)
      ≡ (if any_of (λ r. p r && str_eq r.key k) rows then [] else found k fts)
unfolding unindex
found-unindex k p [] fts = refl
found-unindex k p (r ∷ rows) fts = ground (
  arith,
  found-unindex k p rows fts,
  found-unindex k p rows (after_delete r fts),
  found-delete k r.key fts,
)

listed-keep_if :
    (k : Str) (p : Row → Bool) (rows : List Row)
    → listed k (keys_of rows) ≡ false
    → listed k (keys_of (keep_if p rows)) ≡ false
listed-keep_if k p [] h = refl
listed-keep_if k p (r ∷ rows) h = ground (arith, listed-keep_if k p rows)

keep_if-Distinct :
    (p : Row → Bool) (rows : List Row)
    → Distinct (keys_of rows)
    → Distinct (keys_of (keep_if p rows))
keep_if-Distinct p [] d = tt
keep_if-Distinct p (r ∷ rows) d =
    ground (arith, listed-keep_if r.key p rows d.0, keep_if-Distinct p rows d.1)

picked-unlisted :
    (k : Str) (p : Row → Bool) (rows : List Row)
    → listed k (keys_of rows) ≡ false
    → any_of (λ r. p r && str_eq r.key k) rows ≡ false
picked-unlisted k p [] h = refl
picked-unlisted k p (r ∷ rows) h = ground (arith, picked-unlisted k p rows)

found-keep_if :
    (k : Str) (p : Row → Bool) (rows : List Row)
    → Distinct (keys_of rows)
    → found k (map entry (keep_if (λ r. not (p r)) rows))
      ≡ (if any_of (λ r. p r && str_eq r.key k) rows then [] else found k (map entry rows))
found-keep_if k p [] d = refl
found-keep_if k p (r ∷ rows) d = ground (
  arith,
  found-keep_if k p rows d.1,
  found-unlisted k rows,
  picked-unlisted k p rows,
  str_eq_iff r.key k,
)

pub delete_where-IsMirrored :
    (p : Row → Bool) (db : Database) → IsMirrored db → IsMirrored (delete_where p db).0
unfolding delete_where
delete_where-IsMirrored p db m = record {
  distinct = keep_if-Distinct (λ r. not (p r)) db.rows m.distinct;
  same = λ k.
      found-unindex k p db.rows db.fts
      ∙ ap (λ z. if any_of (λ r. p r && str_eq r.key k) db.rows then [] else z) (m.same k)
      ∙ sym (found-keep_if k p db.rows m.distinct);
}
