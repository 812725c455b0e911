-- ===== src/State/Existing.antt =====
-- Which keys `filter_existing_keys` returns.
use atlas_memory.Prelude.{
  ℕ, zero, suc, ◌≤◌, true, false, not, List, [], ◌∷◌, ◌≡◌, inl, inr, arith, leb, length,
  length-drop, keep_if, take, drop, Bool-cases,
}
use atlas_memory.Prelude.Dict.{listed}
use atlas_memory.Prelude.Text.{Str, is_empty}
use atlas_memory.State.Table.{Sql, Row, Database}
use atlas_memory.State.Reading.{find_chunk, find_chunks, filter_existing_keys}
use atlas_memory.State.Mirror.{keys_of}
use atlas_memory.State.Round.{
  listed-take-drop, in_take, in_drop, listed-keep_if, Answer, IsAsked, IsAsked-mono,
  find_chunk_sound, find_chunk-IsAsked, find_chunk_grows, find_chunk_exact, find_chunk_answers,
}

module _ (s : Sql) (lower : Str → Str) where
  module _ (rows : List Row) where
    find_chunks-IsAsked :
        (keys : List Str) (rounds : ℕ) (ks found : List Str)
        → ((k : Str) → listed k ks ≡ true → listed k keys ≡ true)
        → ((x : Str) → listed x found ≡ true → IsAsked s lower keys x)
        → (x : Str) → listed x (find_chunks s lower rounds ks rows found) ≡ true
        → IsAsked s lower keys x
    unfolding find_chunks
    find_chunks-IsAsked keys zero ks found within h x m = h x m
    find_chunks-IsAsked keys (suc rounds) ks found within h x m =
        elim (Bool-cases (leb 1 (length ks))) [
          | inl more ↦
              find_chunks-IsAsked keys rounds (drop 500 ks) _ (λ k l. within k (in_drop 500 k ks l))
                first x (rw more at m)
          | inr done ↦ h x (rw done at m)
        ]
      where
        first :
            (x : Str)
            → listed x (find_chunk s lower (take 500 ks) rows found) ≡ true
            → IsAsked s lower keys x
        first x l = elim (find_chunk-IsAsked s lower rows (take 500 ks) found x l) [
          | inl before ↦ h x before
          | inr asked ↦
              IsAsked-mono s lower (take 500 ks) keys x (λ k t. within k (in_take 500 k ks t)) asked
        ]

    -- The loop over the chunks keeps what each round keeps, and each key has its round.
    module _ {ℓ} (P : List Str → Type ℓ)
        (keep : (chunk found : List Str) → P found → P (find_chunk s lower chunk rows found)) where
      find_chunks_keeps :
          (rounds : ℕ) (ks found : List Str)
          → P found
          → P (find_chunks s lower rounds ks rows found)
      unfolding find_chunks
      find_chunks_keeps zero ks found h = h
      find_chunks_keeps (suc rounds) ks found h = elim (Bool-cases (leb 1 (length ks))) [
        | inl more ↦
            rw (more, find_chunks)
              (find_chunks_keeps rounds (drop 500 ks) _ (keep (take 500 ks) found h))
        | inr done ↦ rw (done, find_chunks) h
      ]

      find_chunks_reaches :
          (k : Str)
          → ((chunk found : List Str)
              → listed k chunk ≡ true
              → P (find_chunk s lower chunk rows found))
          → (rounds : ℕ) (ks found : List Str) → length ks ≤ rounds
          → listed k ks ≡ true
          → P (find_chunks s lower rounds ks rows found)
      unfolding find_chunks
      find_chunks_reaches k reach rounds [] found m h = absurd (ground (arith, h))
      find_chunks_reaches k reach zero (j ∷ ks) found m h = absurd (omega arith)
      find_chunks_reaches k reach (suc rounds) (j ∷ ks) found m h =
          let more : leb 1 (length (j ∷ ks)) ≡ true = ground arith in
          let first = find_chunk s lower (take 500 (j ∷ ks)) rows found in
          rw (more, find_chunks)
            (elim (Bool-cases (listed k (take 500 (j ∷ ks)))) [
              | inl now ↦
                  find_chunks_keeps rounds (drop 500 (j ∷ ks)) first
                    (reach (take 500 (j ∷ ks)) found now)
              | inr later ↦
                  find_chunks_reaches k reach rounds (drop 500 (j ∷ ks)) first
                    (omega (arith, length-drop 500 (j ∷ ks)))
                    (ground (arith, listed-take-drop 500 k (j ∷ ks), h, later))
            ])

  stands :
      (db : Database) (clean : List Str) (k : Str)
      → listed k (find_chunks s lower (length clean) clean db.rows []) ≡ true
      → listed k (keys_of db.rows) ≡ true
  stands db clean =
      find_chunks_keeps db.rows
        (λ found. (k : Str) → listed k found ≡ true → listed k (keys_of db.rows) ≡ true)
        (λ chunk found h k m. ground (arith, find_chunk_sound s lower db.rows chunk found k m, h k))
        (length clean) clean [] (λ k m. absurd (ground (arith, m)))

  -- For any list of keys: what `filter_existing_keys` returns are keys of the table, each of which
  -- was asked for, by itself or but for the case as SQLite and Python fold it; a key that was
  -- asked for, is not empty and stands in the table is returned; and if it stands there but for the
  -- case, so that SQLite folds the key in the table to what Python folds it to, then a key that one
  -- of the two folds to the same is returned.
  pub filter_existing_keys_iff :
      (db : Database) (keys : List Str)
      → ((k : Str)
          → listed k (filter_existing_keys s lower db keys) ≡ true
          → (listed k (keys_of db.rows) ≡ true) × IsAsked s lower keys k)
        × ((k : Str)
            → listed k keys ≡ true
            → is_empty k ≡ false
            → listed k (keys_of db.rows) ≡ true
            → listed k (filter_existing_keys s lower db keys) ≡ true)
        × ((k x : Str)
            → listed k keys ≡ true
            → is_empty k ≡ false
            → listed x (keys_of db.rows) ≡ true
            → s.lower x ≡ lower k
            → Answer s lower k (filter_existing_keys s lower db keys))
  unfolding filter_existing_keys
  filter_existing_keys_iff db keys =
      let clean = keep_if (λ k. not (is_empty k)) keys in
      let asked : (k : Str) → listed k keys ≡ true → is_empty k ≡ false → listed k clean ≡ true =
        λ k h full. ground (arith, listed-keep_if (λ t. not (is_empty t)) k keys, h, full) in
      (
        λ k m. (
          stands db clean k m,
          find_chunks-IsAsked db.rows keys (length clean) clean []
              (λ t l. ground (arith, l, listed-keep_if (λ z. not (is_empty z)) t keys))
              (λ t l. absurd (ground (arith, l))) k m,
        ),
        λ k h full there.
            find_chunks_reaches db.rows (λ found. listed k found ≡ true)
              (λ chunk found. find_chunk_grows s lower db.rows chunk found k) k
              (λ chunk found m. find_chunk_exact s lower db.rows chunk found k m there)
              (length clean) clean [] (omega arith) (asked k h full),
        λ k x h full there same.
            find_chunks_reaches db.rows (Answer s lower k)
              (λ chunk found a. record {
                key = a.key;
                is_found = find_chunk_grows s lower db.rows chunk found a.key a.is_found;
                same = a.same;
              })
              k (λ chunk found m. find_chunk_answers s lower db.rows chunk found k x m there same)
              (length clean) clean [] (omega arith) (asked k h full),
      )
