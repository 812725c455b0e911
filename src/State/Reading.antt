-- ===== src/State/Reading.antt =====
-- A row as the dictionary that is handed out, and the reads of single keys and of lists of keys.
use atlas_memory.Prelude.{
  ℕ, suc, zero, ◌+◌, max, min, Bool, false, not, ◌&&◌, List, [], ◌∷◌, ◌++◌, map, reverse, Option,
  none, some, leb, ltb, if◌then◌else◌, length, keep_if, take, drop,
}
use atlas_memory.Prelude.Dict.{Dict, insert, listed}
use atlas_memory.Prelude.Sorting.{sort_falling}
use atlas_memory.Prelude.Text.{Str, codes, str_eq, str_leb, is_empty}
use atlas_memory.State.Table.{Sql, Row, Database}

-- `normalize_stored_text`, `json.loads` (`none` where it raises), and the kinds of values.
pub record Json (V : Type 0) : Type 0 where
  pub normalize : Str → Str
  pub loads : Str → Option V
  pub text_of : V → Option Str
  pub of_text : Str → V
  pub dict_of : V → Option (Dict V)
  pub true_value : V

pub record StateDict (V : Type 0) : Type 0 where
  pub key : Str
  pub value : V
  pub confidence : ℕ
  pub timestamp : ℕ
  pub metadata : Dict V
  pub value_hash : Option Str
  pub tampered : Bool

-- A stored hash that is not empty and not the hash of the value.
unfoldable pub is_tampered : Sql → Row → Bool
is_tampered s r = elim r.value_hash [
  | none ↦ false
  | some h ↦ not (is_empty h) && not (str_eq (s.sha256 r.value) h)
]

abbrev pub loaded_or {ℓ} : {V : Type ℓ} → V → Option V → V
loaded_or v none = v
loaded_or v (some w) = w

-- `fetchone`: the first row that a test picks.
unfoldable pub first_row : (Row → Bool) → List Row → Option Row
first_row p [] = none
first_row p (r ∷ rows) = if p r then some r else first_row p rows

-- `ORDER BY key`
unfoldable pub by_key : List Row → List Row
by_key = sort_falling (λ a b. not (str_leb a.key b.key))

module _ {V : Type 0} (s : Sql) (j : Json V) where
  -- A text stays a text where it is no JSON; a text that JSON holds is normalized once more.
  unfoldable pub read_value : Str → V
  read_value t =
      let raw = j.normalize t in
      let val = loaded_or (j.of_text raw) (j.loads raw) in
      elim (j.text_of val) [ none ↦ val | some u ↦ j.of_text (j.normalize u) ]

  unfoldable pub read_metadata : Option Str → Dict V
  read_metadata none = []
  read_metadata (some t) =
      if is_empty t
      then []
      else elim (j.loads (j.normalize t)) [ none ↦ [] | some v ↦ loaded_or [] (j.dict_of v) ]

  unfoldable pub row_to_state_dict : Row → StateDict V
  unfolding is_tampered read_value read_metadata
  row_to_state_dict r =
      let tampered = is_tampered s r in
      let meta = read_metadata r.metadata in
      record {
        key = r.key;
        value = read_value r.value;
        confidence = r.confidence;
        timestamp = r.timestamp;
        metadata = if tampered then insert (codes "tampered") j.true_value meta else meta;
        value_hash = r.value_hash;
        tampered = tampered;
      }

  -- The exact key, then `LOWER(key) = LOWER(?)`.
  unfoldable pub get_state : Database → Str → Option (StateDict V)
  unfolding row_to_state_dict first_row
  get_state db k = elim (first_row (λ r. str_eq r.key k) db.rows) [
    | some r ↦ some (row_to_state_dict r)
    | none ↦ elim (first_row (λ r. str_eq (s.lower r.key) (s.lower k)) db.rows) [
      | some r ↦ some (row_to_state_dict r)
      | none ↦ none
    ]
  ]

  -- `result[row["key"]] = self.row_to_state_dict(row)` for each row.
  unfoldable pub collect : List Row → Dict (StateDict V) → Dict (StateDict V)
  unfolding row_to_state_dict
  collect [] result = result
  collect (r ∷ rows) result = collect rows (insert r.key (row_to_state_dict r) result)

  -- `timestamp >= now - max_age ORDER BY timestamp DESC LIMIT ?`, handed out in the other order.
  unfoldable pub get_recent : Database → ℕ → ℕ → ℕ → List (StateDict V)
  unfolding row_to_state_dict
  get_recent db now max_age limit =
      let recent = keep_if (λ r. leb now (r.timestamp + max_age)) db.rows in
      reverse (
        map row_to_state_dict
          (take limit (sort_falling (λ a b. ltb a.timestamp b.timestamp) recent)))

  -- `max(1, min(int(limit), 5000))`; a limit or an offset below 0 is one of 0.
  unfoldable pub get_all : Database → ℕ → ℕ → Dict (StateDict V)
  unfolding collect by_key
  get_all db limit offset =
      collect (take (max 1 (min limit 5000)) (drop offset (by_key db.rows))) []

-- `str.lower` of Python, next to `LOWER` of SQLite, which changes ASCII letters only.
module _ (s : Sql) (lower : Str → Str) where
  -- `key IN (…)` and `LOWER(key) IN (…)`: the keys of the rows.
  unfoldable pub exact_keys : List Str → List Row → List Str
  exact_keys ks rows = map (λ r. r.key) (keep_if (λ r. listed r.key ks) rows)

  unfoldable pub folded_keys : List Str → List Row → List Str
  folded_keys ks rows = map (λ r. r.key) (keep_if (λ r. listed (s.lower r.key) (map lower ks)) rows)

  -- `k not in found and k.lower() not in {x.lower() for x in found}`
  unfoldable pub is_missing : List Str → Str → Bool
  is_missing found k = not (listed k found) && not (listed (lower k) (map lower found))

  -- One round over at most 500 keys.
  unfoldable pub find_chunk : List Str → List Row → List Str → List Str
  unfolding exact_keys folded_keys is_missing
  find_chunk chunk rows found =
      let seen = found ++ exact_keys chunk rows in
      let missing = keep_if (is_missing seen) chunk in seen ++ folded_keys missing rows

  -- `for i in range(0, len(clean_keys), 500)`, on fuel for the rounds.
  unfoldable pub find_chunks : ℕ → List Str → List Row → List Str → List Str
  unfolding find_chunk
  find_chunks zero ks rows found = found
  find_chunks (suc rounds) ks rows found =
      let later = find_chunks rounds (drop 500 ks) rows (find_chunk (take 500 ks) rows found) in
      if leb 1 (length ks) then later else found

  unfoldable pub filter_existing_keys : Database → List Str → List Str
  unfolding find_chunks
  filter_existing_keys db keys =
      let clean_keys = keep_if (λ k. not (is_empty k)) keys in
      find_chunks (length clean_keys) clean_keys db.rows []

-- All keys at once; for the keys that were not found, a query of the keys in lower case.
unfoldable pub get_states :
    {V : Type 0} → Sql → (Str → Str) → Json V → Database → List Str → Dict (StateDict V)
unfolding collect
get_states s lower j db keys =
    let rows = keep_if (λ r. listed r.key keys) db.rows in
    let found_keys = map (λ r. r.key) rows ++ map (λ r. lower r.key) rows in
    let missing =
      keep_if (λ k. not (listed k found_keys) && not (listed (lower k) found_keys)) keys in
    let folded = keep_if (λ r. listed (s.lower r.key) (map lower missing)) db.rows in
    collect s j folded (collect s j rows [])
