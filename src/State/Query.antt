-- ===== src/State/Query.antt =====
-- The searches for candidates: by the exact key, by a prefix, and by the full-text table.
use atlas_memory.Prelude.{
  ℕ, max, min, Bool, not, ◌&&◌, List, [], ◌∷◌, ◌++◌, Option, none, some, leb, ltb, ◌==◌,
  if◌then◌else◌, length, keep_if, any_of, take,
}
use atlas_memory.Prelude.Dict.{Dict, insert, has_key}
use atlas_memory.Prelude.Text.{Str, codes, str_eq, is_empty, strip_space, before}
use atlas_memory.State.Table.{Sql, Row, Database}
use atlas_memory.State.Reading.{Json, StateDict, row_to_state_dict, first_row}

-- `re.findall(r"\w+", …)`, and `MATCH` with a list of tokens (`none` where the query fails).
pub record Matching : Type 0 where
  pub words_of : Str → List Str
  pub matches : List Str → Option (Str × Str → Bool)

-- `max(1, min(int(limit), …))`; a limit below 0 is one of 0.
abbrev pub cap_of : ℕ → ℕ → ℕ
cap_of most limit = max 1 (min limit most)

-- A token of at least `n` characters, none of which has a meaning in a full-text query.
unfoldable pub is_token : ℕ → Str → Bool
is_token n w = leb n (length w) && not (any_of (λ c. any_of (λ d. d == c) (codes "\":*^()")) w)

-- The rows that stand in the join with an entry that matches, once for each such entry.
unfoldable pub joined_with : (Str × Str → Bool) → Row → Dict Str → List Row → List Row
joined_with p r [] rest = rest
joined_with p r (e ∷ fts) rest =
    let later = joined_with p r fts rest in if str_eq e.0 r.key && p e then r ∷ later else later

unfoldable pub joined : (Str × Str → Bool) → List Row → Dict Str → List Row
unfolding joined_with
joined p [] fts = []
joined p (r ∷ rows) fts = joined_with p r fts (joined p rows fts)

-- The words of the query stand in where no word and no stem is long enough.
unfoldable pub search_tokens : Matching → Str → List Str → List Str → List Str
unfolding is_token
search_tokens x q_clean words stems =
    let given = keep_if (is_token 3) words ++ keep_if (is_token 4) stems in
    let of_query = if is_empty q_clean then [] else keep_if (is_token 3) (x.words_of q_clean) in
    elim given [ [] ↦ of_query | t ∷ tokens ↦ t ∷ tokens ]

module _ {V : Type 0} (s : Sql) (j : Json V) where
  -- `if r["key"] not in results`
  unfoldable pub add_new : List Row → Dict (StateDict V) → Dict (StateDict V)
  unfolding row_to_state_dict
  add_new [] results = results
  add_new (r ∷ rows) results =
      add_new rows
        (if has_key r.key results then results else insert r.key (row_to_state_dict s j r) results)

  -- `if r["key"] not in results and len(results) < cap`
  unfoldable pub add_capped : ℕ → List Row → Dict (StateDict V) → Dict (StateDict V)
  unfolding row_to_state_dict
  add_capped cap [] results = results
  add_capped cap (r ∷ rows) results = add_capped cap rows (
      if not (has_key r.key results) && ltb (length results) cap
      then insert r.key (row_to_state_dict s j r) results
      else results)

  unfoldable pub add_exact : Database → Str → Dict (StateDict V)
  unfolding first_row row_to_state_dict
  add_exact db k = elim (first_row (λ r. str_eq r.key k) db.rows) [
    | none ↦ []
    | some r ↦ insert r.key (row_to_state_dict s j r) []
  ]

  -- `key LIKE ? LIMIT ?`
  unfoldable pub add_like : Database → ℕ → Str → Dict (StateDict V) → Dict (StateDict V)
  unfolding add_new
  add_like db cap pattern results =
      add_new (take cap (keep_if (λ r. s.like pattern r.key) db.rows)) results

  -- The full-text stage, if there are tokens and room; a query that fails adds nothing.
  unfoldable pub add_matching :
      Matching → Database → ℕ → List Str → Dict (StateDict V) → Dict (StateDict V)
  unfolding joined add_capped
  add_matching x db cap [] results = results
  add_matching x db cap (t ∷ tokens) results =
      if ltb (length results) cap
      then elim (x.matches (t ∷ tokens)) [
        | none ↦ results
        | some p ↦ add_capped cap (take cap (joined p db.rows db.fts)) results
      ]
      else results

  unfoldable pub search_candidates :
      Matching → Database → Str → ℕ → List Str → List Str → Dict (StateDict V)
  unfolding add_exact add_like add_matching search_tokens
  search_candidates x db query limit words stems =
      let cap = cap_of 500 limit in
      let q_clean = strip_space query in
      let exact = if is_empty q_clean then [] else add_exact db q_clean in
      let prefixed =
        if leb 3 (length q_clean) && any_of (λ c. c == 58) q_clean
        then add_like db cap (q_clean ++ codes "%") exact
        else exact in
      if is_empty query && leb (length words) 0 && leb (length stems) 0
      then []
      else add_matching x db cap (take 8 (search_tokens x q_clean words stems)) prefixed

  -- `text` is that of the value, or nothing. The entity root is the key up to its first colon.
  unfoldable pub get_arbitration_candidates :
      Matching → Database → Str → Str → ℕ → Dict (StateDict V)
  unfolding add_exact add_like add_matching is_token
  get_arbitration_candidates x db key text limit =
      let cap = cap_of 200 limit in
      let root = before 58 key in
      let exact = add_exact db key in
      let rooted =
        if leb 2 (length root) then add_like db cap (root ++ codes ":%") exact else exact in
      let tokens = keep_if (is_token 4) (x.words_of (key ++ codes " " ++ text)) in
      add_matching x db cap (take 6 tokens) rooted
