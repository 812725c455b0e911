-- ===== src/State/Tests.antt =====
-- The repository on a small table, with ASCII lower case, patterns that end in `%`, and a hash that
-- writes a sign in front.
use atlas_memory.Prelude.{
  ◌+◌, ◌-◌, ◌≡◌, ◌≢◌, refl, ◌↔◌, max, min, true, false, ◌&&◌, List, [], ◌∷◌, map, some, none, leb,
  if◌then◌else◌, length, take,
}
use atlas_memory.Prelude.Dict.{insert, delete, listed, lookup, keys}
use atlas_memory.Prelude.Sorting.{insert_falling, sort_onto, sort_falling}
use atlas_memory.Prelude.Text.{
  Str, codes, str_eq, str_leb, starts_with, strip_space, before, is_empty,
}
use atlas_memory.State.Table.{
  Sql, Row, Database, upsert, set_state, unindex, delete_where, delete_state, is_purged, purge_each,
  purge_stale_probe_keys, refilled, hashed, reindex, init_schema,
}
use atlas_memory.State.Reading.{
  Json, StateDict, is_tampered, read_value, read_metadata, row_to_state_dict, first_row, get_state,
  collect, get_recent, by_key, get_all, exact_keys, folded_keys, is_missing, find_chunk,
  find_chunks, filter_existing_keys, get_states,
}
use atlas_memory.State.Query.{
  Matching, is_token, joined_with, joined, add_new, add_capped, add_exact, add_like, add_matching,
  search_tokens, search_candidates, get_arbitration_candidates,
}
use atlas_memory.State.Mirror.{keys_of, IsMirrored}
use atlas_memory.State.Changes.{Change, set, purge, lose_index, apply, run, run-IsMirrored}
use atlas_memory.State.Access.{exact_row, get_state-set_state, get_state-tampered}
use atlas_memory.State.Round.{Answer, IsAsked}
use atlas_memory.State.Existing.{filter_existing_keys_iff}
use atlas_memory.State.Pages.{scan}
use atlas_memory.State.Limits.{IsBounded, candidates_within}

program : Unit {0}
unfolding lookup insert delete insert_falling sort_onto sort_falling str_eq str_leb starts_with
    strip_space before upsert set_state unindex delete_where delete_state is_purged purge_each
    purge_stale_probe_keys refilled hashed reindex init_schema is_tampered read_value read_metadata
    row_to_state_dict first_row get_state collect get_recent by_key get_all exact_keys folded_keys
    is_missing find_chunk find_chunks filter_existing_keys get_states is_token joined_with joined
    add_new add_capped add_exact add_like add_matching search_tokens search_candidates
    get_arbitration_candidates apply run scan
program = tt

abbrev lower : Str → Str
lower = map (λ c. if leb b'A' c && leb c b'Z' then c + 32 else c)

abbrev sql : Sql
sql = record {
  lower = lower;
  like = λ pattern t. starts_with (lower t) (lower (take (length pattern - 1) pattern));
  sha256 = λ t. 35 ∷ t;
}

abbrev json : Json Str
json = record {
  normalize = λ t. t;
  loads = λ t. none;
  text_of = λ t. some t;
  of_text = λ t. t;
  dict_of = λ t. none;
  true_value = codes "true";
}

-- A query that matches the entries whose value is one of the words.
abbrev matching : Matching
matching = record { words_of = λ t. t ∷ []; matches = λ ts. some (λ e. listed e.1 ts) }

abbrev row : Str → Str → Row
row k v = record {
  key = k;
  value = v;
  confidence = 900_000_000;
  timestamp = length k;
  metadata = none;
  value_hash = some (35 ∷ v);
}

abbrev changes : List Change
changes =
    set (row (codes "Ab") (codes "red"))
    ∷ set (row (codes "probe:1") (codes "x"))
    ∷ set (row (codes "Ab") (codes "blue"))
    ∷ purge (codes "probe:%" ∷ [])
    ∷ lose_index
    ∷ set (row (codes "c") (codes "green"))
    ∷ []

abbrev written : Database
written = record {
  rows = row (codes "Ab") (codes "blue") ∷ row (codes "c") (codes "green") ∷ [];
  fts = (codes "Ab", codes "blue") ∷ (codes "c", codes "green") ∷ [];
}

runs : run sql changes (record { rows = []; fts = [] }) ≡ written
unfolding program
runs = refl

folds : filter_existing_keys sql lower written (codes "aB" ∷ codes "zz" ∷ []) ≡ codes "Ab" ∷ []
unfolding program
folds = refl

-- A key that was deleted is answered by one of another case.
other_case :
    get_state sql json (delete_state (codes "C") written).0 (codes "C")
    ≡ some (row_to_state_dict sql json (row (codes "c") (codes "green")))
unfolding program
other_case = refl

-- One result more than the limit: the exact key, and one of its namespace.
over_limit :
    keys (
      get_arbitration_candidates sql json matching
        (record {
          rows = row (codes "ab") [] ∷ row (codes "ab:1") [] ∷ row (codes "ab:2") [] ∷ [];
          fts = [];
        })
        (codes "ab")
        []
        1)
    ≡ codes "ab" ∷ codes "ab:1" ∷ []
unfolding program
over_limit = refl

run-IsMirrored_example : IsMirrored (run sql changes (record { rows = []; fts = [] }))
run-IsMirrored_example = run-IsMirrored sql changes

get_state-set_state_example :
    (get_state sql json (set_state (row (codes "d") (codes "1")) written) (codes "d")
      ≡ some (row_to_state_dict sql json (row (codes "d") (codes "1"))))
    × ((k : Str) (q : Row)
        → codes "d" ≢ k
        → exact_row k written.rows ≡ some q
        → get_state sql json (set_state (row (codes "d") (codes "1")) written) k
          ≡ get_state sql json written k)
get_state-set_state_example = get_state-set_state sql json (row (codes "d") (codes "1")) written

get_state-tampered_example :
    (d : StateDict Str) × (get_state sql json
        (set_state
          (record (row (codes "d") (codes "1")) { value = codes "2" })
          (set_state (row (codes "d") (codes "1")) written))
        (codes "d")
      ≡ some d)
    × ((d.tampered ≡ true) ↔ (35 ∷ codes "2" ≢ 35 ∷ codes "1"))
get_state-tampered_example =
    get_state-tampered sql json (row (codes "d") (codes "1")) (codes "2") written refl refl

filter_existing_keys_iff_example :
    ((k : Str)
      → listed k (filter_existing_keys sql lower written (codes "aB" ∷ [])) ≡ true
      → (listed k (keys_of written.rows) ≡ true) × IsAsked sql lower (codes "aB" ∷ []) k)
    × ((k : Str)
        → listed k (codes "aB" ∷ []) ≡ true
        → is_empty k ≡ false
        → listed k (keys_of written.rows) ≡ true
        → listed k (filter_existing_keys sql lower written (codes "aB" ∷ [])) ≡ true)
    × ((k x : Str)
        → listed k (codes "aB" ∷ []) ≡ true
        → is_empty k ≡ false
        → listed x (keys_of written.rows) ≡ true
        → sql.lower x ≡ lower k
        → Answer sql lower k (filter_existing_keys sql lower written (codes "aB" ∷ [])))
filter_existing_keys_iff_example = filter_existing_keys_iff sql lower written (codes "aB" ∷ [])

candidates_within_example :
    ((query : Str) (words stems : List Str)
      → IsBounded sql json written.rows
          (1 + max 1 (min 1 500))
          (search_candidates sql json matching written query 1 words stems))
    × ((key text : Str)
        → IsBounded sql json written.rows
            (1 + max 1 (min 1 200))
            (get_arbitration_candidates sql json matching written key text 1))
candidates_within_example = candidates_within sql json matching written 1
