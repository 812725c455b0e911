-- ===== src/Audit/Verify.antt =====
-- `verify_audit_log`: the walk along the chain, and the deep comparison with `state_variables`.
use atlas_memory.Prelude.{
  ℕ, Bool, true, false, ◌&&◌, ◌||◌, ◌==◌, List, [], ◌∷◌, Option, none, some, if◌then◌else◌,
}
use atlas_memory.Prelude.Text.{Str, codes, str_eq, starts_with, strip_if}
use atlas_memory.Audit.Hashing.{Hashing, compute_entry_hash, genesis}
use atlas_memory.Audit.Ledger.{Row, StateRow, Ledger, redaction_is_authorized, marker_prefix}

-- Where a check failed: the source answers 0 when nothing failed, -1 for a value of
-- `state_variables`, and the `seq` of an audit row otherwise.
pub data Place : Type 0 where
  nowhere state_table : Place
  entry : ℕ → Place

pub record Verdict : Type 0 where
  pub passed : Bool
  pub place : Place
  pub tip : Str

abbrev pub deleted : Str
deleted = codes "__DELETED__"

abbrev pub quoted_deleted : Str
quoted_deleted = codes "\"__DELETED__\""

unfoldable pub is_legacy_tombstone : Hashing → Str → Str → Bool
is_legacy_tombstone h new_value value_hash =
    str_eq (strip_if (λ c. c == b'"') new_value) deleted
    && (str_eq value_hash (h.sha256 deleted) || str_eq value_hash (h.sha256 quoted_deleted))

-- The deep test of one row: its stored value has the stored hash, or it is an old tombstone, or a
-- redaction that the registry knows.
unfoldable pub value_is_sound : Hashing → Ledger → Row → Bool
value_is_sound h l r = elim r.new_value [
  | none ↦ true
  | some v ↦
      str_eq (h.sha256 v) r.value_hash
      || (is_legacy_tombstone h v r.value_hash
          || (starts_with v marker_prefix && redaction_is_authorized l r.seq r.key r.value_hash))
]

abbrev pub row_hash : Hashing → Row → Str
row_hash h r = compute_entry_hash h r.seq r.timestamp r.key r.value_hash r.prev_hash

-- The tests of one row, in the source's order.
unfoldable pub row_is_sound : Hashing → Bool → Ledger → Str → Row → Bool
row_is_sound h deep l expected_prev r =
    if str_eq r.prev_hash expected_prev
    then (if (if deep then value_is_sound h l r else true)
        then str_eq (row_hash h r) r.entry_hash
        else false)
    else false

-- The loop over the rows.
unfoldable pub verify_rows : Hashing → Bool → Ledger → List Row → Str → Verdict
verify_rows h deep l [] expected_prev = record {
  passed = true;
  place = nowhere;
  tip = expected_prev;
}
verify_rows h deep l (r ∷ rows) expected_prev =
    let rest = verify_rows h deep l rows r.entry_hash in
    if row_is_sound h deep l expected_prev r
    then rest
    else record { passed = false; place = entry r.seq; tip = expected_prev }

-- `SELECT … WHERE key = ? ORDER BY seq DESC LIMIT 1`: the last row of the key.
unfoldable pub latest_of : Str → List Row → Option Row
latest_of key [] = none
latest_of key (r ∷ rows) = elim (latest_of key rows) [
  | none ↦ if str_eq r.key key then some r else none
  | some later ↦ some later
]

-- The comparison of one state variable with its latest audit row.
unfoldable pub state_row_place : List Row → StateRow → Place
state_row_place rows s = elim (latest_of s.key rows) [
  | none ↦ nowhere
  | some latest ↦
      if str_eq latest.reason (codes "delete")
      then entry latest.seq
      else if str_eq latest.value_hash s.value_hash
      then nowhere
      else entry latest.seq
]

unfoldable pub state_row_check : Hashing → List Row → StateRow → Place
state_row_check h rows s = elim s.value_hash [
  | [] ↦ nowhere
  | _ ∷ _ ↦ if str_eq (h.sha256 s.value) s.value_hash then state_row_place rows s else state_table
]

unfoldable pub check_state : Hashing → List Row → List StateRow → Place
check_state h rows [] = nowhere
check_state h rows (s ∷ ss) = elim (state_row_check h rows s) [
  | nowhere ↦ check_state h rows ss
  | state_table ↦ state_table
  | entry n ↦ entry n
]

-- The verdict on the state table, once the chain has passed with a tip.
unfoldable pub judge_state : Hashing → Ledger → Str → Verdict
judge_state h l tip = elim l.state_variables [
  | none ↦ record { passed = true; place = nowhere; tip = tip }
  | some ss ↦ elim (check_state h l.rows ss) [
    | nowhere ↦ record { passed = true; place = nowhere; tip = tip }
    | state_table ↦ record { passed = false; place = state_table; tip = tip }
    | entry n ↦ record { passed = false; place = entry n; tip = tip }
  ]
]

unfoldable pub verify_audit_log : Hashing → Bool → Ledger → Verdict
verify_audit_log h deep l =
    let v = verify_rows h deep l l.rows genesis in
    if v.passed then (if deep then judge_state h l v.tip else v) else v
