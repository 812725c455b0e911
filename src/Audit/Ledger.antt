-- ===== src/Audit/Ledger.antt =====
-- The tables of the ledger, and the operations that write them. A write that breaks a primary key
-- raises; it is `none`.
use Prim.Native.Nat.{ℕ, ◌+◌, min}
use mathlib.Core.Bool.{Bool, false, ◌&&◌}
use mathlib.Core.List.{List, [], ◌∷◌, ◌++◌}
use mathlib.Core.Option
use mathlib.Core.Option.{Option, none, some}
use atlas_memory.Prelude.{ltb, ◌==◌, if◌then◌else◌, any_of}
use atlas_memory.Prelude.Text.{Str, codes, str_eq, starts_with, strip_space}
use atlas_memory.Audit.Hashing.{Hashing, compute_entry_hash, genesis}

-- A float that may be out of range: a number of billionths, or its negation less one.
pub data Signed : Type 0 where
  pos : ℕ → Signed
  negsuc : ℕ → Signed

-- `clamp_conf`: into [0.0, 1.0].
unfoldable pub clamp_conf : Signed → Signed
clamp_conf (pos n) = pos (min n 1_000_000_000)
clamp_conf (negsuc n) = pos 0

pub record Row : Type 0 where
  pub seq : ℕ
  pub timestamp : ℕ
  pub key : Str
  pub value_hash : Str
  pub prev_hash : Str
  pub entry_hash : Str
  pub new_value : Option Str
  pub confidence : Signed
  pub reason : Str

pub record Redaction : Type 0 where
  pub seq : ℕ
  pub key : Str
  pub value_hash : Str
  pub reason : Str
  pub created_at : ℕ

-- A row of `state_variables`, by its text value and its stored hash.
pub record StateRow : Type 0 where
  pub key : Str
  pub value : Str
  pub value_hash : Str
  pub confidence : Signed

-- `redactions` is `none` where the registry cannot be read; `state_variables` is `none` where the
-- table or its hash column does not exist.
pub record Ledger : Type 0 where
  pub rows : List Row
  pub redactions : Option (List Redaction)
  pub state_variables : Option (List StateRow)

unfoldable pub last_row : List Row → Option Row
last_row [] = none
last_row (r ∷ []) = some r
last_row (r ∷ s ∷ rows) = last_row (s ∷ rows)

-- `get_last_entry`: the next sequence number and the tip.
unfoldable pub next_entry : Option Row → ℕ × Str
next_entry none = (1, genesis)
next_entry (some r) = elim r.entry_hash [ [] ↦ (1, genesis) | _ ∷ _ ↦ (r.seq + 1, r.entry_hash) ]

unfoldable pub get_last_entry : Ledger → ℕ × Str
unfolding last_row next_entry
get_last_entry l = next_entry (last_row l.rows)

-- A row at its place by `seq`, the primary key.
unfoldable pub insert_row : Row → List Row → Option (List Row)
insert_row r [] = some (r ∷ [])
insert_row r (s ∷ rows) =
    let rest = insert_row r rows in
    if r.seq == s.seq
    then none
    else if ltb r.seq s.seq
    then some (r ∷ s ∷ rows)
    else Option.map (◌∷◌ s) rest

-- The entry handed to `append_audit_log`; a missing value hash is computed.
pub record Entry : Type 0 where
  pub timestamp : ℕ
  pub key : Str
  pub value : Option Str
  pub value_hash : Option Str
  pub confidence : Signed
  pub reason : Str

-- `""` for a missing value, the JSON text otherwise: what is hashed and what is stored.
abbrev pub value_text : Option Str → Str
value_text none = []
value_text (some v) = v

unfoldable pub entry_value_hash : Hashing → Entry → Str
entry_value_hash h e = elim e.value_hash [ none ↦ h.sha256 (value_text e.value) | some v ↦ v ]

-- The row that `append_audit_log` writes through `insert_audit_entry`.
unfoldable pub new_row : Hashing → Ledger → Entry → Row
new_row h l e =
    let (next_seq, prev_h) = get_last_entry l in
    let vh = entry_value_hash h e in
    record {
      seq = next_seq;
      timestamp = e.timestamp;
      key = e.key;
      value_hash = vh;
      prev_hash = prev_h;
      entry_hash = compute_entry_hash h next_seq e.timestamp e.key vh prev_h;
      new_value = some (value_text e.value);
      confidence = e.confidence;
      reason = e.reason;
    }

unfoldable pub append_audit_log : Hashing → Entry → Ledger → Option (Ledger × Str)
append_audit_log h e l =
    let row = new_row h l e in
    Option.map (λ rows. (record l { rows = rows }, row.entry_hash)) (insert_row row l.rows)

abbrev pub marker_prefix : Str
marker_prefix = codes "[REDACTED-"

abbrev pub authorizes : ℕ → Str → Str → Redaction → Bool
authorizes seq key value_hash r =
    (r.seq == seq) && (str_eq r.key key && str_eq r.value_hash value_hash)

-- `redaction_is_authorized`, closed where the registry cannot be read.
unfoldable pub redaction_is_authorized : Ledger → ℕ → Str → Str → Bool
redaction_is_authorized l seq key value_hash = elim l.redactions [
  | none ↦ false
  | some rs ↦ any_of (authorizes seq key value_hash) rs
]

pub data Status : Type 0 where
  registered redacted empty_reason invalid_marker entry_not_found : Status

-- `INSERT OR IGNORE`: an entry of the same `seq` stays.
unfoldable pub register_once : Redaction → List Redaction → List Redaction
register_once r rs = if any_of (λ s. s.seq == r.seq) rs then rs else rs ++ (r ∷ [])

-- `INSERT OR REPLACE`: an entry of the same `seq` goes.
unfoldable pub register_over : Redaction → List Redaction → List Redaction
register_over r [] = r ∷ []
register_over r (s ∷ rs) =
    let rest = register_over r rs in if s.seq == r.seq then rest else s ∷ rest

-- `authorize_redaction`; `none` where the registry cannot be written.
unfoldable pub authorize_redaction : Redaction → Ledger → Option (Ledger × Status)
authorize_redaction r l = elim (strip_space r.reason) [
  | [] ↦ some (l, empty_reason)
  | _ ∷ _ ↦
      Option.map (λ rs. (record l { redactions = some (register_once r rs) }, registered))
        l.redactions
]

unfoldable pub find_row : ℕ → List Row → Option Row
find_row seq [] = none
find_row seq (r ∷ rows) = if r.seq == seq then some r else find_row seq rows

-- `UPDATE state_audit_log SET new_value = ? WHERE seq = ?`
unfoldable pub overwrite : ℕ → Str → List Row → List Row
overwrite seq marker [] = []
overwrite seq marker (r ∷ rows) =
    (if r.seq == seq then record r { new_value = some marker } else r) ∷ overwrite seq marker rows

-- `redact_audit_entry`, once the row is found: both writes, in one transaction.
unfoldable pub redact_row : Row → Str → Str → ℕ → Ledger → Option (Ledger × Status)
redact_row row reason marker now l =
    Option.map
      (λ rs. (
        record l {
          rows = overwrite row.seq marker l.rows;
          redactions = some (
              register_over
                (record {
                  seq = row.seq;
                  key = row.key;
                  value_hash = row.value_hash;
                  reason = reason;
                  created_at = now;
                })
                rs);
        },
        redacted,
      ))
      l.redactions

-- The marker that is given, or the prefix, the reason and the date.
unfoldable pub choose_marker : Option Str → Str → Str → Str
choose_marker none reason date = marker_prefix ++ (reason ++ (b' ' ∷ date))
choose_marker (some given) reason date = given

unfoldable pub redact_audit_entry :
    ℕ → Str → Option Str → Str → ℕ → Ledger → Option (Ledger × Status)
redact_audit_entry seq reason given date now l =
    let marker = choose_marker given reason date in
    if starts_with marker marker_prefix
    then (elim (strip_space reason) [
      | [] ↦ some (l, empty_reason)
      | _ ∷ _ ↦ elim (find_row seq l.rows) [
        | none ↦ some (l, entry_not_found)
        | some row ↦ redact_row row reason marker now l
      ]
    ])
    else some (l, invalid_marker)
