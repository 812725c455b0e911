-- ===== src/HotBuffer/Policy.antt =====
-- `HotBufferPolicy`. Each method runs whole under the lock. The buffer is a bounded deque, oldest
-- first; `time.time()` and the rows of the key-value store are arguments.
use atlas_memory.Prelude.{
  ℕ, ◌+◌, ◌-◌, Bool, true, false, not, ◌&&◌, ◌||◌, List, [], ◌∷◌, ◌++◌, reverse, Option, none, some,
  ltb, if◌then◌else◌, length, drop, keep_if,
}
use atlas_memory.Prelude.Text.{is_empty, Str, codes, str_eq}
use atlas_memory.Prelude.Dict.{listed}
use atlas_memory.HotBuffer.Session.{
  Unicode, Metadata, is_conversational_churn, extract_effective_session, is_session_accessible,
  raw_session, default_session, global_session,
}

pub record Entry : Type 0 where
  pub key : Str
  pub value : Str
  pub confidence : ℕ
  pub source_type : Str
  pub timestamp : ℕ
  pub is_superseded : Bool
  pub metadata : Metadata

pub record Policy : Type 0 where
  pub maxlen : ℕ
  pub ttl_seconds : ℕ
  pub buffer : List Entry
  pub superseded_history : List Str

unfoldable pub init : ℕ → ℕ → Policy
init maxlen ttl = record {
  maxlen = maxlen;
  ttl_seconds = ttl;
  buffer = [];
  superseded_history = [];
}

-- `deque(items, maxlen)`: the last `maxlen` items stay.
unfoldable pub bounded {ℓ} : {A : Type ℓ} → ℕ → List A → List A
bounded n xs = drop (length xs - n) xs

-- `set.add`
unfoldable pub remember : Str → List Str → List Str
remember k ks = if listed k ks then ks else ks ++ (k ∷ [])

abbrev pub other_key : Str → Entry → Bool
other_key k e = not (str_eq e.key k)

-- `purge`, and the number of entries that went.
unfoldable pub purge : Str → Policy → Policy × ℕ
purge k p =
    let rest = bounded p.maxlen (keep_if (other_key k) p.buffer) in
    (record p { buffer = rest }, length p.buffer - length rest)

unfoldable pub note_superseded : Bool → Str → Policy → Policy
note_superseded true k p = record p { superseded_history = remember k p.superseded_history }
note_superseded false k p = p

unfoldable pub append : Entry → Policy → Policy
unfolding note_superseded
append e p =
    let cleared = (purge e.key (note_superseded e.is_superseded e.key p)).0 in
    record cleared { buffer = bounded cleared.maxlen (cleared.buffer ++ (e ∷ [])) }

-- The entry that `update` makes of its arguments.
abbrev pub updated : Str → Str → ℕ → Metadata → Str → ℕ → Entry
updated k value confidence m source_type now = record {
  key = k;
  value = value;
  confidence = confidence;
  source_type = source_type;
  timestamp = now;
  is_superseded = m.is_superseded;
  metadata = m;
}

unfoldable pub update : Str → Str → ℕ → Metadata → Str → ℕ → Policy → Policy × Entry
update k value confidence m source_type now p =
    let e = updated k value confidence m source_type now in (append e p, e)

unfoldable pub count_key : Str → List Entry → ℕ
count_key k [] = 0
count_key k (e ∷ es) = (if str_eq e.key k then 1 else 0) + count_key k es

-- `mark_superseded`: the entries that it marks are the ones that it purges.
unfoldable pub mark_superseded : Str → Policy → Policy × ℕ
mark_superseded k p = (
  (purge k (record p { superseded_history = remember k p.superseded_history })).0,
  count_key k p.buffer,
)

unfoldable pub reconcile_superseded : List Str → Policy → Policy × ℕ
reconcile_superseded [] p = (p, 0)
reconcile_superseded (k ∷ ks) p =
    let (marked, n) = if is_empty k then (p, 0) else mark_superseded k p in
    let (q, total) = reconcile_superseded ks marked in (q, n + total)

-- A row of the store is skipped if its metadata says that it is superseded.
unfoldable pub seed_row : Bool → Entry → Policy → Policy
seed_row true e p = p
seed_row false e p = append (record e { is_superseded = false }) p

-- The loop of `seed_from_kv` over the rows that the store returned.
unfoldable pub seed_from_kv : List Entry → Policy → Policy × ℕ
unfolding seed_row
seed_from_kv [] p = (p, 0)
seed_from_kv (e ∷ es) p =
    let (q, n) = seed_from_kv es (seed_row e.metadata.is_superseded e p) in
    (q, (if e.metadata.is_superseded then 0 else 1) + n)

unfoldable pub clear : Policy → Policy
clear p = record p { buffer = []; superseded_history = [] }

-- `session_id and not is_session_accessible(…)` decides that an entry is skipped; an empty
-- requested session does not.
abbrev pub passes_session : Unicode → Option Str → Entry → Bool
passes_session u none e = true
passes_session u (some []) e = true
passes_session u (some (c ∷ s)) e =
    is_session_accessible (extract_effective_session u e.key e.metadata) (some (c ∷ s))

-- The tests of `get_active`; `timestamp < now - ttl` is written without the difference.
unfoldable pub is_active : Unicode → Option Str → ℕ → ℕ → Entry → Bool
is_active u session now ttl e =
    not (ltb (e.timestamp + ttl) now)
    && (not (e.is_superseded || e.metadata.is_superseded)
        && (not (is_conversational_churn u e.key e.value) && passes_session u session e))

-- From the newest on, the first entry of each key.
unfoldable pub first_of_key : List Str → List Entry → List Entry
first_of_key seen [] = []
first_of_key seen (e ∷ es) =
    let skipped = first_of_key seen es in
    let taken = e ∷ first_of_key (e.key ∷ seen) es in if listed e.key seen then skipped else taken

unfoldable pub get_active : Unicode → Option Str → ℕ → Policy → List Entry
get_active u session now p =
    reverse (first_of_key [] (reverse (keep_if (is_active u session now p.ttl_seconds) p.buffer)))

-- `if consolidated_sessions is not None: … elif it.metadata.get("l2_consolidated")`
abbrev pub is_reconciled : Str → Entry → Bool
is_reconciled session e = elim e.metadata.l2_consolidated_sessions [
  | none ↦ e.metadata.l2_consolidated
  | some sessions ↦ not (is_empty session) && listed session sessions
]

abbrev pub effective : Unicode → Entry → Str
effective u e = elim (extract_effective_session u e.key e.metadata) [ none ↦ [] | some s ↦ s ]

abbrev pub belongs : Unicode → Str → Entry → Bool
belongs u session e =
    is_empty session
    || (str_eq (raw_session e.metadata) session
        || (str_eq (effective u e) session
            || (not (str_eq session (codes "idle_sess"))
                && (not e.metadata.seeded_from_kv
                    && listed (raw_session e.metadata)
                        ([] ∷ codes "default" ∷ default_session ∷ global_session ∷ [])))))

unfoldable pub get_session_entries : Unicode → Str → Policy → List Entry
get_session_entries u session p =
    keep_if
      (λ e.
        not (e.is_superseded || e.metadata.is_superseded)
        && (not (is_reconciled session e) && belongs u session e))
      p.buffer
