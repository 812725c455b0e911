-- ===== src/Bridge/Export.antt =====
-- `export_delta_from_audit` and `_query_audit_rows`. The rows of the table stand by their primary
-- key `seq`, so that `ORDER BY seq ASC` is the order of the list; a query that fails, and answers
-- with no rows, is left out. The lock is left out, since the query runs whole under it.
use atlas_memory.Prelude.{
  take, ℕ, max, min, List, [], ◌∷◌, map, Option, none, some, ltb, if◌then◌else◌, keep_if,
}
use atlas_memory.Prelude.Text.{Str, codes}
use atlas_memory.Sync.Clock.{VectorClock, increment}

-- The columns that the query selects.
pub record AuditRow : Type 0 where
  pub seq : ℕ
  pub timestamp : ℕ
  pub key : Str
  pub new_value : Option Str
  pub confidence : Option ℕ
  pub reason : Option Str

pub record Exported : Type 0 where
  pub seq : ℕ
  pub key : Str
  pub value : Option Str
  pub confidence : ℕ
  pub reason : Str
  pub timestamp : ℕ

pub record AuditDelta : Type 0 where
  pub source_node : Str
  pub vector_clock : VectorClock
  pub max_seq : ℕ
  pub mutations : List Exported

-- A node's name, its clock, and the audit log of its key-value store, if it has one.
pub record Exporter : Type 0 where
  pub node_id : Str
  pub clock : VectorClock
  pub audit_log : Option (List AuditRow)

-- `LIMIT ?` is `take`.
unfoldable pub query_audit_rows : ℕ → ℕ → List AuditRow → List AuditRow
query_audit_rows since limit rows = take limit (keep_if (λ r. ltb since r.seq) rows)

abbrev pub one : ℕ
one = 1_000_000_000

unfoldable pub exported : AuditRow → Exported
exported r = record {
  seq = r.seq;
  key = r.key;
  value = r.new_value;
  confidence = elim r.confidence [ none ↦ one | some c ↦ c ];
  reason = elim r.reason [ none ↦ codes "sync" | some t ↦ t ];
  timestamp = r.timestamp;
}

-- The loop's `max_seq`.
unfoldable pub highest_seq : List AuditRow → ℕ → ℕ
highest_seq [] n = n
highest_seq (r ∷ rs) n = highest_seq rs (if ltb n r.seq then r.seq else n)

-- `max(1, min(int(limit), 1000))`
unfoldable pub safe_limit : ℕ → ℕ
safe_limit limit = max 1 (min limit 1000)

unfoldable pub export_delta_from_audit : ℕ → ℕ → Exporter → Exporter × AuditDelta
unfolding safe_limit
export_delta_from_audit since limit b = elim b.audit_log [
  | none ↦ (
    b,
    record { source_node = b.node_id; vector_clock = b.clock; max_seq = since; mutations = [] },
  )
  | some log ↦
      let rows = query_audit_rows since (safe_limit limit) log in
      let clock = increment b.clock b.node_id in
      (
        record b { clock = clock },
        record {
          source_node = b.node_id;
          vector_clock = clock;
          max_seq = highest_seq rows since;
          mutations = map exported rows;
        },
      )
]
