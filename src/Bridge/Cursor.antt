-- ===== src/Bridge/Cursor.antt =====
-- Paging through the audit log: successive exports, each from the `max_seq` of the one before.
use atlas_memory.Prelude.{
  take, ℕ, zero, suc, ◌+◌, ◌≤◌, ◌<◌, max, min, List, [], ◌∷◌, ◌++◌, map, some, ◌≡◌, refl, sym, ap,
  ◌∙◌, arith, ltb, if◌then◌else◌, keep_if, length, ◌⊎◌, inl, inr, Bool-cases, subst, length-append,
}
use atlas_memory.Prelude.Text.{Str}
use atlas_memory.Sync.Clock.{VectorClock, increment}
use atlas_memory.Bridge.Export.{
  AuditRow, Exported, query_audit_rows, exported, highest_seq, safe_limit, Exporter,
  export_delta_from_audit,
}

-- Sequence numbers rise along the log, as those of a primary key do.
abbrev pub IsRising : ℕ → List AuditRow → Type 0
IsRising n [] = Unit
IsRising n (r ∷ rs) = (n < r.seq) × IsRising r.seq rs

-- The rows above a cursor.
abbrev pub above : ℕ → List AuditRow → List AuditRow
above n = keep_if (λ r. ltb n r.seq)

above_all : (n m : ℕ) (rs : List AuditRow) → n ≤ m → IsRising m rs → above n rs ≡ rs
above_all n m [] le h = refl
above_all n m (r ∷ rs) le h = ground (arith, above_all n r.seq rs)

above-IsRising : (n m : ℕ) (rs : List AuditRow) → IsRising m rs → IsRising n (above n rs)
above-IsRising n m [] h = tt
above-IsRising n m (r ∷ rs) h = elim (Bool-cases (ltb n r.seq)) [
  | inl new ↦
      rw new
        (ground arith, subst (IsRising r.seq) (sym (above_all n r.seq rs (ground arith) h.1)) h.1)
  | inr old ↦ rw old (above-IsRising n r.seq rs h.1)
]

above_twice : (n k : ℕ) (rs : List AuditRow) → n ≤ k → above k (above n rs) ≡ above k rs
above_twice n k [] le = refl
above_twice n k (r ∷ rs) le = ground (arith, above_twice n k rs le)

highest_seq-le : (rs : List AuditRow) (n : ℕ) → n ≤ highest_seq rs n
unfolding highest_seq
highest_seq-le [] n = omega arith
highest_seq-le (r ∷ rs) n = ground (arith, highest_seq-le rs (if ltb n r.seq then r.seq else n))

-- A page of rising rows and what lies above its highest number.
page_split :
    (limit n : ℕ) (rs : List AuditRow)
    → IsRising n rs
    → rs ≡ take limit rs ++ above (highest_seq (take limit rs) n) rs
unfolding highest_seq
page_split zero n rs h = sym (above_all n n rs (omega arith) h)
page_split (suc limit) n [] h = refl
page_split (suc limit) n (r ∷ rs) h =
    ground (arith, page_split limit r.seq rs h.1, highest_seq-le (take limit rs) r.seq)

query_split :
    (limit n m : ℕ) (log : List AuditRow)
    → IsRising m log
    → above n log
      ≡ query_audit_rows n limit log ++ above (highest_seq (query_audit_rows n limit log) n) log
unfolding query_audit_rows
query_split limit n m log h =
    let page = take limit (above n log) in
    page_split limit n (above n log) (above-IsRising n m log h)
    ∙ ap (λ z. page ++ z) (above_twice n (highest_seq page n) log (highest_seq-le page n))

-- A page takes at least one row, if there is one.
length-take : (n : ℕ) (rs : List AuditRow) → 1 ≤ n → (length rs ≤ 0) ⊎ (1 ≤ length (take n rs))
length-take zero rs h = inl (omega arith)
length-take (suc n) [] h = inl (omega arith)
length-take (suc n) (r ∷ rs) h = inr (omega arith)

-- Successive exports, each from the `max_seq` of the one before.
abbrev pub drain : ℕ → ℕ → ℕ → Exporter → List Exported
drain zero limit since b = []
drain (suc fuel) limit since b =
    let (b', delta) = export_delta_from_audit since limit b in
    delta.mutations ++ drain fuel limit delta.max_seq b'

-- Each page takes a row off what is left.
rest-shorter :
    (size n m fuel : ℕ) (log : List AuditRow)
    → 1 ≤ size
    → IsRising m log
    → length (above n log) ≤ suc fuel
    → length (above (highest_seq (query_audit_rows n size log) n) log) ≤ fuel
unfolding query_audit_rows
rest-shorter size n m fuel log pos rising le =
    let page = query_audit_rows n size log in
    let rest = above (highest_seq page n) log in
    let sum : length (above n log) ≡ length page + length rest =
      ap length (query_split size n m log rising) ∙ length-append page rest in
    elim (length-take size (above n log) pos) [
      | inl nothing ↦ omega (arith, sum, nothing, le)
      | inr some_row ↦ omega (arith, sum, some_row, le)
    ]

exported-append :
    (xs ys : List AuditRow) → map exported (xs ++ ys) ≡ map exported xs ++ map exported ys
exported-append [] ys = refl
exported-append (x ∷ xs) ys = ap (λ z. exported x ∷ z) (exported-append xs ys)

abbrev pub exporter : Str → VectorClock → List AuditRow → Exporter
exporter node clock log = record { node_id = node; clock = clock; audit_log = some log }

-- On a log whose sequence numbers rise, successive exports, whatever the limit asked for, hand over
-- the rows above the first cursor in their order, each once and none left out. As many exports as
-- there are such rows are enough, since no page is empty before the end.
pub drain-above :
    (fuel limit n m : ℕ) (node : Str) (clock : VectorClock) (log : List AuditRow)
    → IsRising m log
    → length (above n log) ≤ fuel
    → drain fuel limit n (exporter node clock log) ≡ map exported (above n log)
unfolding export_delta_from_audit safe_limit
drain-above zero limit n m node clock log rising le = none_left (above n log) le
  where
    none_left : (rs : List AuditRow) → length rs ≤ 0 → [] ≡ map exported rs
    none_left [] h = refl
    none_left (r ∷ rs) h = absurd (omega arith)
drain-above (suc fuel) limit n m node clock log rising le =
    let size = max 1 (min limit 1000) in
    let page = query_audit_rows n size log in
    let rest = above (highest_seq page n) log in
    let split : above n log ≡ page ++ rest = query_split size n m log rising in
    ap (λ z. map exported page ++ z)
      (drain-above fuel limit (highest_seq page n) m node (increment clock node) log rising
        (rest-shorter size n m fuel log (omega arith) rising le))
    ∙ sym (exported-append page rest)
    ∙ ap (map exported) (sym split)
