-- ===== src/Audit/Chain.antt =====
-- What a passed check means, and that appending keeps it.
use atlas_memory.Prelude.{
  ℕ, ◌+◌, ◌≤◌, ◌<◌, Bool, true, false, List, [], ◌∷◌, ◌++◌, none, some, ◌≡◌, ◌≢◌, ◌↔◌, refl, ap,
  ◌∙◌, arith, if◌then◌else◌, All, All-append,
}
use atlas_memory.Prelude.Text.{Str, str_eq_iff, str_eq_refl}
use atlas_memory.Audit.Hashing.{Hashing, compute_entry_hash, payload, genesis}
use atlas_memory.Audit.Ledger.{
  Row, Ledger, Entry, last_row, next_entry, get_last_entry, insert_row, new_row, entry_value_hash,
  value_text, append_audit_log, redaction_is_authorized,
}
use atlas_memory.Audit.Verify.{value_is_sound, row_hash, row_is_sound, verify_rows}

-- Every row points at the one before and carries its own hash.
abbrev pub IsChain : Hashing → List Row → Str → Type 0
IsChain h [] prev = Unit
IsChain h (r ∷ rows) prev =
    (r.prev_hash ≡ prev) × (row_hash h r ≡ r.entry_hash) × IsChain h rows r.entry_hash

unfoldable pub tip_of : Str → List Row → Str
tip_of prev [] = prev
tip_of prev (r ∷ rows) = tip_of r.entry_hash rows

abbrev pub AreSound : Hashing → Bool → Ledger → List Row → Type 0
AreSound h deep l = All (λ r. (if deep then value_is_sound h l r else true) ≡ true)

row_passes :
    (h : Hashing) (deep : Bool) (l : Ledger) (prev : Str) (r : Row)
    → (row_is_sound h deep l prev r ≡ true) ↔ (
        (r.prev_hash ≡ prev)
        × ((if deep then value_is_sound h l r else true) ≡ true)
        × (row_hash h r ≡ r.entry_hash))
unfolding row_is_sound
row_passes h deep l prev r =
    ground (arith, str_eq_iff r.prev_hash prev, str_eq_iff (row_hash h r) r.entry_hash)

-- The walk over the rows passes exactly on a chain whose values are sound where it looks at them.
pub verify_rows_iff :
    (h : Hashing) (deep : Bool) (l : Ledger) (rows : List Row) (prev : Str)
    → ((verify_rows h deep l rows prev).passed ≡ true)
      ↔ (IsChain h rows prev × AreSound h deep l rows)
unfolding verify_rows
verify_rows_iff h deep l [] prev = (λ _. (tt, tt), λ _. refl)
verify_rows_iff h deep l (r ∷ rows) prev =
    ground (arith, row_passes h deep l prev r, verify_rows_iff h deep l rows r.entry_hash)

pub verify_rows-tip :
    (h : Hashing) (deep : Bool) (l : Ledger) (rows : List Row) (prev : Str)
    → (verify_rows h deep l rows prev).passed ≡ true
    → (verify_rows h deep l rows prev).tip ≡ tip_of prev rows
unfolding verify_rows tip_of
verify_rows-tip h deep l [] prev p = refl
verify_rows-tip h deep l (r ∷ rows) prev p =
    ground (arith, verify_rows-tip h deep l rows r.entry_hash)

-- Sequence numbers rise along the rows, from above a bound.
abbrev pub IsAbove : ℕ → List Row → Type 0
IsAbove n [] = Unit
IsAbove n (r ∷ rows) = (n < r.seq) × IsAbove r.seq rows

unfoldable pub last_seq : ℕ → List Row → ℕ
last_seq n [] = n
last_seq n (r ∷ rows) = last_seq r.seq rows

last_seq-le : (n : ℕ) (rows : List Row) → IsAbove n rows → n ≤ last_seq n rows
unfolding last_seq
last_seq-le n [] a = omega arith
last_seq-le n (r ∷ rows) a = omega (arith, last_seq-le r.seq rows a.1)

pub insert_row-last :
    (r : Row) (n : ℕ) (rows : List Row)
    → IsAbove n rows
    → last_seq n rows < r.seq
    → insert_row r rows ≡ some (rows ++ (r ∷ []))
unfolding insert_row last_seq
insert_row-last r n [] a lt = refl
insert_row-last r n (s ∷ rows) a lt =
    ground (arith, last_seq-le s.seq rows a.1, insert_row-last r s.seq rows a.1)

-- Where no hash is the empty text, the next entry goes after the last row and points at its hash.
next_of_chain :
    (h : Hashing)
    → ((s : Str) → h.sha256 s ≢ [])
    → (rows : List Row) (r : Row) (prev : Str) → IsChain h (r ∷ rows) prev
    → next_entry (last_row (r ∷ rows)) ≡ (last_seq r.seq rows + 1, tip_of r.entry_hash rows)
unfolding last_row last_seq tip_of next_entry compute_entry_hash
next_of_chain h full [] r prev c =
    ground (arith, c.1, full (payload h r.seq r.timestamp r.key r.value_hash r.prev_hash))
next_of_chain h full (s ∷ rows) r prev c = next_of_chain h full rows s r.entry_hash c.2

abbrev pub IsNonempty : Hashing → Type 0
IsNonempty h = (s : Str) → h.sha256 s ≢ []

next-get_last_entry :
    (h : Hashing) (l : Ledger) (rows : List Row)
    → IsNonempty h
    → l.rows ≡ rows
    → IsChain h rows genesis
    → get_last_entry l ≡ (last_seq 0 rows + 1, tip_of genesis rows)
unfolding get_last_entry last_seq tip_of
next-get_last_entry h l [] full e c = ground arith
next-get_last_entry h l (r ∷ rows) full e c =
    ap (λ x. next_entry (last_row x)) e ∙ next_of_chain h full rows r genesis c

-- A row after a chain, pointing at its tip and carrying its own hash, extends the chain.
IsChain-append :
    (h : Hashing) (rows : List Row) (r : Row) (prev : Str)
    → IsChain h rows prev
    → r.prev_hash ≡ tip_of prev rows
    → row_hash h r ≡ r.entry_hash
    → IsChain h (rows ++ (r ∷ [])) prev
unfolding tip_of
IsChain-append h [] r prev c p e = (p, e, tt)
IsChain-append h (s ∷ rows) r prev c p e = (c.0, c.1, IsChain-append h rows r s.entry_hash c.2 p e)

tip_of-append :
    (rows : List Row) (r : Row) (prev : Str) → tip_of prev (rows ++ (r ∷ [])) ≡ r.entry_hash
unfolding tip_of
tip_of-append [] r prev = refl
tip_of-append (s ∷ rows) r prev = tip_of-append rows r s.entry_hash

-- The checks of a row's value look at the registry only.
AreSound-rows :
    (h : Hashing) (deep : Bool) (l : Ledger) (xs rows : List Row)
    → AreSound h deep l rows
    → AreSound h deep (record l { rows = xs }) rows
unfolding value_is_sound redaction_is_authorized
AreSound-rows h deep l xs [] s = tt
AreSound-rows h deep l xs (r ∷ rows) s = (s.0, AreSound-rows h deep l xs rows s.1)

new_row_sound :
    (h : Hashing) (deep : Bool) (l : Ledger) (e : Entry)
    → (deep ≡ true → e.value_hash ≡ none)
    → (if deep then value_is_sound h l (new_row h l e) else true) ≡ true
unfolding new_row value_is_sound entry_value_hash
new_row_sound h true l e own = ground (arith, own refl, str_eq_refl (h.sha256 (value_text e.value)))
new_row_sound h false l e own = refl

new_row_fields :
    (h : Hashing) (l : Ledger) (e : Entry)
    → ((new_row h l e).seq ≡ (get_last_entry l).0)
      × ((new_row h l e).prev_hash ≡ (get_last_entry l).1)
      × (row_hash h (new_row h l e) ≡ (new_row h l e).entry_hash)
unfolding new_row
new_row_fields h l e = (refl, refl, refl)

pub IsAbove-append :
    (n : ℕ) (rows : List Row) (r : Row)
    → IsAbove n rows
    → last_seq n rows < r.seq
    → IsAbove n (rows ++ (r ∷ []))
unfolding last_seq
IsAbove-append n [] r a lt = (lt, tt)
IsAbove-append n (s ∷ rows) r a lt = (a.0, IsAbove-append s.seq rows r a.1 lt)

-- Appending to a log whose rows pass the check, shallow or deep, always succeeds: one row is added
-- at the end, with a sequence number above all others, the rows pass the same check, and the tip is
-- the hash that was returned. A deep check needs the value hash to be computed, not handed in.
pub append-verifies :
    (h : Hashing) (deep : Bool) (e : Entry) (l : Ledger)
    → IsNonempty h
    → IsAbove 0 l.rows
    → (verify_rows h deep l l.rows genesis).passed ≡ true
    → (deep ≡ true → e.value_hash ≡ none)
    → (l' : Ledger) × (tip : Str) × (append_audit_log h e l ≡ some (l', tip))
      × (l'.rows ≡ l.rows ++ (new_row h l e ∷ []))
      × IsAbove 0 l'.rows
      × ((verify_rows h deep l' l'.rows genesis).passed ≡ true)
      × ((verify_rows h deep l' l'.rows genesis).tip ≡ tip)
unfolding append_audit_log
append-verifies h deep e l full above pass own =
    let r = new_row h l e in
    let rows = l.rows ++ (r ∷ []) in
    let l' : Ledger = record l { rows = rows } in
    let parts : IsChain h l.rows genesis × AreSound h deep l l.rows =
      (verify_rows_iff h deep l l.rows genesis).0 pass in
    let next = next-get_last_entry h l l.rows full refl parts.0 in
    let fields = new_row_fields h l e in
    let fresh : last_seq 0 l.rows < r.seq = ground (arith, next, fields) in
    let chain : IsChain h rows genesis =
      IsChain-append h l.rows r genesis parts.0 (ground (arith, next, fields)) fields.2 in
    let sound : AreSound h deep l rows =
      All-append _ l.rows (r ∷ []) parts.1 (new_row_sound h deep l e own, tt) in
    let passes : (verify_rows h deep l' rows genesis).passed ≡ true =
      (verify_rows_iff h deep l' rows genesis).1 (chain, AreSound-rows h deep l rows rows sound) in
    (
      l',
      r.entry_hash,
      rw (insert_row-last r 0 l.rows above fresh),
      refl,
      IsAbove-append 0 l.rows r above fresh,
      passes,
      verify_rows-tip h deep l' rows genesis passes ∙ tip_of-append l.rows r genesis,
    )
