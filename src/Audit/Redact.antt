-- ===== src/Audit/Redact.antt =====
-- Redactions: an authorised one keeps a sound log sound, and an unauthorised one is found.
use mathlib.Core.Option
use atlas_memory.Prelude.{
  ℕ, ◌≤◌, Bool, true, false, ◌==◌, List, [], ◌∷◌, ◌++◌, Option, none, some, ◌≡◌, ◌≢◌, refl, ap, ◌∙◌,
  arith, any_of, Bool-cases, inl, inr, sym, ◌⊎◌,
}
use atlas_memory.Prelude.Text.{Str, str_eq_iff, str_eq_refl, starts_with, strip_space}
use atlas_memory.Audit.Hashing.{Hashing, genesis}
use atlas_memory.Audit.Ledger.{
  Row, Redaction, Ledger, redacted, authorizes, redaction_is_authorized, register_over, find_row,
  overwrite, redact_row, redact_audit_entry, choose_marker, marker_prefix,
}
use atlas_memory.Audit.Verify.{
  entry, value_is_sound, is_legacy_tombstone, row_is_sound, verify_rows, verify_audit_log,
}
use atlas_memory.Audit.Chain.{IsChain, AreSound, IsAbove, tip_of, verify_rows_iff, verify_rows-tip}

-- The registry after a redaction authorises it,
register_over-authorizes :
    (r : Redaction) (rs : List Redaction)
    → any_of (authorizes r.seq r.key r.value_hash) (register_over r rs) ≡ true
unfolding register_over
register_over-authorizes r [] = ground (arith, str_eq_refl r.key, str_eq_refl r.value_hash)
register_over-authorizes r (s ∷ rs) = ground (arith, register_over-authorizes r rs)

-- and authorises at every other sequence number what it did before.
register_over-others :
    (r : Redaction) (rs : List Redaction) (seq : ℕ) (key vh : Str)
    → seq ≢ r.seq
    → any_of (authorizes seq key vh) (register_over r rs) ≡ any_of (authorizes seq key vh) rs
unfolding register_over
register_over-others r [] seq key vh h = ground arith
register_over-others r (s ∷ rs) seq key vh h =
    ground (arith, register_over-others r rs seq key vh h)

module _ (h : Hashing) (l : Ledger) (row : Row) (reason marker : Str) (now : ℕ) where
  abbrev note : Redaction
  note = record {
    seq = row.seq;
    key = row.key;
    value_hash = row.value_hash;
    reason = reason;
    created_at = now;
  }

  abbrev pub after_redaction : List Redaction → Ledger
  after_redaction rs = record l {
    rows = overwrite row.seq marker l.rows;
    redactions = some (register_over note rs);
  }

  -- A row of another sequence number is as sound as before.
  sound_others :
      (rs : List Redaction) (r : Row)
      → l.redactions ≡ some rs
      → r.seq ≢ row.seq
      → value_is_sound h l r ≡ true
      → value_is_sound h (after_redaction rs) r ≡ true
  unfolding value_is_sound redaction_is_authorized
  sound_others rs r e ne s =
      ground (arith, register_over-others note rs r.seq r.key r.value_hash ne)

  -- The redacted row is sound with its marker.
  sound_self :
      (rs : List Redaction)
      → starts_with marker marker_prefix ≡ true
      → value_is_sound h (after_redaction rs) (record row { new_value = some marker }) ≡ true
  unfolding value_is_sound redaction_is_authorized
  sound_self rs m = ground (arith, register_over-authorizes note rs)

  IsChain-overwrite :
      (rows : List Row) (prev : Str)
      → IsChain h rows prev
      → IsChain h (overwrite row.seq marker rows) prev
  unfolding overwrite
  IsChain-overwrite [] prev c = tt
  IsChain-overwrite (r ∷ rows) prev c = ground (arith, IsChain-overwrite rows r.entry_hash c.2)

  tip_of-overwrite :
      (rows : List Row) (prev : Str)
      → tip_of prev (overwrite row.seq marker rows) ≡ tip_of prev rows
  unfolding overwrite tip_of
  tip_of-overwrite [] prev = refl
  tip_of-overwrite (r ∷ rows) prev = ground (arith, tip_of-overwrite rows r.entry_hash)

  AreSound-above :
      (rs : List Redaction) (rows : List Row) (n : ℕ)
      → l.redactions ≡ some rs
      → row.seq ≤ n
      → IsAbove n rows
      → AreSound h true l rows
      → AreSound h true (after_redaction rs) (overwrite row.seq marker rows)
  unfolding overwrite
  AreSound-above rs [] n e le a s = tt
  AreSound-above rs (r ∷ rows) n e le a s =
      ground (arith, sound_others rs r e, AreSound-above rs rows r.seq e)

  AreSound-overwrite :
      (rs : List Redaction) (rows : List Row) (n : ℕ)
      → l.redactions ≡ some rs
      → starts_with marker marker_prefix ≡ true
      → IsAbove n rows
      → find_row row.seq rows ≡ some row
      → AreSound h true l rows
      → AreSound h true (after_redaction rs) (overwrite row.seq marker rows)
  unfolding overwrite find_row
  AreSound-overwrite rs [] n e m a f s = tt
  AreSound-overwrite rs (r ∷ rows) n e m a f s = elim (Bool-cases (r.seq == row.seq)) [
    | inl hit ↦
        let same : r ≡ row = ground arith in
        let rest = AreSound-above rs rows r.seq e (ground arith) a.1 s.1 in
        rw (hit, same) (sound_self rs m, rest)
    | inr miss ↦ rw miss (
      sound_others rs r e (ground arith) s.0,
      AreSound-overwrite rs rows r.seq e m a.1 (ground arith) s.1,
    )
  ]

  -- The rows of a log that passes the deep check still pass it, with the same tip, once one row
  -- holds a marker and the registry has its note.
  redact_row-verifies :
      (rs : List Redaction)
      → l.redactions ≡ some rs
      → starts_with marker marker_prefix ≡ true
      → IsAbove 0 l.rows
      → find_row row.seq l.rows ≡ some row
      → (verify_rows h true l l.rows genesis).passed ≡ true
      → (redact_row row reason marker now l ≡ some (after_redaction rs, redacted))
        × ((verify_rows h true (after_redaction rs) (after_redaction rs).rows genesis).passed
            ≡ true)
        × ((verify_rows h true (after_redaction rs) (after_redaction rs).rows genesis).tip
            ≡ (verify_rows h true l l.rows genesis).tip)
  unfolding redact_row
  redact_row-verifies rs e m a f pass =
      let parts = (verify_rows_iff h true l l.rows genesis).0 pass in
      let rows = overwrite row.seq marker l.rows in
      let l' : Ledger = after_redaction rs in
      let passes : (verify_rows h true l' rows genesis).passed ≡ true =
        (verify_rows_iff h true l' rows genesis).1 (
          IsChain-overwrite l.rows genesis parts.0,
          AreSound-overwrite rs l.rows 0 e m a f parts.1,
        ) in
      (
        ap (Option.map _) e,
        passes,
        verify_rows-tip h true l' rows genesis passes
            ∙ tip_of-overwrite l.rows genesis
            ∙ sym (verify_rows-tip h true l l.rows genesis pass),
      )

find_row-seq :
    (seq : ℕ) (rows : List Row) (row : Row) → find_row seq rows ≡ some row → row.seq ≡ seq
unfolding find_row
find_row-seq seq [] row f = cc
find_row-seq seq (r ∷ rows) row f = ground (arith, find_row-seq seq rows row)

-- `redact_audit_entry` with a marker of the right form and a reason that is not blank, on a
-- present row and a readable registry, succeeds: the row holds the marker, the registry the
-- redaction, and the rows pass the deep check with the same tip if they did before.
pub redact-verifies :
    (h : Hashing) (l : Ledger) (seq : ℕ) (reason date : Str) (given : Option Str) (now c : ℕ)
    (rest : Str) (rs : List Redaction) (row : Row)
    → l.redactions ≡ some rs
    → starts_with (choose_marker given reason date) marker_prefix ≡ true
    → strip_space reason ≡ c ∷ rest
    → IsAbove 0 l.rows
    → find_row seq l.rows ≡ some row
    → (verify_rows h true l l.rows genesis).passed ≡ true
    → let l' = after_redaction h l row reason (choose_marker given reason date) now rs in
      (redact_audit_entry seq reason given date now l ≡ some (l', redacted))
      × ((verify_rows h true l' l'.rows genesis).passed ≡ true)
      × ((verify_rows h true l' l'.rows genesis).tip ≡ (verify_rows h true l l.rows genesis).tip)
unfolding redact_audit_entry
redact-verifies h l seq reason date given now c rest rs row e m b a f pass =
    let marker = choose_marker given reason date in
    let same = find_row-seq seq l.rows row f in
    let found : find_row row.seq l.rows ≡ some row = ap (λ n. find_row n l.rows) same ∙ f in
    let done = redact_row-verifies h l row reason marker now rs e m a found pass in
    (rw (m, b, f) done.0, done.1, done.2)

starts_with-append : (p s : Str) → starts_with (p ++ s) p ≡ true
unfolding starts_with
starts_with-append [] [] = refl
starts_with-append [] (c ∷ s) = refl
starts_with-append (c ∷ p) s = ground (arith, starts_with-append p s)

-- The marker that the source makes up itself has the right form.
pub default_marker :
    (reason date : Str) → starts_with (choose_marker none reason date) marker_prefix ≡ true
unfolding choose_marker
default_marker reason date = starts_with-append marker_prefix (reason ++ (b' ' ∷ date))

verify_rows-append :
    (h : Hashing) (deep : Bool) (l : Ledger) (xs ys : List Row) (prev : Str)
    → (verify_rows h deep l xs prev).passed ≡ true
    → verify_rows h deep l (xs ++ ys) prev ≡ verify_rows h deep l ys (tip_of prev xs)
unfolding verify_rows tip_of
verify_rows-append h deep l [] ys prev p = refl
verify_rows-append h deep l (r ∷ xs) ys prev p =
    ground (arith, verify_rows-append h deep l xs ys r.entry_hash)

-- A stored value that does not have the stored hash, is no old tombstone, and is no redaction in
-- the registry is found by the deep check at its row, behind any rows that pass.
changed_value-found :
    (h : Hashing) (l : Ledger) (before after : List Row) (r : Row) (v : Str)
    → l.rows ≡ before ++ (r ∷ after)
    → (verify_rows h true l before genesis).passed ≡ true
    → r.new_value ≡ some v
    → h.sha256 v ≢ r.value_hash
    → is_legacy_tombstone h v r.value_hash ≡ false
    → (starts_with v marker_prefix ≡ false)
      ⊎ (redaction_is_authorized l r.seq r.key r.value_hash ≡ false)
    → verify_audit_log h true l
      ≡ record { passed = false; place = entry r.seq; tip = tip_of genesis before }
unfolding verify_audit_log verify_rows row_is_sound value_is_sound
changed_value-found h l before after r v e pass hv ne no_tomb no_note = ground (
  arith,
  ap (λ x. verify_rows h true l x genesis) e,
  verify_rows-append h true l before (r ∷ after) genesis pass,
  str_eq_iff (h.sha256 v) r.value_hash,
)
