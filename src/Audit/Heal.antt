-- ===== src/Audit/Heal.antt =====
-- `heal_audit_log_chain`: every link is computed anew from the rows as they stand.
use atlas_memory.Prelude.{
  ℕ, suc, true, false, List, [], ◌∷◌, map, ◌≡◌, refl, ap, ap₂, ◌∙◌, arith, length, Option, none,
  some,
}
use mathlib.Core.Option
use atlas_memory.Prelude.Text.{Str}
use atlas_memory.Audit.Hashing.{Hashing, compute_entry_hash, genesis}
use atlas_memory.Audit.Ledger.{Row, StateRow, Ledger, Signed, pos, negsuc, clamp_conf}
use atlas_memory.Audit.Verify.{row_hash, verify_rows, verify_audit_log}
use atlas_memory.Audit.Chain.{IsChain, AreSound, tip_of, verify_rows_iff, verify_rows-tip}

-- One `UPDATE` of the loop.
unfoldable pub heal_row : Hashing → Str → Row → Row
heal_row h prev r = record r {
  prev_hash = prev;
  entry_hash = compute_entry_hash h r.seq r.timestamp r.key r.value_hash prev;
  confidence = clamp_conf r.confidence;
}

unfoldable pub heal_rows : Hashing → List Row → Str → List Row
heal_rows h [] prev = []
heal_rows h (r ∷ rows) prev = let r' = heal_row h prev r in r' ∷ heal_rows h rows r'.entry_hash

unfoldable pub clamp_state : List StateRow → List StateRow
clamp_state [] = []
clamp_state (s ∷ ss) = record s { confidence = clamp_conf s.confidence } ∷ clamp_state ss

-- The healed ledger, the number of rows, and the tip.
unfoldable pub heal_audit_log_chain : Hashing → Ledger → Ledger × ℕ × Str
unfolding clamp_state
heal_audit_log_chain h l =
    let rows = heal_rows h l.rows genesis in
    (
      record l { rows = rows; state_variables = Option.map clamp_state l.state_variables },
      length l.rows,
      tip_of genesis rows,
    )

heal_rows-IsChain :
    (h : Hashing) (rows : List Row) (prev : Str) → IsChain h (heal_rows h rows prev) prev
unfolding heal_rows heal_row
heal_rows-IsChain h [] prev = tt
heal_rows-IsChain h (r ∷ rows) prev = (refl, refl, heal_rows-IsChain h rows _)

-- The shallow check looks at no value.
shallow_sound : (h : Hashing) (l : Ledger) (rows : List Row) → AreSound h false l rows
shallow_sound h l [] = tt
shallow_sound h l (r ∷ rows) = (refl, shallow_sound h l rows)

-- What a row records, without its links and its confidence.
abbrev pub recorded : Row → ℕ × ℕ × Str × Str × Option Str × Str
recorded r = (r.seq, r.timestamp, r.key, r.value_hash, r.new_value, r.reason)

-- The confidences, each brought into range.
heal_rows-confidence :
    (h : Hashing) (rows : List Row) (prev : Str)
    → map (λ (r : Row). r.confidence) (heal_rows h rows prev)
      ≡ map (λ (r : Row). clamp_conf r.confidence) rows
unfolding heal_rows heal_row
heal_rows-confidence h [] prev = refl
heal_rows-confidence h (r ∷ rows) prev =
    ap (◌∷◌ (clamp_conf r.confidence)) (heal_rows-confidence h rows _)

heal_rows-recorded :
    (h : Hashing) (rows : List Row) (prev : Str)
    → map recorded (heal_rows h rows prev) ≡ map recorded rows
unfolding heal_rows heal_row
heal_rows-recorded h [] prev = refl
heal_rows-recorded h (r ∷ rows) prev = ap (◌∷◌ (recorded r)) (heal_rows-recorded h rows _)

length-heal_rows :
    (h : Hashing) (rows : List Row) (prev : Str) → length rows ≡ length (heal_rows h rows prev)
unfolding heal_rows
length-heal_rows h [] prev = refl
length-heal_rows h (r ∷ rows) prev = ap suc (length-heal_rows h rows _)

-- Whatever was done to the log before: after healing the shallow check passes with the tip that
-- was returned, and every row, in the same order, records what it did but for its links and its
-- confidence; the confidence is the one it had, brought into range.
pub heal-verifies :
    (h : Hashing) (l : Ledger)
    → let (l', count, tip) = heal_audit_log_chain h l in
      ((verify_audit_log h false l').passed ≡ true)
      × ((verify_audit_log h false l').tip ≡ tip)
      × (map recorded l'.rows ≡ map recorded l.rows)
      × (map (λ (r : Row). r.confidence) l'.rows
          ≡ map (λ (r : Row). clamp_conf r.confidence) l.rows)
      × (count ≡ length l'.rows)
unfolding heal_audit_log_chain verify_audit_log
heal-verifies h l =
    let rows = heal_rows h l.rows genesis in
    let l' : Ledger = (heal_audit_log_chain h l).0 in
    let passes : (verify_rows h false l' rows genesis).passed ≡ true =
      (verify_rows_iff h false l' rows genesis).1
        (heal_rows-IsChain h l.rows genesis, shallow_sound h l' rows) in
    let tip = verify_rows-tip h false l' rows genesis passes in
    (
      ground (arith, passes),
      ground (arith, passes, tip),
      heal_rows-recorded h l.rows genesis,
      heal_rows-confidence h l.rows genesis,
      length-heal_rows h l.rows genesis,
    )

clamp_again : (c : Signed) → clamp_conf (clamp_conf c) ≡ clamp_conf c
unfolding clamp_conf
clamp_again (pos n) = ap pos (omega arith)
clamp_again (negsuc n) = refl

heal_row-chained :
    (h : Hashing) (r : Row) (prev : Str)
    → r.prev_hash ≡ prev
    → row_hash h r ≡ r.entry_hash
    → heal_row h prev r ≡ record r { confidence = clamp_conf r.confidence }
unfolding heal_row
heal_row-chained h r prev p e =
    ground (arith, ap (λ x. compute_entry_hash h r.seq r.timestamp r.key r.value_hash x) p)

abbrev pub clamped : Row → Row
clamped r = record r { confidence = clamp_conf r.confidence }

-- On a log that is a chain already, healing only brings the confidences into range.
pub heal_rows-chained :
    (h : Hashing) (rows : List Row) (prev : Str)
    → IsChain h rows prev
    → heal_rows h rows prev ≡ map clamped rows
unfolding heal_rows
heal_rows-chained h [] prev c = refl
heal_rows-chained h (r ∷ rows) prev c = ap₂ ◌∷◌ (heal_row-chained h r prev c.0 c.1) (
    ap (λ (x : Row). heal_rows h rows x.entry_hash) (heal_row-chained h r prev c.0 c.1)
    ∙ heal_rows-chained h rows r.entry_hash c.2)

clamped-heal_rows :
    (h : Hashing) (rows : List Row) (prev : Str)
    → map clamped (heal_rows h rows prev) ≡ heal_rows h rows prev
unfolding heal_rows heal_row
clamped-heal_rows h [] prev = refl
clamped-heal_rows h (r ∷ rows) prev =
    ap₂ ◌∷◌ (ap (λ c. record (heal_row h prev r) { confidence = c }) (clamp_again r.confidence))
      (clamped-heal_rows h rows _)

clamp_state_again : (ss : List StateRow) → clamp_state (clamp_state ss) ≡ clamp_state ss
unfolding clamp_state
clamp_state_again [] = refl
clamp_state_again (s ∷ ss) =
    ap₂ ◌∷◌ (ap (λ c. record s { confidence = c }) (clamp_again s.confidence))
      (clamp_state_again ss)

-- Healing a second time changes nothing.
heal_twice :
    (h : Hashing) (l : Ledger)
    → heal_audit_log_chain h (heal_audit_log_chain h l).0 ≡ heal_audit_log_chain h l
unfolding heal_audit_log_chain
heal_twice h l =
    let rows = heal_rows h l.rows genesis in
    let same : heal_rows h rows genesis ≡ rows =
      heal_rows-chained h rows genesis (heal_rows-IsChain h l.rows genesis)
      ∙ clamped-heal_rows h l.rows genesis in
    ground (arith, same, length-heal_rows h l.rows genesis, state_twice l.state_variables)
  where
    state_twice :
        (o : Option (List StateRow))
        → Option.map clamp_state (Option.map clamp_state o) ≡ Option.map clamp_state o
    state_twice none = refl
    state_twice (some ss) = ap some (clamp_state_again ss)
