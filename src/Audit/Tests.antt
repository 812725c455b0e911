-- ===== src/Audit/Tests.antt =====
-- The ledger on small logs, under a stand-in for the digest: a letter, and each character shifted
-- past the separator.
use atlas_memory.Prelude.{
  ℕ, ◌+◌, true, false, [], ◌∷◌, ◌++◌, map, none, some, ◌≡◌, refl, arith, ◌⊎◌,
}
use atlas_memory.Prelude.Text.{Str, codes, str_eq, starts_with, strip_space}
use atlas_memory.Audit.Hashing.{Hashing, compute_entry_hash, genesis, payload}
use atlas_memory.Audit.Ledger.{
  Row, Ledger, Entry, pos, redacted, append_audit_log, insert_row, new_row, get_last_entry,
  entry_value_hash, redact_audit_entry, redact_row, register_over, overwrite, find_row,
  choose_marker, redaction_is_authorized, clamp_conf,
}
use atlas_memory.Audit.Verify.{
  entry, value_is_sound, is_legacy_tombstone, row_is_sound, verify_rows, verify_audit_log,
}
use atlas_memory.Audit.Chain.{IsNonempty, IsAbove, tip_of, append-verifies}
use atlas_memory.Audit.Heal.{heal_audit_log_chain, heal_rows, heal_row, heal-verifies}
use atlas_memory.Audit.Redact.{redact-verifies, after_redaction}
use atlas_memory.Audit.Tamper.{IsPlain, HasNoColon, Collision, SameRecords, same_tip-SameRecords}

abbrev shift : Str → Str
shift = map (λ c. c + 59)

abbrev toy : Hashing
toy = record {
  sha256 = λ s. b'h' ∷ shift s;
  show_seq = λ n. (n + 59) ∷ [];
  show_time = λ n. (n + 59) ∷ [];
}

shift_plain : (s : Str) → HasNoColon (shift s)
shift_plain [] = tt
shift_plain (c ∷ s) = (omega arith, shift_plain s)

one_injective : (m n : ℕ) → ◌≡◌ {A = Str} ((m + 59) ∷ []) ((n + 59) ∷ []) → m ≡ n
one_injective m n e = ground arith

toy-IsPlain : IsPlain toy
toy-IsPlain = record {
  digest_plain = λ s. (omega arith, shift_plain s);
  seq_plain = λ n. (omega arith, tt);
  time_plain = λ n. (omega arith, tt);
  seq_injective = one_injective;
  time_injective = one_injective;
}

toy-IsNonempty : IsNonempty toy
toy-IsNonempty s = λ e. cc

program : Unit {0}
unfolding str_eq starts_with strip_space compute_entry_hash append_audit_log insert_row new_row
    get_last_entry entry_value_hash redact_audit_entry redact_row register_over overwrite find_row
    choose_marker redaction_is_authorized clamp_conf value_is_sound is_legacy_tombstone row_is_sound
    verify_rows verify_audit_log heal_audit_log_chain heal_rows heal_row tip_of
program = tt

abbrev empty : Ledger
empty = record { rows = []; redactions = some []; state_variables = none }

abbrev entry_of : Str → Str → Entry
entry_of k v = record {
  timestamp = 5;
  key = k;
  value = some v;
  value_hash = none;
  confidence = pos 7;
  reason = codes "update";
}

first_row : Row
unfolding program
first_row = new_row toy empty (entry_of (codes "k") (codes "v"))

one : Ledger
unfolding first_row
one = record empty { rows = first_row ∷ [] }

append-verifies_example :
    (l : Ledger) × (tip : Str) × (append_audit_log toy (entry_of (codes "a") (codes "b")) one
      ≡ some (l, tip))
    × (l.rows ≡ one.rows ++ (new_row toy one (entry_of (codes "a") (codes "b")) ∷ []))
    × IsAbove 0 l.rows
    × ((verify_rows toy true l l.rows genesis).passed ≡ true)
    × ((verify_rows toy true l l.rows genesis).tip ≡ tip)
unfolding program one
append-verifies_example =
    append-verifies toy true (entry_of (codes "a") (codes "b")) one toy-IsNonempty (omega arith, tt)
      refl (λ _. refl)

abbrev annotated : Ledger
annotated = record one { rows = record first_row { confidence = pos 1 } ∷ [] }

same_tip-SameRecords_example : SameRecords one.rows annotated.rows ⊎ Collision toy
unfolding program one
same_tip-SameRecords_example =
    same_tip-SameRecords toy one annotated toy-IsPlain (omega arith) (omega arith) refl refl refl
      refl

heal-verifies_example : (verify_audit_log toy false (heal_audit_log_chain toy one).0).passed ≡ true
heal-verifies_example = (heal-verifies toy one).0

redact-verifies_example :
    let l =
      after_redaction toy one first_row
        (codes "SEC")
        (choose_marker none (codes "SEC") (codes "d"))
        9
        [] in
    (redact_audit_entry 1 (codes "SEC") none (codes "d") 9 one ≡ some (l, redacted))
    × ((verify_rows toy true l l.rows genesis).passed ≡ true)
    × ((verify_rows toy true l l.rows genesis).tip
        ≡ (verify_rows toy true one one.rows genesis).tip)
unfolding program one
redact-verifies_example =
    redact-verifies toy one 1 (codes "SEC") (codes "d") none 9 b'S' (codes "EC") [] first_row refl
      refl refl (omega arith, tt) refl refl

abbrev forged : Ledger
forged = record one { rows = record first_row { new_value = some (codes "x") } ∷ [] }

-- The payload joins its fields by colons: a colon in a value hash reads like one in the key.
ambiguous :
    payload toy 1 2 (codes "a") (codes "b:c") genesis
    ≡ payload toy 1 2 (codes "a:b") (codes "c") genesis
unfolding program
ambiguous = refl

-- A new log starts at 1, and its check finds the second row when its link is cut.
link_cut :
    (verify_audit_log toy false
      (record one { rows = first_row ∷ record first_row { seq = 2 } ∷ [] })).place
    ≡ entry 2
unfolding program one
link_cut = refl
