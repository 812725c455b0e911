-- ===== src/HotBuffer/Tests.antt =====
-- The buffer at small inputs, with a lower case and digits for ASCII.
use atlas_memory.Prelude.{
  ℕ, ◌+◌, ◌&&◌, leb, false, [], ◌∷◌, map, none, some, ◌≡◌, refl, arith, if◌then◌else◌, All,
}
use atlas_memory.Prelude.Text.{
  Str, codes, str_eq, starts_with, occurs_in, remove_all, strip_space, before, behind,
}
use atlas_memory.HotBuffer.Session.{
  Unicode, Metadata, is_conversational_churn, extract_effective_session, is_session_accessible,
  clean_session,
}
use atlas_memory.HotBuffer.Policy.{
  Entry, Policy, init, is_active, get_active, append, mark_superseded, purge, bounded,
  note_superseded, remember,
}
use atlas_memory.HotBuffer.Invariant.{IsValid, appends, marks, seeds, run, run-init-IsValid}
use atlas_memory.HotBuffer.Isolation.{IsShownTo, IsPrivate, get_active-isolation}

abbrev ascii : Unicode
ascii = record {
  lower = map (λ c. if leb b'A' c && leb c b'Z' then c + 32 else c);
  is_digit = λ c. leb b'0' c && leb c b'9';
}

program : Unit {0}
unfolding str_eq starts_with occurs_in remove_all strip_space before behind is_conversational_churn
    extract_effective_session is_session_accessible clean_session is_active get_active append
    mark_superseded purge bounded note_superseded remember init
program = tt

abbrev plain : Metadata
plain = record {
  session_id = [];
  source_session_id = [];
  is_superseded = false;
  l2_consolidated = false;
  l2_consolidated_sessions = none;
  seeded_from_kv = false;
}

abbrev entry_at : Str → ℕ → Entry
entry_at k t = record {
  key = k;
  value = codes "v";
  confidence = 1;
  source_type = codes "user_explicit";
  timestamp = t;
  is_superseded = false;
  metadata = plain;
}

abbrev held : Policy
held = record {
  maxlen = 2;
  ttl_seconds = 900;
  buffer = entry_at (codes "session:s1:x") 10 ∷ entry_at (codes "fact:y") 20 ∷ [];
  superseded_history = [];
}

held-IsValid : IsValid held
unfolding program
held-IsValid = record { distinct = (refl, (refl, tt)); within = omega arith }

session_of_key : extract_effective_session ascii (codes "Session:s1:x") plain ≡ some (codes "s1")
unfolding program
session_of_key = refl

session_of_stamp :
    extract_effective_session ascii (codes "session_20240101_120000_ab12zz") plain
    ≡ some (codes "20240101_120000_ab12")
unfolding program
session_of_stamp = refl

run-init-IsValid_example :
    IsValid
      (run (appends (entry_at (codes "k") 1) ∷ marks (codes "k") ∷ seeds [] ∷ []) (init 2 900))
run-init-IsValid_example =
    run-init-IsValid 2 900 (appends (entry_at (codes "k") 1) ∷ marks (codes "k") ∷ seeds [] ∷ [])

s1-IsPrivate : IsPrivate (codes "s1")
unfolding program
s1-IsPrivate = (refl, refl, refl)

get_active-isolation_example :
    All (IsShownTo ascii (codes "s1") 30 900) (get_active ascii (some (codes "s1")) 30 held)
get_active-isolation_example = get_active-isolation ascii b's' (codes "1") 30 held-IsValid
