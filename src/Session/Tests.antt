-- ===== src/Session/Tests.antt =====
-- Ends of sessions that touched keys, and of one that another session's keys were put down to.
use atlas_memory.Prelude.{◌≡◌, refl, true, false, [], ◌∷◌}
use atlas_memory.Prelude.Dict.{lookup, insert, delete}
use atlas_memory.Prelude.Text.{codes, str_eq}
use atlas_memory.Session.Hook.{
  Engine, Hook, cleanup_stale_sessions, on_session_start, get_touched_keys, has_session_activity,
  propose, idempotent_noop, consolidated, on_session_end,
}
use atlas_memory.Session.Repeat.{on_session_end_twice}

program : Unit {0}
unfolding lookup insert delete str_eq cleanup_stale_sessions on_session_start get_touched_keys
    has_session_activity propose on_session_end
program = tt

abbrev engine : Engine
engine = record {
  hot_keys = λ s. [];
  trajectory_sessions = codes "a" ∷ [];
  baked_sops =
      record {
        sop_id = codes "p";
        procedure_id = codes "p";
        success_rate = 950_000_000;
        invocations_count = 6;
      }
      ∷ [];
  process_all_pending = λ d. d;
}

abbrev two_sessions : Hook
two_sessions = record {
  active_sessions =
      (codes "a", record { start_time = 0; touched_keys = [] })
      ∷ (codes "b", record { start_time = 0; touched_keys = [] })
      ∷ [];
  proposed_sop_ids = [];
  consolidated_sessions = [];
  session_touched_keys = (codes "a", codes "k" ∷ []) ∷ (codes "default", codes "d" ∷ []) ∷ [];
}

not_idle : str_eq (codes "a") (codes "idle_sess") ≡ false
unfolding program
not_idle = refl

is_active : has_session_activity engine (codes "a") two_sessions ≡ true
unfolding program
is_active = refl

on_session_end_twice_example :
    on_session_end engine (codes "a") true (on_session_end engine (codes "a") true two_sessions).1
    ≡ (idempotent_noop, (on_session_end engine (codes "a") true two_sessions).1)
on_session_end_twice_example =
    on_session_end_twice engine (codes "a") true two_sessions not_idle refl is_active

-- The keys put down under `default` go to the first session that ends, whosever they are.
takes_default :
    (on_session_end engine (codes "a") true two_sessions).0
    ≡ consolidated (codes "k" ∷ codes "d" ∷ []) (codes "p" ∷ [])
unfolding program
takes_default = refl

-- A session two hours old is pruned when another starts.
prunes :
    (on_session_start 7_200_000_000_001 (codes "c") two_sessions).active_sessions
    ≡ (codes "c", record { start_time = 7_200_000_000_001; touched_keys = [] }) ∷ []
unfolding program
prunes = refl
