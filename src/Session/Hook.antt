-- ===== src/Session/Hook.antt =====
-- `HermesSessionHook`: which sessions are open, what they touched, and what their end does.
use atlas_memory.Prelude.{
  ℕ, ◌+◌, Bool, not, ◌&&◌, ◌||◌, Option, none, some, List, [], ◌∷◌, ◌++◌, leb, ltb, if◌then◌else◌,
  any_of, keep_if, length,
}
use atlas_memory.Prelude.Dict.{Dict, lookup, insert, delete, listed}
use atlas_memory.Prelude.Text.{Str, codes, str_eq}

-- The entries of an open session that the hook reads.
pub record SessionMeta : Type 0 where
  pub start_time : ℕ
  pub touched_keys : List Str

-- A baked procedure: its key, its identifier, its success rate in billionths, its invocations.
pub record Sop : Type 0 where
  pub sop_id : Str
  pub procedure_id : Str
  pub success_rate : ℕ
  pub invocations_count : ℕ

-- What the hook reads of the engine: the keys of a session's entries in the hot buffer, the
-- sessions of the trajectory buffer, the baked procedures, and what the commit of the waiting
-- records does to the touched keys.
pub record Engine : Type 0 where
  pub hot_keys : Str → List Str
  pub trajectory_sessions : List Str
  pub baked_sops : List Sop
  pub process_all_pending : Dict (List Str) → Dict (List Str)

-- The hook's state, with `session_touched_keys` of the write path.
pub record Hook : Type 0 where
  pub active_sessions : Dict SessionMeta
  pub proposed_sop_ids : List Str
  pub consolidated_sessions : List Str
  pub session_touched_keys : Dict (List Str)

-- A lifetime of two hours, in billionths of a second.
abbrev pub session_ttl : ℕ
session_ttl = 7_200_000_000_000

abbrev is_fresh : ℕ → Str × SessionMeta → Bool
is_fresh now s = not (ltb (s.1.start_time + session_ttl) now)

-- The number of the sessions pruned is returned besides.
unfoldable pub cleanup_stale_sessions : ℕ → Hook → Hook
cleanup_stale_sessions now h = record h {
  active_sessions = keep_if (is_fresh now) h.active_sessions;
}

-- The state of the hook; the prompt and the reset of the latent layers are left out.
unfoldable pub on_session_start : ℕ → Str → Hook → Hook
unfolding cleanup_stale_sessions insert
on_session_start now session_id h =
    let clean = cleanup_stale_sessions now h in
    record clean {
      consolidated_sessions = keep_if (λ s. not (str_eq s session_id)) clean.consolidated_sessions;
      active_sessions =
          insert session_id (record { start_time = now; touched_keys = [] }) clean.active_sessions;
    }

abbrev pub keys_or_none : Option (List Str) → List Str
keys_or_none none = []
keys_or_none (some ks) = ks

abbrev pub meta_keys : Option SessionMeta → List Str
meta_keys none = []
meta_keys (some m) = m.touched_keys

abbrev pub is_idle : Str → Bool
is_idle session_id = str_eq session_id (codes "idle_sess")

abbrev pub some_key : List Str → Bool
some_key ks = leb 1 (length ks)

-- The keys, as a list, and the state without those that are taken off the write path.
unfoldable pub get_touched_keys : Engine → Str → Hook → List Str × Hook
unfolding lookup delete
get_touched_keys e session_id h =
    let own = keys_or_none (lookup session_id h.session_touched_keys) in
    let left = delete session_id h.session_touched_keys in
    let shared = if is_idle session_id then [] else keys_or_none (lookup (codes "default") left) in
    let rest = if is_idle session_id then left else delete (codes "default") left in
    (
      own ++ (shared ++ (meta_keys (lookup session_id h.active_sessions) ++ e.hot_keys session_id)),
      record h { session_touched_keys = rest },
    )

-- Worth a proposal.
abbrev pub qualifies : Sop → Bool
qualifies s = leb 900_000_000 s.success_rate && leb 5 s.invocations_count

unfoldable pub has_session_activity : Engine → Str → Hook → Bool
unfolding lookup
has_session_activity e session_id h =
    some_key (keys_or_none (lookup session_id h.session_touched_keys))
    || (not (is_idle session_id)
        && some_key (keys_or_none (lookup (codes "default") h.session_touched_keys)))
    || some_key (meta_keys (lookup session_id h.active_sessions))
    || some_key (e.hot_keys session_id)
    || (not (listed session_id h.consolidated_sessions)
        && (listed session_id e.trajectory_sessions
            || any_of (λ s. not (listed s.sop_id h.proposed_sop_ids) && qualifies s) e.baked_sops))

-- The procedures proposed now, and all that were ever proposed. Their compilation is left out: its
-- failures are logged.
unfoldable pub propose : List Sop → List Str → List Str × List Str
propose [] known = ([], known)
propose (s ∷ sops) known =
    let fresh = not (listed s.procedure_id known) && qualifies s in
    let (later, all) = propose sops (if fresh then s.procedure_id ∷ known else known) in
    (if fresh then s.procedure_id ∷ later else later, all)

-- What an end of a session came to; the keys are those that the sleep cycle is narrowed to.
pub data Ending : Type 0 where
  idempotent_noop : Ending
  ended : Ending
  consolidation_deferred : List Str → Ending
  consolidated : List Str → List Str → Ending

abbrev pub slept : List Str → List Str → Ending
slept [] proposed = consolidation_deferred proposed
slept (k ∷ ks) proposed = consolidated (k ∷ ks) proposed

abbrev pub closed : Str → Hook → Hook
closed session_id h = record h {
  active_sessions = delete session_id h.active_sessions;
  consolidated_sessions = session_id ∷ h.consolidated_sessions;
}

unfoldable pub on_session_end : Engine → Str → Bool → Hook → Ending × Hook
unfolding has_session_activity delete get_touched_keys propose
on_session_end e session_id trigger_sleep_cycle h =
    let committed : Hook = record h {
      session_touched_keys = e.process_all_pending h.session_touched_keys;
    } in
    let (keys, taken) = get_touched_keys e session_id committed in
    let (proposed, known) = propose e.baked_sops taken.proposed_sop_ids in
    if not (has_session_activity e session_id h)
    then (idempotent_noop, record h { active_sessions = delete session_id h.active_sessions })
    else if trigger_sleep_cycle
    then (slept keys proposed, closed session_id (record taken { proposed_sop_ids = known }))
    else (ended, closed session_id committed)
