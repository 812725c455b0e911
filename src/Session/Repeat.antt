-- ===== src/Session/Repeat.antt =====
-- A session that has ended and slept is at rest: to end it again does nothing.
use atlas_memory.Prelude.{
  ◌≡◌, refl, sym, ap, ◌∙◌, subst, Bool, true, false, not, ◌&&◌, ◌||◌, none, Bool-cases, inl, inr,
  List, [], ◌∷◌, if◌then◌else◌,
}
use atlas_memory.Prelude.Dict.{Dict, lookup, delete, listed, lookup-delete}
use atlas_memory.Prelude.Text.{Str, codes, str_eq, str_eq_refl}
use atlas_memory.Session.Hook.{
  SessionMeta, Engine, Hook, is_idle, some_key, meta_keys, keys_or_none, get_touched_keys,
  has_session_activity, propose, Ending, idempotent_noop, on_session_end, closed,
}

quiet :
    (a c d f : List Str) (idle l m : Bool)
    → a ≡ []
    → c ≡ []
    → d ≡ []
    → f ≡ []
    → l ≡ true
    → (some_key a || (not idle && some_key c) || some_key d || some_key f || (not l && m)) ≡ false
quiet a c d f true l m p q r s t = rw (p, r, s, t) refl
quiet a c d f false l m p q r s t = rw (p, q, r, s, t) refl

lookup_gone :
    {V : Type 0} (k j : Str) (d : Dict V) → lookup k d ≡ none → lookup k (delete j d) ≡ none
lookup_gone k j d h = elim (Bool-cases (str_eq j k)) [
  | inl e ↦ rw (lookup-delete j k d, e) refl
  | inr e ↦ rw (lookup-delete j k d, e) h
]

lookup_deleted : {V : Type 0} (k : Str) (d : Dict V) → lookup k (delete k d) ≡ none
lookup_deleted k d = rw (lookup-delete k k d, str_eq_refl k) refl

listed_first : (k : Str) (ks : List Str) → listed k (k ∷ ks) ≡ true
listed_first k ks = rw (str_eq_refl k) refl

keys_gone : (k : Str) (d : Dict (List Str)) → lookup k d ≡ none → keys_or_none (lookup k d) ≡ []
keys_gone k d h = rw h refl

meta_gone : (k : Str) (d : Dict SessionMeta) → lookup k d ≡ none → meta_keys (lookup k d) ≡ []
meta_gone k d h = rw h refl

-- The state that an end with a sleep cycle leaves.
abbrev taken : Engine → Str → List Str → Hook → Hook
taken e session_id known h =
    closed session_id (record (get_touched_keys e session_id h).1 { proposed_sop_ids = known })

at_rest :
    (e : Engine) (session_id : Str) (known : List Str) (h : Hook)
    → is_idle session_id ≡ false
    → e.hot_keys session_id ≡ []
    → has_session_activity e session_id (taken e session_id known h) ≡ false
unfolding has_session_activity get_touched_keys
at_rest e session_id known h i q =
    let left : Dict (List Str) = delete session_id h.session_touched_keys in
    let own = keys_gone session_id _ (
      lookup_gone session_id (codes "default") left
        (lookup_deleted session_id h.session_touched_keys)) in
    let shared = keys_gone (codes "default") _ (lookup_deleted (codes "default") left) in
    let metas = meta_gone session_id _ (lookup_deleted session_id h.active_sessions) in
    rw i
      (quiet _ _ _ _ false _ _ own shared metas q (listed_first session_id h.consolidated_sessions))

delete_absent : {V : Type 0} (k : Str) (d : Dict V) → delete k (delete k d) ≡ delete k d
unfolding delete
delete_absent k [] = refl
delete_absent k ((j, v) ∷ d) = elim (Bool-cases (str_eq j k)) [
  | inl e ↦ rw e (delete_absent k d)
  | inr e ↦ rw (e, e) (ap (λ z. (j, v) ∷ z) (delete_absent k d))
]

quiet_end :
    (e : Engine) (session_id : Str) (trigger : Bool) (h : Hook)
    → has_session_activity e session_id h ≡ false
    → on_session_end e session_id trigger h
      ≡ (idempotent_noop, record h { active_sessions = delete session_id h.active_sessions })
unfolding on_session_end
quiet_end e session_id trigger h q = if_not (has_session_activity e session_id h) _ _ q
  where
    if_not : (b : Bool) (x y : Ending × Hook) → b ≡ false → (if not b then x else y) ≡ x
    if_not true x y h = cc
    if_not false x y h = refl

active_end :
    (e : Engine) (session_id : Str) (h : Hook)
    → has_session_activity e session_id h ≡ true
    → (known : List Str) × (committed : Hook) × ((on_session_end e session_id true h).1
        ≡ taken e session_id known committed)
unfolding on_session_end
active_end e session_id h q =
    let committed : Hook = record h {
      session_touched_keys = e.process_all_pending h.session_touched_keys;
    } in
    (
      (propose e.baked_sops h.proposed_sop_ids).1,
      committed,
      if_active (has_session_activity e session_id h) _ _ q,
    )
  where
    if_active : (b : Bool) (x y : Ending × Hook) → b ≡ true → (if not b then x else y).1 ≡ y.1
    if_active true x y h = refl
    if_active false x y h = cc

-- The session is not among the open ones any more, so to take it out changes nothing.
at_end :
    (e : Engine) (session_id : Str) (known : List Str) (h : Hook)
    → record (taken e session_id known h) {
      active_sessions = delete session_id (taken e session_id known h).active_sessions;
    }
      ≡ taken e session_id known h
unfolding get_touched_keys
at_end e session_id known h =
    ap (λ d. record (taken e session_id known h) { active_sessions = d })
      (delete_absent session_id h.active_sessions)

-- When a session with activity has ended with a sleep cycle and has no entry in the hot buffer, to
-- end it again, with a sleep cycle or without, does nothing: its touched keys are taken, and what
-- the trajectories and the procedures hold of it is marked as consolidated. It answers
-- `idempotent_noop`, and the whole state of the hook is that of before. The session is not the idle
-- one.
pub on_session_end_twice :
    (e : Engine) (session_id : Str) (trigger : Bool) (h : Hook)
    → is_idle session_id ≡ false
    → e.hot_keys session_id ≡ []
    → has_session_activity e session_id h ≡ true
    → on_session_end e session_id trigger (on_session_end e session_id true h).1
      ≡ (idempotent_noop, (on_session_end e session_id true h).1)
on_session_end_twice e session_id trigger h i q active =
    let (known, committed, behind) = active_end e session_id h active in
    subst (λ s. on_session_end e session_id trigger s ≡ (idempotent_noop, s)) (sym behind)
      (quiet_end e session_id trigger (taken e session_id known committed)
          (at_rest e session_id known committed i q)
        ∙ ap (λ s. (idempotent_noop, s)) (at_end e session_id known committed))
