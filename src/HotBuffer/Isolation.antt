-- ===== src/HotBuffer/Isolation.antt =====
-- Session isolation: what `get_active` shows to a requested session.
use atlas_memory.Prelude.{
  ℕ, ◌+◌, ◌≤◌, true, false, List, [], ◌∷◌, Option, some, ◌≡◌, subst, sym, arith, keep_if, All, ◌↔◌,
  Bool-cases, inl, inr,
}
use atlas_memory.Prelude.Text.{is_empty, Str, str_eq, str_eq_iff}
use atlas_memory.HotBuffer.Session.{
  Unicode, extract_effective_session, is_session_accessible, clean_session, clean_request,
  is_default, global_session, is_conversational_churn,
}
use atlas_memory.HotBuffer.Policy.{Entry, Policy, is_active, get_active}
use atlas_memory.HotBuffer.Invariant.{IsValid}
use atlas_memory.HotBuffer.Active.{get_active_lem}

-- A session of its own: neither shared by all nor the default one.
abbrev pub IsPrivate : Str → Type 0
IsPrivate s =
    (str_eq s global_session ≡ false)
    × (is_default (clean_session s) ≡ false)
    × (is_empty (clean_session s) ≡ false)

-- Who sees a private session: exactly a request with the same cleaned name. No session at all, or
-- the global one, is seen by every request.
accessible_iff :
    (s : Str) (requested : Option Str)
    → IsPrivate s
    → (is_session_accessible (some s) requested ≡ true)
      ↔ (clean_request requested ≡ clean_session s)
unfolding is_session_accessible
accessible_iff s requested v =
    ground (arith, str_eq_iff (clean_request requested) (clean_session s))

-- What is promised of an entry that a session is shown.
abbrev pub IsShownTo : Unicode → Str → ℕ → ℕ → Entry → Type 0
IsShownTo u session now ttl e =
    (now ≤ e.timestamp + ttl)
    × (e.is_superseded ≡ false)
    × (e.metadata.is_superseded ≡ false)
    × (is_conversational_churn u e.key e.value ≡ false)
    × ((owner : Str)
        → extract_effective_session u e.key e.metadata ≡ some owner
        → IsPrivate owner
        → clean_session session ≡ clean_session owner)

accessible_owner :
    (owner session : Str) (o : Option Str)
    → is_session_accessible o (some session) ≡ true
    → o ≡ some owner
    → IsPrivate owner
    → clean_session session ≡ clean_session owner
accessible_owner owner session o acc e v =
    (accessible_iff owner (some session) v).0
      (subst (λ x. is_session_accessible x (some session) ≡ true) e acc)

active-IsShownTo :
    (u : Unicode) (c : ℕ) (s : Str) (now ttl : ℕ) (e : Entry)
    → is_active u (some (c ∷ s)) now ttl e ≡ true
    → IsShownTo u (c ∷ s) now ttl e
unfolding is_active
active-IsShownTo u c s now ttl e h = (
  ground arith,
  ground arith,
  ground arith,
  ground arith,
  λ owner o v.
      accessible_owner owner (c ∷ s) (extract_effective_session u e.key e.metadata) (ground arith) o
        v,
)

All-shown :
    (u : Unicode) (c : ℕ) (s : Str) (now ttl : ℕ) (es : List Entry)
    → All (IsShownTo u (c ∷ s) now ttl) (keep_if (is_active u (some (c ∷ s)) now ttl) es)
All-shown u c s now ttl [] = tt
All-shown u c s now ttl (e ∷ es) = elim (Bool-cases (is_active u (some (c ∷ s)) now ttl e)) [
  | inl shown ↦ rw shown (active-IsShownTo u c s now ttl e shown, All-shown u c s now ttl es)
  | inr hidden ↦ rw hidden (All-shown u c s now ttl es)
]

-- Every entry that `get_active` shows to a named session is within the time window, not
-- superseded, by its own mark or by that of its metadata, and no conversational noise, and if it is private to a session, that session has the
-- cleaned name of the one that asked.
pub get_active-isolation :
    (u : Unicode) (c : ℕ) (s : Str) (now : ℕ) {p : Policy}
    → IsValid p
    → All (IsShownTo u (c ∷ s) now p.ttl_seconds) (get_active u (some (c ∷ s)) now p)
get_active-isolation u c s now {p} v =
    subst (All (IsShownTo u (c ∷ s) now p.ttl_seconds))
      (sym (get_active_lem u (some (c ∷ s)) now v)) (All-shown u c s now p.ttl_seconds p.buffer)
