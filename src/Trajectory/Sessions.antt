-- ===== src/Trajectory/Sessions.antt =====
-- The steps of a session, grouped.
use atlas_memory.Prelude.{
  ◌≡◌, refl, sym, ap, ◌∙◌, Bool-cases, inl, inr, List, [], ◌∷◌, ◌++◌, map, keep_if,
}
use mathlib.Core.List.{append_assoc, append-nil}
use atlas_memory.Prelude.Text.{Str, str_eq, str_eq_iff}
use atlas_memory.Prelude.Dict.{Dict, lookup, insert, lookup-insert}
use atlas_memory.Trajectory.Views.{Entry, or_none, session_groups}

-- The entries of one session, in their order.
abbrev pub of_session : Str → List (Str × Entry) → List Entry
of_session sid entries = map (λ e. e.1) (keep_if (λ e. str_eq e.0 sid) entries)

add_one :
    (sid k : Str) (e : Entry) (groups : Dict (List Entry))
    → or_none (lookup sid (insert k (or_none (lookup k groups) ++ (e ∷ [])) groups))
      ≡ or_none (lookup sid groups) ++ of_session sid ((k, e) ∷ [])
add_one sid k e groups = elim (Bool-cases (str_eq k sid)) [
  | inl same ↦
      rw
        (
          lookup-insert k sid (or_none (lookup k groups) ++ (e ∷ [])) groups,
          same,
          (str_eq_iff k sid).0 same,
        )
        refl
  | inr other ↦
      rw (lookup-insert k sid (or_none (lookup k groups) ++ (e ∷ [])) groups, other)
        (sym (append-nil _))
]

of_session_split :
    (sid k : Str) (e : Entry) (entries : List (Str × Entry))
    → of_session sid ((k, e) ∷ []) ++ of_session sid entries ≡ of_session sid ((k, e) ∷ entries)
of_session_split sid k e entries = elim (Bool-cases (str_eq k sid)) [
  | inl same ↦ rw same refl
  | inr other ↦ rw other refl
]

session_groups-lookup :
    (sid : Str) (entries : List (Str × Entry)) (groups : Dict (List Entry))
    → or_none (lookup sid (session_groups entries groups))
      ≡ or_none (lookup sid groups) ++ of_session sid entries
unfolding session_groups
session_groups-lookup sid [] groups = sym (append-nil _)
session_groups-lookup sid ((k, e) ∷ entries) groups =
    let later : Dict (List Entry) = insert k (or_none (lookup k groups) ++ (e ∷ [])) groups in
    session_groups-lookup sid entries later
    ∙ ap (λ z. z ++ of_session sid entries) (add_one sid k e groups)
    ∙ append_assoc (or_none (lookup sid groups)) (of_session sid ((k, e) ∷ []))
        (of_session sid entries)
    ∙ ap (λ z. or_none (lookup sid groups) ++ z) (of_session_split sid k e entries)

-- The group of a session holds exactly its own steps, in the order in which they were recorded,
-- however the sessions are interleaved; a session without steps has no group or an empty one.
pub session_groups-of_session :
    (sid : Str) (entries : List (Str × Entry))
    → or_none (lookup sid (session_groups entries [])) ≡ of_session sid entries
unfolding lookup
session_groups-of_session sid entries = session_groups-lookup sid entries []
