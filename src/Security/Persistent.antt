-- ===== src/Security/Persistent.antt =====
-- The guard compared with the keys that the hot buffer treats as persistent.
use atlas_memory.Prelude.{
  true, List, [], ◌∷◌, ◌≡◌, refl, sym, subst, arith, ◌||◌, any_of, Bool-cases, inl, inr,
}
use atlas_memory.Prelude.Dict.{listed}
use atlas_memory.Prelude.Text.{Str, codes, starts_with, str_eq_refl}
use atlas_memory.HotBuffer.Session.{persistent_key_prefixes}
use atlas_memory.Security.DeleteGuard.{delete_protected_prefixes, match_prefix, is_delete_protected}

match_prefix-any_of :
    (key : Str) (ps : List Str) → (match_prefix key ps).0 ≡ any_of (starts_with key) ps
unfolding match_prefix
match_prefix-any_of key [] = refl
match_prefix-any_of key (p ∷ ps) = ground (arith, match_prefix-any_of key ps)

match_prefix-match :
    (key : Str) (ps : List Str)
    → (match_prefix key ps).0 ≡ true
    → (starts_with key (match_prefix key ps).1 ≡ true) × (listed (match_prefix key ps).1 ps ≡ true)
unfolding match_prefix
match_prefix-match key [] h = absurd (ground arith)
match_prefix-match key (p ∷ ps) h = elim (Bool-cases (starts_with key p)) [
  | inl here ↦ rw (here, str_eq_refl p) (here, refl)
  | inr other ↦
      let (match, member) =
        match_prefix-match key ps
          (ground (arith, match_prefix-any_of key (p ∷ ps), match_prefix-any_of key ps)) in
      let same : match_prefix key (p ∷ ps) ≡ match_prefix key ps = rw other refl in
      subst (λ r. (starts_with key r.1 ≡ true) × (listed r.1 (p ∷ ps) ≡ true)) (sym same)
        (match, ground (arith, member))
]

-- A protected key starts with the prefix that is reported, which is one of the list; and a key
-- starts with a prefix that the hot buffer keeps for all sessions exactly if it is protected or it
-- is a `system:` or `user:` key, which may be deleted.
protected_or_unguarded :
    (key : Str)
    → (any_of (starts_with key) persistent_key_prefixes ≡ (
        (is_delete_protected key).0
        || starts_with key (codes "system:")
        || starts_with key (codes "user:")))
      × ((is_delete_protected key).0 ≡ true
          → (starts_with key (is_delete_protected key).1 ≡ true)
            × (listed (is_delete_protected key).1 delete_protected_prefixes ≡ true))
unfolding is_delete_protected
protected_or_unguarded key = (
  ground (arith, match_prefix-any_of key delete_protected_prefixes),
  λ h. match_prefix-match key delete_protected_prefixes h,
)
