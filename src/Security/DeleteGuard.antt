-- ===== src/Security/DeleteGuard.antt =====
-- `is_delete_protected` and its prefixes.
use atlas_memory.Prelude.{Bool, true, false, List, [], ◌∷◌, if◌then◌else◌}
use atlas_memory.Prelude.Text.{Str, codes, starts_with}

abbrev pub delete_protected_prefixes : List Str
delete_protected_prefixes =
    codes "hermes:"
    ∷ codes "fact:"
    ∷ codes "prompt-"
    ∷ codes "mnemosyne:"
    ∷ codes "rule:"
    ∷ codes "preference:"
    ∷ codes "constraint:"
    ∷ codes "config:"
    ∷ []

-- The loop over the prefixes: the first that the key starts with.
unfoldable pub match_prefix : Str → List Str → Bool × Str
match_prefix key [] = (false, [])
match_prefix key (prefix ∷ prefixes) =
    let rest = match_prefix key prefixes in if starts_with key prefix then (true, prefix) else rest

unfoldable pub is_delete_protected : Str → Bool × Str
unfolding match_prefix
is_delete_protected key = match_prefix key delete_protected_prefixes
