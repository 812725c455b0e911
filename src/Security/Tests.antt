-- ===== src/Security/Tests.antt =====
-- The guard on keys of both kinds.
use atlas_memory.Prelude.{true, false, ◌≡◌, refl}
use atlas_memory.Prelude.Text.{codes, starts_with}
use atlas_memory.Security.DeleteGuard.{match_prefix, is_delete_protected}

program : Unit {0}
unfolding starts_with match_prefix is_delete_protected
program = tt

test_rule : is_delete_protected (codes "rule:editor") ≡ (true, codes "rule:")
unfolding program
test_rule = refl

test_user : (is_delete_protected (codes "user:name")).0 ≡ false
unfolding program
test_user = refl
