-- ===== src/Arbiter/Kernel.antt =====
-- `EpistemicDecisionKernel`. Confidences are billionths. Scores are billionths too, counted from
-- forty below zero, which is the lowest there is.
use atlas_memory.Prelude.{
  ℕ, Bool, true, false, not, ◌&&◌, ◌||◌, List, [], ◌∷◌, map, leb, ◌==◌, if◌then◌else◌, any_of,
}
use atlas_memory.Prelude.Dict.{listed}
use atlas_memory.Prelude.Text.{Str, codes, str_eq, split}
use atlas_memory.Arbiter.Coordinate.{Coordinate, from_key, root_of}

abbrev pub multi_valued_slots : List Str
multi_valued_slots = map codes (
    "tags" ∷ "tag" ∷ "allowed_users" ∷ "users" ∷ "members" ∷ "roles" ∷ "items" ∷ "dependencies"
    ∷ "plugins" ∷ "features" ∷ "scopes" ∷ "permissions" ∷ [])

-- `_` is the code point 95.
unfoldable pub is_multi_valued_slot : (Str → Str) → Coordinate → Bool
unfolding split
is_multi_valued_slot lower c =
    let slot = lower c.slot in
    any_of (λ t. listed t multi_valued_slots)
      (slot ∷ lower c.entity_id ∷ split 95 (map (λ k. if k == 58 then 95 else k) slot))

unfoldable pub can_supersede : (Str → Str) → Str → Str → Bool → Bool
unfolding is_multi_valued_slot
can_supersede lower incoming existing explicit =
    let c = from_key lower incoming in
    let d = from_key lower existing in
    if explicit || str_eq incoming existing
    then true
    else if not (str_eq (root_of c) (root_of d))
    then false
    else not (is_multi_valued_slot lower c || is_multi_valued_slot lower d)

pub data Reason : Type 0 where
  explicit_conflict_marker : Reason
  belief_revision : Reason
  confidence_inversion : Reason
  exclusivity_collision : Reason
  exclusivity_violation : Reason
  semantic_contradiction : Reason
  prohibition_contradiction : Reason
  functional_slot_revision : Reason

-- The reasons for which a user may revise another key.
abbrev pub is_revisable : Reason → Bool
is_revisable exclusivity_collision = true
is_revisable exclusivity_violation = true
is_revisable semantic_contradiction = true
is_revisable prohibition_contradiction = true
is_revisable functional_slot_revision = true
is_revisable explicit_conflict_marker = false
is_revisable belief_revision = false
is_revisable confidence_inversion = false

abbrev pub is_inversion : Reason → Bool
is_inversion confidence_inversion = true
is_inversion _ = false

abbrev pub is_revision : Reason → Bool
is_revision belief_revision = true
is_revision _ = false

pub data Action : Type 0 where
  accept : Action
  warn_conflict : Action
  supersede : Action

-- A score of 35.
abbrev pub warning_score : ℕ
warning_score = 75_000_000_000

-- The keyword arguments of `decide`.
pub record Evidence : Type 0 where
  pub is_user_explicit : Bool
  pub incoming_conf : ℕ
  pub existing_conf : ℕ
  pub conf_threshold : ℕ
  pub best_score : ℕ
  pub reason : Reason
  pub is_explicit_supersede : Bool
  pub is_rule_melted : Bool

-- The condition of the branch that supersedes.
unfoldable pub supersedes : (Str → Str) → Str → Str → Evidence → Bool
unfolding can_supersede
supersedes lower incoming existing e =
    let same = str_eq incoming existing in
    let can_auto = can_supersede lower incoming existing e.is_explicit_supersede in
    let has_topic_match = leb warning_score e.best_score || same in
    e.is_explicit_supersede
    || e.is_rule_melted && can_auto && leb 700_000_000 e.incoming_conf && has_topic_match
    || e.is_user_explicit
      && leb e.conf_threshold e.incoming_conf
      && leb e.existing_conf e.incoming_conf
      && can_auto
      && (same || has_topic_match && is_revisable e.reason)

unfoldable pub decide : (Str → Str) → Str → Str → Evidence → Action
unfolding supersedes
decide lower incoming existing e =
    if not (str_eq incoming existing)
      && (is_multi_valued_slot lower (from_key lower incoming)
          || is_multi_valued_slot lower (from_key lower existing))
    then accept
    else if supersedes lower incoming existing e
    then supersede
    else if is_inversion e.reason || leb warning_score e.best_score
    then warn_conflict
    else accept
