-- ===== src/Arbiter/Arbitrate.antt =====
-- `arbitrate`: what is done with a write, from its best candidate. The messages, the details of a
-- conflict and the dump of the candidates are left out.
use atlas_memory.Prelude.{
  Bool, true, false, ◌||◌, Option, none, some, List, [], ◌∷◌, leb, if◌then◌else◌,
}
use atlas_memory.Prelude.Dict.{Dict}
use atlas_memory.Prelude.Text.{Str, codes, str_eq}
use atlas_memory.Arbiter.Kernel.{
  Reason, explicit_conflict_marker, belief_revision, exclusivity_collision, is_inversion,
  is_revision, Action, accept, warn_conflict, supersede, Evidence, decide,
}
use atlas_memory.Arbiter.Candidate.{Item, Candidate, Write, is_user_explicit, names_superseded}
use atlas_memory.Arbiter.Scan.{Arbiter, generate_candidates}

pub record Result : Type 0 where
  pub is_conflict : Bool
  pub is_belief_revision : Bool
  pub action : Action
  pub superseded_key : Option Str
  pub conflicting_key : Option Str
  pub reason : Option Reason
  -- `"epistemic_conflict"`, or no warning.
  pub warning : Bool
  pub candidates : List Candidate
  pub best_candidate : Option Candidate

-- The reasons that are reported whatever the score.
abbrev pub is_always_reported : Reason → Bool
is_always_reported explicit_conflict_marker = true
is_always_reported exclusivity_collision = true
is_always_reported _ = false

unfoldable pub is_explicit_supersede : Write → Candidate → Bool
unfolding names_superseded
is_explicit_supersede w best =
    is_revision best.reason
    || names_superseded w.metadata best.key
    || w.metadata.is_belief_revision
    || str_eq w.metadata.action (codes "supersede")

unfoldable pub evidence : Arbiter → Write → Candidate → Evidence
unfolding is_user_explicit is_explicit_supersede
evidence arb w best = record {
  is_user_explicit = is_user_explicit arb.config w;
  incoming_conf = w.confidence;
  existing_conf = best.confidence;
  conf_threshold = arb.config.confidence_threshold;
  best_score = best.score;
  reason = best.reason;
  is_explicit_supersede = is_explicit_supersede w best;
  is_rule_melted = best.is_rule_melted || w.metadata.is_rule_melted;
}

abbrev pub is_supersede : Action → Bool
is_supersede supersede = true
is_supersede _ = false

abbrev pub revision_result : Candidate → List Candidate → Result
revision_result best candidates = record {
  is_conflict = false;
  is_belief_revision = true;
  action = supersede;
  superseded_key = some best.key;
  conflicting_key = some best.key;
  reason = some belief_revision;
  warning = false;
  candidates = candidates;
  best_candidate = some best;
}

-- A warning that names the candidate.
abbrev pub conflict_result : Candidate → List Candidate → Result
conflict_result best candidates = record {
  is_conflict = true;
  is_belief_revision = false;
  action = warn_conflict;
  superseded_key = none;
  conflicting_key = some best.key;
  reason = some best.reason;
  warning = true;
  candidates = candidates;
  best_candidate = some best;
}

-- An overlap that is kept without a warning.
abbrev pub overlap_result : Candidate → List Candidate → Result
overlap_result best candidates = record {
  is_conflict = false;
  is_belief_revision = false;
  action = accept;
  superseded_key = none;
  conflicting_key = none;
  reason = some best.reason;
  warning = false;
  candidates = candidates;
  best_candidate = some best;
}

unfoldable pub answer : Arbiter → Write → List Candidate → Result
unfolding evidence decide
answer arb w [] = record {
  is_conflict = false;
  is_belief_revision = false;
  action = accept;
  superseded_key = none;
  conflicting_key = none;
  reason = none;
  warning = false;
  candidates = [];
  best_candidate = none;
}
answer arb w (best ∷ rest) =
    if is_supersede (decide arb.lang.lower w.key best.key (evidence arb w best))
    then revision_result best (best ∷ rest)
    else if is_inversion best.reason
    then conflict_result best (best ∷ rest)
    else if leb arb.config.high_score_threshold best.score || is_always_reported best.reason
    then conflict_result best (best ∷ rest)
    else overlap_result best (best ∷ rest)

unfoldable pub arbitrate : Arbiter → Write → Dict Item → Result
unfolding generate_candidates answer
arbitrate arb w items = answer arb w (generate_candidates arb w items)
