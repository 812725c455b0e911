-- ===== src/Arbiter/Tests.antt =====
-- Arbitrations over a small language: words between blanks, colons and underscores.
use atlas_memory.Prelude.{
  All, ℕ, ◌+◌, ◌≤◌, ◌≡◌, ◌≢◌, refl, ◌⊎◌, arith, Bool, true, false, not, ◌&&◌, ◌||◌, List, [], ◌∷◌,
  ◌++◌, some, none, leb, ◌==◌, if◌then◌else◌, map, keep_if,
}
use atlas_memory.Prelude.Dict.{Dict, listed}
use atlas_memory.Prelude.Text.{
  Str, codes, str_eq, is_empty, split, join, starts_with, ends_with, strip_space, strip_if,
  lstrip_if, is_space, occurs_in,
}
use atlas_memory.Prelude.Sorting.{insert_falling, sort_onto, sort_falling}
use atlas_memory.Arbiter.Lexicon.{
  Language, distinct, without, control_words, polish_stem, first_cut,
}
use atlas_memory.Arbiter.Coordinate.{from_key, of_parts, root_of, root_of_parts, entity_root}
use atlas_memory.Arbiter.Kernel.{
  semantic_contradiction, prohibition_contradiction, accept, is_multi_valued_slot, can_supersede,
  supersedes, decide,
}
use atlas_memory.Arbiter.Profile.{
  profile, skip_episodic, orthogonal, namespace_of, same_namespace, overlap_measures,
  has_topic_overlap, action_polarity_fallback, with_stem_in, shared_prohib_of, consensus_agreement,
}
use atlas_memory.Arbiter.Detect.{
  found_when, detect_exclusivity_collision, prohibited_overlap_of, detect_prohibition_contradiction,
  detect_capability_conflict, detect_exclusivity_violation, detect_polarity_contradiction,
  detectors, first_semantic_conflict, is_rule_key, base_cross_score,
}
use atlas_memory.Arbiter.Candidate.{
  Item, Candidate, Write, Parsed, is_user_explicit, parse_existing_item, names_superseded,
  whole_key_candidate, confidence_inversion_candidate, explicit_marker_candidate,
}
use atlas_memory.Arbiter.Scan.{
  collect_candidates, Arbiter, val_str, is_melted, evaluate_same_key, cross_candidate,
  scan_cross_key, scan_parsed, scan_existing_item, scan_items, has_marker, collect_candidates,
  generate_candidates,
}
use atlas_memory.Arbiter.Arbitrate.{is_explicit_supersede, evidence, answer, arbitrate}
use atlas_memory.Arbiter.Ranking.{incoming_profile}
use atlas_memory.Arbiter.Safety.{SameEntity, supersede_within_entity}
use atlas_memory.Arbiter.Fatigue.{Among, deserves_warning, warning_deserved}
use atlas_memory.Arbiter.Established.{established_fact_reported, namespace_conflict_reported}

program : Unit {0}
unfolding str_eq split join starts_with ends_with strip_space strip_if lstrip_if is_space occurs_in
    insert_falling sort_onto sort_falling polish_stem first_cut from_key of_parts root_of
    root_of_parts entity_root is_multi_valued_slot can_supersede supersedes decide profile
    skip_episodic orthogonal namespace_of same_namespace overlap_measures has_topic_overlap
    action_polarity_fallback with_stem_in shared_prohib_of consensus_agreement found_when
    detect_exclusivity_collision prohibited_overlap_of detect_prohibition_contradiction
    detect_capability_conflict detect_exclusivity_violation detect_polarity_contradiction detectors
    first_semantic_conflict is_rule_key base_cross_score is_user_explicit parse_existing_item
    names_superseded whole_key_candidate confidence_inversion_candidate explicit_marker_candidate
    is_melted evaluate_same_key cross_candidate scan_cross_key scan_parsed scan_existing_item
    scan_items has_marker collect_candidates generate_candidates is_explicit_supersede evidence
    answer arbitrate incoming_profile
program = tt

abbrev words : Str → List Str
words s =
    distinct (
      keep_if (λ p. not (is_empty p))
        (split 32 (map (λ c. if c == 58 || c == 95 then 32 else c) s)))

abbrev lang : Language
lang = record {
  lower = map (λ c. if leb 65 c && leb c 90 then c + 32 else c);
  extract_tokens = words;
  extract_prohibited_terms =
      λ s. if listed (codes "never") (words s) then without (words s) control_words else [];
  extract_exclusive_target = λ s. [];
  developer_tools = codes "git" ∷ codes "docker" ∷ [];
}

-- The thresholds that the source takes by default: 0.95, and a score of 35.
abbrev arbiter : Arbiter
arbiter = record {
  lang = lang;
  is_entity_critical = λ k. false;
  config = record { confidence_threshold = 950_000_000; high_score_threshold = 75_000_000_000 };
}

abbrev stored : Str → ℕ → Bool → Item
stored v c gone = record {
  is_dict = true;
  value = some v;
  val = none;
  object = none;
  confidence = some c;
  is_superseded = gone;
  meta_is_superseded = false;
  meta_superseded = false;
  meta_source_type = [];
  meta_source = [];
  meta_is_rule_melted = false;
}

abbrev written : Str → Str → ℕ → Write
written k v c = record {
  key = k;
  claim = some v;
  confidence = c;
  metadata = record {
    source_type = [];
    source = [];
    supersedes = none;
    is_belief_revision = false;
    action = [];
    is_rule_melted = false;
    is_conflict_test = false;
    test_type = [];
  };
}

abbrev rule_key : Str
rule_key = codes "svc:db:deploy"

abbrev rule_item : Item
rule_item = stored (codes "never push secrets") 800_000_000 false

abbrev others : Dict Item
others = (codes "svc:web:port", stored (codes "8080") 1_000_000_000 false) ∷ []

abbrev items : Dict Item
items = others ++ ((rule_key, rule_item) ∷ [])

-- A confident user write against a rule of its own entity.
abbrev push_secrets : Write
push_secrets = written (codes "svc:db:ops") (codes "push secrets") 990_000_000

revises : (arbitrate arbiter push_secrets items).superseded_key ≡ some rule_key
unfolding program
revises = refl

supersede_within_entity_example :
    (push_secrets.key ≡ rule_key) ⊎ SameEntity lang.lower push_secrets.key rule_key
unfolding str_eq names_superseded
supersede_within_entity_example =
    supersede_within_entity arbiter push_secrets items rule_key revises refl refl refl

-- With less confidence the same claim is a warning.
abbrev unsure_push : Write
unsure_push = written (codes "svc:db:ops") (codes "push secrets") 600_000_000

warns : (arbitrate arbiter unsure_push items).warning ≡ true
unfolding program
warns = refl

warning_deserved_example :
    (c : Candidate) × ((arbitrate arbiter unsure_push items).conflicting_key ≡ some c.key)
    × (deserves_warning arbiter c ≡ true)
    × Among c (collect_candidates arbiter unsure_push items)
    × All (λ d. d.score ≤ c.score) (collect_candidates arbiter unsure_push items)
warning_deserved_example = warning_deserved arbiter unsure_push items warns

abbrev rule_fact : Parsed
rule_fact = record {
  ex_val = codes "never push secrets";
  ex_conf = 800_000_000;
  ex_source = [];
  ex_melted = false;
}

parses_rule : parse_existing_item rule_item ≡ some rule_fact
unfolding program
parses_rule = refl

keys_differ : rule_key ≢ unsure_push.key
keys_differ h = cc

shares_namespace :
    same_namespace unsure_push.key rule_key
      (from_key lang.lower unsure_push.key)
      (from_key lang.lower rule_key)
    ≡ true
unfolding program
shares_namespace = refl

-- 50 for the namespace, 30 for each of four shared words, 4 for the confidence, and 35 of the
-- detector.
abbrev conflict_found : Candidate
conflict_found = record {
  key = rule_key;
  score = 249_000_000_000;
  reason = semantic_contradiction;
  conflict_type = prohibition_contradiction;
  conflicting_fact = codes "never push secrets";
  incoming_claim = codes "push secrets";
  overlapping_terms = map codes ("svc" ∷ "db" ∷ "push" ∷ "secrets" ∷ []);
  confidence = 800_000_000;
  is_rule_melted = false;
}

finds_conflict :
    scan_cross_key arbiter rule_key rule_fact unsure_push (incoming_profile arbiter unsure_push)
    ≡ some conflict_found
unfolding program
finds_conflict = refl

namespace_conflict_reported_example : (arbitrate arbiter unsure_push items).action ≢ accept
namespace_conflict_reported_example =
    namespace_conflict_reported arbiter unsure_push others rule_key rule_item [] rule_fact
      conflict_found (omega arith) parses_rule keys_differ shares_namespace finds_conflict

-- An established value, and another with less confidence.
abbrev mode_key : Str
mode_key = codes "svc:db:mode"

abbrev mode_item : Item
mode_item = stored (codes "primary") 950_000_000 false

abbrev mode_fact : Parsed
mode_fact = record {
  ex_val = codes "primary";
  ex_conf = 950_000_000;
  ex_source = [];
  ex_melted = false;
}

parses_mode : parse_existing_item mode_item ≡ some mode_fact
unfolding program
parses_mode = refl

abbrev replica : Write
replica = written mode_key (codes "replica") 500_000_000

values_differ : str_eq (lang.lower mode_fact.ex_val) (val_str arbiter replica) ≡ false
unfolding str_eq
values_differ = refl

established_fact_reported_example :
    (arbitrate arbiter replica (others ++ ((mode_key, mode_item) ∷ []))).action ≢ accept
established_fact_reported_example =
    established_fact_reported arbiter replica others mode_item [] mode_fact (omega arith)
      parses_mode values_differ (omega arith) (omega arith)

-- A key that carries the marker is reported as a revision of itself: the write is a confident
-- one, and the marker's candidate has its key and its confidence.
marker_revises :
    (arbitrate arbiter
      (written (codes "conflict:probe") (codes "a") 990_000_000)
      others).superseded_key
    ≡ some (codes "conflict:probe")
unfolding program
marker_revises = refl
