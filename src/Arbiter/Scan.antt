-- ===== src/Arbiter/Scan.antt =====
-- `generate_candidates`: every stored item is compared with the write, and the candidates are
-- sorted by falling scores.
use atlas_memory.Prelude.{
  ◌+◌, Bool, true, false, not, ◌&&◌, ◌||◌, Option, none, some, List, [], ◌∷◌, leb, ltb,
  if◌then◌else◌, ◌>>=◌,
}
use atlas_memory.Prelude.Dict.{Dict}
use atlas_memory.Prelude.Text.{Str, codes, str_eq, occurs_in}
use atlas_memory.Prelude.Sorting.{sort_falling}
use atlas_memory.Arbiter.Lexicon.{Language}
use atlas_memory.Arbiter.Coordinate.{from_key}
use atlas_memory.Arbiter.Kernel.{belief_revision, is_multi_valued_slot}
use atlas_memory.Arbiter.Profile.{
  Profile, profile, skip_episodic, orthogonal, same_namespace, overlap_measures, has_topic_overlap,
  action_polarity_fallback, shared_prohib_of, consensus_agreement,
}
use atlas_memory.Arbiter.Detect.{Context, first_semantic_conflict, is_rule_key, base_cross_score}
use atlas_memory.Arbiter.Candidate.{
  Item, Candidate, Config, Write, Parsed, is_user_explicit, parse_existing_item, names_superseded,
  str_of, whole_key_candidate, confidence_inversion_candidate, explicit_marker_candidate,
}

-- The arbiter: the language, `is_entity_critical` of the active sensing engine (constantly `false`
-- without an engine), and the configuration.
pub record Arbiter : Type 0 where
  pub lang : Language
  pub is_entity_critical : Str → Bool
  pub config : Config

unfoldable pub is_melted : Arbiter → Str → Bool
unfolding is_rule_key from_key
is_melted arb ex_k =
    is_rule_key ex_k
    && (arb.is_entity_critical (from_key arb.lang.lower ex_k).entity_id
        || arb.is_entity_critical ex_k)

-- `val_str`
abbrev pub val_str : Arbiter → Write → Str
val_str arb w = elim w.claim [ none ↦ [] | some s ↦ arb.lang.lower s ]

abbrev pub handled_if_found : Option Candidate → Option (Option Candidate)
handled_if_found none = none
handled_if_found (some c) = some (some c)

-- `none` falls through to the comparison of different keys. A score of 95 for a belief revision.
unfoldable pub evaluate_same_key : Arbiter → Str → Parsed → Write → Option (Option Candidate)
unfolding confidence_inversion_candidate whole_key_candidate is_melted is_user_explicit
evaluate_same_key arb ex_k ex w =
    let melted = is_melted arb ex_k in
    if str_eq (arb.lang.lower ex.ex_val) (val_str arb w)
    then some (confidence_inversion_candidate ex_k ex w true)
    else if is_user_explicit arb.config w
          && leb arb.config.confidence_threshold w.confidence
          && leb ex.ex_conf w.confidence
        || melted && leb 700_000_000 w.confidence
    then some (some (whole_key_candidate belief_revision 135_000_000_000 ex_k ex w melted))
    else handled_if_found (confidence_inversion_candidate ex_k ex w false)

-- The answer when no guard of `_scan_cross_key` has returned.
unfoldable pub cross_candidate : Arbiter → Str → Parsed → Write → Bool → Context → Option Candidate
unfolding first_semantic_conflict base_cross_score
cross_candidate arb ex_k ex w melted ctx = first_semantic_conflict arb.lang.lower ctx >>= λ found.
    some record {
      key = ex_k;
      score = base_cross_score w.key ex_k ctx.same_ns melted ctx.overlap ex.ex_conf + found.bonus;
      reason = found.reason;
      conflict_type = found.conflict_type;
      conflicting_fact = ex.ex_val;
      incoming_claim = str_of w.claim;
      overlapping_terms = found.overlapping_terms;
      confidence = ex.ex_conf;
      is_rule_melted = ex.ex_melted || melted;
    }

unfoldable pub scan_cross_key : Arbiter → Str → Parsed → Write → Profile → Option Candidate
unfolding profile skip_episodic orthogonal is_multi_valued_slot same_namespace overlap_measures
    has_topic_overlap shared_prohib_of consensus_agreement action_polarity_fallback is_melted
    cross_candidate is_rule_key
scan_cross_key arb ex_k ex w incoming =
    let lower = arb.lang.lower in
    let exp = profile arb.lang ex_k (lower ex.ex_val) in
    let coord_in = from_key lower w.key in
    let coord_ex = from_key lower ex_k in
    let same_ns = same_namespace w.key ex_k coord_in coord_ex in
    let ov = overlap_measures lower incoming exp in
    let shared_prohib = shared_prohib_of lower incoming exp in
    let melted = is_melted arb ex_k in
    let ctx : Context = record {
      same_ns = same_ns;
      is_ex_rule = is_rule_key ex_k && not melted;
      overlap = ov;
      shared_prohib = shared_prohib;
      incoming = incoming;
      existing = exp;
    } in
    if skip_episodic ex_k
      || orthogonal incoming.env exp.env
      || not (str_eq ex_k w.key)
        && (is_multi_valued_slot lower coord_in || is_multi_valued_slot lower coord_ex)
      || orthogonal incoming.tools exp.tools && not same_ns
      || consensus_agreement incoming exp shared_prohib
      || not (has_topic_overlap ov same_ns) && not (action_polarity_fallback incoming exp)
    then none
    else cross_candidate arb ex_k ex w melted ctx

-- A score of 100 for a revision that the write asks for.
unfoldable pub scan_parsed : Arbiter → Str → Parsed → Write → Profile → Option Candidate
unfolding names_superseded whole_key_candidate evaluate_same_key scan_cross_key
scan_parsed arb ex_k ex w incoming =
    let cross = scan_cross_key arb ex_k ex w incoming in
    if names_superseded w.metadata ex_k
    then some (whole_key_candidate belief_revision 140_000_000_000 ex_k ex w false)
    else if str_eq ex_k w.key
    then elim (evaluate_same_key arb ex_k ex w) [ none ↦ cross | some handled ↦ handled ]
    else cross

unfoldable pub scan_existing_item : Arbiter → Str → Item → Write → Profile → Option Candidate
unfolding parse_existing_item scan_parsed
scan_existing_item arb ex_k item w incoming =
    parse_existing_item item >>= λ ex. scan_parsed arb ex_k ex w incoming

abbrev pub push_found : Option Candidate → List Candidate → List Candidate
push_found none cs = cs
push_found (some c) cs = c ∷ cs

unfoldable pub scan_items : Arbiter → Dict Item → Write → Profile → List Candidate
unfolding scan_existing_item
scan_items arb [] w incoming = []
scan_items arb ((ex_k, item) ∷ items) w incoming =
    push_found (scan_existing_item arb ex_k item w incoming) (scan_items arb items w incoming)

unfoldable pub has_marker : Arbiter → Write → Bool
unfolding occurs_in
has_marker arb w =
    occurs_in (codes "conflict") (arb.lang.lower w.key)
    || w.metadata.is_conflict_test
    || str_eq w.metadata.test_type (codes "conflict")

-- `candidates` before they are sorted.
unfoldable pub collect_candidates : Arbiter → Write → Dict Item → List Candidate
unfolding scan_items has_marker explicit_marker_candidate profile
collect_candidates arb w items =
    let found = scan_items arb items w (profile arb.lang w.key (val_str arb w)) in
    if has_marker arb w then explicit_marker_candidate arb.lang w ∷ found else found

abbrev pub scores_less : Candidate → Candidate → Bool
scores_less c d = ltb c.score d.score

unfoldable pub generate_candidates : Arbiter → Write → Dict Item → List Candidate
unfolding collect_candidates sort_falling
generate_candidates arb w items = sort_falling scores_less (collect_candidates arb w items)
