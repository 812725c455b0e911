-- ===== src/Arbiter/Detect.antt =====
-- The five detectors of `_first_semantic_conflict`, in their order, and the base of a score
-- (`_base_cross_score`). Scores are billionths, counted from forty below zero.
use atlas_memory.Prelude.{
  ℕ, ◌+◌, ◌*◌, Bool, not, ◌&&◌, ◌||◌, Option, none, some, List, [], ◌∷◌, map, leb, if◌then◌else◌,
  length, any_of,
}
use atlas_memory.Prelude.Dict.{listed}
use atlas_memory.Prelude.Text.{Str, codes, starts_with}
use atlas_memory.Arbiter.Lexicon.{without, common, union, some_word}
use atlas_memory.Arbiter.Profile.{Profile, Overlap, with_stem_in}
use atlas_memory.Arbiter.Kernel.{
  Reason, exclusivity_collision, exclusivity_violation, semantic_contradiction,
  prohibition_contradiction,
}

-- The entries of `ctx` that the detectors read.
pub record Context : Type 0 where
  pub same_ns : Bool
  pub is_ex_rule : Bool
  pub overlap : Overlap
  pub shared_prohib : List Str
  pub incoming : Profile
  pub existing : Profile

-- What a detector finds; `bonus` is in billionths. The fact and the claim are the two values,
-- for every detector.
pub record Conflict : Type 0 where
  pub reason : Reason
  pub conflict_type : Reason
  pub overlapping_terms : List Str
  pub bonus : ℕ

unfoldable pub found_when : Bool → Conflict → Option Conflict
found_when b f = if b then some f else none

-- `a or b` on sets.
abbrev or_else : List Str → List Str → List Str
or_else [] ys = ys
or_else (x ∷ xs) ys = x ∷ xs

unfoldable pub detect_exclusivity_collision : Context → Option Conflict
unfolding found_when
detect_exclusivity_collision ctx =
    let in_ = ctx.incoming in
    let ex = ctx.existing in
    let ov = ctx.overlap in
    let actions_match = some_word (common in_.gov_actions ex.gov_actions) in
    let targets_differ =
      some_word in_.excl_targets
      && some_word ex.excl_targets
      && not (some_word (common in_.excl_targets ex.excl_targets)) in
    let differing =
      union (without in_.specific_tokens ex.specific_tokens)
        (without ex.specific_tokens in_.specific_tokens) in
    let near = ctx.same_ns || some_word ov.specific_overlap || some_word ov.stem_overlap in
    found_when
      (in_.has_excl
        && ex.has_excl
        && (actions_match && targets_differ || some_word differing && near))
      record {
        reason = exclusivity_collision;
        conflict_type = exclusivity_collision;
        overlapping_terms = or_else ov.token_overlap (or_else ov.stem_overlap in_.excl_targets);
        bonus = 40_000_000_000;
      }

abbrev action_words : List Str
action_words = map codes (
    "push" ∷ "commit" ∷ "zapis" ∷ "edit" ∷ "edycja" ∷ "bezpośrednio" ∷ "bezpośredni" ∷ "delete"
    ∷ "remove" ∷ "drop" ∷ "root" ∷ "hasło" ∷ "hasła" ∷ "secret" ∷ "secrets" ∷ [])

-- The specific words of one side that the other prohibits, less what both prohibit.
unfoldable pub prohibited_overlap_of : (Str → Str) → Profile → Profile → List Str → List Str
unfolding with_stem_in
prohibited_overlap_of lower speaker forbidder shared =
    without
      (union (common speaker.specific_tokens forbidder.prohibited)
        (with_stem_in lower forbidder.prohib_stems speaker.specific_tokens))
      shared

unfoldable pub detect_prohibition_contradiction : (Str → Str) → Context → Option Conflict
unfolding found_when prohibited_overlap_of
detect_prohibition_contradiction lower ctx =
    let in_ = ctx.incoming in
    let ex = ctx.existing in
    let prohibited_overlap = prohibited_overlap_of lower in_ ex ctx.shared_prohib in
    let has_action_in_prohib = any_of (λ t. listed t prohibited_overlap) action_words in
    let near = leb 2 (length prohibited_overlap) || has_action_in_prohib || ctx.same_ns in
    found_when (ex.has_prohib && not in_.has_prohib && (some_word prohibited_overlap && near))
      record {
        reason = semantic_contradiction;
        conflict_type = prohibition_contradiction;
        overlapping_terms = prohibited_overlap;
        bonus = 35_000_000_000;
      }

unfoldable pub detect_capability_conflict : (Str → Str) → Context → Option Conflict
unfolding found_when prohibited_overlap_of
detect_capability_conflict lower ctx =
    let in_ = ctx.incoming in
    let ex = ctx.existing in
    let prohibited_overlap = prohibited_overlap_of lower ex in_ ctx.shared_prohib in
    let near = ctx.is_ex_rule || some_word ctx.overlap.specific_overlap || ctx.same_ns in
    found_when
      (in_.has_prohib && not ex.has_prohib && ex.has_aff && (some_word prohibited_overlap && near))
      record {
        reason = semantic_contradiction;
        conflict_type = prohibition_contradiction;
        overlapping_terms = prohibited_overlap;
        bonus = 30_000_000_000;
      }

unfoldable pub detect_exclusivity_violation : (Str → Str) → Context → Option Conflict
unfolding found_when with_stem_in
detect_exclusivity_violation lower ctx =
    let in_ = ctx.incoming in
    let ex = ctx.existing in
    let ov = ctx.overlap in
    let near =
      some_word (common in_.gov_actions ex.gov_actions)
      || ctx.same_ns && some_word ov.specific_overlap in
    let authorized_targets =
      without (without ex.topic_tokens (with_stem_in lower ov.stem_overlap ex.topic_tokens))
        ex.prohibited in
    let incoming_targets = without in_.tokens (with_stem_in lower ov.stem_overlap in_.tokens) in
    let violates =
      some_word incoming_targets && not (some_word (common incoming_targets authorized_targets))
      || some_word (common in_.tokens ex.prohibited) in
    found_when (ex.has_excl && not in_.has_excl && near && violates) record {
      reason = exclusivity_violation;
      conflict_type = exclusivity_violation;
      overlapping_terms = or_else ov.token_overlap ov.stem_overlap;
      bonus = 35_000_000_000;
    }

unfoldable pub detect_polarity_contradiction : Context → Option Conflict
unfolding found_when
detect_polarity_contradiction ctx =
    let in_ = ctx.incoming in
    let ex = ctx.existing in
    let ov = ctx.overlap in
    let negates_established = in_.has_prohib && ex.has_aff && not ex.has_prohib in
    let negates_incoming = in_.has_aff && ex.has_prohib && not in_.has_prohib in
    let near =
      leb 2 (length ov.specific_overlap) || ctx.same_ns && leb 2 (length ov.token_overlap) in
    found_when ((negates_established || negates_incoming) && near) record {
      reason = semantic_contradiction;
      conflict_type = semantic_contradiction;
      overlapping_terms = or_else ov.token_overlap ov.stem_overlap;
      bonus = 25_000_000_000;
    }

-- The first of several answers.
abbrev pub first_found {ℓ} : {A : Type ℓ} → List (Option A) → Option A
first_found [] = none
first_found (none ∷ later) = first_found later
first_found (some a ∷ later) = some a

unfoldable pub detectors : (Str → Str) → Context → List (Option Conflict)
unfolding detect_exclusivity_collision detect_prohibition_contradiction detect_capability_conflict
    detect_exclusivity_violation detect_polarity_contradiction
detectors lower ctx =
    detect_exclusivity_collision ctx
    ∷ detect_prohibition_contradiction lower ctx
    ∷ detect_capability_conflict lower ctx
    ∷ detect_exclusivity_violation lower ctx
    ∷ detect_polarity_contradiction ctx
    ∷ []

unfoldable pub first_semantic_conflict : (Str → Str) → Context → Option Conflict
unfolding detectors
first_semantic_conflict lower ctx = first_found (detectors lower ctx)

abbrev rule_prefixes : List Str
rule_prefixes = map codes ("rule:" ∷ "user_rule:" ∷ "preference:" ∷ "constraint:" ∷ [])

unfoldable pub is_rule_key : Str → Bool
unfolding starts_with
is_rule_key key = any_of (starts_with key) rule_prefixes

-- Confidences are billionths, so five times one is in billionths too.
unfoldable pub base_cross_score : Str → Str → Bool → Bool → Overlap → ℕ → ℕ
unfolding is_rule_key
base_cross_score key ex_k same_ns is_rule_melted ov ex_conf =
    let is_ex_rule = is_rule_key ex_k && not is_rule_melted in
    (if starts_with ex_k (codes "mnemosyne:") then 0 else 40_000_000_000)
    + (if same_ns then 50_000_000_000 else 0)
    + (if is_rule_key key && is_ex_rule
        then 35_000_000_000
        else if is_ex_rule
        then 15_000_000_000
        else if is_rule_melted
        then 25_000_000_000
        else 0)
    + 15_000_000_000 * length ov.specific_overlap
    + 10_000_000_000 * length ov.specific_stem_overlap
    + 5_000_000_000 * length ov.token_overlap
    + 5 * ex_conf
