-- ===== src/Shadow/Reconcile.antt =====
-- `shadow_reconcile`: the extracted facts are checked, arbitrated and committed one by one.
use atlas_memory.Prelude.{
  ℕ, Bool, true, false, not, ◌&&◌, ◌||◌, Option, none, some, List, [], ◌∷◌, leb, if◌then◌else◌,
}
use atlas_memory.Prelude.Text.{Str, is_empty, strip_space}
use atlas_memory.Arbiter.Kernel.{Action, accept, supersede, warn_conflict}
use atlas_memory.Arbiter.Candidate.{Write}
use atlas_memory.Arbiter.Scan.{Arbiter}
use atlas_memory.Arbiter.Arbitrate.{arbitrate}
use atlas_memory.Shadow.Record.{
  EpistemicSource, user_explicit, shadow_inference, source_value, source_of, SpeechAct,
  conversational_turn, epistemic_assertion, classify_speech_act, sanitize_epistemic_text,
  pending_arbitration, arbitration_promoted, MemoryRecord,
}

-- An entry that should be a text; of anything else `.strip()` raises.
pub data Field : Type 0 where
  text : Str → Field
  no_text : Field

-- The entry `source_type`; a list or a dictionary cannot be looked up, which raises.
pub data Claimed : Type 0 where
  claimed : Option Str → Claimed
  unhashable : Claimed

-- The entry `confidence`: not negative, in billionths; a number that is negative or none, as NaN is;
-- or what `float` raises on.
pub data Confidence : Type 0 where
  number : ℕ → Confidence
  below_zero : Confidence
  unreadable : Confidence

-- An extracted fact, a dictionary; a missing text is the empty one. `object` is the text that `str`
-- makes of the entry. What is no dictionary raises where a subject that is no text does.
pub record RawFact : Type 0 where
  pub subject : Field
  pub predicate : Field
  pub object : Str
  pub source_type : Claimed
  pub confidence : Option Confidence
  pub is_state_variable : Bool

-- What the reconciliation calls: the canonicalizer, the test of a first word, the rule-based
-- extractor (regular expressions), the arbiter, and the two writes with the state they write to.
-- A write that fails is logged, so it is a function of the state; without a client or an engine it
-- is the identity.
pub record Outside (W : Type 0) : Type 0 where
  pub canonicalize : Str → Str
  pub conversational_head : Str → Bool
  pub fallback_extract_facts : Str → Str → List RawFact
  pub arbiter : Arbiter
  pub triple_add : Str → Str → Str → ℕ → EpistemicSource → W → W
  pub commit_observation : MemoryRecord → W → W

abbrev pub demoted : EpistemicSource → EpistemicSource
demoted user_explicit = shadow_inference
demoted s = s

abbrev pub demoted_or_shadow : Option EpistemicSource → EpistemicSource
demoted_or_shadow none = shadow_inference
demoted_or_shadow (some s) = demoted s

-- `st`: an unknown source, and a claim to speak for the user, become the shadow's own.
unfoldable pub shadow_source : Option Str → EpistemicSource
unfolding source_of
shadow_source none = shadow_inference
shadow_source (some v) = demoted_or_shadow (source_of v)

abbrev or_text : Str → Str → Str
or_text s t = if is_empty s then t else s

-- The write that the arbiter judges, with no stored items beside it.
unfoldable pub shadow_write : Str → MemoryRecord → Write
shadow_write raw_s r = record {
  key = or_text r.canonical_entity_id raw_s;
  claim = some r.object;
  confidence = r.confidence;
  metadata = record {
    source_type = source_value r.source_type;
    source = [];
    supersedes = none;
    is_belief_revision = false;
    action = [];
    is_rule_melted = false;
    is_conflict_test = false;
    test_type = [];
  };
}

abbrev pub settles : Action → Bool
settles accept = true
settles supersede = true
settles warn_conflict = false

-- What a verdict does to a state variable.
unfoldable pub gated : Bool → Action → MemoryRecord → MemoryRecord
gated promoted action r =
    if not r.is_state_variable
    then r
    else if promoted
    then record r { shadow_arbitration = some action; shadow_promotion = some arbitration_promoted }
    else record r {
      shadow_arbitration = some action;
      shadow_promotion = some pending_arbitration;
      is_state_variable = false;
    }

-- The gate for state variables. The arbiter of the model answers always, and never with one of the
-- actions `reject`, `reject_conflict` and `block`.
unfoldable pub arbitrated : Arbiter → Str → MemoryRecord → MemoryRecord
unfolding arbitrate shadow_write gated
arbitrated arb raw_s r =
    let res = arbitrate arb (shadow_write raw_s r) [] in
    gated (not res.is_conflict && settles res.action) res.action r

-- One fact: passed over, made a record next to its predicate and object, or refused by an exception.
pub data Made : Type 0 where
  passed_over : Made
  made : MemoryRecord → Str → Str → Made
  refused : Made

-- The model of the record wants a confidence from zero to one; no answer where it or `float` raises.
abbrev pub full_confidence : Option Confidence → Option ℕ
full_confidence none = some 1_000_000_000
full_confidence (some (number c)) = if leb c 1_000_000_000 then some c else none
full_confidence (some below_zero) = none
full_confidence (some unreadable) = none

abbrev pub if_asserted : SpeechAct → Made → Made
if_asserted conversational_turn m = passed_over
if_asserted epistemic_assertion m = m

-- What is made of entries that can be read.
abbrev pub with_texts : Field → Field → (Str → Str → Made) → Made
with_texts (text s) (text p) f = f s p
with_texts (text s) no_text f = refused
with_texts no_text p f = refused

abbrev pub with_source : Claimed → (EpistemicSource → Made) → Made
with_source (claimed v) f = f (shadow_source v)
with_source unhashable f = refused

abbrev pub with_confidence : Option ℕ → (ℕ → Made) → Made
with_confidence none f = refused
with_confidence (some c) f = f c

-- The record is made only of an assertion, so a confidence that raises does so behind that test.
unfoldable pub record_of : {W : Type 0} → Outside W → Str → ℕ → RawFact → Str → Str → Made
unfolding strip_space classify_speech_act sanitize_epistemic_text shadow_source arbitrated
record_of o session_id now it subject predicate =
    let raw_s = strip_space subject in
    let pred = strip_space predicate in
    let obj = strip_space it.object in
    let act = classify_speech_act o.conversational_head raw_s pred obj in
    if is_empty raw_s || is_empty pred || is_empty obj
    then passed_over
    else with_source it.source_type (λ st. if_asserted act (
        with_confidence (full_confidence it.confidence) (λ conf.
          made
            (arbitrated o.arbiter raw_s (record {
              subject = sanitize_epistemic_text raw_s;
              canonical_entity_id = o.canonicalize raw_s;
              predicate = sanitize_epistemic_text pred;
              object = sanitize_epistemic_text obj;
              confidence = conf;
              source_type = st;
              timestamp = now;
              is_state_variable = it.is_state_variable;
              source_session_id = session_id;
              speech_act = act;
              shadow_arbitration = none;
              shadow_promotion = none;
            }))
            pred obj)))

unfoldable pub make_record : {W : Type 0} → Outside W → Str → ℕ → RawFact → Made
unfolding record_of
make_record o session_id now it = with_texts it.subject it.predicate (record_of o session_id now it)

-- The state and the committed records, or an exception behind some of the writes.
pub data Reconciled (W : Type 0) : Type 0 where
  reconciled : List MemoryRecord → W → Reconciled W
  raised : W → Reconciled W

abbrev pub kept_first : {W : Type 0} → MemoryRecord → Reconciled W → Reconciled W
kept_first r (reconciled rs w) = reconciled (r ∷ rs) w
kept_first r (raised w) = raised w

unfoldable pub commit_all : {W : Type 0} → Outside W → Str → ℕ → List RawFact → W → Reconciled W
unfolding make_record
commit_all o session_id now [] w = reconciled [] w
commit_all o session_id now (it ∷ facts) w = elim (make_record o session_id now it) [
  | passed_over ↦ commit_all o session_id now facts w
  | made r pred obj ↦ kept_first r (
      commit_all o session_id now facts (
        o.commit_observation r
          (o.triple_add r.canonical_entity_id pred obj r.confidence r.source_type w)))
  | refused ↦ raised w
]

abbrev pub or_facts : List RawFact → List RawFact → List RawFact
or_facts [] ys = ys
or_facts (x ∷ xs) ys = x ∷ xs

-- `raw` is what the registered extractor gave, `[]` when it raised or there is none.
unfoldable pub shadow_reconcile :
    {W : Type 0} → Outside W → Str → Str → Str → ℕ → List RawFact → W → Reconciled W
unfolding commit_all
shadow_reconcile o user_msg agent_response session_id now raw w =
    commit_all o session_id now (or_facts raw (o.fallback_extract_facts user_msg agent_response)) w
