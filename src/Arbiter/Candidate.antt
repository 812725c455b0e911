-- ===== src/Arbiter/Candidate.antt =====
-- The metadata, the stored items and the candidates of `ConflictArbiter`. The messages of the
-- candidates are left out. Confidences and scores are billionths, scores from forty below zero.
use atlas_memory.Prelude.{
  ℕ, ◌+◌, Bool, false, not, ◌&&◌, ◌||◌, Option, none, some, List, [], ◌∷◌, leb, ltb, if◌then◌else◌,
}
use atlas_memory.Prelude.Text.{Str, codes, str_eq, is_empty}
use atlas_memory.Arbiter.Lexicon.{Language}
use atlas_memory.Arbiter.Kernel.{Reason, explicit_conflict_marker, confidence_inversion}

-- `metadata` of a write, a missing text read as the empty one.
pub record Metadata : Type 0 where
  pub source_type : Str
  pub source : Str
  pub supersedes : Option Str
  pub is_belief_revision : Bool
  pub action : Str
  pub is_rule_melted : Bool
  pub is_conflict_test : Bool
  pub test_type : Str

-- A stored item, as `existing_items` has it: a dictionary (`is_dict`) or an object. `object` is
-- the entry or attribute of that name; a value is there as its text.
pub record Item : Type 0 where
  pub is_dict : Bool
  pub value : Option Str
  pub val : Option Str
  pub object : Option Str
  pub confidence : Option ℕ
  pub is_superseded : Bool
  pub meta_is_superseded : Bool
  pub meta_superseded : Bool
  pub meta_source_type : Str
  pub meta_source : Str
  pub meta_is_rule_melted : Bool

pub record Candidate : Type 0 where
  pub key : Str
  pub score : ℕ
  pub reason : Reason
  pub conflict_type : Reason
  pub conflicting_fact : Str
  pub incoming_claim : Str
  pub overlapping_terms : List Str
  pub confidence : ℕ
  pub is_rule_melted : Bool

-- `config`; the score threshold is counted from forty below zero, as the scores are.
pub record Config : Type 0 where
  pub confidence_threshold : ℕ
  pub high_score_threshold : ℕ

-- What an arbitration is given besides the stored items. `claim` is the value, `none` for `None`.
pub record Write : Type 0 where
  pub key : Str
  pub claim : Option Str
  pub confidence : ℕ
  pub metadata : Metadata

abbrev or_text : Str → Str → Str
or_text s t = if is_empty s then t else s

abbrev text_or : Option Str → Str → Str
text_or none t = t
text_or (some s) t = s

-- `str(val)`
abbrev pub str_of : Option Str → Str
str_of none = codes "None"
str_of (some s) = s

unfoldable pub is_user_explicit : Config → Write → Bool
is_user_explicit config w =
    let source_type =
      or_text w.metadata.source_type (or_text w.metadata.source (codes "user_explicit")) in
    str_eq source_type (codes "user_explicit")
    || leb config.confidence_threshold w.confidence
      && not (str_eq source_type (codes "agent_inference"))

-- `ex_val`, `ex_conf` and what is read of `ex_meta`.
pub record Parsed : Type 0 where
  pub ex_val : Str
  pub ex_conf : ℕ
  pub ex_source : Str
  pub ex_melted : Bool

abbrev full_confidence : Option ℕ → ℕ
full_confidence none = 1_000_000_000
full_confidence (some c) = c

abbrev pub superseded : Item → Bool
superseded item = item.is_superseded || item.meta_is_superseded || item.meta_superseded

unfoldable pub parse_existing_item : Item → Option Parsed
parse_existing_item item =
    if superseded item
    then none
    else some record {
      ex_val =
          if item.is_dict
          then or_text (text_or item.value [])
              (or_text (text_or item.val []) (text_or item.object []))
          else text_or item.value (text_or item.object []);
      ex_conf = full_confidence item.confidence;
      ex_source = or_text item.meta_source_type item.meta_source;
      ex_melted = item.meta_is_rule_melted;
    }

-- `metadata.get("supersedes") == k`
unfoldable pub names_superseded : Metadata → Str → Bool
names_superseded m k = elim m.supersedes [ none ↦ false | some j ↦ str_eq j k ]

-- The candidates that quote the whole key of the stored item.
unfoldable pub whole_key_candidate : Reason → ℕ → Str → Parsed → Write → Bool → Candidate
whole_key_candidate reason score ex_k ex w melted = record {
  key = ex_k;
  score = score;
  reason = reason;
  conflict_type = reason;
  conflicting_fact = ex.ex_val;
  incoming_claim = str_of w.claim;
  overlapping_terms = ex_k ∷ [];
  confidence = ex.ex_conf;
  is_rule_melted = ex.ex_melted || melted;
}

-- A score of 90; the drop of 0.20 is 200 million billionths.
unfoldable pub confidence_inversion_candidate : Str → Parsed → Write → Bool → Option Candidate
unfolding whole_key_candidate
confidence_inversion_candidate ex_k ex w same_value =
    let min_drop = if same_value then 200_000_000 else 0 in
    if (leb 900_000_000 ex.ex_conf || str_eq ex.ex_source (codes "user_explicit"))
      && ltb (w.confidence + min_drop) ex.ex_conf
    then some (whole_key_candidate confidence_inversion 130_000_000_000 ex_k ex w false)
    else none

-- A score of 100. The key is the one written, not a stored one.
unfoldable pub explicit_marker_candidate : Language → Write → Candidate
explicit_marker_candidate lang w = record {
  key = w.key;
  score = 140_000_000_000;
  reason = explicit_conflict_marker;
  conflict_type = explicit_conflict_marker;
  conflicting_fact = elim w.claim [ none ↦ [] | some s ↦ lang.lower s ];
  incoming_claim = str_of w.claim;
  overlapping_terms = w.key ∷ [];
  confidence = w.confidence;
  is_rule_melted = false;
}
