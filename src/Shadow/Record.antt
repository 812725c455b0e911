-- ===== src/Shadow/Record.antt =====
-- `MemoryRecord` of core/models.py with its provenance and its speech act, and the rule on who may
-- write a state variable.
use atlas_memory.Prelude.{
  ℕ, Bool, true, false, not, ◌&&◌, ◌||◌, Option, none, some, List, [], ◌∷◌, ◌++◌, leb, ◌==◌,
  if◌then◌else◌, any_of, keep_if,
}
use atlas_memory.Prelude.Text.{Str, codes, str_eq, is_empty}
use atlas_memory.Arbiter.Kernel.{Action}

pub data EpistemicSource : Type 0 where
  user_explicit : EpistemicSource
  tool_output : EpistemicSource
  agent_inference : EpistemicSource
  shadow_inference : EpistemicSource
  external_doc : EpistemicSource
  sensor_observation : EpistemicSource
  crdt_sync : EpistemicSource
  hot_buffer : EpistemicSource

-- `.value`
abbrev pub source_value : EpistemicSource → Str
source_value user_explicit = codes "user_explicit"
source_value tool_output = codes "tool_output"
source_value agent_inference = codes "agent_inference"
source_value shadow_inference = codes "shadow_inference"
source_value external_doc = codes "external_doc"
source_value sensor_observation = codes "sensor_observation"
source_value crdt_sync = codes "crdt_sync"
source_value hot_buffer = codes "hot_buffer"

abbrev find_source : Str → List EpistemicSource → Option EpistemicSource
find_source v [] = none
find_source v (s ∷ ss) = if str_eq v (source_value s) then some s else find_source v ss

-- `EpistemicSource(v)`, with no answer where that raises.
unfoldable pub source_of : Str → Option EpistemicSource
source_of v = find_source v (
    user_explicit ∷ tool_output ∷ agent_inference ∷ shadow_inference ∷ external_doc
    ∷ sensor_observation ∷ crdt_sync ∷ hot_buffer ∷ [])

pub data SpeechAct : Type 0 where
  conversational_turn : SpeechAct
  epistemic_assertion : SpeechAct

-- `conversational_head` is the test of the subject's first word, by the word lists of
-- core/linguistics.py and the tagger. `?` is the code point 63.
unfoldable pub classify_speech_act : (Str → Bool) → Str → Str → Str → SpeechAct
classify_speech_act conversational_head subject predicate object_value =
    if conversational_head subject
      || any_of (λ c. c == 63) object_value
      || any_of (λ c. c == 63) predicate
    then conversational_turn
    else epistemic_assertion

abbrev unsafe : ℕ → Bool
unsafe c =
    leb 0xd800 c && leb c 0xdfff
    || leb c 8
    || c == 0x0b
    || c == 0x0c
    || leb 0x0e c && leb c 0x1f
    || leb 0x7f c && leb c 0x9f
    || leb 0x200b c && leb c 0x200d
    || c == 0xfeff

unfoldable pub sanitize_epistemic_text : Str → Str
sanitize_epistemic_text = keep_if (λ c. not (unsafe c))

-- The metadata entry `shadow_promotion`.
pub data Promotion : Type 0 where
  pending_arbitration : Promotion
  arbitration_promoted : Promotion

-- The fields that the shadow extraction sets.
pub record MemoryRecord : Type 0 where
  pub subject : Str
  pub canonical_entity_id : Str
  pub predicate : Str
  pub object : Str
  pub confidence : ℕ
  pub source_type : EpistemicSource
  pub timestamp : ℕ
  pub is_state_variable : Bool
  pub source_session_id : Str
  pub speech_act : SpeechAct
  pub shadow_arbitration : Option Action
  pub shadow_promotion : Option Promotion

-- `:` is the code point 58.
unfoldable pub triple_key : MemoryRecord → Str
triple_key r =
    (if is_empty r.canonical_entity_id then r.subject else r.canonical_entity_id)
    ++ (58 ∷ r.predicate)

abbrev is_arbitrated : Option Promotion → Bool
is_arbitrated (some arbitration_promoted) = true
is_arbitrated _ = false

abbrev pub is_shadow : EpistemicSource → Bool
is_shadow shadow_inference = true
is_shadow _ = false

unfoldable pub state_variable_authority : MemoryRecord → Bool
state_variable_authority r =
    if not r.is_state_variable
    then false
    else if is_shadow r.source_type
    then is_arbitrated r.shadow_promotion
    else true
