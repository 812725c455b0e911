-- ===== src/Shadow/Tests.antt =====
-- Turns over a scripted model: each request takes the next of the given answers, and the state
-- keeps the committed records.
use atlas_memory.Prelude.{
  ℕ, ◌≡◌, refl, ◌⊎◌, arith, true, false, List, [], ◌∷◌, ◌++◌, Option, some, none, if◌then◌else◌,
  length, All,
}
use atlas_memory.Prelude.Text.{
  Str, codes, str_eq, is_empty, split, starts_with, ends_with, strip_space, strip_if, lstrip_if,
  is_space, occurs_in,
}
use atlas_memory.Prelude.Sorting.{insert_falling, sort_onto, sort_falling}
use atlas_memory.Arbiter.Lexicon.{polish_stem, first_cut}
use atlas_memory.Arbiter.Coordinate.{from_key, of_parts, root_of, root_of_parts}
use atlas_memory.Arbiter.Kernel.{
  accept, supersede, is_multi_valued_slot, can_supersede, supersedes, decide,
}
use atlas_memory.Arbiter.Profile.{profile}
use atlas_memory.Arbiter.Candidate.{is_user_explicit, names_superseded, explicit_marker_candidate}
use atlas_memory.Arbiter.Scan.{
  Arbiter, scan_items, has_marker, collect_candidates, generate_candidates,
}
use atlas_memory.Arbiter.Arbitrate.{is_explicit_supersede, evidence, answer, arbitrate}
use atlas_memory.Shadow.Record.{
  shadow_inference, source_of, epistemic_assertion, classify_speech_act, sanitize_epistemic_text,
  arbitration_promoted, MemoryRecord, triple_key,
}
use atlas_memory.Shadow.Reconcile.{
  text, no_text, claimed, number, raised, record_of, RawFact, Outside, shadow_source, shadow_write,
  gated, arbitrated, make_record, reconciled, commit_all, shadow_reconcile,
}
use atlas_memory.Shadow.Worker.{
  Turn, llm_empty_response, regex_fallback, Status, pending_status, Client, Extracted, attempts,
  extract_spo, Completed, Worker, enqueue_turn, append_bounded, pop_completed, begin_turn,
  record_extraction, end_turn, process_single_turn, process_all_pending,
}
use atlas_memory.Shadow.Provenance.{IsDetoxed, Upholds, shadow_reconcile-IsDetoxed}
use atlas_memory.Shadow.Fitting.{Fits}
use atlas_memory.Shadow.Drain.{Drained, process_all_pending-Drained}
use atlas_memory.Shadow.Retry.{AllFail, FellBack, FirstAnswer, Answered, extract_spo_outcome}
use atlas_memory.Shadow.Steps.{System, Step, Reachable, IsBalanced, reachable-IsBalanced}

program : Unit {0}
unfolding str_eq split starts_with ends_with strip_space strip_if lstrip_if is_space occurs_in
    insert_falling sort_onto sort_falling polish_stem first_cut from_key of_parts root_of
    root_of_parts is_multi_valued_slot can_supersede supersedes decide profile is_user_explicit
    names_superseded explicit_marker_candidate scan_items has_marker collect_candidates
    generate_candidates is_explicit_supersede evidence answer arbitrate source_of
    classify_speech_act sanitize_epistemic_text triple_key shadow_source shadow_write gated
    arbitrated record_of make_record commit_all shadow_reconcile attempts extract_spo enqueue_turn
    append_bounded pop_completed begin_turn record_extraction end_turn process_single_turn
    process_all_pending
program = tt

record World : Type 0 where
  answers : List (Option Str)
  committed : List MemoryRecord

abbrev arbiter : Arbiter
arbiter = record {
  lang = record {
    lower = λ s. s;
    extract_tokens = λ s. split 32 s;
    extract_prohibited_terms = λ s. [];
    extract_exclusive_target = λ s. [];
    developer_tools = [];
  };
  is_entity_critical = λ k. false;
  config = record { confidence_threshold = 950_000_000; high_score_threshold = 75_000_000_000 };
}

abbrev state_fact : Str → ℕ → RawFact
state_fact subject conf = record {
  subject = text subject;
  predicate = text (codes "value");
  object = codes "9090";
  source_type = claimed (some (codes "user_explicit"));
  confidence = some (number conf);
  is_state_variable = true;
}

abbrev outside : Outside World
outside = record {
  canonicalize = λ s. s;
  conversational_head = λ s. false;
  fallback_extract_facts = λ u a. state_fact (codes "ttl") 950_000_000 ∷ [];
  arbiter = arbiter;
  triple_add = λ s p ob c src w. w;
  commit_observation = λ r w. record w { committed = r ∷ w.committed };
}

-- Any answer but the empty one is read as one fact.
abbrev client : Client World
client = record {
  outside = outside;
  ask = λ u a w. elim w.answers [ [] ↦ (none, w) | x ∷ xs ↦ (x, record w { answers = xs }) ];
  parse_json_facts =
      λ content. if is_empty content then [] else state_fact content 900_000_000 ∷ [];
  max_retries = 3;
}

abbrev turn : Turn
turn = record {
  user_msg = codes "ustaw";
  agent_response = codes "ok";
  session_id = codes "s1";
  timestamp = 1;
}

abbrev worker : List Turn → List (Option Str) → Worker World
worker ts xs = record {
  turn_queue = ts;
  last_extraction_status = pending_status;
  completed_turns = [];
  in_flight = 0;
  world = record { answers = xs; committed = [] };
}

-- The user's authority is not taken over, and the state variable is promoted.
abbrev port_record : MemoryRecord
port_record = record {
  subject = codes "port";
  canonical_entity_id = codes "port";
  predicate = codes "value";
  object = codes "9090";
  confidence = 900_000_000;
  source_type = shadow_inference;
  timestamp = 5;
  is_state_variable = true;
  source_session_id = codes "s1";
  speech_act = epistemic_assertion;
  shadow_arbitration = some accept;
  shadow_promotion = some arbitration_promoted;
}

reconciles :
    shadow_reconcile outside [] []
      (codes "s1")
      5
      (state_fact (codes " port ") 900_000_000 ∷ [])
      (record { answers = []; committed = [] })
    ≡ reconciled (port_record ∷ []) (record { answers = []; committed = port_record ∷ [] })
unfolding program
reconciles = refl

-- A property of the state: the records that were committed are as promised.
abbrev AllDetoxed : World → Type 0
AllDetoxed w = All IsDetoxed w.committed

-- The second fact raises, behind the commit of the first.
abbrev half_readable : List RawFact
half_readable =
    state_fact (codes " port ") 900_000_000
    ∷ record (state_fact (codes "x") 0) { subject = no_text }
    ∷ []

abbrev fresh : World
fresh = record { answers = []; committed = [] }

shadow_reconcile-IsDetoxed_example :
    Upholds AllDetoxed (shadow_reconcile outside [] [] (codes "s1") 5 half_readable fresh)
shadow_reconcile-IsDetoxed_example =
    shadow_reconcile-IsDetoxed outside AllDetoxed (λ r w d k. (d, k)) (λ s p ob c st w n l k. k) []
      [] (codes "s1") 5 half_readable fresh tt

stops :
    shadow_reconcile outside [] [] (codes "s1") 5 half_readable fresh
    ≡ raised (record { answers = []; committed = port_record ∷ [] })
unfolding program
stops = refl

-- Two failures, then an answer.
extract_spo_outcome_example :
    (AllFail client [] [] 3
        (record { answers = none ∷ none ∷ some (codes "port") ∷ []; committed = [] })
      × FellBack client [] [] (
          extract_spo client [] []
            (record { answers = none ∷ none ∷ some (codes "port") ∷ []; committed = [] })))
    ⊎ ((content : Str) × (v : World) × FirstAnswer client [] [] 3
          (record { answers = none ∷ none ∷ some (codes "port") ∷ []; committed = [] })
          content
          v
        × Answered client [] [] content v (
            extract_spo client [] []
              (record { answers = none ∷ none ∷ some (codes "port") ∷ []; committed = [] })))
extract_spo_outcome_example =
    extract_spo_outcome client [] []
      (record { answers = none ∷ none ∷ some (codes "port") ∷ []; committed = [] })

parsed_fit : (content : Str) → All Fits (client.parse_json_facts content)
parsed_fit [] = tt
parsed_fit (c ∷ s) = ((tt, tt, tt, (900_000_000, refl)), tt)

-- Two turns wait, and one more arrives while the first is processed.
process_all_pending-Drained_example :
    Drained
      ((turn ∷ []) ∷ [])
      (worker (turn ∷ turn ∷ []) [])
      (process_all_pending client 5 4 ((turn ∷ []) ∷ []) (worker (turn ∷ turn ∷ []) []))
process_all_pending-Drained_example =
    process_all_pending-Drained client parsed_fit (λ u a. ((tt, tt, tt, (950_000_000, refl)), tt)) 5
      4 ((turn ∷ []) ∷ []) (worker (turn ∷ turn ∷ []) []) (omega arith) (omega arith)

drains_three :
    (process_all_pending client 5 4 ((turn ∷ []) ∷ []) (worker (turn ∷ turn ∷ []) [])).0 ≡ some 3
unfolding program
drains_three = refl

-- A turn is put in the queue and taken out.
abbrev idle : System World
idle = record { worker = worker [] []; active = []; accepted = 0; ended = 0 }

abbrev busy : System World
busy = record {
  worker = record (worker [] []) { in_flight = 1 };
  active = turn ∷ [];
  accepted = 1;
  ended = 0;
}

reaches : Reachable idle busy
unfolding program
reaches =
    Reachable.after
      (Reachable.after Reachable.here (Step.enqueue idle turn (worker (turn ∷ []) []) refl))
      (Step.take_turn
        (record { worker = worker (turn ∷ []) []; active = []; accepted = 1; ended = 0 }) turn []
        refl)

reachable-IsBalanced_example : IsBalanced busy
reachable-IsBalanced_example =
    reachable-IsBalanced idle busy (refl, omega arith, omega arith, omega arith) reaches

-- The facts of an empty answer are those of the rules, and the status does not say so.
keys_of : List Completed → List Str
keys_of [] = []
keys_of (d ∷ ds) = d.committed_keys ++ keys_of ds

empty_answer :
    ((process_all_pending client 5 2 []
        (worker (turn ∷ []) (some [] ∷ []))).1.last_extraction_status
      ≡ record { source = llm_empty_response; error_code = false; error = false })
    × (keys_of
          (process_all_pending client 5 2 [] (worker (turn ∷ []) (some [] ∷ []))).1.completed_turns
        ≡ codes "ttl:value" ∷ [])
unfolding program keys_of
empty_answer = (refl, refl)

-- A confidence above one raises: the draining ends, the turn has no result, and the turn behind it
-- stays in the queue.
abbrev overconfident : Client World
overconfident = record client {
  parse_json_facts = λ content. state_fact content 1_500_000_000 ∷ [];
}

abbrev aborted : Option ℕ × Worker World
aborted =
    process_all_pending overconfident 5 3 [] (worker (turn ∷ turn ∷ []) (some (codes "port") ∷ []))

loses_turn :
    (aborted.0 ≡ none) × (aborted.1.completed_turns ≡ []) × (length aborted.1.turn_queue ≡ 1)
unfolding program
loses_turn = (refl, refl, refl)

-- Two turns in flight: the second's failure is reported with the first, which the model answered.
abbrev answered_first : Extracted World
answered_first =
    extract_spo client [] [] (record { answers = some (codes "port") ∷ []; committed = [] })

abbrev failed_second : Extracted World
failed_second = extract_spo client [] [] answered_first.world

statuses : List Completed → List Status
statuses [] = []
statuses (d ∷ ds) = d.extraction ∷ statuses ds

mixes :
    statuses
      (end_turn turn (reconciled (port_record ∷ []) failed_second.world) (
        record_extraction failed_second (
          record_extraction answered_first
            (begin_turn (begin_turn (worker [] [])))))).1.completed_turns
    ≡ record { source = regex_fallback; error_code = true; error = true } ∷ []
unfolding program statuses
mixes = refl

-- A marked key: the arbiter takes a confident shadow for the user, and the gate promotes it.
abbrev marked : MemoryRecord
marked = record port_record { canonical_entity_id = []; confidence = 990_000_000 }

marked_promoted : (arbitrated arbiter (codes "conflict") marked).shadow_arbitration ≡ some supersede
unfolding program
marked_promoted = refl
