-- ===== src/Shadow/Worker.antt =====
-- `OmniRouteShadowWorker`: the queue of turns, the extraction with its retries, and the results.
use atlas_memory.Prelude.{
  ℕ, zero, suc, ◌+◌, ◌-◌, Bool, true, false, Option, none, some, List, [], ◌∷◌, ◌++◌, map, ltb,
  if◌then◌else◌, length, drop,
}
use mathlib.Core.Option
use atlas_memory.Prelude.Text.{Str}
use atlas_memory.Shadow.Record.{triple_key}
use atlas_memory.Shadow.Reconcile.{
  RawFact, Outside, Reconciled, reconciled, raised, shadow_reconcile,
}

pub record Turn : Type 0 where
  pub user_msg : Str
  pub agent_response : Str
  pub session_id : Str
  pub timestamp : ℕ

-- The entry `source` of `last_extraction_status`.
pub data Extraction : Type 0 where
  pending : Extraction
  llm : Extraction
  llm_empty_response : Extraction
  regex_fallback : Extraction

-- `error_code` is `OMNIROUTE_UNAVAILABLE`, or none; `error` says whether the text of an exception
-- stands beside it.
pub record Status : Type 0 where
  pub source : Extraction
  pub error_code : Bool
  pub error : Bool

-- One attempt to ask the model: its answer, or none when anything raised, and the state behind it.
-- `parse_json_facts` reads an answer by regular expressions and JSON.
pub record Client (W : Type 0) : Type 0 where
  pub outside : Outside W
  pub ask : Str → Str → W → Option Str × W
  pub parse_json_facts : Str → List RawFact
  pub max_retries : ℕ

abbrev pub parsed_status : List RawFact → Status
parsed_status [] = record { source = llm_empty_response; error_code = false; error = false }
parsed_status (f ∷ fs) = record { source = llm; error_code = false; error = false }

-- What the extraction gives back: the facts, the status that it recorded, the state.
pub record Extracted (W : Type 0) : Type 0 where
  pub facts : List RawFact
  pub status : Status
  pub world : W

-- What follows an attempt; `again` is the next one.
abbrev pub answered : {W : Type 0} → Client W → Option Str → W → Extracted W → Extracted W
answered c none w again = again
answered c (some content) w again = record {
  facts = c.parse_json_facts content;
  status = parsed_status (c.parse_json_facts content);
  world = w;
}

-- The attempts that are left, and whether one has been made.
unfoldable pub attempts : {W : Type 0} → Client W → Str → Str → ℕ → Bool → W → Extracted W
attempts c user_msg agent_response zero tried w = record {
  facts = c.outside.fallback_extract_facts user_msg agent_response;
  status = record { source = regex_fallback; error_code = true; error = tried };
  world = w;
}
attempts c user_msg agent_response (suc n) tried w =
    let (answer, later) = c.ask user_msg agent_response w in
    let again = attempts c user_msg agent_response n true later in answered c answer later again

unfoldable pub extract_spo : {W : Type 0} → Client W → Str → Str → W → Extracted W
unfolding attempts
extract_spo c user_msg agent_response w = attempts c user_msg agent_response c.max_retries false w

-- An entry of `completed_turns`; `facts_committed` is the number of the keys.
pub record Completed : Type 0 where
  pub session_id : Str
  pub committed_keys : List Str
  pub extraction : Status

pub record Worker (W : Type 0) : Type 0 where
  pub turn_queue : List Turn
  pub last_extraction_status : Status
  pub completed_turns : List Completed
  pub in_flight : ℕ
  pub world : W

abbrev pub pending_status : Status
pending_status = record { source = pending; error_code = false; error = false }

-- `maxsize` of the queue and `maxlen` of the deque.
abbrev pub capacity : ℕ
capacity = 1000

-- No answer while the queue is full: the call waits.
unfoldable pub enqueue_turn : {W : Type 0} → Turn → Worker W → Option (Worker W)
enqueue_turn t s =
    if ltb (length s.turn_queue) capacity
    then some (record s { turn_queue = s.turn_queue ++ (t ∷ []) })
    else none

-- `append` of a deque with `maxlen`.
unfoldable pub append_bounded : {A : Type 0} → A → List A → List A
append_bounded x xs = drop (length (xs ++ (x ∷ [])) - capacity) (xs ++ (x ∷ []))

unfoldable pub pop_completed : {W : Type 0} → Worker W → List Completed × Worker W
pop_completed s = (s.completed_turns, record s { completed_turns = [] })

-- The start of a turn, the extraction, and the end: what another turn can come between.
unfoldable pub begin_turn : {W : Type 0} → Worker W → Worker W
begin_turn s = record s { last_extraction_status = pending_status; in_flight = s.in_flight + 1 }

unfoldable pub record_extraction : {W : Type 0} → Extracted W → Worker W → Worker W
record_extraction e s = record s { last_extraction_status = e.status; world = e.world }

-- True, when the reconciliation returned.
unfoldable pub end_turn : {W : Type 0} → Turn → Reconciled W → Worker W → Bool × Worker W
unfolding append_bounded triple_key
end_turn t (reconciled rs w) s = (
  true,
  record s {
    in_flight = s.in_flight - 1;
    world = w;
    completed_turns =
        append_bounded
          (record {
            session_id = t.session_id;
            committed_keys = map triple_key rs;
            extraction = s.last_extraction_status;
          })
          s.completed_turns;
  },
)
end_turn t (raised w) s = (false, record s { in_flight = s.in_flight - 1; world = w })

-- `now` is the clock that the records are stamped with.
unfoldable pub process_single_turn : {W : Type 0} → Client W → ℕ → Turn → Worker W → Bool × Worker W
unfolding begin_turn extract_spo record_extraction shadow_reconcile end_turn
process_single_turn c now t s =
    let begun = begin_turn s in
    let e = extract_spo c t.user_msg t.agent_response begun.world in
    let extracted = record_extraction e begun in
    end_turn t
      (shadow_reconcile c.outside t.user_msg t.agent_response t.session_id now e.facts
        extracted.world)
      extracted

-- What follows a turn of the loop; an exception ends it.
abbrev pub went_on :
    {W : Type 0} → Bool × Worker W → (Worker W → Option ℕ × Worker W) → Option ℕ × Worker W
went_on (true, done) rest = (Option.map (λ n. n + 1) (rest done).0, (rest done).1)
went_on (false, done) rest = (none, done)

abbrev pub first_of : List (List Turn) → List Turn
first_of [] = []
first_of (ts ∷ later) = ts

abbrev pub rest_of : List (List Turn) → List (List Turn)
rest_of [] = []
rest_of (ts ∷ later) = later

-- `while not self.turn_queue.empty()`, on fuel: the number of the turns processed, or none when one
-- raised. Other tasks put turns in the queue while the loop waits for a turn: the first list while
-- it waits for the first one, and so on. A task that waits for room in the queue stands in it.
unfoldable pub process_all_pending :
    {W : Type 0} → Client W → ℕ → ℕ → List (List Turn) → Worker W → Option ℕ × Worker W
unfolding process_single_turn
process_all_pending c now zero arrivals s = (some 0, s)
process_all_pending c now (suc fuel) arrivals s = elim s.turn_queue [
  | [] ↦ (some 0, s)
  | t ∷ ts ↦
      went_on (process_single_turn c now t (record s { turn_queue = ts ++ first_of arrivals }))
        (process_all_pending c now fuel (rest_of arrivals))
]
