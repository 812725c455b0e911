-- ===== src/Shadow/Provenance.antt =====
-- What every record of `shadow_reconcile` is, and what its gate for state variables lets through.
use atlas_memory.Prelude.{
  ℕ, ◌≤◌, ◌≡◌, ◌≢◌, refl, Bool, true, false, not, Option, none, some, List, [], ◌∷◌, leb→le, leb,
  Bool-cases, inl, inr, arith, if◌then◌else◌, All,
}
use atlas_memory.Prelude.Text.{Str}
use atlas_memory.Arbiter.Kernel.{Action}
use atlas_memory.Arbiter.Scan.{Arbiter}
use atlas_memory.Shadow.Record.{
  EpistemicSource, user_explicit, shadow_inference, tool_output, agent_inference, external_doc,
  sensor_observation, crdt_sync, hot_buffer, is_shadow, pending_arbitration, arbitration_promoted,
  source_of, SpeechAct, conversational_turn, epistemic_assertion, MemoryRecord,
  state_variable_authority,
}
use atlas_memory.Shadow.Reconcile.{
  Field, text, no_text, Claimed, claimed, unhashable, Confidence, number, below_zero, unreadable,
  full_confidence, with_texts, with_source, with_confidence, record_of, RawFact, Outside, demoted,
  demoted_or_shadow, gated, shadow_source, arbitrated, Made, if_asserted, made, passed_over,
  refused, make_record, Reconciled, reconciled, raised, kept_first, commit_all, or_facts,
  shadow_reconcile,
}

-- A record that does not speak for the user, is an assertion, has a confidence of at most one, and
-- is a state variable only with the authority to be one.
abbrev pub IsDetoxed : MemoryRecord → Type 0
IsDetoxed r =
    (r.source_type ≢ user_explicit)
    × (r.speech_act ≡ epistemic_assertion)
    × (r.confidence ≤ 1_000_000_000)
    × (state_variable_authority r ≡ r.is_state_variable)

demoted_lem : (s : EpistemicSource) → demoted s ≢ user_explicit
demoted_lem user_explicit h = cc
demoted_lem tool_output h = cc
demoted_lem agent_inference h = cc
demoted_lem shadow_inference h = cc
demoted_lem external_doc h = cc
demoted_lem sensor_observation h = cc
demoted_lem crdt_sync h = cc
demoted_lem hot_buffer h = cc

demoted_or_shadow_lem : (o : Option EpistemicSource) → demoted_or_shadow o ≢ user_explicit
demoted_or_shadow_lem none = λ h. cc
demoted_or_shadow_lem (some s) = demoted_lem s

shadow_source_lem : (v : Option Str) → shadow_source v ≢ user_explicit
unfolding shadow_source
shadow_source_lem none = λ h. cc
shadow_source_lem (some v) = demoted_or_shadow_lem (source_of v)

gated_branches :
    (state promoted : Bool) (action : Action) (r : MemoryRecord)
    → state ≡ r.is_state_variable
    → r.source_type ≢ user_explicit
    → r.speech_act ≡ epistemic_assertion
    → r.confidence ≤ 1_000_000_000
    → IsDetoxed (
        if not state
        then r
        else if promoted
        then record r {
          shadow_arbitration = some action;
          shadow_promotion = some arbitration_promoted;
        }
        else record r {
          shadow_arbitration = some action;
          shadow_promotion = some pending_arbitration;
          is_state_variable = false;
        })
unfolding state_variable_authority
gated_branches true true action r e s a c = (s, a, c, rw (← e) (both (is_shadow r.source_type)))
  where
    both : (b : Bool) → (if b then true else true) ≡ true
    both true = refl
    both false = refl
gated_branches true false action r e s a c = (s, a, c, refl)
gated_branches false promoted action r e s a c = (s, a, c, rw (← e) refl)

arbitrated-IsDetoxed :
    (arb : Arbiter) (raw_s : Str) (r : MemoryRecord)
    → r.source_type ≢ user_explicit
    → r.speech_act ≡ epistemic_assertion
    → r.confidence ≤ 1_000_000_000
    → IsDetoxed (arbitrated arb raw_s r)
unfolding arbitrated gated
arbitrated-IsDetoxed arb raw_s r = search gated_branches

abbrev MadeDetoxed : Made → Type 0
MadeDetoxed passed_over = Unit
MadeDetoxed (made r pred obj) = IsDetoxed r
MadeDetoxed refused = Unit

made_unless : (b : Bool) (m : Made) → MadeDetoxed m → MadeDetoxed (if b then passed_over else m)
made_unless true m h = tt
made_unless false m h = h

made_asserted :
    (act : SpeechAct) (m : Made)
    → (act ≡ epistemic_assertion → MadeDetoxed m)
    → MadeDetoxed (if_asserted act m)
made_asserted conversational_turn m h = tt
made_asserted epistemic_assertion m h = h refl

made_texts :
    (a b : Field) (f : Str → Str → Made)
    → ((s p : Str) → MadeDetoxed (f s p))
    → MadeDetoxed (with_texts a b f)
made_texts (text s) (text p) f h = h s p
made_texts (text s) no_text f h = tt
made_texts no_text b f h = tt

made_source :
    (c : Claimed) (f : EpistemicSource → Made)
    → ((st : EpistemicSource) → st ≢ user_explicit → MadeDetoxed (f st))
    → MadeDetoxed (with_source c f)
made_source (claimed v) f h = h (shadow_source v) (shadow_source_lem v)
made_source unhashable f h = tt

-- A confidence that is read is at most one.
made_confidence :
    (o : Option Confidence) (f : ℕ → Made)
    → ((c : ℕ) → c ≤ 1_000_000_000 → MadeDetoxed (f c))
    → MadeDetoxed (with_confidence (full_confidence o) f)
made_confidence none f h = h 1_000_000_000 (omega arith)
made_confidence (some (number c)) f h = elim (Bool-cases (leb c 1_000_000_000)) [
  | inl fits ↦ rw fits (h c (leb→le c 1_000_000_000 fits))
  | inr above ↦ rw above tt
]
made_confidence (some below_zero) f h = tt
made_confidence (some unreadable) f h = tt

make_record-IsDetoxed :
    {W : Type 0} (o : Outside W) (session_id : Str) (now : ℕ) (it : RawFact)
    → MadeDetoxed (make_record o session_id now it)
unfolding make_record record_of
make_record-IsDetoxed o session_id now it =
    made_texts it.subject it.predicate (record_of o session_id now it) (λ subject predicate.
      search (made_unless, made_source, made_asserted, made_confidence, arbitrated-IsDetoxed) depth
        9)

-- The returned records are detoxed, and the state behind a return or an exception has the property.
abbrev pub Upholds : {W : Type 0} → (W → Type 0) → Reconciled W → Type 0
Upholds Inv (reconciled rs w) = All IsDetoxed rs × Inv w
Upholds Inv (raised w) = Inv w

module _ {W : Type 0} (o : Outside W) (Inv : W → Type 0)
    (committed : (r : MemoryRecord) (w : W) → IsDetoxed r → Inv w → Inv (o.commit_observation r w))
    (added : (s p ob : Str) (c : ℕ) (st : EpistemicSource) (w : W)
      → st ≢ user_explicit
      → c ≤ 1_000_000_000
      → Inv w
      → Inv (o.triple_add s p ob c st w)) where
  kept_first-Upholds :
      (r : MemoryRecord) (q : Reconciled W)
      → IsDetoxed r
      → Upholds Inv q
      → Upholds Inv (kept_first r q)
  kept_first-Upholds r (reconciled rs w) h k = ((h, k.0), k.1)
  kept_first-Upholds r (raised w) h k = k

  -- The two writes of one record.
  written :
      (r : MemoryRecord) (pred obj : Str) (w : W)
      → IsDetoxed r
      → Inv w
      → Inv (
          o.commit_observation r
            (o.triple_add r.canonical_entity_id pred obj r.confidence r.source_type w))
  written r pred obj w h k =
      committed r _ h (added r.canonical_entity_id pred obj r.confidence r.source_type w h.0 h.2 k)

  commit_all-Upholds :
      (session_id : Str) (now : ℕ) (facts : List RawFact) (w : W)
      → Inv w
      → Upholds Inv (commit_all o session_id now facts w)
  unfolding commit_all
  commit_all-Upholds session_id now [] w k = (tt, k)
  commit_all-Upholds session_id now (it ∷ facts) w k =
      each (make_record o session_id now it) (make_record-IsDetoxed o session_id now it)
        (commit_all-Upholds session_id now facts)
    where
      each :
          (m : Made)
          → MadeDetoxed m
          → ((v : W) → Inv v → Upholds Inv (commit_all o session_id now facts v))
          → Upholds Inv (elim m [
            | passed_over ↦ commit_all o session_id now facts w
            | made r pred obj ↦ kept_first r (
                commit_all o session_id now facts (
                  o.commit_observation r
                    (o.triple_add r.canonical_entity_id pred obj r.confidence r.source_type w)))
            | refused ↦ raised w
          ])
      each passed_over h later = later w k
      each (made r pred obj) h later =
          kept_first-Upholds r (commit_all o session_id now facts _) h
            (later _ (written r pred obj w h k))
      each refused h later = k

  -- Whatever the extraction gives, every record that a reconciliation hands to
  -- `commit_observation`, and every record that it returns, is an assertion that does not speak for
  -- the user, with a confidence of at most one, and where it is a state variable it has the
  -- authority to be one; no triple is added in the user's name. So a property of the state that
  -- these two writes keep, for such a record and for a source that is not the user with a
  -- confidence of at most one, holds behind the reconciliation, also where it ends by an exception.
  pub shadow_reconcile-IsDetoxed :
      (user_msg agent_response session_id : Str) (now : ℕ) (raw : List RawFact) (w : W)
      → Inv w
      → Upholds Inv (shadow_reconcile o user_msg agent_response session_id now raw w)
  unfolding shadow_reconcile
  shadow_reconcile-IsDetoxed user_msg agent_response session_id now raw w k =
      commit_all-Upholds session_id now
        (or_facts raw (o.fallback_extract_facts user_msg agent_response)) w k
