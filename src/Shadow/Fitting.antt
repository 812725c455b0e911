-- ===== src/Shadow/Fitting.antt =====
-- Facts that can be read make records without an exception.
use atlas_memory.Prelude.{
  ℕ, zero, suc, ◌≡◌, Bool, true, false, Option, none, some, List, [], ◌∷◌, if◌then◌else◌, All,
}
use atlas_memory.Prelude.Text.{Str}
use atlas_memory.Shadow.Record.{
  EpistemicSource, MemoryRecord, SpeechAct, conversational_turn, epistemic_assertion,
}
use atlas_memory.Shadow.Reconcile.{
  Field, text, no_text, Claimed, claimed, unhashable, with_texts, with_source, with_confidence,
  shadow_source, record_of, RawFact, Outside, full_confidence, Made, if_asserted, made, passed_over,
  refused, make_record, Reconciled, reconciled, raised, kept_first, commit_all, or_facts,
  shadow_reconcile,
}
use atlas_memory.Shadow.Worker.{Turn, Client, Extracted, answered, attempts}

abbrev pub IsText : Field → Type 0
IsText (text s) = Unit
IsText no_text = ⊥

abbrev pub IsHashable : Claimed → Type 0
IsHashable (claimed v) = Unit
IsHashable unhashable = ⊥

-- Every entry of the fact can be read, and the confidence passes the model of the record.
abbrev pub Fits : RawFact → Type 0
Fits it =
    IsText it.subject
    × IsText it.predicate
    × IsHashable it.source_type
    × ((c : ℕ) × (full_confidence it.confidence ≡ some c))

abbrev NotRefused : Made → Type 0
NotRefused passed_over = Unit
NotRefused (made r pred obj) = Unit
NotRefused refused = ⊥

abbrev pub Returns : {W : Type 0} → Reconciled W → Type 0
Returns (reconciled rs w) = Unit
Returns (raised w) = ⊥

passed_unless : (b : Bool) (m : Made) → NotRefused m → NotRefused (if b then passed_over else m)
passed_unless true m h = tt
passed_unless false m h = h

asserted_NotRefused : (act : SpeechAct) (m : Made) → NotRefused m → NotRefused (if_asserted act m)
asserted_NotRefused conversational_turn m h = tt
asserted_NotRefused epistemic_assertion m h = h

texts_NotRefused :
    (a b : Field) (f : Str → Str → Made)
    → IsText a
    → IsText b
    → ((s p : Str) → NotRefused (f s p))
    → NotRefused (with_texts a b f)
texts_NotRefused (text s) (text p) f i j h = h s p
texts_NotRefused (text s) no_text f i j h = absurd j
texts_NotRefused no_text b f i j h = absurd i

source_NotRefused :
    (c : Claimed) (f : EpistemicSource → Made)
    → IsHashable c
    → ((st : EpistemicSource) → NotRefused (f st))
    → NotRefused (with_source c f)
source_NotRefused (claimed v) f i h = h (shadow_source v)
source_NotRefused unhashable f i h = absurd i

confidence_NotRefused :
    (o : Option ℕ) (f : ℕ → Made)
    → ((c : ℕ) × (o ≡ some c))
    → ((c : ℕ) → NotRefused (f c))
    → NotRefused (with_confidence o f)
confidence_NotRefused none f (c, e) h = cc
confidence_NotRefused (some c) f i h = h c

make_record-NotRefused :
    {W : Type 0} (o : Outside W) (session_id : Str) (now : ℕ) (it : RawFact)
    → Fits it
    → NotRefused (make_record o session_id now it)
unfolding make_record record_of
make_record-NotRefused o session_id now it (subject, predicate, source, confidence) =
    texts_NotRefused it.subject it.predicate (record_of o session_id now it) subject predicate
      (λ s p. passed_unless _ _ (
        source_NotRefused it.source_type _ source (λ st.
          asserted_NotRefused _ _
            (confidence_NotRefused (full_confidence it.confidence) _ confidence (λ c. tt)))))

kept_first-Returns :
    {W : Type 0} (r : MemoryRecord) (q : Reconciled W) → Returns q → Returns (kept_first r q)
kept_first-Returns r (reconciled rs w) h = tt
kept_first-Returns r (raised w) h = elim h [ ]

commit_all-Returns :
    {W : Type 0} (o : Outside W) (session_id : Str) (now : ℕ) (facts : List RawFact) (w : W)
    → All Fits facts
    → Returns (commit_all o session_id now facts w)
unfolding commit_all
commit_all-Returns o session_id now [] w h = tt
commit_all-Returns {W} o session_id now (it ∷ facts) w h =
    each (make_record o session_id now it) (make_record-NotRefused o session_id now it h.0)
      (λ v. commit_all-Returns o session_id now facts v h.1)
  where
    each :
        (m : Made)
        → NotRefused m
        → ((v : W) → Returns (commit_all o session_id now facts v))
        → Returns (elim m [
          | passed_over ↦ commit_all o session_id now facts w
          | made r pred obj ↦ kept_first r (
              commit_all o session_id now facts (
                o.commit_observation r
                  (o.triple_add r.canonical_entity_id pred obj r.confidence r.source_type w)))
          | refused ↦ raised w
        ])
    each passed_over n later = later w
    each (made r pred obj) n later =
        kept_first-Returns r (commit_all o session_id now facts _) (later _)
    each refused n later = absurd n

or_facts-Fits : (xs ys : List RawFact) → All Fits xs → All Fits ys → All Fits (or_facts xs ys)
or_facts-Fits [] ys h k = k
or_facts-Fits (x ∷ xs) ys h k = h

module _ {W : Type 0} (c : Client W)
    (parsed : (content : Str) → All Fits (c.parse_json_facts content))
    (fallen : (u a : Str) → All Fits (c.outside.fallback_extract_facts u a)) where
  answered-Fits :
      (o : Option Str) (w : W) (again : Extracted W)
      → All Fits again.facts
      → All Fits (answered c o w again).facts
  answered-Fits none w again h = h
  answered-Fits (some content) w again h = parsed content

  pub attempts-Fits :
      (u a : Str) (n : ℕ) (tried : Bool) (w : W) → All Fits (attempts c u a n tried w).facts
  unfolding attempts
  attempts-Fits u a zero tried w = fallen u a
  attempts-Fits u a (suc n) tried w =
      answered-Fits (c.ask u a w).0 (c.ask u a w).1 _ (attempts-Fits u a n true (c.ask u a w).1)

  pub shadow_reconcile-Returns :
      (t : Turn) (now : ℕ) (e : Extracted W) (w : W)
      → All Fits e.facts
      → Returns (shadow_reconcile c.outside t.user_msg t.agent_response t.session_id now e.facts w)
  unfolding shadow_reconcile
  shadow_reconcile-Returns t now e w h =
      commit_all-Returns c.outside t.session_id now _ w
        (or_facts-Fits e.facts _ h (fallen t.user_msg t.agent_response))
