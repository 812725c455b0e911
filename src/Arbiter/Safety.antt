-- ===== src/Arbiter/Safety.antt =====
-- What the arbiter does not do: revise across entities without being asked.
use atlas_memory.Prelude.{
  ◌≡◌, refl, sym, subst, ◌⊎◌, inl, inr, Bool, true, false, not, ◌||◌, some, List, [], ◌∷◌,
  if◌then◌else◌, Bool-cases, All, arith,
}
use atlas_memory.Prelude.Dict.{Dict}
use atlas_memory.Prelude.Text.{Str, codes, str_eq, str_eq_iff}
use atlas_memory.Arbiter.Coordinate.{from_key, entity_root}
use atlas_memory.Arbiter.Kernel.{
  is_revision, Evidence, is_multi_valued_slot, can_supersede, supersedes, decide,
}
use atlas_memory.Arbiter.Candidate.{Item, Candidate, Write, names_superseded}
use atlas_memory.Arbiter.Scan.{Arbiter, generate_candidates}
use atlas_memory.Arbiter.Arbitrate.{
  is_supersede, evidence, revision_result, conflict_result, overlap_result, is_explicit_supersede,
  answer, arbitrate,
}
use atlas_memory.Arbiter.Justified.{Justified, generate_candidates-Justified}

-- Two keys of one entity whose slots hold one value each.
abbrev pub SameEntity : (Str → Str) → Str → Str → Type 0
SameEntity lower i j =
    (entity_root lower i ≡ entity_root lower j)
    × (is_multi_valued_slot lower (from_key lower i) ≡ false)
    × (is_multi_valued_slot lower (from_key lower j) ≡ false)

or_false : (a b : Bool) → (a || b) ≡ false → (a ≡ false) × (b ≡ false)
or_false true b h = cc
or_false false b h = (refl, h)

same_or_within :
    (i j r s : Str) (m n : Bool)
    → (if false || str_eq i j then true else if not (str_eq r s) then false else not (m || n))
      ≡ true
    → (i ≡ j) ⊎ ((r ≡ s) × (m ≡ false) × (n ≡ false))
same_or_within i j r s m n h = ground (arith, str_eq_iff i j, str_eq_iff r s)

can_supersede_within :
    (lower : Str → Str) (i j : Str)
    → can_supersede lower i j false ≡ true
    → (i ≡ j) ⊎ SameEntity lower i j
unfolding can_supersede entity_root
can_supersede_within lower i j h =
    same_or_within i j (entity_root lower i) (entity_root lower j)
      (is_multi_valued_slot lower (from_key lower i))
      (is_multi_valued_slot lower (from_key lower j)) h

-- A revision that no one asked for has passed the test of the entity.
supersedes-can_supersede :
    (lower : Str → Str) (i j : Str) (e : Evidence)
    → e.is_explicit_supersede ≡ false
    → supersedes lower i j e ≡ true
    → can_supersede lower i j false ≡ true
unfolding supersedes
supersedes-can_supersede lower i j e x h = elim (Bool-cases (can_supersede lower i j false)) [
  | inl k ↦ k
  | inr k ↦ ground (arith, x, k, h)
]

decide-supersedes :
    (lower : Str → Str) (i j : Str) (e : Evidence)
    → is_supersede (decide lower i j e) ≡ true
    → supersedes lower i j e ≡ true
unfolding decide
decide-supersedes lower i j e h = elim (Bool-cases (supersedes lower i j e)) [
  | inl k ↦ k
  | inr k ↦ ground (arith, k, h)
]

superseded_branch :
    (b i r : Bool) (c : Candidate) (cs : List Candidate) (k : Str)
    → (if b
        then revision_result c cs
        else if i
        then conflict_result c cs
        else if r
        then conflict_result c cs
        else overlap_result c cs).superseded_key
      ≡ some k
    → (b ≡ true) × (c.key ≡ k)
superseded_branch true i r c cs k h = (refl, cc)
superseded_branch false true r c cs k h = cc
superseded_branch false false true c cs k h = cc
superseded_branch false false false c cs k h = cc

explicit_of :
    (w : Write) (c : Candidate)
    → Justified w c
    → w.metadata.is_belief_revision ≡ false
    → str_eq w.metadata.action (codes "supersede") ≡ false
    → names_superseded w.metadata c.key ≡ false
    → (c.key ≡ w.key) ⊎ (is_explicit_supersede w c ≡ false)
unfolding is_explicit_supersede
explicit_of w c j r a n = elim (Bool-cases (is_revision c.reason)) [
  | inl e ↦ elim (j e) [ inl same ↦ inl same | inr named ↦ cc ]
  | inr e ↦ inr (rw (e, n, r, a) refl)
]

-- The best candidate, when it is revised.
revision_within :
    (arb : Arbiter) (w : Write) (c : Candidate)
    → Justified w c
    → is_supersede (decide arb.lang.lower w.key c.key (evidence arb w c)) ≡ true
    → w.metadata.is_belief_revision ≡ false
    → str_eq w.metadata.action (codes "supersede") ≡ false
    → names_superseded w.metadata c.key ≡ false
    → (w.key ≡ c.key) ⊎ SameEntity arb.lang.lower w.key c.key
unfolding evidence
revision_within arb w c j d r a n = elim (explicit_of w c j r a n) [
  | inl same ↦ inl (sym same)
  | inr asked ↦ can_supersede_within arb.lang.lower w.key c.key (
      supersedes-can_supersede arb.lang.lower w.key c.key (evidence arb w c) asked
        (decide-supersedes arb.lang.lower w.key c.key (evidence arb w c) d))
]

answer_within :
    (arb : Arbiter) (w : Write) (cs : List Candidate) (k : Str)
    → All (Justified w) cs
    → (answer arb w cs).superseded_key ≡ some k
    → w.metadata.is_belief_revision ≡ false
    → str_eq w.metadata.action (codes "supersede") ≡ false
    → names_superseded w.metadata k ≡ false
    → (w.key ≡ k) ⊎ SameEntity arb.lang.lower w.key k
unfolding answer
answer_within arb w [] k j h r a n = cc
answer_within arb w (c ∷ cs) k j h r a n =
    let q = superseded_branch _ _ _ c (c ∷ cs) k h in
    subst (λ i. (w.key ≡ i) ⊎ SameEntity arb.lang.lower w.key i) q.1
      (revision_within arb w c j.0 q.0 r a
        (subst (λ i. names_superseded w.metadata i ≡ false) (sym q.1) n))

-- A write revises another key only within its own entity: when the write neither names the
-- revised key, nor is marked as a belief revision, nor asks for the action, the key revised is the
-- one written, or one of the same entity root, and neither slot holds several values.
pub supersede_within_entity :
    (arb : Arbiter) (w : Write) (items : Dict Item) (k : Str)
    → (arbitrate arb w items).superseded_key ≡ some k
    → w.metadata.is_belief_revision ≡ false
    → str_eq w.metadata.action (codes "supersede") ≡ false
    → names_superseded w.metadata k ≡ false
    → (w.key ≡ k) ⊎ SameEntity arb.lang.lower w.key k
unfolding arbitrate
supersede_within_entity arb w items k =
    answer_within arb w (generate_candidates arb w items) k
      (generate_candidates-Justified arb w items)
