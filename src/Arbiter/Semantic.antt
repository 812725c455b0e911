-- ===== src/Arbiter/Semantic.antt =====
-- What the five detectors have in common, and the candidate of `_scan_cross_key`.
use atlas_memory.Prelude.{
  ℕ, ◌≤◌, ◌≡◌, refl, inl, inr, Bool, true, false, not, ◌&&◌, Option, none, some, List, [], ◌∷◌, leb,
  leb→le, subst, if◌then◌else◌, Bool-cases, Option-cases, All, arith,
}
use atlas_memory.Prelude.Text.{Str}
use atlas_memory.Arbiter.Coordinate.{from_key}
use atlas_memory.Arbiter.Kernel.{is_revision, warning_score}
use atlas_memory.Arbiter.Profile.{Profile, same_namespace}
use atlas_memory.Arbiter.Detect.{
  Context, Conflict, found_when, first_found, detectors, detect_exclusivity_collision,
  detect_prohibition_contradiction, detect_capability_conflict, detect_exclusivity_violation,
  detect_polarity_contradiction, first_semantic_conflict, base_cross_score,
}
use atlas_memory.Arbiter.Candidate.{Candidate, Parsed, Write}
use atlas_memory.Arbiter.Scan.{Arbiter, cross_candidate, scan_cross_key}

-- No detector reports a revision, and each adds 25 at least.
abbrev sound : Conflict → Bool
sound f = not (is_revision f.reason) && leb 25_000_000_000 f.bonus

abbrev sound_or_none : Option Conflict → Bool
sound_or_none none = true
sound_or_none (some f) = sound f

found_if : (b : Bool) (f : Conflict) → sound f ≡ true → sound_or_none (found_when b f) ≡ true
unfolding found_when
found_if true f h = h
found_if false f h = refl

first_found_sound :
    (os : List (Option Conflict))
    → All (λ o. sound_or_none o ≡ true) os
    → sound_or_none (first_found os) ≡ true
first_found_sound [] h = refl
first_found_sound (none ∷ os) h = first_found_sound os h.1
first_found_sound (some f ∷ os) h = h.0

detectors_sound :
    (lower : Str → Str) (ctx : Context) → All (λ o. sound_or_none o ≡ true) (detectors lower ctx)
unfolding detectors detect_exclusivity_collision detect_prohibition_contradiction
    detect_capability_conflict detect_exclusivity_violation detect_polarity_contradiction
detectors_sound lower ctx = (
  search found_if,
  (search found_if, (search found_if, (search found_if, (search found_if, tt)))),
)

first_semantic_conflict_sound :
    (lower : Str → Str) (ctx : Context) → sound_or_none (first_semantic_conflict lower ctx) ≡ true
unfolding first_semantic_conflict
first_semantic_conflict_sound lower ctx =
    first_found_sound (detectors lower ctx) (detectors_sound lower ctx)

-- A candidate of another kind than a revision, of the key it was found for, and with 75 in the
-- same namespace.
abbrev pub IsCross : Str → Bool → Candidate → Type 0
IsCross ex_k same_ns c =
    (is_revision c.reason ≡ false) × (c.key ≡ ex_k) × (same_ns ≡ true → warning_score ≤ c.score)

abbrev pub AllFound {ℓ} : {A : Type ℓ} → (A → Type 0) → Option A → Type 0
AllFound P none = Unit
AllFound P (some a) = P a

same_namespace_score :
    (key ex_k : Str) (melted : Bool) (ctx : Context) (ex_conf : ℕ)
    → ctx.same_ns ≡ true
    → 50_000_000_000 ≤ base_cross_score key ex_k ctx.same_ns melted ctx.overlap ex_conf
unfolding base_cross_score
same_namespace_score key ex_k melted ctx ex_conf h = rw h (omega arith)

sound_reason : (f : Conflict) → sound f ≡ true → is_revision f.reason ≡ false
sound_reason f h = elim (Bool-cases (is_revision f.reason)) [
  | inl e ↦ absurd (ground (arith, h, e))
  | inr e ↦ e
]

sound_bonus : (f : Conflict) → sound f ≡ true → 25_000_000_000 ≤ f.bonus
sound_bonus f h = leb→le _ _ (and_right (not (is_revision f.reason)) h)
  where
    and_right : (b : Bool) {c : Bool} → (b && c) ≡ true → c ≡ true
    and_right true h = h
    and_right false h = cc

cross_candidate-IsCross :
    (arb : Arbiter) (ex_k : Str) (ex : Parsed) (w : Write) (melted : Bool) (ctx : Context)
    → AllFound (IsCross ex_k ctx.same_ns) (cross_candidate arb ex_k ex w melted ctx)
unfolding cross_candidate
cross_candidate-IsCross arb ex_k ex w melted ctx =
    let q = first_semantic_conflict_sound arb.lang.lower ctx in
    elim (Option-cases (first_semantic_conflict arb.lang.lower ctx)) [
      | inl e ↦ rw e tt
      | inr (f, e) ↦
          let s : sound f ≡ true = subst (λ o. sound_or_none o ≡ true) e q in
          rw e (
            sound_reason f s,
            refl,
            λ h.
                omega
                  (arith, sound_bonus f s, same_namespace_score w.key ex_k melted ctx ex.ex_conf h),
          )
    ]

found_unless :
    (P : Candidate → Type 0) (b : Bool) (o : Option Candidate)
    → AllFound P o
    → AllFound P (if b then none else o)
found_unless P true o h = tt
found_unless P false o h = h

pub scan_cross_key-IsCross :
    (arb : Arbiter) (ex_k : Str) (ex : Parsed) (w : Write) (incoming : Profile)
    → AllFound
        (IsCross ex_k (
          same_namespace w.key ex_k (from_key arb.lang.lower w.key) (from_key arb.lang.lower ex_k)))
        (scan_cross_key arb ex_k ex w incoming)
unfolding scan_cross_key
scan_cross_key-IsCross arb ex_k ex w incoming = search (found_unless, cross_candidate-IsCross)
