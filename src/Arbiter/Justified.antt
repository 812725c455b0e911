-- ===== src/Arbiter/Justified.antt =====
-- Where a candidate that reports a belief revision comes from.
use atlas_memory.Prelude.{
  ℕ, ◌≡◌, refl, ◌∙◌, ◌⊎◌, inl, inr, Bool, true, false, Option, none, some, if◌then◌else◌, ◌>>=◌,
  All, arith,
}
use atlas_memory.Prelude.Dict.{Dict}
use atlas_memory.Prelude.Text.{Str, str_eq, str_eq_iff}
use atlas_memory.Prelude.Sorting.{All-Permᴰ}
use mathlib.Core.List.Permᴰ
use atlas_memory.Arbiter.Kernel.{Reason, is_revision}
use atlas_memory.Arbiter.Profile.{Profile}
use atlas_memory.Arbiter.Candidate.{
  Item, Candidate, Write, Parsed, parse_existing_item, names_superseded, whole_key_candidate,
  confidence_inversion_candidate, explicit_marker_candidate,
}
use atlas_memory.Arbiter.Scan.{
  Arbiter, handled_if_found, evaluate_same_key, scan_cross_key, scan_parsed, scan_existing_item,
  generate_candidates,
}
use atlas_memory.Arbiter.Semantic.{AllFound, scan_cross_key-IsCross}
use atlas_memory.Arbiter.Ranking.{collect_candidates-All, generate_candidates-Permᴰ}

-- A candidate that reports a revision quotes the key written, or the one that the write names.
abbrev pub Justified : Write → Candidate → Type 0
Justified w c =
    is_revision c.reason ≡ true → (c.key ≡ w.key) ⊎ (names_superseded w.metadata c.key ≡ true)

each_branch_found :
    {A : Type 0} (P : A → Type 0) (b : Bool) (o p : Option A)
    → AllFound P o
    → AllFound P p
    → AllFound P (if b then o else p)
each_branch_found P true o p h k = h
each_branch_found P false o p h k = k

confidence_inversion_candidate-key :
    (ex_k : Str) (ex : Parsed) (w : Write) (same : Bool)
    → AllFound (λ c. c.key ≡ ex_k) (confidence_inversion_candidate ex_k ex w same)
unfolding confidence_inversion_candidate
confidence_inversion_candidate-key ex_k ex w same = search each_branch_found

handled_if_found-All :
    (P : Candidate → Type 0) (o : Option Candidate)
    → AllFound P o
    → AllFound (AllFound P) (handled_if_found o)
handled_if_found-All P none h = tt
handled_if_found-All P (some c) h = h

evaluate_same_key-key :
    (arb : Arbiter) (ex_k : Str) (ex : Parsed) (w : Write)
    → AllFound (AllFound (λ c. c.key ≡ ex_k)) (evaluate_same_key arb ex_k ex w)
unfolding evaluate_same_key
evaluate_same_key-key arb ex_k ex w =
    search (each_branch_found, handled_if_found-All, confidence_inversion_candidate-key)

pub AllFound-map :
    {A : Type 0} (P Q : A → Type 0) (o : Option A)
    → ((a : A) → P a → Q a)
    → AllFound P o
    → AllFound Q o
AllFound-map P Q none f h = tt
AllFound-map P Q (some a) f h = f a h

same_key_All :
    (P : Candidate → Type 0) (o : Option (Option Candidate)) (cross : Option Candidate)
    → AllFound (AllFound P) o
    → AllFound P cross
    → AllFound P (elim o [ none ↦ cross | some handled ↦ handled ])
same_key_All P none cross h k = k
same_key_All P (some handled) cross h k = h

scan_cross_key-Justified :
    (arb : Arbiter) (ex_k : Str) (ex : Parsed) (w : Write) (incoming : Profile)
    → AllFound (Justified w) (scan_cross_key arb ex_k ex w incoming)
scan_cross_key-Justified arb ex_k ex w incoming =
    AllFound-map _ (Justified w) _ (λ c h r. absurd (ground (arith, h.0, r)))
      (scan_cross_key-IsCross arb ex_k ex w incoming)

branch_found :
    {A : Type 0} (P : A → Type 0) (b : Bool) (o p : Option A)
    → (b ≡ true → AllFound P o)
    → AllFound P p
    → AllFound P (if b then o else p)
branch_found P true o p h k = h refl
branch_found P false o p h k = k

same_key_Justified :
    (arb : Arbiter) (ex_k : Str) (ex : Parsed) (w : Write) (cross : Option Candidate)
    → AllFound (Justified w) cross
    → str_eq ex_k w.key ≡ true
    → AllFound
        (Justified w)
        (elim (evaluate_same_key arb ex_k ex w) [ none ↦ cross | some handled ↦ handled ])
same_key_Justified arb ex_k ex w cross h same =
    same_key_All (Justified w) _ cross
      (AllFound-map _ (AllFound (Justified w)) _
        (λ o. AllFound-map _ (Justified w) o (λ c k r. inl (k ∙ (str_eq_iff ex_k w.key).0 same)))
        (evaluate_same_key-key arb ex_k ex w))
      h

whole_key_candidate-Justified :
    (ex_k : Str) (ex : Parsed) (w : Write) (score : ℕ) (reason : Reason)
    → names_superseded w.metadata ex_k ≡ true
    → AllFound (Justified w) (some (whole_key_candidate reason score ex_k ex w false))
unfolding whole_key_candidate
whole_key_candidate-Justified ex_k ex w score reason h r = inr h

scan_parsed-Justified :
    (arb : Arbiter) (ex_k : Str) (ex : Parsed) (w : Write) (incoming : Profile)
    → AllFound (Justified w) (scan_parsed arb ex_k ex w incoming)
unfolding scan_parsed
scan_parsed-Justified arb ex_k ex w incoming =
    search
      (branch_found, whole_key_candidate-Justified, same_key_Justified, scan_cross_key-Justified)

bind_found :
    {A B : Type 0} (P : B → Type 0) (o : Option A) (f : A → Option B)
    → ((a : A) → AllFound P (f a))
    → AllFound P (o >>= f)
bind_found P none f h = tt
bind_found P (some a) f h = h a

scan_existing_item-Justified :
    (arb : Arbiter) (w : Write) (ex_k : Str) (item : Item) (incoming : Profile)
    → AllFound (Justified w) (scan_existing_item arb ex_k item w incoming)
unfolding scan_existing_item
scan_existing_item-Justified arb w ex_k item incoming =
    bind_found (Justified w) (parse_existing_item item) _
      (λ ex. scan_parsed-Justified arb ex_k ex w incoming)

explicit_marker_candidate-Justified :
    (arb : Arbiter) (w : Write) → Justified w (explicit_marker_candidate arb.lang w)
unfolding explicit_marker_candidate
explicit_marker_candidate-Justified arb w r = inl refl

pub generate_candidates-Justified :
    (arb : Arbiter) (w : Write) (items : Dict Item)
    → All (Justified w) (generate_candidates arb w items)
generate_candidates-Justified arb w items =
    All-Permᴰ (Justified w) (Permᴰ.symm (generate_candidates-Permᴰ arb w items)) (
      collect_candidates-All arb w (Justified w) items (explicit_marker_candidate-Justified arb w)
        (scan_existing_item-Justified arb w))
