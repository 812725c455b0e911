-- ===== src/Arbiter/Ranking.antt =====
-- The candidates of an arbitration: where each comes from, and which is the best.
use atlas_memory.Prelude.{
  ℕ, ◌≤◌, ◌≡◌, ◌≢◌, refl, ◌∙◌, ap, subst, Bool, true, false, not, Option, none, some, List, [], ◌∷◌,
  ◌++◌, le→leb, if◌then◌else◌, Bool-cases, inl, inr, All, keep_if, arith,
}
use atlas_memory.Prelude.Dict.{Dict}
use atlas_memory.Prelude.Text.{Str}
use atlas_memory.Prelude.Sorting.{sort_falling-Permᴰ, sort_falling-IsFalling, IsFalling, All-Permᴰ}
use mathlib.Core.List.{Permᴰ}
use atlas_memory.Arbiter.Kernel.{accept, is_inversion, decide}
use atlas_memory.Arbiter.Profile.{Profile, profile}
use atlas_memory.Arbiter.Candidate.{Item, Candidate, Write, superseded, explicit_marker_candidate}
use atlas_memory.Arbiter.Scan.{
  Arbiter, scores_less, val_str, push_found, scan_existing_item, scan_items, has_marker,
  collect_candidates, generate_candidates,
}
use atlas_memory.Arbiter.Semantic.{AllFound}
use atlas_memory.Arbiter.Arbitrate.{is_supersede, evidence, answer, arbitrate}

push_found-All :
    (P : Candidate → Type 0) (o : Option Candidate) (cs : List Candidate)
    → AllFound P o
    → All P cs
    → All P (push_found o cs)
push_found-All P none cs h k = k
push_found-All P (some c) cs h k = (h, k)

All-push_found :
    (P : Candidate → Type 0) (o : Option Candidate) (cs : List Candidate)
    → All P (push_found o cs)
    → AllFound P o × All P cs
All-push_found P none cs k = (tt, k)
All-push_found P (some c) cs k = k

All-behind_marker :
    (P : Candidate → Type 0) (b : Bool) (c : Candidate) (cs : List Candidate)
    → All P (if b then c ∷ cs else cs)
    → All P cs
All-behind_marker P true c cs h = h.1
All-behind_marker P false c cs h = h

module _ (arb : Arbiter) (w : Write) where
  scan_items-All :
      (P : Candidate → Type 0) (prof : Profile) (items : Dict Item)
      → ((ex_k : Str) (item : Item) → AllFound P (scan_existing_item arb ex_k item w prof))
      → All P (scan_items arb items w prof)
  unfolding scan_items
  scan_items-All P prof [] found = tt
  scan_items-All P prof ((ex_k, item) ∷ items) found =
      push_found-All P (scan_existing_item arb ex_k item w prof) _ (found ex_k item)
        (scan_items-All P prof items found)

  All-scan_items :
      (P : Candidate → Type 0) (prof : Profile) (bs : Dict Item) (ex_k : Str) (item : Item)
      (later : Dict Item)
      → All P (scan_items arb (bs ++ ((ex_k, item) ∷ later)) w prof)
      → AllFound P (scan_existing_item arb ex_k item w prof)
  unfolding scan_items
  All-scan_items P prof [] ex_k item later h =
      (All-push_found P (scan_existing_item arb ex_k item w prof) _ h).0
  All-scan_items P prof ((j, i) ∷ bs) ex_k item later h =
      All-scan_items P prof bs ex_k item later
        (All-push_found P (scan_existing_item arb j i w prof) _ h).1

  unfoldable pub incoming_profile : Profile
  incoming_profile = profile arb.lang w.key (val_str arb w)

  -- What holds of the marker and of every candidate of an item holds of all.
  pub collect_candidates-All :
      (P : Candidate → Type 0) (items : Dict Item)
      → P (explicit_marker_candidate arb.lang w)
      → ((ex_k : Str) (item : Item) (incoming : Profile)
          → AllFound P (scan_existing_item arb ex_k item w incoming))
      → All P (collect_candidates arb w items)
  unfolding collect_candidates
  collect_candidates-All P items marked found =
      let prof = profile arb.lang w.key (val_str arb w) in
      let q = scan_items-All P prof items (λ k i. found k i prof) in
      elim (Bool-cases (has_marker arb w)) [ inl e ↦ rw e (marked, q) | inr e ↦ rw e q ]

  -- What holds of all candidates holds of that of an item.
  pub All-collect_candidates :
      (P : Candidate → Type 0) (bs : Dict Item) (ex_k : Str) (item : Item) (later : Dict Item)
      → All P (collect_candidates arb w (bs ++ ((ex_k, item) ∷ later)))
      → AllFound P (scan_existing_item arb ex_k item w incoming_profile)
  unfolding collect_candidates incoming_profile
  All-collect_candidates P bs ex_k item later h =
      All-scan_items P incoming_profile bs ex_k item later
        (All-behind_marker P (has_marker arb w) (explicit_marker_candidate arb.lang w) _ h)

  pub generate_candidates-Permᴰ :
      (items : Dict Item) → Permᴰ (generate_candidates arb w items) (collect_candidates arb w items)
  unfolding generate_candidates
  generate_candidates-Permᴰ items = sort_falling-Permᴰ scores_less (collect_candidates arb w items)

  scores_less_asym : (c d : Candidate) → scores_less c d ≡ true → scores_less d c ≡ false
  scores_less_asym c d h = ground arith

  pub generate_candidates-IsFalling :
      (items : Dict Item) → IsFalling scores_less (generate_candidates arb w items)
  unfolding generate_candidates
  generate_candidates-IsFalling items =
      sort_falling-IsFalling scores_less scores_less_asym (collect_candidates arb w items)

pub falling_first :
    (n : ℕ) (c : Candidate) (cs : List Candidate)
    → c.score ≤ n
    → IsFalling scores_less (c ∷ cs)
    → All (λ d. d.score ≤ n) (c ∷ cs)
falling_first n c [] m h = (m, tt)
falling_first n c (d ∷ cs) m h = (m, falling_first n d cs (ground (arith, h.0)) h.1)

scan_items_active :
    (arb : Arbiter) (w : Write) (prof : Profile) (items : Dict Item)
    → scan_items arb (keep_if (λ e. not (superseded e.1)) items) w prof
      ≡ scan_items arb items w prof
unfolding scan_items
scan_items_active arb w prof [] = refl
scan_items_active arb w prof ((ex_k, item) ∷ items) =
    let others : Dict Item = keep_if (λ e. not (superseded e.1)) items in
    let later : scan_items arb others w prof ≡ scan_items arb items w prof =
      scan_items_active arb w prof items in
    elim (Bool-cases (superseded item)) [
      | inl e ↦ rw (e, later) refl
      | inr e ↦
          ap (λ b. scan_items arb (if not b then (ex_k, item) ∷ others else others) w prof) e
          ∙ ap (push_found (scan_existing_item arb ex_k item w prof)) later
    ]

-- A candidate above the threshold is not passed over in silence.
answer_reported :
    (arb : Arbiter) (w : Write) (c : Candidate) (cs : List Candidate)
    → arb.config.high_score_threshold ≤ c.score
    → (answer arb w (c ∷ cs)).action ≢ accept
unfolding answer
answer_reported arb w c cs m =
    elim (Bool-cases (is_supersede (decide arb.lang.lower w.key c.key (evidence arb w c)))) [
      | inl e ↦ rw e (λ h. cc)
      | inr e ↦ elim (Bool-cases (is_inversion c.reason)) [
        | inl i ↦ rw (e, i) (λ h. cc)
        | inr i ↦ rw (e, i, le→leb _ _ m) (λ h. cc)
      ]
    ]

best_reported :
    (arb : Arbiter) (w : Write) (c : Candidate) (ranked collected : List Candidate)
    → arb.config.high_score_threshold ≤ c.score
    → Permᴰ ranked collected
    → IsFalling scores_less ranked
    → ((P : Candidate → Type 0) → All P collected → P c)
    → (answer arb w ranked).action ≢ accept
best_reported arb w c [] collected m perm sorted found =
    let e : true ≡ false = found (λ d. true ≡ false) (All-Permᴰ (λ d. true ≡ false) perm tt) in cc
best_reported arb w c (d ∷ ds) collected m perm sorted found =
    let top : All (λ e. e.score ≤ d.score) (d ∷ ds) =
      falling_first d.score d ds (omega arith) sorted in
    let q : c.score ≤ d.score = found (λ e. e.score ≤ d.score) (All-Permᴰ _ perm top) in
    answer_reported arb w d ds (omega (arith, m, q))

pub AllFound-some :
    (P : Candidate → Type 0) (o : Option Candidate) (c : Candidate)
    → o ≡ some c
    → AllFound P o
    → P c
AllFound-some P o c e h = subst (AllFound P) e h

-- When the comparison with a stored item gives a candidate whose score is at least the threshold
-- of the configuration, wherever the item stands among the others, the write is not accepted in
-- silence: the action is a warning or a revision.
pub conflict_not_accepted :
    (arb : Arbiter) (w : Write) (bs : Dict Item) (ex_k : Str) (item : Item) (later : Dict Item)
    (c : Candidate)
    → scan_existing_item arb ex_k item w (incoming_profile arb w) ≡ some c
    → arb.config.high_score_threshold ≤ c.score
    → (arbitrate arb w (bs ++ ((ex_k, item) ∷ later))).action ≢ accept
unfolding arbitrate
conflict_not_accepted arb w bs ex_k item later c e m =
    let items : Dict Item = bs ++ ((ex_k, item) ∷ later) in
    best_reported arb w c (generate_candidates arb w items) (collect_candidates arb w items) m
      (generate_candidates-Permᴰ arb w items) (generate_candidates-IsFalling arb w items)
      (λ P h. AllFound-some P _ c e (All-collect_candidates arb w P bs ex_k item later h))

-- An item that is already superseded changes nothing: the outcome is that of the arbitration
-- against the other items.
superseded_ignored :
    (arb : Arbiter) (w : Write) (items : Dict Item)
    → arbitrate arb w items ≡ arbitrate arb w (keep_if (λ e. not (superseded e.1)) items)
unfolding arbitrate generate_candidates collect_candidates
superseded_ignored arb w items = rw (← scan_items_active arb w _ items) refl
