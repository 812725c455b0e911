-- ===== src/Arbiter/Fatigue.antt =====
-- What a warning of the arbiter rests on.
use atlas_memory.Prelude.{
  ◌≤◌, ◌≡◌, refl, sym, subst, ◌⊎◌, inl, inr, Bool, true, false, ◌||◌, some, List, [], ◌∷◌, leb,
  if◌then◌else◌, All, arith,
}
use mathlib.Core.List.Permᴰ
use atlas_memory.Prelude.Dict.{Dict}
use atlas_memory.Prelude.Sorting.{IsFalling, All-Permᴰ}
use atlas_memory.Arbiter.Kernel.{is_inversion}
use atlas_memory.Arbiter.Candidate.{Item, Candidate, Write}
use atlas_memory.Arbiter.Scan.{Arbiter, scores_less, collect_candidates, generate_candidates}
use atlas_memory.Arbiter.Arbitrate.{
  is_always_reported, revision_result, conflict_result, overlap_result, answer, arbitrate,
}
use atlas_memory.Arbiter.Ranking.{
  falling_first, generate_candidates-Permᴰ, generate_candidates-IsFalling,
}

-- The candidate is worth a warning.
abbrev pub deserves_warning : Arbiter → Candidate → Bool
deserves_warning arb c =
    is_inversion c.reason
    || (leb arb.config.high_score_threshold c.score || is_always_reported c.reason)

warned_branch :
    (b i r : Bool) (c : Candidate) (cs : List Candidate)
    → (if b
        then revision_result c cs
        else if i
        then conflict_result c cs
        else if r
        then conflict_result c cs
        else overlap_result c cs).warning
      ≡ true
    → (b ≡ false) × ((i || r) ≡ true)
warned_branch true i r c cs h = cc
warned_branch false true r c cs h = (refl, refl)
warned_branch false false true c cs h = (refl, refl)
warned_branch false false false c cs h = cc

-- The candidate stands in the list.
abbrev pub Among : Candidate → List Candidate → Type 0
Among c [] = ⊥
Among c (d ∷ ds) = (c ≡ d) ⊎ Among c ds

All-Among : (cs : List Candidate) → All (λ c. Among c cs) cs
All-Among [] = tt
All-Among (c ∷ cs) = (inl refl, each cs (All-Among cs))
  where
    each : (ds : List Candidate) → All (λ d. Among d cs) ds → All (λ d. (d ≡ c) ⊎ Among d cs) ds
    each [] h = tt
    each (d ∷ ds) h = (inr h.0, each ds h.1)

-- The candidate that a warning is about, of a ranked list.
answer_warned :
    (arb : Arbiter) (w : Write) (ranked : List Candidate)
    → IsFalling scores_less ranked
    → (answer arb w ranked).warning ≡ true
    → (c : Candidate) × ((answer arb w ranked).conflicting_key ≡ some c.key)
      × (deserves_warning arb c ≡ true)
      × Among c ranked
      × All (λ d. d.score ≤ c.score) ranked
unfolding answer
answer_warned arb w [] sorted h = cc
answer_warned arb w (c ∷ cs) sorted h =
    let q = warned_branch _ _ _ c (c ∷ cs) h in
    (c, named _ _ _ q.0 q.1, q.1, inl refl, falling_first c.score c cs (omega arith) sorted)
  where
    named :
        (b i r : Bool)
        → b ≡ false
        → (i || r) ≡ true
        → (if b
            then revision_result c (c ∷ cs)
            else if i
            then conflict_result c (c ∷ cs)
            else if r
            then conflict_result c (c ∷ cs)
            else overlap_result c (c ∷ cs)).conflicting_key
          ≡ some c.key
    named b i r e k = ground arith

-- A warning names the key of one of the collected candidates, over the marker and the stored
-- items, whose score is the highest of all, and that candidate reports a confidence inversion, a marker or a collision of
-- exclusive rules, or its score is at least the threshold of the configuration.
pub warning_deserved :
    (arb : Arbiter) (w : Write) (items : Dict Item)
    → (arbitrate arb w items).warning ≡ true
    → (c : Candidate) × ((arbitrate arb w items).conflicting_key ≡ some c.key)
      × (deserves_warning arb c ≡ true)
      × Among c (collect_candidates arb w items)
      × All (λ d. d.score ≤ c.score) (collect_candidates arb w items)
unfolding arbitrate
warning_deserved arb w items h =
    let (c, k, d, member, top) =
      answer_warned arb w (generate_candidates arb w items)
        (generate_candidates-IsFalling arb w items) h in
    (
      c,
      k,
      d,
      moved c member,
      All-Permᴰ (λ d. d.score ≤ c.score) (generate_candidates-Permᴰ arb w items) top,
    )
  where
    Among-All :
        (P : Candidate → Type 0) (c : Candidate) (cs : List Candidate) → Among c cs → All P cs → P c
    Among-All P c [] m h = absurd m
    Among-All P c (d ∷ ds) (inl e) h = subst P (sym e) h.0
    Among-All P c (d ∷ ds) (inr m) h = Among-All P c ds m h.1

    moved :
        (c : Candidate)
        → Among c (generate_candidates arb w items)
        → Among c (collect_candidates arb w items)
    moved c m =
        Among-All (λ d. Among d (collect_candidates arb w items)) c
          (generate_candidates arb w items) m
          (All-Permᴰ (λ d. Among d (collect_candidates arb w items))
            (Permᴰ.symm (generate_candidates-Permᴰ arb w items))
            (All-Among (collect_candidates arb w items)))
