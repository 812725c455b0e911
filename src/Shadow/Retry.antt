-- ===== src/Shadow/Retry.antt =====
-- The retries of `_extract_spo`: the first answer counts, and only a failure of every attempt falls
-- back to the rules.
use atlas_memory.Prelude.{
  ℕ, zero, suc, ◌≡◌, refl, ap, ◌⊎◌, inl, inr, Bool, true, false, Option, none, some,
}
use atlas_memory.Prelude.Text.{Str}
use atlas_memory.Shadow.Worker.{
  regex_fallback, Client, parsed_status, Extracted, answered, attempts, extract_spo,
}

module _ {W : Type 0} (c : Client W) (u a : Str) where
  -- Every one of the attempts fails.
  abbrev pub AllFail : ℕ → W → Type 0
  AllFail zero w = Unit
  AllFail (suc n) w = ((c.ask u a w).0 ≡ none) × AllFail n (c.ask u a w).1

  -- The first answer among the attempts, and the state behind it.
  abbrev pub FirstAnswer : ℕ → W → Str → W → Type 0
  FirstAnswer zero w content v = ⊥
  FirstAnswer (suc n) w content v =
      (c.ask u a w ≡ (some content, v))
      ⊎ (((c.ask u a w).0 ≡ none) × FirstAnswer n (c.ask u a w).1 content v)

  abbrev pub FellBack : Extracted W → Type 0
  FellBack e =
      (e.facts ≡ c.outside.fallback_extract_facts u a)
      × (e.status.source ≡ regex_fallback)
      × (e.status.error_code ≡ true)

  abbrev pub Answered : Str → W → Extracted W → Type 0
  Answered content v e =
      (e.facts ≡ c.parse_json_facts content)
      × (e.status ≡ parsed_status (c.parse_json_facts content))
      × (e.world ≡ v)

  abbrev Outcome : ℕ → W → Extracted W → Type 0
  Outcome n w e =
      (AllFail n w × FellBack e)
      ⊎ ((content : Str) × (v : W) × FirstAnswer n w content v × Answered content v e)

  attempts-Outcome : (n : ℕ) (tried : Bool) (w : W) → Outcome n w (attempts c u a n tried w)
  unfolding attempts
  attempts-Outcome zero tried w = inl (tt, (refl, refl, refl))
  attempts-Outcome (suc n) tried w =
      step (c.ask u a w) refl (attempts c u a n true (c.ask u a w).1)
        (attempts-Outcome n true (c.ask u a w).1)
    where
      step :
          (r : Option Str × W)
          → c.ask u a w ≡ r
          → (again : Extracted W) → Outcome n (c.ask u a w).1 again
          → Outcome (suc n) w (answered c r.0 r.1 again)
      step (none, v) e again (inl (f, b)) = inl ((ap (λ q. q.0) e, f), b)
      step (none, v) e again (inr (content, x, f, b)) =
          inr (content, x, inr (ap (λ q. q.0) e, f), b)
      step (some content, v) e again o = inr (content, v, inl e, (refl, refl, refl))

  -- Either every one of the configured attempts fails, and the extraction gives the facts of the
  -- rules and records the fall-back with its error code, or there is a first answer, and the
  -- extraction gives the facts parsed from it, records whether there were any, and asks no more.
  pub extract_spo_outcome :
      (w : W)
      → (AllFail c.max_retries w × FellBack (extract_spo c u a w))
        ⊎ ((content : Str) × (v : W) × FirstAnswer c.max_retries w content v
            × Answered content v (extract_spo c u a w))
  unfolding extract_spo
  extract_spo_outcome w = attempts-Outcome c.max_retries false w
