-- ===== src/Packing/Budget.antt =====
-- What `pack_knapsack_01` promises about the budget.
use mathlib.Core.List.{Permᴰ}
use mathlib.Core.List.Permᴰ
use atlas_memory.Prelude.{
  ℕ, suc, ◌+◌, ◌≤◌, ◌<◌, Bool, false, List, [], ◌∷◌, ◌++◌, map, some, ◌≡◌, refl, sym, ◌∙◌, subst,
  ◌⊎◌, inl, inr, arith, ltb, length, All, Bool-cases, Option-cases,
}
use atlas_memory.Prelude.Sorting.{length-Permᴰ, sort_falling, sort_falling-Permᴰ}
use atlas_memory.Packing.Records.{
  Scoring, Record, Item, rank, items_from, effective_records, valid_items,
}
use atlas_memory.Packing.Components.{is_visited}
use atlas_memory.Packing.Greedy.{
  sum_of, cost_of, evaluate, sparser_component, sparser_item, lower_score, Packed, add_components,
  densest, or_densest, pack_items, pack_knapsack_01,
}
use atlas_memory.Packing.Fresh.{indices, HasDistinctIndices}
use atlas_memory.Packing.Partition.{components-Permᴰ}
use atlas_memory.Packing.Filling.{sum_of-Permᴰ, All-Permᴰ, IsExhausted}
use atlas_memory.Packing.Rounds.{
  IsFair, records_of, add_components-IsWithin, add_components-IsSplit, add_components-IsExhausted,
  add_components_whole, evaluate-IsFair, records_of-evaluate, records_of-Permᴰ,
}

items_from-above :
    (s : Scoring) (n k : ℕ) (rs : List Record)
    → k < n
    → is_visited k (indices (items_from s n rs)) ≡ false
unfolding items_from
items_from-above s n k [] m = refl
items_from-above s n k (r ∷ rs) m =
    let later = items_from-above s (suc n) k rs (omega arith) in
    elim (Option-cases (rank s r)) [
      | inl ranked_none ↦ rw (ranked_none, items_from) later
      | inr (q, ranked) ↦ rw (ranked, items_from) (ground (arith, later, m))
    ]

items_from-HasDistinctIndices :
    (s : Scoring) (n : ℕ) (rs : List Record) → HasDistinctIndices (items_from s n rs)
unfolding items_from
items_from-HasDistinctIndices s n [] = tt
items_from-HasDistinctIndices s n (r ∷ rs) =
    let later = items_from-HasDistinctIndices s (suc n) rs in
    elim (Option-cases (rank s r)) [
      | inl ranked_none ↦ rw (ranked_none, items_from) later
      | inr (q, ranked) ↦
          rw (ranked, items_from) (items_from-above s (suc n) n rs (omega arith), later)
    ]

valid_items-HasDistinctIndices :
    (s : Scoring) (budget : ℕ) (compact : Bool) (rs : List Record)
    → HasDistinctIndices (valid_items s budget compact rs)
unfolding valid_items
valid_items-HasDistinctIndices s budget compact rs =
    items_from-HasDistinctIndices s 0 (effective_records budget compact (s.semantic_dedup rs))

-- The densest is one of the items.
densest-Permᴰ :
    (best : Item) (is : List Item) → (left : List Item) × Permᴰ (densest best is ∷ left) (best ∷ is)
unfolding densest
densest-Permᴰ best [] = ([], Permᴰ.refl (best ∷ []))
densest-Permᴰ best (i ∷ is) = elim (Bool-cases (sparser_item best i)) [
  | inl less ↦
      let (left, part) = densest-Permᴰ i is in
      rw less (best ∷ left, Permᴰ.trans (Permᴰ.swap refl refl) (Permᴰ.cons refl part))
  | inr not_less ↦
      let (left, part) = densest-Permᴰ best is in
      rw not_less (
        i ∷ left,
        Permᴰ.trans (Permᴰ.swap refl refl)
            (Permᴰ.trans (Permᴰ.cons refl part) (Permᴰ.swap refl refl)),
      )
]

-- What the greedy rounds took, or the densest item if they took nothing.
or_densest_lem :
    (budget : ℕ) (items valid left : List Item)
    → Permᴰ (items ++ left) valid
    → cost_of items ≤ budget
    → (1 ≤ length items) ⊎ All (λ i. budget < i.cost) valid
    → (rest : List Item) × Permᴰ (or_densest budget valid items ++ rest) valid
      × ((cost_of (or_densest budget valid items) ≤ budget)
          ⊎ ((length (or_densest budget valid items) ≡ 1) × All (λ i. budget < i.cost) valid))
unfolding or_densest
or_densest_lem budget (i ∷ items) valid left part within some_or = (left, part, inl within)
or_densest_lem budget [] [] left part within some_or = ([], Permᴰ.nil, inl within)
or_densest_lem budget [] (v ∷ valid) left part within (inl some_item) = absurd (omega arith)
or_densest_lem budget [] (v ∷ valid) left part within (inr too_big) =
    elim (Bool-cases (ltb 0 budget)) [
      | inl positive ↦
          let (rest, one) = densest-Permᴰ v valid in
          rw (positive, or_densest) (rest, one, inr (refl, too_big))
      | inr zero ↦ rw (zero, or_densest) (v ∷ valid, Permᴰ.refl (v ∷ valid), inl within)
    ]

or_densest_whole :
    (budget : ℕ) (items valid : List Item)
    → Permᴰ items valid
    → Permᴰ (or_densest budget valid items) valid
unfolding or_densest
or_densest_whole budget (i ∷ items) valid part = part
or_densest_whole budget [] [] part = part
or_densest_whole budget [] (v ∷ valid) part = absurd (omega (arith, length-Permᴰ part))

All-from_zero :
    (budget : ℕ) (is : List Item)
    → All (λ i. budget < 0 + i.cost) is
    → All (λ i. budget < i.cost) is
All-from_zero budget [] h = tt
All-from_zero budget (i ∷ is) h = (omega (arith, h.0), All-from_zero budget is h.1)

module _ (s : Scoring) (budget : ℕ) (valid : List Item) (distinct : HasDistinctIndices valid) where
  -- What the greedy rounds make of the candidates, before the fallback.
  greedy_total :
      (out : Packed) × (left : List Item) × (pack_items s budget valid
        ≡ some (sort_falling lower_score (or_densest budget valid out.items)))
      × Permᴰ (out.items ++ left) valid
      × (cost_of out.items ≤ budget)
      × ((1 ≤ length out.items) ⊎ All (λ i. budget < i.cost) valid)
      × (cost_of valid ≤ budget → Permᴰ out.items valid)
  unfolding sum_of pack_items
  greedy_total =
      let (comps, runs, part, full) = components-Permᴰ s valid distinct in
      let worths = map (evaluate s) comps in
      let sorted = sort_falling sparser_component worths in
      let start : Packed = record { items = []; cost = 0 } in
      let fair =
        All-Permᴰ IsFair (Permᴰ.symm (sort_falling-Permᴰ sparser_component worths))
          (evaluate-IsFair budget s comps full) in
      let of_valid =
        Permᴰ.trans (records_of-Permᴰ (sort_falling-Permᴰ sparser_component worths))
          (subst (λ z. Permᴰ z valid) (sym (records_of-evaluate budget s comps)) part) in
      let out = add_components budget sorted start in
      let within = add_components-IsWithin budget sorted start fair (refl, omega arith) in
      let (left, split) = add_components-IsSplit budget sorted start in
      (
        out,
        left,
        rw (runs, pack_items) refl,
        Permᴰ.trans split of_valid,
        omega (arith, within.0, within.1),
        exhausted (records_of sorted) out of_valid
            (add_components-IsExhausted budget sorted start fair),
        λ m.
            subst (λ z. Permᴰ z valid)
              (sym (
                add_components_whole budget sorted start fair
                  (omega (arith, m, sum_of-Permᴰ (λ i. i.cost) of_valid))))
              of_valid,
      )
    where
      exhausted :
          (is : List Item) (out : Packed)
          → Permᴰ is valid
          → IsExhausted budget (record { items = []; cost = 0 }) is out
          → (1 ≤ length out.items) ⊎ All (λ i. budget < i.cost) valid
      exhausted is out part (inl some_item) = inl some_item
      exhausted is out part (inr h) =
          inr (All-Permᴰ (λ i. budget < i.cost) part (All-from_zero budget is h.2))

module _ (s : Scoring) (budget : ℕ) (compact : Bool) (rs : List Record) where
  -- Packing ends for all records and every budget. It returns some of the candidates (the records
  -- with a rank that is not negative), each at most once. Their cost is at most the budget, unless
  -- each of the candidates alone costs more: then it may return one of them.
  pub pack_knapsack_01_within :
      (packed left : List Item) × (pack_knapsack_01 s budget compact rs
        ≡ some (map (λ i. i.entry) packed))
      × Permᴰ (packed ++ left) (valid_items s budget compact rs)
      × ((cost_of packed ≤ budget)
          ⊎ ((length packed ≡ 1) × All (λ i. budget < i.cost) (valid_items s budget compact rs)))
  unfolding pack_knapsack_01
  pack_knapsack_01_within =
      let valid = valid_items s budget compact rs in
      let (out, left, runs, part, within, some_or, whole) =
        greedy_total s budget valid (valid_items-HasDistinctIndices s budget compact rs) in
      let chosen = or_densest budget valid out.items in
      let same = sort_falling-Permᴰ lower_score chosen in
      let (rest, kept, bound) = or_densest_lem budget out.items valid left part within some_or in
      (
        sort_falling lower_score chosen,
        rest,
        rw (runs, pack_knapsack_01) refl,
        Permᴰ.trans (Permᴰ.append_right rest same) kept,
        sorted_bound valid same bound,
      )
    where
      sorted_bound :
          {xs ys : List Item} (valid : List Item)
          → Permᴰ xs ys
          → (cost_of ys ≤ budget) ⊎ ((length ys ≡ 1) × All (λ i. budget < i.cost) valid)
          → (cost_of xs ≤ budget) ⊎ ((length xs ≡ 1) × All (λ i. budget < i.cost) valid)
      sorted_bound valid q (inl within) = inl (omega (arith, within, sum_of-Permᴰ (λ i. i.cost) q))
      sorted_bound valid q (inr (one, big)) = inr (length-Permᴰ q ∙ one, big)

  -- If the candidates together cost at most the budget, packing returns all of them.
  pub pack_knapsack_01_whole :
      cost_of (valid_items s budget compact rs) ≤ budget
      → (packed : List Item) × (pack_knapsack_01 s budget compact rs
          ≡ some (map (λ i. i.entry) packed))
        × Permᴰ packed (valid_items s budget compact rs)
  unfolding pack_knapsack_01
  pack_knapsack_01_whole m =
      let valid = valid_items s budget compact rs in
      let (out, left, runs, part, within, some_or, whole) =
        greedy_total s budget valid (valid_items-HasDistinctIndices s budget compact rs) in
      let chosen = or_densest budget valid out.items in
      (
        sort_falling lower_score chosen,
        rw (runs, pack_knapsack_01) refl,
        Permᴰ.trans (sort_falling-Permᴰ lower_score chosen)
            (or_densest_whole budget out.items valid (whole m)),
      )
