-- ===== src/Packing/Tests.antt =====
-- Packing four small records into several budgets, with a lower case that changes nothing.
use atlas_memory.Prelude.{
  ℕ, ◌≡◌, refl, ◌≤◌, ◌<◌, ◌⊎◌, arith, true, false, List, [], ◌∷◌, ◌++◌, map, some, length, All,
}
use mathlib.Core.List.{Permᴰ}
use atlas_memory.Prelude.Text.{Str, codes, str_eq, starts_with, occurs_in, strip_space}
use atlas_memory.Prelude.Sorting.{insert_falling, sort_onto, sort_falling}
use atlas_memory.Packing.Records.{
  Record, Item, Scoring, estimate_tokens, compacted, total_tokens, effective_records, rank,
  items_from, valid_items, normalized, step_nodes, endpoints, meets, is_connected, is_adjacent,
}
use atlas_memory.Packing.Components.{
  visit, visit_all, neighbors, component, components_from, components,
}
use atlas_memory.Packing.Greedy.{
  sum_of, cost_of, internal_edges, evaluate, is_sparser, sparser_component, sparser_item,
  lower_score, add_item, fill, add_component, add_components, densest, or_densest, pack_items,
  pack_knapsack_01,
}
use atlas_memory.Packing.Budget.{pack_knapsack_01_within, pack_knapsack_01_whole}

program : Unit {0}
unfolding str_eq starts_with occurs_in strip_space insert_falling sort_onto sort_falling
    estimate_tokens compacted total_tokens effective_records rank items_from valid_items normalized
    step_nodes endpoints meets is_connected is_adjacent visit visit_all neighbors component
    components_from components sum_of internal_edges evaluate is_sparser sparser_component
    sparser_item lower_score add_item fill add_component add_components densest or_densest
    pack_items pack_knapsack_01
program = tt

abbrev scoring : Scoring
scoring = record { lower = λ t. t; compute_record_rank = λ r. some 0; semantic_dedup = λ rs. rs }

abbrev fact : Str → Str → ℕ → Record
fact u v k = record {
  subject = u;
  object = v;
  steps = [];
  is_superseded = false;
  score = some (some k);
  cpof_severity = 0;
}

-- `cause` and `effect` are a chain, `apart` stands for itself, `old` is superseded.
abbrev cause : Record
cause = fact (codes "ab") (codes "cd") 2_000_000_000

abbrev effect : Record
effect = fact (codes "cd") (codes "ef") 1_000_000_000

abbrev apart : Record
apart = fact (codes "xyz") (codes "uvw") 1_500_000_000

abbrev old : Record
old = record (fact (codes "ab") (codes "gh") 9_000_000_000) { is_superseded = true }

abbrev facts : List Record
facts = apart ∷ cause ∷ old ∷ effect ∷ []

packs_all : pack_knapsack_01 scoring 13 false facts ≡ some (cause ∷ apart ∷ effect ∷ [])
unfolding program
packs_all = refl

-- The chain is denser, so it goes first and whole; nothing else fits behind it.
packs_chain : pack_knapsack_01 scoring 9 false facts ≡ some (cause ∷ effect ∷ [])
unfolding program
packs_chain = refl

splits_chain : pack_knapsack_01 scoring 4 false facts ≡ some (cause ∷ [])
unfolding program
splits_chain = refl

-- Each of the candidates costs more than the budget of 1.
packs_densest : pack_knapsack_01 scoring 1 false facts ≡ some (cause ∷ [])
unfolding program
packs_densest = refl

packs_nothing : pack_knapsack_01 scoring 0 false facts ≡ some []
unfolding program
packs_nothing = refl

pack_knapsack_01_within_example :
    (packed left : List Item) × (pack_knapsack_01 scoring 9 false facts
      ≡ some (map (λ i. i.entry) packed))
    × Permᴰ (packed ++ left) (valid_items scoring 9 false facts)
    × ((cost_of packed ≤ 9)
        ⊎ ((length packed ≡ 1) × All (λ i. 9 < i.cost) (valid_items scoring 9 false facts)))
pack_knapsack_01_within_example = pack_knapsack_01_within scoring 9 false facts

pack_knapsack_01_whole_example :
    (packed : List Item) × (pack_knapsack_01 scoring 13 false facts
      ≡ some (map (λ i. i.entry) packed))
    × Permᴰ packed (valid_items scoring 13 false facts)
unfolding program
pack_knapsack_01_whole_example = pack_knapsack_01_whole scoring 13 false facts (omega arith)
