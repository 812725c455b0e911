-- ===== src/Packing/Greedy.antt =====
-- The worth of the components, the greedy packing by density, and its fallback. A utility is in
-- units of half a billionth of a billionth; fractions are compared crosswise.
use atlas_memory.Prelude.{
  ℕ, ◌+◌, ◌*◌, ◌/◌, max, Bool, ◌&&◌, ◌||◌, List, [], ◌∷◌, ◌++◌, map, Option, some, leb, ltb, ◌==◌,
  if◌then◌else◌, length, keep_if, ◌>>=◌,
}
use atlas_memory.Prelude.Sorting.{sort_falling}
use atlas_memory.Packing.Records.{Scoring, Record, Item, is_adjacent, valid_items}
use atlas_memory.Packing.Components.{components}

unfoldable pub sum_of : (Item → ℕ) → List Item → ℕ
sum_of f [] = 0
sum_of f (i ∷ is) = f i + sum_of f is

-- `sum(it[3] for it in …)`
abbrev pub cost_of : List Item → ℕ
cost_of = sum_of (λ i. i.cost)

-- `sum(len(adj[idx] & comp_set) for idx in comp) // 2`
unfoldable pub internal_edges : Scoring → List Item → ℕ
unfolding sum_of
internal_edges s comp = sum_of (λ i. length (keep_if (is_adjacent s i) comp)) comp / 2

pub record Worth : Type 0 where
  pub records : List Item
  pub cost : ℕ
  pub utility : ℕ

-- `utility(C) = sum(score) * (1.0 + 0.35 * edges + 0.50 * severity)`
unfoldable pub evaluate : Scoring → List Item → Worth
unfolding sum_of internal_edges
evaluate s comp = record {
  records = comp;
  cost = cost_of comp;
  utility =
      sum_of (λ i. i.score) comp
      * (2_000_000_000
          + 700_000_000 * internal_edges s comp
          + sum_of (λ i. i.entry.cpof_severity) comp);
}

-- The order of pairs of a density, a worth over `max(1, cost)`, and that worth.
unfoldable pub is_sparser : ℕ → ℕ → ℕ → ℕ → Bool
is_sparser u c v d = ltb (u * max 1 d) (v * max 1 c) || (u * max 1 d == v * max 1 c) && ltb u v

unfoldable pub sparser_component : Worth → Worth → Bool
unfolding is_sparser
sparser_component a b = is_sparser a.utility a.cost b.utility b.cost

unfoldable pub sparser_item : Item → Item → Bool
unfolding is_sparser
sparser_item a b = is_sparser a.score a.cost b.score b.cost

unfoldable pub lower_score : Item → Item → Bool
lower_score a b = ltb a.score b.score

pub record Packed : Type 0 where
  pub items : List Item
  pub cost : ℕ

-- `if curr_cost + it[3] <= budget`
unfoldable pub add_item : ℕ → Item → Packed → Packed
add_item budget i p =
    if leb (p.cost + i.cost) budget
    then record { items = p.items ++ (i ∷ []); cost = p.cost + i.cost }
    else p

-- The items of a component that does not fit whole, the densest first.
unfoldable pub fill : ℕ → List Item → Packed → Packed
unfolding add_item
fill budget [] p = p
fill budget (i ∷ is) p = fill budget is (add_item budget i p)

-- One component: whole if it fits.
unfoldable pub add_component : ℕ → Worth → Packed → Packed
unfolding fill sparser_item
add_component budget w p =
    if leb (p.cost + w.cost) budget
    then record { items = p.items ++ w.records; cost = p.cost + w.cost }
    else fill budget (sort_falling sparser_item w.records) p

unfoldable pub add_components : ℕ → List Worth → Packed → Packed
unfolding add_component
add_components budget [] p = p
add_components budget (w ∷ ws) p = add_components budget ws (add_component budget w p)

-- `max(valid_items, key=…)`: the first of the densest.
unfoldable pub densest : Item → List Item → Item
unfolding sparser_item
densest best [] = best
densest best (i ∷ is) = densest (if sparser_item best i then i else best) is

-- `if not packed and valid_items and budget > 0`
unfoldable pub or_densest : ℕ → List Item → List Item → List Item
unfolding densest
or_densest budget valid (i ∷ packed) = i ∷ packed
or_densest budget [] [] = []
or_densest budget (v ∷ valid) [] = if ltb 0 budget then densest v valid ∷ [] else []

-- What is packed of the candidates, by falling score.
unfoldable pub pack_items : Scoring → ℕ → List Item → Option (List Item)
unfolding evaluate sparser_component add_components or_densest lower_score
pack_items s budget valid = do
  comps ← components s valid
  let worths = sort_falling sparser_component (map (evaluate s) comps)
  let packed = add_components budget worths (record { items = []; cost = 0 })
  some (sort_falling lower_score (or_densest budget valid packed.items))

unfoldable pub pack_knapsack_01 : Scoring → ℕ → Bool → List Record → Option (List Record)
unfolding pack_items valid_items
pack_knapsack_01 s budget compact rs = do
  packed ← pack_items s budget (valid_items s budget compact rs)
  some (map (λ i. i.entry) packed)
