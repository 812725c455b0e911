-- ===== src/Packing/Components.antt =====
-- The connected components of the candidates, by breadth-first search. The order in which a set of
-- neighbours is iterated over is not specified; here it is that of the indices.
use atlas_memory.Prelude.{
  ℕ, zero, suc, ◌+◌, Bool, true, false, List, [], ◌∷◌, ◌++◌, Option, none, some, ◌==◌,
  if◌then◌else◌, length, keep_if, ◌>>=◌,
}
use atlas_memory.Packing.Records.{Scoring, Item, is_adjacent}

-- `i in visited`
abbrev pub is_visited : ℕ → List ℕ → Bool
is_visited i [] = false
is_visited i (j ∷ js) = if j == i then true else is_visited i js

pub record Search : Type 0 where
  pub queue : List Item
  pub visited : List ℕ

-- One neighbour: skipped if it was visited, marked and queued if not.
unfoldable pub visit : Item → Search → Search
visit n s =
    if is_visited n.index s.visited
    then s
    else record { queue = s.queue ++ (n ∷ []); visited = s.visited ++ (n.index ∷ []) }

unfoldable pub visit_all : List Item → Search → Search
unfolding visit
visit_all [] s = s
visit_all (n ∷ ns) s = visit_all ns (visit n s)

module _ (s : Scoring) (valid : List Item) where
  -- `adj[curr]`
  unfoldable pub neighbors : Item → List Item
  neighbors curr = keep_if (is_adjacent s curr) valid

  -- `while queue`, on fuel: the component so far, and at the end what was visited.
  unfoldable pub component : ℕ → List Item → Search → Option (List Item × List ℕ)
  unfolding visit_all neighbors
  component zero comp st = none
  component (suc fuel) comp st = elim st.queue [
    | [] ↦ some (comp, st.visited)
    | curr ∷ queue ↦
        component fuel (comp ++ (curr ∷ []))
          (visit_all (neighbors curr) (record st { queue = queue }))
  ]

  -- One component from each item that was not visited. A round takes one item off the queue.
  unfoldable pub components_from : List Item → List ℕ → Option (List (List Item))
  unfolding component
  components_from [] visited = some []
  components_from (i ∷ is) visited =
      let skipped = components_from is visited in
      let started = do
        found ←
            component (length valid + 1) []
              (record { queue = i ∷ []; visited = visited ++ (i.index ∷ []) })
        rest ← components_from is found.1
        some (found.0 ∷ rest)
      in if is_visited i.index visited then skipped else started

  unfoldable pub components : Option (List (List Item))
  unfolding components_from
  components = components_from valid []
