-- ===== src/Graph/Tests.antt =====
-- Scans with an engine that fails on large pages, and hydration of a graph held in functions.
use mathlib.Core.List.{filter_map}
use atlas_memory.Prelude.{
  ℕ, ◌+◌, ◌≡◌, refl, ◌⊎◌, inl, inr, arith, Bool, true, not, ◌&&◌, List, [], ◌∷◌, Option, some, none,
  leb, if◌then◌else◌, take, drop, Bool-cases,
}
use atlas_memory.Prelude.Dict.{listed}
use atlas_memory.Prelude.Sorting.{insert_falling, sort_onto, sort_falling}
use atlas_memory.Prelude.Text.{Str, codes, str_eq, str_leb, is_empty}
use atlas_memory.Graph.Paging.{Engine, failed, loaded, scan_pages, hydrate_paged}
use atlas_memory.Graph.Scan.{IsStable, Failure, hydrate_paged_total}
use atlas_memory.Graph.Hydrate.{
  Edge, Networkx, RelRow, Hydration, row_leb, sorted_rows, rel_of, valid_rels, note_invalid,
  hydrate_node, hydrate_nodes, ensure_node, hydrate_edge, hydrate_rel, hydrate_rels,
  hydrate_relations, hydrate_from_disk_sync,
}
use atlas_memory.Graph.Merge.{IsMultigraph, merged, hydrate_relations-edge_data}

program : Unit {0}
unfolding filter_map insert_falling sort_onto sort_falling str_eq str_leb scan_pages hydrate_paged
    row_leb sorted_rows rel_of valid_rels note_invalid hydrate_node hydrate_nodes ensure_node
    hydrate_edge hydrate_rel hydrate_rels hydrate_relations hydrate_from_disk_sync
program = tt

-- An engine that fails on pages of more than 100 rows; its state counts the calls.
abbrev engine : List ℕ → Engine ℕ ℕ
engine rows = record {
  execute = λ offset limit w.
      (if leb limit 100 then some (take limit (drop offset rows)) else none, w + 1);
}

engine-IsStable : (rows : List ℕ) → IsStable (engine rows) rows
engine-IsStable rows offset limit w = elim (Bool-cases (leb limit 100)) [
  | inl small ↦ inr (rw small refl)
  | inr large ↦ inl (rw large refl)
]

loads_all : hydrate_paged (engine (7 ∷ 8 ∷ 9 ∷ [])) 9 512 0 ≡ loaded (7 ∷ 8 ∷ 9 ∷ [])
unfolding program
loads_all = refl

raises :
    hydrate_paged {W = ℕ} {R = ℕ} (record { execute = λ offset limit w. (none, w) }) 9 512 0
    ≡ failed
unfolding program
raises = refl

record Memory : Type 0 where
  nodes : List Str
  edges : Str → Str → Str → Option Edge

abbrev memory : Networkx Memory
memory = record {
  has_node = λ g n. listed n g.nodes;
  add_node = λ n kind g. record g { nodes = n ∷ g.nodes };
  edge_data = λ g u v k. g.edges u v k;
  add_edge = λ a b i e g. record g {
    edges = λ u v k. if str_eq a u && str_eq b v && str_eq i k then some e else g.edges u v k;
  };
}

memory-IsMultigraph : IsMultigraph memory
memory-IsMultigraph = record {
  edge_of_node = λ n kind u v k g. refl;
  edge_of_edge = λ a b i u v k e g. refl;
}

abbrev rel_row : Str → Str → ℕ → ℕ → RelRow
rel_row s o conf ts = record {
  subj = some s;
  obj = some o;
  pred = none;
  conf = some conf;
  ts = some ts;
}

abbrev rows : List RelRow
rows =
    rel_row (codes "b") (codes "c") 5 1
    ∷ rel_row (codes "a") (codes "b") 3 9
    ∷ rel_row (codes "a") (codes "b") 4 2
    ∷ rel_row (codes "") (codes "b") 4 2
    ∷ []

abbrev fresh_start : Hydration Memory
fresh_start = record {
  graph = record { nodes = []; edges = λ u v k. none };
  loaded_nodes = 0;
  loaded_edges = 0;
  disk_nodes = 0;
  disk_edges = 0;
  invalid = [];
}

abbrev is_valid : Str → Bool
is_valid t = not (is_empty t)

counts_edges : (hydrate_relations is_valid memory rows fresh_start).loaded_edges ≡ 2
unfolding program
counts_edges = refl

notes_invalid : (hydrate_relations is_valid memory rows fresh_start).invalid ≡ [] ∷ []
unfolding program
notes_invalid = refl

keeps_highest :
    memory.edge_data
      (hydrate_relations is_valid memory rows fresh_start).graph
      (codes "a")
      (codes "b")
      (codes "related_to")
    ≡ some (record {
      predicate = codes "related_to";
      confidence = 4;
      timestamp = 9;
      session_id = none;
    })
unfolding program
keeps_highest = refl

-- A scan that failed leaves its stage out and marks the result as partial.
partial_result :
    (hydrate_from_disk_sync is_valid memory failed (loaded rows) fresh_start.graph).1 ≡ true
unfolding program
partial_result = refl

hydrate_paged_total_example :
    (hydrate_paged (engine (7 ∷ 8 ∷ 9 ∷ [])) 452 512 0 ≡ loaded (7 ∷ 8 ∷ 9 ∷ []))
    ⊎ ((hydrate_paged (engine (7 ∷ 8 ∷ 9 ∷ [])) 452 512 0 ≡ failed)
        × Failure (engine (7 ∷ 8 ∷ 9 ∷ [])) (7 ∷ 8 ∷ 9 ∷ []))
hydrate_paged_total_example =
    hydrate_paged_total (engine (7 ∷ 8 ∷ 9 ∷ [])) (7 ∷ 8 ∷ 9 ∷ [])
      (engine-IsStable (7 ∷ 8 ∷ 9 ∷ [])) 452 512 0 (omega arith)

hydrate_relations-edge_data_example :
    memory.edge_data
      (hydrate_relations is_valid memory rows fresh_start).graph
      (codes "a")
      (codes "b")
      (codes "related_to")
    ≡ merged
        (codes "a")
        (codes "b")
        (codes "related_to")
        (valid_rels is_valid rows)
        (memory.edge_data fresh_start.graph (codes "a") (codes "b") (codes "related_to"))
hydrate_relations-edge_data_example =
    hydrate_relations-edge_data (codes "a") (codes "b") (codes "related_to") memory
      memory-IsMultigraph is_valid rows fresh_start
