-- ===== src/Graph/Hydrate.antt =====
-- `hydrate_from_disk_sync`: the stages for entities and for relations. Confidences and times are
-- billionths. Of an edge's attributes it has those that the relations write.
use mathlib.Core.List.{filter_map}
use atlas_memory.Prelude.{
  ℕ, ◌+◌, max, Bool, true, false, not, ◌&&◌, List, [], ◌∷◌, ◌++◌, Option, none, some, if◌then◌else◌,
}
use atlas_memory.Prelude.Dict.{listed}
use atlas_memory.Prelude.Sorting.{sort_falling}
use atlas_memory.Prelude.Text.{Str, codes, str_eq, str_leb, is_empty}
use atlas_memory.Graph.Paging.{Outcome, loaded}

pub record Edge : Type 0 where
  pub predicate : Str
  pub confidence : ℕ
  pub timestamp : ℕ
  pub session_id : Option Str

-- `nx.MultiDiGraph`: `n in g`, `add_node(n, type=…)`, `get_edge_data(u, v, key)` and `add_edge`.
pub record Networkx (G : Type 0) : Type 0 where
  pub has_node : G → Str → Bool
  pub add_node : Str → Str → G → G
  pub edge_data : G → Str → Str → Str → Option Edge
  pub add_edge : Str → Str → Str → Edge → G → G

pub record NodeRow : Type 0 where
  pub name : Option Str
  pub entity_type : Option Str

pub record RelRow : Type 0 where
  pub subj : Option Str
  pub obj : Option Str
  pub pred : Option Str
  pub conf : Option ℕ
  pub ts : Option ℕ

-- A row that passed the tests, with its defaults.
pub record Rel : Type 0 where
  pub subj : Str
  pub obj : Str
  pub predicate : Str
  pub confidence : ℕ
  pub stamp : ℕ

pub record Hydration (G : Type 0) : Type 0 where
  pub graph : G
  pub loaded_nodes : ℕ
  pub loaded_edges : ℕ
  pub disk_nodes : ℕ
  pub disk_edges : ℕ
  pub invalid : List Str

abbrev pub value_or {ℓ} : {A : Type ℓ} → A → Option A → A
value_or a none = a
value_or a (some b) = b

-- `invalid_disk_entities.add(…)`
abbrev pub add_invalid : Str → List Str → List Str
add_invalid t ts = if listed t ts then ts else ts ++ (t ∷ [])

-- `str(r[0]), str(r[1]), str(r[2] if r[2] is not None else "")`, compared as tuples.
unfoldable pub row_leb : RelRow → RelRow → Bool
row_leb a b =
    let s = value_or (codes "None") a.subj in
    let s' = value_or (codes "None") b.subj in
    let o = value_or (codes "None") a.obj in
    let o' = value_or (codes "None") b.obj in
    if not (str_eq s s')
    then str_leb s s'
    else if not (str_eq o o')
    then str_leb o o'
    else str_leb (value_or [] a.pred) (value_or [] b.pred)

unfoldable pub sorted_rows : List RelRow → List RelRow
unfolding row_leb
sorted_rows = sort_falling (λ a b. not (row_leb a b))

-- `str(pred) if pred not in (None, "") else "related_to"`
abbrev pub predicate_of : Option Str → Str
predicate_of none = codes "related_to"
predicate_of (some t) = if is_empty t then codes "related_to" else t

-- `valid` is `is_valid_graph_entity`.
module _ (valid : Str → Bool) where
  -- The row, if both its ends are there and valid; floats that are missing are 1 and 0.
  unfoldable pub rel_of : RelRow → Option Rel
  rel_of r = elim r.subj [
    | none ↦ none
    | some s ↦ elim r.obj [
      | none ↦ none
      | some o ↦
          if valid s && valid o
          then some (record {
            subj = s;
            obj = o;
            predicate = predicate_of r.pred;
            confidence = value_or 1_000_000_000 r.conf;
            stamp = value_or 0 r.ts;
          })
          else none
    ]
  ]

  unfoldable pub valid_rels : List RelRow → List Rel
  unfolding rel_of
  valid_rels = filter_map rel_of

  -- The first end of the row that is not valid.
  unfoldable pub note_invalid : List RelRow → List Str → List Str
  note_invalid [] ts = ts
  note_invalid (r ∷ rows) ts = note_invalid rows (elim r.subj [
    | none ↦ ts
    | some s ↦ elim r.obj [
      | none ↦ ts
      | some o ↦
          if not (valid s) then add_invalid s ts else if not (valid o) then add_invalid o ts else ts
    ]
  ])

module _ {G : Type 0} (nx : Networkx G) where
  -- `if … not in self.nx_graph: self.nx_graph.add_node(…)`
  unfoldable pub ensure_node : Str → Str → Hydration G → Hydration G
  ensure_node n kind h =
      if nx.has_node h.graph n
      then h
      else record h { graph = nx.add_node n kind h.graph; loaded_nodes = h.loaded_nodes + 1 }

  -- A new edge, or the old one with the greater confidence and the later time.
  unfoldable pub hydrate_edge : Rel → Hydration G → Hydration G
  hydrate_edge r h = elim (nx.edge_data h.graph r.subj r.obj r.predicate) [
    | none ↦ record h {
      graph =
          nx.add_edge r.subj r.obj r.predicate
            (record {
              predicate = r.predicate;
              confidence = r.confidence;
              timestamp = r.stamp;
              session_id = none;
            })
            h.graph;
      loaded_edges = h.loaded_edges + 1;
    }
    | some prev ↦ record h {
      graph =
          nx.add_edge r.subj r.obj r.predicate
            (record {
              predicate = r.predicate;
              confidence = max prev.confidence r.confidence;
              timestamp = max prev.timestamp r.stamp;
              session_id = prev.session_id;
            })
            h.graph;
    }
  ]

  unfoldable pub hydrate_rel : Rel → Hydration G → Hydration G
  unfolding ensure_node hydrate_edge
  hydrate_rel r h = hydrate_edge r (
      ensure_node r.obj (codes "entity_or_value")
        (ensure_node r.subj (codes "entity") (record h { disk_edges = h.disk_edges + 1 })))

  unfoldable pub hydrate_rels : List Rel → Hydration G → Hydration G
  unfolding hydrate_rel
  hydrate_rels [] h = h
  hydrate_rels (r ∷ rels) h = hydrate_rels rels (hydrate_rel r h)

module _ (valid : Str → Bool) {G : Type 0} (nx : Networkx G) where
  unfoldable pub hydrate_node : NodeRow → Hydration G → Hydration G
  hydrate_node r h = elim r.name [
    | none ↦ h
    | some n ↦
        if is_empty n
        then h
        else if not (valid n)
        then record h { invalid = add_invalid n h.invalid }
        else if nx.has_node h.graph n
        then record h { disk_nodes = h.disk_nodes + 1 }
        else record h {
          graph = nx.add_node n (value_or (codes "entity") r.entity_type) h.graph;
          disk_nodes = h.disk_nodes + 1;
          loaded_nodes = h.loaded_nodes + 1;
        }
  ]

  unfoldable pub hydrate_nodes : List NodeRow → Hydration G → Hydration G
  unfolding hydrate_node
  hydrate_nodes [] h = h
  hydrate_nodes (r ∷ rows) h = hydrate_nodes rows (hydrate_node r h)

  unfoldable pub hydrate_relations : List RelRow → Hydration G → Hydration G
  unfolding sorted_rows valid_rels note_invalid hydrate_rels
  hydrate_relations rows h =
      let sorted = sorted_rows rows in
      hydrate_rels nx (valid_rels valid sorted)
        (record h { invalid = note_invalid valid sorted h.invalid })

  -- The two stages from the outcomes of their scans; the flag is `partial`.
  unfoldable pub hydrate_from_disk_sync : Outcome NodeRow → Outcome RelRow → G → Hydration G × Bool
  unfolding hydrate_nodes hydrate_relations
  hydrate_from_disk_sync nodes rels g =
      let start : Hydration G = record {
        graph = g;
        loaded_nodes = 0;
        loaded_edges = 0;
        disk_nodes = 0;
        disk_edges = 0;
        invalid = [];
      } in
      let (h, no_nodes) = elim nodes as (λ x. Hydration G × Bool) [
        | loaded rows ↦ (hydrate_nodes rows start, false)
        | _ ↦ (start, true)
      ] in
      elim rels [ loaded rows ↦ (hydrate_relations rows h, no_nodes) | _ ↦ (h, true) ]
