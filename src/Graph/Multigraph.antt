-- ===== src/Graph/Multigraph.antt =====
-- `AtlasMultiDiGraph`: the number of edges it remembers, its revision, and its index of node names in
-- lower case. Attributes and the index of lemmas are left out; `_node_index_lower` is written and
-- read as `_canonical_lower` is.
use atlas_memory.Prelude.{ℕ, ◌+◌, Bool, List, [], ◌∷◌, Option, none, some, if◌then◌else◌}
use atlas_memory.Prelude.Dict.{Dict, lookup, insert, delete}
use atlas_memory.Prelude.Text.{Str, is_empty, strip_space}

-- The methods of `nx.MultiDiGraph`: `none` where it raises.
pub record Super (G : Type 0) : Type 0 where
  pub has_node : G → Str → Bool
  pub number_of_edges : G → ℕ
  pub add_node : Str → G → G
  pub add_nodes_from : List Str → G → G
  pub add_edge : Str → Str → Str → G → G
  pub add_edges_from : List (Str × Str × Str) → G → G
  pub remove_edge : Str → Str → Str → G → Option G
  pub remove_edges_from : List (Str × Str × Str) → G → G
  pub remove_node : Str → G → Option G
  pub remove_nodes_from : List Str → G → G
  pub clear : G → G
  pub clear_edges : G → G

pub record Atlas (G : Type 0) : Type 0 where
  pub graph : G
  pub cached_edge_count : Option ℕ
  pub revision : ℕ
  pub canonical_lower : Dict Str

-- `__init__` without incoming data.
abbrev pub new_atlas : {G : Type 0} → G → Atlas G
new_atlas g = record { graph = g; cached_edge_count = some 0; revision = 0; canonical_lower = [] }

pub data Method : Type 0 where
  add_node : Str → Method
  add_nodes_from : List Str → Method
  add_edge : Str → Str → Str → Method
  add_edges_from : List (Str × Str × Str) → Method
  remove_edge : Str → Str → Str → Method
  remove_edges_from : List (Str × Str × Str) → Method
  remove_node : Str → Method
  remove_nodes_from : List Str → Method
  clear : Method
  clear_edges : Method
  number_of_edges : Method

abbrev pub or_same {ℓ} : {A : Type ℓ} → A → Option A → A
or_same a none = a
or_same a (some b) = b

-- `lower` is `str.lower`.
module _ {G : Type 0} (lower : Str → Str) (nx : Super G) where
  unfoldable pub index_node_entry : Str → Dict Str → Dict Str
  index_node_entry n canon =
      let s = strip_space n in if is_empty s then canon else insert (lower s) s canon

  unfoldable pub index_all : List Str → Dict Str → Dict Str
  unfolding index_node_entry
  index_all [] canon = canon
  index_all (n ∷ ns) canon = index_all ns (index_node_entry n canon)

  unfoldable pub forget_all : List Str → Dict Str → Dict Str
  forget_all [] canon = canon
  forget_all (n ∷ ns) canon = forget_all ns (delete (lower (strip_space n)) canon)

  -- `number_of_edges()`: counted when nothing is remembered, and remembered.
  unfoldable pub counted : Atlas G → Atlas G × ℕ
  counted a = elim a.cached_edge_count [
    | none ↦ let n = nx.number_of_edges a.graph in (record a { cached_edge_count = some n }, n)
    | some n ↦ (a, n)
  ]

  -- Every method. One that raises leaves what it had changed before.
  unfoldable pub call : Method → Atlas G → Atlas G
  unfolding index_node_entry index_all forget_all counted
  call (add_node n) a = record a {
    graph = nx.add_node n a.graph;
    revision = a.revision + 1;
    canonical_lower = index_node_entry n a.canonical_lower;
  }
  call (add_nodes_from ns) a = record a {
    graph = nx.add_nodes_from ns a.graph;
    revision = a.revision + 1;
    canonical_lower = index_all ns a.canonical_lower;
  }
  call (add_edge u v k) a = record a {
    graph = nx.add_edge u v k a.graph;
    cached_edge_count = none;
    revision = a.revision + 1;
  }
  call (remove_edge u v k) a = record a {
    graph = or_same a.graph (nx.remove_edge u v k a.graph);
    cached_edge_count = none;
    revision = a.revision + 1;
  }
  call (add_edges_from es) a = record a {
    graph = nx.add_edges_from es a.graph;
    cached_edge_count = none;
    revision = a.revision + 1;
  }
  call (remove_edges_from es) a = record a {
    graph = nx.remove_edges_from es a.graph;
    cached_edge_count = none;
    revision = a.revision + 1;
  }
  call (remove_node n) a = record {
    graph = or_same a.graph (nx.remove_node n a.graph);
    cached_edge_count = none;
    revision = a.revision + 1;
    canonical_lower = delete (lower (strip_space n)) a.canonical_lower;
  }
  call (remove_nodes_from ns) a = record {
    graph = nx.remove_nodes_from ns a.graph;
    cached_edge_count = none;
    revision = a.revision + 1;
    canonical_lower = forget_all ns a.canonical_lower;
  }
  call clear a = record {
    graph = nx.clear a.graph;
    cached_edge_count = some 0;
    revision = a.revision + 1;
    canonical_lower = [];
  }
  call clear_edges a = record a { graph = nx.clear_edges a.graph; cached_edge_count = some 0 }
  call number_of_edges a = (counted a).0

  unfoldable pub calls : List Method → Atlas G → Atlas G
  unfolding call
  calls [] a = a
  calls (c ∷ cs) a = calls cs (call c a)

  -- The name itself if it is a node, else the name that the index has for it.
  unfoldable pub resolve_canonical_node : Atlas G → Str → Option Str
  resolve_canonical_node a term =
      if nx.has_node a.graph term
      then some term
      else lookup (strip_space (lower term)) a.canonical_lower
