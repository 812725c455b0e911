-- ===== src/Graph/MultigraphTests.antt =====
-- `AtlasMultiDiGraph` over a multigraph of lists, with ASCII lower case.
use atlas_memory.Prelude.{
  ◌+◌, ◌≡◌, refl, ap, arith, Bool, true, false, not, ◌&&◌, List, [], ◌∷◌, ◌++◌, map, some, none,
  leb, if◌then◌else◌, length, keep_if, any_of, Bool-cases, inl, inr,
}
use atlas_memory.Prelude.Dict.{listed, listed-append, lookup, insert, delete}
use atlas_memory.Prelude.Text.{Str, codes, str_eq, str_eq_iff, strip_space}
use atlas_memory.Graph.Multigraph.{
  Super, new_atlas, Method, add_node, add_edge, remove_edge, remove_node, number_of_edges,
  index_node_entry, index_all, forget_all, counted, call, calls, resolve_canonical_node,
}
use atlas_memory.Graph.Index.{IsSuper, calls_answer}

program : Unit {0}
unfolding lookup insert delete str_eq strip_space index_node_entry index_all forget_all counted call
    calls resolve_canonical_node
program = tt

abbrev lower : Str → Str
lower = map (λ c. if leb b'A' c && leb c b'Z' then c + 32 else c)

record Net : Type 0 where
  nodes : List Str
  edges : List (Str × Str × Str)

abbrev is_edge : Str → Str → Str → Str × Str × Str → Bool
is_edge u v k e = str_eq e.0 u && str_eq e.1 v && str_eq e.2 k

abbrev ends : List (Str × Str × Str) → List Str
ends [] = []
ends (e ∷ es) = e.0 ∷ e.1 ∷ ends es

abbrev super : Super Net
super = record {
  has_node = λ g n. listed n g.nodes;
  number_of_edges = λ g. length g.edges;
  add_node = λ n g. record g { nodes = n ∷ g.nodes };
  add_nodes_from = λ ns g. record g { nodes = ns ++ g.nodes };
  add_edge = λ u v k g. record { nodes = u ∷ v ∷ g.nodes; edges = (u, v, k) ∷ g.edges };
  remove_edge = λ u v k g.
      if any_of (is_edge u v k) g.edges
      then some (record g { edges = keep_if (λ e. not (is_edge u v k e)) g.edges })
      else none;
  add_edges_from = λ es g. record { nodes = ends es ++ g.nodes; edges = es ++ g.edges };
  remove_edges_from =
      λ es g. record g { edges = keep_if (λ e. not (any_of (is_edge e.0 e.1 e.2) es)) g.edges };
  remove_node = λ n g.
      if listed n g.nodes
      then some (record {
        nodes = keep_if (λ j. not (str_eq n j)) g.nodes;
        edges = keep_if (λ e. not (str_eq e.0 n) && not (str_eq e.1 n)) g.edges;
      })
      else none;
  remove_nodes_from = λ ns g. record {
    nodes = keep_if (λ j. not (listed j ns)) g.nodes;
    edges = keep_if (λ e. not (listed e.0 ns) && not (listed e.1 ns)) g.edges;
  };
  clear = λ g. record { nodes = []; edges = [] };
  clear_edges = λ g. record g { edges = [] };
}

listed-without :
    (p : Str → Bool) (m : Str) (ns : List Str)
    → listed m (keep_if (λ j. not (p j)) ns) ≡ (if p m then false else listed m ns)
listed-without p m [] = ground arith
listed-without p m (j ∷ ns) =
    let same : str_eq j m ≡ true → p j ≡ p m = λ e. ap p ((str_eq_iff j m).0 e) in
    ground (arith, same, listed-without p m ns)

super-IsSuper : IsSuper super
super-IsSuper = record {
  nodes_add_node = λ n m g. refl;
  nodes_add_nodes_from = λ ns m g. listed-append m ns g.nodes;
  nodes_add_edge = λ u v k m g h. ground (arith, h);
  nodes_remove_edge = λ u v k m g. elim (Bool-cases (any_of (is_edge u v k) g.edges)) [
    | inl some_edge ↦ rw some_edge refl
    | inr no_edge ↦ rw no_edge refl
  ];
  nodes_add_edges_from = λ es m g h. ground (arith, listed-append m (ends es) g.nodes, h);
  nodes_remove_edges_from = λ es m g. refl;
  nodes_remove_node = λ n m g. elim (Bool-cases (listed n g.nodes)) [
    | inl stands ↦ rw stands (listed-without (str_eq n) m g.nodes)
    | inr absent ↦
        let same : str_eq n m ≡ true → listed n g.nodes ≡ listed m g.nodes =
          λ e. ap (λ z. listed z g.nodes) ((str_eq_iff n m).0 e) in
        rw absent (ground (arith, same, absent))
  ];
  nodes_remove_nodes_from = λ ns m g. listed-without (λ j. listed j ns) m g.nodes;
  nodes_clear_edges = λ m g. refl;
  edges_add_node = λ n g. refl;
  edges_add_nodes_from = λ ns g. refl;
  edges_clear = λ g. refl;
  edges_clear_edges = λ g. refl;
}

abbrev nothing : Net
nothing = record { nodes = []; edges = [] }

abbrev made : List Method
made =
    add_node (codes "Ab")
    ∷ add_edge (codes "Ab") (codes "Cd") (codes "k")
    ∷ number_of_edges
    ∷ remove_edge (codes "x") (codes "y") (codes "z")
    ∷ add_node (codes "E")
    ∷ remove_node (codes "E")
    ∷ []

counts_one : (counted lower super (calls lower super made (new_atlas nothing))).1 ≡ 1
unfolding program
counts_one = refl

-- A node that came with an edge is not in the index.
not_indexed :
    resolve_canonical_node lower super (calls lower super made (new_atlas nothing)) (codes "cd")
    ≡ none
unfolding program
not_indexed = refl

-- Of two nodes that differ in case, removing one takes the other from the index.
abbrev two_cases : List Method
two_cases = add_node (codes "Ab") ∷ add_node (codes "AB") ∷ remove_node (codes "AB") ∷ []

lost_entry :
    resolve_canonical_node lower super
      (calls lower super two_cases (new_atlas nothing))
      (codes "ab")
    ≡ none
unfolding program
lost_entry = refl

calls_answer_example :
    ((counted lower super (calls lower super made (new_atlas nothing))).1
      ≡ super.number_of_edges (calls lower super made (new_atlas nothing)).graph)
    × ((term s : Str)
        → resolve_canonical_node lower super (calls lower super made (new_atlas nothing)) term
          ≡ some s
        → super.has_node (calls lower super made (new_atlas nothing)).graph s ≡ true)
unfolding program
calls_answer_example =
    calls_answer lower super super-IsSuper made nothing refl
      ((refl, tt), (tt, (tt, (tt, ((refl, tt), ((refl, tt), tt))))))
