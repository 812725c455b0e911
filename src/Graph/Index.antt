-- ===== src/Graph/Index.antt =====
-- The remembered number of edges is right, and the index names nodes.
use mathlib.Core.Option.{some_inj, none-ne-some}
use atlas_memory.Prelude.{
  ℕ, true, false, List, [], ◌∷◌, none, some, ◌≡◌, refl, sym, ◌∙◌, subst, arith, if◌then◌else◌, All,
  Bool-cases, Option-cases, inl, inr,
}
use atlas_memory.Prelude.Dict.{Dict, lookup, insert, delete, lookup-insert, lookup-delete, listed}
use atlas_memory.Prelude.Text.{Str, str_eq, str_eq_iff, str_eq_refl, is_empty, strip_space}
use atlas_memory.Graph.Multigraph.{
  Super, Atlas, new_atlas, Method, add_node, add_nodes_from, add_edge, add_edges_from, remove_edge,
  remove_edges_from, remove_node, remove_nodes_from, clear, clear_edges, number_of_edges, or_same,
  index_node_entry, index_all, forget_all, counted, call, calls, resolve_canonical_node,
}

-- What networkx documents of these methods.
pub record IsSuper {G : Type 0} (nx : Super G) : Type 0 where
  pub nodes_add_node :
      (n m : Str) (g : G)
      → nx.has_node (nx.add_node n g) m ≡ (if str_eq n m then true else nx.has_node g m)
  pub nodes_add_nodes_from :
      (ns : List Str) (m : Str) (g : G)
      → nx.has_node (nx.add_nodes_from ns g) m ≡ (if listed m ns then true else nx.has_node g m)
  pub nodes_add_edge :
      (u v k m : Str) (g : G) → nx.has_node g m ≡ true → nx.has_node (nx.add_edge u v k g) m ≡ true
  pub nodes_remove_edge :
      (u v k m : Str) (g : G) → nx.has_node (or_same g (nx.remove_edge u v k g)) m ≡ nx.has_node g m
  pub nodes_add_edges_from :
      (es : List (Str × Str × Str)) (m : Str) (g : G)
      → nx.has_node g m ≡ true
      → nx.has_node (nx.add_edges_from es g) m ≡ true
  pub nodes_remove_edges_from :
      (es : List (Str × Str × Str)) (m : Str) (g : G)
      → nx.has_node (nx.remove_edges_from es g) m ≡ nx.has_node g m
  pub nodes_remove_node :
      (n m : Str) (g : G)
      → nx.has_node (or_same g (nx.remove_node n g)) m
        ≡ (if str_eq n m then false else nx.has_node g m)
  pub nodes_remove_nodes_from :
      (ns : List Str) (m : Str) (g : G)
      → nx.has_node (nx.remove_nodes_from ns g) m ≡ (if listed m ns then false else nx.has_node g m)
  pub nodes_clear_edges : (m : Str) (g : G) → nx.has_node (nx.clear_edges g) m ≡ nx.has_node g m
  pub edges_add_node :
      (n : Str) (g : G) → nx.number_of_edges (nx.add_node n g) ≡ nx.number_of_edges g
  pub edges_add_nodes_from :
      (ns : List Str) (g : G) → nx.number_of_edges (nx.add_nodes_from ns g) ≡ nx.number_of_edges g
  pub edges_clear : (g : G) → nx.number_of_edges (nx.clear g) ≡ 0
  pub edges_clear_edges : (g : G) → nx.number_of_edges (nx.clear_edges g) ≡ 0

-- A node name without space around it.
abbrev IsTrimmed : Str → Type 0
IsTrimmed n = strip_space n ≡ n

-- The names of the nodes that a method adds or removes.
abbrev pub names_of : Method → List Str
names_of (add_node n) = n ∷ []
names_of (add_nodes_from ns) = ns
names_of (remove_node n) = n ∷ []
names_of (remove_nodes_from ns) = ns
names_of _ = []

module _ {G : Type 0} (lower : Str → Str) (nx : Super G) where
  -- The remembered number is that of the graph, and each entry of the index is the lower case of a
  -- node.
  pub record IsConsistent (a : Atlas G) : Type 0 where
    pub cached : (n : ℕ) → a.cached_edge_count ≡ some n → n ≡ nx.number_of_edges a.graph
    pub indexed :
        (low s : Str)
        → lookup low a.canonical_lower ≡ some s
        → (nx.has_node a.graph s ≡ true) × (lower s ≡ low)

  abbrev Indexes : G → Dict Str → Type 0
  Indexes g canon =
      (low s : Str) → lookup low canon ≡ some s → (nx.has_node g s ≡ true) × (lower s ≡ low)

  module _ (laws : IsSuper nx) where
    insert-Indexes :
        (n : Str) (g : G) (canon : Dict Str)
        → IsTrimmed n
        → nx.has_node g n ≡ true
        → Indexes g canon
        → Indexes g (index_node_entry lower nx n canon)
    unfolding index_node_entry
    insert-Indexes n g canon trim stands h low s e =
        let trimmed : lookup low (if is_empty n then canon else insert (lower n) n canon) ≡ some s =
          subst (λ z. lookup low (if is_empty z then canon else insert (lower z) z canon) ≡ some s)
            trim e in
        elim (Bool-cases (is_empty n)) [
          | inl empty ↦ h low s (rw empty at trimmed)
          | inr full ↦
              let found : (if str_eq (lower n) low then some n else lookup low canon) ≡ some s =
                sym (lookup-insert (lower n) low n canon) ∙ (rw full at trimmed) in
              elim (Bool-cases (str_eq (lower n) low)) [
                | inl same ↦
                    let p : n ≡ s = some_inj.0 (rw same at found) in
                    (
                      subst (λ z. nx.has_node g z ≡ true) p stands,
                      subst (λ z. lower z ≡ low) p ((str_eq_iff (lower n) low).0 same),
                    )
                | inr other ↦ h low s (rw other at found)
              ]
        ]

    index_all-Indexes :
        (ns : List Str) (g : G) (canon : Dict Str)
        → All IsTrimmed ns
        → ((m : Str) → listed m ns ≡ true → nx.has_node g m ≡ true)
        → Indexes g canon
        → Indexes g (index_all lower nx ns canon)
    unfolding index_all
    index_all-Indexes [] g canon trim stand h = h
    index_all-Indexes (n ∷ ns) g canon trim stand h =
        index_all-Indexes ns g (index_node_entry lower nx n canon) trim.1
          (λ m l. stand m (ground (arith, l)))
          (insert-Indexes n g canon trim.0 (stand n (ground (arith, str_eq_refl n))) h)

    -- An entry that is left behind is one that was there, of no name that was removed.
    forget_all-kept :
        (ns : List Str) (canon : Dict Str) (low s : Str)
        → All IsTrimmed ns
        → lookup low (forget_all lower nx ns canon) ≡ some s
        → (lookup low canon ≡ some s)
          × ((m : Str) → listed m ns ≡ true → str_eq (lower m) low ≡ false)
    unfolding forget_all
    forget_all-kept [] canon low s trim e = (e, λ m l. absurd (ground (arith, l)))
    forget_all-kept (n ∷ ns) canon low s trim e =
        let (kept, apart) =
          forget_all-kept ns (delete (lower (strip_space n)) canon) low s trim.1 e in
        let found : (if str_eq (lower n) low then none else lookup low canon) ≡ some s =
          subst (λ z. (if str_eq (lower z) low then none else lookup low canon) ≡ some s) trim.0
            (sym (lookup-delete (lower (strip_space n)) low canon) ∙ kept) in
        elim (Bool-cases (str_eq (lower n) low)) [
          | inl same ↦ absurd (none-ne-some s (rw same at found))
          | inr other ↦ (
            rw other at found,
            λ m l. elim (Bool-cases (str_eq n m)) [
              | inl it ↦ subst (λ z. str_eq (lower z) low ≡ false) ((str_eq_iff n m).0 it) other
              | inr another ↦ apart m (ground (arith, l, another))
            ],
          )
        ]

    Indexes-mono :
        (g g' : G) (canon : Dict Str)
        → ((m : Str) → nx.has_node g m ≡ true → nx.has_node g' m ≡ true)
        → Indexes g canon
        → Indexes g' canon
    Indexes-mono g g' canon grows h low s e = (grows s (h low s e).0, (h low s e).1)

    forget-Indexes :
        (ns : List Str) (g g' : G) (canon : Dict Str)
        → All IsTrimmed ns
        → ((m : Str) → nx.has_node g' m ≡ (if listed m ns then false else nx.has_node g m))
        → Indexes g canon
        → Indexes g' (forget_all lower nx ns canon)
    forget-Indexes ns g g' canon trim left h low s e =
        let (was, apart) = forget_all-kept ns canon low s trim e in
        let (stood, folds) = h low s was in
        let absent : listed s ns ≡ false =
          ground (arith, apart s, (str_eq_iff (lower s) low).1 folds) in
        (left s ∙ rw absent stood, folds)

    counted-IsConsistent : (a : Atlas G) → IsConsistent a → IsConsistent (counted lower nx a).0
    unfolding counted
    counted-IsConsistent a h = elim (Option-cases a.cached_edge_count) [
      | inl missing ↦
          rw (missing, counted) (record { cached = λ m e. sym (some_inj.0 e); indexed = h.indexed })
      | inr (n, known) ↦ rw (known, counted) h
    ]

    answers :
        (a : Atlas G)
        → IsConsistent a
        → ((counted lower nx a).1 ≡ nx.number_of_edges a.graph)
          × ((term s : Str)
              → resolve_canonical_node lower nx a term ≡ some s
              → nx.has_node a.graph s ≡ true)
    unfolding counted resolve_canonical_node
    answers a h = (count, resolve)
      where
        count : (counted lower nx a).1 ≡ nx.number_of_edges a.graph
        count = elim (Option-cases a.cached_edge_count) [
          | inl missing ↦ rw (missing, counted) refl
          | inr (n, known) ↦ rw (known, counted) (h.cached n known)
        ]

        resolve :
            (term s : Str)
            → resolve_canonical_node lower nx a term ≡ some s
            → nx.has_node a.graph s ≡ true
        resolve term s e = elim (Bool-cases (nx.has_node a.graph term)) [
          | inl stands ↦
              subst (λ z. nx.has_node a.graph z ≡ true) (some_inj.0 (rw stands at e)) stands
          | inr unknown ↦ (h.indexed (strip_space (lower term)) s (rw unknown at e)).0
        ]

    call-IsConsistent :
        (c : Method) (a : Atlas G)
        → All IsTrimmed (names_of c)
        → IsConsistent a
        → IsConsistent (call lower nx c a)
    unfolding call forget_all lookup
    call-IsConsistent (add_node n) a trim h = record {
      cached = λ m e. h.cached m e ∙ sym (laws.edges_add_node n a.graph);
      indexed =
          insert-Indexes n (nx.add_node n a.graph) a.canonical_lower trim.0
            (laws.nodes_add_node n n a.graph ∙ rw (str_eq_refl n) refl)
            (Indexes-mono a.graph (nx.add_node n a.graph) a.canonical_lower
              (λ m stood. ground (arith, laws.nodes_add_node n m a.graph, stood)) h.indexed);
    }
    call-IsConsistent (add_nodes_from ns) a trim h = record {
      cached = λ m e. h.cached m e ∙ sym (laws.edges_add_nodes_from ns a.graph);
      indexed =
          index_all-Indexes ns (nx.add_nodes_from ns a.graph) a.canonical_lower trim
            (λ m l. ground (arith, laws.nodes_add_nodes_from ns m a.graph, l))
            (Indexes-mono a.graph (nx.add_nodes_from ns a.graph) a.canonical_lower
              (λ m stood. ground (arith, laws.nodes_add_nodes_from ns m a.graph, stood)) h.indexed);
    }
    call-IsConsistent (add_edge u v k) a trim h = record {
      cached = λ m e. absurd (none-ne-some m e);
      indexed =
          Indexes-mono a.graph (nx.add_edge u v k a.graph) a.canonical_lower
            (λ m stood. laws.nodes_add_edge u v k m a.graph stood) h.indexed;
    }
    call-IsConsistent (remove_edge u v k) a trim h = record {
      cached = λ m e. absurd (none-ne-some m e);
      indexed =
          Indexes-mono a.graph _ a.canonical_lower
            (λ m stood. laws.nodes_remove_edge u v k m a.graph ∙ stood) h.indexed;
    }
    call-IsConsistent (add_edges_from es) a trim h = record {
      cached = λ m e. absurd (none-ne-some m e);
      indexed =
          Indexes-mono a.graph (nx.add_edges_from es a.graph) a.canonical_lower
            (λ m stood. laws.nodes_add_edges_from es m a.graph stood) h.indexed;
    }
    call-IsConsistent (remove_edges_from es) a trim h = record {
      cached = λ m e. absurd (none-ne-some m e);
      indexed =
          Indexes-mono a.graph (nx.remove_edges_from es a.graph) a.canonical_lower
            (λ m stood. laws.nodes_remove_edges_from es m a.graph ∙ stood) h.indexed;
    }
    call-IsConsistent (remove_node n) a trim h = record {
      cached = λ m e. absurd (none-ne-some m e);
      indexed =
          forget-Indexes (n ∷ []) a.graph (or_same a.graph (nx.remove_node n a.graph))
            a.canonical_lower trim (λ m. ground (arith, laws.nodes_remove_node n m a.graph))
            h.indexed;
    }
    call-IsConsistent (remove_nodes_from ns) a trim h = record {
      cached = λ m e. absurd (none-ne-some m e);
      indexed =
          forget-Indexes ns a.graph (nx.remove_nodes_from ns a.graph) a.canonical_lower trim
            (λ m. laws.nodes_remove_nodes_from ns m a.graph) h.indexed;
    }
    call-IsConsistent clear a trim h = record {
      cached = λ m e. sym (some_inj.0 e) ∙ sym (laws.edges_clear a.graph);
      indexed = λ low t e. absurd (none-ne-some t e);
    }
    call-IsConsistent clear_edges a trim h = record {
      cached = λ m e. sym (some_inj.0 e) ∙ sym (laws.edges_clear_edges a.graph);
      indexed =
          Indexes-mono a.graph (nx.clear_edges a.graph) a.canonical_lower
            (λ m stood. laws.nodes_clear_edges m a.graph ∙ stood) h.indexed;
    }
    call-IsConsistent number_of_edges a trim h = counted-IsConsistent a h

    calls-IsConsistent :
        (cs : List Method) (a : Atlas G)
        → All (λ c. All IsTrimmed (names_of c)) cs
        → IsConsistent a
        → IsConsistent (calls lower nx cs a)
    unfolding calls
    calls-IsConsistent [] a trim h = h
    calls-IsConsistent (c ∷ cs) a trim h =
        calls-IsConsistent cs (call lower nx c a) trim.1 (call-IsConsistent c a trim.0 h)

    -- After any calls on a new graph, also such that raise, where no name of a node that they add or
    -- remove has space around it: `number_of_edges` answers what networkx counts, and a name
    -- that `resolve_canonical_node` answers is a node of the graph.
    pub calls_answer :
        (cs : List Method) (g : G)
        → nx.number_of_edges g ≡ 0
        → All (λ c. All IsTrimmed (names_of c)) cs
        → ((counted lower nx (calls lower nx cs (new_atlas g))).1
            ≡ nx.number_of_edges (calls lower nx cs (new_atlas g)).graph)
          × ((term s : Str)
              → resolve_canonical_node lower nx (calls lower nx cs (new_atlas g)) term ≡ some s
              → nx.has_node (calls lower nx cs (new_atlas g)).graph s ≡ true)
    unfolding lookup
    calls_answer cs g none_yet trim = answers (calls lower nx cs (new_atlas g)) (
        calls-IsConsistent cs (new_atlas g) trim (record {
          cached = λ m e. sym (some_inj.0 e) ∙ sym none_yet;
          indexed = λ low t e. absurd (none-ne-some t e);
        }))
