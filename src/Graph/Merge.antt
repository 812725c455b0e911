-- ===== src/Graph/Merge.antt =====
-- What the relations on disk make of the edges in memory.
use mathlib.Core.List.{Permᴰ}
use mathlib.Core.List.Permᴰ
use atlas_memory.Prelude.{
  ℕ, ◌+◌, max, Bool, true, false, not, ◌&&◌, List, [], ◌∷◌, Option, none, some, ◌≡◌, refl, sym, ◌∙◌,
  ap, arith, if◌then◌else◌, any_of, Bool-cases, Option-cases, inl, inr,
}
use atlas_memory.Prelude.Sorting.{sort_falling-Permᴰ}
use atlas_memory.Prelude.Text.{Str, codes, str_eq, str_eq_iff}
use atlas_memory.Graph.Hydrate.{
  Edge, Networkx, RelRow, Rel, Hydration, row_leb, sorted_rows, rel_of, valid_rels, note_invalid,
  ensure_node, hydrate_edge, hydrate_rel, hydrate_rels, hydrate_relations,
}

-- What networkx documents of a multigraph with keyed edges.
pub record IsMultigraph {G : Type 0} (nx : Networkx G) : Type 0 where
  pub edge_of_node :
      (n kind u v k : Str) (g : G)
      → nx.edge_data (nx.add_node n kind g) u v k ≡ nx.edge_data g u v k
  pub edge_of_edge :
      (a b i u v k : Str) (e : Edge) (g : G)
      → nx.edge_data (nx.add_edge a b i e g) u v k
        ≡ (if str_eq a u && str_eq b v && str_eq i k then some e else nx.edge_data g u v k)

module _ (u v k : Str) where
  abbrev pub is_of : Rel → Bool
  is_of r = str_eq r.subj u && str_eq r.obj v && str_eq r.predicate k

  -- The greatest value among the relations of the edge.
  abbrev pub highest : (Rel → ℕ) → List Rel → ℕ
  highest f [] = 0
  highest f (r ∷ rels) = max (if is_of r then f r else 0) (highest f rels)

  -- The edge that is to be there: an edge without a relation on disk is left as it is.
  abbrev pub merged : List Rel → Option Edge → Option Edge
  merged rels none =
      if any_of is_of rels
      then some (record {
        predicate = k;
        confidence = highest (λ r. r.confidence) rels;
        timestamp = highest (λ r. r.stamp) rels;
        session_id = none;
      })
      else none
  merged rels (some prev) =
      if any_of is_of rels
      then some (record {
        predicate = k;
        confidence = max prev.confidence (highest (λ r. r.confidence) rels);
        timestamp = max prev.timestamp (highest (λ r. r.stamp) rels);
        session_id = prev.session_id;
      })
      else some prev

  highest-Permᴰ : (f : Rel → ℕ) {xs ys : List Rel} → Permᴰ xs ys → highest f xs ≡ highest f ys
  highest-Permᴰ f Permᴰ.nil = refl
  highest-Permᴰ f (Permᴰ.cons e q) =
      omega (arith, ap (λ r. if is_of r then f r else 0) e, highest-Permᴰ f q)
  highest-Permᴰ f (Permᴰ.swap e g) =
      omega (arith, ap (λ r. if is_of r then f r else 0) e, ap (λ r. if is_of r then f r else 0) g)
  highest-Permᴰ f (Permᴰ.trans q r) = highest-Permᴰ f q ∙ highest-Permᴰ f r

  any_of-Permᴰ : {xs ys : List Rel} → Permᴰ xs ys → any_of is_of xs ≡ any_of is_of ys
  any_of-Permᴰ Permᴰ.nil = refl
  any_of-Permᴰ (Permᴰ.cons e q) = ground (arith, ap is_of e, any_of-Permᴰ q)
  any_of-Permᴰ (Permᴰ.swap e g) = ground (arith, ap is_of e, ap is_of g)
  any_of-Permᴰ (Permᴰ.trans q r) = any_of-Permᴰ q ∙ any_of-Permᴰ r

  merged-Permᴰ : {xs ys : List Rel} (e : Option Edge) → Permᴰ xs ys → merged xs e ≡ merged ys e
  merged-Permᴰ none q =
      rw (any_of-Permᴰ q, highest-Permᴰ (λ r. r.confidence) q, highest-Permᴰ (λ r. r.stamp) q) refl
  merged-Permᴰ (some prev) q =
      rw (any_of-Permᴰ q, highest-Permᴰ (λ r. r.confidence) q, highest-Permᴰ (λ r. r.stamp) q) refl

  highest-none : (f : Rel → ℕ) (rels : List Rel) → any_of is_of rels ≡ false → highest f rels ≡ 0
  highest-none f [] h = refl
  highest-none f (r ∷ rels) h = ground (arith, h, highest-none f rels)

  merged-nil : (e : Option Edge) → merged [] e ≡ e
  merged-nil none = refl
  merged-nil (some prev) = refl

  merged-other : (r : Rel) (e : Option Edge) → is_of r ≡ false → merged (r ∷ []) e ≡ e
  merged-other r none h = rw h refl
  merged-other r (some prev) h = rw h refl

  -- One more relation.
  merged-step :
      (r : Rel) (rels : List Rel) (e : Option Edge)
      → merged rels (merged (r ∷ []) e) ≡ merged (r ∷ rels) e
  merged-step r rels none =
      grind (arith, highest-none (λ q. q.confidence) rels, highest-none (λ q. q.stamp) rels)
  merged-step r rels (some prev) =
      grind (arith, highest-none (λ q. q.confidence) rels, highest-none (λ q. q.stamp) rels)

  module _ {G : Type 0} (nx : Networkx G) (laws : IsMultigraph nx) where
    pub ensure_node-edge_data :
        (n kind : Str) (h : Hydration G)
        → nx.edge_data (ensure_node nx n kind h).graph u v k ≡ nx.edge_data h.graph u v k
    unfolding ensure_node
    ensure_node-edge_data n kind h = elim (Bool-cases (nx.has_node h.graph n)) [
      | inl old ↦ rw (old, ensure_node) refl
      | inr new ↦ rw (new, ensure_node) (laws.edge_of_node n kind u v k h.graph)
    ]

    hydrate_edge-edge_data :
        (r : Rel) (h : Hydration G)
        → nx.edge_data (hydrate_edge nx r h).graph u v k
          ≡ merged (r ∷ []) (nx.edge_data h.graph u v k)
    unfolding hydrate_edge
    hydrate_edge-edge_data r h =
        elim (Option-cases (nx.edge_data h.graph r.subj r.obj r.predicate)) [
          | inl missing ↦
              rw (missing, hydrate_edge)
                (stored
                  (record {
                    predicate = r.predicate;
                    confidence = r.confidence;
                    timestamp = r.stamp;
                    session_id = none;
                  })
                  none missing (λ e. grind (arith, e, str_eq_iff r.predicate k)))
          | inr (prev, present) ↦
              rw (present, hydrate_edge)
                (stored
                  (record {
                    predicate = r.predicate;
                    confidence = max prev.confidence r.confidence;
                    timestamp = max prev.timestamp r.stamp;
                    session_id = prev.session_id;
                  })
                  (some prev) present (λ e. grind (arith, e, str_eq_iff r.predicate k)))
        ]
      where
        stored :
            (new : Edge) (old : Option Edge)
            → nx.edge_data h.graph r.subj r.obj r.predicate ≡ old
            → (is_of r ≡ true → some new ≡ merged (r ∷ []) old)
            → nx.edge_data (nx.add_edge r.subj r.obj r.predicate new h.graph) u v k
              ≡ merged (r ∷ []) (nx.edge_data h.graph u v k)
        stored new old was raise = elim (Bool-cases (is_of r)) [
          | inl this ↦
              let s : r.subj ≡ u = (str_eq_iff r.subj u).0 (ground (arith, this)) in
              let o : r.obj ≡ v = (str_eq_iff r.obj v).0 (ground (arith, this)) in
              let p : r.predicate ≡ k = (str_eq_iff r.predicate k).0 (ground (arith, this)) in
              let here : nx.edge_data h.graph r.subj r.obj r.predicate
                  ≡ nx.edge_data h.graph u v k =
                ap (λ z. nx.edge_data h.graph z r.obj r.predicate) s
                ∙ ap (λ z. nx.edge_data h.graph u z r.predicate) o
                ∙ ap (λ z. nx.edge_data h.graph u v z) p in
              laws.edge_of_edge r.subj r.obj r.predicate u v k new h.graph
              ∙ rw this (raise this)
              ∙ ap (merged (r ∷ [])) (sym was ∙ here)
          | inr other ↦
              laws.edge_of_edge r.subj r.obj r.predicate u v k new h.graph
              ∙ rw other (sym (merged-other r (nx.edge_data h.graph u v k) other))
        ]

    pub hydrate_rel-edge_data :
        (r : Rel) (h : Hydration G)
        → nx.edge_data (hydrate_rel nx r h).graph u v k
          ≡ merged (r ∷ []) (nx.edge_data h.graph u v k)
    unfolding hydrate_rel
    hydrate_rel-edge_data r h =
        let counted = record h { disk_edges = h.disk_edges + 1 } in
        let with_subj = ensure_node nx r.subj (codes "entity") counted in
        hydrate_edge-edge_data r (ensure_node nx r.obj (codes "entity_or_value") with_subj)
        ∙ ap (merged (r ∷ [])) (
            ensure_node-edge_data r.obj (codes "entity_or_value") with_subj
            ∙ ensure_node-edge_data r.subj (codes "entity") counted)

    pub hydrate_rels-edge_data :
        (rels : List Rel) (h : Hydration G)
        → nx.edge_data (hydrate_rels nx rels h).graph u v k
          ≡ merged rels (nx.edge_data h.graph u v k)
    unfolding hydrate_rels
    hydrate_rels-edge_data [] h = sym (merged-nil (nx.edge_data h.graph u v k))
    hydrate_rels-edge_data (r ∷ rels) h =
        hydrate_rels-edge_data rels (hydrate_rel nx r h)
        ∙ ap (merged rels) (hydrate_rel-edge_data r h)
        ∙ merged-step r rels (nx.edge_data h.graph u v k)

    -- The stage for the relations leaves each edge, given by its ends and its key, which is its
    -- predicate, merged with the valid rows of the disk, whatever their order: with the greatest confidence and the latest time
    -- of all, in memory and on disk, and as it was where the disk has no valid row of it. So a pair of
    -- nodes has an edge for each of its predicates.
    pub hydrate_relations-edge_data :
        (valid : Str → Bool) (rows : List RelRow) (h : Hydration G)
        → nx.edge_data (hydrate_relations valid nx rows h).graph u v k
          ≡ merged (valid_rels valid rows) (nx.edge_data h.graph u v k)
    unfolding hydrate_relations sorted_rows valid_rels
    hydrate_relations-edge_data valid rows h =
        let sorted = sort_falling-Permᴰ (λ a b. not (row_leb a b)) rows in
        hydrate_rels-edge_data (valid_rels valid (sorted_rows rows))
          (record h { invalid = note_invalid valid (sorted_rows rows) h.invalid })
        ∙ merged-Permᴰ (nx.edge_data h.graph u v k) (Permᴰ.filter_map (rel_of valid) sorted)
