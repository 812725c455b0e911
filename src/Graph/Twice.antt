-- ===== src/Graph/Twice.antt =====
-- Hydrating a second time.
use atlas_memory.Prelude.{
  ◌+◌, Bool, true, false, List, [], ◌∷◌, Option, none, some, ◌≡◌, refl, sym, ◌∙◌, ap, arith,
  if◌then◌else◌, any_of, All, Bool-cases, inl, inr,
}
use atlas_memory.Prelude.Text.{Str, codes, str_eq_refl}
use atlas_memory.Graph.Hydrate.{
  Edge, Networkx, RelRow, Rel, Hydration, sorted_rows, valid_rels, note_invalid, ensure_node,
  hydrate_edge, hydrate_rel, hydrate_rels, hydrate_relations,
}
use atlas_memory.Graph.Merge.{
  IsMultigraph, is_of, merged, ensure_node-edge_data, hydrate_rel-edge_data, hydrate_rels-edge_data,
  hydrate_relations-edge_data,
}

if_some {ℓ} :
    {A : Type ℓ} (b : Bool) (x y : A) → (z : A) × ((if b then some x else some y) ≡ some z)
if_some true x y = (x, refl)
if_some false x y = (y, refl)

if_found {ℓ} :
    {A : Type ℓ} (b : Bool) (x : A) → b ≡ true → (z : A) × ((if b then some x else none) ≡ some z)
if_found b x h = (x, rw h refl)

-- Each relation of a list is one of its own edge.
every_rel_found :
    (rels : List Rel) → All (λ r. any_of (is_of r.subj r.obj r.predicate) rels ≡ true) rels
every_rel_found [] = tt
every_rel_found (r ∷ rels) = (
  ground (arith, str_eq_refl r.subj, str_eq_refl r.obj, str_eq_refl r.predicate),
  weaken rels (every_rel_found rels),
)
  where
    weaken :
        (qs : List Rel)
        → All (λ q. any_of (is_of q.subj q.obj q.predicate) rels ≡ true) qs
        → All (λ q. any_of (is_of q.subj q.obj q.predicate) (r ∷ rels) ≡ true) qs
    weaken [] h = tt
    weaken (q ∷ qs) h = (ground (arith, h.0), weaken qs h.1)

merged-twice :
    (u v k : Str) (rels : List Rel) (e : Option Edge)
    → merged u v k rels (merged u v k rels e) ≡ merged u v k rels e
merged-twice u v k rels none = grind arith
merged-twice u v k rels (some prev) = grind arith

merged-found :
    (u v k : Str) (rels : List Rel) (e : Option Edge)
    → any_of (is_of u v k) rels ≡ true
    → (f : Edge) × (merged u v k rels e ≡ some f)
merged-found u v k rels none h = if_found (any_of (is_of u v k) rels) _ h
merged-found u v k rels (some prev) h = if_some (any_of (is_of u v k) rels) _ prev

module _ {G : Type 0} (nx : Networkx G) (laws : IsMultigraph nx) where
  -- The edge of a relation is there.
  abbrev IsHeld : Hydration G → Rel → Type 0
  IsHeld h r = (e : Edge) × (nx.edge_data h.graph r.subj r.obj r.predicate ≡ some e)

  merged-some :
      (u v k : Str) (rels : List Rel) (e : Edge)
      → (f : Edge) × (merged u v k rels (some e) ≡ some f)
  merged-some u v k rels e = if_some (any_of (is_of u v k) rels) _ e

  hydrate_rel-IsHeld : (r q : Rel) (h : Hydration G) → IsHeld h q → IsHeld (hydrate_rel nx r h) q
  hydrate_rel-IsHeld r q h (e, held) =
      let (f, m) = merged-some q.subj q.obj q.predicate (r ∷ []) e in
      (
        f,
        hydrate_rel-edge_data q.subj q.obj q.predicate nx laws r h
            ∙ ap (merged q.subj q.obj q.predicate (r ∷ [])) held
            ∙ m,
      )

  All-IsHeld :
      (r : Rel) (rels : List Rel) (h : Hydration G)
      → All (IsHeld h) rels
      → All (IsHeld (hydrate_rel nx r h)) rels
  All-IsHeld r [] h held = tt
  All-IsHeld r (q ∷ rels) h held = (hydrate_rel-IsHeld r q h held.0, All-IsHeld r rels h held.1)

  ensure_node-loaded_edges :
      (n kind : Str) (h : Hydration G) → (ensure_node nx n kind h).loaded_edges ≡ h.loaded_edges
  unfolding ensure_node
  ensure_node-loaded_edges n kind h = elim (Bool-cases (nx.has_node h.graph n)) [
    | inl old ↦ rw (old, ensure_node) refl
    | inr new ↦ rw (new, ensure_node) refl
  ]

  hydrate_edge-loaded_edges :
      (r : Rel) (h : Hydration G) → IsHeld h r → (hydrate_edge nx r h).loaded_edges ≡ h.loaded_edges
  unfolding hydrate_edge
  hydrate_edge-loaded_edges r h (e, held) = rw (held, hydrate_edge) refl

  hydrate_rel-loaded_edges :
      (r : Rel) (h : Hydration G) → IsHeld h r → (hydrate_rel nx r h).loaded_edges ≡ h.loaded_edges
  unfolding hydrate_rel
  hydrate_rel-loaded_edges r h (e, held) =
      let counted = record h { disk_edges = h.disk_edges + 1 } in
      let with_subj = ensure_node nx r.subj (codes "entity") counted in
      let with_obj = ensure_node nx r.obj (codes "entity_or_value") with_subj in
      hydrate_edge-loaded_edges r with_obj (
        e,
        ensure_node-edge_data r.subj r.obj r.predicate nx laws r.obj (codes "entity_or_value")
              with_subj
            ∙ ensure_node-edge_data r.subj r.obj r.predicate nx laws r.subj (codes "entity") counted
            ∙ held,
      )
      ∙ ensure_node-loaded_edges r.obj (codes "entity_or_value") with_subj
      ∙ ensure_node-loaded_edges r.subj (codes "entity") counted

  hydrate_rels-loaded_edges :
      (rels : List Rel) (h : Hydration G)
      → All (IsHeld h) rels
      → (hydrate_rels nx rels h).loaded_edges ≡ h.loaded_edges
  unfolding hydrate_rels
  hydrate_rels-loaded_edges [] h held = refl
  hydrate_rels-loaded_edges (r ∷ rels) h held =
      hydrate_rels-loaded_edges rels (hydrate_rel nx r h) (All-IsHeld r rels h held.1)
      ∙ hydrate_rel-loaded_edges r h held.0

  hydrate_rels-IsHeld :
      (rels qs : List Rel) (h : Hydration G)
      → All (λ q. any_of (is_of q.subj q.obj q.predicate) rels ≡ true) qs
      → All (IsHeld (hydrate_rels nx rels h)) qs
  hydrate_rels-IsHeld rels [] h m = tt
  hydrate_rels-IsHeld rels (q ∷ qs) h m =
      let (f, e) =
        merged-found q.subj q.obj q.predicate rels (nx.edge_data h.graph q.subj q.obj q.predicate)
          m.0 in
      (
        (f, hydrate_rels-edge_data q.subj q.obj q.predicate nx laws rels h ∙ e),
        hydrate_rels-IsHeld rels qs h m.1,
      )

  -- Over a multigraph, the stage for the relations run again with the same rows changes no edge and
  -- counts none as loaded.
  hydrate_relations_twice :
      (valid : Str → Bool) (rows : List RelRow) (h : Hydration G)
      → ((hydrate_relations valid nx rows (hydrate_relations valid nx rows h)).loaded_edges
          ≡ (hydrate_relations valid nx rows h).loaded_edges)
        × ((u v k : Str)
            → nx.edge_data
                (hydrate_relations valid nx rows (hydrate_relations valid nx rows h)).graph
                u
                v
                k
              ≡ nx.edge_data (hydrate_relations valid nx rows h).graph u v k)
  unfolding hydrate_relations
  hydrate_relations_twice valid rows h = (
    counted,
    λ u v k.
        let once = hydrate_relations-edge_data u v k nx laws valid rows h in
        hydrate_relations-edge_data u v k nx laws valid rows (hydrate_relations valid nx rows h)
        ∙ ap (merged u v k (valid_rels valid rows)) once
        ∙ merged-twice u v k (valid_rels valid rows) (nx.edge_data h.graph u v k)
        ∙ sym once,
  )
    where
      counted :
          (hydrate_relations valid nx rows (hydrate_relations valid nx rows h)).loaded_edges
          ≡ (hydrate_relations valid nx rows h).loaded_edges
      counted =
          let rels = valid_rels valid (sorted_rows rows) in
          let noted = note_invalid valid (sorted_rows rows) in
          let once = hydrate_rels nx rels (record h { invalid = noted h.invalid }) in
          hydrate_rels-loaded_edges rels (record once { invalid = noted once.invalid })
            (hydrate_rels-IsHeld rels rels (record h { invalid = noted h.invalid })
              (every_rel_found rels))
