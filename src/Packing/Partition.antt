-- ===== src/Packing/Partition.antt =====
-- The components are a partition of the candidates, and the search for them ends.
use mathlib.Core.List.{Permᴰ, append_assoc, append-nil}
use mathlib.Core.List.Permᴰ
use atlas_memory.Prelude.{
  ℕ, zero, suc, ◌+◌, ◌≤◌, ◌<◌, true, not, List, [], ◌∷◌, ◌++◌, some, ◌≡◌, refl, ◌∙◌, ap, subst, inl,
  inr, arith, length, length-append, length-keep_if-le, All, Bool-cases,
}
use atlas_memory.Prelude.Sorting.{length-Permᴰ}
use atlas_memory.Packing.Records.{Scoring, Item, is_adjacent}
use atlas_memory.Packing.Components.{
  is_visited, Search, visit, visit_all, neighbors, component, components_from, components,
}
use atlas_memory.Packing.Fresh.{
  HasDistinctIndices, In, In-keep_if, fresh, fresh-seen, fresh-visit, is_visited-append,
}

abbrev pub concat {ℓ} : {A : Type ℓ} → List (List A) → List A
concat [] = []
concat (xs ∷ xss) = xs ++ concat xss

module _ (s : Scoring) (valid : List Item) (distinct : HasDistinctIndices valid) where
  -- What a search still holds: its queue and what it has not visited.
  abbrev held : Search → List Item
  held st = st.queue ++ fresh st.visited valid

  -- A visit only moves the item, and forgets nothing that was visited.
  visit-held : (n : Item) (st : Search) → In n valid → Permᴰ (held (visit n st)) (held st)
  unfolding visit
  visit-held n st m = elim (Bool-cases (is_visited n.index st.visited)) [
    | inl seen ↦ rw seen (Permᴰ.refl (held st))
    | inr new ↦
        let marked = st.visited ++ (n.index ∷ []) in
        rw (new, append_assoc st.queue (n ∷ []) (fresh marked valid))
          (Permᴰ.append_left st.queue (fresh-visit n st.visited valid distinct m new))
  ]

  visit-visited :
      (n : Item) (st : Search) (j : ℕ)
      → is_visited j st.visited ≡ true
      → is_visited j (visit n st).visited ≡ true
  unfolding visit
  visit-visited n st j h = ground (arith, is_visited-append j n.index st.visited)

  visit_all-held :
      (ns : List Item) (st : Search)
      → ((i : Item) → In i ns → In i valid)
      → Permᴰ (held (visit_all ns st)) (held st)
  unfolding visit_all
  visit_all-held [] st h = Permᴰ.refl (held st)
  visit_all-held (n ∷ ns) st h =
      Permᴰ.trans (visit_all-held ns (visit n st) (λ i m. h i (inr m)))
        (visit-held n st (h n (inl refl)))

  visit_all-visited :
      (ns : List Item) (st : Search) (j : ℕ)
      → is_visited j st.visited ≡ true
      → is_visited j (visit_all ns st).visited ≡ true
  unfolding visit_all
  visit_all-visited [] st j h = h
  visit_all-visited (n ∷ ns) st j h = visit_all-visited ns (visit n st) j (visit-visited n st j h)

  -- With enough fuel the loop returns a component that has what left the queue and the fresh items.
  component_total :
      (fuel : ℕ) (comp queue : List Item) (visited : List ℕ)
      → length queue + length (fresh visited valid) < fuel
      → (found : List Item) × (seen : List ℕ) × (component s valid fuel comp
            (record { queue = queue; visited = visited })
          ≡ some (comp ++ found, seen))
        × Permᴰ (found ++ fresh seen valid) (queue ++ fresh visited valid)
        × ((j : ℕ) → is_visited j visited ≡ true → is_visited j seen ≡ true)
        × (1 ≤ length queue → 1 ≤ length found)
  unfolding component neighbors
  component_total zero comp queue visited m = elim m [ ]
  component_total (suc fuel) comp [] visited m =
      ([], visited, rw (append-nil comp), Permᴰ.refl (fresh visited valid), λ j h. h, λ h. h)
  component_total (suc fuel) comp (curr ∷ queue) visited m =
      let popped : Search = record { queue = queue; visited = visited } in
      let st = visit_all (neighbors s valid curr) popped in
      let kept =
        visit_all-held (neighbors s valid curr) popped
          (λ i. In-keep_if (is_adjacent s curr) i valid) in
      let (found, seen, runs, part, mono, grows) =
        component_total fuel (comp ++ (curr ∷ [])) st.queue st.visited (
          omega (
            arith,
            length-Permᴰ kept,
            length-append st.queue (fresh st.visited valid),
            length-append queue (fresh visited valid),
          )) in
      (
        curr ∷ found,
        seen,
        runs ∙ ap (λ z. some (z, seen)) (append_assoc comp (curr ∷ []) found),
        Permᴰ.cons refl (Permᴰ.trans part kept),
        λ j h. mono j (visit_all-visited (neighbors s valid curr) popped j h),
        λ h. omega arith,
      )

  cover-cons :
      (i : Item) (is : List Item) (seen : List ℕ)
      → is_visited i.index seen ≡ true
      → ((j : Item) → In j is → is_visited j.index seen ≡ true)
      → (j : Item) → In j (i ∷ is)
      → is_visited j.index seen ≡ true
  cover-cons i is seen h rest j (inl e) = subst (λ z. is_visited z.index seen ≡ true) e h
  cover-cons i is seen h rest j (inr m) = rest j m

  -- The loop over the candidates: nonempty components of what is fresh, until none is.
  components_total :
      (is : List Item) (visited : List ℕ)
      → ((i : Item) → In i is → In i valid)
      → (comps : List (List Item)) × (seen : List ℕ) × (components_from s valid is visited
          ≡ some comps)
        × Permᴰ (concat comps ++ fresh seen valid) (fresh visited valid)
        × ((j : ℕ) → is_visited j visited ≡ true → is_visited j seen ≡ true)
        × ((i : Item) → In i is → is_visited i.index seen ≡ true)
        × All (λ c. 1 ≤ length c) comps
  unfolding components_from
  components_total [] visited sub =
      ([], visited, refl, Permᴰ.refl (fresh visited valid), λ j h. h, λ i m. elim m [ ], tt)
  components_total (i ∷ is) visited sub = elim (Bool-cases (is_visited i.index visited)) [
    | inl old ↦
        let (comps, seen, runs, part, mono, cover, full) =
          components_total is visited (λ j m. sub j (inr m)) in
        (comps, seen, rw old runs, part, mono, cover-cons i is seen (mono i.index old) cover, full)
    | inr new ↦
        let marked = visited ++ (i.index ∷ []) in
        let taken = fresh-visit i visited valid distinct (sub i (inl refl)) new in
        let (found, seen, runs, part, mono, grows) =
          component_total (length valid + 1) [] (i ∷ []) marked (
            omega (
              arith,
              length-Permᴰ taken,
              length-keep_if-le (λ j. not (is_visited j.index visited)) valid,
            )) in
        let (comps, seen', runs', part', mono', cover', full') =
          components_total is seen (λ j m. sub j (inr m)) in
        (
          found ∷ comps,
          seen',
          rw (new, runs, runs'),
          rw (append_assoc found (concat comps) (fresh seen' valid))
              (Permᴰ.trans (Permᴰ.append_left found part') (Permᴰ.trans part taken)),
          λ j h. mono' j (mono j (ground (arith, is_visited-append j i.index visited))),
          cover-cons i is seen'
              (mono' i.index
                (mono i.index (ground (arith, is_visited-append i.index i.index visited))))
              cover',
          (grows (omega arith), full'),
        )
  ]

all_seen :
    (seen : List ℕ) (is : List Item)
    → ((i : Item) → In i is → is_visited i.index seen ≡ true)
    → fresh seen is ≡ []
all_seen seen [] h = refl
all_seen seen (i ∷ is) h =
    fresh-seen i seen is (h i (inl refl)) ∙ all_seen seen is (λ j m. h j (inr m))

none_seen : (is : List Item) → fresh [] is ≡ is
none_seen [] = refl
none_seen (i ∷ is) = ap (λ z. i ∷ z) (none_seen is)

-- The search for components ends, and each candidate stands in one component, once.
pub components-Permᴰ :
    (s : Scoring) (valid : List Item)
    → HasDistinctIndices valid
    → (comps : List (List Item)) × (components s valid ≡ some comps)
      × Permᴰ (concat comps) valid
      × All (λ c. 1 ≤ length c) comps
unfolding components
components-Permᴰ s valid distinct =
    let (comps, seen, runs, part, mono, cover, full) =
      components_total s valid distinct valid [] (λ i m. m) in
    let whole : concat comps ++ fresh seen valid ≡ concat comps =
      ap (λ z. concat comps ++ z) (all_seen seen valid cover) ∙ append-nil (concat comps) in
    (
      comps,
      runs,
      subst (λ z. Permᴰ (concat comps) z) (none_seen valid)
          (subst (λ z. Permᴰ z (fresh [] valid)) whole part),
      full,
    )
