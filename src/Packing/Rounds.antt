-- ===== src/Packing/Rounds.antt =====
-- The loop over the components: what it takes and leaves of their records.
use mathlib.Core.List.{Permᴰ, append_assoc, append-nil}
use mathlib.Core.List.Permᴰ
use atlas_memory.Prelude.{
  ℕ, true, ◌+◌, ◌≤◌, ◌<◌, List, [], ◌∷◌, ◌++◌, map, ◌≡◌, refl, sym, ◌∙◌, ap, subst, inl, inr, arith,
  leb, length, length-append, All, Bool-cases,
}
use atlas_memory.Prelude.Sorting.{sort_falling, sort_falling-Permᴰ}
use atlas_memory.Packing.Records.{Scoring, Item}
use atlas_memory.Packing.Greedy.{
  cost_of, Worth, evaluate, sparser_item, Packed, add_component, add_components,
}
use atlas_memory.Packing.Partition.{concat}
use atlas_memory.Packing.Filling.{
  sum_of-append, All-Permᴰ, IsWithin, IsSplit, IsExhausted, IsSplit-trans, IsExhausted-trans,
  unchanged-IsExhausted, fill-IsWithin, fill-IsSplit, fill-IsExhausted,
}

-- A component with its true cost, and with a record.
abbrev pub IsFair : Worth → Type 0
IsFair w = (w.cost ≡ cost_of w.records) × (1 ≤ length w.records)

-- The records of the components, one behind the other.
abbrev pub records_of : List Worth → List Item
records_of ws = concat (map (λ w. w.records) ws)

module _ (budget : ℕ) where
  add_component-IsWithin :
      (w : Worth) (p : Packed)
      → IsFair w
      → IsWithin budget p
      → IsWithin budget (add_component budget w p)
  unfolding add_component
  add_component-IsWithin w p fair h = elim (Bool-cases (leb (p.cost + w.cost) budget)) [
    | inl fits ↦
        rw (fits, add_component)
          (omega (arith, h, fair.0, sum_of-append (λ i. i.cost) p.items w.records), ground arith)
    | inr too_big ↦
        rw (too_big, add_component) (fill-IsWithin budget (sort_falling sparser_item w.records) p h)
  ]

  add_component-IsSplit : (w : Worth) (p : Packed) → IsSplit p w.records (add_component budget w p)
  unfolding add_component
  add_component-IsSplit w p = elim (Bool-cases (leb (p.cost + w.cost) budget)) [
    | inl fits ↦ rw (fits, add_component) ([], Permᴰ.append-nil (p.items ++ w.records))
    | inr too_big ↦
        let sorted = sort_falling sparser_item w.records in
        let (left, part) = fill-IsSplit budget sorted p in
        rw (too_big, add_component)
          (
            left,
            Permᴰ.trans part
                (Permᴰ.append_left p.items (sort_falling-Permᴰ sparser_item w.records)),
          )
  ]

  add_component-IsExhausted :
      (w : Worth) (p : Packed)
      → IsFair w
      → IsExhausted budget p w.records (add_component budget w p)
  unfolding add_component
  add_component-IsExhausted w p fair = elim (Bool-cases (leb (p.cost + w.cost) budget)) [
    | inl fits ↦
        rw (fits, add_component) (inl (omega (arith, fair.1, length-append p.items w.records)))
    | inr too_big ↦
        rw (too_big, add_component)
          (unsorted _ (fill-IsExhausted budget (sort_falling sparser_item w.records) p))
  ]
    where
      unsorted :
          (out : Packed)
          → IsExhausted budget p (sort_falling sparser_item w.records) out
          → IsExhausted budget p w.records out
      unsorted out (inl some_item) = inl some_item
      unsorted out (inr (nothing, same, h)) = inr (
        nothing,
        same,
        All-Permᴰ (λ i. budget < p.cost + i.cost) (sort_falling-Permᴰ sparser_item w.records) h,
      )

  pub add_components-IsWithin :
      (ws : List Worth) (p : Packed)
      → All IsFair ws
      → IsWithin budget p
      → IsWithin budget (add_components budget ws p)
  unfolding add_components
  add_components-IsWithin [] p fair h = h
  add_components-IsWithin (w ∷ ws) p fair h =
      add_components-IsWithin ws (add_component budget w p) fair.1
        (add_component-IsWithin w p fair.0 h)

  pub add_components-IsSplit :
      (ws : List Worth) (p : Packed) → IsSplit p (records_of ws) (add_components budget ws p)
  unfolding add_components
  add_components-IsSplit [] p = ([], Permᴰ.refl (p.items ++ []))
  add_components-IsSplit (w ∷ ws) p =
      let q = add_component budget w p in
      IsSplit-trans p q (add_components budget ws q) w.records (records_of ws)
        (add_component-IsSplit w p) (add_components-IsSplit ws q)

  pub add_components-IsExhausted :
      (ws : List Worth) (p : Packed)
      → All IsFair ws
      → IsExhausted budget p (records_of ws) (add_components budget ws p)
  unfolding add_components
  add_components-IsExhausted [] p fair = unchanged-IsExhausted budget p [] tt
  add_components-IsExhausted (w ∷ ws) p fair =
      let q = add_component budget w p in
      IsExhausted-trans budget p q (add_components budget ws q) w.records (records_of ws)
        (add_component-IsExhausted w p fair.0) (add_components-IsExhausted ws q fair.1)

  -- If all components fit behind what is packed, then all are packed, whole.
  pub add_components_whole :
      (ws : List Worth) (p : Packed)
      → All IsFair ws
      → p.cost + cost_of (records_of ws) ≤ budget
      → (add_components budget ws p).items ≡ p.items ++ records_of ws
  unfolding add_components add_component
  add_components_whole [] p fair m = sym (append-nil p.items)
  add_components_whole (w ∷ ws) p fair m =
      let split = sum_of-append (λ i. i.cost) w.records (records_of ws) in
      let fits : leb (p.cost + w.cost) budget ≡ true = ground (arith, split, fair.0.0) in
      rw (fits, add_components, add_component)
        (add_components_whole ws (record { items = p.items ++ w.records; cost = p.cost + w.cost })
            fair.1 (omega (arith, split, fair.0.0, m))
          ∙ append_assoc p.items w.records (records_of ws))

  -- What `evaluate` makes of components that are not empty.
  pub evaluate-IsFair :
      (s : Scoring) (comps : List (List Item))
      → All (λ c. 1 ≤ length c) comps
      → All IsFair (map (evaluate s) comps)
  unfolding evaluate
  evaluate-IsFair s [] h = tt
  evaluate-IsFair s (c ∷ comps) h = ((refl, h.0), evaluate-IsFair s comps h.1)

  pub records_of-evaluate :
      (s : Scoring) (comps : List (List Item)) → records_of (map (evaluate s) comps) ≡ concat comps
  unfolding evaluate
  records_of-evaluate s [] = refl
  records_of-evaluate s (c ∷ comps) = ap (λ z. c ++ z) (records_of-evaluate s comps)

swap_front : (xs ys zs : List Item) → Permᴰ (xs ++ (ys ++ zs)) (ys ++ (xs ++ zs))
swap_front xs ys zs =
    subst (λ l. Permᴰ l (ys ++ (xs ++ zs))) (append_assoc xs ys zs)
      (subst (Permᴰ ((xs ++ ys) ++ zs)) (append_assoc ys xs zs)
        (Permᴰ.append_right zs (Permᴰ.append_comm xs ys)))

pub records_of-Permᴰ : {xs ys : List Worth} → Permᴰ xs ys → Permᴰ (records_of xs) (records_of ys)
records_of-Permᴰ Permᴰ.nil = Permᴰ.refl []
records_of-Permᴰ (Permᴰ.cons {a} {b} {l₁} {l₂} e q) =
    subst (λ z. Permᴰ (a.records ++ records_of l₁) (z.records ++ records_of l₂)) e
      (Permᴰ.append_left a.records (records_of-Permᴰ q))
records_of-Permᴰ (Permᴰ.swap {a} {b} {a'} {b'} {l} e f) =
    subst (λ z. Permᴰ (records_of (a ∷ b ∷ l)) (z.records ++ (b'.records ++ records_of l))) f
      (subst (λ z. Permᴰ (records_of (a ∷ b ∷ l)) (b.records ++ (z.records ++ records_of l))) e
        (swap_front a.records b.records (records_of l)))
records_of-Permᴰ (Permᴰ.trans q r) = Permᴰ.trans (records_of-Permᴰ q) (records_of-Permᴰ r)
