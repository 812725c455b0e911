-- ===== src/Packing/Filling.antt =====
-- What the greedy loops take and leave: nothing is lost, the cost is counted right, and the loops
-- come out with nothing only if no item fits.
use mathlib.Core.List.{Permᴰ, append_assoc}
use mathlib.Core.List.Permᴰ
use atlas_memory.Prelude.{
  ℕ, ◌+◌, ◌≤◌, ◌<◌, List, [], ◌∷◌, ◌++◌, ◌≡◌, refl, sym, ◌∙◌, ap, subst, ◌⊎◌, inl, inr, arith, leb,
  length, length-append, All, All-append, Bool-cases,
}
use atlas_memory.Packing.Records.{Item}
use atlas_memory.Packing.Greedy.{sum_of, cost_of, Packed, add_item, fill}

pub sum_of-append :
    (f : Item → ℕ) (xs ys : List Item) → sum_of f (xs ++ ys) ≡ sum_of f xs + sum_of f ys
unfolding sum_of
sum_of-append f [] ys = omega arith
sum_of-append f (x ∷ xs) ys = omega (arith, sum_of-append f xs ys)

pub sum_of-Permᴰ : (f : Item → ℕ) {xs ys : List Item} → Permᴰ xs ys → sum_of f xs ≡ sum_of f ys
unfolding sum_of
sum_of-Permᴰ f Permᴰ.nil = refl
sum_of-Permᴰ f (Permᴰ.cons e q) = omega (arith, ap f e, sum_of-Permᴰ f q)
sum_of-Permᴰ f (Permᴰ.swap e g) = omega (arith, ap f e, ap f g)
sum_of-Permᴰ f (Permᴰ.trans q r) = sum_of-Permᴰ f q ∙ sum_of-Permᴰ f r

pub All-Permᴰ {ℓ κ} :
    {A : Type ℓ} (P : A → Type κ) {xs ys : List A} → Permᴰ xs ys → All P xs → All P ys
All-Permᴰ P Permᴰ.nil h = tt
All-Permᴰ P (Permᴰ.cons e q) h = (subst P e h.0, All-Permᴰ P q h.1)
All-Permᴰ P (Permᴰ.swap e f) h = (subst P f h.1.0, (subst P e h.0, h.1.1))
All-Permᴰ P (Permᴰ.trans q r) h = All-Permᴰ P r (All-Permᴰ P q h)

-- The running cost is that of what is packed, and within the budget.
abbrev pub IsWithin : ℕ → Packed → Type 0
IsWithin budget p = (p.cost ≡ cost_of p.items) × (p.cost ≤ budget)

-- What a loop made of `p` and the items `is`: some are packed and the others left.
abbrev pub IsSplit : Packed → List Item → Packed → Type 0
IsSplit p is out = (left : List Item) × Permᴰ (out.items ++ left) (p.items ++ is)

-- Something is packed, or nothing was and no item fits behind `p`.
abbrev pub IsExhausted : ℕ → Packed → List Item → Packed → Type 0
IsExhausted budget p is out =
    (1 ≤ length out.items)
    ⊎ ((length p.items ≡ 0) × (out.cost ≡ p.cost) × All (λ i. budget < p.cost + i.cost) is)

pub IsSplit-trans :
    (p q r : Packed) (xs ys : List Item) → IsSplit p xs q → IsSplit q ys r → IsSplit p (xs ++ ys) r
IsSplit-trans p q r xs ys (left, first) (later, second) = (
  later ++ left,
  subst (λ z. Permᴰ z (p.items ++ (xs ++ ys))) (append_assoc r.items later left)
      (Permᴰ.trans (Permᴰ.append_right left second) (
        subst (λ z. Permᴰ z (p.items ++ (xs ++ ys))) (sym (append_assoc q.items ys left))
          (Permᴰ.trans (Permᴰ.append_left q.items (Permᴰ.append_comm ys left)) (
            subst (λ z. Permᴰ z (p.items ++ (xs ++ ys))) (append_assoc q.items left ys)
              (subst (Permᴰ ((q.items ++ left) ++ ys)) (append_assoc p.items xs ys)
                (Permᴰ.append_right ys first)))))),
)

module _ (budget : ℕ) where
  pub IsExhausted-trans :
      (p q r : Packed) (xs ys : List Item)
      → IsExhausted budget p xs q
      → IsExhausted budget q ys r
      → IsExhausted budget p (xs ++ ys) r
  IsExhausted-trans p q r xs ys first (inl some_item) = inl some_item
  IsExhausted-trans p q r xs ys (inl some_item) (inr later) = absurd (omega arith)
  IsExhausted-trans p q r xs ys (inr first) (inr later) = inr (
    first.0,
    later.1 ∙ first.1,
    All-append (λ i. budget < p.cost + i.cost) xs ys first.2
        (subst (λ c. All (λ i. budget < c + i.cost) ys) first.1 later.2),
  )

  pub unchanged-IsExhausted :
      (p : Packed) (is : List Item)
      → All (λ i. budget < p.cost + i.cost) is
      → IsExhausted budget p is p
  unchanged-IsExhausted p is h = elim (first_or_none p.items) [
    | inl some_item ↦ inl some_item
    | inr nothing ↦ inr (nothing, refl, h)
  ]
    where
      first_or_none : (xs : List Item) → (1 ≤ length xs) ⊎ (length xs ≡ 0)
      first_or_none [] = inr refl
      first_or_none (x ∷ xs) = inl (omega arith)

  add_item-IsWithin :
      (i : Item) (p : Packed) → IsWithin budget p → IsWithin budget (add_item budget i p)
  unfolding add_item sum_of
  add_item-IsWithin i p w = ground (arith, sum_of-append (λ j. j.cost) p.items (i ∷ []))

  add_item-IsSplit : (i : Item) (p : Packed) → IsSplit p (i ∷ []) (add_item budget i p)
  unfolding add_item
  add_item-IsSplit i p = elim (Bool-cases (leb (p.cost + i.cost) budget)) [
    | inl fits ↦ rw (fits, add_item) ([], Permᴰ.append-nil (p.items ++ (i ∷ [])))
    | inr too_big ↦ rw (too_big, add_item) (i ∷ [], Permᴰ.refl (p.items ++ (i ∷ [])))
  ]

  add_item-IsExhausted :
      (i : Item) (p : Packed) → IsExhausted budget p (i ∷ []) (add_item budget i p)
  unfolding add_item
  add_item-IsExhausted i p = elim (Bool-cases (leb (p.cost + i.cost) budget)) [
    | inl fits ↦ rw (fits, add_item) (inl (omega (arith, length-append p.items (i ∷ []))))
    | inr too_big ↦ rw (too_big, add_item) (unchanged-IsExhausted p (i ∷ []) (ground arith, tt))
  ]

  pub fill-IsWithin :
      (is : List Item) (p : Packed) → IsWithin budget p → IsWithin budget (fill budget is p)
  unfolding fill
  fill-IsWithin [] p w = w
  fill-IsWithin (i ∷ is) p w = fill-IsWithin is (add_item budget i p) (add_item-IsWithin i p w)

  pub fill-IsSplit : (is : List Item) (p : Packed) → IsSplit p is (fill budget is p)
  unfolding fill
  fill-IsSplit [] p = ([], Permᴰ.refl (p.items ++ []))
  fill-IsSplit (i ∷ is) p =
      let q = add_item budget i p in
      IsSplit-trans p q (fill budget is q) (i ∷ []) is (add_item-IsSplit i p) (fill-IsSplit is q)

  pub fill-IsExhausted : (is : List Item) (p : Packed) → IsExhausted budget p is (fill budget is p)
  unfolding fill
  fill-IsExhausted [] p = unchanged-IsExhausted p [] tt
  fill-IsExhausted (i ∷ is) p =
      let q = add_item budget i p in
      IsExhausted-trans p q (fill budget is q) (i ∷ []) is (add_item-IsExhausted i p)
        (fill-IsExhausted is q)
