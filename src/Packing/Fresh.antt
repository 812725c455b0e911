-- ===== src/Packing/Fresh.antt =====
-- What was not visited yet, and how a visit changes it.
use mathlib.Core.List.{Permᴰ}
use mathlib.Core.List.Permᴰ
use atlas_memory.Prelude.{
  ℕ, Bool, true, false, not, List, [], ◌∷◌, ◌++◌, map, ◌≡◌, refl, ap, subst, ◌∙◌, ◌⊎◌, inl, inr,
  arith, ◌==◌, if◌then◌else◌, keep_if, Bool-cases,
}
use atlas_memory.Packing.Records.{Item}
use atlas_memory.Packing.Components.{is_visited}

abbrev pub indices : List Item → List ℕ
indices = map (λ i. i.index)

-- No index stands twice.
abbrev pub HasDistinctIndices : List Item → Type 0
HasDistinctIndices [] = Unit
HasDistinctIndices (i ∷ is) = (is_visited i.index (indices is) ≡ false) × HasDistinctIndices is

abbrev pub In : Item → List Item → Type 0
In i [] = ⊥
In i (j ∷ js) = (j ≡ i) ⊎ In i js

-- What a test keeps was there.
pub In-keep_if : (p : Item → Bool) (i : Item) (is : List Item) → In i (keep_if p is) → In i is
In-keep_if p i [] m = m
In-keep_if p i (j ∷ is) m = elim (Bool-cases (p j)) [
  | inl kept ↦ first_or (In-keep_if p i is) (rw kept at m)
  | inr dropped ↦ inr (In-keep_if p i is (rw dropped at m))
]
  where
    first_or : (In i (keep_if p is) → In i is) → (j ≡ i) ⊎ In i (keep_if p is) → (j ≡ i) ⊎ In i is
    first_or later (inl e) = inl e
    first_or later (inr n) = inr (later n)

pub is_visited-append :
    (i k : ℕ) (js : List ℕ)
    → is_visited i (js ++ (k ∷ [])) ≡ (if is_visited i js then true else k == i)
is_visited-append i k [] = ground arith
is_visited-append i k (j ∷ js) = ground (arith, is_visited-append i k js)

-- The items that were not visited.
abbrev pub fresh : List ℕ → List Item → List Item
fresh visited = keep_if (λ i. not (is_visited i.index visited))

fresh-other :
    (k : ℕ) (visited : List ℕ) (is : List Item)
    → is_visited k (indices is) ≡ false
    → fresh (visited ++ (k ∷ [])) is ≡ fresh visited is
fresh-other k visited [] h = refl
fresh-other k visited (i ∷ is) h =
    ground (arith, is_visited-append i.index k visited, fresh-other k visited is)

pub In-index : (i : Item) (is : List Item) → In i is → is_visited i.index (indices is) ≡ true
In-index i [] m = elim m [ ]
In-index i (j ∷ is) (inl e) = ground (arith, ap (λ z. z.index) e)
In-index i (j ∷ is) (inr m) = ground (arith, In-index i is m)

pub fresh-seen :
    (j : Item) (visited : List ℕ) (is : List Item)
    → is_visited j.index visited ≡ true
    → fresh visited (j ∷ is) ≡ fresh visited is
fresh-seen j visited is h = rw h refl

fresh-new :
    (j : Item) (visited : List ℕ) (is : List Item)
    → is_visited j.index visited ≡ false
    → fresh visited (j ∷ is) ≡ j ∷ fresh visited is
fresh-new j visited is h = rw h refl

of_eq : (xs xs' ys ys' : List Item) → xs ≡ xs' → ys ≡ ys' → Permᴰ xs' ys' → Permᴰ xs ys
of_eq xs xs' ys ys' e f q = rw (e, f) q

-- Marking an item takes it from the fresh ones.
pub fresh-visit :
    (i : Item) (visited : List ℕ) (is : List Item)
    → HasDistinctIndices is
    → In i is
    → is_visited i.index visited ≡ false
    → Permᴰ (i ∷ fresh (visited ++ (i.index ∷ [])) is) (fresh visited is)
fresh-visit i visited [] d m new = elim m [ ]
fresh-visit i visited (j ∷ is) d (inl e) new =
    let marked = visited ++ (i.index ∷ []) in
    let same : i ∷ fresh marked (j ∷ is) ≡ fresh visited (j ∷ is) = ground (
      arith,
      ap (λ z. z.index) e,
      is_visited-append j.index i.index visited,
      fresh-other i.index visited is,
    ) in
    subst (Permᴰ (i ∷ fresh marked (j ∷ is))) same (Permᴰ.refl (i ∷ fresh marked (j ∷ is)))
fresh-visit i visited (j ∷ is) d (inr m) new =
    let marked = visited ++ (i.index ∷ []) in
    let after = fresh-visit i visited is d.1 m new in
    let apart : is_visited j.index marked ≡ is_visited j.index visited =
      ground (arith, is_visited-append j.index i.index visited, In-index i is m, d.0) in
    elim (Bool-cases (is_visited j.index visited)) [
      | inl seen ↦
          of_eq _ (i ∷ fresh marked is) _ (fresh visited is)
            (ap (λ z. i ∷ z) (fresh-seen j marked is (apart ∙ seen))) (fresh-seen j visited is seen)
            after
      | inr unseen ↦
          of_eq _ (i ∷ j ∷ fresh marked is) _ (j ∷ fresh visited is)
            (ap (λ z. i ∷ z) (fresh-new j marked is (apart ∙ unseen)))
            (fresh-new j visited is unseen)
            (Permᴰ.trans (Permᴰ.swap refl refl) (Permᴰ.cons refl after))
    ]
