-- ===== src/Prelude/Sorting.antt =====
-- Python's `sorted(…, reverse=True)`: a stable sort by falling keys.
use mathlib.Core.Bool.{Bool, true, false}
use mathlib.Core.Path.{◌≡◌, refl, subst}
use mathlib.Core.List.{List, [], ◌∷◌, ◌++◌}
use mathlib.Core.List.{Permᴰ}
use mathlib.Core.List.Permᴰ
use native.Mathlib.Omega.{arith}
use atlas_memory.Prelude.Lists.{length, All}
use atlas_memory.Prelude.Tests.{if◌then◌else◌, Bool-cases}
use mathlib.Core.Logic.{inl, inr}

module _ {ℓ} {A : Type ℓ} (less : A → A → Bool) where
  -- An element goes in front of the first that is less, so behind its equals.
  unfoldable pub insert_falling : A → List A → List A
  insert_falling x [] = x ∷ []
  insert_falling x (y ∷ ys) =
      let later = insert_falling x ys in if less y x then x ∷ y ∷ ys else y ∷ later

  unfoldable pub sort_onto : List A → List A → List A
  unfolding insert_falling
  sort_onto [] sorted = sorted
  sort_onto (x ∷ xs) sorted = sort_onto xs (insert_falling x sorted)

  unfoldable pub sort_falling : List A → List A
  unfolding sort_onto
  sort_falling xs = sort_onto xs []

  insert_falling-Permᴰ : (x : A) (ys : List A) → Permᴰ (insert_falling x ys) (x ∷ ys)
  unfolding insert_falling
  insert_falling-Permᴰ x [] = Permᴰ.refl (x ∷ [])
  insert_falling-Permᴰ x (y ∷ ys) = elim (Bool-cases (less y x)) [
    | inl smaller ↦ rw smaller (Permᴰ.refl (x ∷ y ∷ ys))
    | inr not_smaller ↦
        rw not_smaller
          (Permᴰ.trans (Permᴰ.cons refl (insert_falling-Permᴰ x ys)) (Permᴰ.swap refl refl))
  ]

  sort_onto-Permᴰ : (xs sorted : List A) → Permᴰ (sort_onto xs sorted) (xs ++ sorted)
  unfolding sort_onto
  sort_onto-Permᴰ [] sorted = Permᴰ.refl sorted
  sort_onto-Permᴰ (x ∷ xs) sorted = Permᴰ.trans (sort_onto-Permᴰ xs (insert_falling x sorted)) (
      Permᴰ.trans (Permᴰ.append_left xs (insert_falling-Permᴰ x sorted)) (Permᴰ.middle x xs sorted))

  -- Sorting loses nothing and adds nothing.
  pub sort_falling-Permᴰ : (xs : List A) → Permᴰ (sort_falling xs) xs
  unfolding sort_falling
  sort_falling-Permᴰ xs = Permᴰ.trans (sort_onto-Permᴰ xs []) (Permᴰ.append-nil xs)

  -- No element is less than the next.
  abbrev pub IsFalling : List A → Type 0
  IsFalling [] = Unit
  IsFalling (x ∷ []) = Unit
  IsFalling (x ∷ y ∷ ys) = (less x y ≡ false) × IsFalling (y ∷ ys)

  module _ (asym : (x y : A) → less x y ≡ true → less y x ≡ false) where
    insert_falling-IsFalling :
        (x : A) (ys : List A) → IsFalling ys → IsFalling (insert_falling x ys)
    unfolding insert_falling
    insert_falling-IsFalling x [] h = tt
    insert_falling-IsFalling x (y ∷ []) h = ground (arith, asym y x)
    insert_falling-IsFalling x (y ∷ z ∷ ys) h =
        ground (arith, asym y x, asym z x, h, insert_falling-IsFalling x (z ∷ ys) h.1)

    sort_onto-IsFalling : (xs sorted : List A) → IsFalling sorted → IsFalling (sort_onto xs sorted)
    unfolding sort_onto
    sort_onto-IsFalling [] sorted h = h
    sort_onto-IsFalling (x ∷ xs) sorted h =
        sort_onto-IsFalling xs (insert_falling x sorted) (insert_falling-IsFalling x sorted h)

    pub sort_falling-IsFalling : (xs : List A) → IsFalling (sort_falling xs)
    unfolding sort_falling
    sort_falling-IsFalling xs = sort_onto-IsFalling xs [] tt

pub length-Permᴰ {ℓ} : {A : Type ℓ} {xs ys : List A} → Permᴰ xs ys → length xs ≡ length ys
length-Permᴰ Permᴰ.nil = refl
length-Permᴰ (Permᴰ.cons e q) = omega (arith, length-Permᴰ q)
length-Permᴰ (Permᴰ.swap e f) = refl
length-Permᴰ (Permᴰ.trans q r) = omega (arith, length-Permᴰ q, length-Permᴰ r)

pub All-Permᴰ {ℓ κ} :
    {A : Type ℓ} (P : A → Type κ) {xs ys : List A} → Permᴰ xs ys → All P xs → All P ys
All-Permᴰ P Permᴰ.nil h = h
All-Permᴰ P (Permᴰ.cons e q) h = (subst P e h.0, All-Permᴰ P q h.1)
All-Permᴰ P (Permᴰ.swap e f) h = (subst P f h.1.0, (subst P e h.0, h.1.1))
All-Permᴰ P (Permᴰ.trans q r) h = All-Permᴰ P r (All-Permᴰ P q h)
