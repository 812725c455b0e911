-- ===== src/Prelude/Dict.antt =====
-- Python's `dict` with text keys, as an association list in insertion order: a write to a present
-- key keeps its place, a new key goes to the end, and `del` removes the key.
use mathlib.Core.Path.{◌≡◌, refl}
use mathlib.Core.Bool.{Bool, true, false}
use mathlib.Core.List.{List, [], ◌∷◌, ◌++◌, map}
use mathlib.Core.Option.{Option, none, some}
use native.Mathlib.Omega.{arith}
use atlas_memory.Prelude.Tests.{if◌then◌else◌}
use atlas_memory.Prelude.Text.{Str, str_eq, str_eq_iff, str_eq_refl}

abbrev pub Dict {ℓ} : Type ℓ → Type ℓ
Dict V = List (Str × V)

module _ {ℓ} {V : Type ℓ} where
  -- `d.get(k)`.
  unfoldable pub lookup : Str → Dict V → Option V
  lookup k [] = none
  lookup k ((j, v) ∷ d) = if str_eq j k then some v else lookup k d

  -- `d[k] = v`.
  unfoldable pub insert : Str → V → Dict V → Dict V
  insert k v [] = (k, v) ∷ []
  insert k v ((j, w) ∷ d) = if str_eq j k then (j, v) ∷ d else (j, w) ∷ insert k v d

  -- `del d[k]`, and nothing on a missing key; every entry of the key goes.
  unfoldable pub delete : Str → Dict V → Dict V
  delete k [] = []
  delete k ((j, w) ∷ d) = if str_eq j k then delete k d else (j, w) ∷ delete k d

  abbrev pub keys : Dict V → List Str
  keys = map (λ e. e.0)

  abbrev pub has_key : Str → Dict V → Bool
  has_key k d = elim (lookup k d) [ none ↦ false | some _ ↦ true ]

  pub lookup-insert :
      (k j : Str) (v : V) (d : Dict V)
      → lookup j (insert k v d) ≡ (if str_eq k j then some v else lookup j d)
  unfolding lookup insert
  lookup-insert k j v [] = refl
  lookup-insert k j v ((i, w) ∷ d) =
      ground (arith, str_eq_iff k j, str_eq_iff i k, str_eq_iff i j, lookup-insert k j v d)

  pub lookup-insert_self : (k : Str) (v : V) (d : Dict V) → lookup k (insert k v d) ≡ some v
  lookup-insert_self k v d = rw (lookup-insert k k v d, str_eq_refl k)

  pub lookup-delete :
      (k j : Str) (d : Dict V) → lookup j (delete k d) ≡ (if str_eq k j then none else lookup j d)
  unfolding lookup delete
  lookup-delete k j [] = ground arith
  lookup-delete k j ((i, w) ∷ d) =
      ground (arith, str_eq_iff k j, str_eq_iff i k, str_eq_iff i j, lookup-delete k j d)

-- `k in ks`.
abbrev pub listed : Str → List Str → Bool
listed k [] = false
listed k (j ∷ js) = if str_eq j k then true else listed k js

pub lookup-unlisted {ℓ} :
    {V : Type ℓ} (k : Str) (d : Dict V) → listed k (keys d) ≡ false → lookup k d ≡ none
unfolding lookup
lookup-unlisted k [] h = refl
lookup-unlisted k ((j, v) ∷ d) h = ground (arith, lookup-unlisted k d)

pub listed-append :
    (k : Str) (xs ys : List Str) → listed k (xs ++ ys) ≡ (if listed k xs then true else listed k ys)
listed-append k [] ys = refl
listed-append k (x ∷ xs) ys = ground (arith, listed-append k xs ys)

-- Every key stands once, as in any Python dictionary.
abbrev pub Distinct : List Str → Type 0
Distinct [] = Unit
Distinct (k ∷ ks) = (listed k ks ≡ false) × Distinct ks

module _ {ℓ} {V : Type ℓ} where
  abbrev pub IsDict : Dict V → Type 0
  IsDict d = Distinct (keys d)

  listed-insert :
      (k j : Str) (v : V) (d : Dict V)
      → listed j (keys (insert k v d)) ≡ (if str_eq k j then true else listed j (keys d))
  unfolding insert
  listed-insert k j v [] = refl
  listed-insert k j v ((i, w) ∷ d) =
      ground (arith, str_eq_iff k j, str_eq_iff i k, str_eq_iff i j, listed-insert k j v d)

  listed-delete :
      (k j : Str) (d : Dict V)
      → listed j (keys (delete k d)) ≡ (if str_eq k j then false else listed j (keys d))
  unfolding delete
  listed-delete k j [] = ground arith
  listed-delete k j ((i, w) ∷ d) =
      ground (arith, str_eq_iff k j, str_eq_iff i k, str_eq_iff i j, listed-delete k j d)

  pub insert-IsDict : (k : Str) (v : V) (d : Dict V) → IsDict d → IsDict (insert k v d)
  unfolding insert
  insert-IsDict k v [] h = (refl, tt)
  insert-IsDict k v ((i, w) ∷ d) h =
      ground (arith, str_eq_iff i k, str_eq_iff k i, listed-insert k i v d, insert-IsDict k v d h.1)

  pub delete-IsDict : (k : Str) (d : Dict V) → IsDict d → IsDict (delete k d)
  unfolding delete
  delete-IsDict k [] h = tt
  delete-IsDict k ((i, w) ∷ d) h = ground (arith, listed-delete k i d, delete-IsDict k d h.1)
