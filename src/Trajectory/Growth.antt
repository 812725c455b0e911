-- ===== src/Trajectory/Growth.antt =====
-- What appending one step, and making room, does to an aligned buffer.
use atlas_memory.Prelude.{
  ℕ, suc, ◌+◌, ◌≤◌, ◌<◌, ◌≡◌, refl, sym, ap, subst, ◌∙◌, Bool, true, false, some, Bool-cases, inl,
  inr, List, [], ◌∷◌, ◌++◌, map, ltb, lt→ltb, ◌==◌, ==_iff, if◌then◌else◌, length, length-append,
  All, arith,
}
use atlas_memory.Prelude.Text.{Str}
use atlas_memory.Trajectory.Buffer.{
  Arrays, Buffer, Transition, Written, returned, raised, and_then, row_set, ensure_capacity,
  set_row, append_front, append_back, append_at,
}

-- Every column has one entry for each step, and the array has room for them.
abbrev pub IsAligned : {V : Type 0} → Buffer V → Type 0
IsAligned b =
    (length b.timestamps ≡ length b.steps)
    × (length b.session_ids ≡ length b.steps)
    × (length b.action_names ≡ length b.steps)
    × (length b.rewards ≡ length b.steps)
    × (length b.uncertainties ≡ length b.steps)
    × (length b.metadata_jsons ≡ length b.steps)
    × (length b.steps ≤ b.capacity)

-- The rows below an index are those of before.
abbrev pub SameRows : {V : Type 0} → ℕ → Buffer V → Buffer V → Type 0
SameRows n b later = (j : ℕ) → j < n → later.rows j ≡ b.rows j

-- The columns are those of before.
abbrev pub SameColumns : {V : Type 0} → Buffer V → Buffer V → Type 0
SameColumns b later =
    (later.steps ≡ b.steps)
    × (later.timestamps ≡ b.timestamps)
    × (later.session_ids ≡ b.session_ids)
    × (later.action_names ≡ b.action_names)
    × (later.rewards ≡ b.rewards)
    × (later.uncertainties ≡ b.uncertainties)
    × (later.metadata_jsons ≡ b.metadata_jsons)

-- What `n` appended steps leave.
abbrev pub Grown : {V : Type 0} → ℕ → Buffer V → Written V → Type 0
Grown n b (returned later) =
    IsAligned later
    × (length later.steps ≡ length b.steps + n)
    × SameRows (length b.steps) b later
    × (later.state_dim ≡ b.state_dim)
    × (b.capacity ≤ later.capacity)
Grown n b (raised later) = ⊥

pub length_snoc :
    {A B : Type 0} (xs : List A) (x : A) (ys : List B) (y : B)
    → length xs ≡ length ys
    → length (xs ++ (x ∷ [])) ≡ length (ys ++ (y ∷ []))
length_snoc xs x ys y e = omega (arith, e, length-append xs (x ∷ []), length-append ys (y ∷ []))

pub length-map : {A B : Type 0} (f : A → B) (xs : List A) → length (map f xs) ≡ length xs
length-map f [] = refl
length-map f (x ∷ xs) = ap suc (length-map f xs)

pub recount :
    {V : Type 0} (n m : ℕ) (b : Buffer V) (q : Written V) → n ≡ m → Grown n b q → Grown m b q
recount n m b q e g = subst (λ k. Grown k b q) e g

module _ {V : Type 0} (np : Arrays V) where
  set_row_fits :
      (i : ℕ) (v : V) (b : Buffer V)
      → i < b.capacity
      → np.fits b.state_dim v ≡ true
      → set_row np i v b ≡ some (record b { rows = λ j. if j == i then v else b.rows j })
  unfolding set_row
  set_row_fits i v b l f = rw (lt→ltb i b.capacity l, f) refl

  pub append_at-Grown :
      (i : ℕ) (session_id metadata : Str) (t : Transition V) (b : Buffer V)
      → IsAligned b
      → i ≡ length b.steps
      → i < b.capacity
      → np.fits b.state_dim t.vector ≡ true
      → Grown 1 b (append_at np i session_id metadata t b)
  unfolding append_at append_front append_back
  append_at-Grown i session_id metadata t b (a1, a2, a3, a4, a5, a6, a7) e l f =
      let front : Buffer V = append_front t.step_index t.timestamp session_id b in
      let n = length-append b.steps (t.step_index ∷ []) in
      subst
        (λ o.
          Grown 1 b
            (row_set front o (append_back t.action_name t.simulated_reward t.uncertainty metadata)))
        (sym (set_row_fits i t.vector front l f))
        (
          (
            length_snoc _ _ _ _ a1,
            length_snoc _ _ _ _ a2,
            length_snoc _ _ _ _ a3,
            length_snoc _ _ _ _ a4,
            length_snoc _ _ _ _ a5,
            length_snoc _ _ _ _ a6,
            omega (arith, n, e, l),
          ),
          n,
          (λ j k. ground (arith, ==_iff j i, e, k)),
          refl,
          omega arith,
        )

  -- What room does: nothing to the steps and the rows that are there.
  abbrev pub Roomy : ℕ → Buffer V → Buffer V → Type 0
  Roomy needed b later =
      IsAligned later
      × (later.steps ≡ b.steps)
      × SameRows (length b.steps) b later
      × (later.state_dim ≡ b.state_dim)
      × (b.capacity ≤ later.capacity)
      × (needed ≤ later.capacity)

  pub ensure_capacity-Roomy :
      (needed : ℕ) (b : Buffer V) → IsAligned b → Roomy needed b (ensure_capacity np needed b)
  unfolding ensure_capacity
  ensure_capacity-Roomy needed b (a1, a2, a3, a4, a5, a6, a7) =
      elim (Bool-cases (ltb b.capacity needed)) [
        | inl e ↦ rw e (
          (a1, a2, a3, a4, a5, a6, omega (arith, a7)),
          refl,
          (λ j k. kept _ _ _ (lt→ltb j b.capacity (omega (arith, k, a7)))),
          refl,
          omega arith,
          omega arith,
        )
        | inr e ↦ rw e (
          (a1, a2, a3, a4, a5, a6, a7),
          refl,
          (λ j k. refl),
          refl,
          omega arith,
          ground (arith, e),
        )
      ]
    where
      kept : (c : Bool) (x y : V) → c ≡ true → (if c then x else y) ≡ x
      kept true x y h = refl
      kept false x y h = cc

  -- Making room leaves every column as it is.
  pub ensure_capacity-columns :
      (needed : ℕ) (b : Buffer V) → SameColumns b (ensure_capacity np needed b)
  unfolding ensure_capacity
  ensure_capacity-columns needed b = elim (Bool-cases (ltb b.capacity needed)) [
    | inl e ↦ rw e (refl, refl, refl, refl, refl, refl, refl)
    | inr e ↦ rw e (refl, refl, refl, refl, refl, refl, refl)
  ]

  abbrev pub AllFit : ℕ → List (Transition V × Str) → Type 0
  AllFit d ts = All (λ p. np.fits d p.0.vector ≡ true) ts

  pub and_then-Grown :
      (n : ℕ) (b : Buffer V) (q : Written V) (f : Buffer V → Written V)
      → Grown 1 b q
      → ((later : Buffer V) → Grown 1 b (returned later) → Grown n later (f later))
      → Grown (n + 1) b (and_then q f)
  and_then-Grown n b (returned later) f g h = both (f later) (h later g)
    where
      both : (r : Written V) → Grown n later r → Grown (n + 1) b r
      both (returned last) (a, k, s, d, c) = (
        a,
        omega (arith, k, g.1),
        (λ j m. s j (omega (arith, m, g.1)) ∙ g.2 j m),
        d ∙ g.3,
        omega (arith, c, g.4),
      )
      both (raised last) h = h
  and_then-Grown n b (raised later) f g h = elim g [ ]
