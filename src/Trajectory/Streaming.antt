-- ===== src/Trajectory/Streaming.antt =====
-- The batches of a stream put together are the columns.
use atlas_memory.Prelude.{
  ℕ, zero, suc, ◌+◌, ◌-◌, ◌≤◌, ◌<◌, min, ◌≡◌, refl, sym, ap, ◌∙◌, false, Bool-cases, inl, inr, some,
  List, [], ◌∷◌, ◌++◌, ltb, ltb→lt, ◌==◌, length, take, drop, length-drop, take-append-drop,
  drop-drop, none_left, All, arith,
}
use mathlib.Core.List.{append-nil}
use atlas_memory.Trajectory.Buffer.{Buffer}
use atlas_memory.Trajectory.Growth.{IsAligned}
use atlas_memory.Trajectory.Views.{
  Batch, rows_between, slice, batch_at, batches_from, stream_batches,
}

-- One column of all batches, put together.
abbrev pub column : {A B : Type 0} → (A → List B) → List A → List B
column f [] = []
column f (x ∷ xs) = f x ++ column f xs

take_all : {A : Type 0} (n : ℕ) (xs : List A) → length xs ≤ n → take n xs ≡ xs
take_all zero [] h = refl
take_all zero (x ∷ xs) h = absurd (omega (arith, h))
take_all (suc n) [] h = refl
take_all (suc n) (x ∷ xs) h = ap (λ z. x ∷ z) (take_all n xs (omega (arith, h)))

take_or_drop :
    {A : Type 0} (n m : ℕ) (xs : List A) → n ≡ min m (length xs) → take n xs ++ drop m xs ≡ xs
take_or_drop n m xs e = elim (Bool-cases (ltb m (length xs))) [
  | inl short ↦
      let k : n ≡ m = omega (arith, e, ltb→lt m (length xs) short) in rw k (take-append-drop m xs)
  | inr long ↦
      let l : length xs ≤ m = ground (arith, long) in
      let k : length xs ≤ n = omega (arith, e, l) in
      let z : drop m xs ≡ [] = none_left (drop m xs) (omega (arith, length-drop m xs, l)) in
      rw (z, take_all n xs k) (append-nil xs)
]

slice-drop :
    {A : Type 0} (xs : List A) (total start size : ℕ)
    → length xs ≡ total
    → slice start (min (start + size) total) xs ++ drop (start + size) xs ≡ drop start xs
slice-drop xs total start size e = rw (drop-drop start size xs) (
    take_or_drop (min (start + size) total - start) size (drop start xs)
      (omega (arith, e, length-drop start xs)))

no_rows : {V : Type 0} (rows : ℕ → V) (start n : ℕ) → n ≤ 0 → [] ≡ rows_between rows start n
no_rows rows start zero h = refl
no_rows rows start (suc n) h = absurd (omega (arith, h))

rows_between_split :
    {V : Type 0} (rows : ℕ → V) (start n m : ℕ)
    → rows_between rows start n ++ rows_between rows (start + n) m ≡ rows_between rows start (n + m)
rows_between_split rows start zero m =
    let e : start + 0 ≡ start = omega arith in let l : 0 + m ≡ m = omega arith in rw (e, l) refl
rows_between_split rows start (suc n) m =
    let e : start + suc n ≡ start + 1 + n = omega arith in
    let l : suc n + m ≡ suc (n + m) = omega arith in
    rw (e, l) (ap (λ z. rows start ∷ z) (rows_between_split rows (start + 1) n m))

-- The rows up to the end of a batch, and the rows from the next batch on.
rows_between-min :
    {V : Type 0} (rows : ℕ → V) (start size total : ℕ)
    → start < total
    → rows_between rows start (min (start + size) total - start)
        ++ rows_between rows (start + size) (total - (start + size))
      ≡ rows_between rows start (total - start)
rows_between-min rows start size total h = elim (Bool-cases (ltb (start + size) total)) [
  | inl more ↦
      let l : start + size < total = ltb→lt (start + size) total more in
      let cut : min (start + size) total - start ≡ size = omega (arith, l) in
      let all : size + (total - (start + size)) ≡ total - start = omega (arith, l) in
      rw cut (
        rows_between_split rows start size (total - (start + size))
        ∙ ap (rows_between rows start) all)
  | inr last ↦
      let l : total ≤ start + size = ground (arith, last) in
      let cut : min (start + size) total - start ≡ total - start = omega (arith, l) in
      rw (cut, ← no_rows rows (start + size) (total - (start + size)) (omega (arith, l)))
        (append-nil (rows_between rows start (total - start)))
]

module _ {V : Type 0} (b : Buffer V) (batch_size : ℕ) (positive : 1 ≤ batch_size) where
  -- A column that each batch has a slice of.
  batches_from-column :
      {A : Type 0} (f : Batch V → List A) (xs : List A)
      → length xs ≡ length b.steps
      → ((start : ℕ)
          → f (batch_at b batch_size start)
            ≡ slice start (min (start + batch_size) (length b.steps)) xs)
      → (fuel start : ℕ) → length b.steps ≤ start + fuel
      → column f (batches_from b batch_size fuel start) ≡ drop start xs
  unfolding batches_from
  batches_from-column f xs e s zero start m =
      sym (none_left (drop start xs) (omega (arith, e, m, length-drop start xs)))
  batches_from-column f xs e s (suc fuel) start m = elim (Bool-cases (ltb start (length b.steps))) [
    | inl more ↦ rw more (
        ap (λ z. z ++ column f (batches_from b batch_size fuel (start + batch_size))) (s start)
        ∙ ap (λ z. slice start (min (start + batch_size) (length b.steps)) xs ++ z)
            (batches_from-column f xs e s fuel (start + batch_size) (omega (arith, m, positive)))
        ∙ slice-drop xs (length b.steps) start batch_size e)
    | inr done ↦
        rw done (sym (none_left (drop start xs) (ground (arith, done, e, length-drop start xs))))
  ]

  -- The rows of the latent array, as the batches cut them.
  batches_from-rows :
      (fuel start : ℕ)
      → length b.steps ≤ start + fuel
      → column (λ s. s.latent_matrix) (batches_from b batch_size fuel start)
        ≡ rows_between b.rows start (length b.steps - start)
  unfolding batches_from batch_at
  batches_from-rows zero start m = no_rows b.rows start _ (omega (arith, m))
  batches_from-rows (suc fuel) start m = elim (Bool-cases (ltb start (length b.steps))) [
    | inl more ↦ rw more (
        ap (λ z. rows_between b.rows start (min (start + batch_size) (length b.steps) - start) ++ z)
          (batches_from-rows fuel (start + batch_size) (omega (arith, m, positive)))
        ∙ rows_between-min b.rows start batch_size (length b.steps)
            (ltb→lt start (length b.steps) more))
    | inr done ↦ rw done (no_rows b.rows start _ (ground (arith, done)))
  ]

  batches_from-sizes :
      (fuel start : ℕ) → All (λ s. s.batch_size ≤ batch_size) (batches_from b batch_size fuel start)
  unfolding batches_from batch_at
  batches_from-sizes zero start = tt
  batches_from-sizes (suc fuel) start = elim (Bool-cases (ltb start (length b.steps))) [
    | inl more ↦ rw more (omega arith, batches_from-sizes fuel (start + batch_size))
    | inr done ↦ rw done tt
  ]

  -- A stream of batches of an aligned buffer, of a size that is not zero, comes to an end; no batch
  -- is larger than asked for, and the columns of the batches put together are those of the buffer,
  -- each step once and in order: the steps, the times, the rows of the latent array that belong to
  -- the steps, the actions, the rewards and the uncertainties. A batch has no column for the
  -- sessions or the metadata.
  pub stream_batches-column :
      IsAligned b
      → (batches : List (Batch V)) × (stream_batches b batch_size ≡ some batches)
        × All (λ s. s.batch_size ≤ batch_size) batches
        × (column (λ s. s.step_ids) batches ≡ b.steps)
        × (column (λ s. s.timestamps) batches ≡ b.timestamps)
        × (column (λ s. s.latent_matrix) batches ≡ rows_between b.rows 0 (length b.steps))
        × (column (λ s. s.action_names) batches ≡ b.action_names)
        × (column (λ s. s.rewards) batches ≡ b.rewards)
        × (column (λ s. s.uncertainties) batches ≡ b.uncertainties)
  unfolding stream_batches
  stream_batches-column (a1, a2, a3, a4, a5, a6, a7) = elim (Bool-cases (length b.steps == 0)) [
    | inl none_there ↦
        let z : length b.steps ≤ 0 = ground (arith, none_there) in
        (
          [],
          rw none_there refl,
          tt,
          sym (none_left b.steps z),
          sym (none_left b.timestamps (omega (arith, z, a1))),
          no_rows b.rows 0 (length b.steps) z,
          sym (none_left b.action_names (omega (arith, z, a3))),
          sym (none_left b.rewards (omega (arith, z, a4))),
          sym (none_left b.uncertainties (omega (arith, z, a5))),
        )
    | inr some_there ↦
        let p : (batch_size == 0) ≡ false = ground (arith, positive) in
        let whole_length : length b.steps - 0 ≡ length b.steps = omega arith in
        (
          batches_from b batch_size (length b.steps) 0,
          rw (some_there, p) refl,
          batches_from-sizes (length b.steps) 0,
          whole (λ s. s.step_ids) b.steps refl (λ i. refl),
          whole (λ s. s.timestamps) b.timestamps a1 (λ i. refl),
          batches_from-rows (length b.steps) 0 (omega arith)
              ∙ ap (rows_between b.rows 0) whole_length,
          whole (λ s. s.action_names) b.action_names a3 (λ i. refl),
          whole (λ s. s.rewards) b.rewards a4 (λ i. refl),
          whole (λ s. s.uncertainties) b.uncertainties a5 (λ i. refl),
        )
  ]
    where
      whole :
          {A : Type 0} (f : Batch V → List A) (xs : List A)
          → length xs ≡ length b.steps
          → ((start : ℕ)
              → f (batch_at b batch_size start)
                ≡ slice start (min (start + batch_size) (length b.steps)) xs)
          → column f (batches_from b batch_size (length b.steps) 0) ≡ xs
      whole f xs e s = batches_from-column f xs e s (length b.steps) 0 (omega arith)
