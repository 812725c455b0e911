-- ===== src/Trajectory/Aligned.antt =====
-- The columns stay aligned as long as every vector fits, and not behind one that does not.
use atlas_memory.Prelude.{
  ℕ, suc, ◌+◌, ◌≤◌, ◌≡◌, refl, sym, ap, subst, ◌∙◌, Bool, true, false, none, List, [], ◌∷◌, ◌++◌,
  map, ltb, if◌then◌else◌, length, All, arith,
}
use atlas_memory.Prelude.Text.{Str}
use atlas_memory.Trajectory.Buffer.{
  Arrays, Buffer, Transition, RealStep, Written, returned, raised, row_set, ensure_capacity,
  set_row, append_front, append_back, append_at, append_transition, append_from, append_all,
  append_transitions, real_transition, real_transitions, record_real_trajectory,
}
use atlas_memory.Trajectory.Growth.{
  IsAligned, SameRows, Grown, length-map, recount, append_at-Grown, ensure_capacity-Roomy,
  ensure_capacity-columns, AllFit, and_then-Grown,
}

module _ {V : Type 0} (np : Arrays V) where
  append_from-Grown :
      (i : ℕ) (session_id : Str) (ts : List (Transition V × Str)) (b : Buffer V)
      → IsAligned b
      → i ≡ length b.steps
      → length b.steps + length ts ≤ b.capacity
      → AllFit np b.state_dim ts
      → Grown (length ts) b (append_from np i session_id ts b)
  unfolding append_from
  append_from-Grown i session_id [] b a e l f = (a, omega arith, (λ j k. refl), refl, omega arith)
  append_from-Grown i session_id ((t, metadata) ∷ ts) b a e l f =
      let plus : length ts + 1 ≡ suc (length ts) = omega arith in
      recount (length ts + 1) (suc (length ts)) b _ plus (
        and_then-Grown np (length ts) b (append_at np i session_id metadata t b)
          (append_from np (i + 1) session_id ts)
          (append_at-Grown np i session_id metadata t b a e (omega (arith, e, l)) f.0)
          (λ later g.
            append_from-Grown (i + 1) session_id ts later g.0 (omega (arith, e, g.1))
              (omega (arith, l, g.1, g.4)) (subst (λ d. AllFit np d ts) (sym g.3) f.1)))

  append_all-Grown :
      (session_id : Str) (ts : List (Transition V × Str)) (b : Buffer V)
      → IsAligned b
      → AllFit np b.state_dim ts
      → Grown (length ts) b (append_all np ts session_id b)
  unfolding append_all
  append_all-Grown session_id ts b a f =
      let room : Buffer V = ensure_capacity np (length b.steps + length ts) b in
      let (r, s, same, d, c, m) = ensure_capacity-Roomy np (length b.steps + length ts) b a in
      let n : length room.steps ≡ length b.steps = ap length s in
      widen room (append_from np (length b.steps) session_id ts room) n same d c (
        append_from-Grown (length b.steps) session_id ts room r (sym n) (omega (arith, n, m))
          (subst (λ d. AllFit np d ts) (sym d) f))
    where
      widen :
          (room : Buffer V) (q : Written V)
          → length room.steps ≡ length b.steps
          → SameRows (length b.steps) b room
          → room.state_dim ≡ b.state_dim
          → b.capacity ≤ room.capacity
          → Grown (length ts) room q
          → Grown (length ts) b q
      widen room (returned last) n same d c g = (
        g.0,
        omega (arith, n, g.1),
        (λ j k. g.2 j (omega (arith, n, k)) ∙ same j k),
        g.3 ∙ d,
        omega (arith, c, g.4),
      )
      widen room (raised last) n same d c g = g

  -- Appending transitions whose vectors all fit to an aligned buffer returns, and leaves an aligned
  -- buffer with as many steps more, in which the rows that were there are unchanged.
  pub append_transitions-Grown :
      (ts : List (Transition V)) (session_id metadata : Str) (b : Buffer V)
      → IsAligned b
      → All (λ t. np.fits b.state_dim t.vector ≡ true) ts
      → Grown (length ts) b (append_transitions np ts session_id metadata b)
  unfolding append_transitions
  append_transitions-Grown [] session_id metadata b a f =
      (a, omega arith, (λ j k. refl), refl, omega arith)
  append_transitions-Grown (t ∷ ts) session_id metadata b a f =
      recount _ _ b _ (length-map (λ t. (t, metadata)) (t ∷ ts))
        (append_all-Grown session_id (map (λ t. (t, metadata)) (t ∷ ts)) b a (each (t ∷ ts) f))
    where
      each :
          (ts : List (Transition V))
          → All (λ t. np.fits b.state_dim t.vector ≡ true) ts
          → AllFit np b.state_dim (map (λ t. (t, metadata)) ts)
      each [] f = tt
      each (t ∷ ts) f = (f.0, each ts f.1)

  real_transitions-AllFit :
      (d i now : ℕ) (ss : List RealStep)
      → np.fits d np.zero_row ≡ true
      → AllFit np d (real_transitions np i now ss)
  unfolding real_transitions real_transition
  real_transitions-AllFit d i now [] z = tt
  real_transitions-AllFit d i now (s ∷ ss) z =
      (z, real_transitions-AllFit d (i + 1) (now + 1_000_000) ss z)

  length-real_transitions :
      (i now : ℕ) (ss : List RealStep) → length (real_transitions np i now ss) ≡ length ss
  unfolding real_transitions
  length-real_transitions i now [] = refl
  length-real_transitions i now (s ∷ ss) =
      ap suc (length-real_transitions (i + 1) (now + 1_000_000) ss)

  -- Recording the steps of a transcript into an aligned buffer returns, and leaves an aligned
  -- buffer with a row for each step more, in which the rows that were there are unchanged; a row
  -- of zeros fits.
  record_real_trajectory-Grown :
      (now : ℕ) (ss : List RealStep) (session_id : Str) (b : Buffer V)
      → IsAligned b
      → np.fits b.state_dim np.zero_row ≡ true
      → Grown (length ss) b (record_real_trajectory np now ss session_id b)
  unfolding record_real_trajectory
  record_real_trajectory-Grown now ss session_id b a z =
      recount _ _ b _ (length-real_transitions (length b.steps + 1) now ss) (
        append_all-Grown session_id (real_transitions np (length b.steps + 1) now ss) b a
          (real_transitions-AllFit b.state_dim (length b.steps + 1) now ss z))

  if_either : {A : Type 0} (c : Bool) (x y : A) → x ≡ y → (if c then x else y) ≡ y
  if_either true x y e = e
  if_either false x y e = refl

  set_row_misfit :
      (i : ℕ) (v : V) (b : Buffer V) → np.fits b.state_dim v ≡ false → set_row np i v b ≡ none
  unfolding set_row
  set_row_misfit i v b f = if_either (ltb i b.capacity) _ none (rw f refl)

  -- What an append that raised at its vector leaves: one step, time and session more.
  abbrev pub Torn : Transition V → Str → Buffer V → Buffer V → Type 0
  Torn t session_id b later =
      (later.steps ≡ b.steps ++ (t.step_index ∷ []))
      × (later.timestamps ≡ b.timestamps ++ (t.timestamp ∷ []))
      × (later.session_ids ≡ b.session_ids ++ (session_id ∷ []))
      × (later.action_names ≡ b.action_names)
      × (later.rewards ≡ b.rewards)
      × (later.uncertainties ≡ b.uncertainties)
      × (later.metadata_jsons ≡ b.metadata_jsons)
      × SameRows (length b.steps) b later

  -- A vector that does not fit makes an append to an aligned buffer raise when the step, its time
  -- and its session are written at the ends of their columns; the other four columns and the rows
  -- of the steps before are as they were. So the columns are out of line from there on.
  pub append_transition-raised :
      (t : Transition V) (session_id metadata : Str) (b : Buffer V)
      → IsAligned b
      → np.fits b.state_dim t.vector ≡ false
      → (later : Buffer V) × (append_transition np t session_id metadata b ≡ raised later)
        × Torn t session_id b later
  unfolding append_transition append_at append_front
  append_transition-raised t session_id metadata b a f =
      let room : Buffer V = ensure_capacity np (length b.steps + 1) b in
      let (r, s, same, d, c, m) = ensure_capacity-Roomy np (length b.steps + 1) b a in
      let (c1, c2, c3, c4, c5, c6, c7) = ensure_capacity-columns np (length b.steps + 1) b in
      let front : Buffer V = append_front t.step_index t.timestamp session_id room in
      let misfit : np.fits front.state_dim t.vector ≡ false =
        subst (λ k. np.fits k t.vector ≡ false) (sym d) f in
      (
        front,
        ap
            (λ o.
              row_set front o (append_back t.action_name t.simulated_reward t.uncertainty metadata))
            (set_row_misfit (length b.steps) t.vector front misfit),
        (
          ap (λ xs. xs ++ (t.step_index ∷ [])) c1,
          ap (λ xs. xs ++ (t.timestamp ∷ [])) c2,
          ap (λ xs. xs ++ (session_id ∷ [])) c3,
          c4,
          c5,
          c6,
          c7,
          same,
        ),
      )
