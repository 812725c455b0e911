-- ===== src/Bridge/Guard.antt =====
-- The guard by potential: a mutation that is worth less than what is held has no effect at all.
use atlas_memory.Prelude.{
  ℕ, ◌+◌, ◌<◌, true, lt→ltb, List, [], ◌∷◌, ◌++◌, some, ◌≡◌, refl, sym, ap, subst, arith,
  Bool-cases, inl, inr,
}
use atlas_memory.Prelude.Text.{Str, is_empty, strip_space}
use atlas_memory.Bridge.Apply.{
  Wiring, Existing, Mutation, RemoteDelta, Bridge, Effect, returned, raised, float_of, onward,
  apply_mutation, apply_mutations, apply_remote_delta, is_stale, is_too_imprecise, incoming_lambda,
  local_lambda, outweighs, tolerance, stored, settled,
}

-- The numbers of a mutation and of an entry can be read, and the potential of the mutation is lower
-- by more than the tolerance.
abbrev pub IsBeaten : {J : Type 0} → Existing J → Mutation → Type 0
IsBeaten e m =
    (incoming held t : ℕ) × (incoming_lambda m ≡ some incoming)
    × (local_lambda e ≡ some held)
    × (float_of 0 e.timestamp ≡ some t)
    × (incoming + tolerance < held)

module _ {S J : Type 0} (w : Wiring S J) (source : Str) where
  beaten-is_too_imprecise :
      (e : Existing J) (m : Mutation)
      → IsBeaten e m
      → is_too_imprecise m (some (some e)) ≡ some true
  unfolding is_too_imprecise outweighs
  beaten-is_too_imprecise e m (incoming, held, t, i, h, stamp, lower) =
      rw (i, h, lt→ltb (incoming + tolerance) held lower, stamp) refl

  apply_mutation-beaten :
      (e : Existing J) (m : Mutation) (s : S)
      → w.has_kv_store ≡ true
      → w.get_sync (strip_space m.key) s ≡ some (some e)
      → IsBeaten e m
      → apply_mutation w source m s ≡ (returned s, 0)
  unfolding apply_mutation stored
  apply_mutation-beaten e m s has_store holds beaten =
      elim (Bool-cases (is_empty (strip_space m.key))) [
        | inl empty ↦ rw empty refl
        | inr filled ↦ rw (filled, has_store, holds, beaten-is_too_imprecise e m beaten) refl
      ]

  -- A round that changes nothing and counts nothing can be left out.
  onward-skipped :
      (m : Mutation) (back : List Mutation) (s : S)
      → apply_mutation w source m s ≡ (returned s, 0)
      → apply_mutations w source (m ∷ back) s ≡ apply_mutations w source back s
  unfolding apply_mutations
  onward-skipped m back s e =
      let rest = apply_mutations w source back s in
      let none_more : 0 + rest.1 ≡ rest.1 = omega arith in rw (e, none_more) refl

  -- Two ways to go on that agree from where a run gets through agree.
  onward-agree :
      (last : S) (step : Effect S) (n : ℕ) (run f g : S → Effect S × ℕ)
      → ((s : S) → (run s).0 ≡ returned last → f s ≡ g s)
      → (onward w step n run).0 ≡ returned last
      → onward w step n f ≡ onward w step n g
  onward-agree last (returned s) n run f g h e = ap (λ r. (r.0, n + r.1)) (h s e)
  onward-agree last (raised s) n run f g h e = refl

  apply_mutations-skipped :
      (m : Mutation) (back : List Mutation) (last : S)
      → apply_mutation w source m last ≡ (returned last, 0)
      → (front : List Mutation) (s : S) → (apply_mutations w source front s).0 ≡ returned last
      → apply_mutations w source (front ++ (m ∷ back)) s
        ≡ apply_mutations w source (front ++ back) s
  unfolding apply_mutations
  apply_mutations-skipped m back last e [] s reached =
      onward-skipped m back s
        (subst (λ (z : S). apply_mutation w source m z ≡ (returned z, 0)) (last_is reached) e)
    where
      last_of : Effect S → S
      last_of (returned z) = z
      last_of (raised z) = z

      last_is : returned s ≡ returned last → last ≡ s
      last_is r = sym (ap last_of r)
  apply_mutations-skipped m back last e (x ∷ front) s reached =
      onward-agree last (apply_mutation w source x s).0 (apply_mutation w source x s).1
        (apply_mutations w source front) _ _
        (λ s' r. apply_mutations-skipped m back last e front s' r) reached

-- With a store of its own, a mutation that finds an entry under its key with a potential higher by
-- more than the tolerance makes no difference to the delivery of a delta, wherever it stands: the
-- store, the clock, the number applied and a later exception are those of the delta without it,
-- whatever its timestamp is. The entry is the one that the mutations before it leave, and the
-- numbers of the two can be read.
pub low_precision_ignored :
    {S J : Type 0} (w : Wiring S J) (delta : RemoteDelta) (b : Bridge S)
    (front back : List Mutation) (m : Mutation) (s : S) (e : Existing J)
    → w.has_kv_store ≡ true
    → (apply_mutations w delta.source_node front b.store).0 ≡ returned s
    → w.get_sync (strip_space m.key) s ≡ some (some e)
    → IsBeaten e m
    → apply_remote_delta w (record delta { mutations = front ++ (m ∷ back) }) b
      ≡ apply_remote_delta w (record delta { mutations = front ++ back }) b
unfolding apply_remote_delta
low_precision_ignored w delta b front back m s e has_store reached holds beaten =
    elim (Bool-cases (is_stale b.clock delta.peer_vc)) [
      | inl stale ↦ rw stale refl
      | inr fresh ↦ rw fresh (
          ap (settled w delta b) (
            apply_mutations-skipped w delta.source_node m back s
              (apply_mutation-beaten w delta.source_node e m s has_store holds beaten) front b.store
              reached))
    ]
