-- ===== src/Shadow/Drain.antt =====
-- The queue is drained: every turn that waits is processed, when every extracted fact can be read.
use atlas_memory.Prelude.{
  ℕ, zero, suc, ◌+◌, ◌-◌, ◌≤◌, min, ◌<◌, ◌⊎◌, inl, inr, ◌≡◌, ◌≢◌, refl, sym, ap, subst, ◌∙◌, Bool,
  true, false, Option, some, List, [], ◌∷◌, ◌++◌, length, length-append, length-drop, All, arith,
}
use mathlib.Core.Option
use atlas_memory.Prelude.Text.{Str}
use atlas_memory.Shadow.Reconcile.{Reconciled, reconciled, raised}
use atlas_memory.Shadow.Worker.{
  Turn, Client, Extracted, attempts, extract_spo, Worker, capacity, append_bounded, begin_turn,
  record_extraction, end_turn, process_single_turn, went_on, first_of, rest_of, process_all_pending,
}
use atlas_memory.Shadow.Fitting.{Fits, Returns, attempts-Fits, shadow_reconcile-Returns}

-- What a turn that returned has changed of the queue, the turns in flight and the results.
abbrev Settled : {W : Type 0} → Worker W → Bool × Worker W → Type 0
Settled s r =
    (r.0 ≡ true)
    × (r.1.turn_queue ≡ s.turn_queue)
    × (r.1.in_flight ≡ s.in_flight)
    × (length r.1.completed_turns ≡ min capacity (length s.completed_turns + 1))

length-append_bounded :
    {A : Type 0} (x : A) (xs : List A)
    → length xs ≤ capacity
    → length (append_bounded x xs) ≡ min capacity (length xs + 1)
unfolding append_bounded
length-append_bounded x xs h = ground (
  arith,
  length-append xs (x ∷ []),
  length-drop (length (xs ++ (x ∷ [])) - capacity) (xs ++ (x ∷ [])),
)

end_turn-Settled :
    {W : Type 0} (t : Turn) (q : Reconciled W) (e : Extracted W) (s : Worker W)
    → Returns q
    → length s.completed_turns ≤ capacity
    → Settled s (end_turn t q (record_extraction e (begin_turn s)))
unfolding end_turn record_extraction begin_turn
end_turn-Settled t (reconciled rs w) e s h l =
    (refl, refl, omega arith, length-append_bounded _ s.completed_turns l)
end_turn-Settled t (raised w) e s h l = elim h [ ]

-- The number of the turns that arrive.
abbrev pub arriving : List (List Turn) → ℕ
arriving [] = 0
arriving (ts ∷ later) = length ts + arriving later

-- What the loop leaves: `n` turns are processed, those that waited among them.
abbrev pub Drained : {W : Type 0} → List (List Turn) → Worker W → Option ℕ × Worker W → Type 0
Drained arrivals s r =
    (n : ℕ) × (r.0 ≡ some n)
    × (length s.turn_queue ≤ n)
    × (n ≤ length s.turn_queue + arriving arrivals)
    × (r.1.turn_queue ≡ [])
    × (r.1.in_flight ≡ s.in_flight)
    × (length r.1.completed_turns ≡ min capacity (length s.completed_turns + n))

arriving_split :
    (arrivals : List (List Turn))
    → arriving arrivals ≡ length (first_of arrivals) + arriving (rest_of arrivals)
arriving_split [] = refl
arriving_split (ts ∷ later) = refl

queue_cases : (ts : List Turn) → (ts ≡ []) ⊎ ((t : Turn) × (later : List Turn) × (ts ≡ t ∷ later))
queue_cases [] = inl refl
queue_cases (t ∷ later) = inr (t, later, refl)

module _ {W : Type 0} (c : Client W)
    (parsed : (content : Str) → All Fits (c.parse_json_facts content))
    (fallen : (u a : Str) → All Fits (c.outside.fallback_extract_facts u a)) where
  process_single_turn-Settled :
      (now : ℕ) (t : Turn) (s : Worker W)
      → length s.completed_turns ≤ capacity
      → Settled s (process_single_turn c now t s)
  unfolding process_single_turn extract_spo
  process_single_turn-Settled now t s l =
      let e : Extracted W = attempts c t.user_msg t.agent_response c.max_retries false s.world in
      end_turn-Settled t _ e s
        (shadow_reconcile-Returns c parsed fallen t now e e.world
          (attempts-Fits c parsed fallen t.user_msg t.agent_response c.max_retries false s.world))
        l

  -- One more turn in front of a run that drains.
  went_on-Drained :
      (t : Turn) (ts : List Turn) (arrivals : List (List Turn)) (s : Worker W) (r : Bool × Worker W)
      (rest : Worker W → Option ℕ × Worker W)
      → s.turn_queue ≡ t ∷ ts
      → length s.completed_turns ≤ capacity
      → Settled (record s { turn_queue = ts ++ first_of arrivals }) r
      → Drained (rest_of arrivals) r.1 (rest r.1)
      → Drained arrivals s (went_on r rest)
  went_on-Drained t ts arrivals s (true, done) rest q l h
        (n, all, least, most, empty, flight, count) =
      let waiting : length s.turn_queue ≡ length ts + 1 = rw q (omega arith) in
      let queue : length done.turn_queue ≡ length ts + length (first_of arrivals) =
        rw h.1 (length-append ts (first_of arrivals)) in
      (
        n + 1,
        ap (Option.map (λ m. m + 1)) all,
        omega (arith, waiting, queue, least),
        omega (arith, waiting, queue, most, arriving_split arrivals),
        empty,
        flight ∙ h.2,
        omega (arith, count, h.3, l),
      )
  went_on-Drained t ts arrivals s (false, done) rest q l h g = absurd (false_not h.0)
    where
      false_not : false ≢ true
      false_not e = cc

  process_all_pending-more :
      (now fuel : ℕ) (arrivals : List (List Turn)) (s : Worker W) (t : Turn) (ts : List Turn)
      → s.turn_queue ≡ t ∷ ts
      → process_all_pending c now (suc fuel) arrivals s
        ≡ went_on
            (process_single_turn c now t (record s { turn_queue = ts ++ first_of arrivals }))
            (process_all_pending c now fuel (rest_of arrivals))
  unfolding process_all_pending
  process_all_pending-more now fuel arrivals s t ts e = rw e refl

  -- When every entry of the facts that the extraction can give is readable and its confidence from
  -- zero to one, and at most as many results are held as the buffer takes, then draining the queue
  -- comes to an end, whatever turns other tasks put in it meanwhile, finitely many, while no other
  -- task takes turns out of it: it reports the number of turns processed, which is at least those
  -- that were waiting and at most those and the ones that arrive, leaves the queue empty and no more
  -- turns in flight than before, and the buffer holds a result for each, as far as it takes them. As
  -- many rounds as there are turns, and one, are enough.
  pub process_all_pending-Drained :
      (now fuel : ℕ) (arrivals : List (List Turn)) (s : Worker W)
      → length s.completed_turns ≤ capacity
      → length s.turn_queue + arriving arrivals < fuel
      → Drained arrivals s (process_all_pending c now fuel arrivals s)
  unfolding process_all_pending
  process_all_pending-Drained now zero arrivals s l f = absurd (omega (arith, f))
  process_all_pending-Drained now (suc fuel) arrivals s l f = elim (queue_cases s.turn_queue) [
    | inl e ↦
        rw (e, process_all_pending) (0, refl, omega arith, omega arith, e, refl, omega (arith, l))
    | inr (t, ts, e) ↦
        let one : Worker W = record s { turn_queue = ts ++ first_of arrivals } in
        let turn = process_single_turn c now t one in
        let settled = process_single_turn-Settled now t one l in
        let waiting : length s.turn_queue ≡ length ts + 1 = rw e (omega arith) in
        let queue : length turn.1.turn_queue ≡ length ts + length (first_of arrivals) =
          rw settled.1 (length-append ts (first_of arrivals)) in
        subst (Drained arrivals s) (sym (process_all_pending-more now fuel arrivals s t ts e)) (
          went_on-Drained t ts arrivals s turn _ e l settled (
            process_all_pending-Drained now fuel (rest_of arrivals) turn.1
              (omega (arith, settled.3))
              (omega (arith, f, waiting, queue, arriving_split arrivals))))
  ]
