-- ===== src/Shadow/Steps.antt =====
-- The worker's loop and the draining by a request as interleaved steps: between two `await`s of one
-- turn any other step can come.
use atlas_memory.Prelude.{
  ℕ, ◌+◌, ◌-◌, ◌≤◌, ◌≡◌, refl, subst, ◌∙◌, if◌then◌else◌, Bool, true, false, none, some, List, [],
  ◌∷◌, ◌++◌, ltb, ltb→lt, length, length-append, length-drop, arith,
}
use atlas_memory.Shadow.Reconcile.{Reconciled, reconciled, raised}
use atlas_memory.Shadow.Worker.{
  Turn, Extracted, Worker, capacity, enqueue_turn, append_bounded, pop_completed, begin_turn,
  record_extraction, end_turn,
}

-- The worker, the turns in flight, and how many turns were ever accepted and ever ended.
pub record System (W : Type 0) : Type 0 where
  pub worker : Worker W
  pub active : List Turn
  pub accepted : ℕ
  pub ended : ℕ

pub data Step {W : Type 0} : System W → System W → Type 0 where
  enqueue :
      (s : System W) (t : Turn) (later : Worker W)
      → enqueue_turn t s.worker ≡ some later
      → Step s (record s { worker = later; accepted = s.accepted + 1 })
  take_turn :
      (s : System W) (t : Turn) (ts : List Turn)
      → s.worker.turn_queue ≡ t ∷ ts
      → Step s (record s {
        worker = begin_turn (record s.worker { turn_queue = ts });
        active = t ∷ s.active;
      })
  extract :
      (s : System W) (e : Extracted W) → Step s (record s { worker = record_extraction e s.worker })
  end_active :
      (s : System W) (t : Turn) (front back : List Turn) (q : Reconciled W)
      → s.active ≡ front ++ (t ∷ back)
      → Step s (record s {
        worker = (end_turn t q s.worker).1;
        active = front ++ back;
        ended = s.ended + 1;
      })
  pop : (s : System W) → Step s (record s { worker = (pop_completed s.worker).1 })

pub data Reachable {W : Type 0} (start : System W) : System W → Type 0 where
  here : Reachable start start
  after : {s s' : System W} → Reachable start s → Step s s' → Reachable start s'

-- The counter is the number of turns in flight, no turn is lost or counted twice, and neither
-- buffer is over its size.
abbrev pub IsBalanced : {W : Type 0} → System W → Type 0
IsBalanced s =
    (s.worker.in_flight ≡ length s.active)
    × (s.accepted ≡ length s.worker.turn_queue + length s.active + s.ended)
    × (length s.worker.turn_queue ≤ capacity)
    × (length s.worker.completed_turns ≤ capacity)

if_accepted :
    {A : Type 0} (b : Bool) (x y : A) → (if b then some x else none) ≡ some y → (b ≡ true) × (x ≡ y)
if_accepted true x y h = (refl, cc)
if_accepted false x y h = cc

-- What the acceptance of a turn has changed.
abbrev Accepted : {W : Type 0} → Worker W → Worker W → Type 0
Accepted s later =
    (later.in_flight ≡ s.in_flight)
    × (length later.turn_queue ≡ length s.turn_queue + 1)
    × (length later.turn_queue ≤ capacity)
    × (later.completed_turns ≡ s.completed_turns)

enqueue_turn-Accepted :
    {W : Type 0} (t : Turn) (s later : Worker W) → enqueue_turn t s ≡ some later → Accepted s later
unfolding enqueue_turn
enqueue_turn-Accepted {W} t s later h =
    let next : Worker W = record s { turn_queue = s.turn_queue ++ (t ∷ []) } in
    let (room, e) = if_accepted (ltb (length s.turn_queue) capacity) next later h in
    let n = length-append s.turn_queue (t ∷ []) in
    subst (Accepted s) e
      (refl, omega (arith, n), omega (arith, n, ltb→lt (length s.turn_queue) capacity room), refl)

append_bounded-capacity :
    {A : Type 0} (x : A) (xs : List A) → length (append_bounded x xs) ≤ capacity
unfolding append_bounded
append_bounded-capacity x xs =
    omega (arith, length-drop (length (xs ++ (x ∷ [])) - capacity) (xs ++ (x ∷ [])))

-- What the end of a turn has changed.
abbrev Ended : {W : Type 0} → Worker W → Worker W → Type 0
Ended s later =
    (later.in_flight ≡ s.in_flight - 1)
    × (later.turn_queue ≡ s.turn_queue)
    × (length later.completed_turns ≤ capacity)

end_turn-Ended :
    {W : Type 0} (t : Turn) (q : Reconciled W) (s : Worker W)
    → length s.completed_turns ≤ capacity
    → Ended s (end_turn t q s).1
unfolding end_turn
end_turn-Ended t (reconciled rs w) s l = (refl, refl, append_bounded-capacity _ s.completed_turns)
end_turn-Ended t (raised w) s l = (refl, refl, l)

Step-IsBalanced : {W : Type 0} {s s' : System W} → Step s s' → IsBalanced s → IsBalanced s'
unfolding begin_turn record_extraction pop_completed
Step-IsBalanced (Step.enqueue s t later e) (f, a, q, c) =
    let (g, n, m, d) = enqueue_turn-Accepted t s.worker later e in
    (g ∙ f, omega (arith, a, n), m, rw d c)
Step-IsBalanced (Step.take_turn s t ts e) (f, a, q, c) =
    let n : length s.worker.turn_queue ≡ length ts + 1 = rw e (omega arith) in
    (omega (arith, f), omega (arith, a, n), omega (arith, q, n), c)
Step-IsBalanced (Step.extract s e) b = b
Step-IsBalanced (Step.end_active s t front back q e) (f, a, l, c) =
    let n : length s.active ≡ length (front ++ back) + 1 =
      rw e (omega (arith, length-append front (t ∷ back), length-append front back)) in
    let (g, m, d) = end_turn-Ended t q s.worker c in
    (omega (arith, f, g, n), rw m (omega (arith, a, n)), rw m l, d)
Step-IsBalanced (Step.pop s) (f, a, q, c) = (f, a, q, omega arith)

-- From a balanced system, say one that starts empty, every system that can be reached by steps of
-- the worker's loop and of any number of requests, in any order, is balanced.
pub reachable-IsBalanced :
    {W : Type 0} (start s : System W) → IsBalanced start → Reachable start s → IsBalanced s
reachable-IsBalanced start s b Reachable.here = b
reachable-IsBalanced start s b (Reachable.after r step) =
    Step-IsBalanced step (reachable-IsBalanced start _ b r)
