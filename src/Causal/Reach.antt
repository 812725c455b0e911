-- ===== src/Causal/Reach.antt =====
-- `get_reachable` ends, and finds exactly the nodes at the end of a path that avoids the excluded
-- node.
use atlas_memory.Prelude.{
  true, false, ◌||◌, List, [], ◌∷◌, Option, ◌≡◌, subst, ◌⊎◌, inl, inr, arith, if◌then◌else◌,
  Bool-cases,
}
use atlas_memory.Prelude.Dict.{listed, listed-append}
use atlas_memory.Prelude.Text.{Str, str_eq, str_eq_iff}
use atlas_memory.Causal.Graph.{is_excluded, Search, scan, scan_one}

-- A path of at least one step from the root, no node of which is the excluded one (the root may be).
pub data Reaches (next_of : Str → List Str) (excluded : Option Str) (root : Str)
    : Str → Type 0 where
  first :
      {v : Str}
      → listed v (next_of root) ≡ true
      → is_excluded excluded v ≡ false
      → Reaches next_of excluded root v
  next :
      {u v : Str}
      → Reaches next_of excluded root u
      → listed v (next_of u) ≡ true
      → is_excluded excluded v ≡ false
      → Reaches next_of excluded root v

scan_one-reachable :
    (ex : Option Str) (v x : Str) (s : Search)
    → listed x (scan_one ex v s).reachable
      ≡ (if listed x s.reachable then true else if is_excluded ex v then false else str_eq v x)
unfolding scan_one
scan_one-reachable ex v x s = ground (arith, listed-append x s.reachable (v ∷ []), str_eq_iff v x)

scan_one-stack :
    (ex : Option Str) (v x : Str) (s : Search)
    → listed x (scan_one ex v s).stack ≡ (
        if listed x s.stack
        then true
        else if is_excluded ex v || listed v s.reachable
        then false
        else str_eq v x)
unfolding scan_one
scan_one-stack ex v x s = ground arith

scan_keeps :
    (ex : Option Str) (vs : List Str) (s : Search) (x : Str)
    → (listed x s.reachable ≡ true → listed x (scan ex vs s).reachable ≡ true)
      × (listed x s.stack ≡ true → listed x (scan ex vs s).stack ≡ true)
unfolding scan
scan_keeps ex [] s x = (λ h. h, λ h. h)
scan_keeps ex (v ∷ vs) s x = ground (
  arith,
  scan_one-reachable ex v x s,
  scan_one-stack ex v x s,
  scan_keeps ex vs (scan_one ex v s) x,
)

-- After the loop every neighbour that is not excluded is reached.
scan_reaches :
    (ex : Option Str) (vs : List Str) (s : Search) (x : Str)
    → listed x vs ≡ true
    → is_excluded ex x ≡ false
    → listed x (scan ex vs s).reachable ≡ true
unfolding scan
scan_reaches ex [] s x m e = cc
scan_reaches ex (v ∷ vs) s x m e = ground (
  arith,
  str_eq_iff v x,
  scan_one-reachable ex v x s,
  scan_keeps ex vs (scan_one ex v s) x,
  scan_reaches ex vs (scan_one ex v s) x,
)

-- What is new was a neighbour that is not excluded, and is on the stack.
scan_new :
    (ex : Option Str) (vs : List Str) (s : Search) (x : Str)
    → listed x (scan ex vs s).reachable ≡ true
    → (listed x s.reachable ≡ true)
      ⊎ ((listed x vs ≡ true) × (is_excluded ex x ≡ false) × (listed x (scan ex vs s).stack ≡ true))
unfolding scan
scan_new ex [] s x h = inl h
scan_new ex (v ∷ vs) s x h = ground (
  arith,
  str_eq_iff v x,
  scan_one-reachable ex v x s,
  scan_one-stack ex v x s,
  scan_keeps ex vs (scan_one ex v s) x,
  scan_new ex vs (scan_one ex v s) x h,
)

scan_pushed :
    (ex : Option Str) (vs : List Str) (s : Search) (x : Str)
    → listed x (scan ex vs s).stack ≡ true
    → (listed x s.stack ≡ true) ⊎ ((listed x vs ≡ true) × (is_excluded ex x ≡ false))
unfolding scan
scan_pushed ex [] s x h = inl h
scan_pushed ex (v ∷ vs) s x h =
    ground (arith, str_eq_iff v x, scan_one-stack ex v x s, scan_pushed ex vs (scan_one ex v s) x h)

module _ (next_of : Str → List Str) (ex : Option Str) (root : Str) where
  -- What holds between the rounds.
  pub record IsSearch (s : Search) : Type 0 where
    pub stack_sound : (x : Str) → listed x s.stack ≡ true → (x ≡ root) ⊎ Reaches next_of ex root x
    pub reached_sound : (x : Str) → listed x s.reachable ≡ true → Reaches next_of ex root x
    pub closed :
        (u : Str)
        → (u ≡ root) ⊎ (listed u s.reachable ≡ true)
        → (listed u s.stack ≡ true)
          ⊎ ((v : Str)
              → listed v (next_of u) ≡ true
              → is_excluded ex v ≡ false
              → listed v s.reachable ≡ true)

  from_node :
      (curr x : Str)
      → (curr ≡ root) ⊎ Reaches next_of ex root curr
      → listed x (next_of curr) ≡ true
      → is_excluded ex x ≡ false
      → Reaches next_of ex root x
  from_node curr x (inl e) m n = first (subst (λ c. listed x (next_of c) ≡ true) e m) n
  from_node curr x (inr r) m n = next r m n

  module _ (curr : Str) (stack reachable : List Str)
      (inv : IsSearch (record { stack = curr ∷ stack; reachable = reachable })) where
    abbrev popped : Search
    popped = record { stack = stack; reachable = reachable }

    abbrev scanned : Search
    scanned = scan ex (next_of curr) popped

    curr_sound : (curr ≡ root) ⊎ Reaches next_of ex root curr
    curr_sound = inv.stack_sound curr (ground (arith, str_eq_iff curr curr))

    round_stack : (x : Str) → listed x scanned.stack ≡ true → (x ≡ root) ⊎ Reaches next_of ex root x
    round_stack x h = elim (scan_pushed ex (next_of curr) popped x h) [
      | inl old ↦ inv.stack_sound x (ground arith)
      | inr pushed ↦ inr (from_node curr x curr_sound pushed.0 pushed.1)
    ]

    round_reached : (x : Str) → listed x scanned.reachable ≡ true → Reaches next_of ex root x
    round_reached x h = elim (scan_new ex (next_of curr) popped x h) [
      | inl old ↦ inv.reached_sound x old
      | inr found ↦ from_node curr x curr_sound found.0 found.1
    ]

    abbrev IsDone : Str → Type 0
    IsDone u =
        (v : Str)
        → listed v (next_of u) ≡ true
        → is_excluded ex v ≡ false
        → listed v scanned.reachable ≡ true

    curr-IsDone : IsDone curr
    curr-IsDone v m n = scan_reaches ex (next_of curr) popped v m n

    old-IsDone :
        (u : Str)
        → (listed u (curr ∷ stack) ≡ true)
          ⊎ ((v : Str)
              → listed v (next_of u) ≡ true
              → is_excluded ex v ≡ false
              → listed v reachable ≡ true)
        → (listed u scanned.stack ≡ true) ⊎ IsDone u
    old-IsDone u (inl waiting) = elim (Bool-cases (str_eq curr u)) [
      | inl same ↦ inr (subst IsDone ((str_eq_iff curr u).0 same) curr-IsDone)
      | inr other ↦ inl ((scan_keeps ex (next_of curr) popped u).1 (ground arith))
    ]
    old-IsDone u (inr done) = inr (λ v m n. (scan_keeps ex (next_of curr) popped v).0 (done v m n))

    round_closed :
        (u : Str)
        → (u ≡ root) ⊎ (listed u scanned.reachable ≡ true)
        → (listed u scanned.stack ≡ true) ⊎ IsDone u
    round_closed u (inl e) = old-IsDone u (inv.closed u (inl e))
    round_closed u (inr m) = elim (scan_new ex (next_of curr) popped u m) [
      | inl old ↦ old-IsDone u (inv.closed u (inr old))
      | inr found ↦ inl found.2
    ]

    pub round-IsSearch : IsSearch scanned
    round-IsSearch = record {
      stack_sound = round_stack;
      reached_sound = round_reached;
      closed = round_closed;
    }
