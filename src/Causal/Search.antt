-- ===== src/Causal/Search.antt =====
-- The search loop ends within its fuel, so `get_reachable` returns, and what it returns is right.
use mathlib.Core.List.{append-nil, append_assoc}
use mathlib.Core.Path.{fun_ext}
use native.Mathlib.Nat.{le_trans, lt_of_le_of_lt}
use atlas_memory.Prelude.{
  ℕ, zero, suc, ◌+◌, ◌≤◌, ◌<◌, true, false, List, [], ◌∷◌, ◌++◌, Option, some, ◌≡◌, refl, sym, ap,
  subst, ◌∙◌, ◌⊎◌, inl, inr, arith, if◌then◌else◌, length, ◌↔◌,
}
use atlas_memory.Prelude.Dict.{Dict, lookup, insert, lookup-insert, listed, listed-append}
use atlas_memory.Prelude.Text.{Str, str_eq, str_eq_iff}
use atlas_memory.Causal.Graph.{
  Relation, build_adj, neighbors, values, Search, scan, scan_one, search_loop, get_reachable,
}
use atlas_memory.Causal.Reach.{Reaches, first, next, IsSearch, round-IsSearch}

-- The elements of a list that are not in another.
unfoldable pub unseen : List Str → List Str → ℕ
unseen [] r = 0
unseen (x ∷ xs) r = (if listed x r then 0 else 1) + unseen xs r

unseen_grow :
    (xs r : List Str) (v : Str)
    → (unseen xs (r ++ (v ∷ [])) ≤ unseen xs r)
      × (listed v xs ≡ true → listed v r ≡ false → unseen xs (r ++ (v ∷ [])) + 1 ≤ unseen xs r)
unfolding unseen
unseen_grow [] r v = (omega arith, λ h. cc)
unseen_grow (x ∷ xs) r v =
    ground (arith, str_eq_iff x v, str_eq_iff v x, listed-append x r (v ∷ []), unseen_grow xs r v)

abbrev work : List Str → Search → ℕ
work all s = length s.stack + unseen all s.reachable

scan_one-work :
    (all : List Str) (ex : Option Str) (v : Str) (s : Search)
    → listed v all ≡ true
    → work all (scan_one ex v s) ≤ work all s
unfolding scan_one
scan_one-work all ex v s m = ground (arith, unseen_grow all s.reachable v)

scan-work :
    (all : List Str) (ex : Option Str) (vs : List Str) (s : Search)
    → ((x : Str) → listed x vs ≡ true → listed x all ≡ true)
    → work all (scan ex vs s) ≤ work all s
unfolding scan
scan-work all ex [] s h = omega arith
scan-work all ex (v ∷ vs) s h =
    le_trans (scan-work all ex vs (scan_one ex v s) (λ x m. h x (ground arith)))
      (scan_one-work all ex v s (h v (ground (arith, str_eq_iff v v))))

module _ (adj : Dict (List Str)) (ex : Option Str) (root : Str) where
  -- With an empty stack all that a path reaches was found.
  complete :
      (reachable : List Str)
      → IsSearch (neighbors adj) ex root (record { stack = []; reachable = reachable })
      → (x : Str) → Reaches (neighbors adj) ex root x
      → listed x reachable ≡ true
  complete reachable inv x (first m n) = elim (inv.closed root (inl refl)) [
    | inl waiting ↦ cc
    | inr done ↦ done x m n
  ]
  complete reachable inv x (next {u = u} r m n) =
      elim (inv.closed u (inr (complete reachable inv u r))) [
        | inl waiting ↦ cc
        | inr done ↦ done x m n
      ]

  search_total :
      (all : List Str)
      → ((u x : Str) → listed x (neighbors adj u) ≡ true → listed x all ≡ true)
      → (fuel : ℕ) (stack reachable : List Str)
      → IsSearch (neighbors adj) ex root (record { stack = stack; reachable = reachable })
      → length stack + unseen all reachable < fuel
      → (found : List Str) × (search_loop fuel adj ex
            (record { stack = stack; reachable = reachable })
          ≡ some found)
        × ((x : Str) → (listed x found ≡ true) ↔ Reaches (neighbors adj) ex root x)
  unfolding search_loop
  search_total all within zero stack reachable inv m = elim m [ ]
  search_total all within (suc fuel) [] reachable inv m =
      (reachable, refl, λ x. (inv.reached_sound x, complete reachable inv x))
  search_total all within (suc fuel) (curr ∷ stack) reachable inv m =
      let popped : Search = record { stack = stack; reachable = reachable } in
      let s = scan ex (neighbors adj curr) popped in
      search_total all within fuel s.stack s.reachable
        (round-IsSearch (neighbors adj) ex root curr stack reachable inv)
        (lt_of_le_of_lt (scan-work all ex (neighbors adj curr) popped (within curr)) (omega arith))

-- The objects of all relations.
unfoldable pub objects : List Relation → List Str
objects [] = []
objects (r ∷ rs) = r.object ∷ objects rs

-- The objects of the relations of a subject, in their order.
unfoldable pub objects_of : List Relation → Str → List Str
objects_of [] u = []
objects_of (r ∷ rs) u = if str_eq r.subject u then r.object ∷ objects_of rs u else objects_of rs u

neighbors-insert :
    (adj : Dict (List Str)) (k u : Str) (vs : List Str)
    → neighbors (insert k vs adj) u ≡ (if str_eq k u then vs else neighbors adj u)
unfolding neighbors
neighbors-insert adj k u vs = ground (arith, lookup-insert k u vs adj)

neighbors-add :
    (adj : Dict (List Str)) (r : Relation) (rs : List Relation) (u : Str)
    → neighbors (insert r.subject (neighbors adj r.subject ++ (r.object ∷ [])) adj) u
        ++ objects_of rs u
      ≡ neighbors adj u ++ objects_of (r ∷ rs) u
unfolding objects_of
neighbors-add adj r rs u = ground (
  arith,
  str_eq_iff r.subject u,
  neighbors-insert adj r.subject u (neighbors adj r.subject ++ (r.object ∷ [])),
  append_assoc (neighbors adj r.subject) (r.object ∷ []) (objects_of rs u),
)

neighbors-build_from :
    (rels : List Relation) (adj : Dict (List Str)) (u : Str)
    → neighbors (build_adj rels adj) u ≡ neighbors adj u ++ objects_of rels u
unfolding build_adj
neighbors-build_from [] adj u = nothing (neighbors adj u)
  where
    nothing : (vs : List Str) → vs ≡ vs ++ objects_of [] u
    nothing vs = unfold objects_of in sym (append-nil vs)
neighbors-build_from (r ∷ rs) adj u =
    neighbors-build_from rs
      (insert r.subject (values (lookup r.subject adj) ++ (r.object ∷ [])) adj) u
    ∙ same
  where
    same :
        neighbors (insert r.subject (values (lookup r.subject adj) ++ (r.object ∷ [])) adj) u
          ++ objects_of rs u
        ≡ neighbors adj u ++ objects_of (r ∷ rs) u
    same = unfold neighbors in neighbors-add adj r rs u

-- The dictionary lists for each node the objects of its relations.
pub neighbors-build_adj :
    (rels : List Relation) (u : Str) → neighbors (build_adj rels []) u ≡ objects_of rels u
unfolding neighbors lookup
neighbors-build_adj rels u = neighbors-build_from rels [] u

objects_of-within :
    (rels : List Relation) (u x : Str)
    → listed x (objects_of rels u) ≡ true
    → listed x (objects rels) ≡ true
unfolding objects objects_of
objects_of-within [] u x h = h
objects_of-within (r ∷ rs) u x h = ground (arith, objects_of-within rs u x)

unseen-le : (rels : List Relation) → unseen (objects rels) [] ≤ length rels
unfolding unseen objects
unseen-le [] = omega arith
unseen-le (r ∷ rs) = ground (arith, unseen-le rs)

start-IsSearch :
    (next_of : Str → List Str) (ex : Option Str) (root : Str)
    → IsSearch next_of ex root (record { stack = root ∷ []; reachable = [] })
start-IsSearch next_of ex root = record {
  stack_sound = λ x m. inl (ground (arith, str_eq_iff root x));
  reached_sound = λ x m. cc;
  closed = λ u o. inl (starts u o);
}
  where
    starts : (u : Str) → (u ≡ root) ⊎ (listed u [] ≡ true) → listed u (root ∷ []) ≡ true
    starts u (inl e) = ground (arith, str_eq_iff root u)
    starts u (inr h) = cc

-- `get_reachable` returns, on every list of relations, cyclic or not; and a node is in what it
-- returns exactly if a path of at least one relation leads to it from the root on which no node after
-- the root is the excluded one.
pub get_reachable_iff :
    (rels : List Relation) (root : Str) (ex : Option Str)
    → (found : List Str) × (get_reachable rels root ex ≡ some found)
      × ((x : Str) → (listed x found ≡ true) ↔ Reaches (objects_of rels) ex root x)
unfolding get_reachable
get_reachable_iff rels root ex =
    let adj = build_adj rels [] in
    let same : neighbors adj ≡ objects_of rels = fun_ext (neighbors-build_adj rels) in
    let (found, runs, right) =
      search_total adj ex root (objects rels)
        (λ u x m. objects_of-within rels u x (ap (listed x) (sym (neighbors-build_adj rels u)) ∙ m))
        (length rels + 2) (root ∷ []) [] (start-IsSearch (neighbors adj) ex root)
        (omega (arith, unseen-le rels)) in
    (found, runs, λ x. subst (λ f. (listed x found ≡ true) ↔ Reaches f ex root x) same (right x))
