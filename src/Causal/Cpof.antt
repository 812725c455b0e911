-- ===== src/Causal/Cpof.antt =====
-- Which nodes `detect_cpof` reports, with what, and in which order.
use mathlib.Core.Option.{some-injective}
use atlas_memory.Prelude.{
  ◌*◌, ◌≤◌, Bool, true, false, not, ◌&&◌, ◌||◌, List, [], ◌∷◌, none, some, ◌≡◌, refl, sym, ap, ◌∙◌,
  inl, inr, arith, leb, if◌then◌else◌, length, All, Bool-cases, ◌↔◌,
}
use atlas_memory.Prelude.Dict.{listed}
use atlas_memory.Prelude.Text.{Str, str_eq, str_eq_iff}
use atlas_memory.Causal.Graph.{
  Relation, CpofNode, get_reachable, difference, severity_of, judge_candidates, sort_severe,
  detect_cpof,
}
use atlas_memory.Causal.Ranking.{
  ids, IsFalling, sort_severe-IsFalling, listed-sort_severe, All-sort_severe,
}
use atlas_memory.Causal.Reach.{Reaches}
use atlas_memory.Causal.Search.{objects_of, get_reachable_iff}

pub listed-difference :
    (x : Str) (xs ys : List Str) → listed x (difference xs ys) ≡ (listed x xs && not (listed x ys))
unfolding difference
listed-difference x [] ys = refl
listed-difference x (y ∷ xs) ys = ground (arith, str_eq_iff y x, listed-difference x xs ys)

-- What a report says of its node: the affected nodes are those that lose every path from the
-- root when the node is taken out, the total is the number of all the nodes reached, and the
-- affected ones are at least half of them.
abbrev pub IsCpof : List Relation → Str → List Str → CpofNode → Type 0
IsCpof rels root all n =
    Reaches (objects_of rels) none root n.node_id
    × (n.total ≡ length all)
    × (n.total ≤ 2 * length n.affected_nodes)
    × (n.severity ≡ severity_of (length n.affected_nodes) n.total)
    × ((x : Str)
        → (listed x n.affected_nodes ≡ true) ↔ (
            Reaches (objects_of rels) none root x
            × (¬ Reaches (objects_of rels) (some n.node_id) root x)))

module _ (rels : List Relation) (root : Str) (all : List Str) where
  -- The report on one candidate, given the nodes reached without it.
  abbrev pub report : Str → List Str → CpofNode
  report c without = record {
    node_id = c;
    severity = severity_of (length (difference all without)) (length all);
    affected_nodes = difference all without;
    total = length all;
  }

  -- The share of the affected nodes is at least a half.
  abbrev pub is_severe : List Str → Bool
  is_severe without = leb (length all) (2 * length (difference all without))

  module _ (right : (x : Str) → (listed x all ≡ true) ↔ Reaches (objects_of rels) none root x) where
    report-IsCpof :
        (c : Str) (without : List Str)
        → Reaches (objects_of rels) none root c
        → ((x : Str) → (listed x without ≡ true) ↔ Reaches (objects_of rels) (some c) root x)
        → is_severe without ≡ true
        → IsCpof rels root all (report c without)
    report-IsCpof c without r w s = (r, refl, ground arith, refl, λ x. (loses x, lost x))
      where
        loses :
            (x : Str)
            → listed x (difference all without) ≡ true
            → Reaches (objects_of rels) none root x × (¬ Reaches (objects_of rels) (some c) root x)
        loses x h = (
          (right x).0 (ground (arith, listed-difference x all without)),
          λ p. ground (arith, listed-difference x all without, (w x).1 p),
        )

        lost :
            (x : Str)
            → Reaches (objects_of rels) none root x × (¬ Reaches (objects_of rels) (some c) root x)
            → listed x (difference all without) ≡ true
        lost x h = elim (Bool-cases (listed x without)) [
          | inl still ↦ absurd (h.1 ((w x).0 still))
          | inr gone ↦ ground (arith, listed-difference x all without, (right x).1 h.0)
        ]

    -- The reports with the one on `d` before them if it is severe.
    abbrev joined : Str → List Str → List CpofNode → List CpofNode
    joined d without rest = if is_severe without then report d without ∷ rest else rest

    joined-IsCpof :
        (d : Str) (without : List Str) (rest : List CpofNode)
        → Reaches (objects_of rels) none root d
        → ((x : Str) → (listed x without ≡ true) ↔ Reaches (objects_of rels) (some d) root x)
        → All (IsCpof rels root all) rest
        → All (IsCpof rels root all) (joined d without rest)
    joined-IsCpof d without rest r w ok = elim (Bool-cases (is_severe without)) [
      | inl s ↦ rw s (report-IsCpof d without r w s, ok)
      | inr s ↦ rw s ok
    ]

    and_false : (b : Bool) → (b && false) ≡ false
    and_false true = refl
    and_false false = refl

    joined-listed :
        (d : Str) (without : List Str) (rest : List CpofNode) (c : Str) (other : List Str)
        → get_reachable rels root (some d) ≡ some without
        → get_reachable rels root (some c) ≡ some other
        → (cs : List Str) → listed c (ids rest) ≡ (listed c cs && is_severe other)
        → listed c (ids (joined d without rest)) ≡ (listed c (d ∷ cs) && is_severe other)
    joined-listed d without rest c other runs e cs exact = elim (Bool-cases (str_eq d c)) [
      | inl same ↦
          let equal : without ≡ other =
            some-injective without other (
              sym runs
              ∙ ap (λ z. get_reachable rels root (some z)) ((str_eq_iff d c).0 same)
              ∙ e) in
          elim (Bool-cases (is_severe without)) [
            | inl s ↦ rw (s, same) (sym (ap is_severe (sym equal) ∙ s))
            | inr s ↦
                let mild : is_severe other ≡ false = ap is_severe (sym equal) ∙ s in
                rw (s, same)
                  (exact ∙ ap (λ b. listed c cs && b) mild ∙ and_false (listed c cs) ∙ sym mild)
          ]
      | inr apart ↦ elim (Bool-cases (is_severe without)) [
        | inl s ↦ rw (s, apart) exact
        | inr s ↦ rw (s, apart) exact
      ]
    ]

    -- The loop over the candidates returns; it reports a candidate exactly if it is severe.
    judge_candidates_lem :
        (cs : List Str)
        → ((x : Str) → listed x cs ≡ true → listed x all ≡ true)
        → (nodes : List CpofNode) × (judge_candidates rels root all cs ≡ some nodes)
          × All (IsCpof rels root all) nodes
          × ((c : Str) (without : List Str)
              → get_reachable rels root (some c) ≡ some without
              → listed c (ids nodes) ≡ (listed c cs && is_severe without))
    unfolding judge_candidates
    judge_candidates_lem [] within = ([], refl, tt, λ c w e. refl)
    judge_candidates_lem (d ∷ cs) within =
        let (without, runs, w) = get_reachable_iff rels root (some d) in
        let (rest, runs_rest, ok, exact) =
          judge_candidates_lem cs (λ x m. within x (ground arith)) in
        (
          joined d without rest,
          rw (runs, runs_rest),
          joined-IsCpof d without rest ((right d).0 (within d (ground (arith, str_eq_iff d d)))) w
              ok,
          λ c other e. joined-listed d without rest c other runs e cs (exact c other e),
        )

-- On every list of relations `detect_cpof` returns, and what it returns is right. Each report names
-- a node that the root reaches, its affected nodes are those that every path from the root reaches
-- through that node only, its total is the number of all nodes reached, of which the affected
-- ones are at least half, and its severity is their share of that total in ten-thousandths;
-- severities fall along the list. A node is reported exactly if the root reaches it and taking it out cuts off
-- at least half of the nodes reached.
pub detect_cpof_iff :
    (rels : List Relation) (root : Str)
    → (all : List Str) × (nodes : List CpofNode) × (get_reachable rels root none ≡ some all)
      × (detect_cpof rels root ≡ some nodes)
      × IsFalling nodes
      × All (IsCpof rels root all) nodes
      × ((c : Str) (without : List Str)
          → get_reachable rels root (some c) ≡ some without
          → listed c (ids nodes)
            ≡ (listed c all && leb (length all) (2 * length (difference all without))))
unfolding detect_cpof
detect_cpof_iff rels root =
    let (all, runs, right) = get_reachable_iff rels root none in
    let (found, judged, ok, exact) = judge_candidates_lem rels root all right all (λ x m. m) in
    (
      all,
      sort_severe found [],
      runs,
      rw (runs, judged),
      sort_severe-IsFalling found [] tt,
      All-sort_severe (IsCpof rels root all) found [] ok tt,
      λ c without e.
          listed-sort_severe c found [] ∙ or_false (listed c (ids found)) ∙ exact c without e,
    )
  where
    or_false : (b : Bool) → (b || false) ≡ b
    or_false true = refl
    or_false false = refl
