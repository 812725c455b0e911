-- ===== src/Causal/Tests.antt =====
-- Reachability and critical points on a small graph with a cycle.
use mathlib.Core.Option
use atlas_memory.Prelude.{
  true, List, [], ◌∷◌, none, some, ◌≡◌, refl, ◌↔◌, ◌&&◌, ◌*◌, length, leb, All,
}
use atlas_memory.Prelude.Dict.{lookup, insert, listed}
use atlas_memory.Prelude.Text.{Str, codes, str_eq}
use atlas_memory.Causal.Graph.{
  Relation, CpofNode, build_adj, neighbors, scan_one, scan, search_loop, get_reachable, difference,
  severity_of, judge_candidates, insert_severe, sort_severe, detect_cpof,
}
use atlas_memory.Causal.Reach.{Reaches}
use atlas_memory.Causal.Search.{objects_of, get_reachable_iff}
use atlas_memory.Causal.Cpof.{IsCpof, detect_cpof_iff}
use atlas_memory.Causal.Ranking.{ids, IsFalling}

program : Unit {0}
unfolding lookup insert str_eq build_adj neighbors scan_one scan search_loop get_reachable
    difference severity_of judge_candidates insert_severe sort_severe detect_cpof
program = tt

abbrev arrow : Str → Str → Relation
arrow u v = record { subject = u; object = v }

-- a → b → c → b, c → d
abbrev graph : List Relation
graph =
    arrow (codes "a") (codes "b")
    ∷ arrow (codes "b") (codes "c")
    ∷ arrow (codes "c") (codes "b")
    ∷ arrow (codes "c") (codes "d")
    ∷ []

test_reachable :
    get_reachable graph (codes "a") none ≡ some (codes "b" ∷ codes "c" ∷ codes "d" ∷ [])
unfolding program
test_reachable = refl

test_cpof : Option.map ids (detect_cpof graph (codes "a")) ≡ some (codes "b" ∷ codes "c" ∷ [])
unfolding program
test_cpof = refl

test_severity : severity_of 2 3 ≡ 6667
unfolding program
test_severity = refl

get_reachable_iff_example :
    (found : List Str) × (get_reachable graph (codes "a") (some (codes "c")) ≡ some found)
    × ((x : Str)
        → (listed x found ≡ true) ↔ Reaches (objects_of graph) (some (codes "c")) (codes "a") x)
get_reachable_iff_example = get_reachable_iff graph (codes "a") (some (codes "c"))

detect_cpof_iff_example :
    (all : List Str) × (nodes : List CpofNode) × (get_reachable graph (codes "a") none ≡ some all)
    × (detect_cpof graph (codes "a") ≡ some nodes)
    × IsFalling nodes
    × All (IsCpof graph (codes "a") all) nodes
    × ((c : Str) (without : List Str)
        → get_reachable graph (codes "a") (some c) ≡ some without
        → listed c (ids nodes)
          ≡ (listed c all && leb (length all) (2 * length (difference all without))))
detect_cpof_iff_example = detect_cpof_iff graph (codes "a")
