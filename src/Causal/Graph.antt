-- ===== src/Causal/Graph.antt =====
-- The adjacency dictionary, `get_reachable` with its stack, and `detect_cpof`.
use atlas_memory.Prelude.{
  ℕ, zero, suc, ◌+◌, ◌*◌, ◌/◌, ◌+◌, Bool, false, not, ◌||◌, List, [], ◌∷◌, ◌++◌, Option, none, some,
  leb, ltb, if◌then◌else◌, length, keep_if, ◌>>=◌,
}
use atlas_memory.Prelude.Dict.{Dict, lookup, insert, listed}
use atlas_memory.Prelude.Text.{Str, str_eq}

pub record Relation : Type 0 where
  pub subject : Str
  pub object : Str

abbrev pub values : Option (List Str) → List Str
values none = []
values (some vs) = vs

-- The loop that builds `adj`, with an accumulator: `adj[u].append(v)`.
unfoldable pub build_adj : List Relation → Dict (List Str) → Dict (List Str)
build_adj [] adj = adj
build_adj (r ∷ rs) adj =
    build_adj rs (insert r.subject (values (lookup r.subject adj) ++ (r.object ∷ [])) adj)

-- `adj.get(curr, [])`
unfoldable pub neighbors : Dict (List Str) → Str → List Str
neighbors adj u = values (lookup u adj)

abbrev pub is_excluded : Option Str → Str → Bool
is_excluded none v = false
is_excluded (some x) v = str_eq x v

-- The stack, with its top first, and the set of what was reached.
pub record Search : Type 0 where
  pub stack : List Str
  pub reachable : List Str

-- One neighbour: skipped if it is excluded or reached, added and pushed if not.
unfoldable pub scan_one : Option Str → Str → Search → Search
scan_one excluded v s =
    if is_excluded excluded v || listed v s.reachable
    then s
    else record { stack = v ∷ s.stack; reachable = s.reachable ++ (v ∷ []) }

-- The loop over the neighbours of one node.
unfoldable pub scan : Option Str → List Str → Search → Search
unfolding scan_one
scan excluded [] s = s
scan excluded (v ∷ vs) s = scan excluded vs (scan_one excluded v s)

-- `while stack`, on fuel; `none` means that the fuel ran out.
unfoldable pub search_loop : ℕ → Dict (List Str) → Option Str → Search → Option (List Str)
search_loop zero adj excluded s = none
search_loop (suc fuel) adj excluded s = elim s.stack [
  | [] ↦ some s.reachable
  | curr ∷ stack ↦
      search_loop fuel adj excluded
        (scan excluded (neighbors adj curr) (record s { stack = stack }))
]

-- One round for the root and for each relation, and one to see the empty stack.
unfoldable pub get_reachable : List Relation → Str → Option Str → Option (List Str)
get_reachable rels root excluded =
    search_loop (length rels + 2) (build_adj rels []) excluded
      (record { stack = root ∷ []; reachable = [] })

-- `all_reachable - reachable_without_c`
unfoldable pub difference : List Str → List Str → List Str
difference xs ys = keep_if (λ x. not (listed x ys)) xs

-- `round(affected / total, 4)` in ten-thousandths, where a half is rounded up.
unfoldable pub severity_of : ℕ → ℕ → ℕ
severity_of affected total = (20000 * affected + total) / (2 * total)

-- `total` is the count that the description of a report prints.
pub record CpofNode : Type 0 where
  pub node_id : Str
  pub severity : ℕ
  pub affected_nodes : List Str
  pub total : ℕ

-- The loop over the candidates; `severity >= 0.5` is `2 * len(affected) >= total`.
unfoldable pub judge_candidates : List Relation → Str → List Str → List Str → Option (List CpofNode)
judge_candidates rels root all [] = some []
judge_candidates rels root all (c ∷ cs) = do
  without ← get_reachable rels root (some c)
  rest ← judge_candidates rels root all cs
  let affected = difference all without
  some (
      if leb (length all) (2 * length affected)
      then record {
        node_id = c;
        severity = severity_of (length affected) (length all);
        affected_nodes = affected;
        total = length all;
      }
        ∷ rest
      else rest)

-- A stable insertion by falling severity.
unfoldable pub insert_severe : CpofNode → List CpofNode → List CpofNode
insert_severe n [] = n ∷ []
insert_severe n (m ∷ ms) =
    let later = insert_severe n ms in if ltb m.severity n.severity then n ∷ m ∷ ms else m ∷ later

-- `sort(key=severity, reverse=True)`, which keeps the order of equal severities.
unfoldable pub sort_severe : List CpofNode → List CpofNode → List CpofNode
sort_severe [] sorted = sorted
sort_severe (n ∷ ns) sorted = sort_severe ns (insert_severe n sorted)

unfoldable pub detect_cpof : List Relation → Str → Option (List CpofNode)
detect_cpof rels node_id = do
  all ← get_reachable rels node_id none
  found ← judge_candidates rels node_id all all
  some (sort_severe found [])
