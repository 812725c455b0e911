-- ===== src/Causal/Ranking.antt =====
-- The order of the reports of `detect_cpof`: falling severities, and nothing lost.
use atlas_memory.Prelude.{◌≤◌, ◌||◌, List, [], ◌∷◌, map, ◌≡◌, refl, arith, All}
use atlas_memory.Prelude.Dict.{listed}
use atlas_memory.Prelude.Text.{Str, str_eq}
use atlas_memory.Causal.Graph.{CpofNode, insert_severe, sort_severe}

abbrev pub ids : List CpofNode → List Str
ids = map (λ n. n.node_id)

-- Severities fall along the list.
abbrev pub IsFalling : List CpofNode → Type 0
IsFalling [] = Unit
IsFalling (n ∷ []) = Unit
IsFalling (n ∷ m ∷ ns) = (m.severity ≤ n.severity) × IsFalling (m ∷ ns)

insert_severe-IsFalling :
    (n : CpofNode) (ms : List CpofNode) → IsFalling ms → IsFalling (insert_severe n ms)
unfolding insert_severe
insert_severe-IsFalling n [] f = tt
insert_severe-IsFalling n (m ∷ []) f = ground arith
insert_severe-IsFalling n (m ∷ k ∷ ms) f = ground (arith, insert_severe-IsFalling n (k ∷ ms) f.1)

pub sort_severe-IsFalling :
    (ns sorted : List CpofNode) → IsFalling sorted → IsFalling (sort_severe ns sorted)
unfolding sort_severe
sort_severe-IsFalling [] sorted f = f
sort_severe-IsFalling (n ∷ ns) sorted f =
    sort_severe-IsFalling ns (insert_severe n sorted) (insert_severe-IsFalling n sorted f)

listed-insert_severe :
    (c : Str) (n : CpofNode) (ms : List CpofNode)
    → listed c (ids (insert_severe n ms)) ≡ (str_eq n.node_id c || listed c (ids ms))
unfolding insert_severe
listed-insert_severe c n [] = ground arith
listed-insert_severe c n (m ∷ ms) = ground (arith, listed-insert_severe c n ms)

pub listed-sort_severe :
    (c : Str) (ns sorted : List CpofNode)
    → listed c (ids (sort_severe ns sorted)) ≡ (listed c (ids ns) || listed c (ids sorted))
unfolding sort_severe
listed-sort_severe c [] sorted = refl
listed-sort_severe c (n ∷ ns) sorted =
    ground
      (arith, listed-insert_severe c n sorted, listed-sort_severe c ns (insert_severe n sorted))

All-insert_severe {ℓ} :
    (P : CpofNode → Type ℓ) (n : CpofNode) (ms : List CpofNode)
    → P n
    → All P ms
    → All P (insert_severe n ms)
unfolding insert_severe
All-insert_severe P n [] h a = (h, tt)
All-insert_severe P n (m ∷ ms) h a = ground (arith, All-insert_severe P n ms h a.1)

pub All-sort_severe {ℓ} :
    (P : CpofNode → Type ℓ) (ns sorted : List CpofNode)
    → All P ns
    → All P sorted
    → All P (sort_severe ns sorted)
unfolding sort_severe
All-sort_severe P [] sorted a b = b
All-sort_severe P (n ∷ ns) sorted a b =
    All-sort_severe P ns (insert_severe n sorted) a.1 (All-insert_severe P n sorted a.0 b)
