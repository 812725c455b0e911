-- ===== src/Packing/Records.antt =====
-- The records, their token estimate, the compaction of long objects, and the candidates. A record
-- is a dictionary with `subject` and `object`; a score is in billionths, and `none` if negative.
use atlas_memory.Prelude.{
  ℕ, suc, ◌+◌, ◌*◌, ◌/◌, max, min, Bool, false, not, ◌&&◌, ◌||◌, List, [], ◌∷◌, ◌++◌, map, Option,
  none, some, leb, ltb, if◌then◌else◌, length, keep_if, any_of, take,
}
use atlas_memory.Prelude.Dict.{listed}
use atlas_memory.Prelude.Text.{Str, codes, is_empty, str_eq, strip_space, ends_with, occurs_in}

abbrev pub Rank : Type 0
Rank = Option ℕ

-- `steps` are the sources and targets of the causal trace, `is_superseded` the flag of the record
-- or of its metadata.
pub record Record : Type 0 where
  pub subject : Str
  pub object : Str
  pub steps : List (Str × Str)
  pub is_superseded : Bool
  pub score : Option Rank
  pub cpof_severity : ℕ

-- `str.lower`, `compute_record_rank` and `knapsack_semantic_dedup`.
pub record Scoring : Type 0 where
  pub lower : Str → Str
  pub compute_record_rank : Record → Rank
  pub semantic_dedup : List Record → List Record

-- `max(1, ceil((s_len + o_len + 5) / 3.5) + 1)`: a division by 3.5 is one of the double by 7.
unfoldable pub estimate_tokens : Record → ℕ
estimate_tokens r = max 1 ((2 * (length r.subject + min (length r.object) 1200 + 5) + 6) / 7 + 1)

abbrev pub compacted_mark : Str
compacted_mark = codes "... [compacted]"

unfoldable pub compacted : Record → Record
unfolding ends_with
compacted r =
    if ltb 150 (length r.object) && not (ends_with r.object compacted_mark)
    then record r { object = take 80 r.object ++ compacted_mark }
    else r

unfoldable pub total_tokens : List Record → ℕ
unfolding estimate_tokens
total_tokens [] = 0
total_tokens (r ∷ rs) = estimate_tokens r + total_tokens rs

-- `sum(…) > budget * 1.5 and len(eff_records) >= 3`
unfoldable pub effective_records : ℕ → Bool → List Record → List Record
unfolding compacted
effective_records budget compact rs =
    if compact && ltb (3 * budget) (2 * total_tokens rs) && leb 3 (length rs)
    then map compacted rs
    else rs

unfoldable pub rank : Scoring → Record → Rank
rank s r =
    if r.is_superseded then none else elim r.score [ none ↦ s.compute_record_rank r | some k ↦ k ]

-- An item of `valid_items`: its index, its record, its rank and its cost.
pub record Item : Type 0 where
  pub index : ℕ
  pub entry : Record
  pub score : ℕ
  pub cost : ℕ

-- The records with a rank that is not negative, with their indices from `n` on.
unfoldable pub items_from : Scoring → ℕ → List Record → List Item
unfolding rank estimate_tokens
items_from s n [] = []
items_from s n (r ∷ rs) =
    let rest = items_from s (suc n) rs in
    elim (rank s r) [
      | none ↦ rest
      | some k ↦ record { index = n; entry = r; score = k; cost = estimate_tokens r } ∷ rest
    ]

unfoldable pub valid_items : Scoring → ℕ → Bool → List Record → List Item
unfolding items_from effective_records
valid_items s budget compact rs =
    items_from s 0 (effective_records budget compact (s.semantic_dedup rs))

-- `_extract_endpoints`
pub record Endpoints : Type 0 where
  pub source : Str
  pub target : Str
  pub nodes : List Str

unfoldable pub normalized : Scoring → Str → Str
normalized s t = s.lower (strip_space t)

unfoldable pub step_nodes : Scoring → List (Str × Str) → List Str
unfolding normalized
step_nodes s [] = []
step_nodes s ((u, v) ∷ steps) = normalized s u ∷ normalized s v ∷ step_nodes s steps

unfoldable pub endpoints : Scoring → Record → Endpoints
unfolding normalized step_nodes
endpoints s r = record {
  source = normalized s r.subject;
  target = normalized s r.object;
  nodes = keep_if (λ t. not (is_empty t)) (step_nodes s r.steps);
}

-- `o and s and (o == s or s in o or o in s)`
unfoldable pub meets : Str → Str → Bool
meets o s = not (is_empty o) && not (is_empty s) && (str_eq o s || occurs_in s o || occurs_in o s)

-- `is_connected` for two items, the one with the smaller index first.
unfoldable pub is_connected : Endpoints → Endpoints → Bool
unfolding meets
is_connected a b =
    meets a.target b.source
    || meets b.target a.source
    || any_of (λ t. listed t b.nodes) a.nodes
    || listed b.source a.nodes
    || listed b.target a.nodes
    || listed a.source b.nodes
    || listed a.target b.nodes
    || (not (is_empty a.source) && str_eq a.source b.source && leb 3 (length a.source))

-- `j in adj[i]`
unfoldable pub is_adjacent : Scoring → Item → Item → Bool
unfolding endpoints is_connected
is_adjacent s a b =
    let p = endpoints s a.entry in
    let q = endpoints s b.entry in
    if ltb a.index b.index
    then is_connected p q
    else if ltb b.index a.index
    then is_connected q p
    else false
