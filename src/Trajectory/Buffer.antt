-- ===== src/Trajectory/Buffer.antt =====
-- The columns of the buffer and the methods that write them. The cached Arrow table is left out,
-- and metadata is the text that json.dumps makes of it.
use atlas_memory.Prelude.{
  ℕ, ◌+◌, ◌*◌, max, Bool, Option, none, some, List, [], ◌∷◌, ◌++◌, map, ltb, ◌==◌, if◌then◌else◌,
  length,
}
use atlas_memory.Prelude.Text.{Str, codes, is_empty}

-- A float with a sign, as what it gains less what it loses, in billionths.
pub record Reward : Type 0 where
  pub gain : ℕ
  pub loss : ℕ

-- What numpy does: a row of zeros, and whether a vector can be assigned to a row of that width.
pub record Arrays (V : Type 0) : Type 0 where
  pub zero_row : V
  pub fits : ℕ → V → Bool

-- The row `i` of `_latent_array` is `rows i`, for `i` below the capacity.
pub record Buffer (V : Type 0) : Type 0 where
  pub state_dim : ℕ
  pub capacity : ℕ
  pub rows : ℕ → V
  pub steps : List ℕ
  pub timestamps : List ℕ
  pub session_ids : List Str
  pub action_names : List Str
  pub rewards : List Reward
  pub uncertainties : List ℕ
  pub metadata_jsons : List Str

-- `PredictedTransition`.
pub record Transition (V : Type 0) : Type 0 where
  pub step_index : ℕ
  pub timestamp : ℕ
  pub vector : V
  pub action_name : Str
  pub simulated_reward : Reward
  pub uncertainty : ℕ

unfoldable pub new_buffer : {V : Type 0} → Arrays V → ℕ → ℕ → Buffer V
new_buffer np state_dim capacity = record {
  state_dim = state_dim;
  capacity = max capacity 1000;
  rows = λ i. np.zero_row;
  steps = [];
  timestamps = [];
  session_ids = [];
  action_names = [];
  rewards = [];
  uncertainties = [];
  metadata_jsons = [];
}

unfoldable pub ensure_capacity : {V : Type 0} → Arrays V → ℕ → Buffer V → Buffer V
ensure_capacity np needed b =
    if ltb b.capacity needed
    then record b {
      capacity = max (b.capacity * 2) (needed + 1024);
      rows = λ i. if ltb i b.capacity then b.rows i else np.zero_row;
    }
    else b

-- The buffer behind a method that returned, or behind one that raised on its way.
pub data Written (V : Type 0) : Type 0 where
  returned : Buffer V → Written V
  raised : Buffer V → Written V

abbrev pub and_then : {V : Type 0} → Written V → (Buffer V → Written V) → Written V
and_then (returned b) f = f b
and_then (raised b) f = raised b

-- `_latent_array[i, :] = v`, which raises out of range and on a vector that does not fit.
unfoldable pub set_row : {V : Type 0} → Arrays V → ℕ → V → Buffer V → Option (Buffer V)
set_row np i v b =
    if ltb i b.capacity
    then if np.fits b.state_dim v
      then some (record b { rows = λ j. if j == i then v else b.rows j })
      else none
    else none

-- The columns that a step is appended to before its row is set, and those behind.
unfoldable pub append_front : {V : Type 0} → ℕ → ℕ → Str → Buffer V → Buffer V
append_front step timestamp session_id b = record b {
  steps = b.steps ++ (step ∷ []);
  timestamps = b.timestamps ++ (timestamp ∷ []);
  session_ids = b.session_ids ++ (session_id ∷ []);
}

unfoldable pub append_back : {V : Type 0} → Str → Reward → ℕ → Str → Buffer V → Buffer V
append_back action reward uncertainty metadata b = record b {
  action_names = b.action_names ++ (action ∷ []);
  rewards = b.rewards ++ (reward ∷ []);
  uncertainties = b.uncertainties ++ (uncertainty ∷ []);
  metadata_jsons = b.metadata_jsons ++ (metadata ∷ []);
}

-- What follows the assignment of a row.
abbrev pub row_set : {V : Type 0} → Buffer V → Option (Buffer V) → (Buffer V → Buffer V) → Written V
row_set front none back = raised front
row_set front (some set) back = returned (back set)

-- The body of the three loops that append, at the index `i`.
unfoldable pub append_at :
    {V : Type 0} → Arrays V → ℕ → Str → Str → Transition V → Buffer V → Written V
unfolding set_row append_front append_back
append_at np i session_id metadata t b =
    let front = append_front t.step_index t.timestamp session_id b in
    row_set front (set_row np i t.vector front)
      (append_back t.action_name t.simulated_reward t.uncertainty metadata)

-- `metadata` is the text of `json.dumps(metadata or {})`.
unfoldable pub append_transition :
    {V : Type 0} → Arrays V → Transition V → Str → Str → Buffer V → Written V
unfolding append_at ensure_capacity
append_transition np t session_id metadata b =
    append_at np (length b.steps) session_id metadata t (ensure_capacity np (length b.steps + 1) b)

-- The two loops over steps, each with its metadata.
unfoldable pub append_from :
    {V : Type 0} → Arrays V → ℕ → Str → List (Transition V × Str) → Buffer V → Written V
unfolding append_at
append_from np i session_id [] b = returned b
append_from np i session_id ((t, metadata) ∷ ts) b =
    and_then (append_at np i session_id metadata t b) (append_from np (i + 1) session_id ts)

unfoldable pub append_all :
    {V : Type 0} → Arrays V → List (Transition V × Str) → Str → Buffer V → Written V
unfolding append_from ensure_capacity
append_all np ts session_id b =
    append_from np (length b.steps) session_id ts
      (ensure_capacity np (length b.steps + length ts) b)

unfoldable pub append_transitions :
    {V : Type 0} → Arrays V → List (Transition V) → Str → Str → Buffer V → Written V
unfolding append_all
append_transitions np [] session_id metadata b = returned b
append_transitions np (t ∷ ts) session_id metadata b =
    append_all np (map (λ t. (t, metadata)) (t ∷ ts)) session_id b

-- A step of a transcript: the four names in the order in which they are tried, the success flag,
-- and the text of its metadata.
pub record RealStep : Type 0 where
  pub tool_name : Str
  pub action : Str
  pub tool : Str
  pub name : Str
  pub success : Bool
  pub metadata : Str

abbrev or_name : Str → Str → Str
or_name s t = if is_empty s then t else s

-- A row of zeros fits; the rewards are one and minus one. The clock moves on by a millisecond.
unfoldable pub real_transition : {V : Type 0} → Arrays V → ℕ → ℕ → RealStep → Transition V
real_transition np step_id timestamp s = record {
  step_index = step_id;
  timestamp = timestamp;
  vector = np.zero_row;
  action_name =
      or_name s.tool_name
        (or_name s.action (or_name s.tool (or_name s.name (codes "unknown_tool"))));
  simulated_reward =
      if s.success
      then record { gain = 1_000_000_000; loss = 0 }
      else record { gain = 0; loss = 1_000_000_000 };
  uncertainty = 0;
}

unfoldable pub real_transitions :
    {V : Type 0} → Arrays V → ℕ → ℕ → List RealStep → List (Transition V × Str)
unfolding real_transition
real_transitions np step_id timestamp [] = []
real_transitions np step_id timestamp (s ∷ ss) =
    (real_transition np step_id timestamp s, s.metadata)
    ∷ real_transitions np (step_id + 1) (timestamp + 1_000_000) ss

-- The number of steps is returned besides.
unfoldable pub record_real_trajectory :
    {V : Type 0} → Arrays V → ℕ → List RealStep → Str → Buffer V → Written V
unfolding append_all real_transitions
record_real_trajectory np now steps session_id b =
    append_all np (real_transitions np (length b.steps + 1) now steps) session_id b

unfoldable pub clear : {V : Type 0} → Arrays V → Buffer V → Buffer V
clear np b = record b {
  rows = λ i. np.zero_row;
  steps = [];
  timestamps = [];
  session_ids = [];
  action_names = [];
  rewards = [];
  uncertainties = [];
  metadata_jsons = [];
}
