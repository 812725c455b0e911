-- ===== src/Trajectory/Tests.antt =====
-- A buffer of rows of two numbers; as in numpy, a vector of one number fits a row of any width.
use atlas_memory.Prelude.{
  ℕ, ◌≤◌, ◌≡◌, refl, arith, Bool, true, false, ◌||◌, List, [], ◌∷◌, Option, some, none, ◌==◌,
  length, All,
}
use atlas_memory.Prelude.Text.{Str, codes, str_eq}
use atlas_memory.Prelude.Dict.{lookup, insert}
use atlas_memory.Trajectory.Buffer.{
  Arrays, Buffer, Transition, RealStep, Written, returned, raised, new_buffer, ensure_capacity,
  set_row, append_front, append_back, append_at, append_transition, append_from, append_all,
  append_transitions, real_transition, real_transitions, record_real_trajectory, clear,
}
use atlas_memory.Trajectory.Views.{
  Batch, rows_between, batch_at, batches_from, stream_batches, Entry, or_none, session_groups,
  is_success,
}
use atlas_memory.Trajectory.Growth.{IsAligned, Grown}
use atlas_memory.Trajectory.Aligned.{append_transitions-Grown, Torn, append_transition-raised}
use atlas_memory.Trajectory.Streaming.{column, stream_batches-column}
use atlas_memory.Trajectory.Sessions.{of_session, session_groups-of_session}

program : Unit {0}
unfolding str_eq lookup insert new_buffer ensure_capacity set_row append_front append_back append_at
    append_transition append_from append_all append_transitions real_transition real_transitions
    record_real_trajectory clear batch_at batches_from stream_batches session_groups is_success
program = tt

abbrev numpy : Arrays (List ℕ)
numpy = record { zero_row = 0 ∷ 0 ∷ []; fits = λ d v. length v == d || length v == 1 }

abbrev empty : Buffer (List ℕ)
empty = record {
  state_dim = 2;
  capacity = 1000;
  rows = λ i. 0 ∷ 0 ∷ [];
  steps = [];
  timestamps = [];
  session_ids = [];
  action_names = [];
  rewards = [];
  uncertainties = [];
  metadata_jsons = [];
}

empty-IsAligned : IsAligned empty
empty-IsAligned = (refl, refl, refl, refl, refl, refl, omega arith)

starts_empty : new_buffer numpy 2 10 ≡ empty
unfolding program
starts_empty = refl

abbrev move : List ℕ → Transition (List ℕ)
move v = record {
  step_index = 7;
  timestamp = 5;
  vector = v;
  action_name = codes "open";
  simulated_reward = record { gain = 1; loss = 0 };
  uncertainty = 0;
}

append_transitions-Grown_example : Grown 2 empty (
    append_transitions numpy
      (move (1 ∷ 2 ∷ []) ∷ move (3 ∷ []) ∷ [])
      (codes "s")
      (codes "{}")
      empty)
append_transitions-Grown_example =
    append_transitions-Grown numpy (move (1 ∷ 2 ∷ []) ∷ move (3 ∷ []) ∷ []) (codes "s") (codes "{}")
      empty empty-IsAligned (refl, (refl, tt))

abbrev real_step : RealStep
real_step = record {
  tool_name = [];
  action = codes "grep";
  tool = [];
  name = [];
  success = true;
  metadata = codes "{}";
}

append_transition-raised_example :
    (later : Buffer (List ℕ)) × (append_transition numpy
        (move (1 ∷ 2 ∷ 3 ∷ []))
        (codes "s")
        (codes "{}")
        empty
      ≡ raised later)
    × Torn numpy (move (1 ∷ 2 ∷ 3 ∷ [])) (codes "s") empty later
append_transition-raised_example =
    append_transition-raised numpy (move (1 ∷ 2 ∷ 3 ∷ [])) (codes "s") (codes "{}") empty
      empty-IsAligned refl

abbrev three : Buffer (List ℕ)
three = record empty {
  steps = 1 ∷ 2 ∷ 3 ∷ [];
  timestamps = 5 ∷ 6 ∷ 7 ∷ [];
  session_ids = codes "a" ∷ codes "b" ∷ codes "a" ∷ [];
  action_names = codes "x" ∷ codes "y" ∷ codes "z" ∷ [];
  rewards =
      record { gain = 1; loss = 0 }
      ∷ record { gain = 0; loss = 1 }
      ∷ record { gain = 1; loss = 0 }
      ∷ [];
  uncertainties = 0 ∷ 0 ∷ 0 ∷ [];
  metadata_jsons = [] ∷ [] ∷ [] ∷ [];
}

stream_batches-column_example :
    (batches : List (Batch (List ℕ))) × (stream_batches three 2 ≡ some batches)
    × All (λ s. s.batch_size ≤ 2) batches
    × (column (λ s. s.step_ids) batches ≡ three.steps)
    × (column (λ s. s.timestamps) batches ≡ three.timestamps)
    × (column (λ s. s.latent_matrix) batches ≡ rows_between three.rows 0 3)
    × (column (λ s. s.action_names) batches ≡ three.action_names)
    × (column (λ s. s.rewards) batches ≡ three.rewards)
    × (column (λ s. s.uncertainties) batches ≡ three.uncertainties)
stream_batches-column_example =
    stream_batches-column three 2 (omega arith) (refl, refl, refl, refl, refl, refl, omega arith)

abbrev entry : ℕ → Option Bool → Entry
entry n f = record {
  step_id = n;
  action = codes "x";
  reward = record { gain = 1; loss = 0 };
  real = f;
}

abbrev mixed : List (Str × Entry)
mixed = (codes "a", entry 1 none) ∷ (codes "b", entry 2 none) ∷ (codes "a", entry 3 none) ∷ []

session_groups-of_session_example :
    or_none (lookup (codes "a") (session_groups mixed [])) ≡ of_session (codes "a") mixed
session_groups-of_session_example = session_groups-of_session (codes "a") mixed

-- A real session that ends well and half of whose steps did is a success.
ends_well : is_success (entry 1 (some false) ∷ entry 2 (some true) ∷ []) ≡ true
unfolding program
ends_well = refl

ends_badly : is_success (entry 1 (some true) ∷ entry 2 (some false) ∷ []) ≡ false
unfolding program
ends_badly = refl

-- The raise leaves the columns out of line: the action behind it stands beside the step before.
abbrev broken : Written (List ℕ)
broken = append_transition numpy (move (1 ∷ 2 ∷ 3 ∷ [])) (codes "s") (codes "{}") empty

out_of_line : Written (List ℕ) → ℕ × ℕ
out_of_line (returned b) = (length b.steps, length b.action_names)
out_of_line (raised b) = (length b.steps, length b.action_names)

columns_apart : out_of_line broken ≡ (1, 0)
unfolding program out_of_line
columns_apart = refl
