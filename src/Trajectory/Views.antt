-- ===== src/Trajectory/Views.antt =====
-- What the buffer is read by: batches of its columns, and the trajectories of its sessions.
use atlas_memory.Prelude.{
  ℕ, zero, suc, ◌+◌, ◌-◌, ◌*◌, min, max, Bool, false, not, ◌&&◌, ◌||◌, Option, none, some, List, [],
  ◌∷◌, ◌++◌, map, ltb, leb, ◌==◌, if◌then◌else◌, length, take, drop, keep_if,
}
use atlas_memory.Prelude.Text.{Str, str_eq}
use atlas_memory.Prelude.Dict.{Dict, lookup, insert}
use atlas_memory.Trajectory.Buffer.{Reward, Buffer}

pub record Batch (V : Type 0) : Type 0 where
  pub step_ids : List ℕ
  pub timestamps : List ℕ
  pub latent_matrix : List V
  pub action_names : List Str
  pub rewards : List Reward
  pub uncertainties : List ℕ
  pub batch_size : ℕ

-- `xs[start:end]`
abbrev pub slice {ℓ} : {A : Type ℓ} → ℕ → ℕ → List A → List A
slice start end_ xs = take (end_ - start) (drop start xs)

abbrev pub rows_between : {V : Type 0} → (ℕ → V) → ℕ → ℕ → List V
rows_between rows start zero = []
rows_between rows start (suc n) = rows start ∷ rows_between rows (start + 1) n

unfoldable pub batch_at : {V : Type 0} → Buffer V → ℕ → ℕ → Batch V
batch_at b batch_size start_idx =
    let end_idx = min (start_idx + batch_size) (length b.steps) in
    record {
      step_ids = slice start_idx end_idx b.steps;
      timestamps = slice start_idx end_idx b.timestamps;
      latent_matrix = rows_between b.rows start_idx (end_idx - start_idx);
      action_names = slice start_idx end_idx b.action_names;
      rewards = slice start_idx end_idx b.rewards;
      uncertainties = slice start_idx end_idx b.uncertainties;
      batch_size = end_idx - start_idx;
    }

-- The loop over `range(start, total, batch_size)`, on fuel.
unfoldable pub batches_from : {V : Type 0} → Buffer V → ℕ → ℕ → ℕ → List (Batch V)
unfolding batch_at
batches_from b batch_size zero start = []
batches_from b batch_size (suc fuel) start =
    let later = batches_from b batch_size fuel (start + batch_size) in
    if ltb start (length b.steps) then batch_at b batch_size start ∷ later else []

-- No answer where `range` raises, on a step of zero.
unfoldable pub stream_batches : {V : Type 0} → Buffer V → ℕ → Option (List (Batch V))
unfolding batches_from
stream_batches b batch_size =
    if length b.steps == 0
    then some []
    else if batch_size == 0
    then none
    else some (batches_from b batch_size (length b.steps) 0)

-- One step as it is grouped; `real` is the success flag of metadata that says `origin` is `real`.
pub record Entry : Type 0 where
  pub step_id : ℕ
  pub action : Str
  pub reward : Reward
  pub real : Option Bool

-- The columns in step, as `zip` goes: to the end of the shortest. `real_flag` reads metadata.
unfoldable pub entries_of :
    (Str → Option Bool) → List Str → List ℕ → List Str → List Reward → List Str → List (Str × Entry)
entries_of real_flag (sid ∷ sids) (step ∷ steps) (act ∷ acts) (rew ∷ rews) (meta ∷ metas) =
    (sid, record { step_id = step; action = act; reward = rew; real = real_flag meta })
    ∷ entries_of real_flag sids steps acts rews metas
entries_of real_flag _ _ _ _ _ = []

abbrev pub or_none : Option (List Entry) → List Entry
or_none none = []
or_none (some es) = es

unfoldable pub session_groups : List (Str × Entry) → Dict (List Entry) → Dict (List Entry)
session_groups [] groups = groups
session_groups ((sid, e) ∷ entries) groups =
    session_groups entries (insert sid (or_none (lookup sid groups) ++ (e ∷ [])) groups)

abbrev flags : List Entry → List Bool
flags [] = []
flags (e ∷ es) = elim e.real [ none ↦ flags es | some f ↦ f ∷ flags es ]

abbrev count_true : List Bool → ℕ
count_true [] = 0
count_true (f ∷ fs) = (if f then 1 else 0) + count_true fs

abbrev last_of {ℓ} : {A : Type ℓ} → A → List A → A
last_of d [] = d
last_of d (x ∷ xs) = last_of x xs

abbrev total_gain : List Entry → ℕ
total_gain [] = 0
total_gain (e ∷ es) = e.reward.gain + total_gain es

abbrev total_loss : List Entry → ℕ
total_loss [] = 0
total_loss (e ∷ es) = e.reward.loss + total_loss es

abbrev last_reward : List Entry → Reward
last_reward es = last_of (record { gain = 0; loss = 0 }) (map (λ e. e.reward) es)

-- Half of the flags are true, without the division; the sign of a mean is that of the sum.
unfoldable pub is_success : List Entry → Bool
is_success items =
    let real_flags = flags items in
    let last_rew = last_reward items in
    if length real_flags == length items && not (length real_flags == 0)
    then count_true real_flags == length real_flags
      || last_of false real_flags && leb (length real_flags) (2 * count_true real_flags)
    else leb (total_loss items) (total_gain items) && leb last_rew.loss last_rew.gain
      || ltb (total_loss items) (total_gain items)

abbrev max_of : List ℕ → ℕ
max_of [] = 0
max_of (n ∷ ns) = max n (max_of ns)

pub record Trajectory : Type 0 where
  pub session_id : Str
  pub items : List Entry
  pub success : Bool
  pub max_step_id : ℕ

unfoldable pub trajectories : {V : Type 0} → (Str → Option Bool) → Buffer V → List Trajectory
unfolding entries_of session_groups is_success
trajectories real_flag b =
    map
      (λ g. record {
        session_id = g.0;
        items = g.1;
        success = is_success g.1;
        max_step_id = max_of (map (λ e. e.step_id) g.1);
      })
      (session_groups
        (entries_of real_flag b.session_ids b.steps b.action_names b.rewards b.metadata_jsons) [])

unfoldable pub get_session_trajectories :
    {V : Type 0} → (Str → Option Bool) → Buffer V → Str → List Trajectory
unfolding trajectories
get_session_trajectories real_flag b session_id =
    keep_if (λ t. str_eq t.session_id session_id) (trajectories real_flag b)

unfoldable pub max_step_id : {V : Type 0} → Buffer V → ℕ
max_step_id b = max_of b.steps
