-- ===== src/Tasking/RuntimeProgress.antt =====
-- modules/tasking/domain/runtime_progress.py and application/runtime_convergence.py: the counters of
-- rounds without progress, and when they end the loop. Fingerprints are texts; how they are hashed
-- is not modelled.
pub mod Rounds
pub mod Converges
use knowledage_base_assistan.Prelude.{
  ℕ, ◌+◌, String, Bool, true, false, not, ◌&&◌, ◌||◌, List, [], ◌∷◌, ◌++◌, Option, none, some,
  string_eq, ◌==◌, contains, opt_beq, leb, ltb, if◌then◌else◌, Result, ok, raise, value_error,
}

abbrev pub replan_eligible_at : ℕ
replan_eligible_at = 2

abbrev pub force_converge_at : ℕ
force_converge_at = 3

abbrev pub epoch_converge_at : ℕ
epoch_converge_at = 6

abbrev pub task_converge_at : ℕ
task_converge_at = 12

abbrev pub max_replan_per_task : ℕ
max_replan_per_task = 3

pub data ProgressDisposition : Type 0 where
  progress no_progress regression : ProgressDisposition

-- `bool(xs)`
abbrev is_nonempty {ℓ} : {A : Type ℓ} → List A → Bool
is_nonempty [] = false
is_nonempty (x ∷ xs) = true

classify : Bool → Bool → Result ProgressDisposition
classify true true = raise (value_error "RUNTIME_PROGRESS_DELTA_REGRESSION_CONFLICT")
classify false true = ok regression
classify true false = ok progress
classify false false = ok no_progress

unfoldable pub classify_disposition {ℓ κ} :
    {A : Type ℓ} {B : Type κ} → List A → List B → Result ProgressDisposition
unfolding classify
classify_disposition delta_kinds regressed_refs =
    classify (is_nonempty delta_kinds) (is_nonempty regressed_refs)

pub data NoProgressAction : Type 0 where
  continue replan_eligible converge : NoProgressAction

pub record NoProgressState : Type 0 where
  pub current_loop_fingerprint : Option String
  pub same_loop_no_progress : ℕ
  pub consecutive_no_progress : ℕ
  pub epoch_no_progress : ℕ
  pub task_no_progress : ℕ
  pub episode_replan_used : Bool
  pub task_replan_count : ℕ
  pub episode_seen_loop_fingerprints : List String

abbrev pub initial : NoProgressState
initial = record {
  current_loop_fingerprint = none;
  same_loop_no_progress = 0;
  consecutive_no_progress = 0;
  epoch_no_progress = 0;
  task_no_progress = 0;
  episode_replan_used = false;
  task_replan_count = 0;
  episode_seen_loop_fingerprints = [];
}

abbrev is_regression : ProgressDisposition → Bool
is_regression regression = true
is_regression _ = false

unfoldable pub converge_action : ℕ → ℕ → ℕ → ProgressDisposition → NoProgressAction
converge_action consecutive epoch task disposition =
    if leb force_converge_at consecutive || leb epoch_converge_at epoch || leb task_converge_at task
    then converge
    else if is_regression disposition || leb replan_eligible_at consecutive
    then replan_eligible
    else continue

after_progress : NoProgressState → String → NoProgressState
after_progress s fingerprint = record s {
  current_loop_fingerprint = some fingerprint;
  same_loop_no_progress = 0;
  consecutive_no_progress = 0;
  episode_replan_used = false;
  episode_seen_loop_fingerprints = fingerprint ∷ [];
}

-- The counters after a round without progress.
after_stall : NoProgressState → String → NoProgressState
after_stall s fingerprint = record s {
  current_loop_fingerprint = some fingerprint;
  same_loop_no_progress =
      if opt_beq (some fingerprint) s.current_loop_fingerprint
      then s.same_loop_no_progress + 1
      else 1;
  consecutive_no_progress = s.consecutive_no_progress + 1;
  epoch_no_progress = s.epoch_no_progress + 1;
  task_no_progress = s.task_no_progress + 1;
  episode_seen_loop_fingerprints =
      if contains s.episode_seen_loop_fingerprints fingerprint
      then s.episode_seen_loop_fingerprints
      else s.episode_seen_loop_fingerprints ++ fingerprint ∷ [];
}

stall : NoProgressState → ProgressDisposition → NoProgressAction × NoProgressState
stall updated disposition = (
  converge_action updated.consecutive_no_progress updated.epoch_no_progress updated.task_no_progress
      disposition,
  updated,
)

unfoldable pub evaluate_no_progress_round :
    NoProgressState → ProgressDisposition → String → NoProgressAction × NoProgressState
unfolding converge_action after_progress after_stall stall
evaluate_no_progress_round s progress fingerprint = (continue, after_progress s fingerprint)
evaluate_no_progress_round s disposition fingerprint = stall (after_stall s fingerprint) disposition

unfoldable pub replan_permitted : NoProgressState → Bool → Bool
replan_permitted s has_alternative_path =
    has_alternative_path && not s.episode_replan_used && ltb s.task_replan_count max_replan_per_task

unfoldable pub mark_replan_used : NoProgressState → NoProgressState
mark_replan_used s = record s {
  episode_replan_used = true;
  task_replan_count = s.task_replan_count + 1;
}

unfoldable pub is_probe_eligible : NoProgressState → String → Bool
is_probe_eligible s fingerprint = not (contains s.episode_seen_loop_fingerprints fingerprint)

unfoldable pub new_input_epoch_reset : NoProgressState → NoProgressState
new_input_epoch_reset s = record s { epoch_no_progress = 0 }

pub data RuntimeConvergenceAction : Type 0 where
  continue_loop replan force_converge : RuntimeConvergenceAction

-- `merge_loop_no_progress`, from the result of the round.
merge : NoProgressAction → NoProgressState → Bool → RuntimeConvergenceAction × NoProgressState
unfolding replan_permitted mark_replan_used
merge continue updated has_alternative_path = (continue_loop, updated)
merge replan_eligible updated has_alternative_path =
    if replan_permitted updated has_alternative_path
    then (replan, mark_replan_used updated)
    else (force_converge, updated)
merge converge updated has_alternative_path = (force_converge, updated)

unfoldable pub merge_loop_no_progress :
    NoProgressState
    → ProgressDisposition
    → String
    → Bool
    → RuntimeConvergenceAction × NoProgressState
unfolding evaluate_no_progress_round merge
merge_loop_no_progress s disposition fingerprint has_alternative_path =
    let (action, updated) = evaluate_no_progress_round s disposition fingerprint in
    merge action updated has_alternative_path
