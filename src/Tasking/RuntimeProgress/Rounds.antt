-- ===== src/Tasking/RuntimeProgress/Rounds.antt =====
-- What one round does to the counters.
use knowledage_base_assistan.Prelude.{◌≤◌, ◌≡◌, Bool, true, String, arith}
use knowledage_base_assistan.Tasking.RuntimeProgress.{
  NoProgressState, ProgressDisposition, progress, merge_loop_no_progress, initial,
}

-- The counters agree with each other, and below the thresholds.
pub record IsConsistent (s : NoProgressState) : Type 0 where
  pub same_le : s.same_loop_no_progress ≤ s.consecutive_no_progress
  pub consecutive_le : s.consecutive_no_progress ≤ s.task_no_progress
  pub epoch_le : s.epoch_no_progress ≤ s.task_no_progress
  pub replans_le : s.task_replan_count ≤ 3
  pub used_counted : s.episode_replan_used ≡ true → 1 ≤ s.task_replan_count

pub initial-IsConsistent : IsConsistent initial
initial-IsConsistent = ground arith

pub merge-IsConsistent :
    (s : NoProgressState) (d : ProgressDisposition) (fingerprint : String) (alternative : Bool)
    → IsConsistent s
    → IsConsistent (merge_loop_no_progress s d fingerprint alternative).1
unfolding merge_loop_no_progress
merge-IsConsistent s progress fingerprint alternative h = ground arith
merge-IsConsistent s _ fingerprint alternative h = ground arith
