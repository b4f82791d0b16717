-- ===== src/Tasking/RuntimeProgress/Converges.antt =====
-- The loop over many rounds, with new inputs in between.
use knowledage_base_assistan.Prelude.{ℕ, ◌+◌, ◌≤◌, ◌≡◌, ◌≢◌, refl, Bool, String, arith}
use knowledage_base_assistan.Tasking.RuntimeProgress.{
  NoProgressState, ProgressDisposition, progress, merge_loop_no_progress, RuntimeConvergenceAction,
  replan, force_converge, new_input_epoch_reset,
}
use knowledage_base_assistan.Tasking.RuntimeProgress.Rounds.{IsConsistent, merge-IsConsistent}

pub record Round : Type 0 where
  pub disposition : ProgressDisposition
  pub fingerprint : String
  pub has_alternative_path : Bool

abbrev pub play : NoProgressState → Round → RuntimeConvergenceAction × NoProgressState
play s r = merge_loop_no_progress s r.disposition r.fingerprint r.has_alternative_path

abbrev pub stalled : ProgressDisposition → ℕ
stalled progress = 0
stalled _ = 1

abbrev pub replanned : RuntimeConvergenceAction → ℕ
replanned replan = 1
replanned _ = 0

-- A loop that goes on: no round of it forced the end. It counts the rounds without progress and
-- the replans; a new input may come at any time.
pub data Goes : NoProgressState → ℕ → ℕ → NoProgressState → Type 0 where
  here : {s : NoProgressState} → Goes s 0 0 s
  round :
      {s t : NoProgressState} {stalls replans m n : ℕ} (r : Round)
      → (play s r).0 ≢ force_converge
      → Goes (play s r).1 m n t
      → stalls ≡ stalled r.disposition + m
      → replans ≡ replanned (play s r).0 + n
      → Goes s stalls replans t
  new_input :
      {s t : NoProgressState} {stalls replans : ℕ}
      → Goes (new_input_epoch_reset s) stalls replans t
      → Goes s stalls replans t

-- One round that goes on.
record GoesOn (s s' : NoProgressState) (d : ProgressDisposition) (a : RuntimeConvergenceAction)
    : Type 0 where
  task_counted : s'.task_no_progress ≡ s.task_no_progress + stalled d
  replans_counted : s'.task_replan_count ≡ s.task_replan_count + replanned a
  below_task : s.task_no_progress ≤ 11 → s'.task_no_progress ≤ 11
  below_consecutive : s.consecutive_no_progress ≤ 2 → s'.consecutive_no_progress ≤ 2

play-GoesOn :
    (s : NoProgressState) (r : Round)
    → (play s r).0 ≢ force_converge
    → GoesOn s (play s r).1 r.disposition (play s r).0
unfolding merge_loop_no_progress
play-GoesOn s r h = ground arith

reset-IsConsistent : (s : NoProgressState) → IsConsistent s → IsConsistent (new_input_epoch_reset s)
unfolding new_input_epoch_reset
reset-IsConsistent s h = ground arith

reset_counts :
    (s : NoProgressState)
    → ((new_input_epoch_reset s).task_no_progress ≡ s.task_no_progress)
      × ((new_input_epoch_reset s).task_replan_count ≡ s.task_replan_count)
unfolding new_input_epoch_reset
reset_counts s = (refl, refl)

-- A loop that goes on from a consistent state below the task's threshold has, with the rounds
-- before it, at most 11 rounds without progress and at most 3 replans, whatever new inputs come.
pub Goes-bounded :
    {s t : NoProgressState} {stalls replans : ℕ}
    → Goes s stalls replans t
    → IsConsistent s
    → s.task_no_progress ≤ 11
    → (s.task_no_progress + stalls ≤ 11) × (s.task_replan_count + replans ≤ 3)
Goes-bounded here c h = (omega arith, omega (arith, c.replans_le))
Goes-bounded (round {s = s} r ne g p q) c h =
    let on = play-GoesOn s r ne in
    let (a, b) =
      Goes-bounded g (merge-IsConsistent s r.disposition r.fingerprint r.has_alternative_path c)
        (on.below_task h) in
    (omega (arith, on.task_counted), omega (arith, on.replans_counted))
Goes-bounded (new_input {s = s} g) c h =
    let (e, f) = reset_counts s in
    let (a, b) = Goes-bounded g (reset-IsConsistent s c) (omega arith) in (omega arith, omega arith)

stall_adds :
    (s : NoProgressState) (r : Round)
    → r.disposition ≢ progress
    → (play s r).1.consecutive_no_progress ≡ s.consecutive_no_progress + 1
unfolding merge_loop_no_progress
stall_adds s r h = ground arith

late_stall_converges :
    (s : NoProgressState) (r : Round)
    → r.disposition ≢ progress
    → 2 ≤ s.consecutive_no_progress
    → (play s r).0 ≡ force_converge
unfolding merge_loop_no_progress
late_stall_converges s r h two = ground arith

-- The third round in a row without progress always forces the end.
pub third_stall_converges :
    (s : NoProgressState) (r1 r2 r3 : Round)
    → r1.disposition ≢ progress
    → r2.disposition ≢ progress
    → r3.disposition ≢ progress
    → (play (play (play s r1).1 r2).1 r3).0 ≡ force_converge
third_stall_converges s r1 r2 r3 h1 h2 h3 =
    late_stall_converges (play (play s r1).1 r2).1 r3 h3
      (omega (arith, stall_adds s r1 h1, stall_adds (play s r1).1 r2 h2))
