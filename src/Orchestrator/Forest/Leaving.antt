-- ===== src/Orchestrator/Forest/Leaving.antt =====
-- How a run that was cancelled and replaced leaves: the interrupted branches of runForest in
-- internal/app/orchestrator.go.
use auto_gardener.Base.{Bool, List, [], false, none, refl, true, ℕ, ◌≡◌}
use auto_gardener.Models.{Env, GardenerPlan, Message, Status, Task, Tree}
use auto_gardener.Orchestrator.{Run, World, change_task, is_active_run, is_cancelled, log}
use auto_gardener.Orchestrator.Forest.{
  Point, check_interrupted, decide, ended, is_interrupted, leave, loop_head,
}
use auto_gardener.Progress.{compact_progress_line}
use auto_gardener.Store.Observe.{logged, observe, observe-log, observe-update_task}
use auto_gardener.Text.{Text}

-- What a client sees of a task besides its log and its times.
abbrev pub decided : Task → Status × Status × Bool × Bool × List Tree × ℕ
decided t =
    (t.status, t.gardener_status, t.stop_requested, t.awaiting_user_input, t.trees, t.forest)

pub change_task-observe {ℓ} :
    {A : Type ℓ} (f : Task → A) (e : Env) (id j : Text) (fn : Task → Task) (w : World)
    → ((t : Task) → f (record (fn t) { updated_at = e.now }) ≡ f t)
    → observe f j (change_task e id fn w).store ≡ observe f j w.store
unfolding change_task
change_task-observe f e id j fn w same = observe-update_task f e id j fn w.store same

pub log-observe {ℓ} :
    {A : Type ℓ} (f : Task → A) (e : Env) (id j raw : Text) (w : World)
    → ((t : Task) → f (logged e (compact_progress_line raw) t) ≡ f t)
    → observe f j (log e id raw w).store ≡ observe f j w.store
unfolding log
log-observe f e id j raw w same = observe-log f e id j raw w.store same

-- A task with its messages and without its log.
abbrev pub kept : Task → (Status × Status × Bool × Bool × List Tree × ℕ) × List Message
kept t = (decided t, t.messages)

-- All of a task but its log, and the times that a line in the log sets.
abbrev pub but_log : Task → Task
but_log t = record t { gardener_progress = []; last_progress_at = none; updated_at = 0 }

leave-observe :
    (e : Env) (run : Run) (w : World) (j : Text)
    → is_active_run run.task_id run.run_id w ≡ false
    → observe but_log j (leave e run w).store ≡ observe but_log j w.store
unfolding leave
leave-observe e run w j h = rw (h, leave) (log-observe but_log e run.task_id j _ w λ t. refl)

pub interrupted-cancelled :
    (e : Env) (run : Run) (w : World)
    → is_cancelled run.context w ≡ true
    → is_interrupted e run w ≡ true
unfolding is_interrupted
interrupted-cancelled e run w h = rw h refl

-- What a block does that finds its run cancelled and another run active: it ends, and every task
-- keeps all but its log and the times of its log.
abbrev pub IsHarmless : World → World × Point → Type 0
IsHarmless w (w', point) =
    (point ≡ ended) × ((j : Text) → observe but_log j w'.store ≡ observe but_log j w.store)

-- A run that is cancelled and is no longer the active one ends at its next block, whichever plan or
-- decision it then holds, and every task keeps all but its log and the times that a line in the log
-- sets.
pub superseded_lem :
    (e : Env) (run : Run) (w : World)
    → is_cancelled run.context w ≡ true
    → is_active_run run.task_id run.run_id w ≡ false
    → ((point : Point) → IsHarmless w (check_interrupted e run point w))
      × ((stage : ℕ) (plan : GardenerPlan) → IsHarmless w (loop_head e run stage plan w))
      × ((stage forest : ℕ) (plan : GardenerPlan) → IsHarmless w (decide e run stage forest plan w))
unfolding check_interrupted loop_head decide
superseded_lem e run w c a =
    let i = interrupted-cancelled e run w c in
    let out = λ (j : Text). leave-observe e run w j a in
    (
      (λ point. rw (i, check_interrupted) (refl, out)),
      (λ stage plan. rw (i, loop_head) (refl, out)),
      (λ stage forest plan. rw (i, decide) (refl, out)),
    )
