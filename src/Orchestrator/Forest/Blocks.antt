-- ===== src/Orchestrator/Forest/Blocks.antt =====
-- What the blocks of a run of runForest in internal/app/orchestrator.go leave of the messages of
-- tasks.
use mathlib.Core.Path.{subst}
use auto_gardener.Base.{
  List, Option, false, if_elim, if◌then◌else◌, is_nil, none, not, refl, some, sym, true, ℕ, ◌++◌,
  ◌+◌, ◌||◌, ◌∙◌, ◌≡◌,
}
use auto_gardener.Models.{Env, GardenerPlan, Message, Task}
use auto_gardener.Orchestrator.{Run, World, finish_task, finished_task, is_active_run, log}
use auto_gardener.Orchestrator.Forest.{
  Point, advance, advanced, decide, ended, finish_if_active, is_interrupted, is_silent, leave,
  loop_head, looping, tell,
}
use auto_gardener.Orchestrator.Forest.Leaving.{change_task-observe, log-observe}
use auto_gardener.Plan.{plan_needs_clarification}
use auto_gardener.Progress.{compact_progress_line}
use auto_gardener.Store.{get_task}
use auto_gardener.Store.Observe.{append_schedule-tasks, logged, observe}
use auto_gardener.Text.{Text, text_of}
use auto_gardener.Text.Number.{itoa}

finish_task-observe {ℓ} :
    {A : Type ℓ} (f : Task → A) (e : Env) (id j line : Text) (w : World)
    → ((t : Task) → f (logged e (compact_progress_line line) t) ≡ f t)
    → ((t : Task) → f (record (finished_task t) { updated_at = e.now }) ≡ f t)
    → observe f j (finish_task e id line w).store ≡ observe f j w.store
unfolding finish_task
finish_task-observe f e id j line w h k =
    change_task-observe f e id j finished_task (log e id line w) k ∙ log-observe f e id j line w h

abbrev pub messages_of : Task → List Message
messages_of t = t.messages

abbrev pub KeepsMessages : World → World → Type 0
KeepsMessages w w' = (j : Text) → observe messages_of j w'.store ≡ observe messages_of j w.store

finish_keeps : (e : Env) (id line : Text) (w : World) → KeepsMessages w (finish_task e id line w)
unfolding finished_task
finish_keeps e id line w j = finish_task-observe messages_of e id j line w (λ t. refl) λ t. refl

log_keeps : (e : Env) (id line : Text) (w : World) → KeepsMessages w (log e id line w)
log_keeps e id line w j = log-observe messages_of e id j line w λ t. refl

leave_keeps : (e : Env) (run : Run) (w : World) → KeepsMessages w (leave e run w)
unfolding leave
leave_keeps e run w =
    if_elim (KeepsMessages w) (is_active_run run.task_id run.run_id w) _ _
      (finish_keeps e run.task_id _ w) (log_keeps e run.task_id _ w)

finish_if_active_keeps :
    (e : Env) (run : Run) (line : Text) (w : World)
    → KeepsMessages w (finish_if_active e run line w)
unfolding finish_if_active
finish_if_active_keeps e run line w =
    if_elim (KeepsMessages w) (is_active_run run.task_id run.run_id w) _ _
      (finish_keeps e run.task_id line w) λ j. refl

tell-silent :
    (e : Env) (run : Run) (raw content : Text) (w : World)
    → is_silent run ≡ true
    → tell e run raw content w ≡ w
unfolding tell
tell-silent e run raw content w h = rw h refl

advance_keeps :
    (e : Env) (run : Run) (stage : ℕ) (plan : GardenerPlan) (w : World)
    → KeepsMessages w (advance e run stage plan w).0
unfolding advance advanced
advance_keeps e run stage plan w j = go (get_task e run.task_id w.store) refl
  where
    go :
        (found : Option Task)
        → get_task e run.task_id w.store ≡ found
        → observe messages_of j (advance e run stage plan w).0.store ≡ observe messages_of j w.store
    go none p = rw (p, advance) refl
    go (some t) p =
        rw (p, advance, observe, append_schedule-tasks)
          (change_task-observe messages_of e run.task_id j (advanced (t.forest + 1)) w λ t. refl)

-- The rest of the two blocks, once nothing is told to the user.
loop_head-silent :
    (e : Env) (run : Run) (stage : ℕ) (plan : GardenerPlan) (w : World)
    → is_silent run ≡ true
    → plan_needs_clarification plan ≡ false
    → loop_head e run stage plan w ≡ (
        if is_interrupted e run w
        then (leave e run w, ended)
        else if plan.forest_finished || is_nil plan.trees
        then (finish_if_active e run (text_of "这件事暂时处理完了。") w, ended)
        else advance e run stage plan w)
unfolding loop_head
loop_head-silent e run stage plan w h k = rw (loop_head, tell-silent e run _ _ w h, k) refl

decide-silent :
    (e : Env) (run : Run) (stage forest : ℕ) (plan : GardenerPlan) (w : World)
    → is_silent run ≡ true
    → plan_needs_clarification plan ≡ false
    → decide e run stage forest plan w ≡ (
        if is_interrupted e run w
        then (leave e run w, ended)
        else if not (plan.forest_finished || is_nil plan.trees)
        then (
          log e run.task_id
              (text_of "Gardener 决定继续派出下一批子任务修复或补充，autoStage=" ++ (itoa (stage + 1) ++ text_of "。"))
              w,
          looping (stage + 1) plan,
        )
        else (
          finish_if_active e run (text_of "第 " ++ (itoa forest ++ text_of " 个阶段已完成。")) w,
          ended,
        ))
unfolding decide
decide-silent e run stage forest plan w h k = rw (decide, tell-silent e run _ _ w h, k) refl

-- In a run that answers the watchdog silently, the head of the loop and the block after a decision add
-- no message to any task, where the plan or the decision asks for no clarification.
pub silent_lem :
    (e : Env) (run : Run) (stage forest : ℕ) (plan : GardenerPlan) (w : World)
    → is_silent run ≡ true
    → plan_needs_clarification plan ≡ false
    → KeepsMessages w (loop_head e run stage plan w).0
      × KeepsMessages w (decide e run stage forest plan w).0
silent_lem e run stage forest plan w h k =
    let P = λ (x : World × Point). KeepsMessages w x.0 in
    let i = is_interrupted e run w in
    (
      subst P (sym (loop_head-silent e run stage plan w h k)) (
          if_elim P i _ _ (leave_keeps e run w) (
            if_elim P (plan.forest_finished || is_nil plan.trees) _ _
              (finish_if_active_keeps e run _ w) (advance_keeps e run stage plan w))),
      subst P (sym (decide-silent e run stage forest plan w h k)) (
          if_elim P i _ _ (leave_keeps e run w) (
            if_elim P (not (plan.forest_finished || is_nil plan.trees)) _ _
              (log_keeps e run.task_id _ w) (finish_if_active_keeps e run _ w))),
    )
