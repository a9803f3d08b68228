-- ===== src/Orchestrator/Forest/Ending.antt =====
-- How a run that is the active one of its task ends, and how it goes on to the next forest.
use auto_gardener.Base.{
  List, arith, if_elim, is_nil, length, length-take, not, refl, some, sym, take, true, ℕ, ◌&&◌, ◌+◌,
  ◌||◌, ◌∙◌, ◌≡◌, ◌≢◌, ◌≤◌,
}
use auto_gardener.Base.Dict.{lookup}
use auto_gardener.Models.{Env, GardenerPlan, Status, Task, TreePlan, finished, running}
use auto_gardener.Orchestrator.{
  Run, World, change_task, finish_task, finished_task, is_active_run, log, pause_for_clarification,
  paused_task,
}
use auto_gardener.Orchestrator.Forest.{
  Point, advance, advanced, ask_if_active, decide, ended, finish_if_active, growing, is_interrupted,
  is_silent, leave, loop_head, looping, tell, told,
}
use auto_gardener.Orchestrator.Forest.Leaving.{change_task-observe, log-observe}
use auto_gardener.Plan.{plan_needs_clarification}
use auto_gardener.Store.{clone_task}
use auto_gardener.Store.Lookup.{get_task-at}
use auto_gardener.Store.Observe.{
  IsPresent, append_schedule-tasks, observe, observe-set, observe-update_task_self, present,
}
use auto_gardener.Text.{Text, clip, is_blank, text_of, trim_space}
use auto_gardener.Text.Laws.{text_key}

-- The two states of a task.
abbrev pub state_of : Task → Status × Status
state_of t = (t.status, t.gardener_status)

abbrev pub grown : Task → ℕ × Status × Status
grown t = (t.forest, t.status, t.gardener_status)

-- The run is the active one and its task is there.
abbrev pub IsAtWork : Run → World → Type 0
IsAtWork run w = (is_active_run run.task_id run.run_id w ≡ true) × IsPresent run.task_id w.store

pub log-IsPresent :
    (e : Env) (id line : Text) (w : World)
    → IsPresent id w.store
    → IsPresent id (log e id line w).store
log-IsPresent e id line w h = log-observe (λ _. tt) e id id line w (λ t. refl) ∙ h

finish_task-Settles :
    (e : Env) (id line : Text) (w : World)
    → IsPresent id w.store
    → observe state_of id (finish_task e id line w).store ≡ some (finished, finished)
unfolding finish_task change_task finished_task
finish_task-Settles e id line w h =
    observe-set state_of (finished, finished) e id finished_task (log e id line w).store (λ t. refl)
      (log-IsPresent e id line w h)

pause-Settles :
    (e : Env) (id question : Text) (w : World)
    → IsPresent id w.store
    → observe state_of id (pause_for_clarification e id question w).store
      ≡ some (finished, finished)
unfolding pause_for_clarification change_task paused_task
pause-Settles e id question w h =
    observe-set state_of (finished, finished) e id _ (log e id _ w).store (λ t. refl)
      (log-IsPresent e id _ w h)

tell-IsAtWork :
    (e : Env) (run : Run) (raw content : Text) (w : World)
    → IsAtWork run w
    → IsAtWork run (tell e run raw content w)
unfolding tell change_task told is_active_run
tell-IsAtWork e run raw content w h =
    if_elim (IsAtWork run) (not (is_silent run) && not (is_blank raw)) _ w
      (
        h.0,
        change_task-observe (λ _. tt) e run.task_id run.task_id (told e content) w (λ t. refl)
            ∙ h.1,
      )
      h

-- A block that ends the run leaves the task finished.
abbrev pub Settles : Run → World × Point → Type 0
Settles run (w, point) =
    point ≡ ended → observe state_of run.task_id w.store ≡ some (finished, finished)

leave-Settles :
    (e : Env) (run : Run) (w : World) → IsAtWork run w → Settles run (leave e run w, ended)
unfolding leave
leave-Settles e run w (a, h) q = rw (leave, a) (finish_task-Settles e run.task_id _ w h)

ask-Settles :
    (e : Env) (run : Run) (plan : GardenerPlan) (w : World)
    → IsAtWork run w
    → Settles run (ask_if_active e run plan w, ended)
unfolding ask_if_active
ask-Settles e run plan w (a, h) q = rw (ask_if_active, a) (pause-Settles e run.task_id _ w h)

finish-Settles :
    (e : Env) (run : Run) (line : Text) (w : World)
    → IsAtWork run w
    → Settles run (finish_if_active e run line w, ended)
unfolding finish_if_active
finish-Settles e run line w (a, h) q =
    rw (finish_if_active, a) (finish_task-Settles e run.task_id line w h)

-- The next forest of a task that is there: it has the number after the last one and at most as many
-- trees as the task allows, they are the first ones of the plan, and the task is running.
pub advance_lem :
    (e : Env) (run : Run) (stage : ℕ) (plan : GardenerPlan) (w : World) (t : Task)
    → lookup run.task_id w.store.tasks ≡ some t
    → let (w', point) = advance e run stage plan w in
      let sent = take t.max_trees_per_forest plan.trees in
      (point ≡ growing stage (t.forest + 1) sent)
      × (length sent ≤ t.max_trees_per_forest)
      × (observe grown run.task_id w'.store ≡ some (t.forest + 1, running, running))
unfolding advance change_task advanced clone_task
advance_lem e run stage plan w t p =
    rw (get_task-at e run.task_id w.store t p, advance, observe, append_schedule-tasks)
      (
        refl,
        omega (arith, length-take t.max_trees_per_forest plan.trees),
        observe-update_task_self grown e run.task_id (advanced (t.forest + 1)) w.store t p,
      )

growing≢ended : (stage forest : ℕ) (trees : List TreePlan) → growing stage forest trees ≢ ended
growing≢ended stage forest trees h = ground arith

advance-Settles :
    (e : Env) (run : Run) (stage : ℕ) (plan : GardenerPlan) (w : World)
    → IsAtWork run w
    → Settles run (advance e run stage plan w)
advance-Settles e run stage plan w (a, h) q =
    let (t, p) = present run.task_id w.store h in
    let (at, _, _) = advance_lem e run stage plan w t p in absurd (growing≢ended _ _ _ (sym at ∙ q))

looping≢ended : (stage : ℕ) (plan : GardenerPlan) → looping stage plan ≢ ended
looping≢ended stage plan h = ground arith

-- While a run is the active one of a task that is there, the head of its loop ends the run only with
-- the task finished: whether it was interrupted, asks for clarification or has no tree to send out.
pub loop_head-Settles :
    (e : Env) (run : Run) (stage : ℕ) (plan : GardenerPlan) (w : World)
    → IsAtWork run w
    → (loop_head e run stage plan w).1 ≡ ended
    → observe state_of run.task_id (loop_head e run stage plan w).0.store
      ≡ some (finished, finished)
unfolding loop_head
loop_head-Settles e run stage plan w h =
    let P = Settles run in
    let told = tell-IsAtWork e run plan.message_to_user (trim_space plan.message_to_user) w h in
    if_elim P (is_interrupted e run w) _ _ (leave-Settles e run w h) (
      if_elim P (plan_needs_clarification plan) _ _ (ask-Settles e run plan w h) (
        if_elim P (plan.forest_finished || is_nil plan.trees) _ _ (finish-Settles e run _ _ told)
          (advance-Settles e run stage plan _ told)))

-- While a run is the active one of a task that is there, its decision ends the run only with the task
-- finished: whether it was interrupted, asks for clarification or has no more trees to send out.
pub decide-Settles :
    (e : Env) (run : Run) (stage forest : ℕ) (plan : GardenerPlan) (w : World)
    → IsAtWork run w
    → (decide e run stage forest plan w).1 ≡ ended
    → observe state_of run.task_id (decide e run stage forest plan w).0.store
      ≡ some (finished, finished)
unfolding decide
decide-Settles e run stage forest plan w h =
    let P = Settles run in
    let told =
      tell-IsAtWork e run plan.message_to_user
        (clip 900 (text_of "...") (trim_space plan.message_to_user)) w h in
    if_elim P (is_interrupted e run w) _ _ (leave-Settles e run w h) (
      if_elim P (not (plan.forest_finished || is_nil plan.trees)) _ _
        (λ q. absurd (looping≢ended _ _ q))
        (if_elim P (plan_needs_clarification plan) _ _ (ask-Settles e run plan w h)
          (finish-Settles e run _ _ told)))
