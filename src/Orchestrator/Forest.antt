-- ===== src/Orchestrator/Forest.antt =====
-- runForest of internal/app/orchestrator.go, as the blocks between its waits: the CLI calls for
-- `git init`, the plan, the trees, the validation and the decision. A block is one step.
pub mod Leaving
pub mod Blocks
pub mod Ending
pub mod Course
use auto_gardener.Base.{
  Bool, List, [], false, if◌then◌else◌, is_nil, none, not, some, take, ℕ, ◌&&◌, ◌++◌, ◌+◌, ◌||◌,
  ◌∷◌,
}
use auto_gardener.Instructions.{silent_watchdog_instruction_prefix}
use auto_gardener.Models.{Env, GardenerPlan, Task, TreePlan, gardener, running}
use auto_gardener.Orchestrator.{
  Run, World, change_task, finish_task, is_active_run, is_cancelled, log, message,
  pause_for_clarification,
}
use auto_gardener.Plan.{clarification_message, plan_needs_clarification}
use auto_gardener.Store.{append_schedule, get_task}
use auto_gardener.Text.{Text, clip, has_prefix, is_blank, text_of, trim_space}
use auto_gardener.Text.Number.{itoa}

-- Where a run waits, that its goroutine has not begun, or that it has returned. `autoForest` comes first, then the forest.
pub data Point : Type 0 where
  registered initialising planning : Point
  looping : ℕ → GardenerPlan → Point
  growing : ℕ → ℕ → List TreePlan → Point
  validating_forest deciding_forest : ℕ → ℕ → Point
  ended : Point

-- isStopRequested
unfoldable pub is_stop_requested : Env → Text → World → Bool
is_stop_requested e task_id w = elim (get_task e task_id w.store) [
  | none ↦ false
  | some t ↦ t.stop_requested
]

-- ctx.Err() != nil || isStopRequested(o.store, taskID)
unfoldable pub is_interrupted : Env → Run → World → Bool
is_interrupted e run w = is_cancelled run.context w || is_stop_requested e run.task_id w

-- What an interrupted run does before it returns: only the active one ends the task.
unfoldable pub leave : Env → Run → World → World
leave e run w =
    if is_active_run run.task_id run.run_id w
    then finish_task e run.task_id (text_of "已停止。") w
    else log e run.task_id (text_of "旧 Gardener run 被新的用户指令取代，已退出。") w

-- Whether the run answers the watchdog silently.
unfoldable pub is_silent : Run → Bool
is_silent run = has_prefix run.instruction silent_watchdog_instruction_prefix

-- Up to the CLI call of runGardenerGitInit.
unfoldable pub begin_run : Env → Run → World → World × Point
begin_run e run w = elim (get_task e run.task_id w.store) [
  | none ↦ (w, ended)
  | some _ ↦ (log e run.task_id (text_of "Gardener 开始运行。") w, initialising)
]

-- The check that stands after each wait.
unfoldable pub check_interrupted : Env → Run → Point → World → World × Point
check_interrupted e run point w =
    if is_interrupted e run w then (leave e run w, ended) else (w, point)

unfoldable pub ask_if_active : Env → Run → GardenerPlan → World → World
ask_if_active e run plan w =
    if is_active_run run.task_id run.run_id w
    then pause_for_clarification e run.task_id (clarification_message plan) w
    else w

unfoldable pub finish_if_active : Env → Run → Text → World → World
finish_if_active e run line w =
    if is_active_run run.task_id run.run_id w then finish_task e run.task_id line w else w

unfoldable pub told : Env → Text → Task → Task
told e content t = record t { messages = t.messages ++ message e 0 gardener content ∷ [] }

-- The message to the user, unless the run is silent or has none.
unfoldable pub tell : Env → Run → Text → Text → World → World
tell e run raw content w =
    if not (is_silent run) && not (is_blank raw)
    then change_task e run.task_id (told e content) w
    else w

unfoldable pub advanced : ℕ → Task → Task
advanced forest t = record t { forest = forest; status = running; gardener_status = running }

-- The next forest: at most `MaxTreesPerForest` trees of the plan.
unfoldable pub advance : Env → Run → ℕ → GardenerPlan → World → World × Point
advance e run stage plan w = elim (get_task e run.task_id w.store) [
  | none ↦ (w, ended)
  | some current ↦
      let forest = current.forest + 1 in
      let w' = change_task e run.task_id (advanced forest) w in
      (
        record w' { store = (append_schedule e run.task_id w'.store).0 },
        growing stage forest (take current.max_trees_per_forest plan.trees),
      )
]

-- The head of the loop with a plan, up to runTreeForest.
unfoldable pub loop_head : Env → Run → ℕ → GardenerPlan → World → World × Point
loop_head e run stage plan w =
    let w' = tell e run plan.message_to_user (trim_space plan.message_to_user) w in
    if is_interrupted e run w
    then (leave e run w, ended)
    else if plan_needs_clarification plan
    then (ask_if_active e run plan w, ended)
    else if plan.forest_finished || is_nil plan.trees
    then (finish_if_active e run (text_of "这件事暂时处理完了。") w', ended)
    else advance e run stage plan w'

-- After runGardenerDecision.
unfoldable pub decide : Env → Run → ℕ → ℕ → GardenerPlan → World → World × Point
decide e run stage forest decision w =
    if is_interrupted e run w
    then (leave e run w, ended)
    else if not (decision.forest_finished || is_nil decision.trees)
    then (
      log e run.task_id
          (text_of "Gardener 决定继续派出下一批子任务修复或补充，autoStage=" ++ (itoa (stage + 1) ++ text_of "。")) w,
      looping (stage + 1) decision,
    )
    else if plan_needs_clarification decision
    then (ask_if_active e run decision w, ended)
    else (
      finish_if_active e run (text_of "第 " ++ (itoa forest ++ text_of " 个阶段已完成。")) (
          tell e run decision.message_to_user
            (clip 900 (text_of "...") (trim_space decision.message_to_user)) w),
      ended,
    )
