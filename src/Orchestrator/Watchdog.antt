-- ===== src/Orchestrator/Watchdog.antt =====
-- RunWatchdogOnce of internal/app/watchdog.go with hasRecentWatchdogCue of internal/app/runtime.go,
-- and ResumeUnfinished of internal/app/orchestrator.go. A pass reads the list of running tasks once.
pub mod Quiet
use auto_gardener.Base.{
  Bool, List, Option, [], false, if◌then◌else◌, ltb, max, none, not, reverse, some, true, ℕ, ◌*◌,
  ◌++◌, ◌-◌, ◌/◌, ◌||◌, ◌∷◌,
}
use auto_gardener.Instructions.{build_resume_instruction, build_watchdog_instruction}
use auto_gardener.Models.{Env, Message, Task, is_running, is_system, running}
use auto_gardener.Orchestrator.{Run, World, change_task, has_task_processes, log, start_forest_run}
use auto_gardener.Runtime.{build_task_runtime, elapsed, second, watchdog_stale_after}
use auto_gardener.Store.{list_running_tasks, list_tasks}
use auto_gardener.Text.{contains, text_of}
use auto_gardener.Text.Number.{itoa}

recent_cue : ℕ → List Message → Bool
recent_cue cutoff [] = false
recent_cue cutoff (m ∷ earlier) =
    let rest = recent_cue cutoff earlier in
    if not (is_system m.role)
    then rest
    else if ltb m.created_at cutoff
    then false
    else if contains m.content (text_of "任务状态提示") || contains m.content (text_of "没有新的输出")
    then true
    else rest

cue_cutoff : ℕ → Option ℕ → ℕ
cue_cutoff cutoff none = cutoff
cue_cutoff cutoff (some at) = if ltb cutoff at then at - 2 * second else cutoff

unfoldable pub has_recent_watchdog_cue : Env → Task → Option ℕ → Bool
unfolding recent_cue cue_cutoff text_of
has_recent_watchdog_cue e t latest =
    recent_cue (cue_cutoff (e.now - 1800 * second) latest) (reverse t.messages)

-- Whether the last mark of the watchdog is too fresh for another.
marked_recently : Env → Task → Bool
unfolding watchdog_stale_after
marked_recently e t = elim t.last_watchdog_at [
  | none ↦ false
  | some at ↦ ltb (elapsed e.now at) (watchdog_stale_after e * second)
]

-- The three guards of the loop.
unfoldable pub is_left_alone : Env → Task → Bool
unfolding marked_recently
is_left_alone e t =
    let rt = build_task_runtime e t in
    ltb rt.idle_seconds (watchdog_stale_after e)
    || marked_recently e t
    || has_recent_watchdog_cue e t rt.latest_activity_at

unfoldable pub marked : Env → Task → Task
marked e t = record t { last_watchdog_at = some e.now }

idle_minutes : Env → Task → ℕ
idle_minutes e t = max 1 ((build_task_runtime e t).idle_seconds / 60)

-- A task whose processes are gone: a silent run checks it.
check_task : Env → Task → World → World × Option Run
unfolding idle_minutes
check_task e t w =
    let line =
      text_of "Watchdog 检测到任务约 "
      ++ (itoa (idle_minutes e t)
          ++ text_of " 分钟无新输出，且未发现仍受 Gardener 管理的底层进程，已交由 Gardener 后台自查，不直接通知用户。") in
    let (w', run) =
      start_forest_run e t.id
        (build_watchdog_instruction t (idle_minutes e t) (build_task_runtime e t).severity)
        (log e t.id line w) in
    (w', some run)

defer_task : Env → Task → World → World × Option Run
unfolding idle_minutes
defer_task e t w = (
  log e t.id
      (text_of "Watchdog 检测到任务约 "
        ++ (itoa (idle_minutes e t) ++ text_of " 分钟无新输出，但底层 CLI 进程仍在运行；为避免主动中断，本轮仅记录并延后后台自查。"))
      w,
  none,
)

-- The body of the loop, for a task of the list.
unfoldable pub watch_task : Env → Task → World → World × Option Run
unfolding check_task defer_task
watch_task e t w =
    let w' = change_task e t.id (marked e) w in
    if is_left_alone e t
    then (w, none)
    else if has_task_processes t.id w'
    then defer_task e t w'
    else check_task e t w'

pub watch_tasks : Env → List Task → World → World × List Run
watch_tasks e [] w = (w, [])
watch_tasks e (t ∷ more) w =
    let (w', run) = watch_task e t w in
    let (w'', runs) = watch_tasks e more w' in (w'', elim run [ none ↦ runs | some r ↦ r ∷ runs ])

unfoldable pub run_watchdog_once : Env → World → World × List Run
unfolding watch_tasks
run_watchdog_once e w = watch_tasks e (list_running_tasks e w.store) w

-- ResumeUnfinished, at the start of the server.
unfoldable pub resumed : Task → Task
resumed t = record t { status = running; gardener_status = running }

pub resume_tasks : Env → List Task → World → World × List Run
unfolding resumed
resume_tasks e [] w = (w, [])
resume_tasks e (t ∷ more) w =
    let w' = log e t.id (text_of "服务启动后继续未完成的任务。") (change_task e t.id resumed w) in
    let (w'', run) = start_forest_run e t.id (build_resume_instruction t) w' in
    if not (is_running t.status) || t.stop_requested
    then resume_tasks e more w
    else (let (w''', runs) = resume_tasks e more w'' in (w''', run ∷ runs))

unfoldable pub resume_unfinished : Env → World → World × List Run
unfolding resume_tasks
resume_unfinished e w = resume_tasks e (list_tasks e w.store) w
