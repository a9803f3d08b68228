-- ===== src/Runtime.antt =====
-- internal/app/runtime.go and the durations of watchdog.go: the runtime summary that every clone
-- of a task carries. Whole seconds are exact; the rounding of `Seconds()` as a float is left out.
pub mod Counts
use auto_gardener.Base.{
  List, Option, [], if◌then◌else◌, is_nil, leb, ltb, min, none, not, some, ℕ, ◌&&◌, ◌++◌, ◌+◌, ◌-◌,
  ◌/◌, ◌==◌, ◌||◌, ◌∷◌,
}
use auto_gardener.Models.{
  Env, Phase, Severity, Task, TaskRuntime, Tree, awaiting_user, deciding, done, is_finished,
  is_running, planning, running_subtasks, severity_blocked, severity_info, severity_ok,
  severity_warning, stopped, validating, working,
}
use auto_gardener.Text.{Text, text_of}
use auto_gardener.Text.Number.{itoa, negsuc, parse_int, pos, ℤ}

abbrev pub second : ℕ
second = 1_000_000_000

abbrev pub max_duration : ℕ
max_duration = 0x7fffffffffffffff

-- now.Sub(at) where `at` is not later: a `time.Duration` saturates.
abbrev pub elapsed : ℕ → ℕ → ℕ
elapsed now at = min (now - at) max_duration

abbrev pub max_watchdog_duration_seconds : ℕ
max_watchdog_duration_seconds = 604800

positive_seconds : ℕ → Option ℤ → ℕ
positive_seconds fallback none = fallback
positive_seconds fallback (some (negsuc n)) = fallback
positive_seconds fallback (some (pos n)) =
    if n == 0 || ltb max_watchdog_duration_seconds n then fallback else n

-- In seconds, as every caller reads it.
unfoldable pub getenv_duration_seconds : Env → Text → ℕ → ℕ
unfolding positive_seconds
getenv_duration_seconds e key fallback =
    let v = e.getenv key in if is_nil v then fallback else positive_seconds fallback (parse_int v)

unfoldable pub watchdog_stale_after : Env → ℕ
watchdog_stale_after e =
    getenv_duration_seconds e (text_of "AUTO_GARDENER_WATCHDOG_STALE_SECONDS") 600

unfoldable pub watchdog_blocked_after : Env → ℕ
watchdog_blocked_after e =
    getenv_duration_seconds e (text_of "AUTO_GARDENER_WATCHDOG_BLOCKED_SECONDS") 1800

-- The first tree that is not finished decides the phase.
phase_of_trees : Task → List Tree → Phase
phase_of_trees t [] = if is_running t.gardener_status then deciding else working
phase_of_trees t (tree ∷ more) =
    let rest = phase_of_trees t more in
    if is_finished tree.status
    then rest
    else if tree.is_validation
    then validating
    else running_subtasks

unfoldable pub task_phase : Task → Phase
unfolding phase_of_trees
task_phase t =
    if t.awaiting_user_input
    then awaiting_user
    else if is_finished t.status
    then (if t.stop_requested then stopped else done)
    else if is_nil t.trees
    then planning
    else phase_of_trees t t.trees

-- `consider` of latestTaskActivity
abbrev consider : Option ℕ → Option ℕ → Option ℕ
consider latest none = latest
consider none (some v) = if v == 0 then none else some v
consider (some l) (some v) = if v == 0 then some l else if ltb l v then some v else some l

latest_of_trees : Option ℕ → List Tree → Option ℕ
latest_of_trees latest [] = latest
latest_of_trees latest (tree ∷ more) =
    latest_of_trees
      (consider (consider (consider latest (some tree.updated_at)) tree.started_at)
        tree.completed_at)
      more

abbrev or_updated : ℕ → Option ℕ → Option ℕ
or_updated updated none = if updated == 0 then none else some updated
or_updated updated (some l) = some l

unfoldable pub latest_task_activity : Task → Option ℕ
unfolding latest_of_trees
latest_task_activity t =
    let first = consider none t.last_progress_at in
    let logged = if is_nil t.gardener_progress then first else consider first (some t.updated_at) in
    or_updated t.updated_at (latest_of_trees logged t.trees)

pub record TreeCounts : Type 0 where
  pub running_trees : ℕ
  pub finished_trees : ℕ
  pub total_trees : ℕ

unfoldable pub count_trees : TreeCounts → List Tree → TreeCounts
count_trees c [] = c
count_trees c (tree ∷ more) =
    let c' = record c { total_trees = c.total_trees + 1 } in
    count_trees
      (if is_finished tree.status
        then record c' { finished_trees = c.finished_trees + 1 }
        else record c' { running_trees = c.running_trees + 1 })
      more

-- The summary before `runtimeCue` fills in the cue and its severity.
abbrev blank_runtime : Env → Task → TreeCounts → Option ℕ → TaskRuntime
blank_runtime e t c latest = record {
  phase = task_phase t;
  cue = [];
  severity = severity_ok;
  idle_seconds = elim latest [ none ↦ 0 | some at ↦ elapsed e.now at / second ];
  duration_seconds = if t.created_at == 0 then 0 else elapsed e.now t.created_at / second;
  running_trees = c.running_trees;
  finished_trees = c.finished_trees;
  total_trees = c.total_trees;
  latest_activity_at = latest;
  can_ask_progress = is_running t.status || t.awaiting_user_input;
  can_resume = is_finished t.status && not t.awaiting_user_input;
}

unfoldable pub runtime_cue : Env → Task → TaskRuntime → Text × Severity
runtime_cue e t rt =
    if t.awaiting_user_input
    then (text_of "Gardener 需要你补充需求后再继续。请直接在对话框回答它的问题。", severity_info)
    else if is_finished t.status
    then (if t.stop_requested
        then (text_of "任务已停止。如需继续，可以点击继续任务，Gardener 会先检查已有进度。", severity_info)
        else (text_of "任务当前已结束。如结果不完整，可以点击继续任务。", severity_ok))
    else if rt.total_trees == 0
    then (text_of "Gardener 正在规划任务。查询进度不会中断正在运行的工作。", severity_info)
    else if leb (watchdog_blocked_after e) rt.idle_seconds
    then (
      text_of "已经约 "
          ++ (itoa (rt.idle_seconds / 60)
              ++ text_of " 分钟没有新的输出。底层 CLI 可能卡住、断网或等待模型响应；你可以询问进度，必要时点击继续任务让 Gardener 重新检查。"),
      severity_blocked,
    )
    else if leb (watchdog_stale_after e) rt.idle_seconds
    then (
      text_of "已经约 "
          ++ (itoa (rt.idle_seconds / 60) ++ text_of " 分钟没有新的输出，但任务仍标记为运行中。查询进度是安全的，不会打断任务。"),
      severity_warning,
    )
    else if ltb 0 rt.running_trees
    then (
      itoa rt.running_trees
          ++ (text_of " 个子任务正在运行，" ++ (itoa rt.finished_trees ++ text_of " 个已完成。")),
      severity_ok,
    )
    else (text_of "子任务已返回，Gardener 正在验证或判断下一步。", severity_info)

unfoldable pub build_task_runtime : Env → Task → TaskRuntime
build_task_runtime e t =
    let c =
      count_trees (record { running_trees = 0; finished_trees = 0; total_trees = 0 }) t.trees in
    let rt = blank_runtime e t c (latest_task_activity t) in
    let (cue, severity) = runtime_cue e t rt in record rt { cue = cue; severity = severity }
