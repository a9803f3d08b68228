-- ===== src/Runtime/Counts.antt =====
-- What the runtime summary says of the trees, of the severity and of the configured durations.
use auto_gardener.Base.{
  List, [], arith, false, length, refl, sym, ℕ, ◌+◌, ◌<◌, ◌↔◌, ◌∙◌, ◌∷◌, ◌≡◌, ◌≤◌,
}
use auto_gardener.Models.{Env, Task, TaskRuntime, Tree, is_finished, severity_blocked}
use auto_gardener.Runtime.{
  TreeCounts, build_task_runtime, count_trees, getenv_duration_seconds,
  max_watchdog_duration_seconds, runtime_cue, watchdog_blocked_after,
}
use auto_gardener.Text.{Text}

pub count_trees-total :
    (c : TreeCounts) (more : List Tree)
    → c.total_trees ≡ c.running_trees + c.finished_trees
    → ((count_trees c more).total_trees
        ≡ (count_trees c more).running_trees + (count_trees c more).finished_trees)
      × ((count_trees c more).total_trees ≡ c.total_trees + length more)
unfolding count_trees
count_trees-total c [] h = omega arith
count_trees-total c (tree ∷ more) h = ground (
  arith,
  count_trees-total
      (record c { total_trees = c.total_trees + 1; finished_trees = c.finished_trees + 1 }) more,
  count_trees-total
      (record c { total_trees = c.total_trees + 1; running_trees = c.running_trees + 1 }) more,
)

-- The summary counts every tree of the task once, as finished or as running.
pub build_task_runtime-counts :
    (e : Env) (t : Task)
    → let rt = build_task_runtime e t in
      (rt.total_trees ≡ length t.trees) × (rt.running_trees + rt.finished_trees ≡ length t.trees)
unfolding build_task_runtime
build_task_runtime-counts e t =
    let zeros : TreeCounts = record { running_trees = 0; finished_trees = 0; total_trees = 0 } in
    let (all, len) = count_trees-total zeros t.trees refl in
    (len ∙ omega arith, sym all ∙ len ∙ omega arith)

-- Whatever the environment says, a watchdog duration lies between one second and a week, provided
-- that its fallback does.
pub getenv_duration_seconds_bounds :
    (e : Env) (key : Text) (fallback : ℕ)
    → 0 < fallback
    → fallback ≤ max_watchdog_duration_seconds
    → (0 < getenv_duration_seconds e key fallback)
      × (getenv_duration_seconds e key fallback ≤ max_watchdog_duration_seconds)
unfolding getenv_duration_seconds
getenv_duration_seconds_bounds e key fallback h k = ground arith

-- The task is reported as blocked exactly when it is unfinished, waits for no answer, has a tree
-- and has been idle for the blocked limit.
pub runtime_cue-blocked_iff :
    (e : Env) (t : Task) (rt : TaskRuntime)
    → ((runtime_cue e t rt).1 ≡ severity_blocked) ↔ (
        (t.awaiting_user_input ≡ false)
        × (is_finished t.status ≡ false)
        × (0 < rt.total_trees)
        × (watchdog_blocked_after e ≤ rt.idle_seconds))
unfolding runtime_cue
runtime_cue-blocked_iff e t rt = (λ h. ground arith, λ h. ground arith)
