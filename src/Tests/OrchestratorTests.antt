-- ===== src/Tests/OrchestratorTests.antt =====
-- The theorems on runs and on the calls of a client, at the task and the run of the tests.
use auto_gardener.Base.{
  All, [], arith, false, if◌then◌else◌, length, none, not, refl, some, true, ℕ, ◌&&◌, ◌∷◌, ◌≡◌, ◌≤◌,
}
use auto_gardener.Base.Dict.{lookup}
use auto_gardener.Instructions.{silent_watchdog_instruction_prefix}
use auto_gardener.Instructions.Query.{is_progress_query}
use auto_gardener.Models.{GardenerPlan, finished, running}
use auto_gardener.Orchestrator.{
  Run, World, belongs_to, has_task_processes, is_active_run, is_cancelled, is_too_long, remove_task,
  send_message, send_message_with_instruction, start_forest_run, stop_task,
}
use auto_gardener.Orchestrator.Attempts.{
  CliResult, Parsed, run_gardener_decision, run_gardener_plan, unparsed,
}
use auto_gardener.Orchestrator.Attempts.Bounds.{run_gardener_plan-IsReady}
use auto_gardener.Orchestrator.Client.{send_message_with_instruction_lem, work_of}
use auto_gardener.Orchestrator.Forest.{
  Point, check_interrupted, decide, is_interrupted, is_silent, is_stop_requested, loop_head,
}
use auto_gardener.Orchestrator.Forest.Blocks.{KeepsMessages, silent_lem}
use auto_gardener.Orchestrator.Forest.Ending.{decide-Settles, loop_head-Settles, state_of}
use auto_gardener.Orchestrator.Forest.Leaving.{IsHarmless, superseded_lem}
use auto_gardener.Orchestrator.Logs.{codex_log_line, important_log_line}
use auto_gardener.Orchestrator.Logs.Shown.{codex_log_line_lem}
use auto_gardener.Orchestrator.Queries.{IsQuiet, send_message-query}
use auto_gardener.Orchestrator.Registry.{start_forest_run-supersedes}
use auto_gardener.Orchestrator.Stopping.{remove_task_lem, stop_task_lem, stopped_view}
use auto_gardener.Orchestrator.Trees.{Report}
use auto_gardener.Orchestrator.Watchdog.{run_watchdog_once, watch_task}
use auto_gardener.Orchestrator.Watchdog.Quiet.{
  run_watchdog_once_lem, undisturbed, watch_task-managed,
}
use auto_gardener.Plan.{plan_needs_clarification}
use auto_gardener.Plan.Normal.{IsFilled}
use auto_gardener.Settings.{log_level_normal, log_level_quiet, normalize_log_level}
use auto_gardener.Store.{clone_task, get_task}
use auto_gardener.Store.Observe.{observe}
use auto_gardener.Tests.{env, last_plan, old_key, old_name, old_run, plan, task, task_name, world}
use auto_gardener.Text.{
  Text, byte_length, has_prefix, is_blank, text_eq, text_of, trim_prefix, trim_space,
}
use auto_gardener.Text.Laws.{text_key}

start_forest_run-supersedes_example :
    let (w, new) = start_forest_run env task_name (b'i' ∷ []) world in
    (is_cancelled 0 w ≡ true)
    × (is_active_run task_name old_name w ≡ false)
    × (is_active_run new.task_id new.run_id w ≡ true)
    × (is_cancelled new.context w ≡ false)
unfolding lookup text_eq belongs_to has_prefix text_of
start_forest_run-supersedes_example =
    start_forest_run-supersedes env world (b'i' ∷ []) old_run ((omega arith, tt), tt) refl refl refl

abbrev cancelled_world : World
cancelled_world = record world { cancelled = 0 ∷ []; active_runs = (task_name, b'x' ∷ []) ∷ [] }

superseded_lem_example :
    ((point : Point)
      → IsHarmless cancelled_world (check_interrupted env old_run point cancelled_world))
    × ((stage : ℕ) (p : GardenerPlan)
        → IsHarmless cancelled_world (loop_head env old_run stage p cancelled_world))
    × ((stage forest : ℕ) (p : GardenerPlan)
        → IsHarmless cancelled_world (decide env old_run stage forest p cancelled_world))
unfolding is_cancelled is_active_run lookup text_eq
superseded_lem_example = superseded_lem env old_run cancelled_world refl refl

loop_head-Settles_example :
    observe state_of task_name (loop_head env old_run 1 last_plan world).0.store
    ≡ some (finished, finished)
unfolding is_active_run lookup text_eq loop_head is_interrupted is_cancelled is_stop_requested
    get_task clone_task plan_needs_clarification is_blank
loop_head-Settles_example = loop_head-Settles env old_run 1 last_plan world (refl, refl) refl

decide-Settles_example :
    observe state_of task_name (decide env old_run 1 2 last_plan world).0.store
    ≡ some (finished, finished)
unfolding is_active_run lookup text_eq decide is_interrupted is_cancelled is_stop_requested get_task
    clone_task plan_needs_clarification is_blank
decide-Settles_example = decide-Settles env old_run 1 2 last_plan world (refl, refl) refl

abbrev silent_run : Run
silent_run = record old_run { instruction = silent_watchdog_instruction_prefix }

silent_lem_example :
    KeepsMessages world (loop_head env silent_run 1 plan world).0
    × KeepsMessages world (decide env silent_run 1 2 plan world).0
unfolding is_silent has_prefix plan_needs_clarification is_blank silent_watchdog_instruction_prefix
    text_of
silent_lem_example = silent_lem env silent_run 1 2 plan world refl refl

run_watchdog_once_lem_example :
    let (w, runs) = run_watchdog_once env world in
    ((j : Text) → observe undisturbed j w.store ≡ observe undisturbed j world.store)
    × All (λ (run : Run). is_silent run ≡ true) runs
run_watchdog_once_lem_example = run_watchdog_once_lem env world

watch_task-managed_example :
    let (w, run) = watch_task env task world in
    (run ≡ none)
    × (w.cancelled ≡ world.cancelled)
    × (w.cancels ≡ world.cancels)
    × (w.active_runs ≡ world.active_runs)
unfolding has_task_processes belongs_to has_prefix text_eq
watch_task-managed_example = watch_task-managed env task world refl

send_message_with_instruction_lem_example :
    let out = send_message_with_instruction env task_name (b'm' ∷ []) [] world in
    (run : Run) × (out.started ≡ some run)
    × (is_active_run task_name run.run_id out.world ≡ true)
    × (observe work_of task_name out.world.store ≡ some (running, running, false, false))
unfolding lookup text_eq trim_space
send_message_with_instruction_lem_example =
    send_message_with_instruction_lem env task_name (b'm' ∷ []) [] world task refl refl refl

send_message-query_example : IsQuiet world (send_message env task_name (text_of "status") world)
unfolding lookup text_eq trim_space text_of is_too_long byte_length is_progress_query
send_message-query_example =
    send_message-query env task_name (text_of "status") world task refl refl refl refl refl

stop_task_lem_example :
    let w = (stop_task env (λ id. []) task_name world).0 in
    (observe stopped_view task_name w.store ≡ some ((finished, finished, true, false), false))
    × (is_cancelled 0 w ≡ true)
unfolding lookup text_eq belongs_to has_prefix
stop_task_lem_example = stop_task_lem env (λ id. []) task_name old_key 0 world task refl refl refl

-- A CLI that answers without a plan, and a decoder that reads nothing.
abbrev wordless : ℕ → World → World × CliResult
wordless n w = (w, record { output = b'n' ∷ []; failure = none })

abbrev unmarshal : Text → Parsed
unmarshal s = unparsed s

run_gardener_plan-IsReady_example :
    let planned = run_gardener_plan env old_run unmarshal wordless [] world in
    let decision = run_gardener_decision env old_run unmarshal wordless world in
    (All IsFilled planned.plan.trees × (planned.asked ≤ 2))
    × (All IsFilled decision.plan.trees × (decision.asked ≤ 2))
run_gardener_plan-IsReady_example =
    run_gardener_plan-IsReady env old_run unmarshal wordless [] world

abbrev report : Report
report = record { path = b'/' ∷ b'r' ∷ []; problem = none }

remove_task_lem_example :
    let w = (remove_task env task_name world).0 in
    ((j : Text)
      → lookup j w.store.tasks ≡ (if text_eq task_name j then none else lookup j world.store.tasks))
    × (is_cancelled 0 w ≡ true)
unfolding lookup text_eq belongs_to has_prefix
remove_task_lem_example = remove_task_lem env task_name old_key 0 world refl refl

-- A line that is shown as it stands.
error_shown :
    codex_log_line (text_of "normal") (text_of " stderr: error: x ") ≡ some (text_of "error: x")
unfolding codex_log_line text_of
error_shown = refl

codex_log_line_lem_example :
    let raw = text_of " stderr: error: x " in
    let cleaned = trim_space (trim_prefix (trim_space raw) (text_of "stderr:")) in
    (length (text_of "error: x") ≤ 503)
    × (text_eq (normalize_log_level (text_of "normal")) log_level_quiet ≡ false)
    × ((text_eq (normalize_log_level (text_of "normal")) log_level_normal
          && not (important_log_line cleaned))
        ≡ false)
codex_log_line_lem_example =
    codex_log_line_lem (text_of "normal") (text_of " stderr: error: x ") (text_of "error: x")
      error_shown
