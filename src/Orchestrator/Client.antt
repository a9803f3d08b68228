-- ===== src/Orchestrator/Client.antt =====
-- What the calls of a client do to a task and to its runs.
use mathlib.Core.Path.{subst}
use auto_gardener.Base.{
  Bool, [], false, if◌then◌else◌, is_nil, refl, some, sym, true, ◌++◌, ◌∙◌, ◌∷◌, ◌≡◌,
}
use auto_gardener.Base.Dict.{lookup}
use auto_gardener.Models.{Env, Status, Task, new_id, running}
use auto_gardener.Orchestrator.{
  Outcome, Run, World, cancel_task_processes, instructed, is_active_run, log, register_run,
  send_message_with_instruction, start_after, start_forest_run,
}
use auto_gardener.Orchestrator.Forest.Leaving.{log-observe}
use auto_gardener.Orchestrator.Registry.{start_forest_run-active}
use auto_gardener.Store.{clone_task, ok, update_task}
use auto_gardener.Store.Lookup.{changed, update_task_lem}
use auto_gardener.Store.Observe.{observe, observe-update_task_self}
use auto_gardener.Text.{Text, clip, fields, join, text_of, trim_space}
use auto_gardener.Text.Laws.{text_eq_refl, text_key}

-- What a client sees of the work on a task.
abbrev pub work_of : Task → Status × Status × Bool × Bool
work_of t = (t.status, t.gardener_status, t.stop_requested, t.awaiting_user_input)

start_after-ok :
    (e : Env) (task_id visible instruction : Text) (w : World) (t : Task)
    → let out = start_after e task_id visible instruction w (ok t) in
      (run : Run) × (out.started ≡ some run)
      × (is_active_run task_id run.run_id out.world ≡ true)
      × (observe work_of task_id out.world.store ≡ observe work_of task_id w.store)
unfolding start_after start_forest_run register_run cancel_task_processes
start_after-ok e task_id visible instruction w t =
    let line = text_of "用户追加消息：" ++ clip 160 (text_of "...") (join (32 ∷ []) (fields visible)) in
    let w' = log e task_id line w in
    let run_id = new_id e 0 (text_of "run") in
    (
      (start_forest_run e task_id instruction w').1,
      refl,
      start_forest_run-active e w' task_id instruction run_id ∙ text_eq_refl run_id,
      log-observe work_of e task_id task_id line w λ t. refl,
    )

abbrev IsStarted : Text → Outcome → Type 0
IsStarted task_id out =
    (run : Run) × (out.started ≡ some run)
    × (is_active_run task_id run.run_id out.world ≡ true)
    × (observe work_of task_id out.world.store ≡ some (running, running, false, false))

given_instruction : Text → Text → Text
given_instruction visible raw =
    if is_nil (trim_space raw) then trim_space visible else trim_space raw

-- A message with text, to a task that is there and can be written, reaches the start of a run.
send-reaches :
    (e : Env) (task_id visible raw : Text) (w : World) (t : Task)
    → lookup task_id w.store.tasks ≡ some t
    → e.persists t.id ≡ true
    → is_nil (trim_space visible) ≡ false
    → let change = instructed e (trim_space visible) in
      send_message_with_instruction e task_id visible raw w
      ≡ start_after e task_id
          (trim_space visible)
          (given_instruction visible raw)
          (record w { store = (update_task e task_id change w.store).0 })
          (ok (clone_task e (changed e task_id change w.store t)))
unfolding send_message_with_instruction given_instruction instructed
send-reaches e task_id visible raw w t p writes word =
    let change = instructed e (trim_space visible) in
    let (_, answer) = update_task_lem e task_id change w.store t p in
    rw (send_message_with_instruction, word, answer, writes) refl

-- A message to a task that is there and can be written starts a run, which is the active one, and
-- leaves the task running, neither stopped nor waiting for an answer.
pub send_message_with_instruction_lem :
    (e : Env) (task_id visible instruction : Text) (w : World) (t : Task)
    → lookup task_id w.store.tasks ≡ some t
    → e.persists t.id ≡ true
    → is_nil (trim_space visible) ≡ false
    → let out = send_message_with_instruction e task_id visible instruction w in
      (run : Run) × (out.started ≡ some run)
      × (is_active_run task_id run.run_id out.world ≡ true)
      × (observe work_of task_id out.world.store ≡ some (running, running, false, false))
unfolding instructed
send_message_with_instruction_lem e task_id visible instruction w t p writes word =
    let change = instructed e (trim_space visible) in
    let s' = (update_task e task_id change w.store).0 in
    let (run, started, active, same) =
      start_after-ok e task_id (trim_space visible) (given_instruction visible instruction)
        (record w { store = s' }) (clone_task e (changed e task_id change w.store t)) in
    subst (IsStarted task_id) (sym (send-reaches e task_id visible instruction w t p writes word))
      (run, started, active, same ∙ observe-update_task_self work_of e task_id change w.store t p)
