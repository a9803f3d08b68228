-- ===== src/Orchestrator/Queries.antt =====
-- What an answer to a question about progress leaves of tasks and runs.
use auto_gardener.Base.{
  Bool, Bool-cases, arith, false, inl, inr, is_nil, none, refl, some, true, ◌||◌, ◌∙◌, ◌≡◌,
}
use auto_gardener.Base.Dict.{lookup}
use auto_gardener.Instructions.Query.{is_progress_query}
use auto_gardener.Models.{Env, Task, is_running}
use auto_gardener.Orchestrator.{
  Outcome, World, answer_query, answered, is_too_long, log, log_after, send_message, send_to,
}
use auto_gardener.Orchestrator.Client.{work_of}
use auto_gardener.Orchestrator.Forest.Leaving.{log-observe}
use auto_gardener.Store.{Result, clone_task, err, ok, update_task}
use auto_gardener.Store.Lookup.{get_task-at}
use auto_gardener.Store.Observe.{observe, observe-update_task}
use auto_gardener.Text.{Text, trim_space}
use auto_gardener.Text.Laws.{text_key}

-- No run is started or cancelled, and every task's work is as it was.
abbrev pub IsQuiet : World → Outcome → Type 0
IsQuiet w out =
    (out.started ≡ none)
    × (out.world.active_runs ≡ w.active_runs)
    × (out.world.cancels ≡ w.cancels)
    × (out.world.cancelled ≡ w.cancelled)
    × ((j : Text) → observe work_of j out.world.store ≡ observe work_of j w.store)

log_after-IsQuiet :
    (e : Env) (task_id line : Text) (w w' : World) (answer : Result Task)
    → IsQuiet w (record { world = w'; started = none; answer = answer })
    → IsQuiet w (log_after e task_id line w' answer)
unfolding log_after log
log_after-IsQuiet e task_id line w w' (err f) (s, a, c, d, o) = (refl, a, c, d, o)
log_after-IsQuiet e task_id line w w' (ok t) (s, a, c, d, o) =
    (refl, a, c, d, λ j. log-observe work_of e task_id j line w' (λ t. refl) ∙ o j)

answer_query-IsQuiet :
    (e : Env) (task_id content answer line : Text) (w : World)
    → IsQuiet w (answer_query e task_id content answer line w)
unfolding answer_query answered
answer_query-IsQuiet e task_id content answer line w =
    let (s', result) = update_task e task_id (answered e content answer) w.store in
    log_after-IsQuiet e task_id line w (record w { store = s' }) result
      (
        refl,
        refl,
        refl,
        refl,
        λ j. observe-update_task work_of e task_id j (answered e content answer) w.store λ t. refl,
      )

send_to-IsQuiet :
    (e : Env) (task_id content : Text) (w : World) (t : Task)
    → (is_running t.status || t.awaiting_user_input) ≡ true
    → is_progress_query content ≡ true
    → IsQuiet w (send_to e task_id content w (some t))
unfolding send_to
send_to-IsQuiet e task_id content w t h q = elim (Bool-cases (is_running t.status)) [
  | inl r ↦ rw (send_to, r, q) (answer_query-IsQuiet e task_id content _ _ w)
  | inr r ↦
      rw (send_to, r, q, or_right (is_running t.status) t.awaiting_user_input r h)
        (answer_query-IsQuiet e task_id content _ _ w)
]
  where
    or_right : (a b : Bool) → a ≡ false → (a || b) ≡ true → b ≡ true
    or_right a b x y = ground arith

-- A question about progress, to a task that is running or waits for an answer, starts no run and
-- cancels none, and every task keeps its status, its stop request and whether it waits for an
-- answer. The question has text and is no longer than the limit.
pub send_message-query :
    (e : Env) (task_id raw : Text) (w : World) (t : Task)
    → lookup task_id w.store.tasks ≡ some t
    → (is_running t.status || t.awaiting_user_input) ≡ true
    → is_nil (trim_space raw) ≡ false
    → is_too_long (trim_space raw) ≡ false
    → is_progress_query (trim_space raw) ≡ true
    → IsQuiet w (send_message e task_id raw w)
unfolding send_message clone_task
send_message-query e task_id raw w t p h word short q =
    rw (send_message, word, short, get_task-at e task_id w.store t p)
      (send_to-IsQuiet e task_id (trim_space raw) w (clone_task e t) h q)
