-- ===== src/Orchestrator.antt =====
-- internal/app/orchestrator.go: the registry of runs and cancel functions, and the operations that
-- a client calls. A context is the number of its creation; `cancelled` holds the contexts whose
-- cancel function was called. The mutexes make each method one step.
pub mod Registry
pub mod Client
pub mod Watchdog
pub mod Queries
pub mod Stopping
pub mod Forest
pub mod Attempts
pub mod Trees
pub mod Creation
pub mod Goals
pub mod Logs
use auto_gardener.Base.{
  Bool, List, Option, [], any, false, if◌then◌else◌, is_nil, ltb, map, none, some, take, true, ℕ,
  ◌&&◌, ◌++◌, ◌+◌, ◌==◌, ◌||◌, ◌∷◌,
}
use auto_gardener.Base.Dict.{insert, lookup, remove}
use auto_gardener.Instructions.{build_clarification_reply_instruction, build_continue_instruction}
use auto_gardener.Instructions.Query.{build_progress_query_answer, is_progress_query}
use auto_gardener.Models.{
  Env, Message, MessageRole, Task, Tree, finished, gardener, is_running, new_id, running, system,
  user,
}
use auto_gardener.Plan.{default_clarification_question}
use auto_gardener.Store.{
  Failure, Result, Store, append_gardener_log, awaiting_answer, delete_task, empty_text, err,
  get_task, not_found, ok, text_too_long, update_task,
}
use auto_gardener.Text.{
  Text, byte_length, clip, fields, has_prefix, join, text_eq, text_of, trim_space,
}
use auto_gardener.Text.Laws.{text_key}

pub record World : Type 0 where
  pub store : Store
  pub active_runs : List (Text × Text)
  pub cancels : List (Text × ℕ)
  pub cancelled : List ℕ
  pub next_context : ℕ

abbrev pub colon : Text
colon = b':' ∷ []

-- key == taskID || strings.HasPrefix(key, taskID+":")
unfoldable pub belongs_to : Text → Text → Bool
unfolding text_eq has_prefix
belongs_to task_id key = text_eq key task_id || has_prefix key (task_id ++ colon)

unfoldable pub contexts_of : Text → List (Text × ℕ) → List ℕ
unfolding belongs_to
contexts_of task_id [] = []
contexts_of task_id ((key, c) ∷ more) =
    let rest = contexts_of task_id more in if belongs_to task_id key then c ∷ rest else rest

unfoldable pub cancel_task_processes : Text → World → World
cancel_task_processes task_id w = record w {
  cancelled = contexts_of task_id w.cancels ++ w.cancelled;
}

unfoldable pub has_task_processes : Text → World → Bool
has_task_processes task_id w = any (λ (entry : Text × ℕ). belongs_to task_id entry.0) w.cancels

unfoldable pub register_run : Text → Text → Text → ℕ → World → World
register_run task_id run_id key c w = record w {
  active_runs = insert task_id run_id w.active_runs;
  cancels = insert key c w.cancels;
}

-- `o.activeRuns[taskID] == runID`: a missing entry reads as the empty text.
unfoldable pub is_active_run : Text → Text → World → Bool
unfolding text_eq
is_active_run task_id run_id w = elim (lookup task_id w.active_runs) [
  | none ↦ is_nil run_id
  | some r ↦ text_eq r run_id
]

unfoldable pub register_cancel : Text → ℕ → World → World
register_cancel key c w = record w { cancels = insert key c w.cancels }

unfoldable pub unregister_cancel : Text → World → World
unregister_cancel key w = record w { cancels = remove key w.cancels }

-- ctx.Err() != nil
unfoldable pub is_cancelled : ℕ → World → Bool
is_cancelled c w = any (λ (d : ℕ). c == d) w.cancelled

-- The store's methods on the store of the world.
unfoldable pub log : Env → Text → Text → World → World
log e task_id line w = record w { store = append_gardener_log e task_id line w.store }

-- `_, _ = o.store.UpdateTask(...)`: the answer is dropped.
unfoldable pub change_task : Env → Text → (Task → Task) → World → World
change_task e task_id fn w = record w { store = (update_task e task_id fn w.store).0 }

-- A run of `runForest`: its key names its context among the cancel functions.
pub record Run : Type 0 where
  pub task_id : Text
  pub run_id : Text
  pub key : Text
  pub context : ℕ
  pub instruction : Text

-- startForestRun up to the `go` statement: the run that it starts beside the world.
unfoldable pub start_forest_run : Env → Text → Text → World → World × Run
unfolding cancel_task_processes register_run text_of
start_forest_run e task_id instruction w =
    let run_id = new_id e 0 (text_of "run") in
    let key = task_id ++ (text_of ":gardener:" ++ run_id) in
    let c = w.next_context in
    (
      register_run task_id run_id key c
          (record (cancel_task_processes task_id w) { next_context = c + 1 }),
      record {
        task_id = task_id;
        run_id = run_id;
        key = key;
        context = c;
        instruction = instruction;
      },
    )

abbrev pub max_user_text_bytes : ℕ
max_user_text_bytes = 65536

unfoldable pub is_too_long : Text → Bool
is_too_long s = ltb max_user_text_bytes (byte_length s)

unfoldable pub message : Env → ℕ → MessageRole → Text → Message
message e n role content = record {
  id = new_id e n (text_of "msg");
  role = role;
  content = content;
  created_at = e.now;
}

-- The task that a new instruction of the user leaves.
unfoldable pub instructed : Env → Text → Task → Task
unfolding message
instructed e visible t = record t {
  messages = t.messages ++ message e 1 user visible ∷ [];
  status = running;
  gardener_status = running;
  stop_requested = false;
  awaiting_user_input = false;
}

-- What a client's call leaves: the world, the run that it starts if any, and its answer.
pub record Outcome : Type 0 where
  pub world : World
  pub started : Option Run
  pub answer : Result Task

abbrev pub rejected : World → Failure → Outcome
rejected w f = record { world = w; started = none; answer = err f }

-- After UpdateTask of sendMessageWithInstruction
start_after : Env → Text → Text → Text → World → Result Task → Outcome
start_after e task_id visible instruction w (err f) = rejected w f
start_after e task_id visible instruction w (ok t) =
    let w' =
      log e task_id
        (text_of "用户追加消息：" ++ clip 160 (text_of "...") (join (32 ∷ []) (fields visible))) w in
    let (w'', run) = start_forest_run e task_id instruction w' in
    record { world = w''; started = some run; answer = ok t }

unfoldable pub send_message_with_instruction : Env → Text → Text → Text → World → Outcome
unfolding start_after trim_space
send_message_with_instruction e task_id visible_content raw w =
    let visible = trim_space visible_content in
    let trimmed = trim_space raw in
    let instruction = if is_nil trimmed then visible else trimmed in
    let (s', answer) = update_task e task_id (instructed e visible) w.store in
    if is_nil visible
    then rejected w empty_text
    else start_after e task_id visible instruction (record w { store = s' }) answer

-- A read-only answer: two messages and a line in the log, if the update succeeds.
log_after : Env → Text → Text → World → Result Task → Outcome
log_after e task_id line w (err f) = rejected w f
log_after e task_id line w (ok t) = record {
  world = log e task_id line w;
  started = none;
  answer = ok t;
}

unfoldable pub answered : Env → Text → Text → Task → Task
unfolding message
answered e content answer t = record t {
  messages = t.messages ++ (message e 0 user content ∷ message e 1 gardener answer ∷ []);
}

answer_query : Env → Text → Text → Text → Text → World → Outcome
unfolding log_after
answer_query e task_id content answer line w =
    let (s', result) = update_task e task_id (answered e content answer) w.store in
    log_after e task_id line (record w { store = s' }) result

-- The three ways of SendMessage, for the snapshot that GetTask gives.
send_to : Env → Text → Text → World → Option Task → Outcome
unfolding answer_query
send_to e task_id content w none = send_message_with_instruction e task_id content content w
send_to e task_id content w (some t) =
    if is_running t.status && is_progress_query content
    then answer_query e task_id content (build_progress_query_answer e t)
        (text_of "用户查询进度：已只读回复，未中断正在运行的任务。") w
    else if t.awaiting_user_input && is_progress_query content
    then answer_query e task_id content
        (text_of "Gardener 现在正等你补充需求，还没有继续执行。请直接回答上面的问题；收到补充后我会继续处理。")
        (text_of "用户查询进度：当前正在等待用户补充需求，未启动新任务。") w
    else if t.awaiting_user_input
    then send_message_with_instruction e task_id content
        (build_clarification_reply_instruction t content) w
    else send_message_with_instruction e task_id content content w

unfoldable pub send_message : Env → Text → Text → World → Outcome
unfolding send_to trim_space
send_message e task_id raw w =
    let content = trim_space raw in
    if is_nil content
    then rejected w empty_text
    else if is_too_long content
    then rejected w text_too_long
    else send_to e task_id content w (get_task e task_id w.store)

resume_from : Env → Text → World → Option Task → Outcome
resume_from e task_id w none = rejected w not_found
resume_from e task_id w (some t) =
    if t.awaiting_user_input
    then rejected w awaiting_answer
    else send_message_with_instruction e task_id (text_of "请继续这个任务。") (build_continue_instruction t)
        w

unfoldable pub resume_task : Env → Text → World → Outcome
unfolding resume_from
resume_task e task_id w = resume_from e task_id w (get_task e task_id w.store)

-- The tree of a stopped task; `path` is the report that writeFruit saved for it, empty if none.
unfoldable pub stop_tree : Env → (Text → Text) → Tree → Tree
stop_tree e path tree =
    if is_running tree.status
    then record tree {
      status = finished;
      completed_at = some e.now;
      progress = tree.progress ++ text_of "任务被用户停止。" ∷ [];
      fruit_path = if is_nil (path tree.id) then tree.fruit_path else path tree.id;
    }
    else tree

unfoldable pub stopped_task : Env → (Text → Text) → Task → Task
stopped_task e path t = record t {
  stop_requested = true;
  status = finished;
  gardener_status = finished;
  awaiting_user_input = false;
  trees = map (stop_tree e path) t.trees;
}

-- `path` gives what writeFruit saved for the running trees that had no report.
unfoldable pub stop_task : Env → (Text → Text) → Text → World → World × Result Task
unfolding log cancel_task_processes text_of
stop_task e path task_id w =
    let w' =
      cancel_task_processes task_id
        (log e task_id (text_of "收到停止任务请求，正在中断 Gardener 和子任务的底层 CLI 进程。") w) in
    let (s', answer) = update_task e task_id (stopped_task e path) w'.store in
    (record w' { store = s' }, answer)

unfoldable pub remove_task : Env → Text → World → World × Result (Unit {0})
unfolding cancel_task_processes
remove_task e task_id w =
    let w' = cancel_task_processes task_id w in
    let (s', answer) = delete_task e task_id w'.store in (record w' { store = s' }, answer)

unfoldable pub renamed : Text → Task → Task
renamed title t = record t { title = title }

log_rename : Env → Text → Text → World → Result Task → World × Result Task
log_rename e task_id title w (err f) = (w, err f)
log_rename e task_id title w (ok t) = (log e task_id (text_of "任务重命名为：" ++ title) w, ok t)

unfoldable pub rename_task : Env → Text → Text → World → World × Result Task
unfolding log_rename trim_space
rename_task e task_id raw w =
    let title = trim_space raw in
    let (s', answer) = update_task e task_id (renamed (take 80 title)) w.store in
    if is_nil title
    then (w, err empty_text)
    else if is_too_long title
    then (w, err text_too_long)
    else log_rename e task_id (take 80 title) (record w { store = s' }) answer

unfoldable pub append_system_message : Env → Text → Text → World → World
unfolding trim_space change_task message
append_system_message e task_id raw w =
    let content = trim_space raw in
    if is_nil content
    then w
    else change_task e task_id
        (λ t. record t { messages = t.messages ++ message e 0 system content ∷ [] }) w

unfoldable pub finished_task : Task → Task
finished_task t = record t {
  status = finished;
  gardener_status = finished;
  awaiting_user_input = false;
}

unfoldable pub finish_task : Env → Text → Text → World → World
unfolding log change_task finished_task
finish_task e task_id line w = change_task e task_id finished_task (log e task_id line w)

unfoldable pub paused_task : Env → Text → Task → Task
unfolding message trim_space
paused_task e question t = record t {
  status = finished;
  gardener_status = finished;
  awaiting_user_input = true;
  stop_requested = false;
  messages = t.messages ++ message e 0 gardener (trim_space question) ∷ [];
}

unfoldable pub pause_for_clarification : Env → Text → Text → World → World
unfolding log change_task trim_space
pause_for_clarification e task_id raw w =
    let trimmed = trim_space raw in
    let question = if is_nil trimmed then default_clarification_question else trimmed in
    change_task e task_id (paused_task e question)
      (log e task_id (text_of "需求不明确，Gardener 已暂停并向用户反问。") w)
