-- ===== src/Api/Routes.antt =====
-- handleTaskSubroutes of internal/app/server.go: what a request under /api/tasks/ does and answers.
-- The body is given as its decoder leaves it, and files and usage reports as what is asked for. A
-- stream of events is its subscription; what it then sends, and its end, come later. A response
-- writer that cannot flush is left out.
pub mod Reading
use auto_gardener.Api.{public_task, public_tree, valid_api_task_id}
use auto_gardener.Base.{
  List, Option, [], if◌then◌else◌, is_nil, none, not, some, ℕ, ◌&&◌, ◌==◌, ◌∷◌,
}
use auto_gardener.Hub.{subscribe}
use auto_gardener.Models.{Env, Task, TaskRuntime, Tree}
use auto_gardener.Orchestrator.{
  Run, World, remove_task, rename_task, resume_task, send_message, stop_task,
}
use auto_gardener.Orchestrator.Watchdog.{resumed}
use auto_gardener.Store.{Failure, Result, err, find_tree, get_task, not_found, ok}
use auto_gardener.Text.{Text, text_eq, text_of, trim_prefix, trim_space}
use auto_gardener.Text.Split.{split_on, trim_by}

pub record ApiRequest : Type 0 where
  pub method : Text
  pub path : Text
  pub body : Option Text
  pub file_query : Text

-- A failure comes with its status.
pub data ApiReply : Type 0 where
  unknown_route bad_task_id wrong_method bad_json deleted_task too_many_streams : ApiReply
  failed_with : ℕ → Failure → ApiReply
  shown_task : Task → ApiReply
  shown_tree : Tree → ApiReply
  shown_runtime : Option TaskRuntime → ApiReply
  event_stream : Task → ℕ → ApiReply
  usage_report : Text → ApiReply
  workspace_list : Task → ApiReply
  workspace_file : Task → Text → ApiReply
  markdown : Text → ApiReply

pub record RouteOutcome : Type 0 where
  pub world : World
  pub started : Option Run
  pub reply : ApiReply

abbrev pub answer_only : World → ApiReply → RouteOutcome
answer_only w reply = record { world = w; started = none; reply = reply }

-- The status of a failure: 404 for a missing task, and otherwise the one given.
unfoldable pub failure_reply : ℕ → Failure → ApiReply
failure_reply status not_found = failed_with 404 not_found
failure_reply status f = failed_with status f

pub changed_task : Result Task → ApiReply
unfolding failure_reply public_task
changed_task (ok t) = shown_task (public_task t)
changed_task (err f) = failure_reply 400 f

found_task : (Task → ApiReply) → Option Task → ApiReply
unfolding failure_reply
found_task show none = failed_with 404 not_found
found_task show (some t) = show t

module _ (e : Env) (stop_tree_path : Text → Text) where
  rename_route : Text → Option Text → World → RouteOutcome
  unfolding changed_task
  rename_route id none w = answer_only w bad_json
  rename_route id (some title) w =
      let (w', r) = rename_task e id title w in answer_only w' (changed_task r)

  deleted_answer : Result (Unit {0}) → ApiReply
  unfolding failure_reply
  deleted_answer (ok _) = deleted_task
  deleted_answer (err f) = failure_reply 500 f

  -- /api/tasks/<id>
  pub task_route : ApiRequest → Text → World → RouteOutcome
  unfolding rename_route deleted_answer found_task public_task text_eq text_of
  task_route r id w =
      let (w', gone) = remove_task e id w in
      if text_eq r.method (text_of "GET")
      then answer_only w (found_task (λ t. shown_task (public_task t)) (get_task e id w.store))
      else if text_eq r.method (text_of "PATCH")
      then rename_route id r.body w
      else if text_eq r.method (text_of "DELETE")
      then answer_only w' (deleted_answer gone)
      else answer_only w wrong_method

  message_route : Text → Option Text → World → RouteOutcome
  unfolding changed_task
  message_route id none w = answer_only w bad_json
  message_route id (some content) w =
      let out = send_message e id content w in
      record { world = out.world; started = out.started; reply = changed_task out.answer }

  file_reply : Text → Task → ApiReply
  unfolding trim_space
  file_reply query t =
      let rel = trim_space query in if is_nil rel then workspace_list t else workspace_file t rel

  -- handleEvents up to its first event: the channel that is subscribed, and the task that is shown.
  pub handle_events : Text → World → RouteOutcome
  unfolding public_task
  handle_events id w =
      let (hub, channel) = subscribe id w.store.hub in
      let w' = record w { store = record w.store { hub = hub } } in
      elim (get_task e id w.store) [
        | none ↦ answer_only w (failed_with 404 not_found)
        | some t ↦ answer_only w' (elim channel [
          | none ↦ too_many_streams
          | some ident ↦ event_stream (public_task t) ident
        ])
      ]

  -- /api/tasks/<id>/<name> with GET
  pub read_route : ApiRequest → Text → Text → World → RouteOutcome
  unfolding handle_events found_task file_reply text_eq text_of
  read_route r id name w =
      if text_eq name (text_of "events")
      then handle_events id w
      else if text_eq name (text_of "diagnostics")
      then answer_only w (found_task (λ t. shown_runtime t.runtime) (get_task e id w.store))
      else if text_eq name (text_of "usage")
      then answer_only w (found_task (λ t. usage_report id) (get_task e id w.store))
      else if text_eq name (text_of "files")
      then answer_only w (found_task (file_reply r.file_query) (get_task e id w.store))
      else answer_only w unknown_route

  -- /api/tasks/<id>/<name> with POST
  act_route : ApiRequest → Text → Text → World → RouteOutcome
  unfolding message_route changed_task text_eq text_of
  act_route r id name w =
      let (stopped_world, stopped_answer) = stop_task e stop_tree_path id w in
      let resumed = resume_task e id w in
      if text_eq name (text_of "messages")
      then message_route id r.body w
      else if text_eq name (text_of "stop")
      then answer_only stopped_world (changed_task stopped_answer)
      else if text_eq name (text_of "resume")
      then record {
        world = resumed.world;
        started = resumed.started;
        reply = changed_task resumed.answer;
      }
      else answer_only w unknown_route

  pub name_route : ApiRequest → Text → Text → World → RouteOutcome
  unfolding read_route act_route text_eq text_of
  name_route r id name w =
      if text_eq r.method (text_of "GET")
      then read_route r id name w
      else if text_eq r.method (text_of "POST")
      then act_route r id name w
      else answer_only w unknown_route

  gardener_reply : Text → Task → ApiReply
  unfolding text_eq text_of
  gardener_reply name t =
      if text_eq name (text_of "schedule.md")
      then markdown t.schedule_path
      else if text_eq name (text_of "log.md")
      then markdown t.log_path
      else unknown_route

  tree_reply : Result Tree → ApiReply
  unfolding public_tree
  tree_reply (ok tree) = shown_tree (public_tree tree)
  tree_reply (err f) = failed_with 404 f

  fruit_reply : Result Tree → ApiReply
  fruit_reply (ok tree) =
      if is_nil tree.fruit_path then failed_with 404 not_found else markdown tree.fruit_path
  fruit_reply (err f) = failed_with 404 f

  -- /api/tasks/<id>/<kind>/<name> with GET
  deep_route : Text → Text → Text → World → ApiReply
  unfolding gardener_reply tree_reply found_task text_eq text_of
  deep_route id kind name w =
      if text_eq kind (text_of "gardener")
      then found_task (gardener_reply name) (get_task e id w.store)
      else if text_eq kind (text_of "trees")
      then tree_reply (find_tree e id name w.store)
      else unknown_route

  route_parts : ApiRequest → Text → List Text → World → RouteOutcome
  unfolding task_route name_route deep_route fruit_reply text_eq text_of
  route_parts r id [] w = task_route r id w
  route_parts r id (name ∷ []) w = name_route r id name w
  route_parts r id (kind ∷ name ∷ []) w =
      answer_only w
        (if text_eq r.method (text_of "GET") then deep_route id kind name w else unknown_route)
  route_parts r id (kind ∷ name ∷ file ∷ []) w = answer_only w (
      if text_eq kind (text_of "trees")
        && text_eq file (text_of "fruit.md")
        && text_eq r.method (text_of "GET")
      then fruit_reply (find_tree e id name w.store)
      else unknown_route)
  route_parts r id (a ∷ b ∷ c ∷ d ∷ more) w = answer_only w unknown_route

  pub route_path : ApiRequest → List Text → World → RouteOutcome
  unfolding route_parts valid_api_task_id
  route_path r [] w = answer_only w unknown_route
  route_path r (id ∷ more) w =
      if is_nil id
      then answer_only w unknown_route
      else if not (valid_api_task_id id)
      then answer_only w bad_task_id
      else route_parts r id more w

  unfoldable pub handle_task_subroutes : ApiRequest → World → RouteOutcome
  unfolding route_path trim_by split_on trim_prefix text_of
  handle_task_subroutes r w =
      route_path r
        (split_on b'/' (trim_by (λ c. c == b'/') (trim_prefix r.path (text_of "/api/tasks/")))) w
