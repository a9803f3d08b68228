-- ===== src/Store.antt =====
-- internal/app/store.go: the tasks in memory, the hub and the settings. A method takes the store
-- and returns the new one beside its result. The mutex makes each method one step. Files are not
-- modelled: `Env.persists`, `settings_persist` and `removes` say whether their writes succeed.
pub mod Lookup
pub mod Trees
pub mod Settled
pub mod Observe
pub mod Invariant
pub mod Disk
pub mod Refinement
pub mod Removal
use auto_gardener.Base.{
  Bool, List, Option, [], any, false, filter_by, find_first, if◌then◌else◌, is_nil, ltb, map, none,
  some, true, ◌&&◌, ◌++◌, ◌∷◌,
}
use auto_gardener.Base.Dict.{insert, lookup, remove}
use auto_gardener.Base.Sort.{sort_by}
use auto_gardener.Hub.{Hub, publish}
use auto_gardener.Models.{AppSettings, Env, Task, Tree, is_running}
use auto_gardener.Progress.{append_progress, compact_progress_line}
use auto_gardener.Runtime.{build_task_runtime}
use auto_gardener.Settings.{
  merge_settings, normalize_cli_engine, normalize_model_mode, normalize_settings,
}
use auto_gardener.Text.{Text, text_eq}
use auto_gardener.Text.Laws.{text_key}

pub data Failure : Type 0 where
  not_found persist_failed remove_failed empty_text text_too_long awaiting_answer : Failure

-- Go's pair of a value and an error.
pub data Result {ℓ} (A : Type ℓ) : Type ℓ where
  ok : A → Result A
  err : Failure → Result A

pub record Store : Type 0 where
  pub tasks : List (Text × Task)
  pub hub : Hub
  pub settings : AppSettings

-- cloneTask: a value is its own copy, so what is left is the runtime summary.
unfoldable pub clone_task : Env → Task → Task
clone_task e t = record t { runtime = some (build_task_runtime e t) }

publish_task : Env → Text → Task → Store → Store
publish_task e id t s = record s { hub = publish id (clone_task e t) s.hub }

unfoldable pub add_task : Env → Task → Store → Store × Result (Unit {0})
unfolding publish_task
add_task e t s =
    let t' = record t { created_at = e.now; updated_at = e.now } in
    let s' = record s { tasks = insert t'.id t' s.tasks } in
    if e.persists t'.id then (publish_task e t'.id t' s', ok tt) else (s', err persist_failed)

created_after : Task → Task → Bool
created_after a b = ltb b.created_at a.created_at

values : List (Text × Task) → List Task
values [] = []
values ((k, t) ∷ m) = t ∷ values m

-- The newest task first.
unfoldable pub list_tasks : Env → Store → List Task
unfolding values created_after sort_by
list_tasks e s = sort_by created_after (map (clone_task e) (values s.tasks))

unfoldable pub list_running_tasks : Env → Store → List Task
unfolding values created_after sort_by
list_running_tasks e s =
    sort_by created_after
      (map (clone_task e) (filter_by (λ (t : Task). is_running t.status) (values s.tasks)))

unfoldable pub get_task : Env → Text → Store → Option Task
get_task e id s = elim (lookup id s.tasks) [ none ↦ none | some t ↦ some (clone_task e t) ]

unfoldable pub delete_task : Env → Text → Store → Store × Result (Unit {0})
delete_task e id s = elim (lookup id s.tasks) [
  | none ↦ (s, err not_found)
  | some t ↦
      (record s { tasks = remove id s.tasks }, if e.removes then ok tt else err remove_failed)
]

-- The task is changed in memory before it is written, and stays changed if the write fails.
pub write_task : Env → Text → Task → Store → Store × Result Task
unfolding publish_task
write_task e id t s =
    let s' = record s { tasks = insert id t s.tasks } in
    if e.persists t.id
    then (publish_task e id t s', ok (clone_task e t))
    else (s', err persist_failed)

unfoldable pub update_task : Env → Text → (Task → Task) → Store → Store × Result Task
unfolding write_task
update_task e id fn s = elim (lookup id s.tasks) [
  | none ↦ (s, err not_found)
  | some t ↦ write_task e id (record (fn t) { updated_at = e.now }) s
]

unfoldable pub add_tree : Env → Text → Tree → Store → Store × Result Task
add_tree e task_id tree =
    update_task e task_id
      λ t. record t { trees = t.trees ++ record tree { updated_at = e.now } ∷ [] }

-- The first tree with the identity.
change_tree : Text → (Tree → Tree) → List Tree → List Tree
change_tree tree_id fn [] = []
change_tree tree_id fn (tree ∷ more) =
    let rest = tree ∷ change_tree tree_id fn more in
    if text_eq tree.id tree_id then fn tree ∷ more else rest

-- What UpdateTree does to the task: nothing where the tree is missing.
pub with_tree : Env → Text → (Tree → Tree) → Task → Task
unfolding change_tree
with_tree e tree_id fn t =
    if any (λ (tree : Tree). text_eq tree.id tree_id) t.trees
    then record t {
      trees = change_tree tree_id (λ tree. record (fn tree) { updated_at = e.now }) t.trees;
      last_progress_at = some e.now;
    }
    else t

unfoldable pub update_tree : Env → Text → Text → (Tree → Tree) → Store → Store × Result Task
unfolding with_tree
update_tree e task_id tree_id fn = update_task e task_id (with_tree e tree_id fn)

unfoldable pub find_tree : Env → Text → Text → Store → Result Tree
find_tree e task_id tree_id s = elim (get_task e task_id s) [
  | none ↦ err not_found
  | some t ↦ elim (find_first (λ (tree : Tree). text_eq tree.id tree_id) t.trees) [
    | none ↦ err not_found
    | some tree ↦ ok tree
  ]
]

unfoldable pub append_tree_progress : Env → Text → Text → Text → Store → Store
append_tree_progress e task_id tree_id raw s =
    let line = compact_progress_line raw in
    if is_nil line
    then s
    else (update_tree e task_id tree_id
        (λ tree. record tree { progress = append_progress e line tree.progress }) s).0

-- The log of a task that is there. Nothing is written to the task's own files.
log_line : Env → Text → Text → Task → Store → Store
unfolding publish_task
log_line e task_id line t s =
    let t' = record t {
      gardener_progress = append_progress e line t.gardener_progress;
      last_progress_at = some e.now;
      updated_at = e.now;
    } in
    publish_task e task_id t' (record s { tasks = insert task_id t' s.tasks })

unfoldable pub append_gardener_log : Env → Text → Text → Store → Store
unfolding log_line
append_gardener_log e task_id raw s =
    let line = compact_progress_line raw in
    if is_nil line
    then s
    else elim (lookup task_id s.tasks) [ none ↦ s | some t ↦ log_line e task_id line t s ]

-- WriteSchedule and AppendSchedule: the file is written, and a snapshot is published.
unfoldable pub append_schedule : Env → Text → Store → Store × Result (Unit {0})
unfolding publish_task
append_schedule e task_id s = elim (get_task e task_id s) [
  | none ↦ (s, err not_found)
  | some t ↦
      if e.persists task_id then (publish_task e task_id t s, ok tt) else (s, err persist_failed)
]

-- applySettingsRuntimeToTasksLocked over the tasks that are left.
unfoldable pub runs_under : AppSettings → Task → Bool
unfolding text_eq
runs_under settings t =
    text_eq (normalize_cli_engine t.cli_engine) settings.cli_engine
    && text_eq (normalize_model_mode t.model_mode) settings.model_mode

switch_runtime : Env → AppSettings → Task → Task
switch_runtime e settings t = record t {
  cli_engine = settings.cli_engine;
  model_mode = settings.model_mode;
  updated_at = e.now;
}

switch_task : Env → AppSettings → Text → Task → Store → Store × Bool
unfolding runs_under switch_runtime publish_task
switch_task e settings id t s =
    let t' = switch_runtime e settings t in
    let s' = record s { tasks = insert id t' s.tasks } in
    if runs_under settings t
    then (s, true)
    else if e.persists t'.id
    then (publish_task e id t' s', true)
    else (s', false)

pub switch_tasks : Env → AppSettings → List (Text × Task) → Store → Store × Bool
unfolding switch_task
switch_tasks e settings [] s = (s, true)
switch_tasks e settings ((id, t) ∷ more) s =
    let (s', written) = switch_task e settings id t s in
    elim written [ true ↦ switch_tasks e settings more s' | false ↦ (s', false) ]

unfoldable pub update_settings : Env → AppSettings → Store → Store × Result AppSettings
unfolding switch_tasks
update_settings e submitted s =
    let settings = merge_settings e s.settings submitted in
    let s' = record s { settings = settings } in
    if e.settings_persist
    then (let (s'', written) = switch_tasks e (normalize_settings e settings) s'.tasks s' in
        (s'', if written then ok settings else err persist_failed))
    else (s', err persist_failed)

unfoldable pub get_settings : Env → Store → AppSettings
get_settings e s = normalize_settings e s.settings
