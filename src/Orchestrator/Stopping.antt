-- ===== src/Orchestrator/Stopping.antt =====
-- What stopping and deleting a task leave.
use auto_gardener.Base.{
  Bool, List, [], any, ap, arith, false, if◌then◌else◌, map, none, refl, some, true, ℕ, ◌==◌, ◌∙◌,
  ◌∷◌, ◌≡◌,
}
use auto_gardener.Base.Dict.{lookup}
use auto_gardener.Models.{Env, Status, Task, Tree, finished, is_running}
use auto_gardener.Orchestrator.{
  World, belongs_to, cancel_task_processes, contexts_of, is_cancelled, log, remove_task, stop_task,
  stop_tree, stopped_task,
}
use auto_gardener.Orchestrator.Client.{work_of}
use auto_gardener.Orchestrator.Forest.Ending.{log-IsPresent}
use auto_gardener.Orchestrator.Registry.{any-append, contexts_of-lookup}
use auto_gardener.Store.Lookup.{delete_task_lem}
use auto_gardener.Store.Observe.{found-IsPresent, observe, observe-set}
use auto_gardener.Text.{Text, text_eq}
use auto_gardener.Text.Laws.{text_key}

any_running : List Tree → Bool
any_running = any λ (tree : Tree). is_running tree.status

stop_tree-finished :
    (e : Env) (path : Text → Text) (tree : Tree) → is_running (stop_tree e path tree).status ≡ false
unfolding stop_tree
stop_tree-finished e path tree = ground arith

stop_trees-finished :
    (e : Env) (path : Text → Text) (trees : List Tree)
    → any_running (map (stop_tree e path) trees) ≡ false
unfolding any_running
stop_trees-finished e path [] = refl
stop_trees-finished e path (tree ∷ more) =
    rw (stop_tree-finished e path tree) (stop_trees-finished e path more)

-- What a client sees of a stopped task: its states, its flags, and whether a tree is running.
abbrev pub stopped_view : Task → (Status × Status × Bool × Bool) × Bool
stopped_view t = (work_of t, any (λ (tree : Tree). is_running tree.status) t.trees)

-- A stopped task is finished and marked as stopped, waits for no answer and has no running tree,
-- even where the write to disk fails, and a context that the registry holds under a key of the task
-- is cancelled.
pub stop_task_lem :
    (e : Env) (path : Text → Text) (task_id key : Text) (c : ℕ) (w : World) (t : Task)
    → lookup task_id w.store.tasks ≡ some t
    → lookup key w.cancels ≡ some c
    → belongs_to task_id key ≡ true
    → let w' = (stop_task e path task_id w).0 in
      (observe stopped_view task_id w'.store ≡ some ((finished, finished, true, false), false))
      × (is_cancelled c w' ≡ true)
unfolding stop_task stopped_task cancel_task_processes is_cancelled any_running log
stop_task_lem e path task_id key c w t p h b = (
  observe-set stopped_view ((finished, finished, true, false), false) e task_id
      (stopped_task e path) _
      (λ u. ap (λ b. ((finished, finished, true, false), b)) (stop_trees-finished e path u.trees))
      (log-IsPresent e task_id _ w (found-IsPresent task_id w.store t p)),
  any-append (λ d. c == d) (contexts_of task_id w.cancels) w.cancelled
      ∙ rw (contexts_of-lookup task_id key c w.cancels h b) refl,
)

-- A deleted task is gone whether or not its files could be removed, the other tasks are as they
-- were, and a context that the registry holds under a key of the task is cancelled.
pub remove_task_lem :
    (e : Env) (task_id key : Text) (c : ℕ) (w : World)
    → lookup key w.cancels ≡ some c
    → belongs_to task_id key ≡ true
    → let w' = (remove_task e task_id w).0 in
      ((j : Text)
        → lookup j w'.store.tasks ≡ (if text_eq task_id j then none else lookup j w.store.tasks))
      × (is_cancelled c w' ≡ true)
unfolding remove_task cancel_task_processes is_cancelled
remove_task_lem e task_id key c w h b = (
  (λ j. (delete_task_lem e task_id j w.store).0),
  any-append (λ d. c == d) (contexts_of task_id w.cancels) w.cancelled
      ∙ rw (contexts_of-lookup task_id key c w.cancels h b) refl,
)
