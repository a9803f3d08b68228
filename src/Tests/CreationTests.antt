-- ===== src/Tests/CreationTests.antt =====
-- The theorems on the trees of a forest and on the creation of a task, at small inputs.
use auto_gardener.Api.{after_slash}
use auto_gardener.Base.{
  All, List, Option, [], any, arith, drop, false, if◌then◌else◌, length, none, not, refl, some,
  true, ◌*◌, ◌++◌, ◌+◌, ◌∷◌, ◌≡◌, ◌≤◌, ◌⊎◌,
}
use auto_gardener.Base.Dict.{lookup}
use auto_gardener.Models.{Task, TreePlan, new_id}
use auto_gardener.Orchestrator.{Run, World, is_cancelled, log, start_forest_run}
use auto_gardener.Orchestrator.Attempts.{CliResult}
use auto_gardener.Orchestrator.Creation.{
  Config, Creation, Paths, add_new_task, begin_task, chosen_workspace, create_task, created_task,
  is_allowed_workspace_path, make_scratch, make_workspace, new_config,
}
use auto_gardener.Orchestrator.Creation.Allowed.{IsCreated, create_task-IsCreated}
use auto_gardener.Orchestrator.Creation.Limits.{new_config-Turn}
use auto_gardener.Orchestrator.Forest.{is_interrupted, is_stop_requested}
use auto_gardener.Orchestrator.Trees.{Report, send_out}
use auto_gardener.Orchestrator.Trees.Slots.{
  Pool, Turn, Turns, begun, first_pool, own, sent, work_left,
}
use auto_gardener.Orchestrator.Trees.Waiting.{Turns-bounds, Turns-held}
use auto_gardener.Plan.{clarification_question_for_initial_prompt}
use auto_gardener.Store.{Store, add_task, clone_task, err, get_task, ok, remove_failed}
use auto_gardener.Store.Removal.{delete_task_dirs, task_dirs}
use auto_gardener.Store.Removal.Managed.{AllGone, IsRemovable, delete_task_dirs-IsRemovable}
use auto_gardener.Tests.{env, old_run, task, task_name, tree_plan, world}
use auto_gardener.Text.{Text, byte_length, has_prefix, text_eq, text_of, trim_space}
use auto_gardener.Text.Laws.{text_key}

abbrev one_plan : List TreePlan
one_plan = tree_plan ∷ []

abbrev no_goal_path : Text → Text
no_goal_path id = id

abbrev sent_pool : Pool
sent_pool = record (first_pool world one_plan) {
  world = (send_out env old_run no_goal_path 1 tree_plan world).0;
  plans = [];
  waiting = new_id env 0 (text_of "tree") ∷ [];
}

tree_sent :
    (send_out env old_run no_goal_path 1 tree_plan world).1 ≡ some (new_id env 0 (text_of "tree"))
unfolding send_out get_task lookup is_interrupted is_cancelled is_stop_requested text_eq clone_task
tree_sent = refl

one_turn : Turns old_run no_goal_path 1 2 (first_pool world one_plan) 1 sent_pool
one_turn = own begun (
    sent env (first_pool world one_plan) tree_plan [] (new_id env 0 (text_of "tree")) refl
      tree_sent)

abbrev no_result : CliResult
no_result = record { output = []; failure = none }

abbrev no_report : Report
no_report = record { path = []; problem = none }

Turns-bounds_example :
    (1 ≤ 3 * length one_plan)
    × (((length sent_pool.plans ≡ 0) × (length sent_pool.waiting ≡ 0) × (length sent_pool.held ≡ 0))
        ⊎ ((u : Pool) × Turn old_run no_goal_path 1 2 sent_pool u))
Turns-bounds_example =
    Turns-bounds old_run no_goal_path 1 2 env world one_plan no_result no_report (omega arith)
      one_turn

Turns-held_example : length sent_pool.held ≤ 2
Turns-held_example = Turns-held old_run no_goal_path 1 2 one_turn (omega arith)

new_config-Turn_example :
    (work_left sent_pool ≡ 0)
    ⊎ ((t : Pool) × Turn old_run no_goal_path 1 (new_config env []).max_concurrent sent_pool t)
new_config-Turn_example =
    new_config-Turn env env [] old_run no_goal_path 1 sent_pool no_result no_report

-- Paths that are joined by a slash, where each directory can be made.
abbrev paths : Paths
paths = record {
  home_dir = some (b'/' ∷ b'h' ∷ []);
  temp_dir = b'/' ∷ b't' ∷ [];
  abs = λ p. some p;
  clean = λ p. p;
  base = λ p. p;
  join_path = λ p q. p ++ (b'/' ∷ q);
  split_list = λ s. [];
  make_dir = λ p. true;
}

abbrev config : Config
config = record { data_dir = b'/' ∷ b'd' ∷ []; max_trees = 5; max_concurrent = 3 }

abbrev prompt : Text
unfolding text_of
prompt = text_of "Write the parser of the configuration files and its tests in Go"

abbrev created_world : World × Creation
created_world = create_task paths env config prompt [] world

created_it :
    created_world.1
    ≡ created_task (new_id env 0 (text_of "forest")) (
        some (record {
          task_id = new_id env 0 (text_of "forest");
          run_id = new_id env 0 (text_of "run");
          key =
              new_id env 0 (text_of "forest")
              ++ (text_of ":gardener:" ++ new_id env 0 (text_of "run"));
          context = 1;
          instruction = prompt;
        }))
unfolding create_task make_workspace make_scratch add_new_task begin_task add_task byte_length
    is_allowed_workspace_path start_forest_run clarification_question_for_initial_prompt
    chosen_workspace log
created_it = refl

abbrev created_run : Run
created_run = record {
  task_id = new_id env 0 (text_of "forest");
  run_id = new_id env 0 (text_of "run");
  key = new_id env 0 (text_of "forest") ++ (text_of ":gardener:" ++ new_id env 0 (text_of "run"));
  context = 1;
  instruction = prompt;
}

create_task-IsCreated_example :
    (place : Text) × (paths.abs
        (chosen_workspace paths (trim_space prompt) (new_id env 0 (text_of "forest")) [])
      ≡ some place)
    × (is_allowed_workspace_path paths env config place ≡ true)
    × IsCreated (new_id env 0 (text_of "forest")) (some created_run) place created_world.0
create_task-IsCreated_example =
    create_task-IsCreated paths env config prompt [] world (new_id env 0 (text_of "forest"))
      (some created_run) created_it

-- A task whose results are in a managed place, and whose scratch directory is not.
abbrev managed_task : Task
managed_task = record task {
  workspace_path = text_of "/d/workspaces/t_1";
  scratch_path = text_of "/t/else/t";
}

abbrev managed_paths : Paths
managed_paths = record paths { base = after_slash }

abbrev below_prefix : Text → Text → Option Text
below_prefix root path =
    if has_prefix path (root ++ b'/' ∷ []) then some (drop (length root + 1) path) else none

abbrev managed_store : Store
managed_store = record world.store { tasks = (task_name, managed_task) ∷ [] }

dirs_of_managed :
    task_dirs managed_paths (λ p. false) below_prefix (text_of "/d") task_name managed_task
    ≡ text_of "/d/forests/t" ∷ text_of "/d/workspaces/t_1" ∷ []
unfolding task_dirs text_of has_prefix text_eq after_slash
dirs_of_managed = refl

managed_held : lookup task_name managed_store.tasks ≡ some managed_task
unfolding lookup text_eq
managed_held = refl

delete_task_dirs-IsRemovable_example :
    let out =
      delete_task_dirs managed_paths
        (λ p. false)
        below_prefix
        (λ p. true)
        (text_of "/d")
        task_name
        managed_store in
    (lookup task_name out.0.0.tasks ≡ none)
    × All (IsRemovable managed_paths (λ p. false) below_prefix (text_of "/d") task_name) out.1
    × (out.0.1 ≡ (
        if any
          (λ (path : Text). not true)
          (task_dirs managed_paths (λ p. false) below_prefix (text_of "/d") task_name managed_task)
        then err remove_failed
        else ok tt))
    × ((out.0.1 ≡ err remove_failed)
        ⊎ ((out.1
              ≡ task_dirs managed_paths
                  (λ p. false)
                  below_prefix
                  (text_of "/d")
                  task_name
                  managed_task)
            × AllGone
                (λ p. true)
                (task_dirs managed_paths
                  (λ p. false)
                  below_prefix
                  (text_of "/d")
                  task_name
                  managed_task)))
delete_task_dirs-IsRemovable_example =
    delete_task_dirs-IsRemovable managed_paths (λ p. false) below_prefix (λ p. true) (text_of "/d")
      task_name managed_task managed_store managed_held
