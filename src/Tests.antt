-- ===== src/Tests.antt =====
-- A task with its run, and the theorems at this concrete state of the program.
mod OrchestratorTests
mod StoreTests
mod TextTests
mod ViewTests
mod CreationTests
mod ProxyTests
use auto_gardener.Base.{[], false, none, some, true, ◌∷◌}
use auto_gardener.Hub.{new_event_hub}
use auto_gardener.Models.{AppSettings, Env, GardenerPlan, Task, Tree, TreePlan, finished, running}
use auto_gardener.Orchestrator.{Run, World}
use auto_gardener.Store.{Store}
use auto_gardener.Text.{Text}

-- A whole word of one letter.
abbrev pub task_name : Text
task_name = b't' ∷ []

abbrev pub old_name : Text
old_name = b'o' ∷ []

abbrev pub env : Env
env = record {
  now = 7_200_000_000_000;
  utc_offset = 28800;
  getenv = λ key. [];
  persists = λ id. true;
  settings_persist = true;
  removes = true;
  suffix = λ n. b'x' ∷ [];
}

abbrev pub tree_a : Tree
tree_a = record {
  id = b'a' ∷ [];
  task_id = task_name;
  forest = 1;
  name = b'n' ∷ [];
  objective = b'n' ∷ [];
  prompt = b'n' ∷ [];
  scope = [];
  is_validation = false;
  status = running;
  progress = [];
  fruit_path = b'/' ∷ b'f' ∷ [];
  goal_path = b'/' ∷ b'g' ∷ [];
  started_at = some 3_000_000_000_000;
  completed_at = none;
  updated_at = 3_000_000_000_000;
}

abbrev pub tree_b : Tree
tree_b = record tree_a { id = b'b' ∷ []; status = finished }

abbrev pub task : Task
task = record {
  id = task_name;
  title = task_name;
  prompt = task_name;
  workspace_path = b'/' ∷ b'w' ∷ [];
  scratch_path = [];
  cli_engine = [];
  model_mode = [];
  status = running;
  gardener_status = running;
  forest = 1;
  max_trees_per_forest = 2;
  max_concurrent_trees = 2;
  stop_requested = false;
  awaiting_user_input = false;
  schedule_path = [];
  log_path = b'/' ∷ b'l' ∷ [];
  trees = tree_a ∷ tree_b ∷ [];
  messages = [];
  gardener_progress = [];
  last_progress_at = none;
  last_watchdog_at = none;
  runtime = none;
  created_at = 1_000_000_000_000;
  updated_at = 3_000_000_000_000;
}

abbrev pub settings : AppSettings
settings = record {
  log_level = b'n' ∷ [];
  model_mode = b'k' ∷ [];
  cli_engine = b'c' ∷ [];
  minimax_token = b's' ∷ [];
  kimi_token = [];
  minimax_token_configured = false;
  kimi_token_configured = false;
}

abbrev pub store : Store
store = record { tasks = (task_name, task) ∷ []; hub = new_event_hub; settings = settings }

abbrev pub old_key : Text
old_key = b't' ∷ b':' ∷ b'o' ∷ []

abbrev pub old_run : Run
old_run = record {
  task_id = task_name;
  run_id = old_name;
  key = old_key;
  context = 0;
  instruction = [];
}

abbrev pub world : World
world = record {
  store = store;
  active_runs = (task_name, old_name) ∷ [];
  cancels = (old_key, 0) ∷ [];
  cancelled = [];
  next_context = 1;
}

abbrev pub tree_plan : TreePlan
tree_plan = record { name = []; objective = []; prompt = []; scope = [] }

abbrev pub plan : GardenerPlan
plan = record {
  message_to_user = b'm' ∷ [];
  forest_finished = false;
  needs_clarification = false;
  clarification_question = [];
  trees = tree_plan ∷ tree_plan ∷ tree_plan ∷ [];
}

abbrev pub last_plan : GardenerPlan
last_plan = record plan { forest_finished = true; trees = [] }
