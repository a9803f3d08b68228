-- ===== src/Orchestrator/Trees.antt =====
-- runTreeForest, finishTreeBeforeRun, runValidationTree and runTree of
-- internal/app/orchestrator.go, as the blocks around the CLI call of each tree. The report that
-- writeFruit and writeTreeGoal leave in files is not modelled: its path and its error are given.
pub mod Filed
pub mod Slots
pub mod Waiting
use auto_gardener.Base.{
  Bool, Option, [], false, if◌then◌else◌, none, some, true, ℕ, ◌++◌, ◌+◌, ◌||◌, ◌∷◌,
}
use auto_gardener.Models.{Env, Tree, TreePlan, finished, new_id, running}
use auto_gardener.Orchestrator.{Run, World, is_cancelled, register_cancel, unregister_cancel}
use auto_gardener.Orchestrator.Attempts.{CliResult}
use auto_gardener.Orchestrator.Forest.{is_interrupted}
use auto_gardener.Progress.{compact_progress_line}
use auto_gardener.Store.{Store, add_tree, append_tree_progress, err, find_tree, ok, update_tree}
use auto_gardener.Text.{Text, is_blank, text_of}

pub record Report : Type 0 where
  pub path : Text
  pub problem : Option Text

-- The tree of a plan.
unfoldable pub planned_tree : Env → Text → (Text → Text) → ℕ → TreePlan → Tree
unfolding text_of
planned_tree e task_id goal_path forest p =
    let id = new_id e 0 (text_of "tree") in
    record {
      id = id;
      task_id = task_id;
      forest = forest;
      name = p.name;
      objective = p.objective;
      prompt = p.prompt;
      scope = p.scope;
      is_validation = false;
      status = running;
      progress = text_of "已创建，等待并行执行槽。" ∷ [];
      fruit_path = [];
      goal_path = goal_path id;
      started_at = none;
      completed_at = none;
      updated_at = 0;
    }

-- The body of the loop of runTreeForest up to the `go` statement: the tree's identity, or nothing
-- where the loop breaks off.
unfoldable pub send_out : Env → Run → (Text → Text) → ℕ → TreePlan → World → World × Option Text
unfolding planned_tree
send_out e run goal_path forest p w =
    let tree = planned_tree e run.task_id goal_path forest p in
    if is_interrupted e run w
    then (w, none)
    else (record w { store = (add_tree e run.task_id tree w.store).0 }, some tree.id)

finished_before_run : Env → Text → Text → Tree → Tree
finished_before_run e path reason tree = record tree {
  status = finished;
  completed_at = some e.now;
  fruit_path = path;
  progress = tree.progress ++ reason ∷ [];
}

unfoldable pub finish_tree_before_run : Env → Text → Text → Text → Text → World → World
unfolding finished_before_run
finish_tree_before_run e path reason task_id tree_id w =
    let s' = (update_tree e task_id tree_id (finished_before_run e path reason) w.store).0 in
    elim (find_tree e task_id tree_id w.store) [ err f ↦ w | ok tree ↦ record w { store = s' } ]

pub tree_key : Text → Text → Text
tree_key task_id tree_id = task_id ++ (b':' ∷ tree_id)

begun_tree : Env → Text → Tree → Tree
begun_tree e goal_path tree = record tree {
  status = running;
  started_at = some e.now;
  goal_path = if is_blank tree.goal_path then goal_path else tree.goal_path;
  progress = tree.progress ++ text_of "开始处理。" ∷ [];
}

-- Up to the CLI call: the context that runTree makes for the tree.
unfoldable pub begin_tree : Env → (Text → Text) → Text → Text → World → World × Option ℕ
unfolding tree_key begun_tree text_of
begin_tree e goal_path task_id tree_id w =
    let c = w.next_context in
    let w' = register_cancel (tree_key task_id tree_id) c (record w { next_context = c + 1 }) in
    let s' = (update_tree e task_id tree_id (begun_tree e (goal_path tree_id)) w'.store).0 in
    elim (find_tree e task_id tree_id w.store) [
      | err f ↦ (w, none)
      | ok tree ↦ (
        record w' { store = append_tree_progress e task_id tree_id (text_of "开始处理。") s' },
        some c,
      )
    ]

unfoldable pub tree_error_progress_line : Text → Text
unfolding text_of
tree_error_progress_line text = compact_progress_line (text_of "处理结束，但有异常：" ++ text)

-- result.Err, once the context of the tree has been looked at.
tree_failure : Bool → Option Text → Option Text
tree_failure gone (some text) = some text
tree_failure true none = some (text_of "context canceled")
tree_failure false none = none

ended_tree : Env → Text → Option Text → Tree → Tree
unfolding tree_error_progress_line
ended_tree e path failure tree = record tree {
  status = finished;
  completed_at = some e.now;
  fruit_path = path;
  progress =
      tree.progress
      ++ (elim failure [ some text ↦ tree_error_progress_line text | none ↦ text_of "处理完成，成果已生成。" ])
        ∷ [];
}

noted : Env → Text → Text → Option Text → Store → Store
noted e task_id tree_id none s = s
noted e task_id tree_id (some text) s =
    append_tree_progress e task_id tree_id (text_of "保存成果失败：" ++ text) s

-- After the CLI call, with the deferred cancel and unregisterCancel. The context of the tree is
-- cancelled with the one of its run.
unfoldable pub end_tree : Env → Run → ℕ → Text → CliResult → Report → World → World
unfolding tree_key tree_failure ended_tree noted text_of
end_tree e run context tree_id result report w =
    let failure =
      tree_failure (is_cancelled run.context w || is_cancelled context w) result.failure in
    let s = noted e run.task_id tree_id report.problem w.store in
    let s' = (update_tree e run.task_id tree_id (ended_tree e report.path failure) s).0 in
    unregister_cancel (tree_key run.task_id tree_id) (record w {
      store = append_tree_progress e run.task_id tree_id (text_of "已完成。") s';
      cancelled = context ∷ w.cancelled;
    })
