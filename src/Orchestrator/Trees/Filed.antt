-- ===== src/Orchestrator/Trees/Filed.antt =====
-- What is left of a tree when its CLI call is over.
use auto_gardener.Base.{Option, none, refl, some, ℕ, ◌∙◌, ◌≡◌}
use auto_gardener.Base.Dict.{lookup, lookup-remove}
use auto_gardener.Models.{Env, Tree, finished}
use auto_gardener.Orchestrator.{Run, World, unregister_cancel}
use auto_gardener.Orchestrator.Attempts.{CliResult}
use auto_gardener.Orchestrator.Trees.{Report, end_tree, ended_tree, noted, tree_key}
use auto_gardener.Store.{Store}
use auto_gardener.Store.Trees.{HasTree, HasTree-append_tree_progress, HasTree-update_tree}
use auto_gardener.Text.{Text}
use auto_gardener.Text.Laws.{text_eq_refl, text_key}

-- The tree is finished and has its report.
abbrev pub IsReported : Env → Text → Tree → Type 0
IsReported e path tree =
    (tree.status ≡ finished) × (tree.completed_at ≡ some e.now) × (tree.fruit_path ≡ path)

noted-HasTree :
    (e : Env) (task_id tree_id : Text) (problem : Option Text) (s : Store)
    → HasTree (λ _. Unit {0}) task_id tree_id s
    → HasTree (λ _. Unit {0}) task_id tree_id (noted e task_id tree_id problem s)
unfolding noted
noted-HasTree e task_id tree_id none s h = h
noted-HasTree e task_id tree_id (some text) s h =
    HasTree-append_tree_progress (λ _. Unit {0}) e task_id tree_id _ s (λ tree rows p. tt) h

-- When the CLI call of a tree is over, however it went, the tree is finished, with the time and the
-- path of its report, and its cancel function is no longer in the registry.
pub end_tree_lem :
    (e : Env) (run : Run) (context : ℕ) (tree_id : Text) (result : CliResult) (report : Report)
    (w : World)
    → HasTree (λ _. Unit {0}) run.task_id tree_id w.store
    → let w' = end_tree e run context tree_id result report w in
      HasTree (IsReported e report.path) run.task_id tree_id w'.store
      × (lookup (tree_key run.task_id tree_id) w'.cancels ≡ none)
unfolding end_tree ended_tree unregister_cancel
end_tree_lem e run context tree_id result report w h = (
  HasTree-append_tree_progress (IsReported e report.path) e run.task_id tree_id _ _
      (λ tree rows p. p)
      (HasTree-update_tree (λ _. Unit {0}) (IsReported e report.path) e run.task_id tree_id _ _
        (λ tree. refl) (λ tree p. (refl, refl, refl))
        (noted-HasTree e run.task_id tree_id report.problem w.store h)),
  lookup-remove (tree_key run.task_id tree_id) (tree_key run.task_id tree_id) w.cancels
      ∙ rw (text_eq_refl (tree_key run.task_id tree_id)) refl,
)
