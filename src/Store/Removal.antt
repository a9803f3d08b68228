-- ===== src/Store/Removal.antt =====
-- DeleteTask of internal/app/store.go with the directories it removes. `rel` and `is_abs` are
-- filepath.Rel and filepath.IsAbs; `gone` says whether os.RemoveAll succeeds on a path.
pub mod Managed
use auto_gardener.Base.{
  Bool, List, Option, [], false, if◌then◌else◌, none, not, some, true, ◌&&◌, ◌++◌, ◌||◌, ◌∷◌,
}
use auto_gardener.Base.Dict.{lookup, remove}
use auto_gardener.Models.{Task}
use auto_gardener.Orchestrator.Creation.{Paths}
use auto_gardener.Store.{Result, Store, clone_task, err, not_found, ok, remove_failed}
use auto_gardener.Text.{Text, has_prefix, is_blank, text_eq, text_of}
use auto_gardener.Text.Laws.{text_key}

-- The paths that are tried, and whether none of them failed: the first failure ends it.
pub remove_each : (Text → Bool) → List Text → List Text × Bool
remove_each gone [] = ([], true)
remove_each gone (path ∷ paths) =
    let (tried, all_gone) = remove_each gone paths in
    if gone path then (path ∷ tried, all_gone) else (path ∷ [], false)

module _ (f : Paths) (is_abs : Text → Bool) (rel : Text → Text → Option Text) where
  -- A relative path that leads further down.
  leads_down : Option Text → Bool
  unfolding text_of
  leads_down none = false
  leads_down (some r) = not (text_eq r (text_of ".") || has_prefix r (text_of "..") || is_abs r)

  -- filepath.Base(path) == taskID || strings.HasPrefix(base, taskID+"_")
  unfoldable pub names_task : Text → Text → Bool
  names_task id path = text_eq (f.base path) id || has_prefix (f.base path) (id ++ b'_' ∷ [])

  unfoldable pub is_below : Text → Text → Bool
  unfolding leads_down
  is_below root path = not (text_eq path root) && leads_down (rel root path)

  unfoldable pub should_delete_managed_workspace : Text → Text → Text → Bool
  unfolding is_below names_task is_blank text_of
  should_delete_managed_workspace data_dir id path =
      if is_blank path then false else (elim (f.abs (f.join_path data_dir (text_of "workspaces"))) [
        | none ↦ false
        | some root ↦ elim (f.abs (f.clean path)) [
          | none ↦ false
          | some place ↦ is_below root place && names_task id place
        ]
      ])

  -- The first root that the path is below decides.
  pub is_scratch_of : Text → Text → List Text → Bool
  unfolding is_below names_task
  is_scratch_of id place [] = false
  is_scratch_of id place (root_path ∷ roots) =
      let rest = is_scratch_of id place roots in
      elim (f.abs root_path) [
        | none ↦ rest
        | some root ↦ if is_below root place then names_task id place else rest
      ]

  pub scratch_roots : Text → List Text
  unfolding text_of
  scratch_roots data_dir =
      f.join_path f.temp_dir (text_of "GardenerScratch")
      ∷ f.join_path data_dir (text_of "scratch")
      ∷ []

  unfoldable pub should_delete_managed_scratch : Text → Text → Text → Bool
  unfolding is_scratch_of scratch_roots is_blank
  should_delete_managed_scratch data_dir id path =
      if is_blank path then false else (elim (f.abs (f.clean path)) [
        | none ↦ false
        | some place ↦ is_scratch_of id place (scratch_roots data_dir)
      ])

  unfoldable pub forest_dir : Text → Text → Text
  unfolding text_of
  forest_dir data_dir id = f.join_path (f.join_path data_dir (text_of "forests")) id

  -- The directories of a task, in the order of their removal.
  unfoldable pub task_dirs : Text → Text → Task → List Text
  unfolding should_delete_managed_workspace should_delete_managed_scratch forest_dir
  task_dirs data_dir id t =
      forest_dir data_dir id
        ∷ (if should_delete_managed_workspace data_dir id t.workspace_path
            then t.workspace_path ∷ []
            else [])
      ++ (if should_delete_managed_scratch data_dir id t.scratch_path
          then t.scratch_path ∷ []
          else [])

  -- DeleteTask, with the paths that it tries to remove.
  unfoldable pub delete_task_dirs :
      (Text → Bool) → Text → Text → Store → (Store × Result (Unit {0})) × List Text
  unfolding remove_each task_dirs clone_task
  delete_task_dirs gone data_dir id s = elim (lookup id s.tasks) [
    | none ↦ ((s, err not_found), [])
    | some t ↦
        let (tried, all_gone) = remove_each gone (task_dirs data_dir id t) in
        (
          (record s { tasks = remove id s.tasks }, if all_gone then ok tt else err remove_failed),
          tried,
        )
  ]
