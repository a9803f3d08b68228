-- ===== src/Api/Listing.antt =====
-- listWorkspaceFiles of internal/app/server.go. What filepath.WalkDir visits is given as a value, in
-- its order; the separator is a slash, and a time of a file is in nanoseconds.
pub mod Kept
use auto_gardener.Api.{
  intersects_string, is_hidden_or_noise_file, is_sensitive_workspace_file, text_before,
  tree_ids_for_forest,
}
use auto_gardener.Api.Scopes.{matching_tree_ids, tree_scope_matchers}
use auto_gardener.Base.{
  Bool, List, Option, [], any, false, if◌then◌else◌, is_nil, leb, length, ltb, none, not, some, ℕ,
  ◌&&◌, ◌++◌, ◌+◌, ◌||◌, ◌∷◌,
}
use auto_gardener.Base.Sort.{sort_by}
use auto_gardener.Models.{Env, Task}
use auto_gardener.Orchestrator.Creation.{Paths}
use auto_gardener.Store.{Store, list_tasks}
use auto_gardener.Text.{Text, has_prefix, is_blank, text_eq, text_of, trim_space}

-- The entries of a directory: one that cannot be read, a directory with its entries, or a file with
-- its size and time where they can be read. Each is followed by the others.
pub data Walk : Type 0 where
  no_entry : Walk
  unreadable : Walk → Walk
  dir_entry : Text → Text → Walk → Walk → Walk
  file_entry : Text → Option (ℕ × ℕ) → Walk → Walk

pub record WorkspaceFileEntry : Type 0 where
  pub path : Text
  pub size : ℕ
  pub mod_time : ℕ
  pub tree_ids : List Text

-- What a request asks for, after its values are trimmed.
pub record FileFilter : Type 0 where
  pub tree : Text
  pub forest_tree_ids : List Text
  pub matches : List (Text × List Text)

unfoldable contains_string : List Text → Text → Bool
unfolding text_eq
contains_string items target = any (text_eq target) items

unfoldable pub passes : FileFilter → List Text → Bool
unfolding contains_string intersects_string
passes q tree_ids =
    if not (is_nil q.tree)
    then contains_string tree_ids q.tree
    else is_nil q.forest_tree_ids || intersects_string tree_ids q.forest_tree_ids

abbrev pub max_listed_files : ℕ
max_listed_files = 500

skipped_names : List Text
unfolding text_of
skipped_names =
    text_of ".git"
    ∷ text_of "node_modules"
    ∷ text_of ".next"
    ∷ text_of "dist"
    ∷ text_of "build"
    ∷ text_of "vendor"
    ∷ []

module _ (f : Paths) (rel : Text → Text → Option Text) where
  is_root_of : Text → Text → Option Text → Bool
  unfolding text_eq
  is_root_of current_root candidate none = false
  is_root_of current_root candidate (some other_root) =
      not (text_eq other_root current_root) && text_eq candidate other_root

  is_other_root : Task → Text → Text → Task → Bool
  unfolding is_root_of is_blank text_eq
  is_other_root current current_root candidate other_task =
      not (text_eq other_task.id current.id)
      && not (is_blank other_task.workspace_path)
      && is_root_of current_root candidate (f.abs (f.clean other_task.workspace_path))

  unfoldable pub is_other_task_workspace_root : Env → Task → Text → Text → Store → Bool
  unfolding is_other_root
  is_other_task_workspace_root e current current_root candidate s =
      elim (f.abs (f.clean candidate)) [
        | none ↦ false
        | some candidate_abs ↦ elim (f.abs (f.clean current_root)) [
          | none ↦ false
          | some root_abs ↦ any (is_other_root current root_abs candidate_abs) (list_tasks e s)
        ]
      ]

  -- Files that were there two minutes before the task are left out where the task works elsewhere.
  is_older_file : Task → ℕ → Bool
  unfolding is_blank text_eq
  is_older_file t mod_time =
      not (is_blank t.scratch_path)
      && not (text_eq (f.clean t.scratch_path) (f.clean t.workspace_path))
      && ltb (mod_time + 120_000_000_000) t.created_at

  listed_as : FileFilter → ℕ → ℕ → Text → List WorkspaceFileEntry → List WorkspaceFileEntry
  unfolding passes matching_tree_ids is_hidden_or_noise_file is_sensitive_workspace_file has_prefix
      text_of
  listed_as q size mod_time path files =
      let tree_ids = matching_tree_ids path q.matches in
      if has_prefix path (text_of "..")
      then files
      else if is_hidden_or_noise_file path || is_sensitive_workspace_file path
      then files
      else if not (passes q tree_ids)
      then files
      else files
        ++ record { path = path; size = size; mod_time = mod_time; tree_ids = tree_ids } ∷ []

  pub visit_file :
      Task
      → FileFilter
      → Text
      → Text
      → Option (ℕ × ℕ)
      → List WorkspaceFileEntry
      → List WorkspaceFileEntry
  unfolding listed_as is_older_file
  visit_file t q root path none files = files
  visit_file t q root path (some (size, mod_time)) files =
      if is_older_file t mod_time then files else (elim (rel root path) [
        | none ↦ files
        | some rel_path ↦ listed_as q size mod_time rel_path files
      ])

  unfoldable pub skips_dir : Env → Task → Store → Text → Text → Text → Bool
  unfolding skipped_names is_other_task_workspace_root text_eq
  skips_dir e t s root name path =
      any (text_eq name) skipped_names
      || not (text_eq path root) && is_other_task_workspace_root e t root path s

  -- Once 500 files are listed, fs.SkipAll ends the walk.
  pub walk_dir :
      Env
      → Task
      → Store
      → FileFilter
      → Text
      → Walk
      → List WorkspaceFileEntry
      → List WorkspaceFileEntry
  unfolding visit_file skips_dir
  walk_dir e t s q root no_entry files = files
  walk_dir e t s q root (unreadable more) files = walk_dir e t s q root more files
  walk_dir e t s q root (dir_entry name path below more) files =
      let inner = walk_dir e t s q root below files in
      walk_dir e t s q root more (if skips_dir e t s root name path then files else inner)
  walk_dir e t s q root (file_entry path info more) files =
      walk_dir e t s q root more
        (if leb max_listed_files (length files) then files else visit_file t q root path info files)

  pub file_filter : Task → Text → Text → FileFilter
  unfolding tree_ids_for_forest tree_scope_matchers trim_space
  file_filter t tree_query forest_query = record {
    tree = trim_space tree_query;
    forest_tree_ids = tree_ids_for_forest t (trim_space forest_query);
    matches = tree_scope_matchers t.trees [];
  }

  path_before : WorkspaceFileEntry → WorkspaceFileEntry → Bool
  unfolding text_before
  path_before a b = text_before a.path b.path

  -- The files that are listed for a task, `none` where its place is not valid. `tree` is what is
  -- below the place, `none` where that is no directory.
  unfoldable pub list_workspace_files :
      Env → Task → Store → (Text → Option Walk) → Text → Text → Option (List WorkspaceFileEntry)
  unfolding walk_dir path_before file_filter
  list_workspace_files e t s tree tree_query forest_query =
      elim (f.abs (f.clean t.workspace_path)) [
        | none ↦ none
        | some root ↦ if is_nil root then none else (elim (tree root) [
          | none ↦ some []
          | some walk ↦ some (
              sort_by path_before
                (walk_dir e t s (file_filter t tree_query forest_query) root walk []))
        ])
      ]
