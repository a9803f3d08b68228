-- ===== src/Api/Files.antt =====
-- serveWorkspaceFile of internal/app/server.go with the tests for the workspaces of other tasks. The
-- functions of path/filepath and os are parameters; `stat` says whether a path is a directory, and
-- its size.
pub mod Served
use auto_gardener.Api.{is_sensitive_workspace_file}
use auto_gardener.Base.{
  Bool, Option, [], any, false, if◌then◌else◌, is_nil, ltb, none, not, some, ℕ, ◌&&◌, ◌++◌, ◌||◌,
  ◌∷◌,
}
use auto_gardener.Models.{Env, Task}
use auto_gardener.Orchestrator.Creation.{Paths}
use auto_gardener.Store.{Store, list_tasks}
use auto_gardener.Text.{Text, has_prefix, is_blank, text_eq, text_of, trim_prefix}

-- A reply with its status, or the file that is sent.
pub data FileReply : Type 0 where
  bad_place bad_path sensitive_file outside_place other_place no_file too_large_file : FileReply
  downloaded previewed : Text → FileReply

-- abs == root || strings.HasPrefix(abs, root+string(filepath.Separator))
unfoldable pub is_within : Text → Text → Bool
unfolding text_eq has_prefix
is_within root path = text_eq path root || has_prefix path (root ++ b'/' ∷ [])

abbrev pub max_preview_bytes : ℕ
max_preview_bytes = 2097152

module _ (f : Paths) (is_abs : Text → Bool) (stat : Text → Option (Bool × ℕ)) where
  -- The workspace of another task is entered, unless it is the task's own or holds it.
  enters_root : Text → Text → Option Text → Bool
  unfolding is_within text_eq has_prefix
  enters_root current_root candidate none = false
  enters_root current_root candidate (some other_root) =
      not (text_eq other_root current_root)
      && not (has_prefix current_root (other_root ++ b'/' ∷ []))
      && is_within other_root candidate

  unfoldable pub enters_other : Task → Text → Text → Task → Bool
  unfolding enters_root is_blank text_eq
  enters_other current current_root candidate other_task =
      if text_eq other_task.id current.id || is_blank other_task.workspace_path
      then false
      else enters_root current_root candidate (f.abs (f.clean other_task.workspace_path))

  unfoldable pub is_inside_other_task_workspace : Env → Task → Text → Text → Store → Bool
  unfolding enters_other
  is_inside_other_task_workspace e current current_root candidate s =
      elim (f.abs (f.clean candidate)) [
        | none ↦ false
        | some candidate_abs ↦ elim (f.abs (f.clean current_root)) [
          | none ↦ false
          | some root_abs ↦ any (enters_other current root_abs candidate_abs) (list_tasks e s)
        ]
      ]

  send_stat : Bool → Text → Option (Bool × ℕ) → FileReply
  send_stat download path none = no_file
  send_stat download path (some (is_dir, size)) =
      if is_dir
      then no_file
      else if download
      then downloaded path
      else if ltb max_preview_bytes size
      then too_large_file
      else previewed path

  -- Once the path is absolute.
  unfoldable pub serve_path : Env → Task → Text → Bool → Text → Store → FileReply
  unfolding send_stat is_inside_other_task_workspace is_within
  serve_path e task root download path s =
      if not (is_within root path)
      then outside_place
      else if is_inside_other_task_workspace e task root path s
      then other_place
      else send_stat download path (stat path)

  unfoldable pub serve_below : Env → Task → Text → Bool → Text → Store → FileReply
  unfolding serve_path has_prefix text_eq text_of
  serve_below e task root download rel s =
      if text_eq rel (text_of ".") || has_prefix rel (text_of "..") || is_abs rel
      then bad_path
      else if is_sensitive_workspace_file rel
      then sensitive_file
      else (elim (f.abs (f.clean (f.join_path root rel))) [
        | none ↦ outside_place
        | some path ↦ serve_path e task root download path s
      ])

  unfoldable pub serve_workspace_file : Env → Task → Bool → Text → Store → FileReply
  unfolding serve_below trim_prefix text_of
  serve_workspace_file e task download rel s = elim (f.abs (f.clean task.workspace_path)) [
    | none ↦ bad_place
    | some root ↦
        if is_nil root
        then bad_place
        else serve_below e task root download (f.clean (trim_prefix rel (text_of "/"))) s
  ]
