-- ===== src/Store/Disk.antt =====
-- Store.Load of internal/app/store.go: the tasks that it makes of the files it finds. What the files
-- hold is given; filepath.Base, and time.Parse with the format of the clock, are parameters.
pub mod Loaded
use auto_gardener.Base.{
  Bool, List, Option, [], any, false, filter_by, if◌then◌else◌, is_nil, last_n, ltb, map, max, min,
  none, not, some, suc, true, ℕ, ◌&&◌, ◌++◌, ◌+◌, ◌-◌, ◌==◌, ◌||◌, ◌∷◌,
}
use auto_gardener.Base.Dict.{insert}
use auto_gardener.Base.Sort.{sort_by}
use auto_gardener.Models.{
  Env, Message, Status, Task, Tree, finished, is_finished, is_running, running,
}
use auto_gardener.Orchestrator.{log}
use auto_gardener.Progress.{compact_progress_line}
use auto_gardener.Settings.{compatible_cli_engine, normalize_model_mode}
use auto_gardener.Store.{Store}
use auto_gardener.Text.{Text, contains, is_blank, text_eq, text_of, trim_space}
use auto_gardener.Text.Laws.{text_key}
use auto_gardener.Text.Number.{int_key, max_int64, pos, ℤ}
use auto_gardener.Text.Split.{cut, split_on}

pub record DiskTree : Type 0 where
  pub tree : Tree
  pub has_progress : Bool
  pub legacy_wave : ℤ

pub record DiskTask : Type 0 where
  pub task : Task
  pub legacy_wave : ℤ
  pub legacy_max_trees_per_wave : ℤ

-- An entry of `trees`: what tree.json and progress.log hold, where they can be read.
pub record TreeEntry : Type 0 where
  pub name : Text
  pub is_dir : Bool
  pub tree : Option DiskTree
  pub progress : Option Text

pub record ForestEntry : Type 0 where
  pub name : Text
  pub is_dir : Bool
  pub forest : Option DiskTask
  pub messages : Option (List Message)
  pub log : Option Text
  pub trees : Option (List TreeEntry)

-- os.ReadDir
pub data Listing : Type 0 where
  missing_dir unreadable : Listing
  listed : List ForestEntry → Listing

is_separator : ℕ → Bool
is_separator c = c == b'/' || c == 92

unfoldable pub safe_disk_id : (Text → Text) → Text → Bool
unfolding is_separator text_eq text_of trim_space
safe_disk_id base raw =
    let id = trim_space raw in
    if is_nil id || text_eq id (text_of ".") || text_eq id (text_of "..")
    then false
    else text_eq id (base id) && not (any is_separator id)

or_legacy : ℕ → ℤ → ℕ
or_legacy n (pos (suc m)) = if n == 0 then suc m else n
or_legacy n _ = n

unfoldable pub normalize_forest_fields : ℤ → ℤ → Task → Task
unfolding or_legacy
normalize_forest_fields wave max_trees t = record t {
  forest = or_legacy t.forest wave;
  max_trees_per_forest = or_legacy t.max_trees_per_forest max_trees;
}

unfoldable pub normalize_tree_forest_fields : ℤ → Tree → Tree
unfolding or_legacy
normalize_tree_forest_fields wave tree = record tree { forest = or_legacy tree.forest wave }

unfoldable pub has_legacy_interrupted_run : Option Text → Bool
unfolding contains text_of
has_legacy_interrupted_run none = false
has_legacy_interrupted_run (some text) =
    contains text (text_of "服务重启后发现上次遗留 Running 状态，已恢复为 Finished")

unfoldable pub normalize_status : Status → Status
normalize_status running = running
normalize_status finished = finished
normalize_status _ = finished

-- 1970 in nanoseconds since the zero time
abbrev pub unix_epoch : ℕ
unix_epoch = 62_135_596_800_000_000_000

-- safeUnixNano, counted from the zero time instead of 1970
abbrev pub safe_unix_nano : ℕ → ℕ
safe_unix_nano t = max (unix_epoch - max_int64 - 1) (min t (unix_epoch + max_int64))

unfoldable pub created_order : Tree → ℕ
created_order tree = elim tree.started_at [
  | some t ↦ safe_unix_nano t
  | none ↦ safe_unix_nano tree.updated_at
]

unfoldable pub tree_before : Tree → Tree → Bool
unfolding created_order
tree_before a b =
    if a.forest == b.forest then ltb (created_order a) (created_order b) else ltb a.forest b.forest

unfoldable pub strings_split_lines : Text → List Text
unfolding split_on
strings_split_lines s = filter_by (λ line. not (is_nil line)) (split_on 10 s)

unfoldable pub read_progress : Option Text → List Text
unfolding strings_split_lines
read_progress none = []
read_progress (some text) = last_n 80 (strings_split_lines text)

-- A line that begins with a time in brackets. `clock` is time.Parse and the format of the clock.
stamped_line : (Text → Option Text) → Text → Text
unfolding cut trim_space
stamped_line clock [] = []
stamped_line clock (c ∷ s) = if not (c == b'[') then c ∷ s else (elim (cut b']' s) [
  | none ↦ c ∷ s
  | some (stamp, rest) ↦ if is_nil stamp then c ∷ s else (elim (clock stamp) [
    | some time ↦ time ++ (32 ∷ trim_space rest)
    | none ↦ trim_space rest
  ])
])

gardener_line : (Text → Option Text) → Text → Text
unfolding stamped_line trim_space
gardener_line clock raw = compact_progress_line (stamped_line clock (trim_space raw))

unfoldable pub read_gardener_progress : (Text → Option Text) → Option Text → List Text
unfolding gardener_line strings_split_lines
read_gardener_progress clock none = []
read_gardener_progress clock (some text) =
    last_n 80
      (filter_by (λ line. not (is_nil line)) (map (gardener_line clock) (strings_split_lines text)))

module _ (base : Text → Text) where
  -- The tree of an entry, none where it is passed over.
  unfoldable pub loaded_tree : TreeEntry → List Tree
  unfolding safe_disk_id normalize_tree_forest_fields read_progress text_eq
  loaded_tree entry = if not entry.is_dir then [] else (elim entry.tree [
    | none ↦ []
    | some d ↦
        if not (safe_disk_id base d.tree.id) || not (text_eq d.tree.id entry.name)
        then []
        else record (normalize_tree_forest_fields d.legacy_wave d.tree) {
          progress = if d.has_progress then d.tree.progress else read_progress entry.progress;
        }
          ∷ []
  ])

  unfoldable pub loaded_trees : List TreeEntry → List Tree
  unfolding loaded_tree
  loaded_trees [] = []
  loaded_trees (entry ∷ more) = loaded_tree entry ++ loaded_trees more

-- A tree whose process went with the server.
unfoldable pub settled_tree : Env → Tree → Tree
unfolding normalize_status
settled_tree e tree =
    if is_running (normalize_status tree.status)
    then record tree { status = finished; completed_at = some e.now }
    else record tree { status = normalize_status tree.status }

unfoldable pub resumed_after_legacy : Option Text → Task → Task
unfolding has_legacy_interrupted_run
resumed_after_legacy log t =
    if is_finished t.status && not t.stop_requested && has_legacy_interrupted_run log
    then record t { status = running; gardener_status = running }
    else t

module _ (e : Env) (base : Text → Text) (clock : Text → Option Text) where
  entry_trees : Option (List TreeEntry) → List Tree
  unfolding loaded_trees
  entry_trees none = []
  entry_trees (some entries) = loaded_trees base entries

  unfoldable pub loaded_task : ForestEntry → DiskTask → Task
  unfolding normalize_forest_fields read_gardener_progress entry_trees tree_before sort_by
      normalize_model_mode compatible_cli_engine normalize_status is_blank settled_tree
      resumed_after_legacy
  loaded_task entry d =
      let t = normalize_forest_fields d.legacy_wave d.legacy_max_trees_per_wave d.task in
      let progress = read_gardener_progress clock entry.log in
      let mode = normalize_model_mode t.model_mode in
      resumed_after_legacy entry.log (record t {
        messages = elim entry.messages [ none ↦ t.messages | some ms ↦ ms ];
        gardener_progress = if is_nil progress then t.gardener_progress else progress;
        trees = map (settled_tree e) (sort_by tree_before (entry_trees entry.trees));
        model_mode = mode;
        cli_engine = compatible_cli_engine t.cli_engine mode;
        status = normalize_status t.status;
        gardener_status = normalize_status t.gardener_status;
        scratch_path = if is_blank t.scratch_path then t.workspace_path else t.scratch_path;
      })

  unfoldable pub load_entry : ForestEntry → List (Text × Task) → List (Text × Task)
  unfolding safe_disk_id text_eq
  load_entry entry tasks = if not entry.is_dir then tasks else (elim entry.forest [
    | none ↦ tasks
    | some d ↦
        if not (safe_disk_id base d.task.id) || not (text_eq d.task.id entry.name)
        then tasks
        else insert d.task.id (loaded_task entry d) tasks
  ])

  unfoldable pub load_entries : List ForestEntry → List (Text × Task) → List (Text × Task)
  unfolding load_entry
  load_entries [] tasks = tasks
  load_entries (entry ∷ more) tasks = load_entries more (load_entry entry tasks)

  unfoldable pub load : Listing → Store → Store × Bool
  unfolding load_entries
  load missing_dir s = (s, true)
  load unreadable s = (s, false)
  load (listed entries) s = (record s { tasks = load_entries entries s.tasks }, true)
