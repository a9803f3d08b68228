-- ===== src/Store/Disk/Loaded.antt =====
-- What holds of the tasks after Store.Load of internal/app/store.go.
use mathlib.Core.Path.{subst}
use auto_gardener.Base.{
  All, All-drop, All-map, Bool, List, Option, [], any, arith, drop, false, filter_by, if_elim,
  if◌then◌else◌, inl, inr, is_nil, last_n, length, length-last_n, ltb, map, none, not, refl, some,
  sym, true, ℕ, ◌&&◌, ◌-◌, ◌||◌, ◌∷◌, ◌≡◌, ◌≤◌, ◌⊎◌,
}
use auto_gardener.Base.Dict.{AllEntries, insert, insert-AllEntries, lookup}
use auto_gardener.Base.Sort.{sort_by}
use auto_gardener.Models.{Env, Status, Task, Tree, finished, is_finished, other, running}
use auto_gardener.Orchestrator.{log}
use auto_gardener.Progress.Lines.{compact_progress_line-IsInline}
use auto_gardener.Store.{Store}
use auto_gardener.Store.Disk.{
  DiskTask, ForestEntry, Listing, entry_trees, gardener_line, has_legacy_interrupted_run, listed,
  load, load_entries, load_entry, loaded_task, missing_dir, normalize_forest_fields,
  normalize_status, read_gardener_progress, resumed_after_legacy, safe_disk_id, settled_tree,
  stamped_line, strings_split_lines, tree_before, unreadable,
}
use auto_gardener.Text.{Text, text_eq, trim_space}
use auto_gardener.Text.Compact.{IsInline}
use auto_gardener.Text.Laws.{text_key}

abbrev pub IsSettledTree : Tree → Type 0
IsSettledTree tree = tree.status ≡ finished

abbrev pub IsKnown : Status → Type 0
IsKnown status = (status ≡ running) ⊎ (status ≡ finished)

-- The entry is a directory of this name.
abbrev pub names_dir : Text → ForestEntry → Bool
names_dir id entry = entry.is_dir && text_eq id entry.name

abbrev pub entries_of : Listing → List ForestEntry
entries_of missing_dir = []
entries_of unreadable = []
entries_of (listed entries) = entries

-- A task as it is after the start: under its own identity, which names one of the directories and is
-- no path, with a status that the program knows, and with no tree that runs.
pub record IsRestored (base : Text → Text) (entries : List ForestEntry) (id : Text) (t : Task)
    : Type 0 where
  pub filed : t.id ≡ id
  pub named : any (names_dir id) entries ≡ true
  pub safe : safe_disk_id base t.id ≡ true
  pub known : IsKnown t.status
  pub settled : All IsSettledTree t.trees

settled_tree-IsSettledTree : (e : Env) (tree : Tree) → IsSettledTree (settled_tree e tree)
unfolding settled_tree normalize_status
settled_tree-IsSettledTree e tree = ground arith

normalize_status-IsKnown : (status : Status) → IsKnown (normalize_status status)
unfolding normalize_status
normalize_status-IsKnown running = inl refl
normalize_status-IsKnown finished = inr refl
normalize_status-IsKnown (other s) = inr refl

resumed_trees : (log : Option Text) (t : Task) → (resumed_after_legacy log t).trees ≡ t.trees
unfolding resumed_after_legacy
resumed_trees log t = ground arith

resumed_id : (log : Option Text) (t : Task) → (resumed_after_legacy log t).id ≡ t.id
unfolding resumed_after_legacy
resumed_id log t = ground arith

resumed-IsKnown :
    (log : Option Text) (t : Task) → IsKnown t.status → IsKnown (resumed_after_legacy log t).status
unfolding resumed_after_legacy
resumed-IsKnown log t h =
    if_elim (λ (u : Task). IsKnown u.status)
      (is_finished t.status && not t.stop_requested && has_legacy_interrupted_run log) _ _
      (inl refl) h

loaded_task-IsRestored :
    (e : Env) (base : Text → Text) (clock : Text → Option Text) (entries : List ForestEntry)
    (entry : ForestEntry) (d : DiskTask)
    → any (names_dir d.task.id) entries ≡ true
    → safe_disk_id base d.task.id ≡ true
    → IsRestored base entries d.task.id (loaded_task e base clock entry d)
unfolding loaded_task normalize_forest_fields
loaded_task-IsRestored e base clock entries entry d n h = record {
  filed = resumed_id entry.log _;
  named = n;
  safe = rw (resumed_id entry.log _) h;
  known = resumed-IsKnown entry.log _ (normalize_status-IsKnown d.task.status);
  settled = subst (All IsSettledTree) (sym (resumed_trees entry.log _)) (
      All-map IsSettledTree (settled_tree e) (settled_tree-IsSettledTree e)
        (sort_by tree_before (entry_trees e base clock entry.trees)));
}

-- The directories among some entries are among all of them.
abbrev IsPart : List ForestEntry → List ForestEntry → Type 0
IsPart some_entries entries =
    (id : Text) → any (names_dir id) some_entries ≡ true → any (names_dir id) entries ≡ true

first_named :
    (entry : ForestEntry) (more entries : List ForestEntry)
    → IsPart (entry ∷ more) entries
    → (id : Text) → names_dir id entry ≡ true
    → any (names_dir id) entries ≡ true
first_named entry more entries w id h = w id (ground arith)

later_named :
    (entry : ForestEntry) (more entries : List ForestEntry)
    → IsPart (entry ∷ more) entries
    → IsPart more entries
later_named entry more entries w id h = w id (ground arith)

module _ (e : Env) (base : Text → Text) (clock : Text → Option Text)
    (entries : List ForestEntry) where
  abbrev AllRestored : List (Text × Task) → Type 0
  AllRestored = AllEntries (IsRestored base entries)

  load_entry-AllEntries :
      (entry : ForestEntry) (tasks : List (Text × Task))
      → ((id : Text) → names_dir id entry ≡ true → any (names_dir id) entries ≡ true)
      → AllRestored tasks
      → AllRestored (load_entry e base clock entry tasks)
  unfolding load_entry
  load_entry-AllEntries entry tasks w h = by_kind entry.is_dir refl
    where
      read : Option DiskTask → List (Text × Task)
      read none = tasks
      read (some d) =
          if not (safe_disk_id base d.task.id) || not (text_eq d.task.id entry.name)
          then tasks
          else insert d.task.id (loaded_task e base clock entry d) tasks

      filed :
          (d : DiskTask) (safe same : Bool)
          → entry.is_dir ≡ true
          → safe_disk_id base d.task.id ≡ safe
          → text_eq d.task.id entry.name ≡ same
          → AllRestored (
              if not safe || not same
              then tasks
              else insert d.task.id (loaded_task e base clock entry d) tasks)
      filed d false same k q r = h
      filed d true false k q r = h
      filed d true true k q r =
          insert-AllEntries (IsRestored base entries) d.task.id (loaded_task e base clock entry d)
            tasks h
            (loaded_task-IsRestored e base clock entries entry d (w d.task.id (ground arith)) q)

      read-AllEntries : entry.is_dir ≡ true → (found : Option DiskTask) → AllRestored (read found)
      read-AllEntries k none = h
      read-AllEntries k (some d) =
          filed d (safe_disk_id base d.task.id) (text_eq d.task.id entry.name) k refl refl

      by_kind :
          (is_dir : Bool)
          → entry.is_dir ≡ is_dir
          → AllRestored (if not is_dir then tasks else read entry.forest)
      by_kind false k = h
      by_kind true k = read-AllEntries k entry.forest

  load_entries-AllEntries :
      (part : List ForestEntry) (tasks : List (Text × Task))
      → IsPart part entries
      → AllRestored tasks
      → AllRestored (load_entries e base clock part tasks)
  unfolding load_entries
  load_entries-AllEntries [] tasks w h = h
  load_entries-AllEntries (entry ∷ more) tasks w h =
      load_entries-AllEntries more (load_entry e base clock entry tasks)
        (later_named entry more entries w)
        (load_entry-AllEntries entry tasks (first_named entry more entries w) h)

module _ (e : Env) (base : Text → Text) (clock : Text → Option Text) where
  -- After the start, whatever the files hold: every task is under its own identity, which is the name of
  -- a directory among the entries and no path, its status is one of the two that the program knows, and
  -- none of its trees runs.
  pub load-AllEntries :
      (listing : Listing) (s : Store)
      → s.tasks ≡ []
      → AllEntries (IsRestored base (entries_of listing)) (load e base clock listing s).0.tasks
  unfolding load lookup
  load-AllEntries missing_dir s h = rw h (λ k t q. cc)
  load-AllEntries unreadable s h = rw h (λ k t q. cc)
  load-AllEntries (listed entries) s h =
      load_entries-AllEntries e base clock entries entries s.tasks (λ id n. n) (rw h (λ k t q. cc))

gardener_line-IsInline :
    (clock : Text → Option Text) (line : Text) → All IsInline (gardener_line clock line)
unfolding gardener_line
gardener_line-IsInline clock line =
    compact_progress_line-IsInline (stamped_line clock (trim_space line))

All-filter_by {ℓ κ} :
    {A : Type ℓ} (P : A → Type κ) (p : A → Bool) (xs : List A) → All P xs → All P (filter_by p xs)
All-filter_by P p [] h = tt
All-filter_by P p (x ∷ xs) h =
    if_elim (All P) (p x) (x ∷ filter_by p xs) (filter_by p xs) (h.0, All-filter_by P p xs h.1)
      (All-filter_by P p xs h.1)

All-last_n {ℓ κ} :
    {A : Type ℓ} (P : A → Type κ) (n : ℕ) (xs : List A) → All P xs → All P (last_n n xs)
All-last_n P n xs h =
    if_elim (All P) (ltb n (length xs)) (drop (length xs - n) xs) xs
      (All-drop P (length xs - n) xs h) h

-- The log that is read from a file has at most 80 lines, and each is one line of text without tabs
-- or line breaks.
pub read_gardener_progress_bounds :
    (clock : Text → Option Text) (file : Option Text)
    → (length (read_gardener_progress clock file) ≤ 80)
      × All (All IsInline) (read_gardener_progress clock file)
unfolding read_gardener_progress
read_gardener_progress_bounds clock none = (omega arith, tt)
read_gardener_progress_bounds clock (some text) =
    let lines = map (gardener_line clock) (strings_split_lines text) in
    let kept = filter_by (λ line. not (is_nil line)) lines in
    (
      length-last_n 80 kept,
      All-last_n (All IsInline) 80 kept (
          All-filter_by (All IsInline) (λ line. not (is_nil line)) lines
            (All-map (All IsInline) (gardener_line clock) (gardener_line-IsInline clock)
              (strings_split_lines text))),
    )
