-- ===== src/Tests/StoreTests.antt =====
-- The theorems on the store and the hub, at the task of the tests.
use auto_gardener.Base.{List, [], length, none, refl, some, true, ◌∷◌, ◌≡◌}
use auto_gardener.Base.Dict.{AllEntries, insert, lookup}
use auto_gardener.Hub.{new_event_hub, subscribe}
use auto_gardener.Hub.Bounds.{IsBounded, Reach-IsBounded, next, start, subscribes}
use auto_gardener.Models.{Env}
use auto_gardener.Settings.{
  compatible_cli_engine, merge_settings, normalize_cli_engine, normalize_model_mode,
  normalize_settings,
}
use auto_gardener.Store.{runs_under, update_settings}
use auto_gardener.Store.Disk.{Listing, listed, load}
use auto_gardener.Store.Disk.Loaded.{IsRestored, entries_of, load-AllEntries}
use auto_gardener.Store.Refinement.{
  Command, deleting, map_perform_all, perform_all, perform_all_refines, reading, updating, view,
}
use auto_gardener.Store.Settled.{IsSettled, update_settings-IsSettled}
use auto_gardener.Tests.{env, settings, store, task, task_name, tree_a}
use auto_gardener.Text.{text_eq}
use auto_gardener.Text.Laws.{text_key}
use auto_gardener.Text.Number.{int_key, pos}

update_settings-IsSettled_example :
    let stored = merge_settings env store.settings settings in
    AllEntries
      (IsSettled (normalize_settings env stored))
      (update_settings env settings store).0.tasks
unfolding update_settings merge_settings normalize_settings lookup insert text_eq runs_under
    normalize_cli_engine compatible_cli_engine normalize_model_mode
update_settings-IsSettled_example =
    update_settings-IsSettled env settings store (merge_settings env store.settings settings) refl

Reach-IsBounded_example : IsBounded (subscribe task_name new_event_hub).0
Reach-IsBounded_example = Reach-IsBounded (next start (subscribes task_name))

abbrev commands : List (Env × Command)
commands =
    (env, updating task_name (λ t. record t { title = b'n' ∷ [] }))
    ∷ (env, reading task_name)
    ∷ (env, deleting task_name)
    ∷ (env, reading task_name)
    ∷ []

perform_all_refines_example :
    (view (perform_all commands store).0 ≡ (map_perform_all commands (view store)).0)
    × ((perform_all commands store).1 ≡ (map_perform_all commands (view store)).1)
perform_all_refines_example = perform_all_refines commands store

-- Two directories; the name of the second is not the identity of its task.
abbrev listing : Listing
listing = listed (
    record {
      name = task_name;
      is_dir = true;
      forest =
          some (record { task = task; legacy_wave = pos 1; legacy_max_trees_per_wave = pos 0 });
      messages = none;
      log = none;
      trees = some (
          record {
            name = b'a' ∷ [];
            is_dir = true;
            tree = some (record { tree = tree_a; has_progress = true; legacy_wave = pos 0 });
            progress = none;
          }
          ∷ []);
    }
    ∷ record {
      name = b'q' ∷ [];
      is_dir = true;
      forest =
          some (record { task = task; legacy_wave = pos 1; legacy_max_trees_per_wave = pos 0 });
      messages = none;
      log = none;
      trees = none;
    }
    ∷ [])

load-AllEntries_example :
    AllEntries
      (IsRestored (λ p. p) (entries_of listing))
      (load env (λ p. p) (λ stamp. none) listing (record store { tasks = [] })).0.tasks
load-AllEntries_example =
    load-AllEntries env (λ p. p) (λ stamp. none) listing (record store { tasks = [] }) refl

load_one :
    length (load env (λ p. p) (λ stamp. none) listing (record store { tasks = [] })).0.tasks ≡ 1
unfolding load insert lookup
load_one = refl
