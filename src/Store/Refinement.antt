-- ===== src/Store/Refinement.antt =====
-- The store of internal/app/store.go against what its callers rely on: a map from identities to tasks.
-- Commands are carried out one after the other, each at its own time.
use auto_gardener.Base.{
  List, Option, [], ap, arith, if◌then◌else◌, none, refl, some, sym, ◌∙◌, ◌∷◌, ◌≡◌,
}
use auto_gardener.Base.Dict.{insert, lookup, lookup-insert}
use auto_gardener.Models.{Env, Task}
use auto_gardener.Store.{
  Result, Store, add_task, clone_task, delete_task, err, get_task, not_found, ok, persist_failed,
  remove_failed, update_task,
}
use auto_gardener.Store.Lookup.{absent, delete_task_lem, update_task-missing, update_task_lem}
use auto_gardener.Text.{Text, text_eq}
use auto_gardener.Text.Laws.{text_key}

pub data Command : Type 0 where
  adding : Task → Command
  updating : Text → (Task → Task) → Command
  deleting reading : Text → Command

pub data Answer : Type 0 where
  written : Result (Unit {0}) → Answer
  updated : Result Task → Answer
  read : Option Task → Answer

unfoldable pub perform : Env → Command → Store → Store × Answer
perform e (adding t) s = let (s', r) = add_task e t s in (s', written r)
perform e (updating id fn) s = let (s', r) = update_task e id fn s in (s', updated r)
perform e (deleting id) s = let (s', r) = delete_task e id s in (s', written r)
perform e (reading id) s = (s, read (get_task e id s))

pub perform_all : List (Env × Command) → Store → Store × List Answer
unfolding perform
perform_all [] s = (s, [])
perform_all ((e, c) ∷ more) s =
    let (s', r) = perform e c s in let (s2, rs) = perform_all more s' in (s2, r ∷ rs)

-- The map that a client has in mind.
abbrev pub TaskMap : Type 0
TaskMap = Text → Option Task

abbrev pub put : Text → Option Task → TaskMap → TaskMap
put id t m j = if text_eq id j then t else m j

stamped : Env → Task → Task
stamped e t = record t { created_at = e.now; updated_at = e.now }

-- An update of a task that the map holds.
map_update : Env → Text → (Task → Task) → TaskMap → Option Task → TaskMap × Answer
map_update e id fn m none = (m, updated (err not_found))
map_update e id fn m (some t) =
    let t' = record (fn t) { updated_at = e.now } in
    (
      put id (some t') m,
      updated (if e.persists (fn t).id then ok (clone_task e t') else err persist_failed),
    )

map_delete : Env → Text → TaskMap → Option Task → TaskMap × Answer
map_delete e id m none = (m, written (err not_found))
map_delete e id m (some t) =
    (put id none m, written (if e.removes then ok tt else err remove_failed))

copied : Env → Option Task → Option Task
copied e none = none
copied e (some t) = some (clone_task e t)

unfoldable pub map_perform : Env → Command → TaskMap → TaskMap × Answer
unfolding map_update map_delete stamped copied
map_perform e (adding t) m = (
  put t.id (some (stamped e t)) m,
  written (if e.persists t.id then ok tt else err persist_failed),
)
map_perform e (updating id fn) m = map_update e id fn m (m id)
map_perform e (deleting id) m = map_delete e id m (m id)
map_perform e (reading id) m = (m, read (copied e (m id)))

pub map_perform_all : List (Env × Command) → TaskMap → TaskMap × List Answer
unfolding map_perform
map_perform_all [] m = (m, [])
map_perform_all ((e, c) ∷ more) m =
    let (m', r) = map_perform e c m in let (m2, rs) = map_perform_all more m' in (m2, r ∷ rs)

-- What the store holds, as a map.
abbrev pub view : Store → TaskMap
view s j = lookup j s.tasks

abbrev Refines : Store × Answer → TaskMap × Answer → Type 0
Refines r m = (view r.0 ≡ m.0) × (r.1 ≡ m.1)

add_task_tasks :
    (e : Env) (t : Task) (s : Store) → (add_task e t s).0.tasks ≡ insert t.id (stamped e t) s.tasks
unfolding add_task stamped
add_task_tasks e t s = ground arith

add_task_answer :
    (e : Env) (t : Task) (s : Store)
    → (add_task e t s).1 ≡ (if e.persists t.id then ok tt else err persist_failed)
unfolding add_task
add_task_answer e t s = ground arith

add_task-Refines :
    (e : Env) (t : Task) (s : Store)
    → Refines (perform e (adding t) s) (map_perform e (adding t) (view s))
unfolding perform map_perform
add_task-Refines e t s = (
  ap (λ m j. lookup j m) (add_task_tasks e t s)
      ∙ (λ i j. lookup-insert t.id j (stamped e t) s.tasks i),
  ap (λ r. written r) (add_task_answer e t s),
)

update_task-Refines :
    (e : Env) (id : Text) (fn : Task → Task) (s : Store)
    → Refines (perform e (updating id fn) s) (map_perform e (updating id fn) (view s))
unfolding perform map_perform
update_task-Refines e id fn s = go (lookup id s.tasks) refl
  where
    go :
        (found : Option Task)
        → lookup id s.tasks ≡ found
        → Refines (perform e (updating id fn) s) (map_update e id fn (view s) (lookup id s.tasks))
    go none p = rw (p, update_task-missing e id fn s p) (refl, refl)
    go (some t) p =
        let (at, answer) = update_task_lem e id fn s t p in
        rw p ((λ i j. at j i), ap (λ r. updated r) answer)

delete_task-Refines :
    (e : Env) (id : Text) (s : Store)
    → Refines (perform e (deleting id) s) (map_perform e (deleting id) (view s))
unfolding perform map_perform
delete_task-Refines e id s = go (lookup id s.tasks) refl
  where
    go :
        (found : Option Task)
        → lookup id s.tasks ≡ found
        → Refines (perform e (deleting id) s) (map_delete e id (view s) (lookup id s.tasks))
    go none p = rw p (
      (λ i j. ((delete_task_lem e id j s).0 ∙ sym (absent id j s p)) i),
      ap (λ r. written r) (rw p at ((delete_task_lem e id id s).1)),
    )
    go (some t) p = rw p (
      (λ i j. (delete_task_lem e id j s).0 i),
      ap (λ r. written r) (rw p at ((delete_task_lem e id id s).1)),
    )

get_task-copied : (e : Env) (id : Text) (s : Store) → get_task e id s ≡ copied e (lookup id s.tasks)
unfolding get_task copied
get_task-copied e id s = ground arith

perform-Refines :
    (e : Env) (c : Command) (s : Store) → Refines (perform e c s) (map_perform e c (view s))
unfolding perform map_perform
perform-Refines e (adding t) s = add_task-Refines e t s
perform-Refines e (updating id fn) s = update_task-Refines e id fn s
perform-Refines e (deleting id) s = delete_task-Refines e id s
perform-Refines e (reading id) s = (refl, ap (λ r. read r) (get_task-copied e id s))

-- For every sequence of commands, each at its own time, the store answers as the map answers, and in
-- the end holds what the map holds.
pub perform_all_refines :
    (cs : List (Env × Command)) (s : Store)
    → (view (perform_all cs s).0 ≡ (map_perform_all cs (view s)).0)
      × ((perform_all cs s).1 ≡ (map_perform_all cs (view s)).1)
unfolding perform_all map_perform_all
perform_all_refines [] s = (refl, refl)
perform_all_refines ((e, c) ∷ more) s =
    let (v, r) = perform-Refines e c s in
    let (v2, rs) = perform_all_refines more (perform e c s).0 in
    (
      v2 ∙ ap (λ m. (map_perform_all more m).0) v,
      λ i. r i ∷ (rs ∙ ap (λ m. (map_perform_all more m).1) v) i,
    )
