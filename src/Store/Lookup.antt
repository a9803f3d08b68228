-- ===== src/Store/Lookup.antt =====
-- What a method of the store does to each task, on every branch.
use auto_gardener.Base.{
  Bool, Option, ap, arith, if◌then◌else◌, inl, inr, none, refl, some, sym, ◌∙◌, ◌≡◌, ◌⊎◌,
}
use auto_gardener.Base.Dict.{insert, lookup, lookup-insert, lookup-remove}
use auto_gardener.Models.{Env, Task}
use auto_gardener.Store.{
  Result, Store, clone_task, delete_task, err, get_task, not_found, ok, persist_failed,
  remove_failed, update_task, write_task,
}
use auto_gardener.Text.{Text, text_eq}
use auto_gardener.Text.Laws.{text_eq_iff, text_eq_refl, text_key}

module _ (e : Env) (id : Text) (fn : Task → Task) (s : Store) where
  -- The task after the change, as the store keeps it.
  abbrev pub changed : Task → Task
  changed t = record (fn t) { updated_at = e.now }

  pub update_task-missing : lookup id s.tasks ≡ none → update_task e id fn s ≡ (s, err not_found)
  unfolding update_task
  update_task-missing h = rw (h, update_task)

  pub update_task-found :
      (t : Task)
      → lookup id s.tasks ≡ some t
      → update_task e id fn s ≡ write_task e id (changed t) s
  unfolding update_task
  update_task-found t h = rw (h, update_task)

pub write_task-tasks :
    (e : Env) (id : Text) (t : Task) (s : Store)
    → (write_task e id t s).0.tasks ≡ insert id t s.tasks
unfolding write_task
write_task-tasks e id t s = ground arith

write_task-reply :
    (e : Env) (id : Text) (t : Task) (s : Store)
    → (write_task e id t s).1
      ≡ (if e.persists t.id then ok (clone_task e t) else err persist_failed)
unfolding write_task
write_task-reply e id t s = ground arith

-- The two ways an update goes.
pub update_cases :
    (e : Env) (id : Text) (fn : Task → Task) (s : Store)
    → ((update_task e id fn s).0 ≡ s)
      ⊎ ((t : Task) × (lookup id s.tasks ≡ some t)
          × ((update_task e id fn s).0
              ≡ (write_task e id (record (fn t) { updated_at = e.now }) s).0))
update_cases e id fn s = go (lookup id s.tasks) refl
  where
    go :
        (found : Option Task)
        → lookup id s.tasks ≡ found
        → ((update_task e id fn s).0 ≡ s)
          ⊎ ((t : Task) × (lookup id s.tasks ≡ some t)
              × ((update_task e id fn s).0
                  ≡ (write_task e id (record (fn t) { updated_at = e.now }) s).0))
    go none p = inl (ap (λ (r : Store × Result Task). r.0) (update_task-missing e id fn s p))
    go (some t) p =
        inr (t, p, ap (λ (r : Store × Result Task). r.0) (update_task-found e id fn s t p))

-- An update of a task that is there changes that task and no other, whether or not the write to
-- disk succeeds, and answers with a copy exactly where it does.
pub update_task_lem :
    (e : Env) (id : Text) (fn : Task → Task) (s : Store) (t : Task)
    → lookup id s.tasks ≡ some t
    → ((j : Text)
        → lookup j (update_task e id fn s).0.tasks
          ≡ (if text_eq id j then some (changed e id fn s t) else lookup j s.tasks))
      × ((update_task e id fn s).1 ≡ (
          if e.persists (fn t).id
          then ok (clone_task e (changed e id fn s t))
          else err persist_failed))
update_task_lem e id fn s t h =
    rw (update_task-found e id fn s t h, write_task-tasks)
      ((λ j. lookup-insert id j _ s.tasks), write_task-reply e id _ s)

missing_not_ok :
    (e : Env) (id : Text) (fn : Task → Task) (s : Store) (t : Task)
    → lookup id s.tasks ≡ none
    → (update_task e id fn s).1 ≡ ok t
    → ⊥
missing_not_ok e id fn s t p h =
    cc (ap (λ (r : Store × Result Task). r.1) (update_task-missing e id fn s p), h)

pub get_task-at :
    (e : Env) (id : Text) (s : Store) (t : Task)
    → lookup id s.tasks ≡ some t
    → get_task e id s ≡ some (clone_task e t)
unfolding get_task
get_task-at e id s t p = rw (p, get_task)

ok_if : (b : Bool) (x y : Task) → (if b then ok x else err persist_failed) ≡ ok y → x ≡ y
ok_if b x y h = ground arith

-- What an update answers is what a read at that moment gives.
pub get_task-update_task :
    (e : Env) (id : Text) (fn : Task → Task) (s : Store) (t : Task)
    → (update_task e id fn s).1 ≡ ok t
    → get_task e id (update_task e id fn s).0 ≡ some t
get_task-update_task e id fn s t h = go (lookup id s.tasks) refl
  where
    go :
        (found : Option Task)
        → lookup id s.tasks ≡ found
        → get_task e id (update_task e id fn s).0 ≡ some t
    go none p = absurd (missing_not_ok e id fn s t p h)
    go (some old) p =
        let (at, answer) = update_task_lem e id fn s old p in
        get_task-at e id _ _ (at id ∙ rw (text_eq_refl id) refl)
        ∙ ap some (ok_if _ _ t (sym answer ∙ h))

pub absent :
    (id j : Text) (s : Store)
    → lookup id s.tasks ≡ none
    → lookup j s.tasks ≡ (if text_eq id j then none else lookup j s.tasks)
absent id j s p = ground (arith, text_eq_iff id j)

-- A deleted task is gone and the others stay as they were, whether or not its files could be
-- removed. The answer says whether they could, and that a missing task was not found.
pub delete_task_lem :
    (e : Env) (id j : Text) (s : Store)
    → (lookup j (delete_task e id s).0.tasks ≡ (if text_eq id j then none else lookup j s.tasks))
      × ((delete_task e id s).1 ≡ (elim (lookup id s.tasks) [
        | none ↦ err not_found
        | some t ↦ if e.removes then ok tt else err remove_failed
      ]))
unfolding delete_task
delete_task_lem e id j s = go (lookup id s.tasks) refl
  where
    go :
        (found : Option Task)
        → lookup id s.tasks ≡ found
        → (lookup j (delete_task e id s).0.tasks
            ≡ (if text_eq id j then none else lookup j s.tasks))
          × ((delete_task e id s).1 ≡ (elim (lookup id s.tasks) [
            | none ↦ err not_found
            | some t ↦ if e.removes then ok tt else err remove_failed
          ]))
    go none p = rw (p, delete_task) (absent id j s p, refl)
    go (some t) p = rw (p, delete_task) (lookup-remove id j s.tasks, refl)
