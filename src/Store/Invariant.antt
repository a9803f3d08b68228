-- ===== src/Store/Invariant.antt =====
-- A well-formed store of internal/app/store.go, under UpdateTask and AppendGardenerLog: a task is
-- stored under its own identity, its log holds at most 80 lines, and the hub stays within its bounds.
use auto_gardener.Base.{
  Bool, Bool-cases, Option, false, if◌then◌else◌, inl, inr, is_nil, length, none, refl, some, true,
  ◌≡◌, ◌≤◌,
}
use auto_gardener.Base.Dict.{AllEntries, insert, insert-AllEntries, lookup}
use auto_gardener.Hub.Bounds.{IsBounded, publish-IsBounded}
use auto_gardener.Models.{Env, Task}
use auto_gardener.Progress.{compact_progress_line, max_progress_lines}
use auto_gardener.Progress.Lines.{length-append_progress}
use auto_gardener.Store.{
  Result, Store, append_gardener_log, clone_task, log_line, publish_task, update_task, write_task,
}
use auto_gardener.Store.Lookup.{update_cases}
use auto_gardener.Text.{Text}
use auto_gardener.Text.Laws.{text_key}

abbrev pub IsFiled : Text → Task → Type 0
IsFiled id t = (t.id ≡ id) × (length t.gardener_progress ≤ max_progress_lines)

pub record IsValid (s : Store) : Type 0 where
  pub filed : AllEntries IsFiled s.tasks
  pub bounded : IsBounded s.hub

-- What a change of a task must keep.
abbrev pub Keeps : (Task → Task) → Type 0
Keeps fn = (id : Text) (t : Task) → IsFiled id t → IsFiled id (fn t)

publish_task-IsValid :
    (e : Env) (id j : Text) (t : Task) (s : Store)
    → IsValid s
    → IsFiled id t
    → IsValid (publish_task e j t (record s { tasks = insert id t s.tasks }))
unfolding publish_task
publish_task-IsValid e id j t s v f = record {
  filed = insert-AllEntries IsFiled id t s.tasks v.filed f;
  bounded = publish-IsBounded s.hub j (clone_task e t) v.bounded;
}

insert-IsValid :
    (id : Text) (t : Task) (s : Store)
    → IsValid s
    → IsFiled id t
    → IsValid (record s { tasks = insert id t s.tasks })
insert-IsValid id t s v f = record {
  filed = insert-AllEntries IsFiled id t s.tasks v.filed f;
  bounded = v.bounded;
}

if_IsValid :
    (b : Bool) (x y : Store × Result Task)
    → IsValid x.0
    → IsValid y.0
    → IsValid (if b then x else y).0
if_IsValid true x y p q = p
if_IsValid false x y p q = q

write_task-IsValid :
    (e : Env) (id : Text) (t : Task) (s : Store)
    → IsValid s
    → IsFiled id t
    → IsValid (write_task e id t s).0
unfolding write_task
write_task-IsValid e id t s v f =
    if_IsValid (e.persists t.id) _ _ (publish_task-IsValid e id id t s v f)
      (insert-IsValid id t s v f)

at_task :
    (id : Text) (s : Store) (x : Store) (f : Task → Store)
    → IsValid s
    → IsValid x
    → ((t : Task) → IsFiled id t → IsValid (f t))
    → IsValid (elim (lookup id s.tasks) [ none ↦ x | some t ↦ f t ])
at_task id s x f v w step = go (lookup id s.tasks) refl
  where
    go :
        (found : Option Task)
        → lookup id s.tasks ≡ found
        → IsValid (elim found [ none ↦ x | some t ↦ f t ])
    go none e = w
    go (some t) e = step t (v.filed id t e)

-- An update keeps the store valid if its change does, also where the write to disk fails.
pub update_task-IsValid :
    (e : Env) (id : Text) (fn : Task → Task) (s : Store)
    → Keeps fn
    → IsValid s
    → IsValid (update_task e id fn s).0
update_task-IsValid e id fn s keeps v = elim (update_cases e id fn s) [
  | inl same ↦ rw same v
  | inr (t, p, q) ↦ rw q (write_task-IsValid e id _ s v (keeps id t (v.filed id t p)))
]

-- A line in the log of a task keeps the store valid.
pub append_gardener_log-IsValid :
    (e : Env) (id raw : Text) (s : Store) → IsValid s → IsValid (append_gardener_log e id raw s)
unfolding append_gardener_log log_line
append_gardener_log-IsValid e id raw s v = elim (Bool-cases (is_nil (compact_progress_line raw))) [
  | inl n ↦ rw n v
  | inr n ↦ rw n (
      at_task id s s _ v v λ t f.
        publish_task-IsValid e id id _ s v
          (f.0, length-append_progress e (compact_progress_line raw) t.gardener_progress f.1))
]
