-- ===== src/Store/Observe.antt =====
-- What the methods of the store leave unseen: an observation of a task that a change keeps is the
-- same before and after, for every task.
use auto_gardener.Base.{
  Bool-cases, List, Option, ap, arith, false, inl, inr, is_nil, none, refl, some, ◌∙◌, ◌≡◌, ◌⊎◌,
}
use auto_gardener.Base.Dict.{insert, lookup, lookup-insert}
use auto_gardener.Models.{Env, Task}
use auto_gardener.Progress.{append_progress, compact_progress_line}
use auto_gardener.Store.{Store, append_gardener_log, append_schedule, log_line, update_task}
use auto_gardener.Store.Lookup.{update_cases, update_task_lem, write_task-tasks}
use auto_gardener.Text.{Text, text_eq}
use auto_gardener.Text.Laws.{text_eq_refl, text_eq→≡, text_key}

-- What `f` shows of the task `j`, if there is one.
abbrev pub observe {ℓ} : {A : Type ℓ} → (Task → A) → Text → Store → Option A
observe f j s = elim (lookup j s.tasks) [ none ↦ none | some t ↦ some (f t) ]

-- The task after a line in its log.
abbrev pub logged : Env → Text → Task → Task
logged e line t = record t {
  gardener_progress = append_progress e line t.gardener_progress;
  last_progress_at = some e.now;
  updated_at = e.now;
}

module _ {ℓ} {A : Type ℓ} (f : Task → A) where
  observe-insert :
      (id j : Text) (t u : Task) (m : List (Text × Task))
      → lookup id m ≡ some t
      → f u ≡ f t
      → (elim (lookup j (insert id u m)) as (λ _. Option A) [ none ↦ none | some t ↦ some (f t) ])
        ≡ (elim (lookup j m) [ none ↦ none | some t ↦ some (f t) ])
  observe-insert id j t u m p same = elim (Bool-cases (text_eq id j)) [
    | inl e ↦ rw (lookup-insert id j u m, e) (rw (← text_eq→≡ id j e, p, same) refl)
    | inr e ↦ rw (lookup-insert id j u m, e) refl
  ]

  -- A change of the task that `f` does not see.
  pub observe-update_task :
      (e : Env) (id j : Text) (fn : Task → Task) (s : Store)
      → ((t : Task) → f (record (fn t) { updated_at = e.now }) ≡ f t)
      → observe f j (update_task e id fn s).0 ≡ observe f j s
  observe-update_task e id j fn s same = elim (update_cases e id fn s) [
    | inl eq ↦ rw eq refl
    | inr (t, p, q) ↦
        rw (observe, ap (λ (r : Store). r.tasks) q ∙ write_task-tasks e id _ s)
          (observe-insert id j t _ s.tasks p (same t))
  ]

  -- A change of the task, seen by `f`.
  pub observe-update_task_self :
      (e : Env) (id : Text) (fn : Task → Task) (s : Store) (t : Task)
      → lookup id s.tasks ≡ some t
      → observe f id (update_task e id fn s).0 ≡ some (f (record (fn t) { updated_at = e.now }))
  observe-update_task_self e id fn s t p =
      rw (observe, (update_task_lem e id fn s t p).0 id, text_eq_refl id) refl

log_line-tasks :
    (e : Env) (id line : Text) (t : Task) (s : Store)
    → (log_line e id line t s).tasks ≡ insert id (logged e line t) s.tasks
unfolding log_line
log_line-tasks e id line t s = refl

log_cases :
    (e : Env) (id raw : Text) (s : Store)
    → (append_gardener_log e id raw s ≡ s)
      ⊎ ((t : Task) × (lookup id s.tasks ≡ some t)
          × ((append_gardener_log e id raw s).tasks
              ≡ insert id (logged e (compact_progress_line raw) t) s.tasks))
unfolding append_gardener_log
log_cases e id raw s = elim (Bool-cases (is_nil (compact_progress_line raw))) [
  | inl n ↦ inl (rw (n, append_gardener_log) refl)
  | inr n ↦ go n (lookup id s.tasks) refl
]
  where
    go :
        is_nil (compact_progress_line raw) ≡ false
        → (found : Option Task) → lookup id s.tasks ≡ found
        → (append_gardener_log e id raw s ≡ s)
          ⊎ ((t : Task) × (lookup id s.tasks ≡ some t)
              × ((append_gardener_log e id raw s).tasks
                  ≡ insert id (logged e (compact_progress_line raw) t) s.tasks))
    go n none p = inl (rw (n, p, append_gardener_log) refl)
    go n (some t) p =
        inr (
          t,
          p,
          rw (n, p, append_gardener_log) (log_line-tasks e id (compact_progress_line raw) t s),
        )

-- A line in the log is unseen by what does not look at the log and its times.
pub observe-log {ℓ} :
    {A : Type ℓ} (f : Task → A) (e : Env) (id j raw : Text) (s : Store)
    → ((t : Task) → f (logged e (compact_progress_line raw) t) ≡ f t)
    → observe f j (append_gardener_log e id raw s) ≡ observe f j s
observe-log f e id j raw s same = elim (log_cases e id raw s) [
  | inl eq ↦ rw eq refl
  | inr (t, p, q) ↦ rw (observe, q) (observe-insert f id j t _ s.tasks p (same t))
]

-- The task is there.
abbrev pub IsPresent : Text → Store → Type 0
IsPresent id s = observe {A = Unit {0}} (λ _. tt) id s ≡ some tt

pub present : (id : Text) (s : Store) → IsPresent id s → (t : Task) × (lookup id s.tasks ≡ some t)
present id s h = go (lookup id s.tasks) refl h
  where
    go :
        (found : Option Task)
        → lookup id s.tasks ≡ found
        → (elim found as (λ _. Option (Unit {0})) [ none ↦ none | some t ↦ some tt ]) ≡ some tt
        → (t : Task) × (lookup id s.tasks ≡ some t)
    go none p q = ground arith
    go (some t) p q = (t, p)

pub found-IsPresent :
    (id : Text) (s : Store) (t : Task) → lookup id s.tasks ≡ some t → IsPresent id s
found-IsPresent id s t p = rw (observe, p) refl

-- A change that sets what `f` sees.
pub observe-set {ℓ} :
    {A : Type ℓ} (f : Task → A) (a : A) (e : Env) (id : Text) (fn : Task → Task) (s : Store)
    → ((t : Task) → f (record (fn t) { updated_at = e.now }) ≡ a)
    → IsPresent id s
    → observe f id (update_task e id fn s).0 ≡ some a
observe-set f a e id fn s same h =
    let (t, p) = present id s h in observe-update_task_self f e id fn s t p ∙ ap some (same t)

pub append_schedule-tasks :
    (e : Env) (id : Text) (s : Store) → (append_schedule e id s).0.tasks ≡ s.tasks
unfolding append_schedule
append_schedule-tasks e id s = ground arith
