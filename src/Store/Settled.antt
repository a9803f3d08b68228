-- ===== src/Store/Settled.antt =====
-- UpdateSettings of internal/app/store.go, where it succeeds: what it leaves of the tasks.
use auto_gardener.Base.{
  Bool, Bool-cases, List, [], arith, false, if◌then◌else◌, inl, inr, some, true, ◌∷◌, ◌≡◌, ◌⊎◌,
}
use auto_gardener.Base.Dict.{AllEntries, insert, lookup, lookup-insert}
use auto_gardener.Models.{AppSettings, Env, Task}
use auto_gardener.Settings.{
  merge_settings, normalize_cli_engine, normalize_model_mode, normalize_settings,
}
use auto_gardener.Settings.Laws.{
  compatible_cli_engine-IsEngine, normalize_cli_engine-of_normal, normalize_model_mode-IsModelMode,
  normalize_model_mode-of_normal,
}
use auto_gardener.Store.{
  Store, err, ok, persist_failed, publish_task, runs_under, switch_runtime, switch_task,
  switch_tasks, update_settings,
}
use auto_gardener.Text.{Text}
use auto_gardener.Text.Laws.{text_eq_refl, text_key}

-- The task's engine and mode have the normal form of the settings.
abbrev pub IsSettled : AppSettings → Text → Task → Type 0
IsSettled settings id t = runs_under settings t ≡ true

-- Settings that are their own normal form.
abbrev pub IsNormal : AppSettings → Type 0
IsNormal settings =
    (normalize_cli_engine settings.cli_engine ≡ settings.cli_engine)
    × (normalize_model_mode settings.model_mode ≡ settings.model_mode)

switch_runtime-IsSettled :
    (e : Env) (settings : AppSettings) (id : Text) (t : Task)
    → IsNormal settings
    → IsSettled settings id (switch_runtime e settings t)
unfolding switch_runtime runs_under
switch_runtime-IsSettled e settings id t n =
    rw (n.0, n.1, text_eq_refl settings.cli_engine, text_eq_refl settings.model_mode)

-- How one round of the loop leaves the tasks, where its write succeeds.
switch_task_cases :
    (e : Env) (settings : AppSettings) (id : Text) (t : Task) (s : Store)
    → (switch_task e settings id t s).1 ≡ true
    → ((runs_under settings t ≡ true) × ((switch_task e settings id t s).0.tasks ≡ s.tasks))
      ⊎ ((switch_task e settings id t s).0.tasks ≡ insert id (switch_runtime e settings t) s.tasks)
unfolding switch_task publish_task
switch_task_cases e settings id t s w = ground arith

-- Between two rounds a task is settled, or still to come as it is.
abbrev IsPending : AppSettings → List (Text × Task) → Store → Type 0
IsPending settings l s =
    (j : Text) (u : Task)
    → lookup j s.tasks ≡ some u
    → (runs_under settings u ≡ true) ⊎ (lookup j l ≡ some u)

round-same :
    (settings : AppSettings) (id j : Text) (t u : Task) (more : List (Text × Task))
    → runs_under settings t ≡ true
    → (runs_under settings u ≡ true) ⊎ (lookup j ((id, t) ∷ more) ≡ some u)
    → (runs_under settings u ≡ true) ⊎ (lookup j more ≡ some u)
unfolding lookup
round-same settings id j t u more r h = ground arith

round-new :
    (settings : AppSettings) (id j : Text) (t t' u : Task) (m more : List (Text × Task))
    → runs_under settings t' ≡ true
    → lookup j (insert id t' m) ≡ some u
    → (lookup j m ≡ some u → (runs_under settings u ≡ true) ⊎ (lookup j ((id, t) ∷ more) ≡ some u))
    → (runs_under settings u ≡ true) ⊎ (lookup j more ≡ some u)
unfolding lookup
round-new settings id j t t' u m more r p h = ground (arith, lookup-insert id j t' m)

switch_task-IsPending :
    (e : Env) (settings : AppSettings) (id : Text) (t : Task) (more : List (Text × Task))
    (s : Store)
    → IsNormal settings
    → (switch_task e settings id t s).1 ≡ true
    → IsPending settings ((id, t) ∷ more) s
    → IsPending settings more (switch_task e settings id t s).0
switch_task-IsPending e settings id t more s n w h j u p =
    elim (switch_task_cases e settings id t s w) [
      | inl (r, same) ↦ round-same settings id j t u more r (h j u (rw same at p))
      | inr new ↦
          round-new settings id j t (switch_runtime e settings t) u s.tasks more
            (switch_runtime-IsSettled e settings id t n) (rw new at p) (h j u)
    ]

last_round :
    (settings : AppSettings) (j : Text) (u : Task)
    → (runs_under settings u ≡ true) ⊎ (lookup j [] ≡ some u)
    → runs_under settings u ≡ true
unfolding lookup
last_round settings j u h = ground arith

module _ (e : Env) (settings : AppSettings) (id : Text) (t : Task) (more : List (Text × Task))
    (s : Store) where
  switch_tasks-written :
      (switch_task e settings id t s).1 ≡ true
      → switch_tasks e settings ((id, t) ∷ more) s
        ≡ switch_tasks e settings more (switch_task e settings id t s).0
  unfolding switch_tasks
  switch_tasks-written r = rw (r, switch_tasks)

  switch_tasks-failed :
      (switch_task e settings id t s).1 ≡ false
      → (switch_tasks e settings ((id, t) ∷ more) s).1 ≡ false
  unfolding switch_tasks
  switch_tasks-failed r = rw (r, switch_tasks)

switch_tasks-IsSettled :
    (e : Env) (settings : AppSettings) (l : List (Text × Task)) (s : Store)
    → IsNormal settings
    → (switch_tasks e settings l s).1 ≡ true
    → IsPending settings l s
    → AllEntries (IsSettled settings) (switch_tasks e settings l s).0.tasks
unfolding switch_tasks lookup
switch_tasks-IsSettled e settings [] s n w h = λ j u p. last_round settings j u (h j u p)
switch_tasks-IsSettled e settings ((id, t) ∷ more) s n w h =
    elim (Bool-cases (switch_task e settings id t s).1) [
      | inl r ↦ rw (switch_tasks-written e settings id t more s r) (
          switch_tasks-IsSettled e settings more (switch_task e settings id t s).0 n
            (rw (switch_tasks-written e settings id t more s r) at w)
            (switch_task-IsPending e settings id t more s n r h))
      | inr r ↦ cc (switch_tasks-failed e settings id t more s r)
    ]

normalize_settings-IsNormal : (e : Env) (s : AppSettings) → IsNormal (normalize_settings e s)
unfolding normalize_settings
normalize_settings-IsNormal e s = (
  normalize_cli_engine-of_normal _ (compatible_cli_engine-IsEngine s.cli_engine _),
  normalize_model_mode-of_normal _ (normalize_model_mode-IsModelMode s.model_mode),
)

-- UpdateSettings once the settings are written.
update_settings-written :
    (e : Env) (submitted : AppSettings) (s : Store)
    → e.settings_persist ≡ true
    → let settings = merge_settings e s.settings submitted in
      let r =
        switch_tasks e (normalize_settings e settings) s.tasks (record s { settings = settings }) in
      update_settings e submitted s ≡ (r.0, if r.1 then ok settings else err persist_failed)
unfolding update_settings
update_settings-written e submitted s w = rw (w, update_settings)

update_settings-refused :
    (e : Env) (submitted : AppSettings) (s : Store)
    → e.settings_persist ≡ false
    → (update_settings e submitted s).1 ≡ err persist_failed
unfolding update_settings
update_settings-refused e submitted s w = rw (w, update_settings)

ok_of_if :
    (b : Bool) (x y : AppSettings)
    → (if b then ok x else err persist_failed) ≡ ok y
    → (b ≡ true) × (x ≡ y)
ok_of_if b x y h = ground arith

-- When a change of the settings succeeds, every task there is runs under the new settings: its
-- engine and its mode have their normal forms.
pub update_settings-IsSettled :
    (e : Env) (submitted : AppSettings) (s : Store) (settings : AppSettings)
    → (update_settings e submitted s).1 ≡ ok settings
    → AllEntries (IsSettled (normalize_settings e settings)) (update_settings e submitted s).0.tasks
update_settings-IsSettled e submitted s settings h = elim (Bool-cases e.settings_persist) [
  | inl w ↦
      let new = merge_settings e s.settings submitted in
      let (wrote, same) =
        ok_of_if _ new settings (rw (update_settings-written e submitted s w) at h) in
      rw (update_settings-written e submitted s w, ← same)
        (switch_tasks-IsSettled e (normalize_settings e new) s.tasks (record s { settings = new })
          (normalize_settings-IsNormal e new) wrote (λ j u p. inr p))
  | inr w ↦ cc (update_settings-refused e submitted s w)
]
