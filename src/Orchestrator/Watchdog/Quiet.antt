-- ===== src/Orchestrator/Watchdog/Quiet.antt =====
-- What a pass of the watchdog of internal/app/watchdog.go leaves as it is, and which runs it starts.
use auto_gardener.Base.{
  All, Bool, Bool-cases, List, Option, [], ap, arith, if_elim, inl, inr, none, refl, some, true, ℕ,
  ◌++◌, ◌∙◌, ◌∷◌, ◌≡◌,
}
use auto_gardener.Instructions.{build_watchdog_instruction, silent_watchdog_instruction_prefix}
use auto_gardener.Models.{Env, Message, Status, Task, Tree}
use auto_gardener.Orchestrator.{
  Run, World, cancel_task_processes, change_task, has_task_processes, log, register_run,
  start_forest_run,
}
use auto_gardener.Orchestrator.Forest.{is_silent}
use auto_gardener.Orchestrator.Forest.Leaving.{change_task-observe, kept, log-observe}
use auto_gardener.Orchestrator.Watchdog.{
  check_task, defer_task, is_left_alone, marked, run_watchdog_once, watch_task, watch_tasks,
}
use auto_gardener.Store.{list_running_tasks}
use auto_gardener.Store.Observe.{observe}
use auto_gardener.Text.{Text, has_prefix}

-- All of a task but its log, its times and the watchdog's mark.
abbrev pub undisturbed : Task → (Status × Status × Bool × Bool × List Tree × ℕ) × List Message
undisturbed t = kept t

has_prefix-append : (p s : Text) → has_prefix (p ++ s) p ≡ true
unfolding has_prefix
has_prefix-append [] s = refl
has_prefix-append (c ∷ p) s = ground (arith, has_prefix-append p s)

start_forest_run-store :
    (e : Env) (id instruction : Text) (w : World)
    → (start_forest_run e id instruction w).0.store ≡ w.store
unfolding start_forest_run register_run cancel_task_processes
start_forest_run-store e id instruction w = refl

mark_keeps :
    (e : Env) (id j : Text) (w : World)
    → observe undisturbed j (change_task e id (marked e) w).store ≡ observe undisturbed j w.store
unfolding marked
mark_keeps e id j w = change_task-observe undisturbed e id j (marked e) w λ t. refl

defer_keeps :
    (e : Env) (t : Task) (j : Text) (w : World)
    → observe undisturbed j (defer_task e t w).0.store ≡ observe undisturbed j w.store
unfolding defer_task
defer_keeps e t j w = log-observe undisturbed e t.id j _ w λ t. refl

check_keeps :
    (e : Env) (t : Task) (j : Text) (w : World)
    → observe undisturbed j (check_task e t w).0.store ≡ observe undisturbed j w.store
unfolding check_task
check_keeps e t j w =
    ap (observe undisturbed j) (start_forest_run-store e t.id _ (log e t.id _ w))
    ∙ log-observe undisturbed e t.id j _ w λ t. refl

watch_task-keeps :
    (e : Env) (t : Task) (j : Text) (w : World)
    → observe undisturbed j (watch_task e t w).0.store ≡ observe undisturbed j w.store
unfolding watch_task
watch_task-keeps e t j w =
    let P =
      λ (r : World × Option Run). observe undisturbed j r.0.store ≡ observe undisturbed j w.store in
    let w' = change_task e t.id (marked e) w in
    if_elim P (is_left_alone e t) (w, none) _ refl
      (if_elim P (has_task_processes t.id w') (defer_task e t w') (check_task e t w')
        (defer_keeps e t j w' ∙ mark_keeps e t.id j w)
        (check_keeps e t j w' ∙ mark_keeps e t.id j w))

IsSilentRun : Option Run → Type 0
IsSilentRun r = (run : Run) → r ≡ some run → is_silent run ≡ true

some_inj : (r s : Run) → some r ≡ some s → r ≡ s
some_inj r s h = ground arith

check_task-silent : (e : Env) (t : Task) (w : World) → IsSilentRun (check_task e t w).1
unfolding IsSilentRun check_task start_forest_run build_watchdog_instruction is_silent
check_task-silent e t w run h =
    rw (← some_inj _ run h) (has_prefix-append silent_watchdog_instruction_prefix _)

watch_task-silent : (e : Env) (t : Task) (w : World) → IsSilentRun (watch_task e t w).1
unfolding watch_task IsSilentRun defer_task
watch_task-silent e t w =
    let P = λ (r : World × Option Run). IsSilentRun r.1 in
    let nothing : IsSilentRun none = λ run h. ground arith in
    let w' = change_task e t.id (marked e) w in
    if_elim P (is_left_alone e t) (w, none) _ nothing
      (if_elim P (has_task_processes t.id w') (defer_task e t w') (check_task e t w') nothing
        (check_task-silent e t w'))

-- What holds of a pass over a list of tasks.
IsUndisturbed : World → World × List Run → Type 0
IsUndisturbed w (w', runs) =
    ((j : Text) → observe undisturbed j w'.store ≡ observe undisturbed j w.store)
    × All (λ (run : Run). is_silent run ≡ true) runs

added-silent :
    (r : Option Run) (runs : List Run)
    → IsSilentRun r
    → All (λ (run : Run). is_silent run ≡ true) runs
    → All
        (λ (run : Run). is_silent run ≡ true)
        (elim r as (λ _. List Run) [ none ↦ runs | some run ↦ run ∷ runs ])
unfolding IsSilentRun
added-silent none runs h k = k
added-silent (some run) runs h k = (h run refl, k)

watch_tasks-keeps :
    (e : Env) (tasks : List Task) (w : World) → IsUndisturbed w (watch_tasks e tasks w)
unfolding watch_tasks IsUndisturbed
watch_tasks-keeps e [] w = ((λ j. refl), tt)
watch_tasks-keeps e (t ∷ more) w =
    let (w', run) = watch_task e t w in
    let (same, silent) = watch_tasks-keeps e more w' in
    ((λ j. same j ∙ watch_task-keeps e t j w), added-silent run _ (watch_task-silent e t w) silent)

-- A pass of the watchdog keeps the status, the flags, the trees, the forest and the messages of
-- every task, and every run that it starts is silent.
pub run_watchdog_once_lem :
    (e : Env) (w : World)
    → let (w', runs) = run_watchdog_once e w in
      ((j : Text) → observe undisturbed j w'.store ≡ observe undisturbed j w.store)
      × All (λ (run : Run). is_silent run ≡ true) runs
unfolding run_watchdog_once IsUndisturbed
run_watchdog_once_lem e w = watch_tasks-keeps e (list_running_tasks e w.store) w

-- A task that still has a process under the registry is not interrupted: the pass over it starts no
-- run and cancels nothing.
pub watch_task-managed :
    (e : Env) (t : Task) (w : World)
    → has_task_processes t.id w ≡ true
    → let (w', run) = watch_task e t w in
      (run ≡ none)
      × (w'.cancelled ≡ w.cancelled)
      × (w'.cancels ≡ w.cancels)
      × (w'.active_runs ≡ w.active_runs)
unfolding watch_task defer_task has_task_processes change_task log
watch_task-managed e t w h = elim (Bool-cases (is_left_alone e t)) [
  | inl a ↦ rw (watch_task, a) (refl, refl, refl, refl)
  | inr a ↦ rw (watch_task, a, has_task_processes, h) (refl, refl, refl, refl)
]
