-- ===== src/Orchestrator/Creation/Allowed.antt =====
-- What CreateTask of internal/app/orchestrator.go promises of a task that it creates.
use mathlib.Core.Path.{subst}
use auto_gardener.Base.{
  Bool, Bool-cases, Option, ap, arith, false, if_elim, if◌then◌else◌, inl, inr, is_nil, none, not,
  refl, some, true, ◌++◌, ◌∙◌, ◌≡◌,
}
use auto_gardener.Base.Dict.{lookup, lookup-insert}
use auto_gardener.Models.{Env, Status, Task, finished, new_id, running}
use auto_gardener.Orchestrator.{
  Run, World, cancel_task_processes, change_task, is_active_run, is_too_long, log,
  pause_for_clarification, paused_task, register_run, start_forest_run,
}
use auto_gardener.Orchestrator.Creation.{
  Config, Creation, Paths, add_new_task, begin_task, chosen_workspace, create_task, created_task,
  empty_prompt, is_allowed_workspace_path, long_prompt, make_scratch, make_workspace, no_directory,
  no_path, not_written,
}
use auto_gardener.Orchestrator.Forest.Leaving.{log-observe}
use auto_gardener.Orchestrator.Registry.{start_forest_run-active}
use auto_gardener.Plan.{clarification_question_for_initial_prompt}
use auto_gardener.Progress.{compact_progress_line}
use auto_gardener.Store.{Result, Store, add_task, append_schedule, err, ok}
use auto_gardener.Store.Observe.{
  IsPresent, append_schedule-tasks, logged, observe, observe-set, observe-update_task,
}
use auto_gardener.Text.{Text, text_of, trim_space}
use auto_gardener.Text.Laws.{text_eq_refl, text_key}

abbrev pub place_of : Task → Text × Status
place_of t = (t.workspace_path, t.status)

abbrev pub asks_of : Task → Status × Bool
asks_of t = (t.status, t.awaiting_user_input)

-- Either a run is active, or the task waits for an answer.
abbrev pub IsBegun : Text → Option Run → World → Type 0
IsBegun id (some run) w =
    (is_active_run id run.run_id w ≡ true)
    × (observe (λ (t : Task). t.status) id w.store ≡ some running)
IsBegun id none w = observe asks_of id w.store ≡ some (finished, true)

pub record IsCreated (id : Text) (run : Option Run) (place : Text) (w : World) : Type 0 where
  pub placed : observe (λ (t : Task). t.workspace_path) id w.store ≡ some place
  pub begun : IsBegun id run w

observe-map {ℓ κ} :
    {A : Type ℓ} {B : Type κ} (f : Task → A) (g : A → B) (id : Text) (s : Store) (a : A)
    → observe f id s ≡ some a
    → observe (λ t. g (f t)) id s ≡ some (g a)
observe-map {A} {B} f g id s a h = go (lookup id s.tasks) h
  where
    go :
        (found : Option Task)
        → ◌≡◌ {A = Option A} (elim found [ none ↦ none | some t ↦ some (f t) ]) (some a)
        → ◌≡◌ {A = Option B} (elim found [ none ↦ none | some t ↦ some (g (f t)) ]) (some (g a))
    go none k = ground arith
    go (some t) k = ap (λ r. elim r [ none ↦ none | some x ↦ some (g x) ]) k

-- The world once the schedule is written and the first line is in the log.
logged_creation : Env → Text → Text → World → World
logged_creation e id line w = log e id line (record w { store = (append_schedule e id w.store).0 })

logged_creation-observe {ℓ} :
    {A : Type ℓ} (f : Task → A) (e : Env) (id j line : Text) (w : World)
    → ((t : Task) → f (logged e (compact_progress_line line) t) ≡ f t)
    → observe f j (logged_creation e id line w).store ≡ observe f j w.store
unfolding logged_creation
logged_creation-observe f e id j line w same =
    log-observe f e id j line _ same
    ∙ ap (λ m. elim (lookup j m) [ none ↦ none | some t ↦ some (f t) ])
        (append_schedule-tasks e id w.store)

observe-IsPresent {ℓ} :
    {A : Type ℓ} (f : Task → A) (id : Text) (s : Store) (a : A)
    → observe f id s ≡ some a
    → IsPresent id s
observe-IsPresent f id s a h = observe-map f (λ _. tt) id s a h

-- With no question to ask, a run is started.
started-IsCreated :
    (e : Env) (id prompt place : Text) (w : World)
    → observe place_of id w.store ≡ some (place, running)
    → let r = start_forest_run e id prompt w in IsCreated id (some r.1) place r.0
unfolding start_forest_run register_run cancel_task_processes
started-IsCreated e id prompt place w h =
    let run_id = new_id e 0 (text_of "run") in
    record {
      placed = observe-map place_of (λ p. p.0) id w.store (place, running) h;
      begun = (
        start_forest_run-active e w id prompt run_id ∙ text_eq_refl run_id,
        observe-map place_of (λ p. p.1) id w.store (place, running) h,
      );
    }

-- With a question to ask, the task waits.
asked-IsCreated :
    (e : Env) (id question place : Text) (w : World)
    → observe place_of id w.store ≡ some (place, running)
    → IsCreated id none place (pause_for_clarification e id question w)
unfolding pause_for_clarification change_task paused_task
asked-IsCreated e id question place w h =
    let line = text_of "需求不明确，Gardener 已暂停并向用户反问。" in
    let here =
      observe-IsPresent place_of id (log e id line w).store (place, running)
        (log-observe place_of e id id line w (λ t. refl) ∙ h) in
    record {
      placed =
          observe-update_task (λ (t : Task). t.workspace_path) e id id _ (log e id line w).store
            (λ t. refl)
          ∙ log-observe (λ (t : Task). t.workspace_path) e id id line w (λ t. refl)
          ∙ observe-map place_of (λ p. p.0) id w.store (place, running) h;
      begun = observe-set asks_of (finished, true) e id _ (log e id line w).store (λ t. refl) here;
    }

abbrev HoldsIfCreated : Text → World × Creation → Type 0
HoldsIfCreated place out =
    (id : Text) (run : Option Run) → out.1 ≡ created_task id run → IsCreated id run place out.0

moved :
    (id id' : Text) (run run' : Option Run) (place : Text) (w : World)
    → created_task id run ≡ created_task id' run'
    → IsCreated id run place w
    → IsCreated id' run' place w
moved id id' run run' place w h k =
    let same_id : id ≡ id' = cc in
    let same_run : run ≡ run' = cc in
    subst (λ (p : Text × Option Run). IsCreated p.0 p.1 place w) (λ i. (same_id i, same_run i)) k

module _ (f : Paths) (e : Env) where
  begin_task-Holds :
      (id prompt place scratch : Text) (w : World)
      → observe place_of id w.store ≡ some (place, running)
      → HoldsIfCreated place (begin_task f e id prompt place scratch w)
  unfolding begin_task logged_creation
  begin_task-Holds id prompt place scratch w h =
      let line = text_of "任务创建，交付目录=" ++ (place ++ (text_of "，临时工作目录=" ++ scratch)) in
      let w' = logged_creation e id line w in
      let k = logged_creation-observe place_of e id id line w (λ t. refl) ∙ h in
      let question = clarification_question_for_initial_prompt prompt in
      let r = start_forest_run e id prompt w' in
      if_elim (HoldsIfCreated place) (is_nil question) (r.0, created_task id (some r.1))
        (pause_for_clarification e id question w', created_task id none)
        (λ id' run q.
          moved id id' (some r.1) run place r.0 q (started-IsCreated e id prompt place w' k))
        (λ id' run q.
          moved id id' none run place (pause_for_clarification e id question w') q
            (asked-IsCreated e id question place w' k))

  add_new_task-Holds :
      (c : Config) (id prompt place scratch : Text) (w : World)
      → HoldsIfCreated place (add_new_task f e c id prompt place scratch w)
  unfolding add_new_task add_task
  add_new_task-Holds c id prompt place scratch w =
      if_elim
        (λ (r : Store × Result (Unit {0})). HoldsIfCreated place (elim r.1 [
          | err failure ↦ (record w { store = r.0 }, not_written)
          | ok _ ↦ begin_task f e id prompt place scratch (record w { store = r.0 })
        ]))
        (e.persists id) _ _
        (begin_task-Holds id prompt place scratch _
          (rw (observe, lookup-insert id id _ w.store.tasks, text_eq_refl id) refl))
        (λ id' run q. cc)

  make_scratch-Holds :
      (c : Config) (id prompt place : Text) (w : World)
      → HoldsIfCreated place (make_scratch f e c id prompt place w)
  unfolding make_scratch
  make_scratch-Holds c id prompt place w =
      split (f.abs (f.join_path (f.join_path f.temp_dir (text_of "GardenerScratch")) id))
        (λ scratch. add_new_task-Holds c id prompt place scratch w)
    where
      split :
          (abs : Option Text)
          → ((scratch : Text) → HoldsIfCreated place (add_new_task f e c id prompt place scratch w))
          → HoldsIfCreated place (elim abs [
            | none ↦ (w, no_path)
            | some abs_scratch ↦
                if not (f.make_dir abs_scratch)
                then (w, no_directory)
                else add_new_task f e c id prompt place abs_scratch w
          ])
      split none rest = λ id' run q. cc
      split (some scratch) rest =
          if_elim (HoldsIfCreated place) (not (f.make_dir scratch)) (w, no_directory)
            (add_new_task f e c id prompt place scratch w) (λ id' run q. cc) (rest scratch)

  make_workspace-Holds :
      (c : Config) (id prompt place : Text) (w : World) (id' : Text) (run : Option Run)
      → (make_workspace f e c id prompt place w).1 ≡ created_task id' run
      → (is_allowed_workspace_path f e c place ≡ true)
        × IsCreated id' run place (make_workspace f e c id prompt place w).0
  unfolding make_workspace
  make_workspace-Holds c id prompt place w id' run =
      elim (Bool-cases (is_allowed_workspace_path f e c place)) [
        | inr outside ↦ rw outside (λ q. cc)
        | inl allowed ↦ rw allowed (λ q. (
          refl,
          if_elim (HoldsIfCreated place) (not (f.make_dir place)) (w, no_directory)
              (make_scratch f e c id prompt place w) (λ i r p. cc)
              (make_scratch-Holds c id prompt place w) id' run q,
        ))
      ]

  -- A task that is created has a workspace: the absolute form of the place that is chosen for the
  -- prompt, the new identity and the path of the request. The place is allowed, the task is filed with
  -- it, and either its run is the active one and the task running, or the task waits for an answer.
  pub create_task-IsCreated :
      (c : Config) (raw_prompt raw_path : Text) (w : World) (id : Text) (run : Option Run)
      → (create_task f e c raw_prompt raw_path w).1 ≡ created_task id run
      → (place : Text) × (f.abs
            (chosen_workspace f (trim_space raw_prompt) (new_id e 0 (text_of "forest")) raw_path)
          ≡ some place)
        × (is_allowed_workspace_path f e c place ≡ true)
        × IsCreated id run place (create_task f e c raw_prompt raw_path w).0
  unfolding create_task
  create_task-IsCreated c raw_prompt raw_path w id run =
      split (is_nil (trim_space raw_prompt)) (is_too_long (trim_space raw_prompt))
        (f.abs
          (chosen_workspace f (trim_space raw_prompt) (new_id e 0 (text_of "forest")) raw_path))
        refl
    where
      prompt : Text
      prompt = trim_space raw_prompt

      new : Text
      new = new_id e 0 (text_of "forest")

      rest : Option Text → World × Creation
      rest none = (w, no_path)
      rest (some abs_workspace) = make_workspace f e c new prompt abs_workspace w

      result : Bool → Bool → Option Text → World × Creation
      result blank long abs =
          if blank then (w, empty_prompt) else if long then (w, long_prompt) else rest abs

      split :
          (blank long : Bool) (abs : Option Text)
          → f.abs (chosen_workspace f prompt new raw_path) ≡ abs
          → (result blank long abs).1 ≡ created_task id run
          → (place : Text) × (f.abs (chosen_workspace f prompt new raw_path) ≡ some place)
            × (is_allowed_workspace_path f e c place ≡ true)
            × IsCreated id run place (result blank long abs).0
      split true long abs h q = absurd (cc)
      split false true abs h q = absurd (cc)
      split false false none h q = absurd (cc)
      split false false (some place) h q =
          let (a, k) = make_workspace-Holds c new prompt place w id run q in (place, h, a, k)
