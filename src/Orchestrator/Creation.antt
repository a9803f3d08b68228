-- ===== src/Orchestrator/Creation.antt =====
-- CreateTask of internal/app/orchestrator.go with the choice of the workspace, and expandHome of
-- internal/app/paths.go. The functions of path/filepath and os are a parameter.
pub mod Allowed
pub mod Limits
use auto_gardener.Base.{
  Bool, List, Option, [], any, drop, false, filter_by, if◌then◌else◌, is_nil, none, not, some, suc,
  true, ℕ, ◌&&◌, ◌++◌, ◌||◌, ◌∷◌,
}
use auto_gardener.Models.{AppSettings, Env, Task, new_id, running, user}
use auto_gardener.Orchestrator.{
  Run, World, is_too_long, log, message, pause_for_clarification, start_forest_run,
}
use auto_gardener.Plan.{clarification_question_for_initial_prompt}
use auto_gardener.Settings.{compatible_cli_engine, normalize_model_mode}
use auto_gardener.Store.{add_task, append_schedule, err, get_settings, ok}
use auto_gardener.Text.{
  Text, clip, contains, has_prefix, is_blank, text_eq, text_of, to_lower, trim_space,
}
use auto_gardener.Text.Number.{parse_int, pos, ℤ}

-- The file system as the program sees it: `none` for an error.
pub record Paths : Type 0 where
  pub home_dir : Option Text
  pub temp_dir : Text
  pub abs : Text → Option Text
  pub clean : Text → Text
  pub base : Text → Text
  pub join_path : Text → Text → Text
  pub split_list : Text → List Text
  pub make_dir : Text → Bool

-- The fields of the orchestrator that CreateTask reads.
pub record Config : Type 0 where
  pub data_dir : Text
  pub max_trees : ℕ
  pub max_concurrent : ℕ

pub data Creation : Type 0 where
  empty_prompt long_prompt no_path outside_roots no_directory not_written : Creation
  created_task : Text → Option Run → Creation

unfoldable pub title_from_prompt : Text → Text
unfolding text_of clip trim_space
title_from_prompt prompt =
    let r = trim_space prompt in if is_nil r then text_of "未命名森林" else clip 28 (text_of "...") r

-- os.Getenv as a positive number
positive_or : ℕ → Option ℤ → ℕ
positive_or default_value (some (pos (suc n))) = suc n
positive_or default_value _ = default_value

unfoldable pub getenv_int : Env → Text → ℕ → ℕ
unfolding positive_or trim_space parse_int
getenv_int e key default_value =
    let v = trim_space (e.getenv key) in
    if is_nil v then default_value else positive_or default_value (parse_int v)

unfoldable pub getenv_int_fallback : Env → Text → Text → ℕ → ℕ
unfolding getenv_int is_blank
getenv_int_fallback e primary_key fallback_key default_value =
    if not (is_blank (e.getenv primary_key))
    then getenv_int e primary_key default_value
    else getenv_int e fallback_key default_value

-- NewOrchestrator
unfoldable pub new_config : Env → Text → Config
unfolding getenv_int getenv_int_fallback text_of
new_config e data_dir = record {
  data_dir = data_dir;
  max_trees =
      getenv_int_fallback e (text_of "AUTO_GARDENER_MAX_TREES_PER_FOREST")
        (text_of "AUTO_GARDENER_MAX_TREES_PER_WAVE") 5;
  max_concurrent = getenv_int e (text_of "AUTO_GARDENER_MAX_CONCURRENT_TREES") 3;
}

module _ (f : Paths) where
  under_home : Text → Text → Text
  under_home p rest = elim f.home_dir [ none ↦ p | some home ↦ f.join_path home rest ]

  -- Where the separator is a slash.
  unfoldable pub expand_home : Text → Text
  unfolding under_home text_eq text_of has_prefix
  expand_home p =
      if text_eq p (text_of "~")
      then (elim f.home_dir [ none ↦ p | some home ↦ home ])
      else if has_prefix p (text_of "~/")
      then under_home p (drop 2 p)
      else p

  gardener_outputs : Text
  unfolding text_of
  gardener_outputs = f.join_path f.temp_dir (text_of "GardenerOutputs")

  unfoldable pub isolated_task_workspace_path : Text → Text → Text
  unfolding expand_home gardener_outputs trim_space text_eq text_of
  isolated_task_workspace_path raw id =
      let cleaned = f.clean (trim_space (expand_home raw)) in
      let base_path =
        if text_eq cleaned (text_of ".") || is_nil cleaned then gardener_outputs else cleaned in
      if text_eq (f.base base_path) id then base_path else f.join_path base_path id

  desktop_path : Text → Text → Text → Text
  unfolding isolated_task_workspace_path contains to_lower text_of
  desktop_path prompt id home =
      let desktop = f.join_path home (text_of "Desktop") in
      if contains prompt (text_of "桌面") || contains (to_lower prompt) (text_of "desktop")
      then isolated_task_workspace_path desktop id
      else isolated_task_workspace_path (f.join_path desktop (text_of "Gardener成果")) id

  unfoldable pub default_output_path_for_prompt : Text → Text → Text
  unfolding desktop_path isolated_task_workspace_path gardener_outputs is_blank
  default_output_path_for_prompt prompt id = elim f.home_dir [
    | none ↦ isolated_task_workspace_path gardener_outputs id
    | some home ↦
        if is_blank home
        then isolated_task_workspace_path gardener_outputs id
        else desktop_path prompt id home
  ]

  home_root : Option Text → List Text
  unfolding is_blank
  home_root none = []
  home_root (some home) = if is_blank home then [] else home ∷ []

  unfoldable pub allowed_workspace_roots : Env → Config → List Text
  unfolding home_root gardener_outputs is_blank text_of
  allowed_workspace_roots e c =
      home_root f.home_dir
      ++ ((if is_blank c.data_dir then [] else f.join_path c.data_dir (text_of "workspaces") ∷ [])
          ++ (gardener_outputs
              ∷ filter_by (λ root. not (is_blank root))
                  (f.split_list (e.getenv (text_of "AUTO_GARDENER_ALLOWED_WORKSPACE_ROOTS")))))

  -- Whether a root lets an absolute path through.
  unfoldable pub root_allows : Text → Text → Bool
  unfolding expand_home is_blank text_eq has_prefix
  root_allows path root = elim (f.abs (f.clean (expand_home root))) [
    | none ↦ false
    | some root_abs ↦
        not (is_blank root_abs)
        && (text_eq path root_abs || has_prefix path (root_abs ++ b'/' ∷ []))
  ]

  unfoldable pub is_allowed_workspace_path : Env → Config → Text → Bool
  unfolding root_allows allowed_workspace_roots text_eq text_of
  is_allowed_workspace_path e c path =
      if text_eq (e.getenv (text_of "AUTO_GARDENER_ALLOW_ANY_WORKSPACE")) (text_of "1")
      then true
      else (elim (f.abs (f.clean path)) [
        | none ↦ false
        | some abs ↦ any (root_allows abs) (allowed_workspace_roots e c)
      ])

  unfoldable pub new_task : Env → Config → Text → Text → Text → Text → AppSettings → Task
  unfolding title_from_prompt normalize_model_mode compatible_cli_engine text_of
  new_task e c id prompt abs_workspace abs_scratch settings =
      let model_mode = normalize_model_mode settings.model_mode in
      let forest_dir = f.join_path (f.join_path c.data_dir (text_of "forests")) id in
      let gardener_dir = f.join_path forest_dir (text_of "gardener") in
      record {
        id = id;
        title = title_from_prompt prompt;
        prompt = prompt;
        workspace_path = abs_workspace;
        scratch_path = abs_scratch;
        cli_engine = compatible_cli_engine settings.cli_engine model_mode;
        model_mode = model_mode;
        status = running;
        gardener_status = running;
        forest = 0;
        max_trees_per_forest = c.max_trees;
        max_concurrent_trees = c.max_concurrent;
        stop_requested = false;
        awaiting_user_input = false;
        schedule_path = f.join_path gardener_dir (text_of "schedule.md");
        log_path = f.join_path gardener_dir (text_of "log.md");
        trees = [];
        messages = message e 0 user prompt ∷ [];
        gardener_progress = [];
        last_progress_at = none;
        last_watchdog_at = none;
        runtime = none;
        created_at = 0;
        updated_at = 0;
      }

  -- Once the task is in the store.
  unfoldable pub begin_task : Env → Text → Text → Text → Text → World → World × Creation
  unfolding text_of
  begin_task e id prompt abs_workspace abs_scratch w =
      let w' =
        log e id (text_of "任务创建，交付目录=" ++ (abs_workspace ++ (text_of "，临时工作目录=" ++ abs_scratch)))
          (record w { store = (append_schedule e id w.store).0 }) in
      let question = clarification_question_for_initial_prompt prompt in
      if is_nil question
      then (let (w'', run) = start_forest_run e id prompt w' in (w'', created_task id (some run)))
      else (pause_for_clarification e id question w', created_task id none)

  unfoldable pub add_new_task : Env → Config → Text → Text → Text → Text → World → World × Creation
  unfolding new_task
  add_new_task e c id prompt abs_workspace abs_scratch w =
      let (s', answer) =
        add_task e (new_task e c id prompt abs_workspace abs_scratch (get_settings e w.store))
          w.store in
      elim answer [
        | err failure ↦ (record w { store = s' }, not_written)
        | ok _ ↦ begin_task e id prompt abs_workspace abs_scratch (record w { store = s' })
      ]

  unfoldable pub make_scratch : Env → Config → Text → Text → Text → World → World × Creation
  unfolding text_of
  make_scratch e c id prompt abs_workspace w =
      elim (f.abs (f.join_path (f.join_path f.temp_dir (text_of "GardenerScratch")) id)) [
        | none ↦ (w, no_path)
        | some abs_scratch ↦
            if not (f.make_dir abs_scratch)
            then (w, no_directory)
            else add_new_task e c id prompt abs_workspace abs_scratch w
      ]

  unfoldable pub make_workspace : Env → Config → Text → Text → Text → World → World × Creation
  make_workspace e c id prompt abs_workspace w =
      if not (is_allowed_workspace_path e c abs_workspace)
      then (w, outside_roots)
      else if not (f.make_dir abs_workspace)
      then (w, no_directory)
      else make_scratch e c id prompt abs_workspace w

  -- The place that CreateTask chooses for the results.
  unfoldable pub chosen_workspace : Text → Text → Text → Text
  unfolding expand_home default_output_path_for_prompt isolated_task_workspace_path trim_space
  chosen_workspace prompt id raw =
      let path = trim_space (expand_home raw) in
      if is_nil path
      then default_output_path_for_prompt prompt id
      else isolated_task_workspace_path path id

  unfoldable pub create_task : Env → Config → Text → Text → World → World × Creation
  unfolding is_too_long trim_space text_of
  create_task e c raw_prompt raw_path w =
      let prompt = trim_space raw_prompt in
      let id = new_id e 0 (text_of "forest") in
      if is_nil prompt
      then (w, empty_prompt)
      else if is_too_long prompt
      then (w, long_prompt)
      else (elim (f.abs (chosen_workspace prompt id raw_path)) [
        | none ↦ (w, no_path)
        | some abs_workspace ↦ make_workspace e c id prompt abs_workspace w
      ])
