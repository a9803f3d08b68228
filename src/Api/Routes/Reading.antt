-- ===== src/Api/Routes/Reading.antt =====
-- What a request under /api/tasks/ leaves as it is, in internal/app/server.go.
use auto_gardener.Api.Routes.{ApiRequest, RouteOutcome}
use auto_gardener.Base.{none, true, ◌≡◌}
use auto_gardener.Hub.Bounds.{IsBounded}
use auto_gardener.Models.{Env}
use auto_gardener.Orchestrator.{World}
use auto_gardener.Text.{Text, text_eq, text_of}

-- No run is started or stopped and no task, no setting is changed: at most the hub is another one,
-- which still keeps its bounds.
pub record ReadsOnly (w : World) (out : RouteOutcome) : Type 0 where
  pub tasks_kept : out.world.store.tasks ≡ w.store.tasks
  pub settings_kept : out.world.store.settings ≡ w.store.settings
  pub runs_kept : out.world.active_runs ≡ w.active_runs
  pub cancels_kept : out.world.cancels ≡ w.cancels
  pub cancelled_kept : out.world.cancelled ≡ w.cancelled
  pub nothing_started : out.started ≡ none
  pub hub_bounded : IsBounded out.world.store.hub

module _ (e : Env) (stop_tree_path : Text → Text) (r : ApiRequest) (w : World)
    (get : text_eq r.method (text_of "GET") ≡ true) (bounded : IsBounded w.store.hub) where
  abbrev Reads : RouteOutcome → Type 0
  Reads = ReadsOnly w
