-- ===== src/Orchestrator/Creation/Limits.antt =====
-- The limits that NewOrchestrator of internal/app/orchestrator.go reads, and the roots that
-- isAllowedWorkspacePath lets through.
use auto_gardener.Base.{
  Option, [], arith, false, if_elim, is_nil, none, not, some, suc, zero, ℕ, ◌<◌, ◌∷◌, ◌≡◌, ◌⊎◌,
}
use auto_gardener.Models.{Env}
use auto_gardener.Orchestrator.{Run}
use auto_gardener.Orchestrator.Attempts.{CliResult}
use auto_gardener.Orchestrator.Creation.{
  Paths, expand_home, getenv_int, getenv_int_fallback, new_config, positive_or, root_allows,
}
use auto_gardener.Orchestrator.Trees.{Report}
use auto_gardener.Orchestrator.Trees.Slots.{Pool, Turn, work_left}
use auto_gardener.Orchestrator.Trees.Waiting.{Turn-or_done}
use auto_gardener.Text.{Text, has_prefix, is_blank, text_eq, text_of, trim_space}
use auto_gardener.Text.Number.{negsuc, parse_int, pos, ℤ}

positive_or_bounds : (n : ℕ) (v : Option ℤ) → 0 < n → 0 < positive_or n v
unfolding positive_or
positive_or_bounds n none h = h
positive_or_bounds n (some (pos zero)) h = h
positive_or_bounds n (some (pos (suc m))) h = omega arith
positive_or_bounds n (some (negsuc m)) h = h

getenv_int_bounds : (e : Env) (key : Text) (n : ℕ) → 0 < n → 0 < getenv_int e key n
unfolding getenv_int
getenv_int_bounds e key n h =
    if_elim (λ m. 0 < m) (is_nil (trim_space (e.getenv key))) n _ h
      (positive_or_bounds n (parse_int (trim_space (e.getenv key))) h)

new_config_bounds :
    (e : Env) (data_dir : Text)
    → (0 < (new_config e data_dir).max_trees) × (0 < (new_config e data_dir).max_concurrent)
unfolding new_config getenv_int_fallback
new_config_bounds e data_dir = (
  if_elim (λ m. 0 < m) (not (is_blank (e.getenv (text_of "AUTO_GARDENER_MAX_TREES_PER_FOREST")))) _
      _ (getenv_int_bounds e (text_of "AUTO_GARDENER_MAX_TREES_PER_FOREST") 5 (omega arith))
      (getenv_int_bounds e (text_of "AUTO_GARDENER_MAX_TREES_PER_WAVE") 5 (omega arith)),
  getenv_int_bounds e (text_of "AUTO_GARDENER_MAX_CONCURRENT_TREES") 3 (omega arith),
)

-- No deadlock: whatever the environment variables say, and whatever others did to the world, a forest
-- with plans to send, trees that wait or trees that run has a next step.
pub new_config-Turn :
    (start_env e : Env) (data_dir : Text) (run : Run) (goal_path : Text → Text) (forest : ℕ)
    (s : Pool) (result : CliResult) (report : Report)
    → (work_left s ≡ 0)
      ⊎ ((t : Pool) × Turn run goal_path forest (new_config start_env data_dir).max_concurrent s t)
new_config-Turn start_env e data_dir run goal_path forest s result report =
    Turn-or_done run goal_path forest (new_config start_env data_dir).max_concurrent e s result
      report (new_config_bounds start_env data_dir).1

-- A root that is the root directory lets nothing through but itself, where paths have no two slashes
-- at their beginning.
pub root_allows-slash :
    (f : Paths) (root path : Text)
    → f.abs (f.clean (expand_home f root)) ≡ some (b'/' ∷ [])
    → text_eq path (b'/' ∷ []) ≡ false
    → has_prefix path (b'/' ∷ b'/' ∷ []) ≡ false
    → root_allows f path root ≡ false
unfolding root_allows
root_allows-slash f root path h other_path single = ground (arith, h)
