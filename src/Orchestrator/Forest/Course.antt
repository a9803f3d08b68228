-- ===== src/Orchestrator/Forest/Course.antt =====
-- A run of runForest of internal/app/orchestrator.go from its registration on: its blocks one after the
-- other, each at its own time, with the plans and decisions that the agent gives. Between them other
-- goroutines may do anything to the world, but they neither take a cancellation back nor make a run
-- active again that is not. What runGardenerPlan, runGardenerDecision and the trees write between two
-- blocks counts as done by others.
use auto_gardener.Base.{List, false, suc, true, ℕ, ◌≡◌, ◌≤◌}
use auto_gardener.Models.{Env, GardenerPlan, TreePlan}
use auto_gardener.Orchestrator.{Run, World, is_active_run, is_cancelled}
use auto_gardener.Orchestrator.Forest.{
  Point, begin_run, check_interrupted, decide, deciding_forest, ended, growing, initialising,
  loop_head, looping, planning, registered, validating_forest,
}
use auto_gardener.Orchestrator.Forest.Leaving.{but_log}
use auto_gardener.Store.Observe.{observe}
use auto_gardener.Text.{Text}
use auto_gardener.Text.Laws.{text_key}

pub data Passage (run : Run) : World × Point → World × Point → Type 0 where
  begun_run : (e : Env) (w : World) → Passage run (w, registered) (begin_run e run w)
  initialised :
      (e : Env) (w : World) → Passage run (w, initialising) (check_interrupted e run planning w)
  planned :
      (e : Env) (w : World) (plan : GardenerPlan)
      → Passage run (w, planning) (loop_head e run 1 plan w)
  looped :
      (e : Env) (w : World) (stage : ℕ) (plan : GardenerPlan)
      → Passage run (w, looping stage plan) (loop_head e run stage plan w)
  forest_grown :
      (e : Env) (w : World) (stage forest : ℕ) (trees : List TreePlan)
      → Passage run
          (w, growing stage forest trees)
          (check_interrupted e run (validating_forest stage forest) w)
  validated :
      (e : Env) (w : World) (stage forest : ℕ)
      → Passage run
          (w, validating_forest stage forest)
          (check_interrupted e run (deciding_forest stage forest) w)
  decided :
      (e : Env) (w : World) (stage forest : ℕ) (decision : GardenerPlan)
      → Passage run (w, deciding_forest stage forest) (decide e run stage forest decision w)

-- A course of a run with the number of its own blocks.
pub data Course (run : Run) (s : World × Point) : ℕ → World × Point → Type 0 where
  entered : Course run s 0 s
  block :
      {n : ℕ} {t u : World × Point} → Course run s n t → Passage run t u → Course run s (suc n) u
  meanwhile :
      {n : ℕ} {t : World × Point}
      → Course run s n t
      → (w : World) → ((c : ℕ) → is_cancelled c t.0 ≡ true → is_cancelled c w ≡ true)
      → (is_active_run run.task_id run.run_id t.0 ≡ false
          → is_active_run run.task_id run.run_id w ≡ false)
      → Course run s n (w, t.1)

-- The blocks that a superseded run has still before it.
unfoldable pub blocks_left : Point → ℕ
blocks_left registered = 2
blocks_left ended = 0
blocks_left _ = 1

module _ (run : Run) where
  abbrev IsSuperseded : World → Type 0
  IsSuperseded w =
      (is_cancelled run.context w ≡ true) × (is_active_run run.task_id run.run_id w ≡ false)

  -- What a block of a superseded run does.
  abbrev Recedes : World × Point → World × Point → Type 0
  Recedes s t =
      (suc (blocks_left t.1) ≤ blocks_left s.1)
      × (t.0.cancelled ≡ s.0.cancelled)
      × (t.0.active_runs ≡ s.0.active_runs)
      × ((j : Text) → observe but_log j t.0.store ≡ observe but_log j s.0.store)
