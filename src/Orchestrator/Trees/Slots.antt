-- ===== src/Orchestrator/Trees/Slots.antt =====
-- The trees of one forest in runTreeForest of internal/app/orchestrator.go: the loop that sends them
-- out, the semaphore of `slots` places on which their goroutines wait, and the wait group. Steps come
-- in any order, each at its own time, and between them other goroutines may do anything to the world.
use auto_gardener.Base.{
  List, Option, [], length, none, some, suc, true, ℕ, ◌*◌, ◌++◌, ◌+◌, ◌<◌, ◌∷◌, ◌≡◌,
}
use auto_gardener.Models.{Env, TreePlan}
use auto_gardener.Orchestrator.{Run, World, is_cancelled}
use auto_gardener.Orchestrator.Attempts.{CliResult}
use auto_gardener.Orchestrator.Trees.{
  Report, begin_tree, end_tree, finish_tree_before_run, send_out,
}
use auto_gardener.Text.{Text, text_of}

pub record Pool : Type 0 where
  pub world : World
  pub plans : List TreePlan
  pub waiting : List Text
  pub held : List (Text × Option ℕ)
  pub over : List Text

-- A tree whose context was made is ended after its CLI call, another one has returned at once.
unfoldable pub return_tree : Env → Run → Text → Option ℕ → CliResult → Report → World → World
return_tree e run tree_id none result report w = w
return_tree e run tree_id (some context) result report w =
    end_tree e run context tree_id result report w

abbrev pub stopped_before_run : Text
unfolding text_of
stopped_before_run = text_of "子任务在开始前被停止。"

module _ (run : Run) (goal_path : Text → Text) (forest slots : ℕ) where
  pub data Turn : Pool → Pool → Type 0 where
    sent :
        (e : Env) (s : Pool) (p : TreePlan) (plans : List TreePlan) (id : Text)
        → s.plans ≡ p ∷ plans
        → (send_out e run goal_path forest p s.world).1 ≡ some id
        → Turn s (record s {
          world = (send_out e run goal_path forest p s.world).0;
          plans = plans;
          waiting = s.waiting ++ id ∷ [];
        })
    broken_off :
        (e : Env) (s : Pool) (p : TreePlan) (plans : List TreePlan)
        → s.plans ≡ p ∷ plans
        → (send_out e run goal_path forest p s.world).1 ≡ none
        → Turn s (record s { plans = [] })
    admitted :
        (e : Env) (s : Pool) (before after : List Text) (id : Text)
        → s.waiting ≡ before ++ id ∷ after
        → length s.held < slots
        → Turn s (record s {
          world = (begin_tree e goal_path run.task_id id s.world).0;
          waiting = before ++ after;
          held = (id, (begin_tree e goal_path run.task_id id s.world).1) ∷ s.held;
        })
    abandoned :
        (e : Env) (s : Pool) (before after : List Text) (id path : Text)
        → s.waiting ≡ before ++ id ∷ after
        → is_cancelled run.context s.world ≡ true
        → Turn s (record s {
          world = finish_tree_before_run e path stopped_before_run run.task_id id s.world;
          waiting = before ++ after;
          over = id ∷ s.over;
        })
    returned :
        (e : Env) (s : Pool) (before after : List (Text × Option ℕ)) (id : Text)
        (context : Option ℕ) (result : CliResult) (report : Report)
        → s.held ≡ before ++ (id, context) ∷ after
        → Turn s (record s {
          world = return_tree e run id context result report s.world;
          held = before ++ after;
          over = id ∷ s.over;
        })

  -- A run of the pool with the number of its own steps.
  pub data Turns (s : Pool) : ℕ → Pool → Type 0 where
    begun : Turns s 0 s
    own : {n : ℕ} {t u : Pool} → Turns s n t → Turn t u → Turns s (suc n) u
    elsewhere : {n : ℕ} {t : Pool} → Turns s n t → (w : World) → Turns s n (record t { world = w })

-- The pool when the loop begins.
abbrev pub first_pool : World → List TreePlan → Pool
first_pool w plans = record { world = w; plans = plans; waiting = []; held = []; over = [] }

-- What keeps wg.Wait from returning, and the loop from ending.
abbrev pub work_left : Pool → ℕ
work_left s = 3 * length s.plans + (2 * length s.waiting + length s.held)
