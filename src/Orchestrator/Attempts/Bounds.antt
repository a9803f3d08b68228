-- ===== src/Orchestrator/Attempts/Bounds.antt =====
-- How often the CLI is asked for a plan, and what the plan is that comes back.
use auto_gardener.Base.{
  All, Bool, Option, arith, false, none, refl, some, suc, true, zero, ℕ, ◌+◌, ◌≡◌, ◌≤◌,
}
use auto_gardener.Models.{Env, Task}
use auto_gardener.Orchestrator.{Run, World, is_cancelled}
use auto_gardener.Orchestrator.Attempts.{
  CliResult, Parsed, Planned, Wording, attempts, decision_words, log_all, log_malformed, parse_plan,
  parsed, planning_words, run_attempts, run_gardener_decision, run_gardener_plan, started_attempt,
  unparsed,
}
use auto_gardener.Plan.Normal.{IsFilled, normalize_plan-IsFilled}
use auto_gardener.Store.{get_task}
use auto_gardener.Text.{Text, text_of}

module _ (e : Env) (task_id instruction : Text) (context : ℕ) (words : Wording)
    (unmarshal : Text → Parsed) (cli : ℕ → World → World × CliResult) where
  -- Every tree of the plan can be dispatched, and the CLI was asked so often at most.
  IsReady : ℕ → Planned → Type 0
  IsReady bound planned = All IsFilled planned.plan.trees × (planned.asked ≤ bound)

  attempts-IsReady :
      (left attempt : ℕ) (w : World)
      → IsReady left (attempts e task_id instruction context words unmarshal cli left attempt w)
  unfolding attempts IsReady
  attempts-IsReady zero attempt w = (tt, omega arith)
  attempts-IsReady (suc left) attempt w =
      from_failure result.failure refl (λ v. attempts-IsReady left (attempt + 1) v)
    where
      outcome : World × CliResult
      outcome =
          cli attempt (started_attempt e task_id instruction context words unmarshal cli attempt w)

      result : CliResult
      result = outcome.1

      saved : World
      saved = log_all e task_id (words.saved attempt) outcome.0

      all : Planned
      all = attempts e task_id instruction context words unmarshal cli (suc left) attempt w

      from_cancelled :
          (text : Text)
          → result.failure ≡ none
          → parse_plan unmarshal result.output ≡ unparsed text
          → ((v : World)
              → IsReady left
                  (attempts e task_id instruction context words unmarshal cli left (attempt + 1) v))
          → (b : Bool) → is_cancelled context saved ≡ b
          → IsReady (suc left) all
      from_cancelled text p q ih true r = rw (IsReady, attempts, p, q, r) (tt, omega arith)
      from_cancelled text p q ih false r =
          let (filled, bound) = ih (
            log_malformed e task_id instruction context words unmarshal cli text result.output
              saved) in
          rw (IsReady, attempts, p, q, r) (filled, omega (arith, bound))

      from_output :
          result.failure ≡ none
          → ((v : World)
              → IsReady left
                  (attempts e task_id instruction context words unmarshal cli left (attempt + 1) v))
          → (o : Parsed) → parse_plan unmarshal result.output ≡ o
          → IsReady (suc left) all
      from_output p ih (parsed plan) q =
          rw (IsReady, attempts, p, q) ((normalize_plan-IsFilled plan instruction).0, omega arith)
      from_output p ih (unparsed text) q =
          from_cancelled text p q ih (is_cancelled context saved) refl

      from_failure :
          (f : Option Text)
          → result.failure ≡ f
          → ((v : World)
              → IsReady left
                  (attempts e task_id instruction context words unmarshal cli left (attempt + 1) v))
          → IsReady (suc left) all
      from_failure (some text) p ih = rw (IsReady, attempts, p) (tt, omega arith)
      from_failure none p ih = from_output p ih (parse_plan unmarshal result.output) refl

  run_attempts-IsReady :
      (w : World) → IsReady 2 (run_attempts e task_id instruction context words unmarshal cli w)
  unfolding run_attempts IsReady
  run_attempts-IsReady w = go (get_task e task_id w.store) refl
    where
      go :
          (found : Option Task)
          → get_task e task_id w.store ≡ found
          → IsReady 2 (run_attempts e task_id instruction context words unmarshal cli w)
      go none p = rw (IsReady, run_attempts, p) (tt, omega arith)
      go (some t) p = rw (run_attempts, p) (attempts-IsReady 2 0 w)

-- Whatever the CLI and the decoder do, planning comes back with a plan whose trees all have a name,
-- an objective, a prompt and a scope, and has asked the CLI twice at most; so does the decision.
pub run_gardener_plan-IsReady :
    (e : Env) (run : Run) (unmarshal : Text → Parsed) (cli : ℕ → World → World × CliResult)
    (instruction : Text) (w : World)
    → let planned = run_gardener_plan e run unmarshal cli instruction w in
      let decided = run_gardener_decision e run unmarshal cli w in
      (All IsFilled planned.plan.trees × (planned.asked ≤ 2))
      × (All IsFilled decided.plan.trees × (decided.asked ≤ 2))
unfolding run_gardener_plan run_gardener_decision IsReady
run_gardener_plan-IsReady e run unmarshal cli instruction w = (
  run_attempts-IsReady e run.task_id instruction run.context planning_words unmarshal cli w,
  run_attempts-IsReady e run.task_id (text_of "验证后续决策") run.context decision_words unmarshal cli w,
)
