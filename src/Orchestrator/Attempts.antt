-- ===== src/Orchestrator/Attempts.antt =====
-- runGardenerPlan and runGardenerDecision of internal/app/orchestrator.go: the CLI is asked for a
-- plan, once more if its output is not a plan, and its failures end the run.
pub mod Bounds
use auto_gardener.Base.{
  List, Option, [], false, if◌then◌else◌, is_nil, none, some, suc, true, zero, ℕ, ◌++◌, ◌+◌, ◌==◌,
  ◌∷◌,
}
use auto_gardener.Models.{Env, GardenerPlan}
use auto_gardener.Orchestrator.{Run, World, append_system_message, is_cancelled, log}
use auto_gardener.Plan.{finished_plan, normalize_plan}
use auto_gardener.Store.{get_task}
use auto_gardener.Text.{Text, clip, fields, join, text_of}
use auto_gardener.Text.Number.{itoa}

-- json.Unmarshal into a GardenerPlan: the plan, or the text of the error.
pub data Parsed : Type 0 where
  parsed : GardenerPlan → Parsed
  unparsed : Text → Parsed

-- What the CLI left: its output, and the text of its error if it failed.
pub record CliResult : Type 0 where
  pub output : Text
  pub failure : Option Text

-- The text from the first opening brace on.
from_open : Text → Text
from_open [] = []
from_open (c ∷ s) = let rest = from_open s in if c == b'{' then c ∷ s else rest

-- The text up to the last closing brace, empty if there is none.
up_to_close : Text → Text
up_to_close [] = []
up_to_close (c ∷ s) =
    let rest = up_to_close s in if is_nil rest then (if c == b'}' then c ∷ [] else []) else c ∷ rest

unfoldable pub parse_plan : (Text → Parsed) → Text → Parsed
unfolding from_open up_to_close text_of
parse_plan unmarshal s =
    let object = up_to_close (from_open s) in
    if is_nil object then unparsed (text_of "未找到 JSON 对象") else unmarshal object

-- The lines in which the two functions differ.
pub record Wording : Type 0 where
  pub retrying : ℕ → Text
  pub saved : ℕ → List Text
  pub cancelled_failure : Text → Text
  pub failed : Text → Text
  pub apology : Text
  pub unread : Text
  pub malformed : Text → Text
  pub summary : Text
  pub exhausted : Text

-- The world, the plan and how often the CLI was asked.
pub record Planned : Type 0 where
  pub world : World
  pub plan : GardenerPlan
  pub asked : ℕ

abbrev pub max_gardener_json_retry_attempts : ℕ
max_gardener_json_retry_attempts = 1

pub log_all : Env → Text → List Text → World → World
log_all e task_id [] w = w
log_all e task_id (line ∷ lines) w = log_all e task_id lines (log e task_id line w)

-- The CLI is a parameter: what attempt `n` leaves of the world, with the lines that it logged and
-- with what other goroutines did meanwhile, and its result.
module _ (e : Env) (task_id instruction : Text) (context : ℕ) (words : Wording)
    (unmarshal : Text → Parsed) (cli : ℕ → World → World × CliResult) where
  -- result.Err != nil
  after_failure : Text → World → World
  after_failure text w =
      if is_cancelled context w
      then log e task_id (words.cancelled_failure text) w
      else append_system_message e task_id words.apology (log e task_id (words.failed text) w)

  started_attempt : ℕ → World → World
  started_attempt zero w = w
  started_attempt (suc n) w = log e task_id (words.retrying (suc n)) w

  log_malformed : Text → Text → World → World
  log_malformed text output w =
      log e task_id (words.summary ++ clip 1200 (text_of "...") (join (32 ∷ []) (fields output)))
        (log e task_id (words.malformed text) w)

  -- `left` attempts from the one with number `attempt` on.
  pub attempts : ℕ → ℕ → World → Planned
  unfolding after_failure started_attempt log_malformed parse_plan
  attempts zero attempt w = record {
    world = append_system_message e task_id words.exhausted w;
    plan = finished_plan;
    asked = 0;
  }
  attempts (suc left) attempt w =
      let (w', result) = cli attempt (started_attempt attempt w) in
      let w'' = log_all e task_id (words.saved attempt) w' in
      elim result.failure [
        | some text ↦ record { world = after_failure text w'; plan = finished_plan; asked = 1 }
        | none ↦ elim (parse_plan unmarshal result.output) [
          | parsed p ↦ record { world = w''; plan = normalize_plan p instruction; asked = 1 }
          | unparsed text ↦ elim (is_cancelled context w'') [
            | true ↦ record {
              world = log e task_id words.unread w'';
              plan = finished_plan;
              asked = 1;
            }
            | false ↦
                let rest = attempts left (attempt + 1) (log_malformed text result.output w'') in
                record rest { asked = rest.asked + 1 }
          ]
        ]
      ]

  run_attempts : World → Planned
  unfolding attempts
  run_attempts w = elim (get_task e task_id w.store) [
    | none ↦ record { world = w; plan = finished_plan; asked = 0 }
    | some t ↦ attempts (max_gardener_json_retry_attempts + 1) 0 w
  ]

unfoldable pub planning_words : Wording
unfolding text_of
planning_words = record {
  retrying = λ n. text_of "Gardener 规划输出不是有效 JSON，正在自动重试第 " ++ (itoa n ++ text_of " 次。");
  saved = λ n.
      (if n == 0
        then text_of "Gardener 规划原始输出已保存。"
        else text_of "Gardener 规划自动重试第 " ++ (itoa n ++ text_of " 次输出已保存。"))
      ∷ [];
  cancelled_failure = λ text.
      text_of "Gardener 规划失败，未创建任何子任务：" ++ (text ++ text_of "；该 run 已被新的用户指令或继续任务请求取消，不向用户显示模型失败。");
  failed = λ text. text_of "Gardener 规划失败，未创建任何子任务：" ++ text;
  apology = text_of "本次请求没有完成：底层 CLI 或模型连接失败。请检查设置中的 CLI / 模型配置后，点击“继续任务”重试。";
  unread = text_of "Gardener 规划输出解析前 run 已取消，不向用户显示格式异常。";
  malformed = λ text. text_of "Gardener 输出不是有效调度 JSON：" ++ text;
  summary = text_of "无效 Gardener 输出摘要：";
  exhausted = text_of "规划结果格式异常，已自动重试但仍未恢复。你可以点击“继续任务”，Gardener 会重新检查当前文件并继续。";
}

unfoldable pub decision_words : Wording
unfolding text_of
decision_words = record {
  retrying = λ n. text_of "Gardener 决策输出不是有效 JSON，正在自动重试第 " ++ (itoa n ++ text_of " 次。");
  saved = λ n. [];
  cancelled_failure = λ text. text_of "Gardener 决策 run 已被新的用户指令或继续任务请求取消：" ++ text;
  failed = λ text. text_of "Gardener 决策失败：" ++ text;
  apology = text_of "后续判断没有完成：底层 CLI 或模型连接失败。请检查设置中的 CLI / 模型配置后，点击“继续任务”重试。";
  unread = text_of "Gardener 决策输出解析前 run 已取消，不向用户显示格式异常。";
  malformed = λ text. text_of "解析 Gardener 决策 JSON 失败：" ++ text;
  summary = text_of "无效 Gardener 决策输出摘要：";
  exhausted = text_of "后续判断结果格式异常，已自动重试但仍未恢复。你可以点击“继续任务”，Gardener 会重新检查当前进度并继续。";
}

module _ (e : Env) (run : Run) (unmarshal : Text → Parsed)
    (cli : ℕ → World → World × CliResult) where
  unfoldable pub run_gardener_plan : Text → World → Planned
  unfolding run_attempts planning_words
  run_gardener_plan instruction w =
      run_attempts e run.task_id instruction run.context planning_words unmarshal cli w

  unfoldable pub run_gardener_decision : World → Planned
  unfolding run_attempts decision_words
  run_gardener_decision w =
      run_attempts e run.task_id (text_of "验证后续决策") run.context decision_words unmarshal cli w
