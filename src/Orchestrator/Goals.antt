-- ===== src/Orchestrator/Goals.antt =====
-- The goal of a tree and the verdict on its output, in internal/app/orchestrator.go. The functions of
-- path/filepath are parameters: `dir`, `rel` and `is_abs` are Dir, Rel and IsAbs.
pub mod Within
use auto_gardener.Base.{
  Bool, List, Option, [], any, false, if◌then◌else◌, is_nil, none, not, some, true, ◌&&◌, ◌++◌,
  ◌||◌, ◌∷◌,
}
use auto_gardener.Models.{Task, Tree}
use auto_gardener.Orchestrator.Creation.{Paths}
use auto_gardener.Text.{
  Text, contains, has_prefix, is_blank, text_eq, text_of, to_lower, trim_space,
}

-- codex.GoalSpec
pub record GoalSpec : Type 0 where
  pub id : Text
  pub title : Text
  pub objective : Text
  pub success_criteria : List Text
  pub path : Text

pub human_goal_title : Tree → Text
unfolding trim_space text_of
human_goal_title tree =
    let trimmed = trim_space tree.name in
    let name = if is_nil trimmed then tree.id else trimmed in
    if tree.is_validation then text_of "验证子任务：" ++ name else text_of "完成子任务：" ++ name

scope_criteria : List Text → List Text
unfolding trim_space text_of
scope_criteria [] = []
scope_criteria (scope ∷ scopes) =
    let rest = scope_criteria scopes in
    let trimmed = trim_space scope in
    if is_nil trimmed then rest else (text_of "重点范围：" ++ trimmed) ∷ rest

base_criteria : Bool → List Text
unfolding text_of
base_criteria false =
    text_of "只完成本子任务目标，不越界处理其他子任务职责。"
    ∷ text_of "在 workspace 中完成必要的文件修改或检查，并保留可追溯证据。"
    ∷ text_of "最终报告明确说明 goal 状态、已改文件、验证方式、风险和下一步建议。"
    ∷ []
base_criteria true =
    text_of "检查本阶段普通子任务成果是否完整、冲突是否解决。"
    ∷ text_of "运行可行的测试、构建或静态检查，并记录结果。"
    ∷ text_of "明确给出是否可以交付，以及仍需修复的具体问题。"
    ∷ []

pub goal_criteria : Tree → List Text
unfolding base_criteria scope_criteria
goal_criteria tree = base_criteria tree.is_validation ++ scope_criteria tree.scope

module _ (f : Paths) (dir : Text → Text) (is_abs : Text → Bool)
    (rel : Text → Text → Option Text) where
  is_at_or_below : Text → Text → Bool
  unfolding text_eq has_prefix text_of
  is_at_or_below root path = text_eq path root || (elim (rel root path) [
    | none ↦ false
    | some r ↦ not (text_eq r (text_of ".")) && not (has_prefix r (text_of "..")) && not (is_abs r)
  ])

  unfoldable pub path_within_root : Text → Text → Bool
  unfolding is_at_or_below is_blank
  path_within_root root path =
      if is_blank root || is_blank path then false else (elim (f.abs (f.clean root)) [
        | none ↦ false
        | some root_abs ↦ elim (f.abs (f.clean path)) [
          | none ↦ false
          | some path_abs ↦ is_at_or_below root_abs path_abs
        ]
      ])

  pub tree_goal_path : Text → Text → Text → Text
  unfolding text_of
  tree_goal_path data_dir task_id tree_id =
      f.join_path
        (f.join_path
          (f.join_path (f.join_path (f.join_path data_dir (text_of "forests")) task_id)
            (text_of "trees"))
          tree_id)
        (text_of "goal.md")

  unfoldable pub tree_goal_spec : Text → Task → Tree → GoalSpec
  unfolding tree_goal_path path_within_root human_goal_title goal_criteria trim_space
  tree_goal_spec data_dir task tree =
      let own_path = trim_space tree.goal_path in
      let default_path = tree_goal_path data_dir task.id tree.id in
      record {
        id = tree.id;
        title = human_goal_title tree;
        objective = trim_space tree.objective;
        success_criteria = goal_criteria tree;
        path =
            if is_nil own_path || not (path_within_root (dir default_path) own_path)
            then default_path
            else own_path;
      }

abbrev pub blocked_hints : List Text
blocked_hints =
    text_of "goal status: blocked"
    ∷ text_of "status: blocked"
    ∷ text_of "blocked"
    ∷ text_of "cannot complete"
    ∷ text_of "can't complete"
    ∷ text_of "unable to complete"
    ∷ text_of "too large"
    ∷ text_of "too big"
    ∷ text_of "out of scope"
    ∷ text_of "need more context"
    ∷ text_of "缺少"
    ∷ text_of "无法完成"
    ∷ text_of "不能完成"
    ∷ text_of "阻塞"
    ∷ text_of "被阻塞"
    ∷ text_of "任务量太大"
    ∷ text_of "不建议继续"
    ∷ text_of "需要用户"
    ∷ text_of "需要更多"
    ∷ []

abbrev pub partial_hints : List Text
partial_hints =
    text_of "goal status: partial"
    ∷ text_of "status: partial"
    ∷ text_of "partial"
    ∷ text_of "partially"
    ∷ text_of "部分完成"
    ∷ text_of "未全部完成"
    ∷ text_of "尚未完成"
    ∷ []

-- The status that a report gives; its note is fixed by the status and the failure.
pub data GoalStatus : Type 0 where
  goal_blocked goal_partial goal_complete : GoalStatus

unfoldable pub infer_goal_status : Text → Bool → GoalStatus
unfolding contains to_lower trim_space
infer_goal_status output has_error =
    let lower = to_lower (trim_space output) in
    if has_error
    then goal_blocked
    else if any (contains lower) blocked_hints
    then goal_blocked
    else if any (contains lower) partial_hints
    then goal_partial
    else goal_complete
