-- ===== src/Plan.antt =====
-- The plans of internal/app/orchestrator.go: normalizePlan, planNeedsClarification,
-- clarificationMessage, and the question asked of a vague first prompt.
pub mod Normal
use auto_gardener.Base.{
  Bool, List, String, [], false, if◌then◌else◌, is_nil, leb, length, ltb, not, true, ℕ, ◌&&◌, ◌++◌,
  ◌+◌, ◌||◌, ◌∷◌,
}
use auto_gardener.Models.{GardenerPlan, TreePlan}
use auto_gardener.Text.{
  Text, contains, fields, is_blank, text_eq, text_of, to_lower, trim_space, without_spaces,
}
use auto_gardener.Text.Number.{itoa}

unfoldable pub default_clarification_question : Text
unfolding text_of
default_clarification_question = text_of "我还需要一点信息才能开始，避免做偏：请补充你希望处理的对象、期望结果，以及是否有必须保留或不能修改的范围。"

or_default : Text → Text → Text
or_default fallback s = if is_blank s then fallback else s

tree_prompt : Text → Text → Text
tree_prompt objective instruction =
    text_of "你是 Gardener 派出的子任务执行 agent。请完成子任务："
    ++ (objective
        ++ (text_of "。本次用户指令："
            ++ (instruction
                ++ text_of
                    "。报告中使用任务、阶段、子任务、验证、报告、文件、工作区、进展等专业工作语言，不要使用 Forest/Tree/Fruit 等隐喻，也不要使用小队称呼。")))

-- The body of the loop over the trees, for the tree at index `i`.
normalize_tree : Text → ℕ → TreePlan → TreePlan
unfolding or_default tree_prompt
normalize_tree instruction i p =
    let name = or_default (text_of "Tree " ++ itoa (i + 1)) p.name in
    let objective = or_default name p.objective in
    record {
      name = name;
      objective = objective;
      prompt = or_default (tree_prompt objective instruction) p.prompt;
      scope = if is_nil p.scope then text_of "相关文件" ∷ [] else p.scope;
    }

pub normalize_trees : Text → ℕ → List TreePlan → List TreePlan
unfolding normalize_tree
normalize_trees instruction i [] = []
normalize_trees instruction i (p ∷ ps) =
    normalize_tree instruction i p ∷ normalize_trees instruction (i + 1) ps

unfoldable pub normalize_plan : GardenerPlan → Text → GardenerPlan
unfolding normalize_trees default_clarification_question
normalize_plan p instruction =
    let message = trim_space p.message_to_user in
    let question = trim_space p.clarification_question in
    if p.needs_clarification
    then record {
      message_to_user = message;
      forest_finished = true;
      needs_clarification = true;
      clarification_question = if is_nil question then default_clarification_question else question;
      trees = [];
    }
    else record p {
      message_to_user = message;
      clarification_question = question;
      trees = normalize_trees instruction 0 p.trees;
    }

unfoldable pub plan_needs_clarification : GardenerPlan → Bool
plan_needs_clarification p =
    p.needs_clarification || (not (is_blank p.clarification_question) && is_nil p.trees)

unfoldable pub clarification_message : GardenerPlan → Text
clarification_message p =
    if not (is_blank p.clarification_question)
    then p.clarification_question
    else if not (is_blank p.message_to_user)
    then p.message_to_user
    else default_clarification_question

-- GardenerPlan{ForestFinished: true}
abbrev pub finished_plan : GardenerPlan
finished_plan = record {
  message_to_user = [];
  forest_finished = true;
  needs_clarification = false;
  clarification_question = [];
  trees = [];
}

vague_phrases : List String
vague_phrases =
    "帮我看看" ∷ "看一下" ∷ "处理一下" ∷ "改一下" ∷ "弄一下" ∷ "做一下" ∷ "优化一下" ∷ "完善一下" ∷ "修复bug" ∷ "修bug" ∷ "解决问题"
    ∷ "fix bug" ∷ "fix it" ∷ "improve it" ∷ "optimize it" ∷ "make it better" ∷ "do this" ∷ "help me"
    ∷ []

-- One turn of the loop over the phrases, for the trimmed and lowered prompt.
is_vague_as : Text → Text → Bool
unfolding to_lower without_spaces contains text_eq fields
is_vague_as lower phrase =
    let needle = to_lower phrase in
    let compact = without_spaces lower in
    let compact_needle = without_spaces needle in
    (contains compact compact_needle || contains lower needle)
    && (text_eq compact compact_needle
        || leb (length lower) (length phrase + 4)
        || (contains needle (b' ' ∷ []) && leb (length (fields lower)) 3))

any_vague : Text → List String → Bool
unfolding is_vague_as text_of
any_vague lower [] = false
any_vague lower (p ∷ ps) = is_vague_as lower (text_of p) || any_vague lower ps

unfoldable pub vague_prompt_question : Text
vague_prompt_question = text_of "我还不确定你具体想让我做什么。请补充 1）要处理的页面、文件、功能或问题现象；2）你期望的结果或验收标准；3）是否有不能修改的范围。"

unfoldable pub clarification_question_for_initial_prompt : Text → Text
unfolding any_vague vague_phrases trim_space to_lower fields
clarification_question_for_initial_prompt prompt =
    let text = trim_space prompt in
    let lower = to_lower text in
    if is_nil text
    then []
    else if ltb 28 (length text) && ltb 6 (length (fields lower))
    then []
    else if any_vague lower vague_phrases
    then vague_prompt_question
    else []
