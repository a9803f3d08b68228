-- ===== src/Instructions/Query.antt =====
-- isProgressQuery and buildProgressQueryAnswer of internal/app/orchestrator.go: a question about
-- progress is told from an instruction, and is answered from the stored progress.
use auto_gardener.Base.{
  Bool, List, String, [], false, if◌then◌else◌, is_nil, last?, leb, length, ltb, none, not, reverse,
  some, true, ℕ, ◌&&◌, ◌*◌, ◌++◌, ◌/◌, ◌==◌, ◌||◌, ◌∷◌,
}
use auto_gardener.Models.{Env, Task, Tree, is_running}
use auto_gardener.Runtime.{elapsed, second}
use auto_gardener.Text.{Text, clip, contains, join, text_of, to_lower, trim_space, without_spaces}
use auto_gardener.Text.Number.{itoa}

instruction_words : List String
instruction_words =
    "修复" ∷ "修改" ∷ "改成" ∷ "实现" ∷ "添加" ∷ "新增" ∷ "创建" ∷ "生成" ∷ "写" ∷ "删除" ∷ "重构" ∷ "fix" ∷ "change"
    ∷ "modify" ∷ "implement" ∷ "add" ∷ "create" ∷ "write" ∷ "delete" ∷ "refactor" ∷ []

explicit_progress_words : List String
explicit_progress_words =
    "进度" ∷ "做到哪" ∷ "到哪" ∷ "完成了吗" ∷ "好了没" ∷ "还在" ∷ "卡住" ∷ "有动静" ∷ "当前情况" ∷ "现在如何" ∷ "progress"
    ∷ "how is it" ∷ "how's it" ∷ "still running" ∷ "stuck" ∷ "any update" ∷ "update?" ∷ []

status_only_words : List String
status_only_words = "状态" ∷ "怎么样" ∷ "怎样了" ∷ "status" ∷ []

-- The test of one keyword, on the text and on the text without its spaces.
mentions : Text → String → Bool
unfolding contains without_spaces text_of
mentions text word =
    contains (without_spaces text) (without_spaces (text_of word)) || contains text (text_of word)

mentions_any : Text → List String → Bool
unfolding mentions
mentions_any text [] = false
mentions_any text (w ∷ ws) = mentions text w || mentions_any text ws

unfoldable pub is_progress_query : Text → Bool
unfolding mentions_any instruction_words explicit_progress_words status_only_words to_lower
    trim_space
is_progress_query content =
    let text = to_lower (trim_space content) in
    if is_nil text
    then false
    else if mentions_any text explicit_progress_words
    then true
    else if mentions_any text status_only_words
    then (if mentions_any text instruction_words then false else leb (length text) 80)
    else false

-- progressQuerySnippet
snippet : Text → Text
unfolding trim_space clip text_of
snippet s = clip 240 (text_of "...") (trim_space s)

-- The rows from a log, newest line first, until there are `limit` of them.
log_rows : ℕ → List Text → List Text → List Text
unfolding snippet
log_rows limit rows [] = rows
log_rows limit rows (line ∷ more) =
    let shown = snippet line in
    log_rows limit
      (if ltb (length rows) limit && not (is_nil shown)
        then rows ++ (text_of "- " ++ shown) ∷ []
        else rows)
      more

tree_row : List Text → Tree → List Text
unfolding snippet
tree_row rows tree = elim (last? tree.progress) [
  | none ↦ rows
  | some line ↦
      if is_nil (snippet line)
      then rows
      else rows ++ (text_of "- " ++ (snippet tree.name ++ (text_of "：" ++ snippet line))) ∷ []
]

tree_rows : List Text → List Tree → List Text
unfolding tree_row
tree_rows rows [] = rows
tree_rows rows (tree ∷ more) =
    tree_rows (if ltb (length rows) 6 then tree_row rows tree else rows) more

unfoldable pub latest_human_progress : Task → Text
unfolding log_rows tree_rows
latest_human_progress t =
    join (10 ∷ []) (tree_rows (log_rows 3 [] (reverse t.gardener_progress)) (reverse t.trees))

unfoldable pub build_progress_query_answer : Env → Task → Text
unfolding latest_human_progress
build_progress_query_answer e t =
    let latest = latest_human_progress t in
    let idle = elapsed e.now t.updated_at in
    (if is_running t.status
      then text_of "当前任务仍在运行中。你这次只是查看进度，没有中断正在执行的工作。"
      else text_of "当前任务已暂停或结束。如果你觉得还没完成，可以点击“继续任务”。")
    ++ ((if is_nil latest then [] else text_of "\n\n最近进展：\n" ++ latest)
        ++ (if not (t.updated_at == 0) && leb (300 * second) idle && is_running t.status
            then text_of "\n\n提示：界面已经约 "
              ++ (itoa (idle / (60 * second))
                  ++ text_of " 分钟没有收到新的输出。长任务可能仍在底层 CLI 中运行；如果后续自动暂停，我会在聊天区给出原因和继续入口。")
            else []))
