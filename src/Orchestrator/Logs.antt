-- ===== src/Orchestrator/Logs.antt =====
-- Which lines of a CLI reach the log: codexLogLine and its helpers in internal/app/orchestrator.go.
pub mod Shown
use auto_gardener.Base.{
  Bool, List, Option, [], any, if◌then◌else◌, is_nil, none, not, some, ℕ, ◌&&◌, ◌||◌, ◌∷◌,
}
use auto_gardener.Settings.{log_level_normal, log_level_quiet, normalize_log_level}
use auto_gardener.Text.{
  Text, clip, contains, fields, has_prefix, join, text_eq, text_of, to_lower, trim_prefix,
  trim_space,
}
use auto_gardener.Usage.{is_mostly_number}

-- codex.Truncate
unfoldable pub truncate : ℕ → Text → Text
unfolding clip trim_space text_of
truncate n s = clip n (text_of "...") (trim_space s)

pub codex_log_summary : Text → ℕ → Text
unfolding truncate join fields text_of
codex_log_summary output max_runes = truncate max_runes (join (text_of " ") (fields output))

abbrev pub log_keywords : List Text
log_keywords =
    text_of "error"
    ∷ text_of "failed"
    ∷ text_of "failure"
    ∷ text_of "warning"
    ∷ text_of "success"
    ∷ text_of "created"
    ∷ text_of "updated"
    ∷ text_of "modified"
    ∷ text_of "written"
    ∷ text_of "wrote"
    ∷ text_of "test"
    ∷ text_of "build"
    ∷ text_of "done"
    ∷ text_of "complete"
    ∷ text_of "完成"
    ∷ text_of "失败"
    ∷ text_of "错误"
    ∷ text_of "警告"
    ∷ text_of "通过"
    ∷ text_of "生成"
    ∷ text_of "写入"
    ∷ text_of "修改"
    ∷ text_of "创建"
    ∷ text_of "测试"
    ∷ text_of "构建"
    ∷ []

unfoldable pub important_log_line : Text → Bool
unfolding contains to_lower has_prefix text_of
important_log_line line =
    any (contains (to_lower line)) log_keywords || has_prefix line (text_of "##")

-- A line is passed over, or shown in this form.
unfoldable pub codex_log_line : Text → Text → Option Text
unfolding truncate important_log_line is_mostly_number normalize_log_level trim_prefix to_lower
    trim_space has_prefix text_eq text_of
codex_log_line log_level raw =
    let level = normalize_log_level log_level in
    let line = trim_space raw in
    let cleaned = trim_space (trim_prefix line (text_of "stderr:")) in
    if is_nil line || text_eq level log_level_quiet
    then none
    else if is_nil cleaned
    then none
    else if has_prefix (to_lower cleaned) (text_of "tokens used") || is_mostly_number cleaned
    then none
    else if text_eq level log_level_normal && not (important_log_line cleaned)
    then none
    else some (truncate 500 cleaned)
