-- ===== src/Instructions.antt =====
-- The instructions and answers that internal/app/orchestrator.go writes for an agent or the user.
pub mod Query
use auto_gardener.Base.{
  Bool, List, [], if◌then◌else◌, is_nil, not, reverse, ℕ, ◌&&◌, ◌++◌, ◌||◌, ◌∷◌,
}
use auto_gardener.Models.{
  Message, Severity, Task, is_gardener, severity_blocked, severity_info, severity_ok,
  severity_warning,
}
use auto_gardener.Plan.{default_clarification_question}
use auto_gardener.Text.{Text, contains, is_blank, text_of, trim_space}
use auto_gardener.Text.Number.{itoa}

-- taskWorkDir
unfoldable pub task_work_dir : Task → Text
task_work_dir t = if is_blank t.scratch_path then t.workspace_path else t.scratch_path

unfoldable pub build_resume_instruction : Task → Text
unfolding task_work_dir
build_resume_instruction t =
    text_of
      "服务刚刚启动，请继续这个尚未完成的任务。\n\n要求：\n- 不要重复已经足够完成的工作。\n- 先检查交付目录、schedule、已有子任务报告和当前文件。\n- 如果已有成果足够，直接给出 message_to_user 并结束。\n- 如果仍缺少内容，请继续派出新的子任务完成剩余工作。\n\n任务 ID: "
    ++ (t.id
        ++ (text_of "\n任务标题: "
            ++ (t.title
                ++ (text_of "\noutputPath: "
                    ++ (t.workspace_path
                        ++ (text_of "\nscratchPath: "
                            ++ (task_work_dir t
                                ++ (text_of "\n当前阶段: " ++ (itoa t.forest ++ (text_of "\n"))))))))))

unfoldable pub build_continue_instruction : Task → Text
unfolding task_work_dir
build_continue_instruction t =
    text_of
      "用户点击了“继续任务”。请从当前进度继续，而不是从头重做。\n\n要求：\n- 先检查交付目录、schedule、已有子任务报告、验证报告、progress.log 和当前文件状态。\n- 如果任务已经足够完成，请向用户说明已完成，并结束。\n- 如果仍有缺口、失败、冲突、半成品或未交付内容，请继续派出新的子任务完成剩余工作。\n- 如果上一次是因为 CLI 异常、JSON 解析失败或用户手动停止而暂停，请优先定位未完成部分并继续。\n\n任务 ID: "
    ++ (t.id
        ++ (text_of "\n任务标题: "
            ++ (t.title
                ++ (text_of "\noutputPath: "
                    ++ (t.workspace_path
                        ++ (text_of "\nscratchPath: "
                            ++ (task_work_dir t
                                ++ (text_of "\n当前阶段: " ++ (itoa t.forest ++ (text_of "\n"))))))))))

is_awaiting_clarification_status_message : Text → Bool
unfolding contains trim_space text_of
is_awaiting_clarification_status_message raw =
    let content = trim_space raw in
    contains content (text_of "正等你补充需求")
    || contains content (text_of "请直接回答上面的问题")
    || contains content (text_of "waiting for your clarification")

-- The messages from the newest to the oldest.
newest_question : List Message → Text
unfolding is_awaiting_clarification_status_message
newest_question [] = []
newest_question (m ∷ ms) =
    let rest = newest_question ms in
    let content = trim_space m.content in
    if is_gardener m.role
      && not (is_nil content)
      && not (is_awaiting_clarification_status_message content)
    then content
    else rest

unfoldable pub latest_gardener_question : Task → Text
unfolding newest_question
latest_gardener_question t = newest_question (reverse t.messages)

unfoldable pub build_clarification_reply_instruction : Task → Text → Text
unfolding latest_gardener_question task_work_dir
build_clarification_reply_instruction t reply =
    let asked = latest_gardener_question t in
    let question = if is_nil asked then default_clarification_question else asked in
    text_of
      "用户正在回答 Gardener 上一次的澄清问题。请结合原始任务、澄清问题和用户补充重新判断下一步。\n\n要求：\n- 不要把这条补充当成全新的独立任务；它是对原始任务的补充。\n- 如果用户补充已经足够，请继续规划并派发后续子任务。\n- 如果仍然缺少继续前必须确认的信息，可以再次反问；但最多问 3 个关键问题，并尽量给出用户可直接选择/回答的选项。\n- 如果用户补充与原始任务冲突，请优先反问确认，不要自行猜测。\n\n任务 ID: "
    ++ (t.id
        ++ (text_of "\n任务标题: "
            ++ (t.title
                ++ (text_of "\n原始任务: "
                    ++ (t.prompt
                        ++ (text_of "\n上一次澄清问题: "
                            ++ (question
                                ++ (text_of "\n用户补充: "
                                    ++ (reply
                                        ++ (text_of "\noutputPath: "
                                            ++ (t.workspace_path
                                                ++ (text_of "\nscratchPath: "
                                                    ++ (task_work_dir t
                                                        ++ (text_of "\n当前阶段: "
                                                            ++ (itoa t.forest
                                                            ++ (text_of "\n"))))))))))))))))

unfoldable pub silent_watchdog_instruction_prefix : Text
unfolding text_of
silent_watchdog_instruction_prefix = text_of "[[GARDENER_SILENT_WATCHDOG]]"

severity_text : Severity → Text
severity_text severity_ok = text_of "ok"
severity_text severity_info = text_of "info"
severity_text severity_warning = text_of "warning"
severity_text severity_blocked = text_of "blocked"

unfoldable pub build_watchdog_instruction : Task → ℕ → Severity → Text
unfolding severity_text task_work_dir
build_watchdog_instruction t idle_minutes severity =
    silent_watchdog_instruction_prefix
    ++ (10
        ∷ (text_of "系统检测到这个任务已经约 "
            ++ (itoa idle_minutes
                ++ (text_of
                      " 分钟没有新的输出。请作为 Gardener 在后台自查，而不是直接打扰用户。\n\n要求：\n- 先检查交付目录、schedule、已有子任务报告、验证报告、progress.log 和当前文件状态。\n- 如果底层 CLI 可能只是长时间运行但已有进展，请判断是否需要拆分、续跑或等待；不要给用户发送普通状态提醒。\n- 如果已有成果足够完成，请设置 forest_finished=true，并把 message_to_user 留空。\n- 如果仍有缺口、失败、冲突、半成品或未交付内容，请继续派出新的子任务完成剩余工作，message_to_user 留空。\n- 只有当继续前必须由用户确认取舍、补充缺失信息、提供凭据或选择方向时，才设置 needs_clarification=true 并写 clarification_question。\n- 除非 needs_clarification=true，否则 message_to_user 必须为空字符串，避免用普通状态提示打扰用户。\n\n任务 ID: "
                    ++ (t.id
                        ++ (text_of "\n任务标题: "
                            ++ (t.title
                                ++ (text_of "\noutputPath: "
                                    ++ (t.workspace_path
                                        ++ (text_of "\nscratchPath: "
                                            ++ (task_work_dir t
                                                ++ (text_of "\n当前阶段: "
                                                    ++ (itoa t.forest
                                                        ++ (text_of "\n运行时严重级别: "
                                                            ++ (severity_text severity
                                                            ++ (text_of "\n"))))))))))))))))
