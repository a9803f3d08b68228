-- ===== src/Models.antt =====
-- internal/app/models.go: the data of a task, its trees and messages.
-- A `time.Time` is the count of nanoseconds since the zero time of Go, so that 0 is `IsZero`, and
-- `*time.Time` is an `Option`. Lists of pointers hold no nil: the program stores none.
use auto_gardener.Base.{Bool, List, Option, false, true, ℕ, ◌++◌, ◌∷◌}
use auto_gardener.Text.{Text}

-- Status is a string in Go; `other` is a string read from disk that is neither constant.
pub data Status : Type 0 where
  running : Status
  finished : Status
  other : Text → Status

pub data MessageRole : Type 0 where
  user gardener system : MessageRole
  other_role : Text → MessageRole

abbrev pub is_running : Status → Bool
is_running running = true
is_running _ = false

abbrev pub is_finished : Status → Bool
is_finished finished = true
is_finished _ = false

abbrev pub is_system : MessageRole → Bool
is_system system = true
is_system _ = false

abbrev pub is_gardener : MessageRole → Bool
is_gardener gardener = true
is_gardener _ = false

pub record Message : Type 0 where
  pub id : Text
  pub role : MessageRole
  pub content : Text
  pub created_at : ℕ

pub data Phase : Type 0 where
  unknown awaiting_user stopped done planning validating running_subtasks deciding : Phase
  working : Phase

pub data Severity : Type 0 where
  severity_ok severity_info severity_warning severity_blocked : Severity

pub record TaskRuntime : Type 0 where
  pub phase : Phase
  pub cue : Text
  pub severity : Severity
  pub idle_seconds : ℕ
  pub duration_seconds : ℕ
  pub running_trees : ℕ
  pub finished_trees : ℕ
  pub total_trees : ℕ
  pub latest_activity_at : Option ℕ
  pub can_ask_progress : Bool
  pub can_resume : Bool

pub record Tree : Type 0 where
  pub id : Text
  pub task_id : Text
  pub forest : ℕ
  pub name : Text
  pub objective : Text
  pub prompt : Text
  pub scope : List Text
  pub is_validation : Bool
  pub status : Status
  pub progress : List Text
  pub fruit_path : Text
  pub goal_path : Text
  pub started_at : Option ℕ
  pub completed_at : Option ℕ
  pub updated_at : ℕ

pub record Task : Type 0 where
  pub id : Text
  pub title : Text
  pub prompt : Text
  pub workspace_path : Text
  pub scratch_path : Text
  pub cli_engine : Text
  pub model_mode : Text
  pub status : Status
  pub gardener_status : Status
  pub forest : ℕ
  pub max_trees_per_forest : ℕ
  pub max_concurrent_trees : ℕ
  pub stop_requested : Bool
  pub awaiting_user_input : Bool
  pub schedule_path : Text
  pub log_path : Text
  pub trees : List Tree
  pub messages : List Message
  pub gardener_progress : List Text
  pub last_progress_at : Option ℕ
  pub last_watchdog_at : Option ℕ
  pub runtime : Option TaskRuntime
  pub created_at : ℕ
  pub updated_at : ℕ

pub record AppSettings : Type 0 where
  pub log_level : Text
  pub model_mode : Text
  pub cli_engine : Text
  pub minimax_token : Text
  pub kimi_token : Text
  pub minimax_token_configured : Bool
  pub kimi_token_configured : Bool

pub record TreePlan : Type 0 where
  pub name : Text
  pub objective : Text
  pub prompt : Text
  pub scope : List Text

pub record GardenerPlan : Type 0 where
  pub message_to_user : Text
  pub forest_finished : Bool
  pub needs_clarification : Bool
  pub clarification_question : Text
  pub trees : List TreePlan

-- What a call reads from outside: the clock, the offset of the local zone in seconds, the
-- environment variables, and whether its writes of a task's files, its write of the settings and
-- its removals of directories succeed. `suffix n` is the random part of the n-th new identity.
pub record Env : Type 0 where
  pub now : ℕ
  pub utc_offset : ℕ
  pub getenv : Text → Text
  pub persists : Text → Bool
  pub settings_persist : Bool
  pub removes : Bool
  pub suffix : ℕ → Text

-- newID
abbrev pub new_id : Env → ℕ → Text → Text
new_id e n prefix = prefix ++ (b'_' ∷ e.suffix n)
