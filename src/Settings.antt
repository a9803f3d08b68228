-- ===== src/Settings.antt =====
-- The settings of internal/app/store.go: their normal forms, and publicSettings of server.go.
pub mod Laws
use auto_gardener.Base.{
  Bool, List, String, [], false, if◌then◌else◌, map, not, ℕ, ◌&&◌, ◌==◌, ◌||◌, ◌∷◌,
}
use auto_gardener.Models.{AppSettings, Env}
use auto_gardener.Text.{Text, first_non_empty, is_blank, text_eq, text_of, to_lower, trim_space}

abbrev pub log_level_quiet : Text
unfolding text_of
log_level_quiet = text_of "quiet"

abbrev pub log_level_normal : Text
unfolding text_of
log_level_normal = text_of "normal"

abbrev pub model_mode_default : Text
unfolding text_of
model_mode_default = text_of "default"

abbrev pub model_mode_minimax : Text
unfolding text_of
model_mode_minimax = text_of "MiniMax-M3"

abbrev pub model_mode_kimi : Text
unfolding text_of
model_mode_kimi = text_of "kimi-k2.7-code"

abbrev pub cli_engine_codex : Text
unfolding text_of
cli_engine_codex = text_of "codex"

abbrev pub cli_engine_claude : Text
unfolding text_of
cli_engine_claude = text_of "claude"

-- A `case` with several texts.
unfoldable pub is_one_of : Text → List String → Bool
unfolding text_eq text_of
is_one_of s [] = false
is_one_of s (k ∷ ks) = text_eq s (text_of k) || is_one_of s ks

unfoldable pub normalize_log_level : Text → Text
unfolding is_one_of text_of
normalize_log_level level =
    if is_one_of level ("quiet" ∷ "normal" ∷ "detailed" ∷ []) then level else log_level_quiet

unfoldable pub normalize_model_mode : Text → Text
unfolding is_one_of text_of to_lower trim_space
normalize_model_mode mode =
    let value = to_lower (trim_space mode) in
    if is_one_of value ("default" ∷ "" ∷ [])
    then model_mode_default
    else if is_one_of value
        ("minimaxm2.7" ∷ "minimax-m2.7" ∷ "minimaxm3" ∷ "minimax-m3" ∷ "minimax-m3" ∷ [])
    then model_mode_minimax
    else if is_one_of value (
        "kimi-k2.7" ∷ "kimi-k2.7-code" ∷ "kimik2.7" ∷ "kimik2.7-code" ∷ "kimik2.6" ∷ "kimi-k2.6"
        ∷ "kimi-coding" ∷ [])
    then model_mode_kimi
    else model_mode_default

abbrev pub dash_for_underscore : ℕ → ℕ
dash_for_underscore c = if c == b'_' then b'-' else c

unfoldable pub normalize_cli_engine : Text → Text
unfolding is_one_of text_of to_lower trim_space
normalize_cli_engine engine =
    let value = map dash_for_underscore (to_lower (trim_space engine)) in
    if is_one_of value ("codex" ∷ "openai-codex" ∷ "codex-cli" ∷ "openai" ∷ [])
    then cli_engine_codex
    else if is_one_of value ("claude" ∷ "claude-code" ∷ "claude-cli" ∷ "anthropic" ∷ "cloud" ∷ [])
    then cli_engine_claude
    else cli_engine_codex

unfoldable pub compatible_cli_engine : Text → Text → Text
unfolding text_eq text_of
compatible_cli_engine engine mode =
    let engine' = normalize_cli_engine engine in
    let mode' = normalize_model_mode mode in
    if (text_eq mode' model_mode_kimi || text_eq mode' model_mode_minimax)
      && text_eq engine' cli_engine_codex
    then cli_engine_claude
    else engine'

-- The tokens that the environment bundles.
unfoldable pub bundled_minimax_token : Env → Text
bundled_minimax_token e = first_non_empty (
    e.getenv (text_of "AUTO_GARDENER_MINIMAX_TOKEN")
    ∷ e.getenv (text_of "AUTO_GARDENER_MINIMAX_API_KEY")
    ∷ e.getenv (text_of "GARDENER_MINIMAX_API_KEY")
    ∷ e.getenv (text_of "MINIMAX_API_KEY")
    ∷ [])

unfoldable pub bundled_kimi_token : Env → Text
bundled_kimi_token e = first_non_empty (
    e.getenv (text_of "AUTO_GARDENER_KIMI_TOKEN")
    ∷ e.getenv (text_of "AUTO_GARDENER_KIMI_API_KEY")
    ∷ e.getenv (text_of "GARDENER_KIMI_API_KEY")
    ∷ e.getenv (text_of "KIMI_API_KEY")
    ∷ e.getenv (text_of "MOONSHOT_API_KEY")
    ∷ e.getenv (text_of "ANTHROPIC_AUTH_TOKEN")
    ∷ [])

unfoldable pub apply_bundled_provider_tokens : Env → AppSettings → AppSettings
apply_bundled_provider_tokens e s = record s {
  minimax_token = if is_blank s.minimax_token then bundled_minimax_token e else s.minimax_token;
  kimi_token = if is_blank s.kimi_token then bundled_kimi_token e else s.kimi_token;
}

unfoldable pub default_settings : Env → AppSettings
default_settings e = apply_bundled_provider_tokens e (record {
  log_level = log_level_quiet;
  model_mode = model_mode_default;
  cli_engine = cli_engine_codex;
  minimax_token = [];
  kimi_token = [];
  minimax_token_configured = false;
  kimi_token_configured = false;
})

unfoldable pub normalize_settings : Env → AppSettings → AppSettings
unfolding apply_bundled_provider_tokens
normalize_settings e s =
    let s' = apply_bundled_provider_tokens e s in
    let mode = normalize_model_mode s'.model_mode in
    record s' {
      log_level = normalize_log_level s'.log_level;
      model_mode = mode;
      cli_engine = compatible_cli_engine s'.cli_engine mode;
    }

unfoldable pub public_settings : Env → AppSettings → AppSettings
public_settings e s =
    let s' = normalize_settings e s in
    record s' {
      minimax_token_configured = not (is_blank s'.minimax_token);
      kimi_token_configured = not (is_blank s'.kimi_token);
      minimax_token = [];
      kimi_token = [];
    }

-- The settings that UpdateSettings stores: a token that stays blank keeps the stored one.
unfoldable pub merge_settings : Env → AppSettings → AppSettings → AppSettings
merge_settings e stored submitted =
    let s = normalize_settings e submitted in
    record s {
      minimax_token = if is_blank s.minimax_token then stored.minimax_token else s.minimax_token;
      kimi_token = if is_blank s.kimi_token then stored.kimi_token else s.kimi_token;
    }
