-- ===== src/Runner.antt =====
-- internal/codex/runner.go: which CLI a request goes to, its arguments and its environment, and
-- modelConfigForTask of internal/app/orchestrator.go. The quoting of strconv and the test for a file
-- are parameters; an environment is a list of `key=value`.
pub mod Environment
pub mod Secrets
use auto_gardener.Base.{
  Bool, List, [], false, if◌then◌else◌, is_nil, length, ltb, map, not, suc, zero, ℕ, ◌&&◌, ◌++◌,
  ◌-◌, ◌||◌, ◌∷◌,
}
use auto_gardener.Models.{AppSettings, Env, Task}
use auto_gardener.Settings.{
  dash_for_underscore, is_one_of, model_mode_kimi, model_mode_minimax, normalize_model_mode,
}
use auto_gardener.Text.{
  Text, byte_length, contains, first_non_empty, has_prefix, is_blank, text_eq, text_of, to_lower,
  trim_space,
}

pub record ModelConfig : Type 0 where
  pub provider_id : Text
  pub provider_name : Text
  pub model : Text
  pub base_url : Text
  pub env_key : Text
  pub token : Text
  pub wire_api : Text

unfoldable pub is_default : ModelConfig → Bool
unfolding is_blank
is_default c = is_blank c.model && is_blank c.provider_id

abbrev pub no_model : ModelConfig
no_model = record {
  provider_id = [];
  provider_name = [];
  model = [];
  base_url = [];
  env_key = [];
  token = [];
  wire_api = [];
}

unfoldable pub is_claude_cli : Text → Bool
unfolding is_one_of to_lower trim_space
is_claude_cli cli =
    is_one_of (map dash_for_underscore (to_lower (trim_space cli)))
      ("claude" ∷ "claude-code" ∷ "claude-cli" ∷ "anthropic" ∷ "cloud" ∷ [])

-- compatProviderBaseURL; the base is compatBaseURL with no slash at its end.
unfoldable pub compat_provider_base_url : Text → Text → Text
unfolding text_of
compat_provider_base_url base provider =
    if is_nil base then [] else base ++ (b'/' ∷ (provider ++ text_of "/v1"))

minimax_config : Env → Text → AppSettings → ModelConfig
unfolding text_of compat_provider_base_url first_non_empty
minimax_config e base settings = record {
  provider_id = text_of "gardener-minimax";
  provider_name = text_of "Gardener MiniMax Compatibility";
  model =
      first_non_empty
        (e.getenv (text_of "AUTO_GARDENER_MINIMAX_MODEL") ∷ text_of "MiniMax-M3" ∷ []);
  base_url = first_non_empty (
      e.getenv (text_of "AUTO_GARDENER_MINIMAX_BASE_URL")
      ∷ compat_provider_base_url base (text_of "minimax")
      ∷ []);
  env_key = text_of "GARDENER_MINIMAX_API_KEY";
  token = settings.minimax_token;
  wire_api = text_of "responses";
}

kimi_config : Env → Text → AppSettings → ModelConfig
unfolding text_of compat_provider_base_url first_non_empty
kimi_config e base settings = record {
  provider_id = text_of "gardener-kimi";
  provider_name = text_of "Gardener Kimi Compatibility";
  model = first_non_empty (e.getenv (text_of "AUTO_GARDENER_KIMI_MODEL") ∷ model_mode_kimi ∷ []);
  base_url = first_non_empty (
      e.getenv (text_of "AUTO_GARDENER_KIMI_BASE_URL")
      ∷ compat_provider_base_url base (text_of "kimi")
      ∷ []);
  env_key = text_of "GARDENER_KIMI_API_KEY";
  token = settings.kimi_token;
  wire_api = text_of "responses";
}

unfoldable pub model_config_for_task : Env → Text → AppSettings → Task → ModelConfig
unfolding minimax_config kimi_config normalize_model_mode text_eq
model_config_for_task e base settings t =
    let mode = normalize_model_mode t.model_mode in
    if text_eq mode model_mode_minimax
    then minimax_config e base settings
    else if text_eq mode model_mode_kimi
    then kimi_config e base settings
    else no_model

unfoldable pub leaked_provider_tool_call : Text → ModelConfig → Bool
unfolding contains text_of text_eq trim_space
leaked_provider_tool_call output model =
    let provider = trim_space model.provider_id in
    if not (text_eq provider (text_of "gardener-minimax"))
      && not (text_eq provider (text_of "gardener-kimi"))
    then false
    else contains output (text_of "]<]minimax[>[<tool_call>")
      || contains output (text_of "]<]kimi[>[<tool_call>")
      || (contains output (text_of "<tool_call>") && contains output (text_of "<invoke name="))

-- strings.ReplaceAll for a word that is not empty; `skip` characters are still those of a match.
pub replace_from : Text → Text → ℕ → Text → Text
unfolding has_prefix
replace_from old new left [] = []
replace_from old new (suc left) (c ∷ s) = replace_from old new left s
replace_from old new zero (c ∷ s) =
    let matched = new ++ replace_from old new (length old - 1) s in
    let passed = c ∷ replace_from old new 0 s in if has_prefix (c ∷ s) old then matched else passed

unfoldable pub redact_sensitive_text : Text → ModelConfig → Text
unfolding replace_from trim_space text_of byte_length
redact_sensitive_text text model =
    let token = trim_space model.token in
    if ltb (byte_length token) 8
    then text
    else replace_from token (text_of "[redacted-token]") 0 text

module _ (quote : Text → Text) where
  -- One `-c name=value`, where the value is not blank.
  setting : Text → Text → List Text
  unfolding text_of trim_space
  setting name raw =
      let value = trim_space raw in
      if is_nil value then [] else text_of "-c" ∷ (name ++ quote value) ∷ []

  provider_args : Text → ModelConfig → List Text
  unfolding setting text_of
  provider_args id model =
      let prefix = text_of "model_providers." ++ (id ++ text_of ".") in
      let wire_api = first_non_empty (trim_space model.wire_api ∷ text_of "responses" ∷ []) in
      (text_of "-c" ∷ (text_of "model_provider=" ++ quote id) ∷ [])
      ++ (setting (prefix ++ text_of "name=") model.provider_name
          ++ (setting (prefix ++ text_of "base_url=") model.base_url
              ++ (setting (prefix ++ text_of "env_key=") model.env_key
                  ++ (text_of "-c"
                      ∷ (prefix ++ (text_of "wire_api=" ++ quote wire_api))
                      ∷ text_of "-c"
                      ∷ (prefix ++ text_of "requires_openai_auth=false")
                      ∷ []))))

  unfoldable pub append_model_args : List Text → ModelConfig → List Text
  unfolding provider_args is_default text_of trim_space
  append_model_args args model =
      let value = trim_space model.model in
      let id = trim_space model.provider_id in
      let args' = if is_nil value then args else args ++ text_of "-m" ∷ value ∷ [] in
      if is_default model
      then args
      else if is_nil id
      then args'
      else args' ++ provider_args id model

unfoldable pub claude_model_arg : Env → ModelConfig → Text
unfolding text_of text_eq trim_space
claude_model_arg e model =
    let override = trim_space (e.getenv (text_of "AUTO_GARDENER_CLAUDE_MODEL")) in
    let id = trim_space model.provider_id in
    if not (is_nil override)
    then override
    else if text_eq id (text_of "gardener-kimi") || text_eq id (text_of "gardener-minimax")
    then trim_space model.model
    else []
