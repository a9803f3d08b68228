-- ===== src/Runner/Environment.antt =====
-- The environment of a child process in internal/codex/runner.go.
pub mod Lookup
use auto_gardener.Base.{
  Bool, List, Option, String, [], any, false, if◌then◌else◌, is_nil, none, not, some, ◌&&◌, ◌++◌,
  ◌||◌, ◌∷◌,
}
use auto_gardener.Models.{Env, unknown}
use auto_gardener.Runner.{ModelConfig}
use auto_gardener.Text.{
  Text, contains, equal_fold, first_non_empty, is_blank, text_eq, text_of, to_lower, trim_space,
}
use auto_gardener.Text.Split.{cut, split_on}

pub assignment : Text → Text → Text
assignment key value = key ++ (b'=' ∷ value)

-- The item assigns the key, in any case of its letters.
names : Text → Text → Bool
unfolding cut equal_fold
names key item = elim (cut b'=' item) [ none ↦ false | some (k, v) ↦ equal_fold k key ]

unfoldable pub upsert_env : Text → Text → List Text → List Text
unfolding assignment names
upsert_env key value [] = assignment key value ∷ []
upsert_env key value (item ∷ env) =
    let later = item ∷ upsert_env key value env in
    if names key item then assignment key value ∷ env else later

unfoldable pub uses_localhost : Text → Bool
unfolding contains text_of to_lower
uses_localhost raw_url =
    let value = to_lower raw_url in
    contains value (text_of "127.0.0.1") || contains value (text_of "localhost")

holds_target : Text → List Text → Bool
unfolding equal_fold trim_space
holds_target target items = any (λ item. equal_fold (trim_space item) target) items

unfoldable pub env_list_contains : Text → Text → Bool
unfolding holds_target split_on
env_list_contains value target = holds_target target (split_on b',' value)

-- What becomes of the value of the first item that assigns the key.
with_host : Text → Text → Text → Text
unfolding env_list_contains is_blank
with_host key value host =
    if env_list_contains value host
    then assignment key value
    else if is_blank value
    then assignment key host
    else assignment key (value ++ (b',' ∷ host))

unfoldable pub ensure_no_proxy_key : Text → Text → List Text → List Text
unfolding with_host cut text_eq
ensure_no_proxy_key key host [] = assignment key host ∷ []
ensure_no_proxy_key key host (item ∷ env) =
    let later = item ∷ ensure_no_proxy_key key host env in
    elim (cut b'=' item) [
      | none ↦ later
      | some (k, value) ↦ if text_eq k key then with_host key value host ∷ env else later
    ]

unfoldable pub ensure_no_proxy : Text → List Text → List Text
unfolding ensure_no_proxy_key text_of
ensure_no_proxy host env =
    ensure_no_proxy_key (text_of "no_proxy") host
      (ensure_no_proxy_key (text_of "NO_PROXY") host env)

-- The keys that the provider itself reads.
provider_keys : Text → List Text
unfolding text_of text_eq
provider_keys id =
    if text_eq id (text_of "minimax") || text_eq id (text_of "gardener-minimax")
    then text_of "MINIMAX_API_KEY" ∷ []
    else if text_eq id (text_of "moonshot") || text_eq id (text_of "gardener-kimi")
    then text_of "MOONSHOT_API_KEY" ∷ text_of "KIMI_API_KEY" ∷ []
    else []

pub upsert_all : Text → List Text → List Text → List Text
unfolding upsert_env
upsert_all value [] env = env
upsert_all value (key ∷ keys) env = upsert_all value keys (upsert_env key value env)

unfoldable pub append_model_env : ModelConfig → List Text → List Text
unfolding provider_keys upsert_all uses_localhost ensure_no_proxy trim_space text_of
append_model_env model env =
    let token = trim_space model.token in
    let env_key = trim_space model.env_key in
    let named = if is_nil env_key then env else upsert_env env_key token env in
    let known = upsert_all token (provider_keys (trim_space model.provider_id)) named in
    if is_nil token
    then env
    else if uses_localhost model.base_url
    then ensure_no_proxy (text_of "localhost") (ensure_no_proxy (text_of "127.0.0.1") known)
    else known

unfoldable pub apply_claude_model_env : Text → List Text → List Text
unfolding upsert_all text_of
apply_claude_model_env model_name = upsert_all model_name (
    text_of "ANTHROPIC_MODEL"
    ∷ text_of "ANTHROPIC_DEFAULT_OPUS_MODEL"
    ∷ text_of "ANTHROPIC_DEFAULT_SONNET_MODEL"
    ∷ text_of "ANTHROPIC_DEFAULT_HAIKU_MODEL"
    ∷ text_of "CLAUDE_CODE_SUBAGENT_MODEL"
    ∷ [])

existing_file : (Text → Bool) → Option Text → Text
existing_file file_exists none = []
existing_file file_exists (some path) = if file_exists path then path else []

-- claudeSettingsPath; `at_home` is the path of a provider's settings under the home directory, where
-- there is one.
unfoldable pub claude_settings_path :
    Env → (Text → Bool) → (Text → Option Text) → ModelConfig → Text
unfolding existing_file text_of text_eq trim_space first_non_empty
claude_settings_path e file_exists at_home model =
    let override = trim_space (e.getenv (text_of "AUTO_GARDENER_CLAUDE_SETTINGS")) in
    let id = trim_space model.provider_id in
    if not (is_nil override)
    then existing_file file_exists (some override)
    else if text_eq id (text_of "gardener-kimi")
    then existing_file file_exists (
        at_home (
          first_non_empty (
            e.getenv (text_of "AUTO_GARDENER_KIMI_CLAUDE_SETTINGS_NAME")
            ∷ text_of "kimi-k2.7.settings.json"
            ∷ [])))
    else if text_eq id (text_of "gardener-minimax")
    then existing_file file_exists (
        at_home (
          first_non_empty (
            e.getenv (text_of "AUTO_GARDENER_MINIMAX_CLAUDE_SETTINGS_NAME")
            ∷ text_of "minimax-m3.settings.json"
            ∷ [])))
    else []

-- A variable of the server's environment with its default.
upsert_default : Env → String → String → String → List Text → List Text
unfolding upsert_env first_non_empty text_of
upsert_default e key variable default_value =
    upsert_env (text_of key)
      (first_non_empty (e.getenv (text_of variable) ∷ text_of default_value ∷ []))

account_env : Env → Bool → String → String → Text → List Text → List Text
unfolding upsert_default upsert_env text_of
account_env e uses_settings_file variable url token env =
    if uses_settings_file
    then env
    else upsert_env (text_of "ANTHROPIC_API_KEY") token (
        upsert_env (text_of "ANTHROPIC_AUTH_TOKEN") token
          (upsert_default e "ANTHROPIC_BASE_URL" variable url env))

kimi_env : Env → Bool → ModelConfig → List Text → List Text
unfolding account_env apply_claude_model_env upsert_default first_non_empty text_of trim_space
kimi_env e uses_settings_file model env =
    let name = first_non_empty (
      e.getenv (text_of "AUTO_GARDENER_KIMI_CLAUDE_MODEL")
      ∷ trim_space model.model
      ∷ text_of "kimi-k2.7-code"
      ∷ []) in
    let account =
      account_env e uses_settings_file "AUTO_GARDENER_KIMI_CLAUDE_BASE_URL"
        "https://api.kimi.com/coding/" (trim_space model.token) env in
    upsert_default e "API_TIMEOUT_MS" "AUTO_GARDENER_KIMI_CLAUDE_API_TIMEOUT_MS" "300000" (
      upsert_default e "CLAUDE_CODE_DISABLE_NONESSENTIAL_TRAFFIC"
        "AUTO_GARDENER_KIMI_DISABLE_NONESSENTIAL_TRAFFIC" "1"
        (upsert_default e "CLAUDE_CODE_AUTO_COMPACT_WINDOW" "AUTO_GARDENER_KIMI_AUTO_COMPACT_WINDOW"
          "262144"
          (upsert_default e "ENABLE_TOOL_SEARCH" "AUTO_GARDENER_KIMI_ENABLE_TOOL_SEARCH" "false"
            (apply_claude_model_env name account))))

minimax_env : Env → Bool → ModelConfig → List Text → List Text
unfolding account_env apply_claude_model_env upsert_default first_non_empty text_of trim_space
minimax_env e uses_settings_file model env =
    let name = first_non_empty (
      e.getenv (text_of "AUTO_GARDENER_MINIMAX_CLAUDE_MODEL")
      ∷ trim_space model.model
      ∷ text_of "MiniMax-M3"
      ∷ []) in
    let account =
      account_env e uses_settings_file "AUTO_GARDENER_MINIMAX_CLAUDE_BASE_URL"
        "https://api.minimaxi.com/anthropic/" (trim_space model.token) env in
    upsert_default e "API_TIMEOUT_MS" "AUTO_GARDENER_MINIMAX_CLAUDE_API_TIMEOUT_MS" "300000" (
      upsert_default e "CLAUDE_CODE_DISABLE_NONESSENTIAL_TRAFFIC"
        "AUTO_GARDENER_MINIMAX_DISABLE_NONESSENTIAL_TRAFFIC" "1"
        (apply_claude_model_env name account))

unfoldable pub append_claude_env :
    Env → (Text → Bool) → (Text → Option Text) → ModelConfig → List Text → List Text
unfolding kimi_env minimax_env claude_settings_path text_eq text_of trim_space
append_claude_env e file_exists at_home model env =
    let uses_settings_file = not (is_nil (claude_settings_path e file_exists at_home model)) in
    let id = trim_space model.provider_id in
    let unknown = is_nil (trim_space model.token) && not uses_settings_file in
    if text_eq id (text_of "gardener-kimi")
    then (if unknown then env else kimi_env e uses_settings_file model env)
    else if text_eq id (text_of "gardener-minimax")
    then (if unknown then env else minimax_env e uses_settings_file model env)
    else env
