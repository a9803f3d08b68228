-- ===== src/Tests/TextTests.antt =====
-- The theorems on plans, settings, the runtime summary and progress lines, at concrete texts.
use auto_gardener.Base.{[], arith, if◌then◌else◌, not, ◌∷◌, ◌≡◌, ◌≢◌}
use auto_gardener.Models.{AppSettings, Env}
use auto_gardener.Settings.{
  bundled_kimi_token, bundled_minimax_token, merge_settings, model_mode_default,
  normalize_model_mode,
}
use auto_gardener.Settings.Laws.{merge_settings_lem}
use auto_gardener.Tests.{env, settings}
use auto_gardener.Text.{is_blank, text_eq, text_of, to_lower, trim_space}

-- An environment that bundles a token under every name.
abbrev bundling : Env
bundling = record env { getenv = λ key. b'e' ∷ [] }

abbrev blank_settings : AppSettings
blank_settings = record settings { minimax_token = [] }

kimi_not_default : normalize_model_mode (text_of "kimi-k2.7") ≢ model_mode_default
unfolding normalize_model_mode text_of to_lower trim_space text_eq
kimi_not_default h = ground arith

merge_settings_lem_example :
    let merged = merge_settings bundling settings blank_settings in
    (merged.minimax_token ≡ (
      if not (is_blank blank_settings.minimax_token)
      then blank_settings.minimax_token
      else if not (is_blank (bundled_minimax_token bundling))
      then bundled_minimax_token bundling
      else settings.minimax_token))
    × (merged.kimi_token ≡ (
        if not (is_blank blank_settings.kimi_token)
        then blank_settings.kimi_token
        else if not (is_blank (bundled_kimi_token bundling))
        then bundled_kimi_token bundling
        else settings.kimi_token))
merge_settings_lem_example = merge_settings_lem bundling settings blank_settings
