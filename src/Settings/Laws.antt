-- ===== src/Settings/Laws.antt =====
-- Normal forms of the settings, the engine that a provider needs, and the fate of a stored token.
use auto_gardener.Base.{
  Bool, Bool-cases, [], ap, arith, false, if_elim, if◌then◌else◌, inl, inr, not, refl, sym, ◌&&◌,
  ◌||◌, ◌∙◌, ◌∷◌, ◌≡◌, ◌≢◌, ◌⊎◌,
}
use auto_gardener.Models.{AppSettings, Env}
use auto_gardener.Settings.{
  bundled_kimi_token, bundled_minimax_token, cli_engine_claude, cli_engine_codex,
  compatible_cli_engine, is_one_of, merge_settings, model_mode_default, model_mode_kimi,
  model_mode_minimax, normalize_cli_engine, normalize_log_level, normalize_model_mode,
  normalize_settings, public_settings,
}
use auto_gardener.Text.{Text, is_blank, text_eq, text_of}

abbrev pub IsModelMode : Text → Type 0
IsModelMode m = (m ≡ model_mode_default) ⊎ ((m ≡ model_mode_minimax) ⊎ (m ≡ model_mode_kimi))

if_mode : (b : Bool) (x y : Text) → IsModelMode x → IsModelMode y → IsModelMode (if b then x else y)
if_mode = if_elim IsModelMode

pub normalize_model_mode-IsModelMode : (m : Text) → IsModelMode (normalize_model_mode m)
unfolding normalize_model_mode
normalize_model_mode-IsModelMode m =
    if_mode _ _ _ (inl refl)
      (if_mode _ _ _ (inr (inl refl)) (if_mode _ _ _ (inr (inr refl)) (inl refl)))

pub normalize_model_mode-of_normal : (m : Text) → IsModelMode m → normalize_model_mode m ≡ m
unfolding normalize_model_mode
normalize_model_mode-of_normal m (inl e) = rw e refl
normalize_model_mode-of_normal m (inr (inl e)) = rw e refl
normalize_model_mode-of_normal m (inr (inr e)) = rw e refl

-- The engine is Codex or Claude.
abbrev pub IsEngine : Text → Type 0
IsEngine g = (g ≡ cli_engine_codex) ⊎ (g ≡ cli_engine_claude)

if_IsEngine : (b : Bool) (x y : Text) → IsEngine x → IsEngine y → IsEngine (if b then x else y)
if_IsEngine = if_elim IsEngine

pub normalize_cli_engine-IsEngine : (g : Text) → IsEngine (normalize_cli_engine g)
unfolding normalize_cli_engine
normalize_cli_engine-IsEngine g =
    if_IsEngine _ _ _ (inl refl) (if_IsEngine _ _ _ (inr refl) (inl refl))

pub normalize_cli_engine-of_normal : (g : Text) → IsEngine g → normalize_cli_engine g ≡ g
unfolding normalize_cli_engine
normalize_cli_engine-of_normal g (inl e) = rw e refl
normalize_cli_engine-of_normal g (inr e) = rw e refl

-- The test of compatibleCLIEngine, over normal forms.
needs_claude : Text → Text → Bool
unfolding text_eq
needs_claude g m =
    (text_eq m model_mode_kimi || text_eq m model_mode_minimax) && text_eq g cli_engine_codex

needs_claude_of_default : (g : Text) → needs_claude g model_mode_default ≡ false
unfolding needs_claude text_of
needs_claude_of_default g = refl

compatible_lem :
    (engine mode : Text)
    → compatible_cli_engine engine mode ≡ (
        if needs_claude (normalize_cli_engine engine) (normalize_model_mode mode)
        then cli_engine_claude
        else normalize_cli_engine engine)
unfolding compatible_cli_engine needs_claude
compatible_lem engine mode = refl

choice_claude :
    (g m : Text)
    → IsEngine g
    → (m ≡ model_mode_minimax) ⊎ (m ≡ model_mode_kimi)
    → (if needs_claude g m then cli_engine_claude else g) ≡ cli_engine_claude
unfolding needs_claude text_of
choice_claude g m (inl e) (inl f) = rw (e, f) refl
choice_claude g m (inl e) (inr f) = rw (e, f) refl
choice_claude g m (inr e) (inl f) = rw (e, f) refl
choice_claude g m (inr e) (inr f) = rw (e, f) refl

-- Whatever engine is asked for, a mode that does not normalise to the default runs under Claude.
pub compatible_cli_engine-claude :
    (engine mode : Text)
    → normalize_model_mode mode ≢ model_mode_default
    → compatible_cli_engine engine mode ≡ cli_engine_claude
compatible_cli_engine-claude engine mode h = elim (normalize_model_mode-IsModelMode mode) [
  | inl e ↦ absurd (h e)
  | inr c ↦ compatible_lem engine mode ∙ choice_claude _ _ (normalize_cli_engine-IsEngine engine) c
]

pub compatible_cli_engine-IsEngine :
    (engine mode : Text) → IsEngine (compatible_cli_engine engine mode)
compatible_cli_engine-IsEngine engine mode =
    rw compatible_lem
      (if_IsEngine _ cli_engine_claude _ (inr refl) (normalize_cli_engine-IsEngine engine))

pub compatible_cli_engine-default :
    (engine mode : Text)
    → normalize_model_mode mode ≡ model_mode_default
    → compatible_cli_engine engine mode ≡ normalize_cli_engine engine
compatible_cli_engine-default engine mode h = rw (compatible_lem, h, needs_claude_of_default) refl

compatible_cli_engine_idem :
    (engine mode : Text)
    → compatible_cli_engine (compatible_cli_engine engine mode) mode
      ≡ compatible_cli_engine engine mode
compatible_cli_engine_idem engine mode = elim (normalize_model_mode-IsModelMode mode) [
  | inl e ↦
      compatible_cli_engine-default _ mode e
      ∙ rw (compatible_cli_engine-default engine mode e)
          (normalize_cli_engine-of_normal _ (normalize_cli_engine-IsEngine engine))
  | inr c ↦
      let same = λ (g : Text).
        compatible_lem g mode ∙ choice_claude _ _ (normalize_cli_engine-IsEngine g) c in
      same (compatible_cli_engine engine mode) ∙ sym (same engine)
]

engine_idem :
    (g m : Text)
    → let m' = normalize_model_mode m in
      compatible_cli_engine (compatible_cli_engine g m') (normalize_model_mode m')
      ≡ compatible_cli_engine g m'
engine_idem g m =
    let m' = normalize_model_mode m in
    ap (compatible_cli_engine (compatible_cli_engine g m'))
      (normalize_model_mode-of_normal m' (normalize_model_mode-IsModelMode m))
    ∙ compatible_cli_engine_idem g m'

normalize_log_level_idem :
    (l : Text) → normalize_log_level (normalize_log_level l) ≡ normalize_log_level l
unfolding normalize_log_level
normalize_log_level_idem l =
    elim (Bool-cases (is_one_of l ("quiet" ∷ "normal" ∷ "detailed" ∷ []))) [
      | inl e ↦ rw e (rw e refl)
      | inr e ↦ rw e refl
    ]

keep_token : (bundled t : Text) → Text
keep_token bundled t = if is_blank t then bundled else t

keep_token_idem :
    (bundled t : Text) → keep_token bundled (keep_token bundled t) ≡ keep_token bundled t
unfolding keep_token
keep_token_idem bundled t = ground arith

-- Normalising settings again changes nothing, in the same environment.
pub normalize_settings_idem :
    (e : Env) (s : AppSettings)
    → normalize_settings e (normalize_settings e s) ≡ normalize_settings e s
unfolding normalize_settings keep_token
normalize_settings_idem e s = λ i. record s {
  minimax_token = keep_token_idem (bundled_minimax_token e) s.minimax_token i;
  kimi_token = keep_token_idem (bundled_kimi_token e) s.kimi_token i;
  log_level = normalize_log_level_idem s.log_level i;
  model_mode = normalize_model_mode-of_normal _ (normalize_model_mode-IsModelMode s.model_mode) i;
  cli_engine = engine_idem s.cli_engine s.model_mode i;
}

-- The public settings hold no token, and say of each provider whether one is configured.
pub public_settings_hide :
    (e : Env) (s : AppSettings)
    → ((public_settings e s).minimax_token ≡ [])
      × ((public_settings e s).kimi_token ≡ [])
      × ((public_settings e s).minimax_token_configured
          ≡ not (is_blank (normalize_settings e s).minimax_token))
      × ((public_settings e s).kimi_token_configured
          ≡ not (is_blank (normalize_settings e s).kimi_token))
unfolding public_settings
public_settings_hide e s = (refl, refl, refl, refl)

-- What becomes of the token of a provider: a submitted token that is not blank is stored. A blank one
-- is replaced by the token that the environment bundles, and the stored token is kept only where the
-- environment has none. The token of the other provider plays no part.
pub merge_settings_lem :
    (e : Env) (stored submitted : AppSettings)
    → ((merge_settings e stored submitted).minimax_token ≡ (
        if not (is_blank submitted.minimax_token)
        then submitted.minimax_token
        else if not (is_blank (bundled_minimax_token e))
        then bundled_minimax_token e
        else stored.minimax_token))
      × ((merge_settings e stored submitted).kimi_token ≡ (
          if not (is_blank submitted.kimi_token)
          then submitted.kimi_token
          else if not (is_blank (bundled_kimi_token e))
          then bundled_kimi_token e
          else stored.kimi_token))
unfolding merge_settings normalize_settings
merge_settings_lem e stored submitted = (ground arith, ground arith)
