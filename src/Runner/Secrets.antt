-- ===== src/Runner/Secrets.antt =====
-- What internal/codex/runner.go lets out of the token of a provider, and the names of the CLIs.
use mathlib.Core.Path.{subst}
use auto_gardener.Base.{
  Bool, Bool-cases, [], ap, arith, false, if◌then◌else◌, inl, inr, length, length-append, ltb, map,
  refl, suc, sym, true, zero, ℕ, ◌++◌, ◌-◌, ◌<◌, ◌∙◌, ◌∷◌, ◌≡◌, ◌≤◌, ◌⊎◌,
}
use auto_gardener.Runner.{ModelConfig, is_claude_cli, redact_sensitive_text, replace_from}
use auto_gardener.Settings.{
  cli_engine_claude, cli_engine_codex, dash_for_underscore, is_one_of, normalize_cli_engine,
}
use auto_gardener.Text.{Text, byte_length, has_prefix, text_eq, text_of, to_lower, trim_space}
use auto_gardener.Text.Laws.{text_eq→≡}

-- What is left of a text where a mark takes the place of a word, each time that it stands there, from
-- the left on.
pub data Redacted (word new : Text) : Text → Text → Type 0 where
  over_end : Redacted word new [] []
  letter_kept :
      (c : ℕ) {s out : Text}
      → has_prefix (c ∷ s) word ≡ false
      → Redacted word new s out
      → Redacted word new (c ∷ s) (c ∷ out)
  word_replaced :
      {s out : Text} → Redacted word new s out → Redacted word new (word ++ s) (new ++ out)

replace_from-passes :
    (old new word s : Text)
    → replace_from old new (length word) (word ++ s) ≡ replace_from old new 0 s
unfolding replace_from
replace_from-passes old new [] [] = refl
replace_from-passes old new [] (c ∷ s) = refl
replace_from-passes old new (c ∷ word) s = replace_from-passes old new word s

has_prefix-append : (word s : Text) → has_prefix (word ++ s) word ≡ true
unfolding has_prefix
has_prefix-append [] [] = refl
has_prefix-append [] (c ∷ s) = refl
has_prefix-append (c ∷ word) s = ground (arith, has_prefix-append word s)

replace_from-word :
    (c : ℕ) (old new s : Text)
    → replace_from (c ∷ old) new 0 ((c ∷ old) ++ s) ≡ new ++ replace_from (c ∷ old) new 0 s
unfolding replace_from
replace_from-word c old new s =
    let e : suc (length old) - 1 ≡ length old = omega arith in
    rw (has_prefix-append (c ∷ old) s) (
      ap (λ r. new ++ r)
        (ap (λ n. replace_from (c ∷ old) new n (old ++ s)) e
          ∙ replace_from-passes (c ∷ old) new old s))

has_prefix-rest : (s word : Text) → has_prefix s word ≡ true → (rest : Text) × (s ≡ word ++ rest)
unfolding has_prefix
has_prefix-rest s [] h = (s, refl)
has_prefix-rest [] (p ∷ word) h = absurd (cc)
has_prefix-rest (c ∷ s) (p ∷ word) h =
    let (rest, q) = has_prefix-rest s word (ground arith) in
    let same : c ≡ p = ground arith in
    (rest, subst (λ d. c ∷ s ≡ d ∷ (word ++ rest)) same (ap (λ t. c ∷ t) q))

-- A bound on the length of the text is counted down.
replace_from-Redacted :
    (c : ℕ) (word new : Text) (bound : ℕ) (s : Text)
    → length s ≤ bound
    → Redacted (c ∷ word) new s (replace_from (c ∷ word) new 0 s)
unfolding replace_from
replace_from-Redacted c word new bound [] h = over_end
replace_from-Redacted c word new zero (d ∷ s) h = absurd (omega arith)
replace_from-Redacted c word new (suc bound) (d ∷ s) h =
    elim (Bool-cases (has_prefix (d ∷ s) (c ∷ word))) [
      | inr differs ↦
          rw (replace_from, differs)
            (letter_kept d differs (replace_from-Redacted c word new bound s (omega arith)))
      | inl matches ↦
          let (rest, q) = has_prefix-rest (d ∷ s) (c ∷ word) matches in
          subst (λ t. Redacted (c ∷ word) new t (replace_from (c ∷ word) new 0 t)) (sym q)
            (rw (replace_from-word c word new rest) (
              word_replaced (
                replace_from-Redacted c word new bound rest
                  (omega (arith, ap length q, length-append (c ∷ word) rest)))))
    ]

pub mark : Text
unfolding text_of
mark = text_of "[redacted-token]"

-- A token of fewer than eight bytes leaves the text as it is. For a longer one, a mark takes the place
-- of the token each time that it stands in the text, from the left on, and all else stays.
pub redact_sensitive_text_lem :
    (s : Text) (model : ModelConfig)
    → ((byte_length (trim_space model.token) < 8) × (redact_sensitive_text s model ≡ s))
      ⊎ ((8 ≤ byte_length (trim_space model.token))
          × Redacted (trim_space model.token) mark s (redact_sensitive_text s model))
unfolding redact_sensitive_text mark byte_length
redact_sensitive_text_lem s model = split (trim_space model.token)
  where
    redacted : Text → Text
    redacted token = if ltb (byte_length token) 8 then s else replace_from token mark 0 s

    split :
        (token : Text)
        → ((byte_length token < 8) × (redacted token ≡ s))
          ⊎ ((8 ≤ byte_length token) × Redacted token mark s (redacted token))
    split [] = inl (omega arith, refl)
    split (c ∷ token) = elim (Bool-cases (ltb (byte_length (c ∷ token)) 8)) [
      | inl short ↦ inl (ground arith, rw short refl)
      | inr long ↦
          inr
            (ground arith, rw long (replace_from-Redacted c token mark (length s) s (omega arith)))
    ]

in_both :
    (v : Text)
    → is_one_of v ("codex" ∷ "openai-codex" ∷ "codex-cli" ∷ "openai" ∷ []) ≡ true
    → is_one_of v ("claude" ∷ "claude-code" ∷ "claude-cli" ∷ "anthropic" ∷ "cloud" ∷ []) ≡ false
unfolding is_one_of
in_both v h = ground (
  arith,
  text_eq→≡ v (text_of "codex"),
  text_eq→≡ v (text_of "openai-codex"),
  text_eq→≡ v (text_of "codex-cli"),
  text_eq→≡ v (text_of "openai"),
  text_eq→≡ v (text_of "claude"),
  text_eq→≡ v (text_of "claude-code"),
  text_eq→≡ v (text_of "claude-cli"),
  text_eq→≡ v (text_of "anthropic"),
  text_eq→≡ v (text_of "cloud"),
)

chosen_engine :
    (openai anthropic : Bool)
    → (openai ≡ true → anthropic ≡ false)
    → anthropic
      ≡ text_eq
          (if openai
            then cli_engine_codex
            else if anthropic
            then cli_engine_claude
            else cli_engine_codex)
          cli_engine_claude
unfolding text_eq text_of
chosen_engine true b h = h refl
chosen_engine false true h = refl
chosen_engine false false h = refl

-- The runner takes exactly those names for Claude that the settings take for it.
pub is_claude_cli-eq-normalize_cli_engine :
    (cli : Text) → is_claude_cli cli ≡ text_eq (normalize_cli_engine cli) cli_engine_claude
unfolding is_claude_cli normalize_cli_engine
is_claude_cli-eq-normalize_cli_engine cli =
    let v = map dash_for_underscore (to_lower (trim_space cli)) in
    chosen_engine (is_one_of v ("codex" ∷ "openai-codex" ∷ "codex-cli" ∷ "openai" ∷ []))
      (is_one_of v ("claude" ∷ "claude-code" ∷ "claude-cli" ∷ "anthropic" ∷ "cloud" ∷ []))
      (in_both v)
