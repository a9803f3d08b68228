-- ===== src/Orchestrator/Logs/Shown.antt =====
-- What a line of a CLI looks like in the log.
use auto_gardener.Base.{
  Bool, arith, false, if◌then◌else◌, is_nil, length, none, not, refl, some, true, ℕ, ◌&&◌, ◌+◌,
  ◌||◌, ◌≡◌, ◌≤◌,
}
use auto_gardener.Orchestrator.Logs.{codex_log_line, important_log_line, truncate}
use auto_gardener.Settings.{log_level_normal, log_level_quiet, normalize_log_level}
use auto_gardener.Text.{Text, has_prefix, text_eq, text_of, to_lower, trim_prefix, trim_space}
use auto_gardener.Text.Laws.{length-clip}
use auto_gardener.Usage.{is_mostly_number}

length-truncate : (n : ℕ) (s : Text) → length (truncate n s) ≤ n + 3
unfolding truncate
length-truncate n s = length-clip n (text_of "...") (trim_space s)

-- A line that is shown has at most 503 runes. The log is not quiet then, and where it is normal the
-- line is an important one.
pub codex_log_line_lem :
    (log_level raw out : Text)
    → codex_log_line log_level raw ≡ some out
    → let cleaned = trim_space (trim_prefix (trim_space raw) (text_of "stderr:")) in
      (length out ≤ 503)
      × (text_eq (normalize_log_level log_level) log_level_quiet ≡ false)
      × ((text_eq (normalize_log_level log_level) log_level_normal
            && not (important_log_line cleaned))
          ≡ false)
unfolding codex_log_line
codex_log_line_lem log_level raw out =
    split (is_nil (trim_space raw)) (text_eq (normalize_log_level log_level) log_level_quiet)
      (is_nil cleaned)
      (has_prefix (to_lower cleaned) (text_of "tokens used") || is_mostly_number cleaned)
      (text_eq (normalize_log_level log_level) log_level_normal && not (important_log_line cleaned))
  where
    cleaned : Text
    cleaned = trim_space (trim_prefix (trim_space raw) (text_of "stderr:"))

    split :
        (blank quiet bare count minor : Bool)
        → (if blank || quiet
            then none
            else if bare
            then none
            else if count
            then none
            else if minor
            then none
            else some (truncate 500 cleaned))
          ≡ some out
        → (length out ≤ 503) × (quiet ≡ false) × (minor ≡ false)
    split true quiet bare count minor h = absurd (cc)
    split false true bare count minor h = absurd (cc)
    split false false true count minor h = absurd (cc)
    split false false false true minor h = absurd (cc)
    split false false false false true h = absurd (cc)
    split false false false false false h =
        (ground (arith, length-truncate 500 cleaned), refl, refl)
