-- ===== src/Progress.antt =====
-- The progress lines of a task: compactProgressLine, stripProgressTime and the appends of
-- internal/app/store.go.
pub mod Lines
use auto_gardener.Base.{
  Bool, List, [], false, if◌then◌else◌, is_nil, last?, last_n, ltb, none, some, ℕ, ◌%◌, ◌&&◌, ◌++◌,
  ◌+◌, ◌-◌, ◌/◌, ◌==◌, ◌∷◌,
}
use auto_gardener.Models.{Env}
use auto_gardener.Text.{
  Text, byte_length, clip, fields, join, rune_bytes, text_eq, text_of, trim_space,
}

-- compactProgressLine
unfoldable pub compact_progress_line : Text → Text
unfolding trim_space clip text_of
compact_progress_line line =
    let trimmed = trim_space line in
    if is_nil trimmed then [] else clip 500 (text_of "...") (join (32 ∷ []) (fields trimmed))

-- The byte at an offset of the UTF-8 form; 0x80 stands for each byte of a rune beyond ASCII.
byte_at : ℕ → Text → ℕ
byte_at i [] = 0
byte_at i (c ∷ s) =
    let rest = byte_at (i - rune_bytes c) s in
    if ltb i (rune_bytes c) then (if ltb c 0x80 then c else 0x80) else rest

-- `s[n:]` at an offset where a rune begins
drop_bytes : ℕ → Text → Text
drop_bytes n [] = []
drop_bytes n (c ∷ s) = let rest = drop_bytes (n - rune_bytes c) s in if n == 0 then c ∷ s else rest

unfoldable pub strip_progress_time : Text → Text
unfolding byte_at drop_bytes byte_length
strip_progress_time line =
    if ltb 9 (byte_length line)
      && byte_at 2 line == b':'
      && byte_at 5 line == b':'
      && byte_at 8 line == b' '
    then drop_bytes 9 line
    else line

abbrev two_digits : ℕ → Text
two_digits n = (b'0' + n / 10) ∷ (b'0' + n % 10) ∷ []

-- now.Format("15:04:05"), in the local zone
unfoldable pub format_clock : Env → Text
format_clock e =
    let t = (e.now / 1_000_000_000 + e.utc_offset) % 86400 in
    two_digits (t / 3600) ++ (b':' ∷ two_digits (t / 60 % 60)) ++ (b':' ∷ two_digits (t % 60))

-- fmt.Sprintf("%s %s", clock, line)
unfoldable pub progress_entry : Env → Text → Text
progress_entry e line = format_clock e ++ (32 ∷ line)

abbrev pub max_progress_lines : ℕ
max_progress_lines = 80

-- Whether the last entry shows this line already.
unfoldable pub repeats_last : List Text → Text → Bool
repeats_last entries line = elim (last? entries) [
  | none ↦ false
  | some entry ↦ text_eq (strip_progress_time entry) line
]

-- The append that both progress logs share: a repeated line is left out, the last 80 are kept.
unfoldable pub append_progress : Env → Text → List Text → List Text
append_progress e line entries =
    if repeats_last entries line
    then entries
    else last_n max_progress_lines (entries ++ progress_entry e line ∷ [])
