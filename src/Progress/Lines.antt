-- ===== src/Progress/Lines.antt =====
-- The shape of progress lines, and the line that an entry gives back.
use auto_gardener.Base.{
  All, All-append, Bool-cases, List, [], arith, drop, inl, inr, is_nil, last?, last_n, length,
  length-append, length-last_n, ltb, refl, some, suc, take, true, zero, ℕ, ◌++◌, ◌<◌, ◌∷◌, ◌≡◌, ◌≤◌,
}
use auto_gardener.Models.{Env}
use auto_gardener.Progress.{
  append_progress, compact_progress_line, format_clock, max_progress_lines, progress_entry,
  repeats_last, strip_progress_time,
}
use auto_gardener.Text.{Text, clip, fields, is_space, join, trim_space}
use auto_gardener.Text.Compact.{IsInline, fields-IsWord, join-IsInline}
use auto_gardener.Text.Laws.{length-clip, text_eq_refl}

-- A compacted progress line has 503 runes at most.
pub length-compact_progress_line : (line : Text) → length (compact_progress_line line) ≤ 503
unfolding compact_progress_line
length-compact_progress_line line =
    ground (arith, length-clip 500 (46 ∷ 46 ∷ 46 ∷ []) (join (32 ∷ []) (fields (trim_space line))))

take-IsInline : (n : ℕ) (s : Text) → All IsInline s → All IsInline (take n s)
take-IsInline zero s h = tt
take-IsInline (suc n) [] h = tt
take-IsInline (suc n) (c ∷ s) h = (h.0, take-IsInline n s h.1)

clip-IsInline : (n : ℕ) (s : Text) → All IsInline s → All IsInline (clip n (46 ∷ 46 ∷ 46 ∷ []) s)
unfolding clip is_space
clip-IsInline n s h = elim (Bool-cases (ltb n (length s))) [
  | inl e ↦ rw e (
      All-append IsInline (take n s) (46 ∷ 46 ∷ 46 ∷ []) (take-IsInline n s h)
        (refl, (refl, (refl, tt))))
  | inr e ↦ rw e h
]

-- A compacted progress line has no line break, and no white space but plain spaces.
pub compact_progress_line-IsInline : (line : Text) → All IsInline (compact_progress_line line)
unfolding compact_progress_line
compact_progress_line-IsInline line = elim (Bool-cases (is_nil (trim_space line))) [
  | inl e ↦ rw e tt
  | inr e ↦ rw e (
      clip-IsInline 500 (join (32 ∷ []) words)
        (join-IsInline words (fields-IsWord (trim_space line))))
]
  where
    words : List Text
    words = fields (trim_space line)

-- Without its clock an entry is the line that was logged.
pub strip_progress_time-progress_entry :
    (e : Env) (c : ℕ) (line : Text) → strip_progress_time (progress_entry e (c ∷ line)) ≡ c ∷ line
unfolding strip_progress_time progress_entry format_clock
strip_progress_time-progress_entry e c line = ground arith

-- A progress log keeps at most 80 entries.
pub length-append_progress :
    (e : Env) (line : Text) (entries : List Text)
    → length entries ≤ max_progress_lines
    → length (append_progress e line entries) ≤ max_progress_lines
unfolding append_progress
length-append_progress e line entries h =
    ground (arith, length-last_n max_progress_lines (entries ++ progress_entry e line ∷ []))

last?-append {ℓ} : {A : Type ℓ} (xs : List A) (x : A) → last? (xs ++ x ∷ []) ≡ some x
last?-append [] x = refl
last?-append (y ∷ []) x = refl
last?-append (y ∷ z ∷ xs) x = last?-append (z ∷ xs) x

last?-drop {ℓ} :
    {A : Type ℓ} (n : ℕ) (xs : List A) (x : A)
    → n ≤ length xs
    → last? (drop n (xs ++ x ∷ [])) ≡ some x
last?-drop zero xs x h = last?-append xs x
last?-drop (suc n) [] x h = elim h [ ]
last?-drop (suc n) (y ∷ xs) x h = last?-drop n xs x (omega arith)

last?-last_n {ℓ} :
    {A : Type ℓ} (n : ℕ) (xs : List A) (x : A) → 0 < n → last? (last_n n (xs ++ x ∷ [])) ≡ some x
last?-last_n n xs x h = elim (Bool-cases (ltb n (length (xs ++ x ∷ [])))) [
  | inl e ↦ rw e (last?-drop _ xs x (omega (arith, length-append xs (x ∷ []))))
  | inr e ↦ rw e (last?-append xs x)
]

repeats_last-last_n :
    (e : Env) (c : ℕ) (line : Text) (entries : List Text)
    → repeats_last
        (last_n max_progress_lines (entries ++ progress_entry e (c ∷ line) ∷ []))
        (c ∷ line)
      ≡ true
unfolding repeats_last
repeats_last-last_n e c line entries =
    rw
      (
        last?-last_n max_progress_lines entries (progress_entry e (c ∷ line)) (omega arith),
        repeats_last,
      )
      (rw strip_progress_time-progress_entry (text_eq_refl (c ∷ line)))

repeats_last-append_progress :
    (e : Env) (c : ℕ) (line : Text) (entries : List Text)
    → repeats_last (append_progress e (c ∷ line) entries) (c ∷ line) ≡ true
unfolding append_progress
repeats_last-append_progress e c line entries =
    elim (Bool-cases (repeats_last entries (c ∷ line))) [
      | inl r ↦ rw r r
      | inr r ↦ rw r (repeats_last-last_n e c line entries)
    ]

append_progress-repeat :
    (e : Env) (line : Text) (entries : List Text)
    → repeats_last entries line ≡ true
    → append_progress e line entries ≡ entries
unfolding append_progress
append_progress-repeat e line entries r = rw r

-- A line that is logged twice in a row is stored once, whenever the two calls are made.
pub append_progress-again :
    (e f : Env) (c : ℕ) (line : Text) (entries : List Text)
    → append_progress f (c ∷ line) (append_progress e (c ∷ line) entries)
      ≡ append_progress e (c ∷ line) entries
append_progress-again e f c line entries =
    append_progress-repeat f (c ∷ line) _ (repeats_last-append_progress e c line entries)
