-- ===== src/Usage/Totals.antt =====
-- What summarizeUsage of internal/app/usage.go counts.
use auto_gardener.Base.{
  Bool, Bool-cases, List, Option, [], ap, arith, false, if◌then◌else◌, inl, inr, is_nil, length,
  none, refl, some, suc, sym, take, true, zero, ℕ, ◌+◌, ◌∙◌, ◌∷◌, ◌≡◌, ◌≤◌,
}
use auto_gardener.Base.Dict.{insert, lookup}
use auto_gardener.Base.Sort.{insert_sorted, sort_by}
use auto_gardener.Text.{Text, text_eq, text_of}
use auto_gardener.Text.Laws.{text_key}
use auto_gardener.Usage.{
  ModelSummary, UsageRecord, add64, bump, max_usage_model_summaries, model_summaries, signed_before,
  summaries_of, summarize_usage, total_of,
}

sum_runs : List (Text × ModelSummary) → ℕ
sum_runs [] = 0
sum_runs ((k, s) ∷ m) = s.runs + sum_runs m

sum_tokens : List (Text × ModelSummary) → ℕ
sum_tokens [] = 0
sum_tokens ((k, s) ∷ m) = add64 s.total_tokens (sum_tokens m)

add64-step : (a b c : ℕ) → add64 (add64 a b) c ≡ add64 (add64 a c) b
add64-step a b c = omega arith

add64-mid : (a b c : ℕ) → add64 a (add64 b c) ≡ add64 (add64 a b) c
add64-mid a b c = omega arith

add64-unit : (a b : ℕ) → add64 a (add64 0 b) ≡ add64 a b
add64-unit a b = omega arith

-- A write under a key adds the difference to the sums.
insert-sums :
    (key : Text) (old new : ModelSummary) (n : ℕ) (m : List (Text × ModelSummary))
    → lookup key m ≡ some old
    → new.runs ≡ old.runs + 1
    → new.total_tokens ≡ add64 old.total_tokens n
    → (sum_runs (insert key new m) ≡ sum_runs m + 1)
      × (sum_tokens (insert key new m) ≡ add64 (sum_tokens m) n)
unfolding lookup insert sum_runs sum_tokens
insert-sums key old new n [] p q r = ground arith
insert-sums key old new n ((k, s) ∷ m) p q r = elim (Bool-cases (text_eq k key)) [
  | inl e ↦
      let same = hit e in
      rw e (
        omega (arith, q, ap (λ (x : ModelSummary). x.runs) same),
        ap (λ t. add64 t (sum_tokens m))
              (r ∙ ap (λ (x : ModelSummary). add64 x.total_tokens n) (sym same))
            ∙ add64-step s.total_tokens n (sum_tokens m),
      )
  | inr e ↦
      let (runs, tokens) = insert-sums key old new n m (miss e) q r in
      rw e (
        omega (arith, runs),
        ap (add64 s.total_tokens) tokens ∙ add64-mid s.total_tokens (sum_tokens m) n,
      )
]
  where
    hit : text_eq k key ≡ true → s ≡ old
    hit e = ground arith

    miss : text_eq k key ≡ false → lookup key m ≡ some old
    miss e = ground arith

-- A new key adds its summary to the sums.
insert-sums_new :
    (key : Text) (new : ModelSummary) (m : List (Text × ModelSummary))
    → lookup key m ≡ none
    → (sum_runs (insert key new m) ≡ sum_runs m + new.runs)
      × (sum_tokens (insert key new m) ≡ add64 (sum_tokens m) new.total_tokens)
unfolding lookup insert sum_runs sum_tokens
insert-sums_new key new [] p = (omega arith, omega arith)
insert-sums_new key new ((k, s) ∷ m) p = elim (Bool-cases (text_eq k key)) [
  | inl e ↦ absurd (hit e)
  | inr e ↦
      let (runs, tokens) = insert-sums_new key new m (miss e) in
      rw e (
        omega (arith, runs),
        ap (add64 s.total_tokens) tokens ∙ add64-mid s.total_tokens (sum_tokens m) new.total_tokens,
      )
]
  where
    hit : text_eq k key ≡ true → ⊥
    hit e = ground arith

    miss : text_eq k key ≡ false → lookup key m ≡ none
    miss e = ground arith

bump-sums :
    (rec : UsageRecord) (m : List (Text × ModelSummary))
    → (sum_runs (bump rec m) ≡ sum_runs m + 1)
      × (sum_tokens (bump rec m) ≡ add64 (sum_tokens m) rec.total_tokens)
unfolding bump
bump-sums rec m = go (lookup model m) refl
  where
    model : Text
    model = if is_nil rec.model then text_of "unknown" else rec.model

    go :
        (found : Option ModelSummary)
        → lookup model m ≡ found
        → (sum_runs (bump rec m) ≡ sum_runs m + 1)
          × (sum_tokens (bump rec m) ≡ add64 (sum_tokens m) rec.total_tokens)
    go none p =
        let (runs, tokens) = insert-sums_new model _ m p in
        rw (bump, p) (runs, tokens ∙ add64-unit (sum_tokens m) rec.total_tokens)
    go (some s) p = rw (bump, p) (insert-sums model s _ rec.total_tokens m p refl refl)

model_summaries-sums :
    (records : List UsageRecord) (m : List (Text × ModelSummary))
    → (sum_runs (model_summaries m records) ≡ sum_runs m + length records)
      × (sum_tokens (model_summaries m records) ≡ total_of (sum_tokens m) records)
unfolding model_summaries total_of
model_summaries-sums [] m = (omega arith, refl)
model_summaries-sums (rec ∷ more) m =
    let (runs, tokens) = bump-sums rec m in
    let (runs', tokens') = model_summaries-sums more (bump rec m) in
    (omega (arith, runs, runs'), tokens' ∙ ap (λ n. total_of n more) tokens)

-- The runs and the tokens of the models of a summary.
abbrev pub runs_of : List ModelSummary → ℕ
runs_of [] = 0
runs_of (s ∷ more) = s.runs + runs_of more

abbrev pub tokens_of : List ModelSummary → ℕ
tokens_of [] = 0
tokens_of (s ∷ more) = add64 s.total_tokens (tokens_of more)

summaries_of-sums :
    (m : List (Text × ModelSummary))
    → (runs_of (summaries_of m) ≡ sum_runs m) × (tokens_of (summaries_of m) ≡ sum_tokens m)
unfolding summaries_of sum_runs sum_tokens
summaries_of-sums [] = (refl, refl)
summaries_of-sums ((k, s) ∷ m) =
    let (runs, tokens) = summaries_of-sums m in
    (ap (λ n. s.runs + n) runs, ap (add64 s.total_tokens) tokens)

module _ (less : ModelSummary → ModelSummary → Bool) where
  insert_sorted-sums :
      (s : ModelSummary) (ys : List ModelSummary)
      → (runs_of (insert_sorted less s ys) ≡ s.runs + runs_of ys)
        × (tokens_of (insert_sorted less s ys) ≡ add64 s.total_tokens (tokens_of ys))
  unfolding insert_sorted
  insert_sorted-sums s [] = (refl, refl)
  insert_sorted-sums s (y ∷ ys) = elim (Bool-cases (less y s)) [
    | inl e ↦
        let (runs, tokens) = insert_sorted-sums s ys in
        rw e (
          omega (arith, runs),
          ap (add64 y.total_tokens) tokens
              ∙ add64-swap y.total_tokens s.total_tokens (tokens_of ys),
        )
    | inr e ↦ rw e (refl, refl)
  ]
    where
      add64-swap : (a b c : ℕ) → add64 a (add64 b c) ≡ add64 b (add64 a c)
      add64-swap a b c = omega arith

  sort_by-sums :
      (ys : List ModelSummary)
      → (runs_of (sort_by less ys) ≡ runs_of ys) × (tokens_of (sort_by less ys) ≡ tokens_of ys)
  unfolding sort_by
  sort_by-sums [] = (refl, refl)
  sort_by-sums (y ∷ ys) =
      let (runs, tokens) = insert_sorted-sums y (sort_by less ys) in
      let (runs', tokens') = sort_by-sums ys in
      (runs ∙ ap (λ n. y.runs + n) runs', tokens ∙ ap (add64 y.total_tokens) tokens')

  insert_sorted-length :
      (s : ModelSummary) (ys : List ModelSummary) → length (insert_sorted less s ys) ≡ 1 + length ys
  unfolding insert_sorted
  insert_sorted-length s [] = refl
  insert_sorted-length s (y ∷ ys) = ground (arith, insert_sorted-length s ys)

  sort_by-length : (ys : List ModelSummary) → length (sort_by less ys) ≡ length ys
  unfolding sort_by
  sort_by-length [] = refl
  sort_by-length (y ∷ ys) =
      insert_sorted-length y (sort_by less ys) ∙ omega (arith, sort_by-length ys)

take-all : (n : ℕ) (ys : List ModelSummary) → length ys ≤ n → take n ys ≡ ys
take-all zero [] h = refl
take-all zero (y ∷ ys) h = absurd (omega arith)
take-all (suc n) [] h = refl
take-all (suc n) (y ∷ ys) h = ap (λ zs. y ∷ zs) (take-all n ys (omega arith))

-- As long as there are no more models than a summary lists, the runs of its models are as many as
-- its records, and the tokens of its models add up, as int64, to its total.
pub summarize_usage_lem :
    (task_id : Text) (records : List UsageRecord)
    → length (summaries_of (model_summaries [] records)) ≤ max_usage_model_summaries
    → let summary = summarize_usage task_id records in
      (runs_of summary.models ≡ length records) × (tokens_of summary.models ≡ summary.total_tokens)
unfolding summarize_usage sum_runs sum_tokens
summarize_usage_lem task_id records h =
    let less = λ (a b : ModelSummary). signed_before b.total_tokens a.total_tokens in
    let ys = summaries_of (model_summaries [] records) in
    let (runs, tokens) = model_summaries-sums records [] in
    let (runs', tokens') = summaries_of-sums (model_summaries [] records) in
    let (runs'', tokens'') = sort_by-sums less ys in
    let all =
      take-all max_usage_model_summaries (sort_by less ys)
        (omega (arith, h, sort_by-length less ys)) in
    (
      ap runs_of all ∙ runs'' ∙ runs' ∙ runs ∙ omega arith,
      ap tokens_of all ∙ tokens'' ∙ tokens' ∙ tokens,
    )
