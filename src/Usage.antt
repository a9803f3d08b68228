-- ===== src/Usage.antt =====
-- internal/app/usage.go: the token counts that the CLI prints, as records and as a summary. Costs
-- are left out: applyPrice leaves them zero and no record priced or exact. A count is an int64 in
-- two's complement. The regular expressions, the hash and the form of a time are parameters.
pub mod Unique
pub mod Totals
use auto_gardener.Base.{
  Bool, List, Option, [], any, false, if◌then◌else◌, is_nil, ltb, none, not, some, take, true, ℕ,
  ◌%◌, ◌&&◌, ◌++◌, ◌+◌, ◌==◌, ◌||◌, ◌∷◌,
}
use auto_gardener.Base.Dict.{insert, lookup}
use auto_gardener.Base.Sort.{sort_by}
use auto_gardener.Orchestrator.Forest.Leaving.{kept}
use auto_gardener.Text.{Text, has_prefix, is_blank, text_eq, text_of, to_lower, trim_space}
use auto_gardener.Text.Laws.{text_key}
use auto_gardener.Text.Number.{is_digit, itoa}

abbrev pub width : ℕ
width = 0x1_0000_0000_0000_0000

-- The sum of two int64.
abbrev pub add64 : ℕ → ℕ → ℕ
add64 a b = (a + b) % width

-- n > 0
abbrev pub is_positive : ℕ → Bool
is_positive n = ltb 0 n && ltb n 0x8000_0000_0000_0000

pub record UsageState : Type 0 where
  pub run_id : Text
  pub external_run_id : Bool
  pub source_type : Text
  pub source_id : Text
  pub source_name : Text
  pub model : Text
  pub expect_total_tokens : Bool
  pub input_tokens : ℕ
  pub cached_input_tokens : ℕ
  pub output_tokens : ℕ

pub record UsageRecord : Type 0 where
  pub id : Text
  pub task_id : Text
  pub run_id : Text
  pub source_type : Text
  pub source_id : Text
  pub source_name : Text
  pub model : Text
  pub total_tokens : ℕ
  pub input_tokens : ℕ
  pub cached_input_tokens : ℕ
  pub output_tokens : ℕ
  pub created_at : ℕ

-- The kinds of parseTokenDetailLine.
pub data TokenKind : Type 0 where
  input_kind cached_kind output_kind total_kind : TokenKind

-- What usage.go takes from the regexp, crypto, time and strconv packages.
pub record Reader : Type 0 where
  pub parse_model_line : Text → Option Text
  pub parse_token_detail_line : Text → Option (TokenKind × ℕ)
  pub parse_number : Text → ℕ
  pub stable_id : List Text → Text
  pub show_time : ℕ → Text

pub record UsageEvent : Type 0 where
  pub time : ℕ
  pub task_id : Text
  pub run_id : Text
  pub source_type : Text
  pub source_id : Text
  pub source_name : Text
  pub line : Text

-- isMostlyNumber of internal/app/orchestrator.go: digits, and nothing else but `,`, `.` and spaces.
only_number : Text → Bool
only_number s = not (any (λ c. not (is_digit c || c == b',' || c == b'.' || c == 32)) s)

unfoldable pub is_mostly_number : Text → Bool
unfolding only_number
is_mostly_number s = any is_digit s && only_number s

unfoldable pub safe_usage_source_name : Text → Text
unfolding text_of
safe_usage_source_name source_type =
    let kind = to_lower (trim_space source_type) in
    if text_eq kind (text_of "gardener")
    then text_of "Gardener"
    else if text_eq kind (text_of "tree")
    then text_of "Tree"
    else text_of "Agent"

module _ (r : Reader) where
  unfoldable pub build_usage_record : UsageState → Text → ℕ → ℕ → UsageRecord
  unfolding safe_usage_source_name text_of
  build_usage_record st task_id printed time =
      let model = if is_nil st.model then text_of "unknown" else st.model in
      let parts = add64 (add64 st.input_tokens st.cached_input_tokens) st.output_tokens in
      let given =
        is_positive st.input_tokens
        || is_positive st.cached_input_tokens
        || is_positive st.output_tokens in
      let total = if not (is_positive printed) && given then parts else printed in
      let at = r.show_time time in
      let run_id =
        if is_nil st.run_id
        then r.stable_id (
            task_id ∷ st.source_type ∷ st.source_id ∷ st.source_name ∷ at ∷ model ∷ itoa total ∷ [])
        else st.run_id in
      record {
        id =
            r.stable_id
              (task_id ∷ run_id ∷ st.source_type ∷ st.source_id ∷ model ∷ itoa total ∷ at ∷ []);
        task_id = task_id;
        run_id = run_id;
        source_type = if is_blank st.source_type then text_of "agent" else st.source_type;
        source_id = st.source_id;
        source_name = safe_usage_source_name st.source_type;
        model = model;
        total_tokens = total;
        input_tokens = st.input_tokens;
        cached_input_tokens = st.cached_input_tokens;
        output_tokens = st.output_tokens;
        created_at = time;
      }

  without_parts : UsageState → UsageState
  without_parts st = record st { input_tokens = 0; cached_input_tokens = 0; output_tokens = 0 }

  with_model : UsageState → Text → ℕ → Text → UsageState
  unfolding without_parts
  with_model st task_id time model = record (without_parts st) {
    model = model;
    run_id =
        if not st.external_run_id || is_nil st.run_id
        then r.stable_id (
            task_id
            ∷ st.source_type
            ∷ st.source_id
            ∷ st.source_name
            ∷ r.show_time time
            ∷ model
            ∷ [])
        else st.run_id;
    expect_total_tokens = false;
  }

  with_detail : UsageState → Text → ℕ → TokenKind → ℕ → UsageState × Option UsageRecord
  unfolding build_usage_record without_parts
  with_detail st task_id time input_kind n = (record st { input_tokens = n }, none)
  with_detail st task_id time cached_kind n = (record st { cached_input_tokens = n }, none)
  with_detail st task_id time output_kind n = (record st { output_tokens = n }, none)
  with_detail st task_id time total_kind n =
      (without_parts st, some (build_usage_record st task_id n time))

  -- A line that is neither a model nor a count with its name.
  plain_line : UsageState → Text → ℕ → Text → UsageState × Option UsageRecord
  unfolding build_usage_record without_parts is_mostly_number text_of has_prefix
  plain_line st task_id time line =
      if has_prefix (to_lower line) (text_of "tokens used")
      then (record st { expect_total_tokens = true }, none)
      else if st.expect_total_tokens && is_mostly_number line
      then (
        record (without_parts st) { expect_total_tokens = false },
        some (build_usage_record st task_id (r.parse_number line) time),
      )
      else (st, none)

  unfoldable pub consume_usage_line : UsageState → Text → ℕ → Text → UsageState × Option UsageRecord
  unfolding with_model with_detail plain_line trim_space
  consume_usage_line st raw time task_id =
      let line = trim_space raw in
      if is_nil line then (st, none) else elim (r.parse_model_line line) [
        | some model ↦ (with_model st task_id time model, none)
        | none ↦ elim (r.parse_token_detail_line line) [
          | some (kind, n) ↦ with_detail st task_id time kind n
          | none ↦ plain_line st task_id time line
        ]
      ]

  stream_key : UsageEvent → Text
  stream_key ev = if is_nil ev.run_id then ev.source_type ++ (b':' ∷ ev.source_id) else ev.run_id

  stream_state : UsageEvent → List (Text × UsageState) → UsageState
  unfolding stream_key
  stream_state ev states = elim (lookup (stream_key ev) states) [
    | some st ↦ st
    | none ↦ record {
      run_id = ev.run_id;
      external_run_id = not (is_nil ev.run_id);
      source_type = ev.source_type;
      source_id = ev.source_id;
      source_name = ev.source_name;
      model = [];
      expect_total_tokens = false;
      input_tokens = 0;
      cached_input_tokens = 0;
      output_tokens = 0;
    }
  ]

  -- parseUsageJSONL, over the events that its lines decode to.
  pub parse_usage_events : List (Text × UsageState) → List UsageEvent → List UsageRecord
  unfolding consume_usage_line stream_key stream_state
  parse_usage_events states [] = []
  parse_usage_events states (ev ∷ more) =
      let (st, found) = consume_usage_line (stream_state ev states) ev.line ev.time ev.task_id in
      let rest = parse_usage_events (insert (stream_key ev) st states) more in
      elim found [ none ↦ rest | some rec ↦ rec ∷ rest ]

abbrev pub created_before : UsageRecord → UsageRecord → Bool
created_before a b = ltb a.created_at b.created_at

bar : Text
bar = b'|' ∷ []

unfoldable pub usage_key : UsageRecord → Text
unfolding bar
usage_key rec =
    if is_nil rec.run_id
    then rec.id
    else rec.task_id
      ++ (bar ++ (rec.run_id ++ (bar ++ (rec.model ++ (bar ++ itoa rec.total_tokens)))))

pub keep_unseen : List Text → List UsageRecord → List UsageRecord
unfolding usage_key
keep_unseen seen [] = []
keep_unseen seen (rec ∷ more) =
    let skipped = keep_unseen seen more in
    let kept = rec ∷ keep_unseen (usage_key rec ∷ seen) more in
    if not (is_positive rec.total_tokens)
    then skipped
    else if any (text_eq (usage_key rec)) seen
    then skipped
    else kept

unfoldable pub dedupe_usage_records : List UsageRecord → List UsageRecord
unfolding keep_unseen
dedupe_usage_records records = keep_unseen [] (sort_by created_before records)

pub record ModelSummary : Type 0 where
  pub model : Text
  pub total_tokens : ℕ
  pub runs : ℕ

pub record UsageSummary : Type 0 where
  pub task_id : Text
  pub total_tokens : ℕ
  pub models : List ModelSummary
  pub records : List UsageRecord
  pub last_updated_at : Option ℕ

-- `byModel`, with the entry of a model that is new.
pub bump : UsageRecord → List (Text × ModelSummary) → List (Text × ModelSummary)
unfolding text_of
bump rec m =
    let model = if is_nil rec.model then text_of "unknown" else rec.model in
    elim (lookup model m) [
      | none ↦
          insert model (record { model = model; total_tokens = add64 0 rec.total_tokens; runs = 1 })
            m
      | some s ↦
          insert model
            (record s { total_tokens = add64 s.total_tokens rec.total_tokens; runs = s.runs + 1 }) m
    ]

unfoldable pub model_summaries :
    List (Text × ModelSummary) → List UsageRecord → List (Text × ModelSummary)
unfolding bump
model_summaries m [] = m
model_summaries m (rec ∷ more) = model_summaries (bump rec m) more

pub total_of : ℕ → List UsageRecord → ℕ
total_of n [] = n
total_of n (rec ∷ more) = total_of (add64 n rec.total_tokens) more

latest_of : Option ℕ → List UsageRecord → Option ℕ
latest_of latest [] = latest
latest_of none (rec ∷ more) = latest_of (some rec.created_at) more
latest_of (some at) (rec ∷ more) =
    latest_of (some (if ltb at rec.created_at then rec.created_at else at)) more

unfoldable pub summaries_of : List (Text × ModelSummary) → List ModelSummary
summaries_of [] = []
summaries_of ((k, s) ∷ m) = s ∷ summaries_of m

signed_before : ℕ → ℕ → Bool
signed_before a b = ltb (add64 a 0x8000_0000_0000_0000) (add64 b 0x8000_0000_0000_0000)

abbrev pub max_usage_model_summaries : ℕ
max_usage_model_summaries = 20

unfoldable pub summarize_usage : Text → List UsageRecord → UsageSummary
unfolding model_summaries total_of latest_of summaries_of signed_before
summarize_usage task_id records = record {
  task_id = task_id;
  total_tokens = total_of 0 records;
  models = take max_usage_model_summaries (
      sort_by (λ (a b : ModelSummary). signed_before b.total_tokens a.total_tokens)
        (summaries_of (model_summaries [] records)));
  records = records;
  last_updated_at = latest_of none records;
}
