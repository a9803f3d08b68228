-- ===== src/Proxy/Stream/Calls.antt =====
-- The arguments of the tool calls that internal/compat/proxy.go puts together.
use auto_gardener.Base.{
  Bool-cases, List, Option, [], ap, append-nil, append_assoc, arith, if◌then◌else◌, inl, inr,
  length, none, refl, some, suc, sym, zero, ℕ, ◌++◌, ◌+◌, ◌<◌, ◌==◌, ◌∙◌, ◌∷◌, ◌≡◌, ◌≤◌, ◌⊎◌,
}
use auto_gardener.Base.Dict.{insert, lookup, lookup-insert}
use auto_gardener.Models.{Env}
use auto_gardener.Proxy.Stream.{
  Choice, Chunk, Event, OutputItem, PendingToolCall, Signal, StreamState, ToolDelta, add_call,
  add_calls, add_choices, add_chunk, add_text, call_item, calls_from, chunk, empty_stream,
  function_call_item, items_of, named_call, output_of, read_line, read_lines, skip, stop,
}
use auto_gardener.Text.{Text}
use auto_gardener.Text.Laws.{text_key}
use auto_gardener.Text.Number.{int_eq, int_eq_iff, int_key, pos, ℤ}

-- The chunks that the loop takes from the lines.
chunks_of : (Text → Option Chunk) → List Text → List Chunk
chunks_of unmarshal [] = []
chunks_of unmarshal (line ∷ more) = elim (read_line unmarshal line) [
  | stop ↦ []
  | skip ↦ chunks_of unmarshal more
  | chunk c ↦ c ∷ chunks_of unmarshal more
]

choice_deltas : List Choice → List ToolDelta
choice_deltas [] = []
choice_deltas (c ∷ more) = c.tool_calls ++ choice_deltas more

chunk_deltas : List Chunk → List ToolDelta
unfolding choice_deltas
chunk_deltas [] = []
chunk_deltas (c ∷ more) = choice_deltas c.choices ++ chunk_deltas more

-- The tool deltas of a body, in the order in which they come.
unfoldable pub deltas_of : (Text → Option Chunk) → List Text → List ToolDelta
unfolding chunks_of chunk_deltas
deltas_of unmarshal lines = chunk_deltas (chunks_of unmarshal lines)

-- The arguments that the deltas bring for one index, joined.
unfoldable pub sent_arguments : ℤ → List ToolDelta → Text
sent_arguments i [] = []
sent_arguments i (d ∷ more) =
    (if int_eq d.index i then d.arguments else []) ++ sent_arguments i more

-- The arguments of the call at an index, none where there is no call.
unfoldable pub kept_arguments : ℤ → List (ℤ × PendingToolCall) → Text
kept_arguments i calls = elim (lookup i calls) [ none ↦ [] | some c ↦ c.arguments ]

kept_arguments-insert :
    (i j : ℤ) (c : PendingToolCall) (calls : List (ℤ × PendingToolCall))
    → kept_arguments i (insert j c calls)
      ≡ (if int_eq j i then c.arguments else kept_arguments i calls)
unfolding kept_arguments
kept_arguments-insert i j c calls = ground (arith, lookup-insert j i c calls)

named_call-arguments :
    (e : Env) (d : ToolDelta) (calls : List (ℤ × PendingToolCall))
    → (named_call e d calls).arguments ≡ kept_arguments d.index calls
unfolding named_call kept_arguments
named_call-arguments e d calls = ground arith

add_call-arguments :
    (e : Env) (d : ToolDelta) (s : StreamState) (i : ℤ)
    → kept_arguments i (add_call e d s).0.tool_calls
      ≡ kept_arguments i s.tool_calls ++ sent_arguments i (d ∷ [])
unfolding add_call sent_arguments
add_call-arguments e d s i =
    let c = named_call e d s.tool_calls in
    let e1 : kept_arguments i (add_call e d s).0.tool_calls
        ≡ (if int_eq d.index i then c.arguments ++ d.arguments else kept_arguments i s.tool_calls) =
      kept_arguments-insert i d.index _ s.tool_calls in
    e1 ∙ elim (Bool-cases (int_eq d.index i)) [
      | inl same ↦ rw same (
          rw (append-nil d.arguments) (
            ap (λ t. t ++ d.arguments)
              (named_call-arguments e d s.tool_calls
                ∙ ap (λ j. kept_arguments j s.tool_calls) ((int_eq_iff d.index i).0 same))))
      | inr differs ↦ rw differs (sym (append-nil (kept_arguments i s.tool_calls)))
    ]

sent_arguments-append :
    (i : ℤ) (ds more : List ToolDelta)
    → sent_arguments i (ds ++ more) ≡ sent_arguments i ds ++ sent_arguments i more
unfolding sent_arguments
sent_arguments-append i [] more = refl
sent_arguments-append i (d ∷ ds) more = simp (sent_arguments-append i ds more, append_assoc)

abbrev Keeps : ℤ → StreamState → StreamState → List ToolDelta → Type 0
Keeps i s s' ds =
    kept_arguments i s'.tool_calls ≡ kept_arguments i s.tool_calls ++ sent_arguments i ds

Keeps-append :
    (i : ℤ) (s s' s2 : StreamState) (ds more : List ToolDelta)
    → Keeps i s s' ds
    → Keeps i s' s2 more
    → Keeps i s s2 (ds ++ more)
Keeps-append i s s' s2 ds more h k =
    rw (k, h, sent_arguments-append i ds more)
      (append_assoc (kept_arguments i s.tool_calls) (sent_arguments i ds) (sent_arguments i more))

Keeps-none : (i : ℤ) (s : StreamState) → Keeps i s s []
unfolding sent_arguments
Keeps-none i s = sym (append-nil (kept_arguments i s.tool_calls))

add_calls-Keeps :
    (e : Env) (ds : List ToolDelta) (s : StreamState) (i : ℤ) → Keeps i s (add_calls e ds s).0 ds
unfolding add_calls
add_calls-Keeps e [] s i = Keeps-none i s
add_calls-Keeps e (d ∷ more) s i =
    let s' = (add_call e d s).0 in
    Keeps-append i s s' (add_calls e more s').0 (d ∷ []) more (add_call-arguments e d s i)
      (add_calls-Keeps e more s' i)

add_text_calls :
    (content : Text) (s : StreamState) → (add_text content s).0.tool_calls ≡ s.tool_calls
unfolding add_text
add_text_calls content s = ground arith

add_choices-Keeps :
    (e : Env) (cs : List Choice) (s : StreamState) (i : ℤ)
    → Keeps i s (add_choices e cs s).0 (choice_deltas cs)
unfolding add_choices choice_deltas
add_choices-Keeps e [] s i = Keeps-none i s
add_choices-Keeps e (c ∷ more) s i =
    let s' = (add_text c.content s).0 in
    let s2 = (add_calls e c.tool_calls s').0 in
    Keeps-append i s s2 (add_choices e more s2).0 c.tool_calls (choice_deltas more)
      (add_calls-Keeps e c.tool_calls s' i
        ∙ ap (λ m. kept_arguments i m ++ sent_arguments i c.tool_calls)
            (add_text_calls c.content s))
      (add_choices-Keeps e more s2 i)

add_chunk-Keeps :
    (e : Env) (c : Chunk) (s : StreamState) (i : ℤ)
    → Keeps i s (add_chunk e c s).0 (choice_deltas c.choices)
unfolding add_chunk
add_chunk-Keeps e c s i = add_choices-Keeps e c.choices _ i

read_lines-Keeps :
    (e : Env) (unmarshal : Text → Option Chunk) (lines : List Text) (s : StreamState) (i : ℤ)
    → Keeps i s (read_lines e unmarshal lines s).0 (deltas_of unmarshal lines)
unfolding read_lines deltas_of
read_lines-Keeps e unmarshal [] s i = Keeps-none i s
read_lines-Keeps e unmarshal (line ∷ more) s i =
    case (read_line unmarshal line) (λ s'. read_lines-Keeps e unmarshal more s' i)
  where
    after : Signal → StreamState × List Event
    after skip = read_lines e unmarshal more s
    after stop = (s, [])
    after (chunk c) =
        let (s', out) = add_chunk e c s in
        let (s2, out') = read_lines e unmarshal more s' in (s2, out ++ out')

    deltas_after : Signal → List Chunk
    deltas_after skip = chunks_of unmarshal more
    deltas_after stop = []
    deltas_after (chunk c) = c ∷ chunks_of unmarshal more

    case :
        (signal : Signal)
        → ((s' : StreamState)
            → Keeps i s' (read_lines e unmarshal more s').0 (deltas_of unmarshal more))
        → Keeps i s (after signal).0 (chunk_deltas (deltas_after signal))
    case skip rest = rest s
    case stop rest = Keeps-none i s
    case (chunk c) rest =
        let s' = (add_chunk e c s).0 in
        Keeps-append i s s' (read_lines e unmarshal more s').0 (choice_deltas c.choices)
          (deltas_of unmarshal more) (add_chunk-Keeps e c s i) (rest s')

-- Each call that is put together has, at its index, the arguments of all deltas for that index, in the
-- order in which the provider sent them.
pub kept_arguments-read_lines :
    (e : Env) (unmarshal : Text → Option Chunk) (lines : List Text) (i : ℤ)
    → kept_arguments i (read_lines e unmarshal lines empty_stream).0.tool_calls
      ≡ sent_arguments i (deltas_of unmarshal lines)
unfolding kept_arguments lookup
kept_arguments-read_lines e unmarshal lines i = read_lines-Keeps e unmarshal lines empty_stream i

-- An item of the report.
abbrev pub Among : OutputItem → List OutputItem → Type 0
Among x [] = ⊥
Among x (y ∷ more) = (x ≡ y) ⊎ Among x more

Among-append : (x : OutputItem) (xs ys : List OutputItem) → Among x ys → Among x (xs ++ ys)
Among-append x [] ys h = h
Among-append x (y ∷ xs) ys h = inr (Among-append x xs ys h)

-- The calls of a slot and of the slots after it.
abbrev slot : Option PendingToolCall → List PendingToolCall → List PendingToolCall
slot none rest = rest
slot (some c) rest = c ∷ rest

slot-Among :
    (x : OutputItem) (r : Option PendingToolCall) (rest : List PendingToolCall)
    → Among x (items_of rest)
    → Among x (items_of (slot r rest))
unfolding items_of
slot-Among x none rest h = h
slot-Among x (some c) rest h = inr h

slot-here :
    (c : PendingToolCall) (r : Option PendingToolCall) (rest : List PendingToolCall)
    → r ≡ some c
    → Among (call_item (function_call_item c)) (items_of (slot r rest))
unfolding items_of
slot-here c r rest h = rw h (inl refl)

calls_from-slot :
    (i left : ℕ) (calls : List (ℤ × PendingToolCall))
    → calls_from i (suc left) calls ≡ slot (lookup (pos i) calls) (calls_from (i + 1) left calls)
unfolding calls_from
calls_from-slot i left calls = ground arith

calls_from-Among :
    (from left i : ℕ) (c : PendingToolCall) (calls : List (ℤ × PendingToolCall))
    → lookup (pos i) calls ≡ some c
    → from ≤ i
    → i < from + left
    → Among (call_item (function_call_item c)) (items_of (calls_from from left calls))
calls_from-Among from zero i c calls h a b = absurd (omega arith)
calls_from-Among from (suc left) i c calls h a b =
    rw (calls_from-slot from left calls) (elim (Bool-cases (from == i)) [
      | inl same ↦
          slot-here c (lookup (pos from) calls) (calls_from (from + 1) left calls)
            (ap (λ j. lookup (pos j) calls) (ground arith) ∙ h)
      | inr differs ↦
          slot-Among _ (lookup (pos from) calls) _
            (calls_from-Among (from + 1) left i c calls h (ground arith) (omega arith))
    ])

item_arguments :
    (i : ℤ) (c : PendingToolCall) (calls : List (ℤ × PendingToolCall))
    → lookup i calls ≡ some c
    → (function_call_item c).arguments ≡ kept_arguments i calls
unfolding kept_arguments function_call_item
item_arguments i c calls found = ground arith

-- A call at an index below the number of calls is in the report, with the arguments of all deltas for
-- its index, in the order in which the provider sent them.
pub output_of-read_lines :
    (e : Env) (unmarshal : Text → Option Chunk) (lines : List Text) (i : ℕ) (c : PendingToolCall)
    → lookup (pos i) (read_lines e unmarshal lines empty_stream).0.tool_calls ≡ some c
    → i < length (read_lines e unmarshal lines empty_stream).0.tool_calls
    → Among
        (call_item (function_call_item c))
        (output_of (read_lines e unmarshal lines empty_stream).0)
      × ((function_call_item c).arguments ≡ sent_arguments (pos i) (deltas_of unmarshal lines))
unfolding output_of
output_of-read_lines e unmarshal lines i c h k =
    let calls = (read_lines e unmarshal lines empty_stream).0.tool_calls in
    (
      Among-append _ _ _
          (calls_from-Among 0 (length calls) i c calls h (omega arith) (omega arith)),
      item_arguments (pos i) c calls h ∙ kept_arguments-read_lines e unmarshal lines (pos i),
    )
