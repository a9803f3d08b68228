-- ===== src/Proxy/Stream.antt =====
-- streamChatAsResponses of internal/compat/proxy.go: the chunks of a chat stream as the events of a
-- responses stream. An event is given by what its JSON says; identities of the response and of its
-- message are fixed for a stream and left out.
mod Events
pub mod Texts
pub mod Calls
pub mod Protocol
use auto_gardener.Base.{
  Bool, List, Option, [], false, if◌then◌else◌, is_nil, length, none, not, some, suc, true, zero, ℕ,
  ◌&&◌, ◌++◌, ◌+◌, ◌||◌, ◌∷◌,
}
use auto_gardener.Base.Dict.{insert, lookup}
use auto_gardener.Models.{Env}
use auto_gardener.Text.{
  Text, first_non_empty, has_prefix, text_eq, text_of, trim_prefix, trim_space,
}
use auto_gardener.Text.Laws.{text_key}
use auto_gardener.Text.Number.{int_key, itoa, negsuc, pos, ℤ}

pub record ToolDelta : Type 0 where
  pub index : ℤ
  pub id : Text
  pub name : Text
  pub arguments : Text

pub record Choice : Type 0 where
  pub content : Text
  pub tool_calls : List ToolDelta

pub record ChatUsage : Type 0 where
  pub prompt_tokens : ℤ
  pub completion_tokens : ℤ
  pub total_tokens : ℤ

pub record Chunk : Type 0 where
  pub choices : List Choice
  pub usage : Option ChatUsage

pub record PendingToolCall : Type 0 where
  pub id : Text
  pub item_id : Text
  pub name : Text
  pub arguments : Text
  pub is_started : Bool

-- functionCallItem and messageItem
pub record CallItem : Type 0 where
  pub id : Text
  pub call_id : Text
  pub name : Text
  pub arguments : Text

pub data OutputItem : Type 0 where
  message_item : Text → OutputItem
  call_item : CallItem → OutputItem

-- The index of the output item comes first where an event has one.
pub data Event : Type 0 where
  created : Event
  message_added part_added : ℕ → Event
  text_delta : ℕ → Text → Event
  call_added : ℕ → CallItem → Event
  arguments_delta : ℕ → Text → Text → Event
  text_finished part_finished message_finished : ℕ → Text → Event
  arguments_finished : ℕ → Text → Text → Event
  call_finished : ℕ → CallItem → Event
  completed : List OutputItem → Option ChatUsage → Event
  end_of_stream : Event

pub record StreamState : Type 0 where
  pub text : Text
  pub text_started : Bool
  pub tool_calls : List (ℤ × PendingToolCall)
  pub usage : Option ChatUsage

-- What a line of the body is: nothing to read, the end, or a chunk.
pub data Signal : Type 0 where
  skip stop : Signal
  chunk : Chunk → Signal

unfoldable pub function_call_item : PendingToolCall → CallItem
function_call_item c = record {
  id = c.item_id;
  call_id = first_non_empty (c.id ∷ c.item_id ∷ []);
  name = c.name;
  arguments = c.arguments;
}

-- `outputIndex` while the body is read.
abbrev pub first_index : ℕ
first_index = 0

pub add_text : Text → StreamState → StreamState × List Event
add_text content s =
    let opening =
      if s.text_started then [] else message_added first_index ∷ part_added first_index ∷ [] in
    if is_nil content then (s, []) else (
      record s { text = s.text ++ content; text_started = true },
      opening ++ text_delta first_index content ∷ [],
    )

show_index : ℤ → Text
show_index (pos n) = itoa n
show_index (negsuc n) = b'-' ∷ itoa (n + 1)

new_call : Env → ToolDelta → PendingToolCall
unfolding show_index text_of
new_call e d = record {
  id = d.id;
  item_id =
      first_non_empty
        (d.id ∷ (text_of "call_" ++ (itoa e.now ++ (b'_' ∷ show_index d.index))) ∷ []);
  name = d.name;
  arguments = [];
  is_started = false;
}

known_call : Env → ToolDelta → Option PendingToolCall → PendingToolCall
unfolding new_call
known_call e d none = new_call e d
known_call e d (some c) = c

identified : ToolDelta → PendingToolCall → PendingToolCall
identified d c =
    let c' = if is_nil d.id then c else record c { id = d.id; item_id = d.id } in
    if is_nil d.name then c' else record c' { name = d.name }

-- The call of the delta, with the identity and the name that the delta gives.
pub named_call : Env → ToolDelta → List (ℤ × PendingToolCall) → PendingToolCall
unfolding known_call identified
named_call e d calls = identified d (known_call e d (lookup d.index calls))

pub add_call : Env → ToolDelta → StreamState → StreamState × List Event
unfolding named_call function_call_item
add_call e d s =
    let c = named_call e d s.tool_calls in
    let opens = not c.is_started && not (is_nil c.name) in
    let c' = record c {
      is_started = c.is_started || opens;
      arguments = c.arguments ++ d.arguments;
    } in
    (
      record s { tool_calls = insert d.index c' s.tool_calls },
      (if opens then call_added first_index (function_call_item c) ∷ [] else [])
          ++ (if is_nil d.arguments
              then []
              else arguments_delta first_index c.item_id d.arguments ∷ []),
    )

pub add_calls : Env → List ToolDelta → StreamState → StreamState × List Event
unfolding add_call
add_calls e [] s = (s, [])
add_calls e (d ∷ more) s =
    let (s', out) = add_call e d s in let (s'', out') = add_calls e more s' in (s'', out ++ out')

pub add_choices : Env → List Choice → StreamState → StreamState × List Event
unfolding add_text add_calls
add_choices e [] s = (s, [])
add_choices e (c ∷ more) s =
    let (s', out) = add_text c.content s in
    let (s'', out') = add_calls e c.tool_calls s' in
    let (s''', out'') = add_choices e more s'' in (s''', out ++ (out' ++ out''))

pub add_chunk : Env → Chunk → StreamState → StreamState × List Event
unfolding add_choices
add_chunk e c s =
    add_choices e c.choices (record s { usage = elim c.usage [ none ↦ s.usage | some u ↦ some u ] })

-- A line; `unmarshal` is json.Unmarshal into a chunk.
unfoldable pub read_line : (Text → Option Chunk) → Text → Signal
unfolding trim_space has_prefix text_of text_eq trim_prefix
read_line unmarshal raw =
    let line = trim_space raw in
    let data_text = trim_space (trim_prefix line (text_of "data:")) in
    if not (has_prefix line (text_of "data:"))
    then skip
    else if text_eq data_text (text_of "[DONE]")
    then stop
    else (elim (unmarshal data_text) [ none ↦ skip | some c ↦ chunk c ])

-- The loop over the lines that the scanner gives, and what it does with one.
unfoldable pub read_lines :
    Env → (Text → Option Chunk) → List Text → StreamState → StreamState × List Event
unfolding read_line add_chunk
read_lines e unmarshal [] s = (s, [])
read_lines e unmarshal (line ∷ more) s = elim (read_line unmarshal line) [
  | stop ↦ (s, [])
  | skip ↦ read_lines e unmarshal more s
  | chunk c ↦
      let (s', out) = add_chunk e c s in
      let (s'', out') = read_lines e unmarshal more s' in (s'', out ++ out')
]

-- The calls at the indices from `i` on, `left` of them.
pub calls_from : ℕ → ℕ → List (ℤ × PendingToolCall) → List PendingToolCall
calls_from i zero calls = []
calls_from i (suc left) calls =
    let rest = calls_from (i + 1) left calls in
    elim (lookup (pos i) calls) [ none ↦ rest | some c ↦ c ∷ rest ]

unfoldable pub ordered_tool_calls : List (ℤ × PendingToolCall) → List PendingToolCall
unfolding calls_from
ordered_tool_calls calls = calls_from 0 (length calls) calls

pub finish_text : StreamState → List Event
finish_text s =
    if s.text_started
    then text_finished 0 s.text ∷ part_finished 0 s.text ∷ message_finished 0 s.text ∷ []
    else []

pub finish_call : ℕ → PendingToolCall → List Event
unfolding function_call_item
finish_call index c =
    (if c.is_started then [] else call_added index (function_call_item c) ∷ [])
    ++ (arguments_finished index c.item_id c.arguments
        ∷ call_finished index (function_call_item c)
        ∷ [])

pub finish_calls : ℕ → List PendingToolCall → List Event
unfolding finish_call
finish_calls index [] = []
finish_calls index (c ∷ more) = finish_call index c ++ finish_calls (index + 1) more

items_of : List PendingToolCall → List OutputItem
unfolding function_call_item
items_of [] = []
items_of (c ∷ more) = call_item (function_call_item c) ∷ items_of more

unfoldable pub output_of : StreamState → List OutputItem
unfolding items_of ordered_tool_calls
output_of s =
    (if s.text_started then message_item s.text ∷ [] else [])
    ++ items_of (ordered_tool_calls s.tool_calls)

pub finish_stream : StreamState → List Event
unfolding finish_text finish_calls ordered_tool_calls output_of
finish_stream s =
    finish_text s
    ++ (finish_calls (if s.text_started then 1 else 0) (ordered_tool_calls s.tool_calls)
        ++ (completed (output_of s) s.usage ∷ end_of_stream ∷ []))

abbrev pub empty_stream : StreamState
empty_stream = record { text = []; text_started = false; tool_calls = []; usage = none }

unfoldable pub stream_chat_as_responses : Env → (Text → Option Chunk) → List Text → List Event
unfolding read_lines finish_stream
stream_chat_as_responses e unmarshal lines =
    let (s, out) = read_lines e unmarshal lines empty_stream in created ∷ (out ++ finish_stream s)
