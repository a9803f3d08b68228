-- ===== src/Proxy/Stream/Protocol.antt =====
-- The order of the events of a stream, as a machine that reads them, and that the events of
-- internal/compat/proxy.go are in this order.
use auto_gardener.Base.{
  Bool, List, Option, [], append_assoc, arith, false, if◌then◌else◌, is_nil, none, refl, some, true,
  ℕ, ◌++◌, ◌+◌, ◌∷◌, ◌≡◌,
}
use auto_gardener.Models.{Env}
use auto_gardener.Proxy.Stream.{
  ChatUsage, Chunk, Event, OutputItem, PendingToolCall, StreamState, ToolDelta, add_call, add_text,
  arguments_delta, arguments_finished, call_added, call_finished, completed, created, empty_stream,
  end_of_stream, finish_call, finish_calls, finish_stream, finish_text, message_added,
  message_finished, ordered_tool_calls, output_of, part_added, part_finished, read_lines,
  stream_chat_as_responses, text_delta, text_finished,
}
use auto_gardener.Proxy.Stream.Events.{over_lines}
use auto_gardener.Text.{Text}

pub data StreamPhase : Type 0 where
  opened fresh added speaking text_closed part_closed closing reported closed : StreamPhase

-- Calls are announced and filled at any time before the report, the text while the message is open.
unfoldable pub protocol_step : StreamPhase → Event → Option StreamPhase
protocol_step opened created = some fresh
protocol_step fresh (message_added i) = some added
protocol_step fresh (call_added i c) = some fresh
protocol_step fresh (arguments_delta i id t) = some fresh
protocol_step fresh (arguments_finished i id t) = some closing
protocol_step fresh (completed out u) = some reported
protocol_step added (part_added i) = some speaking
protocol_step speaking (text_delta i t) = if is_nil t then none else some speaking
protocol_step speaking (call_added i c) = some speaking
protocol_step speaking (arguments_delta i id t) = some speaking
protocol_step speaking (text_finished i t) = some text_closed
protocol_step text_closed (part_finished i t) = some part_closed
protocol_step part_closed (message_finished i t) = some closing
protocol_step closing (call_added i c) = some closing
protocol_step closing (arguments_finished i id t) = some closing
protocol_step closing (call_finished i c) = some closing
protocol_step closing (completed out u) = some reported
protocol_step reported end_of_stream = some closed
protocol_step _ _ = none

-- The phase after one more event, `none` where one of them comes out of order.
unfoldable pub phase_after : Option StreamPhase → Event → Option StreamPhase
unfolding protocol_step
phase_after none x = none
phase_after (some p) x = protocol_step p x

unfoldable pub protocol_run : Option StreamPhase → List Event → Option StreamPhase
unfolding phase_after
protocol_run r [] = r
protocol_run r (x ∷ more) = protocol_run (phase_after r x) more

protocol_run-append :
    (r : Option StreamPhase) (xs ys : List Event)
    → protocol_run r (xs ++ ys) ≡ protocol_run (protocol_run r xs) ys
unfolding protocol_run
protocol_run-append r [] ys = refl
protocol_run-append r (x ∷ xs) ys = protocol_run-append (phase_after r x) xs ys

sequel :
    (r q q' : Option StreamPhase) (xs ys : List Event)
    → protocol_run r xs ≡ q
    → protocol_run q ys ≡ q'
    → protocol_run r (xs ++ ys) ≡ q'
sequel r q q' xs ys h k = rw (protocol_run-append r xs ys, h) k

-- The phase while the body is read.
abbrev reading : StreamState → StreamPhase
reading s = if s.text_started then speaking else fresh

abbrev Follows : StreamState → StreamState → List Event → Type 0
Follows s s' out = protocol_run (some (reading s)) out ≡ some (reading s')

add_text-Follows :
    (content : Text) (s : StreamState) → Follows s (add_text content s).0 (add_text content s).1
unfolding add_text protocol_run
add_text-Follows content s = ground arith

add_call-Follows :
    (e : Env) (d : ToolDelta) (s : StreamState) → Follows s (add_call e d s).0 (add_call e d s).1
unfolding add_call protocol_run
add_call-Follows e d s = ground arith

read_lines-Follows :
    (e : Env) (unmarshal : Text → Option Chunk) (lines : List Text) (s : StreamState)
    → Follows s (read_lines e unmarshal lines s).0 (read_lines e unmarshal lines s).1
unfolding protocol_run
read_lines-Follows =
    over_lines Follows (λ s. refl)
      (λ s s' s'' xs ys. sequel (some (reading s)) (some (reading s')) (some (reading s'')) xs ys)
      add_text-Follows add_call-Follows (λ u s s' xs h. h)

-- The phases in which the calls are finished and the response is reported.
abbrev finishing : StreamState → StreamPhase
finishing s = if s.text_started then closing else fresh

finish_text_run :
    (s : StreamState) → protocol_run (some (reading s)) (finish_text s) ≡ some (finishing s)
unfolding finish_text protocol_run
finish_text_run s = ground arith

finish_call_run :
    (b : Bool) (index : ℕ) (c : PendingToolCall)
    → protocol_run (some (if b then closing else fresh)) (finish_call index c) ≡ some closing
unfolding protocol_run finish_call
finish_call_run b index c = ground arith

-- The report may follow an answer of no text and no call.
finish_run :
    (b : Bool) (index : ℕ) (calls : List PendingToolCall) (out : List OutputItem)
    (usage : Option ChatUsage)
    → protocol_run
        (some (if b then closing else fresh))
        (finish_calls index calls ++ (completed out usage ∷ end_of_stream ∷ []))
      ≡ some closed
unfolding protocol_run finish_calls
finish_run true index [] out usage = refl
finish_run false index [] out usage = refl
finish_run b index (c ∷ more) out usage =
    let report = completed out usage ∷ end_of_stream ∷ [] in
    rw (append_assoc (finish_call index c) (finish_calls (index + 1) more) report) (
      sequel (some (if b then closing else fresh)) (some closing) (some closed)
        (finish_call index c) (finish_calls (index + 1) more ++ report) (finish_call_run b index c)
        (finish_run true (index + 1) more out usage))

finish_stream_run :
    (s : StreamState) → protocol_run (some (reading s)) (finish_stream s) ≡ some closed
unfolding finish_stream
finish_stream_run s =
    let calls = ordered_tool_calls s.tool_calls in
    sequel (some (reading s)) (some (finishing s)) (some closed) (finish_text s)
      (finish_calls (if s.text_started then 1 else 0) calls
        ++ (completed (output_of s) s.usage ∷ end_of_stream ∷ []))
      (finish_text_run s)
      (finish_run s.text_started (if s.text_started then 1 else 0) calls (output_of s) s.usage)

-- Whatever the provider sends, the events come in the order of the machine: the response is created,
-- the message is opened at most once, its text comes in non-empty pieces between its opening and its
-- end, calls are finished after the message, one report follows, and nothing comes after the end.
pub stream_chat_as_responses_protocol :
    (e : Env) (unmarshal : Text → Option Chunk) (lines : List Text)
    → protocol_run (some opened) (stream_chat_as_responses e unmarshal lines) ≡ some closed
unfolding stream_chat_as_responses protocol_run
stream_chat_as_responses_protocol e unmarshal lines =
    let r = read_lines e unmarshal lines empty_stream in
    sequel (some fresh) (some (reading r.0)) (some closed) r.1 (finish_stream r.0)
      (read_lines-Follows e unmarshal lines empty_stream) (finish_stream_run r.0)
