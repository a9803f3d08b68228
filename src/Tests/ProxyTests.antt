-- ===== src/Tests/ProxyTests.antt =====
-- The theorems on the proxy and on the runner, at a body of two lines and at small requests.
use auto_gardener.Base.{
  List, Option, [], arith, false, length, ltb, none, refl, some, true, ℕ, ◌++◌, ◌<◌, ◌↔◌, ◌∷◌, ◌≡◌,
  ◌≤◌, ◌⊎◌,
}
use auto_gardener.Base.Dict.{insert, lookup}
use auto_gardener.Proxy.{
  ProxyRequest, ResponseRequest, bearer_token, check_body, check_params, check_request, decoded,
  forwarded, handle, is_over, kimi_spec, provider_of, providers, validate_sampling_params,
}
use auto_gardener.Proxy.Guards.{IsForwardable, handle-eq-forwarded}
use auto_gardener.Proxy.Messages.{ChatMessage, normalize_chat_messages}
use auto_gardener.Proxy.Messages.Normal.{IsNormalOf, normalize_chat_messages-IsNormalOf}
use auto_gardener.Proxy.Stream.{
  Chunk, PendingToolCall, ToolDelta, call_item, empty_stream, function_call_item, output_of,
  read_lines, stream_chat_as_responses,
}
use auto_gardener.Proxy.Stream.Calls.{Among, deltas_of, output_of-read_lines, sent_arguments}
use auto_gardener.Proxy.Stream.Protocol.{
  closed, opened, protocol_run, stream_chat_as_responses_protocol,
}
use auto_gardener.Proxy.Stream.Texts.{
  reported_text, streamed_text, streamed_text-stream_chat_as_responses,
}
use auto_gardener.Runner.{ModelConfig, no_model, redact_sensitive_text}
use auto_gardener.Runner.Environment.{upsert_env}
use auto_gardener.Runner.Environment.Lookup.{assigned_once, find_env, find_env-upsert_env}
use auto_gardener.Runner.Secrets.{Redacted, mark, redact_sensitive_text_lem}
use auto_gardener.Tests.{env}
use auto_gardener.Text.{Text, byte_length, equal_fold, text_of, trim_space}
use auto_gardener.Text.Laws.{text_key}
use auto_gardener.Text.Number.{int_key, pos}
use auto_gardener.Text.Split.{cut}

abbrev far_delta : ToolDelta
far_delta = record { index = pos 1; id = b'i' ∷ []; name = b'n' ∷ []; arguments = b'a' ∷ [] }

-- A decoder for which every datum is a chunk with the letter `h` and a piece of a call.
abbrev unmarshal : Text → Option Chunk
unmarshal text = some (record {
  choices =
      record {
        content = b'h' ∷ [];
        tool_calls =
            record { index = pos 0; id = b'i' ∷ []; name = b'n' ∷ []; arguments = b'a' ∷ [] } ∷ [];
      }
      ∷ [];
  usage = none;
})

abbrev lines : List Text
unfolding text_of
lines = text_of "data: {}" ∷ text_of "data: {}" ∷ text_of "data: [DONE]" ∷ []

stream_chat_as_responses_protocol_example :
    protocol_run (some opened) (stream_chat_as_responses env unmarshal lines) ≡ some closed
stream_chat_as_responses_protocol_example = stream_chat_as_responses_protocol env unmarshal lines

streamed_text-stream_chat_as_responses_example :
    streamed_text (stream_chat_as_responses env unmarshal lines)
    ≡ reported_text (stream_chat_as_responses env unmarshal lines)
streamed_text-stream_chat_as_responses_example =
    streamed_text-stream_chat_as_responses env unmarshal lines

streamed_twice : streamed_text (stream_chat_as_responses env unmarshal lines) ≡ b'h' ∷ b'h' ∷ []
unfolding stream_chat_as_responses streamed_text text_of lookup insert
streamed_twice = refl

abbrev joined_call : PendingToolCall
joined_call = record {
  id = b'i' ∷ [];
  item_id = b'i' ∷ [];
  name = b'n' ∷ [];
  arguments = b'a' ∷ b'a' ∷ [];
  is_started = true;
}

joined_call-kept :
    lookup (pos 0) (read_lines env unmarshal lines empty_stream).0.tool_calls ≡ some joined_call
unfolding read_lines text_of lookup insert
joined_call-kept = refl

one_call : 0 < length (read_lines env unmarshal lines empty_stream).0.tool_calls
unfolding read_lines text_of lookup insert
one_call = omega arith

output_of-read_lines_example :
    Among
      (call_item (function_call_item joined_call))
      (output_of (read_lines env unmarshal lines empty_stream).0)
    × ((function_call_item joined_call).arguments
        ≡ sent_arguments (pos 0) (deltas_of unmarshal lines))
output_of-read_lines_example =
    output_of-read_lines env unmarshal lines 0 joined_call joined_call-kept one_call

-- The same body with its call at the index 1.
abbrev unmarshal_far : Text → Option Chunk
unmarshal_far text = some (record {
  choices = record { content = b'h' ∷ []; tool_calls = far_delta ∷ [] } ∷ [];
  usage = none;
})

abbrev request : ResponseRequest ℕ
request = record {
  model = b'm' ∷ [];
  instructions = [];
  input = [];
  tools = [];
  tool_choice = none;
  parallel_tool_calls = false;
  temperature = some 1;
  top_p = none;
  max_output_tokens = none;
}

abbrev posted_request : ProxyRequest ℕ
unfolding text_of
posted_request = record {
  method = text_of "POST";
  path = text_of "/kimi/v1/responses";
  authorization = text_of "Bearer t";
  content_length = some 100;
  body = decoded request;
}

handle-eq-forwarded_example :
    (handle ltb (λ x n. ltb n x) posted_request ≡ forwarded kimi_spec (b't' ∷ []) request)
    ↔ IsForwardable ltb (λ x n. ltb n x) posted_request kimi_spec (b't' ∷ []) request
handle-eq-forwarded_example =
    handle-eq-forwarded ltb (λ x n. ltb n x) posted_request kimi_spec (b't' ∷ []) request

posted_request-forwarded :
    handle ltb (λ x n. ltb n x) posted_request ≡ forwarded kimi_spec (b't' ∷ []) request
unfolding handle check_request check_body check_params validate_sampling_params provider_of
    providers bearer_token is_over kimi_spec text_of
posted_request-forwarded = refl

abbrev said : Text → Text → ChatMessage
said role content = record { role = role; content = content; tool_call_id = []; tool_calls = [] }

abbrev three_messages : List ChatMessage
unfolding text_of
three_messages =
    said (text_of "system") (b'a' ∷ [])
    ∷ said (text_of "user") (b'b' ∷ [])
    ∷ said (text_of "system") (b'c' ∷ [])
    ∷ []

normalize_chat_messages-IsNormalOf_example :
    IsNormalOf three_messages (normalize_chat_messages three_messages)
normalize_chat_messages-IsNormalOf_example = normalize_chat_messages-IsNormalOf three_messages

abbrev one_variable : List Text
unfolding text_of
one_variable = text_of "K=old" ∷ text_of "J=kept" ∷ []

find_env-upsert_env_example :
    (find_env (b'K' ∷ []) (upsert_env (b'K' ∷ []) (b'v' ∷ []) one_variable) ≡ some (b'v' ∷ []))
    × (find_env (b'J' ∷ []) (upsert_env (b'K' ∷ []) (b'v' ∷ []) one_variable)
        ≡ find_env (b'J' ∷ []) one_variable)
unfolding cut equal_fold assigned_once one_variable
find_env-upsert_env_example =
    find_env-upsert_env (b'K' ∷ []) (b'v' ∷ []) (b'J' ∷ []) one_variable refl refl refl

abbrev short_token : Text
short_token = b'2' ∷ b'3' ∷ b'4' ∷ b'5' ∷ b'6' ∷ b'7' ∷ b'8' ∷ []

abbrev secret_model : ModelConfig
secret_model = record no_model { token = b'1' ∷ short_token }

-- The token stands twice.
abbrev told_twice : Text
told_twice = (b'1' ∷ short_token) ++ b'x' ∷ (b'1' ∷ short_token)

redact_sensitive_text_lem_example :
    ((byte_length (trim_space secret_model.token) < 8)
      × (redact_sensitive_text told_twice secret_model ≡ told_twice))
    ⊎ ((8 ≤ byte_length (trim_space secret_model.token))
        × Redacted
            (trim_space secret_model.token)
            mark
            told_twice
            (redact_sensitive_text told_twice secret_model))
redact_sensitive_text_lem_example = redact_sensitive_text_lem told_twice secret_model
