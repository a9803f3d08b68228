-- ===== src/Proxy/Stream/Texts.antt =====
-- The text that internal/compat/proxy.go streams and the text that it reports at the end.
use auto_gardener.Base.{
  Bool-cases, List, Option, [], ap, append-nil, append_assoc, arith, false, if◌then◌else◌, inl, inr,
  refl, sym, ℕ, ◌++◌, ◌+◌, ◌∙◌, ◌∷◌, ◌≡◌,
}
use auto_gardener.Models.{Env}
use auto_gardener.Proxy.Stream.{
  Chunk, Event, OutputItem, PendingToolCall, StreamState, ToolDelta, add_call, add_text, call_item,
  completed, created, empty_stream, end_of_stream, finish_calls, finish_stream, finish_text,
  items_of, message_item, ordered_tool_calls, output_of, read_lines, stream_chat_as_responses,
  text_delta,
}
use auto_gardener.Proxy.Stream.Events.{over_lines}
use auto_gardener.Text.{Text}

-- The concatenation of what a function takes from each event.
gather : (Event → Text) → List Event → Text
gather f [] = []
gather f (x ∷ more) = f x ++ gather f more

gather-append :
    (f : Event → Text) (xs ys : List Event) → gather f (xs ++ ys) ≡ gather f xs ++ gather f ys
unfolding gather
gather-append f [] ys = refl
gather-append f (x ∷ xs) ys = simp (gather-append f xs ys, append_assoc)

delta_text : Event → Text
delta_text (text_delta i t) = t
delta_text _ = []

items_text : List OutputItem → Text
items_text [] = []
items_text (message_item t ∷ more) = t ++ items_text more
items_text (call_item c ∷ more) = items_text more

report_text : Event → Text
unfolding items_text
report_text (completed out u) = items_text out
report_text _ = []

-- The pieces of text that a client gets while the stream runs, joined.
unfoldable pub streamed_text : List Event → Text
unfolding gather delta_text
streamed_text = gather delta_text

-- The text of the messages in the report.
unfoldable pub reported_text : List Event → Text
unfolding gather report_text
reported_text = gather report_text

-- The state collects what is streamed, nothing is reported yet, and a text that is not begun is empty.
record Collects (s s' : StreamState) (out : List Event) : Type 0 where
  pub collected : s'.text ≡ s.text ++ gather delta_text out
  pub unreported : gather report_text out ≡ []
  pub unbegun : (s.text_started ≡ false → s.text ≡ []) → s'.text_started ≡ false → s'.text ≡ []

Collects-append :
    (s s' s'' : StreamState) (xs ys : List Event)
    → Collects s s' xs
    → Collects s' s'' ys
    → Collects s s'' (xs ++ ys)
Collects-append s s' s'' xs ys h k = record {
  collected = simp (gather-append delta_text xs ys, k.collected, h.collected, append_assoc);
  unreported = simp (gather-append report_text xs ys, h.unreported, k.unreported);
  unbegun = λ b. k.unbegun (h.unbegun b);
}

add_text-Collects :
    (content : Text) (s : StreamState) → Collects s (add_text content s).0 (add_text content s).1
unfolding add_text gather delta_text report_text
add_text-Collects content s = record {
  collected = ground (arith, append-nil s.text, append-nil content);
  unreported = ground arith;
  unbegun = λ b. ground arith;
}

add_call-Collects :
    (e : Env) (d : ToolDelta) (s : StreamState) → Collects s (add_call e d s).0 (add_call e d s).1
unfolding add_call gather delta_text report_text
add_call-Collects e d s = record {
  collected = ground (arith, append-nil s.text);
  unreported = ground arith;
  unbegun = λ b. b;
}

read_lines-Collects :
    (e : Env) (unmarshal : Text → Option Chunk) (lines : List Text) (s : StreamState)
    → Collects s (read_lines e unmarshal lines s).0 (read_lines e unmarshal lines s).1
unfolding gather
read_lines-Collects =
    over_lines Collects
      (λ s. record { collected = sym (append-nil s.text); unreported = refl; unbegun = λ b. b })
      Collects-append add_text-Collects add_call-Collects
      (λ u s s' xs h. record {
        collected = h.collected;
        unreported = h.unreported;
        unbegun = h.unbegun;
      })

finish_calls_texts :
    (index : ℕ) (calls : List PendingToolCall)
    → (gather delta_text (finish_calls index calls) ≡ [])
      × (gather report_text (finish_calls index calls) ≡ [])
unfolding finish_calls gather delta_text report_text
finish_calls_texts index [] = (refl, refl)
finish_calls_texts index (c ∷ more) =
    let (d, r) = finish_calls_texts (index + 1) more in (ground (arith, d), ground (arith, r))

items_of_text : (calls : List PendingToolCall) → items_text (items_of calls) ≡ []
unfolding items_of items_text
items_of_text [] = refl
items_of_text (c ∷ more) = items_of_text more

output_of_text :
    (s : StreamState) → (s.text_started ≡ false → s.text ≡ []) → items_text (output_of s) ≡ s.text
unfolding output_of items_text
output_of_text s h = elim (Bool-cases s.text_started) [
  | inl begun ↦ rw begun (simp (items_of_text, append-nil))
  | inr silent ↦ rw silent (items_of_text (ordered_tool_calls s.tool_calls) ∙ sym (h silent))
]

finish_text_texts :
    (s : StreamState)
    → (gather delta_text (finish_text s) ≡ []) × (gather report_text (finish_text s) ≡ [])
unfolding finish_text gather delta_text report_text
finish_text_texts s = (ground arith, ground arith)

gather_last :
    (f : Event → Text) (xs ys zs : List Event)
    → gather f xs ≡ []
    → gather f ys ≡ []
    → gather f (xs ++ (ys ++ zs)) ≡ gather f zs
gather_last f xs ys zs p q = simp (gather-append f, p, q)

finish_stream_texts :
    (s : StreamState)
    → (gather delta_text (finish_stream s) ≡ [])
      × (gather report_text (finish_stream s) ≡ items_text (output_of s))
unfolding finish_stream
finish_stream_texts s =
    let calls = ordered_tool_calls s.tool_calls in
    let index = if s.text_started then 1 else 0 in
    let last = completed (output_of s) s.usage ∷ end_of_stream ∷ [] in
    let (d, r) = finish_calls_texts index calls in
    let (d', r') = finish_text_texts s in
    (
      gather_last delta_text (finish_text s) (finish_calls index calls) last d' d ∙ last_delta s,
      gather_last report_text (finish_text s) (finish_calls index calls) last r' r ∙ last_report s,
    )
  where
    last_delta :
        (s : StreamState)
        → gather delta_text (completed (output_of s) s.usage ∷ end_of_stream ∷ []) ≡ []
    last_delta s = unfold gather delta_text in refl

    last_report :
        (s : StreamState)
        → gather report_text (completed (output_of s) s.usage ∷ end_of_stream ∷ [])
          ≡ items_text (output_of s)
    last_report s = unfold gather report_text in append-nil (items_text (output_of s))

gather-stream_chat_as_responses :
    (f : Event → Text) (e : Env) (unmarshal : Text → Option Chunk) (lines : List Text)
    → gather f (stream_chat_as_responses e unmarshal lines)
      ≡ f created
        ++ (gather f (read_lines e unmarshal lines empty_stream).1
            ++ gather f (finish_stream (read_lines e unmarshal lines empty_stream).0))
unfolding stream_chat_as_responses gather
gather-stream_chat_as_responses f e unmarshal lines =
    let r = read_lines e unmarshal lines empty_stream in
    ap (λ t. f created ++ t) (gather-append f r.1 (finish_stream r.0))

-- The pieces of text that the client gets one by one make up the text that the final report holds,
-- whatever the body of the provider is.
pub streamed_text-stream_chat_as_responses :
    (e : Env) (unmarshal : Text → Option Chunk) (lines : List Text)
    → streamed_text (stream_chat_as_responses e unmarshal lines)
      ≡ reported_text (stream_chat_as_responses e unmarshal lines)
unfolding streamed_text reported_text delta_text report_text
streamed_text-stream_chat_as_responses e unmarshal lines =
    let r = read_lines e unmarshal lines empty_stream in
    let h = read_lines-Collects e unmarshal lines empty_stream in
    let f = finish_stream_texts r.0 in
    rw
      (
        gather-stream_chat_as_responses delta_text e unmarshal lines,
        gather-stream_chat_as_responses report_text e unmarshal lines,
        f.0,
        f.1,
        h.unreported,
        append-nil,
        output_of_text r.0 (h.unbegun (λ b. refl)),
      )
      (sym h.collected)
