-- ===== src/Proxy/Stream/Events.antt =====
-- Induction over the body that streamChatAsResponses of internal/compat/proxy.go reads: what holds of
-- its two steps, and can be joined, holds of the whole loop.
use auto_gardener.Base.{List, Option, [], none, some, ◌++◌, ◌∷◌}
use auto_gardener.Models.{Env}
use auto_gardener.Proxy.Stream.{
  ChatUsage, Choice, Chunk, Event, Signal, StreamState, ToolDelta, add_call, add_calls, add_choices,
  add_chunk, add_text, chunk, read_line, read_lines, skip, stop,
}
use auto_gardener.Text.{Text}

module _ {ℓ} (R : StreamState → StreamState → List Event → Type ℓ)
    (stay : (s : StreamState) → R s s [])
    (join : (s s' s'' : StreamState) (xs ys : List Event)
      → R s s' xs
      → R s' s'' ys
      → R s s'' (xs ++ ys))
    (on_text : (content : Text) (s : StreamState)
      → R s (add_text content s).0 (add_text content s).1)
    (on_call : (e : Env) (d : ToolDelta) (s : StreamState)
      → R s (add_call e d s).0 (add_call e d s).1)
    (on_usage : (u : Option ChatUsage) (s s' : StreamState) (xs : List Event)
      → R (record s { usage = u }) s' xs
      → R s s' xs) where
  over_calls :
      (e : Env) (ds : List ToolDelta) (s : StreamState)
      → R s (add_calls e ds s).0 (add_calls e ds s).1
  unfolding add_calls
  over_calls e [] s = stay s
  over_calls e (d ∷ more) s =
      let (s', out) = add_call e d s in
      let (s2, out') = add_calls e more s' in
      join s s' s2 out out' (on_call e d s) (over_calls e more s')

  over_choices :
      (e : Env) (cs : List Choice) (s : StreamState)
      → R s (add_choices e cs s).0 (add_choices e cs s).1
  unfolding add_choices
  over_choices e [] s = stay s
  over_choices e (c ∷ more) s =
      let (s', out) = add_text c.content s in
      let (s2, out') = add_calls e c.tool_calls s' in
      let (s3, out3) = add_choices e more s2 in
      join s s' s3 out (out' ++ out3) (on_text c.content s)
        (join s' s2 s3 out' out3 (over_calls e c.tool_calls s') (over_choices e more s2))

  over_chunk : (e : Env) (c : Chunk) (s : StreamState) → R s (add_chunk e c s).0 (add_chunk e c s).1
  unfolding add_chunk
  over_chunk e c s =
      let u : Option ChatUsage = elim c.usage [ none ↦ s.usage | some u ↦ some u ] in
      let s' = record s { usage = u } in
      on_usage u s (add_choices e c.choices s').0 (add_choices e c.choices s').1
        (over_choices e c.choices s')

  pub over_lines :
      (e : Env) (unmarshal : Text → Option Chunk) (lines : List Text) (s : StreamState)
      → R s (read_lines e unmarshal lines s).0 (read_lines e unmarshal lines s).1
  unfolding read_lines
  over_lines e unmarshal [] s = stay s
  over_lines e unmarshal (line ∷ more) s =
      case (read_line unmarshal line) (λ s'. over_lines e unmarshal more s')
    where
      after : Signal → StreamState × List Event
      after skip = read_lines e unmarshal more s
      after stop = (s, [])
      after (chunk c) =
          let (s', out) = add_chunk e c s in
          let (s2, out') = read_lines e unmarshal more s' in (s2, out ++ out')

      case :
          (signal : Signal)
          → ((s' : StreamState)
              → R s' (read_lines e unmarshal more s').0 (read_lines e unmarshal more s').1)
          → R s (after signal).0 (after signal).1
      case skip rest = rest s
      case stop rest = stay s
      case (chunk c) rest =
          let (s', out) = add_chunk e c s in
          let (s2, out') = read_lines e unmarshal more s' in
          join s s' s2 out out' (over_chunk e c s) (rest s')
