-- ===== src/Hub.antt =====
-- internal/app/events.go: the hub that hands snapshots of a task to its subscribers.
-- A channel is its identity and the tasks waiting in its buffer. The stored map is never nil.
pub mod Bounds
use auto_gardener.Base.{
  List, Option, [], drop, filter_by, if◌then◌else◌, is_nil, leb, length, ltb, map, none, not, some,
  ℕ, ◌++◌, ◌+◌, ◌==◌, ◌∷◌,
}
use auto_gardener.Base.Dict.{insert, lookup, remove}
use auto_gardener.Models.{Task}
use auto_gardener.Text.{Text}
use auto_gardener.Text.Laws.{text_key}

abbrev pub max_event_subscribers_per_task : ℕ
max_event_subscribers_per_task = 64

-- make(chan *Task, 8)
abbrev pub channel_capacity : ℕ
channel_capacity = 8

pub record Channel : Type 0 where
  pub ident : ℕ
  pub buffer : List Task

pub record Hub : Type 0 where
  pub subs : List (Text × List Channel)
  pub next_ident : ℕ

unfoldable pub new_event_hub : Hub
new_event_hub = record { subs = []; next_ident = 0 }

-- h.subs[taskID]; a missing entry is an empty set.
abbrev pub channels : Text → Hub → List Channel
channels task_id h = elim (lookup task_id h.subs) [ none ↦ [] | some chs ↦ chs ]

-- The identity of the new channel, `none` where the task has too many subscribers.
unfoldable pub subscribe : Text → Hub → Hub × Option ℕ
subscribe task_id h =
    let chs = channels task_id h in
    if leb max_event_subscribers_per_task (length chs)
    then (record h { next_ident = h.next_ident + 1 }, none)
    else (
      record h {
        subs = insert task_id (chs ++ record { ident = h.next_ident; buffer = [] } ∷ []) h.subs;
        next_ident = h.next_ident + 1;
      },
      some h.next_ident,
    )

abbrev pub without_channel : ℕ → List Channel → List Channel
without_channel ident chs = filter_by (λ (ch : Channel). not (ch.ident == ident)) chs

-- The function that `Subscribe` returns.
unfoldable pub unsubscribe : Text → ℕ → Hub → Hub
unsubscribe task_id ident h = elim (lookup task_id h.subs) [
  | none ↦ h
  | some chs ↦
      let left = without_channel ident chs in
      record h { subs = if is_nil left then remove task_id h.subs else insert task_id left h.subs }
]

-- The `select` with a default: a full buffer drops the snapshot.
unfoldable pub offer : Task → Channel → Channel
offer t ch =
    if ltb (length ch.buffer) channel_capacity
    then record ch { buffer = ch.buffer ++ t ∷ [] }
    else ch

unfoldable pub publish : Text → Task → Hub → Hub
publish task_id t h = elim (lookup task_id h.subs) [
  | none ↦ h
  | some chs ↦ record h { subs = insert task_id (map (offer t) chs) h.subs }
]

-- `<-ch`: the reader of one channel takes the oldest snapshot.
abbrev pub take_oldest : ℕ → Channel → Channel
take_oldest ident ch = if ch.ident == ident then record ch { buffer = drop 1 ch.buffer } else ch

unfoldable pub receive : Text → ℕ → Hub → Hub
receive task_id ident h = elim (lookup task_id h.subs) [
  | none ↦ h
  | some chs ↦ record h { subs = insert task_id (map (take_oldest ident) chs) h.subs }
]
