-- ===== src/Hub/Bounds.antt =====
-- The bounds of the hub of internal/app/events.go, over its reachable states.
use auto_gardener.Base.{
  All, All-append, Bool-cases, List, Option, [], arith, false, if◌then◌else◌, inl, inr, is_nil, leb,
  length, length-append, length-drop, length-filter_by, map, none, not, refl, some, ℕ, ◌++◌, ◌+◌,
  ◌<◌, ◌==◌, ◌∷◌, ◌≡◌, ◌≤◌,
}
use auto_gardener.Base.Dict.{
  AllEntries, insert, insert-AllEntries, lookup, remove, remove-AllEntries,
}
use auto_gardener.Hub.{
  Channel, Hub, channel_capacity, channels, max_event_subscribers_per_task, new_event_hub, offer,
  publish, receive, subscribe, take_oldest, unsubscribe, without_channel,
}
use auto_gardener.Models.{Task}
use auto_gardener.Text.{Text}
use auto_gardener.Text.Laws.{text_key}

-- What every step of the hub keeps: no set of channels is empty or too large, no buffer overflows,
-- and the identities are those handed out so far.
abbrev pub IsFit : ℕ → Channel → Type 0
IsFit next ch = (length ch.buffer ≤ channel_capacity) × (ch.ident < next)

abbrev pub IsAllowed : ℕ → Text → List Channel → Type 0
IsAllowed n k chs =
    (0 < length chs) × (length chs ≤ max_event_subscribers_per_task) × All (IsFit n) chs

abbrev pub IsBounded : Hub → Type 0
IsBounded h = AllEntries (IsAllowed h.next_ident) h.subs

pub new_event_hub-IsBounded : IsBounded new_event_hub
unfolding new_event_hub lookup
new_event_hub-IsBounded k chs p = cc

IsFit-later : (n m : ℕ) (chs : List Channel) → n ≤ m → All (IsFit n) chs → All (IsFit m) chs
IsFit-later n m [] h a = tt
IsFit-later n m (ch ∷ chs) h a = ((a.0.0, omega (arith, a.0.1)), IsFit-later n m chs h a.1)

module _ (n : ℕ) where
  offer-IsFit :
      (t : Task) (chs : List Channel) → All (IsFit n) chs → All (IsFit n) (map (offer t) chs)
  unfolding offer
  offer-IsFit t [] a = tt
  offer-IsFit t (ch ∷ chs) a = (
    (ground (arith, length-append ch.buffer (t ∷ []), a.0), ground (arith, a.0)),
    offer-IsFit t chs a.1,
  )

  take_oldest-IsFit :
      (ident : ℕ) (chs : List Channel)
      → All (IsFit n) chs
      → All (IsFit n) (map (take_oldest ident) chs)
  take_oldest-IsFit ident [] a = tt
  take_oldest-IsFit ident (ch ∷ chs) a = (
    (ground (arith, length-drop 1 ch.buffer, a.0), ground (arith, a.0)),
    take_oldest-IsFit ident chs a.1,
  )

  without_channel-IsFit :
      (ident : ℕ) (chs : List Channel)
      → All (IsFit n) chs
      → All (IsFit n) (without_channel ident chs)
  without_channel-IsFit ident [] a = tt
  without_channel-IsFit ident (ch ∷ chs) a = elim (Bool-cases (ch.ident == ident)) [
    | inl e ↦ rw e (without_channel-IsFit ident chs a.1)
    | inr e ↦ rw e (a.0, without_channel-IsFit ident chs a.1)
  ]

length-map {ℓ κ} :
    {A : Type ℓ} {B : Type κ} (f : A → B) (xs : List A) → length (map f xs) ≡ length xs
length-map f [] = refl
length-map f (x ∷ xs) = omega (arith, length-map f xs)

-- An identity that is handed out does not disturb the channels there are.
later-IsBounded :
    (h : Hub) (n : ℕ) → h.next_ident ≤ n → IsBounded h → AllEntries (IsAllowed n) h.subs
later-IsBounded h n later b k chs p =
    let ok = b k chs p in (ok.0, ok.1, IsFit-later h.next_ident n chs later ok.2)

channels-IsFit : (h : Hub) (k : Text) → IsBounded h → All (IsFit h.next_ident) (channels k h)
channels-IsFit h k b = go (lookup k h.subs) refl
  where
    go :
        (found : Option (List Channel))
        → lookup k h.subs ≡ found
        → All (IsFit h.next_ident) (elim found [ none ↦ [] | some chs ↦ chs ])
    go none e = tt
    go (some chs) e = (b k chs e).2

add_channel-IsAllowed :
    (n : ℕ) (k : Text) (chs : List Channel)
    → leb max_event_subscribers_per_task (length chs) ≡ false
    → All (IsFit n) chs
    → IsAllowed (n + 1) k (chs ++ record { ident = n; buffer = [] } ∷ [])
add_channel-IsAllowed n k chs room fit = (
  omega (arith, length-append chs (record { ident = n; buffer = [] } ∷ [])),
  ground (arith, length-append chs (record { ident = n; buffer = [] } ∷ [])),
  All-append (IsFit (n + 1)) chs _ (IsFit-later n (n + 1) chs (omega arith) fit)
      ((omega arith, omega arith), tt),
)

-- Subscribing keeps the bounds: at the limit the hub refuses.
pub subscribe-IsBounded : (h : Hub) (k : Text) → IsBounded h → IsBounded (subscribe k h).0
unfolding subscribe
subscribe-IsBounded h k b =
    elim (Bool-cases (leb max_event_subscribers_per_task (length (channels k h)))) [
      | inl full ↦ rw full (later-IsBounded h (h.next_ident + 1) (omega arith) b)
      | inr room ↦ rw room (
          insert-AllEntries (IsAllowed (h.next_ident + 1)) k _ h.subs
            (later-IsBounded h (h.next_ident + 1) (omega arith) b)
            (add_channel-IsAllowed h.next_ident k (channels k h) room (channels-IsFit h k b)))
    ]

left-IsBounded :
    (h : Hub) (k : Text) (left : List Channel)
    → IsBounded h
    → length left ≤ max_event_subscribers_per_task
    → All (IsFit h.next_ident) left
    → AllEntries
        (IsAllowed h.next_ident)
        (if is_nil left then remove k h.subs else insert k left h.subs)
left-IsBounded h k [] b small fit = remove-AllEntries (IsAllowed h.next_ident) k h.subs b
left-IsBounded h k (ch ∷ chs) b small fit =
    insert-AllEntries (IsAllowed h.next_ident) k (ch ∷ chs) h.subs b (omega arith, small, fit)

at_lookup :
    (h : Hub) (k : Text) (f : List Channel → Hub)
    → IsBounded h
    → ((chs : List Channel) → IsAllowed h.next_ident k chs → IsBounded (f chs))
    → IsBounded (elim (lookup k h.subs) [ none ↦ h | some chs ↦ f chs ])
at_lookup h k f b step = go (lookup k h.subs) refl
  where
    go :
        (found : Option (List Channel))
        → lookup k h.subs ≡ found
        → IsBounded (elim found [ none ↦ h | some chs ↦ f chs ])
    go none e = b
    go (some chs) e = step chs (b k chs e)

-- Unsubscribing keeps the bounds, and leaves no empty set of channels.
pub unsubscribe-IsBounded :
    (h : Hub) (k : Text) (ident : ℕ) → IsBounded h → IsBounded (unsubscribe k ident h)
unfolding unsubscribe
unsubscribe-IsBounded h k ident b = at_lookup h k _ b λ chs ok.
    left-IsBounded h k (without_channel ident chs) b
      (omega (arith, ok.1, length-filter_by (λ (ch : Channel). not (ch.ident == ident)) chs))
      (without_channel-IsFit h.next_ident ident chs ok.2)

map-IsAllowed :
    (n : ℕ) (k : Text) (f : Channel → Channel) (chs : List Channel)
    → All (IsFit n) (map f chs)
    → IsAllowed n k chs
    → IsAllowed n k (map f chs)
map-IsAllowed n k f chs fit ok =
    (omega (arith, ok.0, length-map f chs), omega (arith, ok.1, length-map f chs), fit)

-- Publishing keeps the bounds: a full buffer drops the snapshot.
pub publish-IsBounded : (h : Hub) (k : Text) (t : Task) → IsBounded h → IsBounded (publish k t h)
unfolding publish
publish-IsBounded h k t b = at_lookup h k _ b λ chs ok.
    insert-AllEntries (IsAllowed h.next_ident) k (map (offer t) chs) h.subs b
      (map-IsAllowed h.next_ident k (offer t) chs (offer-IsFit h.next_ident t chs ok.2) ok)

pub receive-IsBounded :
    (h : Hub) (k : Text) (ident : ℕ) → IsBounded h → IsBounded (receive k ident h)
unfolding receive
receive-IsBounded h k ident b = at_lookup h k _ b λ chs ok.
    insert-AllEntries (IsAllowed h.next_ident) k (map (take_oldest ident) chs) h.subs b (
      map-IsAllowed h.next_ident k (take_oldest ident) chs
        (take_oldest-IsFit h.next_ident ident chs ok.2) ok)

-- One step of the hub, by a client or by the store.
pub data Step (h : Hub) : Hub → Type 0 where
  subscribes : (k : Text) → Step h (subscribe k h).0
  unsubscribes : (k : Text) (ident : ℕ) → Step h (unsubscribe k ident h)
  publishes : (k : Text) (t : Task) → Step h (publish k t h)
  receives : (k : Text) (ident : ℕ) → Step h (receive k ident h)

pub data Reach : Hub → Type 0 where
  start : Reach new_event_hub
  next : {h g : Hub} → Reach h → Step h g → Reach g

Step-IsBounded : {h g : Hub} → Step h g → IsBounded h → IsBounded g
Step-IsBounded {h} (subscribes k) b = subscribe-IsBounded h k b
Step-IsBounded {h} (unsubscribes k ident) b = unsubscribe-IsBounded h k ident b
Step-IsBounded {h} (publishes k t) b = publish-IsBounded h k t b
Step-IsBounded {h} (receives k ident) b = receive-IsBounded h k ident b

-- In every state that the hub reaches from its creation by subscribing, unsubscribing, publishing
-- and receiving in any order, a task with an entry has between 1 and 64 channels, and each channel
-- holds at most 8 snapshots and an identity handed out before.
pub Reach-IsBounded : {h : Hub} → Reach h → IsBounded h
Reach-IsBounded start = new_event_hub-IsBounded
Reach-IsBounded (next r s) = Step-IsBounded s (Reach-IsBounded r)
