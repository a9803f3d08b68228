-- ===== src/Proxy/Messages/Normal.antt =====
-- What normalizeChatMessages of internal/compat/proxy.go makes of a list of messages.
use auto_gardener.Base.{
  All, Bool, Bool-cases, List, [], ap, arith, false, filter_by, if◌then◌else◌, inl, inr, is_nil,
  length, not, refl, true, ◌∙◌, ◌∷◌, ◌≡◌, ◌≤◌, ◌⊎◌,
}
use auto_gardener.Proxy.Messages.{
  ChatMessage, blank_line, contents_of, is_system_part, normalize_chat_messages, plain, system_role,
}
use auto_gardener.Text.{Text, join}

is_other : ChatMessage → Bool
is_other m = not (is_system_part m)

-- The messages that are taken into the system message, and the others in their order.
unfoldable pub system_parts : List ChatMessage → List ChatMessage
system_parts = filter_by is_system_part

unfoldable pub other_messages : List ChatMessage → List ChatMessage
unfolding is_other
other_messages = filter_by (λ m. not (is_system_part m))

filter_by_idem :
    (p : ChatMessage → Bool) (ms : List ChatMessage) → filter_by p (filter_by p ms) ≡ filter_by p ms
filter_by_idem p [] = refl
filter_by_idem p (m ∷ more) = ground (arith, filter_by_idem p more)

filter_by-not :
    (p : ChatMessage → Bool) (ms : List ChatMessage)
    → filter_by p (filter_by (λ m. not (p m)) ms) ≡ []
filter_by-not p [] = refl
filter_by-not p (m ∷ more) = ground (arith, filter_by-not p more)

-- The text of the one system message.
unfoldable pub system_text : List ChatMessage → Text
unfolding contents_of
system_text ms = join blank_line (contents_of (system_parts ms))

-- A text that is joined from one that is not empty is not empty.
is_nil-join :
    (c : Text) (more : List Text) → is_nil c ≡ false → is_nil (join blank_line (c ∷ more)) ≡ false
unfolding join
is_nil-join [] more h = cc
is_nil-join (x ∷ c) [] h = refl
is_nil-join (x ∷ c) (d ∷ more) h = refl

part-content : (m : ChatMessage) → is_system_part m ≡ true → is_nil m.content ≡ false
unfolding is_system_part
part-content m h = ground arith

system_parts-All :
    (ms : List ChatMessage) → All (λ (m : ChatMessage). is_nil m.content ≡ false) (system_parts ms)
unfolding system_parts
system_parts-All [] = tt
system_parts-All (m ∷ more) = elim (Bool-cases (is_system_part m)) [
  | inl part ↦ rw part (part-content m part, system_parts-All more)
  | inr apart ↦ rw apart (system_parts-All more)
]

is_nil-contents :
    (ms : List ChatMessage)
    → All (λ (m : ChatMessage). is_nil m.content ≡ false) ms
    → is_nil (contents_of ms) ≡ false
    → is_nil (join blank_line (contents_of ms)) ≡ false
unfolding contents_of
is_nil-contents [] h k = cc
is_nil-contents (m ∷ more) h k = is_nil-join m.content (contents_of more) h.0

-- The system message that is put at the head.
unfoldable pub merged_message : List ChatMessage → ChatMessage
unfolding plain system_role
merged_message ms = plain system_role (system_text ms)

merged_message-IsPart :
    (ms : List ChatMessage)
    → is_nil (contents_of (system_parts ms)) ≡ false
    → is_system_part (merged_message ms) ≡ true
unfolding merged_message system_text is_system_part
merged_message-IsPart ms h =
    rw (is_nil-contents (system_parts ms) (system_parts-All ms) h) (ground arith)

normalize_cases :
    (ms : List ChatMessage)
    → ((contents_of (system_parts ms) ≡ []) × (normalize_chat_messages ms ≡ other_messages ms))
      ⊎ ((is_nil (contents_of (system_parts ms)) ≡ false)
          × (normalize_chat_messages ms ≡ merged_message ms ∷ other_messages ms))
unfolding normalize_chat_messages system_parts other_messages merged_message system_text
normalize_cases ms = split (contents_of (system_parts ms)) refl
  where
    split :
        (cs : List Text)
        → contents_of (system_parts ms) ≡ cs
        → ((contents_of (system_parts ms) ≡ []) × (normalize_chat_messages ms ≡ other_messages ms))
          ⊎ ((is_nil (contents_of (system_parts ms)) ≡ false)
              × (normalize_chat_messages ms ≡ merged_message ms ∷ other_messages ms))
    split [] e = inl (e, rw e)
    split (c ∷ cs) e = inr (rw e, rw e)

system_parts-other_messages : (ms : List ChatMessage) → system_parts (other_messages ms) ≡ []
unfolding system_parts other_messages
system_parts-other_messages ms = filter_by-not is_system_part ms

other_messages_idem :
    (ms : List ChatMessage) → other_messages (other_messages ms) ≡ other_messages ms
unfolding other_messages
other_messages_idem ms = filter_by_idem (λ m. not (is_system_part m)) ms

system_parts-cons :
    (m : ChatMessage) (ms : List ChatMessage)
    → is_system_part m ≡ true
    → (system_parts (m ∷ ms) ≡ m ∷ system_parts ms) × (other_messages (m ∷ ms) ≡ other_messages ms)
unfolding system_parts other_messages
system_parts-cons m ms h = (rw h, rw h)

normalize_if :
    (ms : List ChatMessage)
    → normalize_chat_messages ms ≡ (
        if is_nil (contents_of (system_parts ms))
        then other_messages ms
        else merged_message ms ∷ other_messages ms)
unfolding normalize_chat_messages system_parts other_messages merged_message system_text
normalize_if ms = refl

-- What is asked of the list of messages `out` that is sent in place of `ms`.
pub record IsNormalOf (ms out : List ChatMessage) : Type 0 where
  pub kept : other_messages out ≡ other_messages ms
  pub single : length (system_parts out) ≤ 1
  pub merged : system_text out ≡ system_text ms
  pub settled : normalize_chat_messages out ≡ out

others-IsNormalOf :
    (ms : List ChatMessage) → contents_of (system_parts ms) ≡ [] → IsNormalOf ms (other_messages ms)
unfolding system_text
others-IsNormalOf ms h =
    let p = system_parts-other_messages ms in
    record {
      kept = other_messages_idem ms;
      single = rw p (omega arith);
      merged = rw (p, h, contents_of) refl;
      settled = rw (normalize_if (other_messages ms), p, contents_of) (other_messages_idem ms);
    }

single_text :
    (out : List ChatMessage) (m : ChatMessage)
    → system_parts out ≡ m ∷ []
    → system_text out ≡ m.content
unfolding system_text contents_of join
single_text out m h = rw h refl

merged-again :
    (ms out : List ChatMessage)
    → system_parts out ≡ merged_message ms ∷ []
    → merged_message out ≡ merged_message ms
unfolding merged_message
merged-again ms out h = ap (λ t. plain system_role t) (single_text out (merged_message ms) h)

told_text : (ms : List ChatMessage) → (merged_message ms).content ≡ system_text ms
unfolding merged_message
told_text ms = refl

merged-IsNormalOf :
    (ms : List ChatMessage)
    → is_nil (contents_of (system_parts ms)) ≡ false
    → IsNormalOf ms (merged_message ms ∷ other_messages ms)
unfolding contents_of
merged-IsNormalOf ms h =
    let m = merged_message ms in
    let (p, o) = system_parts-cons m (other_messages ms) (merged_message-IsPart ms h) in
    let one = p ∙ ap (λ r. m ∷ r) (system_parts-other_messages ms) in
    let same = o ∙ other_messages_idem ms in
    record {
      kept = same;
      single = rw one (omega arith);
      merged = single_text (m ∷ other_messages ms) m one ∙ told_text ms;
      settled =
          rw (normalize_if (m ∷ other_messages ms), one, contents_of)
            (λ i. merged-again ms (m ∷ other_messages ms) one i ∷ same i);
    }

-- The messages for a provider: at most one of them is a system text and holds all of them, joined by
-- blank lines; the other messages stay, in their order; and a second pass changes nothing.
pub normalize_chat_messages-IsNormalOf :
    (ms : List ChatMessage) → IsNormalOf ms (normalize_chat_messages ms)
normalize_chat_messages-IsNormalOf ms = elim (normalize_cases ms) [
  | inl (h, e) ↦ rw e (others-IsNormalOf ms h)
  | inr (h, e) ↦ rw e (merged-IsNormalOf ms h)
]
